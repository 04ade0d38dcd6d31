-- ===== src/Mmu/Tables.antt =====
-- The tables of kernel/mmu/mmu040.c: the list of free frames that is built at the start, the user
-- spaces, and the pages that are allocated at an address. A descriptor is a word of memory.
use trollos.Base.{
  ℕ, zero, suc, ◌+◌, ◌-◌, ◌*◌, ◌/◌, ◌%◌, ◌^◌, if◌then◌else◌, leb, ◌==◌, update, ret, fail, Cmd,
  pure, throw, ◌>>=◌, ◌>>◌, for_up, einval, enomem,
}
use trollos.Mmu.{
  Mmu, Pointer, page_size, field, set_field, udt_is_resident, pdt_is_resident, root_table_address,
  pointer_table_address, page_address, load_word, store_word, mapping_push, mapping_pop, map_table,
  entry_at, alloc_frame, free_frame, read_byte, write_byte,
}

abbrev pub root_level_descriptors : ℕ
root_level_descriptors = 128

abbrev pub pointer_level_descriptors : ℕ
pointer_level_descriptors = 128

abbrev pub page_descriptors : ℕ
page_descriptors = 64

abbrev pub mmu_dram_start : ℕ
mmu_dram_start = 2147483648

-- The root pointer that a `Mmu040RegRootPointer` holds, as an address.
abbrev pub root_pointer : ℕ → ℕ
root_pointer w = field 9 23 w * 2 ^ 9

-- for (i = i; n > 0; i++, n--), where a round changes a local variable.
unfoldable pub for_with : {A : Type 0} → ℕ → ℕ → (ℕ → A → Cmd Mmu A) → A → Cmd Mmu A
for_with zero i body a = pure a
for_with (suc n) i body a = do b ← body i a; for_with n (i + 1) body b

-- A call on the pages of the mapper, with the page given back after it.
abbrev pub then_pop : {A : Type 0} → Cmd Mmu A → Cmd Mmu A
then_pop m = do a ← m; mapping_pop; pure a

-- The innermost round of the first loop of `_build_free_frame_list`.
unfoldable pub skip_page : Pointer → ℕ → ℕ → Cmd Mmu ℕ
skip_page page_table k first = do
  w ← load_word (entry_at page_table k)
  if pdt_is_resident w
      then (if leb first (page_address w)
          then (λ s.
              ret ((page_address w + page_size) % 2 ^ 32)
                (record s { free_frames = (s.free_frames + 2 ^ 32 - 1) % 2 ^ 32 }))
          else pure first)
      else pure first

unfoldable pub skip_page_table : Pointer → ℕ → ℕ → Cmd Mmu ℕ
skip_page_table pointer_table j first = do
  w ← load_word (entry_at pointer_table j)
  if udt_is_resident w
      then (do
        page_table ← map_table (pointer_table_address w)
        then_pop (for_with page_descriptors 0 (skip_page page_table) first))
      else pure first

unfoldable pub skip_pointer_table : Pointer → ℕ → ℕ → Cmd Mmu ℕ
skip_pointer_table root_td i first = do
  w ← load_word (entry_at root_td i)
  if udt_is_resident w
      then (do
        pointer_table ← map_table (root_table_address w)
        then_pop (for_with pointer_level_descriptors 0 (skip_page_table pointer_table) first))
      else pure first

-- The second loop: the `n` frames from `free` on are put on the list.
unfoldable pub link_frames : ℕ → ℕ → Cmd Mmu (Unit {0})
link_frames zero free = pure tt
link_frames (suc n) free = do free_frame free; link_frames n (free + page_size)

-- `_build_free_frame_list`, where `root_td` shows the root table of the kernel. The number of
-- rounds of the second loop is that of the frames from the first free one to the end of memory.
unfoldable pub build_free_frame_list : Pointer → Cmd Mmu ℕ
build_free_frame_list root_td = do
  first ← for_with root_level_descriptors 0 (skip_pointer_table root_td) mmu_dram_start
  λ s.
      link_frames
        ((mmu_dram_start + s.total_frames * page_size + (page_size - 1) - first) / page_size) first
        s
  λ s. ret s.next_frame s

-- `mmu040_init`
unfoldable pub mmu_init : Pointer → Cmd Mmu (Unit {0})
mmu_init root_td = do
  λ s. ret tt (record s {
    total_frames = 64 * 1024 * 1024 / page_size;
    free_frames = 64 * 1024 * 1024 / page_size;
    next_frame = 0;
  })
  build_free_frame_list root_td
  pure tt

-- `mmu040_init_userspace`; the handle is an address, 0 for NULL.
unfoldable pub init_userspace : ℕ → Cmd Mmu (Unit {0})
init_userspace userspace = if userspace == 0 then throw einval else (do
  λ s. ret tt (record s { handle = update s.handle userspace 0 })
  directory ← alloc_frame
  if directory == 0 then throw enomem else (λ s.
      let w = set_field 9 23 (directory / 2 ^ 9) (s.handle userspace) in
      ret tt (record s { handle = update s.handle userspace w; urp = w })))

-- The rounds of `mmu040_clear_userspace`.
unfoldable pub clear_page : Pointer → ℕ → Cmd Mmu (Unit {0})
clear_page page_table k = do
  w ← load_word (entry_at page_table k)
  if pdt_is_resident w then free_frame (page_address w) else pure tt

unfoldable pub clear_page_table : Pointer → ℕ → Cmd Mmu (Unit {0})
clear_page_table pointer_table j = do
  w ← load_word (entry_at pointer_table j)
  if udt_is_resident w
      then (do
        page_table ← map_table (pointer_table_address w)
        for_up page_descriptors 0 (clear_page page_table)
        mapping_pop
        free_frame (pointer_table_address w))
      else pure tt

unfoldable pub clear_pointer_table : Pointer → ℕ → Cmd Mmu (Unit {0})
clear_pointer_table root_table i = do
  w ← load_word (entry_at root_table i)
  if udt_is_resident w
      then (do
        pointer_table ← map_table (root_table_address w)
        for_up pointer_level_descriptors 0 (clear_page_table pointer_table)
        mapping_pop
        free_frame (root_table_address w)
        v ← load_word (entry_at root_table i)
        store_word (entry_at root_table i) (set_field 0 2 0 v))
      else pure tt

-- `mmu040_clear_userspace`
unfoldable pub clear_userspace : ℕ → Cmd Mmu (Unit {0})
clear_userspace userspace = do
  root_table ← λ s. map_table (root_pointer (s.handle userspace)) s
  for_up root_level_descriptors 0 (clear_pointer_table root_table)
  mapping_pop

-- `mmu040_free_userspace`
unfoldable pub free_userspace : ℕ → Cmd Mmu (Unit {0})
free_userspace userspace = do
  clear_userspace userspace
  λ s. free_frame (root_pointer (s.handle userspace)) s

-- `mmu040_switch_userspace`
unfoldable pub switch_userspace : ℕ → Cmd Mmu (Unit {0})
switch_userspace userspace s =
    if userspace == 0 then fail einval s else ret tt (record s { urp = s.handle userspace })

-- `n` calls of `_mapping_pop`.
unfoldable pub pop_all : ℕ → Cmd Mmu (Unit {0})
pop_all zero = pure tt
pop_all (suc n) = mapping_pop >> pop_all n

-- A frame for `mmu040_clone_userspace`; where there is none, `n` pages of the mapper are given
-- back and the call fails.
unfoldable pub frame_or_pop : ℕ → Cmd Mmu ℕ
frame_or_pop n = do ph ← alloc_frame; if ph == 0 then pop_all n >> throw enomem else pure ph

-- `table[i].table_address = field; table[i].upper_level_descriptor_type = RESIDENT`, where the
-- address starts at bit `low`.
unfoldable pub enter_table : ℕ → Pointer → ℕ → Cmd Mmu (Unit {0})
enter_table low entry ph = do
  w ← load_word entry
  store_word entry (set_field 0 2 2 (set_field low (32 - low) (ph / 2 ^ low) w))

-- table[i].upper_level_descriptor_type = INVALID, and the same for a page.
unfoldable pub invalidate_entry : Pointer → Cmd Mmu (Unit {0})
invalidate_entry entry = do w ← load_word entry; store_word entry (set_field 0 2 0 w)

-- memcpy of a page, from the end.
unfoldable pub copy_page : ℕ → ℕ → ℕ → Cmd Mmu (Unit {0})
copy_page zero to from = pure tt
copy_page (suc n) to from = do
  b ← read_byte (record { page = from; offset = n })
  write_byte (record { page = to; offset = n }) b
  copy_page n to from

-- The rounds of `mmu040_clone_userspace`.
unfoldable pub clone_page : Pointer → Pointer → ℕ → Cmd Mmu (Unit {0})
clone_page page_table_from page_table_to k = do
  w ← load_word (entry_at page_table_from k)
  if pdt_is_resident w
      then (do
        ph ← frame_or_pop 6
        page_to ← mapping_push ph
        whole ← load_word (entry_at page_table_from k)
        store_word (entry_at page_table_to k) whole
        v ← load_word (entry_at page_table_to k)
        store_word (entry_at page_table_to k) (set_field 12 20 (ph / 2 ^ 12) v)
        u ← load_word (entry_at page_table_from k)
        page_from ← mapping_push (page_address u)
        copy_page page_size page_to page_from
        pop_all 2)
      else invalidate_entry (entry_at page_table_to k)

unfoldable pub clone_page_table : Pointer → Pointer → ℕ → Cmd Mmu (Unit {0})
clone_page_table pointer_table_from pointer_table_to j = do
  w ← load_word (entry_at pointer_table_from j)
  if udt_is_resident w
      then (do
        ph ← frame_or_pop 4
        page ← mapping_push ph
        enter_table 7 (entry_at pointer_table_to j) ph
        v ← load_word (entry_at pointer_table_from j)
        page_table_from ← map_table (pointer_table_address v)
        for_up page_descriptors 0 (clone_page page_table_from (record { page = page; offset = 0 }))
        pop_all 2)
      else invalidate_entry (entry_at pointer_table_to j)

unfoldable pub clone_pointer_table : Pointer → Pointer → ℕ → Cmd Mmu (Unit {0})
clone_pointer_table root_table_from root_table_to i = do
  w ← load_word (entry_at root_table_from i)
  if udt_is_resident w
      then (do
        ph ← frame_or_pop 2
        page ← mapping_push ph
        enter_table 9 (entry_at root_table_to i) ph
        v ← load_word (entry_at root_table_from i)
        pointer_table_from ← map_table (root_table_address v)
        for_up pointer_level_descriptors 0
            (clone_page_table pointer_table_from (record { page = page; offset = 0 }))
        pop_all 2)
      else invalidate_entry (entry_at root_table_to i)

-- `mmu040_clone_userspace`
unfoldable pub clone_userspace : ℕ → ℕ → Cmd Mmu (Unit {0})
clone_userspace from to = if from == 0 then throw einval else if to == 0 then throw einval else (do
  root_table_from ← λ s. map_table (root_pointer (s.handle from)) s
  root_table_to ← λ s. map_table (root_pointer (s.handle to)) s
  for_up root_level_descriptors 0 (clone_pointer_table root_table_from root_table_to)
  pop_all 2)
