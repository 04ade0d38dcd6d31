-- ===== src/Mmu/Alloc.antt =====
-- `mmu040_alloc_at`, `mmu040_free_at` and `mmu040_map_current_userspace` of kernel/mmu/mmu040.c.
use trollos.Base.{ℕ, ◌/◌, ◌^◌, Bool, if◌then◌else◌, diverge, Cmd, pure, ◌>>=◌, ◌>>◌, for_up}
use trollos.Mmu.{
  Mmu, Pointer, set_field, udt_is_resident, pdt_is_resident, root_table_address,
  pointer_table_address, page_address, load_word, store_word, mapping_push, map_table, entry_at,
  alloc_frame, free_frame, get_table_indices,
}
use trollos.Mmu.Tables.{root_pointer, enter_table, pop_all}

-- The table that an entry holds, mapped; or a new one, entered there. `low` is the first bit of
-- the entry's address. A frame that could not be allocated is not noticed.
unfoldable pub table_of : ℕ → (ℕ → Bool) → (ℕ → ℕ) → Pointer → Cmd Mmu Pointer
table_of low is_resident address entry = do
  w ← load_word entry
  if is_resident w then map_table (address w) else (do
    ph ← alloc_frame
    page ← mapping_push ph
    enter_table low entry ph
    pure (record { page = page; offset = 0 }))

abbrev pub bit : Bool → ℕ
bit b = if b then 1 else 0

-- The fields of a page's descriptor that `mmu040_alloc_at` sets.
unfoldable pub page_descriptor_for : ℕ → Bool → Bool → ℕ → ℕ
page_descriptor_for frame supervisor write_protected w =
    let addressed = set_field 12 20 (frame / 2 ^ 12) w in
    let cached = set_field 5 2 1 (set_field 7 1 (bit supervisor) addressed) in
    set_field 0 2 1 (set_field 2 1 (bit write_protected) cached)

-- The frame that was at the entry, if any, goes back to the free frames.
unfoldable pub replace_page : Pointer → Bool → Cmd Mmu (Unit {0})
replace_page entry write_protected = do
  w ← load_word entry
  if pdt_is_resident w
      then (do
        store_word entry (set_field 2 1 (bit write_protected) w)
        v ← load_word entry
        free_frame (page_address v))
      else pure tt

-- `mmu040_alloc_at`
unfoldable pub alloc_at : ℕ → Bool → Bool → Cmd Mmu ℕ
alloc_at virt supervisor write_protected = do
  let (root_index, pointer_index, page_index) = get_table_indices virt
  root_table ← λ s. map_table (root_pointer (if supervisor then s.srp else s.urp)) s
  pointer_table ← table_of 9 udt_is_resident root_table_address (entry_at root_table root_index)
  page_table ←
      table_of 7 udt_is_resident pointer_table_address (entry_at pointer_table pointer_index)
  replace_page (entry_at page_table page_index) write_protected
  frame ← alloc_frame
  w ← load_word (entry_at page_table page_index)
  store_word (entry_at page_table page_index)
      (page_descriptor_for frame supervisor write_protected w)
  pop_all 3
  pure frame

-- `mmu040_free_at`: a panic.
unfoldable pub free_at : ℕ → Bool → Cmd Mmu (Unit {0})
free_at virt supervisor s = diverge

-- `mmu040_map_current_userspace`: the descriptors of the lower three quarters.
unfoldable pub map_current_userspace : Cmd Mmu (Unit {0})
map_current_userspace = do
  supervisor_root_table ← λ s. map_table (root_pointer s.srp) s
  user_root_table ← λ s. map_table (root_pointer s.urp) s
  for_up 96 0 (λ i.
      load_word (entry_at user_root_table i) >>= store_word (entry_at supervisor_root_table i))
  pop_all 2
