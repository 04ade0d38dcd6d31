-- ===== src/Mmu.antt =====
-- kernel/mmu/mmu040.c, kernel/mmu/mmu040.h and include/mmu.h: the frames of physical memory and the
-- mapper through which the kernel reaches them. The words of memory are a function from addresses
-- that are multiples of 4; what mmu040.S does is written out: it zeroes a page, drops the cached
-- translation of one, and moves the root pointers.
pub mod Frames
pub mod Copy
pub mod Tables
pub mod Alloc
use trollos.Base.{
  ℕ, zero, suc, ◌+◌, ◌-◌, ◌*◌, ◌/◌, ◌%◌, ◌^◌, Bool, true, false, ◌||◌, Option, none, some,
  if◌then◌else◌, ltb, ◌==◌, update, ret, fault, diverge, Cmd, pure, ◌>>=◌, ◌>>◌,
}
use trollos.Base.Outcome.{Outcome}

abbrev pub page_size : ℕ
page_size = 4096

abbrev pub mapper_pages : ℕ
mapper_pages = 10

-- `_mem_layout`, and `_mapper`: the frame that each of its pages shows, where it was ever mapped,
-- and the number of pages in use. `handle` holds the `MmuUserspaceHandle`s by their addresses;
-- `srp` and `urp` are the root pointers of the machine.
pub record Mmu : Type 0 where
  pub memory : ℕ → ℕ
  pub page_descriptor : ℕ → Option ℕ
  pub mapping : ℕ
  pub free_frames : ℕ
  pub total_frames : ℕ
  pub next_frame : ℕ
  pub handle : ℕ → ℕ
  pub srp : ℕ
  pub urp : ℕ

-- A pointer into the pages of the mapper: the page, and the offset from its start.
pub record Pointer : Type 0 where
  pub page : ℕ
  pub offset : ℕ

-- The `width` bits from bit `low` on, read and written: the fields of the descriptors.
abbrev pub field : ℕ → ℕ → ℕ → ℕ
field low width w = w / 2 ^ low % 2 ^ width

unfoldable pub set_field : ℕ → ℕ → ℕ → ℕ → ℕ
set_field low width v w =
    w / 2 ^ (low + width) * 2 ^ (low + width) + v % 2 ^ width * 2 ^ low + w % 2 ^ low

-- UDT_IS_RESIDENT and PDT_IS_RESIDENT on a descriptor.
abbrev pub udt_is_resident : ℕ → Bool
udt_is_resident w = field 0 2 w == 2 || field 0 2 w == 3

abbrev pub pdt_is_resident : ℕ → Bool
pdt_is_resident w = field 0 2 w == 1 || field 0 2 w == 3

-- The addresses that the descriptors of the three levels hold, with the bits below them.
abbrev pub root_table_address : ℕ → ℕ
root_table_address w = field 9 23 w * 2 ^ 9

abbrev pub pointer_table_address : ℕ → ℕ
pointer_table_address w = field 7 25 w * 2 ^ 7

abbrev pub page_address : ℕ → ℕ
page_address w = field 12 20 w * 2 ^ 12

-- The address that a pointer reaches.
unfoldable pub physical_of : Pointer → Mmu → Option ℕ
physical_of p s =
    let page = p.page + p.offset / page_size in
    if ltb page mapper_pages
    then elim (s.page_descriptor page) [
      | none ↦ none
      | some frame ↦ some (frame * page_size + p.offset % page_size)
    ]
    else none

-- *p, on words
unfoldable pub load_word : Pointer → Cmd Mmu ℕ
load_word p s = elim (physical_of p s) [ none ↦ fault | some a ↦ ret (s.memory a) s ]

-- *p = v, on words
unfoldable pub store_word : Pointer → ℕ → Cmd Mmu (Unit {0})
store_word p v s = elim (physical_of p s) [
  | none ↦ fault
  | some a ↦ ret tt (record s { memory = update s.memory a v })
]

-- The byte at an address of memory, the highest of its word first.
abbrev pub byte_of : (ℕ → ℕ) → ℕ → ℕ
byte_of memory a = field (8 * (3 - a % 4)) 8 (memory (a / 4 * 4))

unfoldable pub read_byte : Pointer → Cmd Mmu ℕ
read_byte p s = elim (physical_of p s) [ none ↦ fault | some a ↦ ret (byte_of s.memory a) s ]

unfoldable pub write_byte : Pointer → ℕ → Cmd Mmu (Unit {0})
write_byte p v s = elim (physical_of p s) [
  | none ↦ fault
  | some a ↦ ret tt (record s {
    memory = update s.memory (a / 4 * 4) (set_field (8 * (3 - a % 4)) 8 v (s.memory (a / 4 * 4)));
  })
]

-- `_mapping_push`: the page of the mapper; a panic never returns.
unfoldable pub mapping_push : ℕ → Cmd Mmu ℕ
mapping_push physical_address s =
    if ltb s.mapping mapper_pages
    then ret s.mapping (record s {
      page_descriptor =
          update s.page_descriptor s.mapping (some (physical_address / page_size % 2 ^ 20));
      mapping = s.mapping + 1;
    })
    else diverge

unfoldable pub mapping_pop : Cmd Mmu (Unit {0})
mapping_pop s = ret tt (record s { mapping = s.mapping - 1 })

-- `mmu040_zero_4k` on a page of the mapper.
unfoldable pub zero_page : ℕ → Cmd Mmu (Unit {0})
zero_page page s = elim (s.page_descriptor page) [
  | none ↦ fault
  | some frame ↦
      ret tt (record s { memory = λ a. if a / page_size == frame then 0 else s.memory a })
]

-- The table at a physical address, mapped: `REPAGE(ph, _mapping_push(ph))`.
unfoldable pub map_table : ℕ → Cmd Mmu Pointer
map_table ph = do page ← mapping_push ph; pure (record { page = page; offset = ph % page_size })

-- table[i]
abbrev pub entry_at : Pointer → ℕ → Pointer
entry_at table i = record { page = table.page; offset = table.offset + 4 * i }

-- `_alloc_frame`: 0 where no frame is free.
unfoldable pub alloc_frame : Cmd Mmu ℕ
alloc_frame s =
    if s.free_frames == 0
    then ret 0 s
    else (do
      λ t. ret tt (record t { free_frames = t.free_frames - 1 })
      page ← mapping_push s.next_frame
      next ← load_word (record { page = page; offset = 0 })
      λ t. ret tt (record t { next_frame = next })
      zero_page page
      mapping_pop
      pure s.next_frame)
        s

-- `_free_frame`
unfoldable pub free_frame : ℕ → Cmd Mmu (Unit {0})
free_frame frame s =
    (do
      page ← mapping_push frame
      store_word (record { page = page; offset = 0 }) s.next_frame
      λ t. ret tt (record t { next_frame = frame })
      mapping_pop)
      s

-- `_get_table_indices`: of the root table, the pointer table and the page table.
unfoldable pub get_table_indices : ℕ → ℕ × ℕ × ℕ
get_table_indices virtual =
    (virtual / 2 ^ 25 % 2 ^ 7, virtual / 2 ^ 18 % 2 ^ 7, virtual / 2 ^ 12 % 2 ^ 6)
