-- ===== src/Elf.antt =====
-- kernel/modules/binformat/elf.c and include/elf.h: the loader of executables. The image lies in
-- `memory`, the bytes of the kernel by their addresses; its words are big-endian, as the machine
-- reads them. `M` is the state of the MMU.
use Prim.Native.Nat.{bit_and}
use trollos.Mmu.{page_size}
use trollos.Base.{
  ℕ, zero, suc, ◌+◌, ◌-◌, ◌*◌, ◌/◌, ◌%◌, ◌^◌, Bool, true, false, not, ◌||◌, List, [], ◌∷◌,
  if◌then◌else◌, ◌==◌,
}

-- `struct ElfHeader`, the fields that the loader reads.
pub record ElfHeader : Type 0 where
  pub ident : ℕ → ℕ
  pub kind : ℕ
  pub machine : ℕ
  pub entry : ℕ
  pub section_header_offset : ℕ
  pub section_header_entry_size : ℕ
  pub section_header_entry_count : ℕ

-- `struct ElfSectionHeader`, the fields that the loader reads.
pub record ElfSectionHeader : Type 0 where
  pub kind : ℕ
  pub flags : ℕ
  pub address : ℕ
  pub offset : ℕ
  pub size : ℕ

-- kernel/mmu/mmu040.c as the loader calls it. `alloc_at` takes an address, whether it is the
-- supervisor's and whether it is write protected, and returns a frame; `fill_frame` a frame, an
-- offset in it and the bytes to store.
pub record PageCalls (M : Type 0) : Type 0 where
  pub alloc_at : ℕ → Bool → Bool → M → ℕ × M
  pub fill_frame : ℕ → ℕ → List ℕ → M → M

-- The address of 32 bits.
abbrev pub wrap : ℕ → ℕ
wrap a = a % 2 ^ 32

unfoldable pub memory_bytes : (ℕ → ℕ) → ℕ → ℕ → List ℕ
memory_bytes memory zero a = []
memory_bytes memory (suc n) a = memory (wrap a) ∷ memory_bytes memory n (a + 1)

abbrev pub half_at : (ℕ → ℕ) → ℕ → ℕ
half_at memory a = memory (wrap a) * 256 + memory (wrap (a + 1))

abbrev pub word_at : (ℕ → ℕ) → ℕ → ℕ
word_at memory a = half_at memory a * 65536 + half_at memory (a + 2)

unfoldable pub header_at : (ℕ → ℕ) → ℕ → ElfHeader
header_at memory a = record {
  ident = λ i. memory (wrap (a + i));
  kind = half_at memory (a + 16);
  machine = half_at memory (a + 18);
  entry = word_at memory (a + 24);
  section_header_offset = word_at memory (a + 32);
  section_header_entry_size = half_at memory (a + 46);
  section_header_entry_count = half_at memory (a + 48);
}

unfoldable pub section_at : (ℕ → ℕ) → ℕ → ElfSectionHeader
section_at memory a = record {
  kind = word_at memory (a + 4);
  flags = word_at memory (a + 8);
  address = word_at memory (a + 12);
  offset = word_at memory (a + 16);
  size = word_at memory (a + 20);
}

-- The six checks before the sections: the magic, 32 bits, big-endian, executable, for the 68000
-- and with an entry.
unfoldable pub is_loadable : ElfHeader → Bool
is_loadable h =
    if not (h.ident 0 == 127)
    then false
    else if not (h.ident 1 == 69)
    then false
    else if not (h.ident 2 == 76)
    then false
    else if not (h.ident 3 == 70)
    then false
    else if not (h.ident 4 == 1)
    then false
    else if not (h.ident 5 == 2)
    then false
    else if not (h.kind == 2)
    then false
    else if not (h.machine == 4)
    then false
    else if h.entry == 0
    then false
    else true

-- What the loop of `elf_load` passes over.
unfoldable pub is_skipped : ElfSectionHeader → Bool
is_skipped s = (s.address == 0 || s.kind == 0) || bit_and s.flags 2 == 0

module _ {M : Type 0} (calls : PageCalls M) (memory : ℕ → ℕ) where
  open calls use {alloc_at, fill_frame}

  -- The loop of `alloc`, for `n` more pages from page `i` on.
  unfoldable pub alloc_pages : ℕ → ℕ → ℕ → Bool → ℕ → ℕ → ℕ → M → M
  alloc_pages zero i base write_protect bytes offset size m = m
  alloc_pages (suc n) i base write_protect bytes offset size m =
      let (frame, w) = alloc_at (wrap (base + i * page_size)) false write_protect m in
      if bytes == 0
      then alloc_pages n (i + 1) base write_protect bytes offset size w
      else (let filled = fill_frame frame offset (memory_bytes memory (size % page_size) bytes) w in
          let next = wrap (bytes / page_size * page_size + page_size) in
          let rest = wrap (size + 2 ^ 32 - (page_size - offset)) in
          alloc_pages n (i + 1) base write_protect next 0 rest filled)

  -- `alloc`; a null `data` is 0.
  unfoldable pub alloc : ℕ → Bool → ℕ → ℕ → M → M
  alloc virt write_protect bytes size =
      let base = virt / page_size * page_size in
      let count = wrap (size + (page_size - 1)) / page_size in
      alloc_pages count 0 base write_protect bytes (virt % page_size) size

  -- One round of the loop of `elf_load`.
  unfoldable pub load_section : ℕ → ElfSectionHeader → M → M
  load_section elf s m =
      let write_protect = bit_and s.flags 1 == 0 in
      if is_skipped s
      then m
      else if s.kind == 8
      then alloc s.address false 0 s.size m
      else alloc s.address write_protect (wrap (elf + s.offset)) s.size m

  -- The loop, for `n` more section headers from the one at `section` on.
  unfoldable pub load_sections : ℕ → ℕ → ℕ → ℕ → M → M
  load_sections zero elf entry_size section m = m
  load_sections (suc n) elf entry_size section m =
      load_sections n elf entry_size (wrap (section + entry_size))
        (load_section elf (section_at memory section) m)

  -- `elf_load`: the entry, or 0 for NULL.
  unfoldable pub elf_load : ℕ → M → ℕ × M
  elf_load elf m =
      let h = header_at memory elf in
      if not (is_loadable h)
      then (0, m)
      else (let loaded =
            load_sections h.section_header_entry_count elf h.section_header_entry_size
              (wrap (elf + h.section_header_offset)) m in
          (h.entry, alloc (2 ^ 32 - page_size) false 0 page_size loaded))
