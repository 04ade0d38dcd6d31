-- ===== src/Heap.antt =====
-- kernel/util/mem.c: the kernel's allocator, with quick lists for small sizes. A `Header *` is an
-- address, and the headers are a function from addresses; the bytes of the blocks are another.
-- `W` is the state of the MMU, which `ksbrk` asks for pages.
pub mod Links
pub mod Fit
pub mod Part
pub mod Take
pub mod Malloc
pub mod Quick
pub mod Filled
pub mod Refill
use trollos.Base.{
  ℕ, zero, suc, ◌+◌, ◌-◌, ◌*◌, ◌/◌, ◌%◌, ◌^◌, Bool, true, false, if◌then◌else◌, ltb, leb, ◌==◌,
  update, ret, fault, diverge, Cmd, pure, ◌>>=◌, ◌>>◌,
}
use trollos.Base.Outcome.{Outcome}

abbrev pub nr_quicklists : ℕ
nr_quicklists = 4

-- sizeof(Header)
abbrev pub header_size : ℕ
header_size = 8

-- `struct Header`.
pub record Header : Type 0 where
  pub size : ℕ
  pub next : ℕ

-- `freelist`, `malloc_used_mem` and `heap_end`, with the memory behind them.
pub record Heap (W : Type 0) : Type 0 where
  pub freelist : ℕ → ℕ
  pub header : ℕ → Header
  pub bytes : ℕ → ℕ
  pub malloc_used_mem : ℕ
  pub heap_end : ℕ
  pub world : W

-- A `Header **`: to an entry of `freelist`, or to the `next` of a header.
pub data Link : Type 0 where
  list_head : ℕ → Link
  next_of : ℕ → Link

-- A number of 32 bits.
abbrev pub word : ℕ → ℕ
word n = n % 2 ^ 32

-- ALIGN(x), to the 4 bytes of a `long`.
abbrev pub align : ℕ → ℕ
align x = word (x + 3) / 4 * 4

-- ALIGNWITH(x, MMU_PAGE_SIZE)
abbrev pub page_align : ℕ → ℕ
page_align x = word (x + 4095) / 4096 * 4096

-- 8 << list
abbrev pub quick_size : ℕ → ℕ
quick_size list = 8 * 2 ^ list

-- for(list = i; list < NRQUICKLISTS && size > (8 << list); list++); where `n` lists are left.
unfoldable pub quick_list : ℕ → ℕ → ℕ → ℕ
quick_list zero i size = i
quick_list (suc n) i size =
    let rest = quick_list n (i + 1) size in if ltb (quick_size i) size then rest else i

abbrev pub list_of : ℕ → ℕ
list_of size = quick_list nr_quicklists 0 size

-- `memset` and `memcpy`, from the end; both return NULL.
unfoldable pub memset : ℕ → ℕ → ℕ → (ℕ → ℕ) → ℕ → ℕ
memset pointer c zero bytes = bytes
memset pointer c (suc n) bytes = memset pointer c n (update bytes (pointer + n) (c % 256))

unfoldable pub memcpy : ℕ → ℕ → ℕ → (ℕ → ℕ) → ℕ → ℕ
memcpy dest src zero bytes = bytes
memcpy dest src (suc n) bytes = memcpy dest src n (update bytes (dest + n) (bytes (src + n)))

module _ {W : Type 0} where
  -- *iter
  abbrev pub read_link : Link → Heap W → ℕ
  read_link (list_head i) s = s.freelist i
  read_link (next_of a) s = (s.header a).next

  -- *iter = a
  abbrev pub write_link : Link → ℕ → Heap W → Heap W
  write_link (list_head i) a s = record s { freelist = update s.freelist i a }
  write_link (next_of b) a s = record s {
    header = update s.header b (record { size = (s.header b).size; next = a });
  }

  abbrev pub set_header : ℕ → ℕ → ℕ → Heap W → Heap W
  set_header a bytes link s = record s {
    header = update s.header a (record { size = bytes; next = link });
  }

  -- The loop of `kmalloc` over a list: the link to the first block of `size` bytes at least, or to
  -- the null pointer at the end.
  unfoldable pub find_fit : ℕ → ℕ → Link → Cmd (Heap W) Link
  find_fit zero size iter s = diverge
  find_fit (suc n) size iter s =
      let a = read_link iter s in
      let rest = find_fit n size (next_of a) s in
      if a == 0 then ret iter s else if ltb (s.header a).size size then rest else ret iter s

  -- The block that `iter` points to, taken out of its list, and split where it is large enough.
  unfoldable pub take_block : ℕ → Link → Heap W → Heap W
  take_block size iter s =
      let a = read_link iter s in
      let h = s.header a in
      let rest = word (a + header_size + align size) in
      if ltb (word (align size + header_size)) (align h.size)
      then write_link iter rest (
          set_header rest (align h.size - (align size + header_size)) h.next
            (set_header a (align size) h.next s))
      else write_link iter h.next s

  -- The loop that splits a block for a quick list, for `n` more pieces of `size` bytes from `a` on:
  -- the last piece, whose `next` is `*tmp`; 0 stands for the variable `header`.
  unfoldable pub split_pieces : ℕ → ℕ → ℕ → ℕ → Heap W → ℕ × Heap W
  split_pieces zero size a last s = (last, s)
  split_pieces (suc n) size a last s =
      split_pieces n size (a + size + header_size) a (set_header a size (a + size + header_size) s)

  -- *tmp = freelist[list]; freelist[list] = header;
  unfoldable pub push_pieces : ℕ → ℕ → ℕ → Heap W → Heap W
  push_pieces list header last s =
      if last == 0
      then s
      else (let linked = write_link (next_of last) (s.freelist list) s in
          record linked { freelist = update linked.freelist list header })

  -- From "Split quicklist-blocks" to `continue`, on the block at `a`.
  unfoldable pub fill_list : ℕ → ℕ → Heap W → Heap W
  fill_list list a s =
      let pieces = word ((s.header a).size + header_size) / (quick_size list + header_size) in
      let (last, t) = split_pieces pieces (quick_size list) a 0 s in push_pieces list a last t

  -- One round of the loop of `kfree` at the block that `iter` points to: `header`, `hasmerged`,
  -- `iter` and the heap after it.
  unfoldable pub merge_step : ℕ → Bool → Link → Heap W → ℕ × Bool × Link × Heap W
  merge_step header merged iter s =
      let a = read_link iter s in
      let total = word ((s.header a).size + header_size + (s.header header).size) in
      if word (a + (s.header a).size + header_size) == header
      then (
        a,
        merged,
        list_head 4,
        write_link iter (s.header a).next (set_header a total (s.header a).next s),
      )
      else if word (header + header_size + (s.header header).size) == a
      then (
        header,
        true,
        next_of header,
        write_link iter header (set_header header total (s.header a).next s),
      )
      else (header, merged, next_of a, s)

  -- The loop of `kfree` over the last list, with `goto redo`, for `n` more blocks.
  unfoldable pub merge_block : ℕ → ℕ → Bool → Link → Cmd (Heap W) (Unit {0})
  merge_block zero header merged iter s = diverge
  merge_block (suc n) header merged iter s =
      let (h, m, l, t) = merge_step header merged iter s in
      let rest = merge_block n h m l t in
      if read_link iter s == 0
      then ret tt (
          if merged
          then s
          else write_link (list_head 4) header
              (set_header header (s.header header).size (s.freelist 4) s))
      else rest

  -- `kfree`
  unfoldable pub kfree : ℕ → ℕ → Cmd (Heap W) (Unit {0})
  kfree n ptr s =
      let header = ptr - header_size in
      let list = list_of (s.header header).size in
      if ptr == 0
      then ret tt s
      else if ltb list nr_quicklists
      then ret tt (
          write_link (list_head list) header
            (set_header header (s.header header).size (s.freelist list) s))
      else merge_block n header false (list_head 4) s

  module _ (map_page : ℕ → W → W) where
    -- mmu_alloc_at(tmp + i * MMU_PAGE_SIZE, true, false), for `n` pages from `i` on.
    unfoldable pub map_pages : ℕ → ℕ → ℕ → W → W
    map_pages zero i start w = w
    map_pages (suc n) i start w = map_pages n (i + 1) start (map_page (word (start + i * 4096)) w)

    -- `ksbrk` with an increment of 32 bits; one of 2 ^ 31 or more is negative and maps nothing.
    unfoldable pub ksbrk : ℕ → Cmd (Heap W) ℕ
    ksbrk increment s =
        let start = page_align s.heap_end in
        let pages = word (page_align (s.heap_end + increment) + 2 ^ 32 - start) / 4096 in
        let w = if ltb increment (2 ^ 31) then map_pages pages 0 start s.world else s.world in
        ret s.heap_end (record s { heap_end = word (s.heap_end + increment); world = w })

    -- `getmore`: the header of a block of whole pages; 0 for NULL.
    unfoldable pub getmore : ℕ → Cmd (Heap W) ℕ
    getmore size = do
      let total : ℕ = page_align (size + header_size)
      λ s. ret tt (record s { malloc_used_mem = word (s.malloc_used_mem + total) })
      header ← ksbrk total
      if header == 2 ^ 32 - 1 then pure 0 else (λ s.
          ret header
            (set_header header (word (total + 2 ^ 32 - header_size)) (s.header header).next s))

    -- What `kmalloc` does with a list in which nothing fits: true where it tries again.
    unfoldable pub refill : ℕ → ℕ → ℕ → Cmd (Heap W) Bool
    refill n list size = do
      header ← getmore size
      if header == 0
          then pure false
          else if ltb list nr_quicklists
          then (λ s. ret true (fill_list list header s))
          else (do kfree n (header + header_size); pure true)

    -- The endless loop of `kmalloc`, for `m` rounds.
    unfoldable pub malloc_loop : ℕ → ℕ → ℕ → ℕ → Cmd (Heap W) ℕ
    malloc_loop zero n list size s = diverge
    malloc_loop (suc m) n list size s =
        (do
          iter ← find_fit n size (list_head list)
          λ t.
              (let a = read_link iter t in
                if a == 0
                then (refill n list size >>= λ again.
                      if again then malloc_loop m n list size else pure 0)
                    t
                else ret (a + header_size) (take_block size iter t)))
          s

    -- `kmalloc`, with `m` rounds for its loop and `n` for those over a list.
    unfoldable pub kmalloc : ℕ → ℕ → ℕ → Cmd (Heap W) ℕ
    kmalloc m n size = if size == 0 then pure 0 else malloc_loop m n (list_of size) size

    -- `krealloc`
    unfoldable pub krealloc : ℕ → ℕ → ℕ → ℕ → Cmd (Heap W) ℕ
    krealloc m n ptr size =
        if ptr == 0 then kmalloc m n size else if size == 0 then kfree n ptr >> pure 0 else (do
          tmp ← kmalloc m n size
          λ s.
              (let h = (s.header (ptr - header_size)).size in
                ret tt
                  (record s { bytes = memcpy tmp ptr (if ltb size h then size else h) s.bytes }))
          kfree n ptr
          pure tmp)
