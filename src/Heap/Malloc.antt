-- ===== src/Heap/Malloc.antt =====
-- `kmalloc` of kernel/util/mem.c where the list holds a block that is large enough, and `kfree`
-- before it.
use mathlib.Core.Path.{subst}
use trollos.Base.{
  ℕ, suc, ◌+◌, ◌-◌, ◌≤◌, ◌<◌, ◌≡◌, refl, sym, ap, ◌∙◌, List, [], ◌∷◌, ◌++◌, arith, length, lt→ltb,
  le→ltb_false, ne→==_false, update_self, ret, Ends, returns,
}
use trollos.Heap.{
  Header, Heap, list_head, align, header_size, nr_quicklists, list_of, read_link, write_link,
  set_header, find_fit, take_block, malloc_loop, kmalloc, kfree,
}
use trollos.Heap.Links.{
  Block, IsBlock, AllApart, Disjoint, Segment, after, Disjoint-split, Segment-after, Segment-update,
  AllApart-Outside,
}
use trollos.Heap.Fit.{TooSmall, Holds, find_fit-after, find_fit-here}
use trollos.Heap.Part.{Parted}
use trollos.Heap.Part.{take_block_end}
use trollos.Heap.Take.{Allocated, iter, take_block-whole, take_block-Allocated}

Segment-split :
    (h : ℕ → Header) (a : ℕ) (front back : List Block) (b : Block)
    → Segment h a (front ++ (b ∷ back)) 0
    → Segment h a front b.address
      × ((h b.address).size ≡ b.bytes)
      × Segment h (h b.address).next back 0
Segment-split h a [] back b seg = seg
Segment-split h a (c ∷ front) back b (at, size, seg) =
    let (x, y, z) = Segment-split h (h c.address).next front back b seg in ((at, size, x), y, z)

module _ {W : Type 0} where
  -- The blocks of a list up to the first that is large enough, and behind it.
  pub record FirstFit (s : Heap W) (list size : ℕ) (front back : List Block) (b : Block)
      : Type 0 where
    pub disjoint : Disjoint (front ++ (b ∷ back))
    pub leads : Segment s.header (s.freelist list) front b.address
    pub bytes : (s.header b.address).size ≡ b.bytes
    pub rest : Segment s.header (s.header b.address).next back 0
    pub small : TooSmall size front
    pub enough : size ≤ b.bytes

  pub Holds-FirstFit :
      (s : Heap W) (list size : ℕ) (front back : List Block) (b : Block)
      → Holds s list (front ++ (b ∷ back))
      → TooSmall size front
      → size ≤ b.bytes
      → FirstFit s list size front back b
  Holds-FirstFit s list size front back b h small enough =
      let (x, y, z) = Segment-split s.header (s.freelist list) front back b h.linked in
      record {
        disjoint = h.disjoint;
        leads = x;
        bytes = y;
        rest = z;
        small = small;
        enough = enough;
      }

  module _ (map_page : ℕ → W → W) where
    pub taken :
        (s : Heap W) (list size m n : ℕ) (front back : List Block) (b : Block)
        → FirstFit s list size front back b
        → length front < n
        → malloc_loop map_page (suc m) n list size s
          ≡ ret (b.address + header_size) (take_block size (after (list_head list) front) s)
    unfolding malloc_loop
    taken s list size m n front back b f fuel =
        let (df, (is, _, _), _) = Disjoint-split front (b ∷ back) f.disjoint in
        let at : read_link (after (list_head list) front) s ≡ b.address =
          Segment-after (list_head list) front b.address s f.leads in
        let (k, _, e) =
          find_fit-after n 0 size b.address (list_head list) front s f.small df f.leads
            (omega arith) in
        let found : find_fit n size (list_head list) s ≡ ret (after (list_head list) front) s =
          e
          ∙ find_fit-here k size b.address (after (list_head list) front) s at
              (omega (arith, f.bytes, f.enough)) in
        rw (found, malloc_loop)
          (rw (at, malloc_loop)
            (rw (ne→==_false b.address 0 (λ z. absurd (omega (arith, is.not_null, z))), malloc_loop)
              refl))

    -- `kmalloc` of a size above 0, where the list of the size holds a block that is large enough,
    -- ends, as soon as the search has a round more than blocks are too small in front of the first
    -- such block. It returns the start of that block. Where more than another header would be left
    -- of the block behind the bytes asked for, rounded up to words, it is cut there, and the rest
    -- is in its place in the list with the bytes behind its own header; else it is taken whole and
    -- the list holds the others in order. The blocks of the list and the one returned do not overlap
    -- each other nor any block of the heap that was apart from the list, the headers of such blocks
    -- are as before, and the heap ends where it did.
    pub kmalloc-first_fit :
        (s : Heap W) (size m n : ℕ) (front back : List Block) (b : Block)
        → 0 < size
        → Holds s (list_of size) (front ++ (b ∷ back))
        → TooSmall size front
        → size ≤ b.bytes
        → length front < n
        → Ends
            (λ p s'.
              (c : Block) × (rest : List Block) × Parted size b c rest
              × Allocated s
                  (list_of size)
                  size
                  (front ++ (b ∷ back))
                  c
                  (front ++ (rest ++ back))
                  p
                  s'
              × (p ≡ b.address + 8)
              × (s'.heap_end ≡ s.heap_end)
              × (s'.world ≡ s.world))
            (λ _ _. ⊥)
            (kmalloc map_page (suc m) n size s)
    unfolding kmalloc
    kmalloc-first_fit s size m n front back b pos holds small enough fuel =
        let f = Holds-FirstFit s (list_of size) size front back b holds small enough in
        let (c, rest, parted, taken_block) =
          take_block-Allocated s (list_of size) size front back b f.disjoint f.leads f.bytes f.rest
            enough in
        let (same_end, same_world) =
          take_block_end size (after (list_head (list_of size)) front) s in
        rw (ne→==_false size 0 (λ e. absurd (omega arith)), kmalloc)
          (rw (taken s (list_of size) size m n front back b f fuel)
            (returns (c, rest, parted, taken_block, refl, same_end, same_world)))

  kfree-push :
      (s : Heap W) (b : Block) (n : ℕ)
      → (s.header b.address).size ≡ b.bytes
      → list_of b.bytes < 4
      → kfree n (b.address + 8) s
        ≡ ret tt (
            write_link
              (list_head (list_of b.bytes))
              b.address
              (set_header b.address b.bytes (s.freelist (list_of b.bytes)) s))
  unfolding kfree
  kfree-push s b n bytes quick =
      let here : b.address + 8 - header_size ≡ b.address = omega arith in
      rw (ne→==_false (b.address + 8) 0 (λ e. absurd (omega (arith, e))), here, kfree)
        (rw (bytes, lt→ltb (list_of b.bytes) nr_quicklists quick, kfree) refl)

  -- A block in front of the others of its list.
  pushed : Heap W → Block → Heap W
  pushed s b =
      write_link (list_head (list_of b.bytes)) b.address
        (set_header b.address b.bytes (s.freelist (list_of b.bytes)) s)

  pushed-header :
      (s : Heap W) (b : Block)
      → (pushed s b).header b.address
        ≡ record { size = b.bytes; next = s.freelist (list_of b.bytes) }
  unfolding pushed
  pushed-header s b = update_self s.header b.address _

  pushed-Segment :
      (s : Heap W) (b : Block) (bs : List Block)
      → AllApart b bs
      → Segment s.header (s.freelist (list_of b.bytes)) bs 0
      → Segment (pushed s b).header (s.freelist (list_of b.bytes)) bs 0
  unfolding pushed
  pushed-Segment s b bs apart seg =
      Segment-update s.header b.address _ (s.freelist (list_of b.bytes)) bs 0
        (AllApart-Outside b b.address bs (omega arith) (omega arith) apart) seg

  pushed-Holds :
      (s : Heap W) (b : Block) (bs : List Block)
      → Holds s (list_of b.bytes) bs
      → IsBlock b
      → AllApart b bs
      → Holds (pushed s b) (list_of b.bytes) (b ∷ bs)
  pushed-Holds s b bs h is apart = record {
    linked = (
      unfold pushed in (update_self s.freelist (list_of b.bytes) b.address),
      ap (λ (k : Header). k.size) (pushed-header s b),
      subst (λ (k : Header). Segment (pushed s b).header k.next bs 0) (sym (pushed-header s b))
          (pushed-Segment s b bs apart h.linked),
    );
    disjoint = (is, apart, h.disjoint);
  }

  module _ (map_page : ℕ → W → W) where
    -- `kfree` of a block of a quick list, which does not overlap the free blocks of its list, ends
    -- without a round of a loop and puts the block in front of the others. `kmalloc` of as many
    -- bytes then returns the same block, within one round of each loop, and leaves the list with
    -- the blocks that it held at first.
    pub kfree-kmalloc :
        (s : Heap W) (b : Block) (bs : List Block) (k m n : ℕ)
        → Holds s (list_of b.bytes) bs
        → IsBlock b
        → AllApart b bs
        → (s.header b.address).size ≡ b.bytes
        → list_of b.bytes < 4
        → 0 < b.bytes
        → (s1 : Heap W) × (kfree k (b.address + 8) s ≡ ret tt s1)
          × Holds s1 (list_of b.bytes) (b ∷ bs)
          × (s2 : Heap W) × (kmalloc map_page (suc m) (suc n) b.bytes s1 ≡ ret (b.address + 8) s2)
          × Holds s2 (list_of b.bytes) bs
    unfolding kmalloc
    kfree-kmalloc s b bs k m n h is apart bytes quick pos =
        let s1 : Heap W = pushed s b in
        let held : Holds s1 (list_of b.bytes) (b ∷ bs) = pushed-Holds s b bs h is apart in
        let f = Holds-FirstFit s1 (list_of b.bytes) b.bytes [] bs b held tt (omega arith) in
        let whole =
          take_block-whole s1 (list_of b.bytes) b.bytes [] bs b f.disjoint f.leads f.bytes f.rest
            f.enough
            (le→ltb_false (align b.bytes + header_size) b.bytes
              (omega (arith, is.in_memory, is.in_words))) in
        let s2 : Heap W = write_link (list_head (list_of b.bytes)) (s1.header b.address).next s1 in
        (
          s1,
          unfold pushed in (kfree-push s b k bytes quick),
          held,
          s2,
          rw (ne→==_false b.bytes 0 (λ e. absurd (omega arith)), kmalloc)
              (taken map_page s1 (list_of b.bytes) b.bytes m (suc n) [] bs b f (omega arith)
                ∙ ap (ret (b.address + 8)) (unfold iter in whole)),
          record {
            linked =
                subst (λ a. Segment s1.header a bs 0)
                  (sym (update_self s1.freelist (list_of b.bytes) (s1.header b.address).next))
                  f.rest;
            disjoint = h.disjoint;
          },
        )
