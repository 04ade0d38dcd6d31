-- ===== src/Heap/Refill.antt =====
-- `kmalloc` of kernel/util/mem.c on the quick lists: it returns a block in every case.
use mathlib.Core.Path.{subst}
use trollos.Base.{
  ℕ, suc, ◌+◌, ◌-◌, ◌*◌, ◌/◌, ◌%◌, ◌^◌, ◌≤◌, ◌<◌, ◌≡◌, refl, sym, ap, ◌∙◌, true, List, [], ◌∷◌,
  ◌++◌, arith, length, lt→ltb, ne→==_false, update_self, update_ne, ret, Ends, returns, mono, inl,
  inr,
}
use trollos.Heap.{
  Header, Heap, list_head, header_size, nr_quicklists, quick_size, list_of, word, page_align,
  set_header, fill_list, map_pages, ksbrk, getmore, refill, malloc_loop, kmalloc,
}
use trollos.Heap.Links.{
  Block, Apart, Segment, All-mono, All-append, All-split, Segment-update, Segment-after,
}
use trollos.Heap.Quick.{piece_blocks, piece_blocks-below, quick_pieces, quick_list_enough}
use trollos.Heap.Part.{Parted}
use trollos.Heap.Part.{take_block_end}
use trollos.Heap.Take.{Allocated, take_block-Allocated}
use trollos.Heap.Fit.{TooSmall, Holds, find_fit-end, first_fit_cases}
use trollos.Heap.Malloc.{Holds-FirstFit, kmalloc-first_fit, taken}
use trollos.Heap.Filled.{
  Below, below_apart, filled, push_pieces-filled, filled-header, filled-Holds, filled_end,
  filled_world,
}

module _ {W : Type 0} where
  module _ (map_page : ℕ → W → W) where
    -- The heap with one more page, as a block.
    grown : Heap W → Heap W
    grown s = set_header s.heap_end 4088 (s.header s.heap_end).next (record s {
      malloc_used_mem = word (s.malloc_used_mem + 4096);
      heap_end = word (s.heap_end + 4096);
      world =
          map_pages map_page
            (word (page_align (s.heap_end + 4096) + 2 ^ 32 - page_align s.heap_end) / 4096) 0
            (page_align s.heap_end) s.world;
    })

    getmore-grown :
        (s : Heap W) (size : ℕ)
        → 0 < size
        → size ≤ 64
        → s.heap_end + 4096 < 2 ^ 32
        → getmore map_page size s ≡ ret s.heap_end (grown s)
    unfolding getmore ksbrk grown
    getmore-grown s size pos small room =
        let total : page_align (size + header_size) ≡ 4096 = omega arith in
        rw (total, getmore)
          (rw (ne→==_false s.heap_end (2 ^ 32 - 1) (λ e. absurd (omega (arith, e))), getmore) refl)

    refill-filled :
        (s : Heap W) (n list size k : ℕ)
        → 0 < size
        → size ≤ 64
        → list < 4
        → word (4088 + header_size) / (quick_size list + header_size) ≡ suc k
        → 0 < s.heap_end
        → s.heap_end + 4096 < 2 ^ 32
        → refill map_page n list size s ≡ ret true (fill_list list s.heap_end (grown s))
    unfolding refill
    refill-filled s n list size k pos small quick count live room =
        rw (getmore-grown s size pos small room, refill)
          (rw
            (
              ne→==_false s.heap_end 0 (λ e. absurd (omega (arith, e))),
              lt→ltb list nr_quicklists quick,
              refill,
            )
            refl)

    module _ (s : Heap W) (list size k : ℕ) (bs : List Block) (holds : Holds s list bs)
        (below : Below s.heap_end bs) (live : 0 < s.heap_end)
        (fits : suc k * (quick_size list + 8) ≤ 4096) (words : quick_size list % 4 ≡ 0)
        (room : s.heap_end + 4096 < 2 ^ 32) where
      page_room : s.heap_end + suc k * (quick_size list + 8) < 2 ^ 32
      page_room = omega (arith, fits, room)

      grown-Segment : Segment (grown s).header ((grown s).freelist list) bs 0
      unfolding grown
      grown-Segment =
          Segment-update s.header s.heap_end _ (s.freelist list) bs 0
            (All-mono bs (λ c le e. absurd (omega (arith, le, e))) below) holds.linked

      refilled : Heap W
      refilled =
          filled (grown s) list k (quick_size list) s.heap_end bs grown-Segment holds.disjoint below
            live words page_room

      refilled-Holds : Holds refilled list (piece_blocks (suc k) (quick_size list) s.heap_end ++ bs)
      unfolding refilled
      refilled-Holds =
          filled-Holds (grown s) list k (quick_size list) s.heap_end bs grown-Segment holds.disjoint
            below live words page_room

      fill_list-refilled :
          word (4088 + header_size) / (quick_size list + header_size) ≡ suc k
          → fill_list list s.heap_end (grown s) ≡ refilled
      unfolding fill_list refilled
      fill_list-refilled count =
          let large : ((grown s).header s.heap_end).size ≡ 4088 =
            unfold grown in (ap (λ (h : Header). h.size) (update_self s.header s.heap_end _)) in
          rw (large, fill_list)
            (rw (count, fill_list)
              (push_pieces-filled (grown s) list k (quick_size list) s.heap_end bs grown-Segment
                holds.disjoint below live words page_room))

      refilled_end : refilled.heap_end ≡ word (s.heap_end + 4096)
      unfolding refilled grown
      refilled_end =
          filled_end (grown s) list k (quick_size list) s.heap_end bs grown-Segment holds.disjoint
            below live words page_room

      refilled-header :
          (c : Block)
          → c.address + 8 + c.bytes ≤ s.heap_end
          → refilled.header c.address ≡ s.header c.address
      unfolding refilled grown
      refilled-header c le =
          filled-header (grown s) list k (quick_size list) s.heap_end bs grown-Segment
            holds.disjoint below live words page_room c le
          ∙ update_ne s.header s.heap_end _ c.address (λ e. absurd (omega (arith, le, e)))

      refilled_world : refilled.world ≡ map_page ((s.heap_end + 4095) / 4096 * 4096) s.world
      unfolding refilled grown map_pages
      refilled_world =
          let one : word (page_align (s.heap_end + 4096) + 2 ^ 32 - page_align s.heap_end) / 4096
              ≡ 1 =
            omega (arith, room) in
          let at : word (page_align s.heap_end + 0 * 4096) ≡ (s.heap_end + 4095) / 4096 * 4096 =
            omega (arith, room) in
          filled_world (grown s) list k (quick_size list) s.heap_end bs grown-Segment holds.disjoint
            below live words page_room
          ∙ rw one (ap (λ a. map_page a s.world) at)

      -- What is allocated in the refilled list is allocated for the heap before.
      refilled-Allocated :
          (block : Block) (left : List Block) (p : ℕ) (s' : Heap W)
          → Allocated refilled list size
              (piece_blocks (suc k) (quick_size list) s.heap_end ++ bs)
              block
              left
              p
              s'
          → Allocated s list size bs block left p s'
      refilled-Allocated block left p s' a = record {
        pointer = a.pointer;
        sized = a.sized;
        enough = a.enough;
        linked = a.linked;
        disjoint = a.disjoint;
        others = λ c ic le apart.
            (let (away, same) = a.others c ic (omega (arith, le, refilled_end)) (
                All-append (Apart c) (piece_blocks (suc k) (quick_size list) s.heap_end) bs
                  (below_apart (suc k) (quick_size list) s.heap_end c le) apart) in
              (away, same ∙ refilled-header c le));
      }

    -- Where the block comes from: the first that is large enough in the list, or a page that the
    -- heap has grown by, which was mapped.
    pub data Source (s : Heap W) (size : ℕ) (bs : List Block) (p : ℕ) (s' : Heap W) : Type 0 where
      from_list :
          (front back : List Block) (b : Block)
          → bs ≡ front ++ (b ∷ back)
          → TooSmall size front
          → size ≤ b.bytes
          → p ≡ b.address + 8
          → s'.heap_end ≡ s.heap_end
          → s'.world ≡ s.world
          → Source s size bs p s'
      from_page :
          TooSmall size bs
          → p ≡ s.heap_end + 8
          → s'.heap_end ≡ s.heap_end + 4096
          → s'.world ≡ map_page ((s.heap_end + 4095) / 4096 * 4096) s.world
          → Source s size bs p s'

    -- What `kmalloc` hands out: a block in the heap, like those that the list holds now.
    abbrev pub HandedOut : Heap W → ℕ → List Block → ℕ → Heap W → Type 0
    HandedOut s size bs p s' =
        (c : Block) × (left : List Block) × Allocated s (list_of size) size bs c left p s'
        × Below s'.heap_end (c ∷ left)
        × Source s size bs p s'

    Parted-Below :
        (e size : ℕ) (front back rest : List Block) (b c : Block)
        → Parted size b c rest
        → Below e (front ++ (b ∷ back))
        → Below e (c ∷ (front ++ (rest ++ back)))
    Parted-Below e size front back rest b c (inl (_, same, none_left)) below =
        let (f, (here, r)) =
          All-split (λ (d : Block). d.address + 8 + d.bytes ≤ e) front (b ∷ back) below in
        rw (same, none_left)
          (here, All-append (λ (d : Block). d.address + 8 + d.bytes ≤ e) front back f r)
    Parted-Below e size front back rest b c (inr (large, same, rest_is)) below =
        let (f, (here, r)) =
          All-split (λ (d : Block). d.address + 8 + d.bytes ≤ e) front (b ∷ back) below in
        rw (same, rest_is)
          (
            omega (arith, here, large),
            All-append (λ (d : Block). d.address + 8 + d.bytes ≤ e) front _ f
                (omega (arith, here, large), r),
          )

    refilled_case :
        (s : Heap W) (size m n : ℕ) (bs : List Block)
        → 0 < size
        → list_of size < 4
        → Holds s (list_of size) bs
        → Below s.heap_end bs
        → 0 < s.heap_end
        → s.heap_end + 4096 < 2 ^ 32
        → length bs < n
        → TooSmall size bs
        → Ends
            (λ p s'. HandedOut s size bs p s')
            (λ _ _. ⊥)
            (kmalloc map_page (suc (suc m)) n size s)
    unfolding kmalloc malloc_loop
    refilled_case s size m n bs pos quick holds below live room fuel small =
        let (k, count, fits, words, low, high) = quick_pieces (list_of size) quick in
        let list : ℕ = list_of size in
        let t : Heap W = refilled s list size k bs holds below live fits words room in
        let enough : size ≤ quick_size list = quick_list_enough 4 0 size quick in
        let b : Block = record { address = s.heap_end; bytes = quick_size list } in
        let back = piece_blocks k (quick_size list) (s.heap_end + quick_size list + 8) ++ bs in
        let f =
          Holds-FirstFit t list size [] back b
            (refilled-Holds s list size k bs holds below live fits words room) tt enough in
        let (c, rest, parted, got) =
          take_block-Allocated t list size [] back b f.disjoint f.leads f.bytes f.rest f.enough in
        let (ends, world) = take_block_end size (list_head list) t in
        let grown_end : t.heap_end ≡ s.heap_end + 4096 =
          refilled_end s list size k bs holds below live fits words room ∙ omega (arith, room) in
        let all_below : Below (s.heap_end + 4096) (b ∷ back) =
          All-append (λ (d : Block). d.address + 8 + d.bytes ≤ s.heap_end + 4096)
            (piece_blocks (suc k) (quick_size list) s.heap_end) bs
            (piece_blocks-below (suc k) (quick_size list) s.heap_end (s.heap_end + 4096)
              (omega (arith, fits)))
            (All-mono bs (λ d le. omega (arith, le)) below) in
        rw (ne→==_false size 0 (λ e. absurd (omega (arith, e))), kmalloc)
          (rw (find_fit-end n size list bs s small holds fuel, malloc_loop)
            (rw (Segment-after (list_head list) bs 0 s holds.linked, malloc_loop)
              (rw
                (refill-filled s n list size k pos (omega arith) quick count live room, malloc_loop)
                (rw (fill_list-refilled s list size k bs holds below live fits words room count) (
                  rw (taken map_page t list size m n [] back b f (omega arith)) (
                    returns (
                      c,
                      rest ++ back,
                      refilled-Allocated s list size k bs holds below live fits words room c
                          (rest ++ back) _ _ got,
                      subst (λ e. Below e (c ∷ (rest ++ back))) (sym (ends ∙ grown_end))
                          (Parted-Below (s.heap_end + 4096) size [] back rest b c parted all_below),
                      from_page small refl (ends ∙ grown_end) (
                          world ∙ refilled_world s list size k bs holds below live fits words room),
                    )))))))

    -- `kmalloc` of a size above 0 that belongs to a quick list ends within two rounds of its loop,
    -- with as many rounds of the search as the list has blocks and one more, where the heap can
    -- grow by a page. Where the list has a block that is large enough, it returns the first one, and
    -- the heap ends where it did; else it has asked for the page at the end of the heap, which now
    -- ends a page later, and returns the start of what it grew by. The result is a block of at least
    -- the size. It and the blocks that are then in the list lie in the heap and do not overlap each
    -- other nor any other block that lay in the heap and was apart from the list, and the headers of
    -- such blocks are as before.
    pub kmalloc-quick :
        (s : Heap W) (size m n : ℕ) (bs : List Block)
        → 0 < size
        → list_of size < 4
        → Holds s (list_of size) bs
        → Below s.heap_end bs
        → 0 < s.heap_end
        → s.heap_end + 4096 < 2 ^ 32
        → length bs < n
        → Ends
            (λ p s'. HandedOut s size bs p s')
            (λ _ _. ⊥)
            (kmalloc map_page (suc (suc m)) n size s)
    kmalloc-quick s size m n bs pos quick holds below live room fuel =
        elim (first_fit_cases size bs) [
          | inl small ↦ refilled_case s size m n bs pos quick holds below live room fuel small
          | inr (front, b, back, e, small, enough, less) ↦
              mono
                (kmalloc-first_fit map_page s size (suc m) n front back b pos
                  (subst (λ xs. Holds s (list_of size) xs) e holds) small enough (omega arith))
                (λ p s' (c, rest, parted, got, at, ends, world). (
                  c,
                  front ++ (rest ++ back),
                  subst (λ xs. Allocated s (list_of size) size xs c (front ++ (rest ++ back)) p s')
                      (sym e) got,
                  subst (λ e. Below e (c ∷ (front ++ (rest ++ back)))) (sym ends)
                      (Parted-Below s.heap_end size front back rest b c parted
                        (subst (λ xs. Below s.heap_end xs) e below)),
                  from_list front back b e small enough at ends world,
                ))
                (λ _ _ f. f)
        ]
