-- ===== src/Tests/Memory.antt =====
-- The theorems on the allocator at small heaps, and a run of `kfree`.
use trollos.Base.{ℕ, suc, ◌<◌, ◌≡◌, refl, List, [], ◌∷◌, ◌++◌, arith, update, ret, Ends, inl}
use trollos.Base.Outcome.{Outcome}
use trollos.Heap.{Header, Heap, list_of, quick_list, kmalloc, kfree, merge_block, merge_step}
use trollos.Heap.Links.{Block, IsBlock}
use trollos.Heap.Fit.{Holds}
use trollos.Heap.Part.{Parted}
use trollos.Heap.Take.{Allocated}
use trollos.Heap.Malloc.{kmalloc-first_fit, kfree-kmalloc}
use trollos.Heap.Refill.{HandedOut, kmalloc-quick}

-- A heap of which each list starts at `first`; the world counts its pages.
abbrev heap : ℕ → (ℕ → Header) → Heap ℕ
heap first headers = record {
  freelist = λ i. first;
  header = headers;
  bytes = λ a. 0;
  malloc_used_mem = 0;
  heap_end = 8192;
  world = 0;
}

abbrev header_of : ℕ → ℕ → Header
header_of bytes link = record { size = bytes; next = link }

abbrev none_mapped : ℕ → Header
none_mapped a = header_of 0 0

-- A block of 16 bytes, and one of 64 bytes.
abbrev two : ℕ → Header
two a = update (update none_mapped 1000 (header_of 16 2000)) 2000 (header_of 64 0) a

abbrev small_block : Block
small_block = record { address = 1000; bytes = 16 }

abbrev large_block : Block
large_block = record { address = 2000; bytes = 64 }

small-IsBlock : IsBlock small_block
small-IsBlock = record { not_null = omega arith; in_words = omega arith; in_memory = omega arith }

large-IsBlock : IsBlock large_block
large-IsBlock = record { not_null = omega arith; in_words = omega arith; in_memory = omega arith }

two-Holds : Holds (heap 1000 two) (list_of 20) ((small_block ∷ []) ++ (large_block ∷ []))
two-Holds = record {
  linked = unfold update in (refl, refl, (refl, refl, refl));
  disjoint = (small-IsBlock, (inl (omega arith), tt), (large-IsBlock, tt, tt));
}

kmalloc-first_fit_example :
    Ends
      (λ p s'.
        (c : Block) × (rest : List Block) × Parted 20 large_block c rest
        × Allocated
            (heap 1000 two)
            (list_of 20)
            20
            ((small_block ∷ []) ++ (large_block ∷ []))
            c
            ((small_block ∷ []) ++ (rest ++ []))
            p
            s'
        × (p ≡ 2008)
        × (s'.heap_end ≡ 8192)
        × (s'.world ≡ 0))
      (λ _ _. ⊥)
      (kmalloc (λ a w. suc w) 1 2 20 (heap 1000 two))
kmalloc-first_fit_example =
    kmalloc-first_fit (λ a w. suc w) (heap 1000 two) 20 0 2 (small_block ∷ []) [] large_block
      (omega arith) two-Holds (omega arith, tt) (omega arith) (omega arith)

list_of_20 : list_of 20 < 4
unfolding quick_list
list_of_20 = omega arith

kmalloc-quick_example :
    Ends
      (λ p s'. HandedOut (λ a w. suc w) (heap 0 none_mapped) 20 [] p s')
      (λ _ _. ⊥)
      (kmalloc (λ a w. suc w) 2 1 20 (heap 0 none_mapped))
kmalloc-quick_example =
    kmalloc-quick (λ a w. suc w) (heap 0 none_mapped) 20 0 1 [] (omega arith) list_of_20
      (record { linked = refl; disjoint = tt }) tt (omega arith) (omega arith) (omega arith)

abbrev one : ℕ → Header
one a = header_of 16 0

list_of_16 : list_of 16 < 4
unfolding quick_list
list_of_16 = omega arith

kfree-kmalloc_example :
    (s1 : Heap ℕ) × (kfree 0 1008 (heap 0 one) ≡ ret tt s1)
    × Holds s1 (list_of 16) (small_block ∷ [])
    × (s2 : Heap ℕ) × (kmalloc (λ a w. suc w) 1 1 16 s1 ≡ ret 1008 s2)
    × Holds s2 (list_of 16) []
kfree-kmalloc_example =
    kfree-kmalloc (λ a w. suc w) (heap 0 one) small_block [] 0 0 0
      (record { linked = refl; disjoint = tt }) small-IsBlock tt refl list_of_16 (omega arith)

-- Three adjacent blocks of 100 bytes: the last and the first one are free, in this order.
abbrev three : ℕ → Header
three a =
    update (update (update none_mapped 1000 (header_of 100 0)) 1108 (header_of 100 0)) 1216
      (header_of 100 1000) a

abbrev freelist_after : Outcome (Heap ℕ) (Unit {0}) → List ℕ
freelist_after (ret x s) =
    s.freelist 4 ∷ (s.header (s.freelist 4)).size ∷ (s.header (s.freelist 4)).next ∷ []
freelist_after other = []

-- The middle one is freed: the list ends with it and the last one, and the first one is lost.
kfree-lost : freelist_after (kfree 9 1116 (heap 1216 three)) ≡ 1108 ∷ 208 ∷ 0 ∷ []
unfolding kfree merge_block merge_step quick_list update
kfree-lost = refl
