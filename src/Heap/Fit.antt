-- ===== src/Heap/Fit.antt =====
-- The search of `kmalloc` of kernel/util/mem.c in a list.
use native.Mathlib.Decide.{dec_lt}
use trollos.Base.{
  ℕ, zero, suc, ◌+◌, ◌≤◌, ◌<◌, ◌≡◌, ◌⊎◌, inl, inr, refl, ap, ◌∙◌, List, [], ◌∷◌, ◌++◌, arith,
  length, ◌==◌, Bool-cases, lt→ltb, le→ltb_false, ne→==_false, ret,
}
use trollos.Heap.{Heap, Link, list_head, next_of, read_link, find_fit}
use trollos.Heap.Links.{Block, All, Disjoint, Segment, after, Segment-after}

abbrev pub TooSmall : ℕ → List Block → Type 0
TooSmall size bs = All (λ b. b.bytes < size) bs

-- Either all blocks are too small, or there is a first one that is large enough.
pub first_fit_cases :
    (size : ℕ) (bs : List Block)
    → TooSmall size bs
      ⊎ ((front : List Block) × (b : Block) × (back : List Block) × (bs ≡ front ++ (b ∷ back))
          × TooSmall size front
          × (size ≤ b.bytes)
          × (length front < length bs))
first_fit_cases size [] = inl tt
first_fit_cases size (b ∷ bs) = elim (dec_lt b.bytes size) [
  | no g ↦ inr ([], b, bs, refl, tt, omega arith, omega arith)
  | yes l ↦ elim (first_fit_cases size bs) [
    | inl all ↦ inl (l, all)
    | inr (front, c, back, e, small, enough, fuel) ↦
        inr (b ∷ front, c, back, ap (λ xs. b ∷ xs) e, (l, small), enough, omega (arith, fuel))
  ]
]

module _ {W : Type 0} where
  -- The list holds the blocks, which do not overlap.
  pub record Holds (s : Heap W) (list : ℕ) (bs : List Block) : Type 0 where
    pub linked : Segment s.header (s.freelist list) bs 0
    pub disjoint : Disjoint bs

  find_fit-step :
      (n size a : ℕ) (l : Link) (s : Heap W)
      → read_link l s ≡ a
      → 0 < a
      → (s.header a).size < size
      → find_fit (suc n) size l s ≡ find_fit n size (next_of a) s
  unfolding find_fit
  find_fit-step n size a l s at pos small =
      rw (at, find_fit)
        (rw
          (
            ne→==_false a 0 (λ e. absurd (omega arith)),
            lt→ltb (s.header a).size size small,
            find_fit,
          )
          refl)

  pub find_fit-here :
      (n size a : ℕ) (l : Link) (s : Heap W)
      → read_link l s ≡ a
      → size ≤ (s.header a).size
      → find_fit (suc n) size l s ≡ ret l s
  unfolding find_fit
  find_fit-here n size a l s at large = elim (Bool-cases (a == 0)) [
    | inl e ↦ rw (at, find_fit) (rw (e, find_fit) refl)
    | inr e ↦ rw (at, find_fit) (rw (e, le→ltb_false (s.header a).size size large, find_fit) refl)
  ]

  -- Blocks that are too small are passed over.
  pub find_fit-after :
      (n m size z : ℕ) (l : Link) (bs : List Block) (s : Heap W)
      → TooSmall size bs
      → Disjoint bs
      → Segment s.header (read_link l s) bs z
      → length bs + suc m ≤ n
      → (k : ℕ) × (m ≤ k) × (find_fit n size l s ≡ find_fit (suc k) size (after l bs) s)
  find_fit-after zero m size z l bs s small d seg fuel = absurd (omega arith)
  find_fit-after (suc n) m size z l [] s small d seg fuel = (n, omega arith, refl)
  find_fit-after (suc n) m size z l (b ∷ bs) s (small, more) (is, apart, d) (at, bytes, seg) fuel =
      let (k, le, e) =
        find_fit-after n m size z (next_of b.address) bs s more d seg (omega (arith, fuel)) in
      (k, le, find_fit-step n size b.address l s at is.not_null (omega (arith, bytes, small)) ∙ e)

  -- Where all blocks are too small, the search ends behind them.
  pub find_fit-end :
      (n size list : ℕ) (bs : List Block) (s : Heap W)
      → TooSmall size bs
      → Holds s list bs
      → length bs < n
      → find_fit n size (list_head list) s ≡ ret (after (list_head list) bs) s
  unfolding find_fit
  find_fit-end n size list bs s small h fuel =
      let (k, _, e) =
        find_fit-after n 0 size 0 (list_head list) bs s small h.disjoint h.linked (omega arith) in
      e ∙ rw (Segment-after (list_head list) bs 0 s h.linked, find_fit) refl
