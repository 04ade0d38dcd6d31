-- ===== src/Heap/Quick.antt =====
-- The quick lists of kernel/util/mem.c: the pieces that `kmalloc` splits a new page into.
use mathlib.Core.Path.{subst}
use trollos.Base.{
  ℕ, zero, suc, ◌+◌, ◌*◌, ◌/◌, ◌%◌, ◌^◌, ◌≤◌, ◌<◌, ◌≡◌, refl, sym, ap, ◌∙◌, List, [], ◌∷◌, arith,
  ltb, Bool-cases, update_self, update_ne, inl, inr,
}
use trollos.Heap.{
  Header, Heap, next_of, header_size, set_header, split_pieces, word, quick_list, quick_size,
}
use trollos.Heap.Links.{Block, All, Disjoint, Segment, after, All-mono}

-- `n` blocks of `size` bytes, one behind the other from `a` on.
abbrev pub piece_blocks : ℕ → ℕ → ℕ → List Block
piece_blocks zero size a = []
piece_blocks (suc n) size a =
    record { address = a; bytes = size } ∷ piece_blocks n size (a + size + 8)

pub piece_blocks-above : (n size a : ℕ) → All (λ c. a ≤ c.address) (piece_blocks n size a)
piece_blocks-above n size a = from n a (omega arith)
  where
    from : (n x : ℕ) → a ≤ x → All (λ c. a ≤ c.address) (piece_blocks n size x)
    from zero x le = tt
    from (suc n) x le = (le, from n (x + size + 8) (omega arith))

pub piece_blocks-below :
    (n size a e : ℕ)
    → a + n * (size + 8) ≤ e
    → All (λ c. c.address + 8 + c.bytes ≤ e) (piece_blocks n size a)
piece_blocks-below zero size a e room = tt
piece_blocks-below (suc n) size a e room =
    (omega arith, piece_blocks-below n size (a + size + 8) e (omega arith))

pub piece_blocks-Disjoint :
    (n size a : ℕ)
    → 0 < a
    → size % 4 ≡ 0
    → a + n * (size + 8) < 2 ^ 32
    → Disjoint (piece_blocks n size a)
piece_blocks-Disjoint zero size a pos words room = tt
piece_blocks-Disjoint (suc n) size a pos words room =
    let more : a + size + 8 + n * (size + 8) < 2 ^ 32 = omega arith in
    (
      record { not_null = pos; in_words = words; in_memory = omega arith },
      All-mono (piece_blocks n size (a + size + 8)) (λ c le. inl (omega (arith, le)))
          (piece_blocks-above n size (a + size + 8)),
      piece_blocks-Disjoint n size (a + size + 8) (omega arith) words more,
    )

-- How many pieces a page gives, and how much of it they take.
pub quick_pieces :
    (list : ℕ)
    → list < 4
    → (k : ℕ) × (word (4088 + header_size) / (quick_size list + header_size) ≡ suc k)
      × (suc k * (quick_size list + 8) ≤ 4096)
      × (quick_size list % 4 ≡ 0)
      × (8 ≤ quick_size list)
      × (quick_size list ≤ 64)
quick_pieces zero l = (255, omega arith, omega arith, omega arith, omega arith, omega arith)
quick_pieces (suc zero) l = (169, omega arith, omega arith, omega arith, omega arith, omega arith)
quick_pieces (suc (suc zero)) l =
    (101, omega arith, omega arith, omega arith, omega arith, omega arith)
quick_pieces (suc (suc (suc zero))) l =
    (55, omega arith, omega arith, omega arith, omega arith, omega arith)
quick_pieces (suc (suc (suc (suc n)))) l = absurd (omega arith)

pub quick_list_enough :
    (n i size : ℕ) → quick_list n i size < i + n → size ≤ quick_size (quick_list n i size)
unfolding quick_list
quick_list_enough zero i size l = absurd (omega arith)
quick_list_enough (suc n) i size l = elim (Bool-cases (ltb (quick_size i) size)) [
  | inl e ↦
      let same : quick_list (suc n) i size ≡ quick_list n (i + 1) size = rw (e, quick_list) refl in
      rw same (quick_list_enough n (i + 1) size (omega (arith, l, same)))
  | inr e ↦
      let same : quick_list (suc n) i size ≡ i = rw (e, quick_list) refl in rw same (ground arith)
]

module _ {W : Type 0} where
  -- The headers below the pieces stay, and so does all that is no header.
  pub record SameBelow (a : ℕ) (s t : Heap W) : Type 0 where
    pub headers : (x : ℕ) → x < a → t.header x ≡ s.header x
    pub freelist : t.freelist ≡ s.freelist
    pub heap_end : t.heap_end ≡ s.heap_end
    pub world : t.world ≡ s.world

  pub split_pieces-SameBelow :
      (n size a last : ℕ) (s : Heap W) → SameBelow a s (split_pieces n size a last s).1
  unfolding split_pieces
  split_pieces-SameBelow zero size a last s = record {
    headers = λ x l. refl;
    freelist = refl;
    heap_end = refl;
    world = refl;
  }
  split_pieces-SameBelow (suc n) size a last s =
      let r =
        split_pieces-SameBelow n size (a + size + header_size) a
          (set_header a size (a + size + header_size) s) in
      record {
        headers = λ x l.
            r.headers x (omega arith) ∙ update_ne s.header a _ x (λ e. absurd (omega (arith, e)));
        freelist = r.freelist;
        heap_end = r.heap_end;
        world = r.world;
      }

  pub split_pieces-Segment :
      (n size a last : ℕ) (s : Heap W)
      → Segment
          (split_pieces n size a last s).1.header
          a
          (piece_blocks n size a)
          (a + n * (size + 8))
  unfolding split_pieces
  split_pieces-Segment zero size a last s = omega arith
  split_pieces-Segment (suc n) size a last s =
      let next : ℕ = a + size + header_size in
      let s1 : Heap W = set_header a size next s in
      let t = (split_pieces n size next a s1).1 in
      let here : t.header a ≡ record { size = size; next = next } =
        (split_pieces-SameBelow n size next a s1).headers a (omega arith)
        ∙ update_self s.header a _ in
      let end : next + n * (size + 8) ≡ a + suc n * (size + 8) = omega arith in
      (
        refl,
        ap (λ (k : Header). k.size) here,
        subst
            (λ (k : Header).
              Segment t.header k.next (piece_blocks n size next) (a + suc n * (size + 8)))
            (sym here)
            (subst (λ z. Segment t.header next (piece_blocks n size next) z) end
              (split_pieces-Segment n size next a s1)),
      )

  -- The last piece is the one whose link is behind the pieces.
  pub split_pieces-after :
      (n size a last : ℕ) (s : Heap W)
      → after (next_of last) (piece_blocks n size a) ≡ next_of (split_pieces n size a last s).0
  unfolding split_pieces
  split_pieces-after zero size a last s = refl
  split_pieces-after (suc n) size a last s =
      split_pieces-after n size (a + size + header_size) a
        (set_header a size (a + size + header_size) s)

  pub split_pieces_positive :
      (n size a last : ℕ) (s : Heap W) → 0 < a → 0 < last → 0 < (split_pieces n size a last s).0
  unfolding split_pieces
  split_pieces_positive zero size a last s pa pl = pl
  split_pieces_positive (suc n) size a last s pa pl =
      split_pieces_positive n size (a + size + header_size) a
        (set_header a size (a + size + header_size) s) (omega arith) pa
