-- ===== src/Heap/Filled.antt =====
-- The list of kernel/util/mem.c into which the pieces of a new page were put.
use mathlib.Core.Path.{subst}
use trollos.Base.{
  ℕ, suc, ◌+◌, ◌*◌, ◌%◌, ◌^◌, ◌≤◌, ◌<◌, ◌≡◌, sym, ap, ◌∙◌, false, List, ◌++◌, arith, ◌==◌,
  ne→==_false, update, update_self, inl,
}
use trollos.Heap.{Heap, list_head, header_size, write_link, set_header, split_pieces, push_pieces}
use trollos.Heap.Links.{
  Block, All, AllApart, Disjoint, Segment, after, All-mono, Segment-relink, Segment-congr,
  Segment-append, write_after, Disjoint-append,
}
use trollos.Heap.Quick.{
  piece_blocks, piece_blocks-above, piece_blocks-Disjoint, SameBelow, split_pieces-SameBelow,
  split_pieces-Segment, split_pieces-after, split_pieces_positive,
}
use trollos.Heap.Part.{link_end}
use trollos.Heap.Part.{link_world}
use trollos.Heap.Take.{head_Outside, own_Outside}
use trollos.Heap.Fit.{Holds}

-- The blocks end before `a`.
abbrev pub Below : ℕ → List Block → Type 0
Below a bs = All (λ c. c.address + 8 + c.bytes ≤ a) bs

pub below_apart :
    (n size a : ℕ) (c : Block) → c.address + 8 + c.bytes ≤ a → AllApart c (piece_blocks n size a)
below_apart n size a c le =
    All-mono (piece_blocks n size a) (λ d above. inl (omega (arith, le, above)))
      (piece_blocks-above n size a)

module _ {W : Type 0} where
  module _ (t : Heap W) (list k size a : ℕ) (bs : List Block)
      (linked : Segment t.header (t.freelist list) bs 0) (disjoint : Disjoint bs)
      (below : Below a bs) (pos : 0 < a) (words : size % 4 ≡ 0)
      (room : a + suc k * (size + 8) < 2 ^ 32) where
    pieces : List Block
    pieces = piece_blocks (suc k) size a

    split : Heap W
    split = (split_pieces (suc k) size a 0 t).1

    same : SameBelow a t split
    unfolding split
    same = split_pieces-SameBelow (suc k) size a 0 t

    with_head : Heap W
    with_head = record split { freelist = update split.freelist list a }

    pub filled : Heap W
    unfolding pieces with_head
    filled = write_link (after (list_head list) pieces) (split.freelist list) with_head

    pub push_pieces-filled :
        push_pieces list a (split_pieces (suc k) size a 0 t).0 (split_pieces (suc k) size a 0 t).1
        ≡ filled
    unfolding push_pieces filled pieces with_head split split_pieces
    push_pieces-filled =
        let s1 : Heap W = set_header a size (a + size + header_size) t in
        let last = split_pieces k size (a + size + header_size) a s1 in
        let not_null : (last.0 == 0) ≡ false = ne→==_false last.0 0 (λ e. absurd (
          omega (
            arith,
            e,
            split_pieces_positive k size (a + size + header_size) a s1 (omega arith) pos,
          ))) in
        rw (not_null, push_pieces)
          (ap
            (λ l.
              write_link l (last.1.freelist list)
                (record (last.1) { freelist = update last.1.freelist list a }))
            (sym (split_pieces-after k size (a + size + header_size) a s1)))

    pub filled-header :
        (c : Block) → c.address + 8 + c.bytes ≤ a → filled.header c.address ≡ t.header c.address
    unfolding filled pieces with_head
    filled-header c le =
        write_after (list_head list) (piece_blocks (suc k) size a) (split.freelist list) c.address
          with_head tt
          (own_Outside c (piece_blocks (suc k) size a) (below_apart (suc k) size a c le))
        ∙ same.headers c.address (omega (arith, le))

    pub filled-Holds : Holds filled list (piece_blocks (suc k) size a ++ bs)
    unfolding filled pieces with_head
    filled-Holds =
        let new : List Block = piece_blocks (suc k) size a in
        let end : ℕ = a + suc k * (size + 8) in
        let apart : Disjoint new = piece_blocks-Disjoint (suc k) size a pos words room in
        let seg : Segment with_head.header (with_head.freelist list) new end =
          subst (λ x. Segment split.header x new end) (sym (update_self split.freelist list a))
            (unfold split in (split_pieces-Segment (suc k) size a 0 t)) in
        let old : Segment t.header (split.freelist list) bs 0 =
          subst (λ (f : ℕ → ℕ). Segment t.header (f list) bs 0) (sym same.freelist) linked in
        record {
          linked =
              Segment-append filled.header (filled.freelist list) new bs (split.freelist list) 0
                (Segment-relink (list_head list) (split.freelist list) new end with_head
                  (head_Outside list new) apart seg)
                (Segment-congr t.header filled.header (split.freelist list) bs 0
                  (All-mono bs filled-header below) old);
          disjoint =
              Disjoint-append new bs apart disjoint
                (All-mono bs (λ c le. below_apart (suc k) size a c le) below);
        }

    pub filled_end : filled.heap_end ≡ t.heap_end
    unfolding filled with_head
    filled_end =
        link_end (after (list_head list) pieces) (split.freelist list) with_head ∙ same.heap_end

    pub filled_world : filled.world ≡ t.world
    unfolding filled with_head
    filled_world =
        link_world (after (list_head list) pieces) (split.freelist list) with_head ∙ same.world
