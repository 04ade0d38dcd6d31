-- ===== src/Heap/Take.antt =====
-- What `kmalloc` of kernel/util/mem.c makes of a block that it found: whole, or split.
use mathlib.Core.Path.{subst}
use trollos.Base.{
  ltb_false→le, ℕ, ◌+◌, ◌-◌, ◌≤◌, ◌<◌, ◌≡◌, ◌≢◌, inl, inr, refl, sym, ap, ◌∙◌, true, false, List,
  [], ◌∷◌, ◌++◌, arith, ltb, Bool-cases, ltb→lt, update_self, update_ne,
}
use trollos.Heap.{
  Header, Heap, Link, list_head, next_of, word, align, header_size, read_link, write_link,
  set_header, take_block,
}
use trollos.Heap.Part.{rounded, Parted}
use trollos.Heap.Links.{
  Block, IsBlock, Apart, AllApart, Disjoint, Segment, after, Outside, Cross, All-mono, All-append,
  All-split, Apart-flip, Disjoint-split, Disjoint-append, AllApart-Outside, Segment-append,
  Segment-congr, Segment-relink, Segment-after, write_after,
}

pub head_Outside : (i : ℕ) (bs : List Block) → Outside (list_head i) bs
head_Outside i [] = tt
head_Outside i (b ∷ bs) = (tt, head_Outside i bs)

pub own_Outside : (c : Block) (bs : List Block) → AllApart c bs → Outside (next_of c.address) bs
own_Outside c bs apart = AllApart-Outside c c.address bs (omega arith) (omega arith) apart

module _ {W : Type 0} where
  -- `p` points to `block`, of `size` bytes at least. It and the blocks `left` that the list holds now
  -- do not overlap, nor do they overlap any block that was apart from those of the list before; the
  -- headers of such blocks have not changed.
  pub record Allocated (s : Heap W) (list size : ℕ) (bs : List Block) (block : Block)
      (left : List Block) (p : ℕ) (s' : Heap W) : Type 0 where
    pub pointer : p ≡ block.address + 8
    pub sized : (s'.header block.address).size ≡ block.bytes
    pub enough : size ≤ block.bytes
    pub linked : Segment s'.header (s'.freelist list) left 0
    pub disjoint : Disjoint (block ∷ left)
    pub others :
        (c : Block)
        → IsBlock c
        → c.address + 8 + c.bytes ≤ s.heap_end
        → AllApart c bs
        → AllApart c (block ∷ left) × (s'.header c.address ≡ s.header c.address)

  -- The blocks in front of a link, and those that it now leads to.
  relinked :
      (t : Heap W) (list y v : ℕ) (front back : List Block)
      → Segment t.header (t.freelist list) front y
      → Segment t.header v back 0
      → Disjoint front
      → Cross front back
      → Segment
          (write_link (after (list_head list) front) v t).header
          (read_link (list_head list) (write_link (after (list_head list) front) v t))
          (front ++ back)
          0
  relinked t list y v front back seg rest d cross =
      let t' = write_link (after (list_head list) front) v t in
      Segment-append t'.header (read_link (list_head list) t') front back v 0
        (Segment-relink (list_head list) v front y t (head_Outside list front) d seg)
        (Segment-congr t.header t'.header v back 0
          (All-mono back
            (λ c apart.
              write_after (list_head list) front v c.address t tt (own_Outside c front apart))
            cross)
          rest)

  module _ (s : Heap W) (list size : ℕ) (front back : List Block) (b : Block)
      (d : Disjoint (front ++ (b ∷ back)))
      (seg : Segment s.header (s.freelist list) front b.address)
      (bytes : (s.header b.address).size ≡ b.bytes)
      (rest : Segment s.header (s.header b.address).next back 0) (enough : size ≤ b.bytes) where
    unfoldable pub iter : Link
    iter = after (list_head list) front

    at : read_link iter s ≡ b.address
    unfolding iter
    at = Segment-after (list_head list) front b.address s seg

    is : IsBlock b
    is = (Disjoint-split front (b ∷ back) d).1.0

    apart_front : AllApart b front
    apart_front = (Disjoint-split front (b ∷ back) d).2.0

    aligned : align (s.header b.address).size ≡ b.bytes
    aligned = ap align bytes ∙ omega (arith, is.in_words, is.in_memory)

    short : word (align size + header_size) ≡ align size + header_size
    short = omega (arith, is.in_memory, is.in_words, is.not_null)

    pub take_block-whole :
        ltb (align size + header_size) b.bytes ≡ false
        → take_block size iter s ≡ write_link iter (s.header b.address).next s
    unfolding take_block
    take_block-whole e =
        rw (at, take_block) (rw (short, aligned, take_block) (rw (e, take_block) refl))

    remainder : Block
    remainder = record {
      address = b.address + header_size + align size;
      bytes = b.bytes - (align size + header_size);
    }

    marked : Heap W
    unfolding remainder
    marked =
        set_header remainder.address remainder.bytes (s.header b.address).next
          (set_header b.address (align size) (s.header b.address).next s)

    in_range :
        ltb (align size + header_size) b.bytes ≡ true
        → word (b.address + header_size + align size) ≡ b.address + header_size + align size
    in_range e = omega (arith, is.in_memory, ltb→lt _ _ e)

    take_block-split :
        ltb (align size + header_size) b.bytes ≡ true
        → take_block size iter s ≡ write_link iter remainder.address marked
    unfolding take_block remainder marked
    take_block-split e =
        rw (at, take_block)
          (rw (short, aligned, take_block) (rw (e, take_block) (rw (in_range e) refl)))

    whole-Allocated :
        Allocated s list size
          (front ++ (b ∷ back))
          b
          (front ++ back)
          (b.address + 8)
          (write_link iter (s.header b.address).next s)
    unfolding iter
    whole-Allocated =
        let (df, (i, apart, db), (_, cross)) = Disjoint-split front (b ∷ back) d in
        record {
          pointer = refl;
          sized =
              ap (λ (k : Header). k.size)
                (write_after (list_head list) front _ b.address s tt
                  (own_Outside b front apart_front))
              ∙ bytes;
          enough = enough;
          linked = relinked s list b.address _ front back seg rest df cross;
          disjoint = (
            i,
            All-append (Apart b) front back apart_front apart,
            Disjoint-append front back df db cross,
          );
          others = λ c ic hc ac.
              (let (af, (ab, abk)) = All-split (Apart c) front (b ∷ back) ac in
                (
                  (ab, All-append (Apart c) front back af abk),
                  write_after (list_head list) front _ c.address s tt (own_Outside c front af),
                ));
        }

    remainder-Apart :
        (c : Block) → ltb (align size + header_size) b.bytes ≡ true → Apart b c → Apart remainder c
    unfolding remainder
    remainder-Apart c e (inl l) = inl (omega (arith, l, ltb→lt _ _ e))
    remainder-Apart c e (inr r) = inr (omega (arith, r))

    first-Apart :
        (c : Block)
        → ltb (align size + header_size) b.bytes ≡ true
        → Apart b c
        → Apart (record { address = b.address; bytes = align size }) c
    first-Apart c e (inl l) = inl (omega (arith, l, ltb→lt _ _ e))
    first-Apart c e (inr r) = inr r

    marked_same :
        (c : Block)
        → ltb (align size + header_size) b.bytes ≡ true
        → Apart b c
        → marked.header c.address ≡ s.header c.address
    unfolding marked remainder
    marked_same c e apart =
        let large : align size + header_size < b.bytes = ltb→lt _ _ e in
        let first : c.address ≢ b.address = λ h. elim apart [
          | inl l ↦ absurd (omega (arith, l, h))
          | inr r ↦ absurd (omega (arith, r, h))
        ] in
        let second : c.address ≢ b.address + header_size + align size = λ h. elim apart [
          | inl l ↦ absurd (omega (arith, l, h, large))
          | inr r ↦ absurd (omega (arith, r, h))
        ] in
        update_ne _ _ _ c.address second ∙ update_ne s.header b.address _ c.address first

    marked_remainder :
        marked.header remainder.address
        ≡ record { size = remainder.bytes; next = (s.header b.address).next }
    unfolding marked
    marked_remainder = update_self _ remainder.address _

    marked_first :
        ltb (align size + header_size) b.bytes ≡ true
        → marked.header b.address ≡ record { size = align size; next = (s.header b.address).next }
    unfolding marked remainder
    marked_first e =
        update_ne _ _ _ b.address (λ h. absurd (omega (arith, h)))
        ∙ update_self s.header b.address _

    first_remainder : Apart (record { address = b.address; bytes = align size }) remainder
    unfolding remainder
    first_remainder = inl (omega arith)

    marked_front :
        ltb (align size + header_size) b.bytes ≡ true
        → Segment marked.header (marked.freelist list) front b.address
    marked_front e =
        Segment-congr s.header marked.header _ front b.address
          (All-mono front (λ c. marked_same c e) apart_front) (unfold marked in seg)

    marked_back :
        ltb (align size + header_size) b.bytes ≡ true
        → AllApart b back
        → Segment marked.header remainder.address (remainder ∷ back) 0
    marked_back e apart = (
      refl,
      ap (λ (k : Header). k.size) marked_remainder,
      subst (λ (k : Header). Segment marked.header k.next back 0) (sym marked_remainder)
          (Segment-congr s.header marked.header _ back 0
            (All-mono back (λ c. marked_same c e) apart) rest),
    )

    remainder-IsBlock : ltb (align size + header_size) b.bytes ≡ true → IsBlock remainder
    unfolding remainder
    remainder-IsBlock e =
        let large : align size + header_size < b.bytes = ltb→lt _ _ e in
        record {
          not_null = omega (arith, is.not_null);
          in_words = omega (arith, is.in_words, large);
          in_memory = omega (arith, is.in_memory, large);
        }

    first-IsBlock :
        ltb (align size + header_size) b.bytes ≡ true
        → IsBlock (record { address = b.address; bytes = align size })
    first-IsBlock e =
        let large : align size + header_size < b.bytes = ltb→lt _ _ e in
        record {
          not_null = is.not_null;
          in_words = omega arith;
          in_memory = omega (arith, is.in_memory, large);
        }

    split-Allocated :
        ltb (align size + header_size) b.bytes ≡ true
        → Allocated s list size
            (front ++ (b ∷ back))
            (record { address = b.address; bytes = align size })
            (front ++ (remainder ∷ back))
            (b.address + 8)
            (write_link iter remainder.address marked)
    unfolding iter
    split-Allocated e =
        let (df, (i, apart, db), (_, cross)) = Disjoint-split front (b ∷ back) d in
        let first : Block = record { address = b.address; bytes = align size } in
        let rem_front = All-mono front (λ c. remainder-Apart c e) apart_front in
        let rem_back = All-mono back (λ c. remainder-Apart c e) apart in
        record {
          pointer = refl;
          sized =
              ap (λ (k : Header). k.size)
                (write_after (list_head list) front remainder.address b.address marked tt
                    (own_Outside b front apart_front)
                  ∙ marked_first e);
          enough = omega (arith, is.in_memory, is.in_words, is.not_null, enough);
          linked =
              relinked marked list b.address remainder.address front (remainder ∷ back)
                (marked_front e) (marked_back e apart) df (rem_front, cross);
          disjoint = (
            first-IsBlock e,
            All-append (Apart first) front (remainder ∷ back)
                (All-mono front (λ c. first-Apart c e) apart_front)
                (first_remainder, All-mono back (λ c. first-Apart c e) apart),
            Disjoint-append front (remainder ∷ back) df (remainder-IsBlock e, rem_back, db)
                (rem_front, cross),
          );
          others = λ c ic hc ac.
              (let (af, (ab, abk)) = All-split (Apart c) front (b ∷ back) ac in
                let ba = Apart-flip c b ab in
                (
                  (
                    Apart-flip first c (first-Apart c e ba),
                    All-append (Apart c) front (remainder ∷ back) af
                        (Apart-flip remainder c (remainder-Apart c e ba), abk),
                  ),
                  write_after (list_head list) front remainder.address c.address marked tt
                        (own_Outside c front af)
                      ∙ marked_same c e ba,
                ));
        }

    same_round : align size ≡ rounded size
    same_round = omega (arith, is.in_memory, enough)

    split-Parted :
        ltb (align size + header_size) b.bytes ≡ true
        → Parted size b (record { address = b.address; bytes = align size }) (remainder ∷ [])
    unfolding remainder
    split-Parted e = inr (
      omega (arith, ltb→lt _ _ e, same_round),
      ap (λ n. record { address = b.address; bytes = n }) same_round,
      ap (λ n. record { address = b.address + 8 + n; bytes = b.bytes - (n + 8) } ∷ []) same_round,
    )

    -- The block that the link leads to is taken, and split where the rest is large enough.
    pub take_block-Allocated :
        (c : Block) × (rest : List Block) × Parted size b c rest
        × Allocated s list size
            (front ++ (b ∷ back))
            c
            (front ++ (rest ++ back))
            (b.address + 8)
            (take_block size (after (list_head list) front) s)
    unfolding iter
    take_block-Allocated = elim (Bool-cases (ltb (align size + header_size) b.bytes)) [
      | inl e ↦ (
        record { address = b.address; bytes = align size },
        remainder ∷ [],
        split-Parted e,
        rw (take_block-split e) (split-Allocated e),
      )
      | inr e ↦ (
        b,
        [],
        inl (omega (arith, ltb_false→le _ _ e, same_round), refl, refl),
        rw (take_block-whole e) whole-Allocated,
      )
    ]
