-- ===== src/Heap/Links.antt =====
-- The lists of kernel/util/mem.c as lists of blocks: segments of linked headers, and blocks apart.
use mathlib.Core.Path.{subst}
use trollos.Base.{
  ℕ, ◌+◌, ◌%◌, ◌^◌, ◌≤◌, ◌<◌, ◌≡◌, ◌≢◌, ◌⊎◌, inl, inr, refl, sym, ap, ◌∙◌, List, [], ◌∷◌, ◌++◌,
  arith, update, Nat_cases, update_self, update_ne,
}
use trollos.Heap.{Header, Heap, Link, list_head, next_of, read_link, write_link}

-- A block: the address of its header, and its size without the header.
pub record Block : Type 0 where
  pub address : ℕ
  pub bytes : ℕ

-- A block of whole words in the 32 bits, not at NULL.
pub record IsBlock (b : Block) : Type 0 where
  pub not_null : 0 < b.address
  pub in_words : b.bytes % 4 ≡ 0
  pub in_memory : b.address + 8 + b.bytes < 2 ^ 32

-- The two blocks, headers included, do not overlap.
abbrev pub Apart : Block → Block → Type 0
Apart b c = (b.address + 8 + b.bytes ≤ c.address) ⊎ (c.address + 8 + c.bytes ≤ b.address)

abbrev pub All : (Block → Type 0) → List Block → Type 0
All P [] = Unit {0}
All P (b ∷ bs) = P b × All P bs

abbrev pub AllApart : Block → List Block → Type 0
AllApart b bs = All (Apart b) bs

-- The blocks do not overlap.
abbrev pub Disjoint : List Block → Type 0
Disjoint [] = Unit {0}
Disjoint (b ∷ bs) = IsBlock b × AllApart b bs × Disjoint bs

-- From `a` the headers `h` link the blocks in order, and then lead to `z`.
abbrev pub Segment : (ℕ → Header) → ℕ → List Block → ℕ → Type 0
Segment h a [] z = a ≡ z
Segment h a (b ∷ bs) z =
    (a ≡ b.address) × ((h b.address).size ≡ b.bytes) × Segment h (h b.address).next bs z

-- The link behind the blocks that `l` leads to.
abbrev pub after : Link → List Block → Link
after l [] = l
after l (b ∷ bs) = after (next_of b.address) bs

abbrev pub NotAt : Link → ℕ → Type 0
NotAt (list_head i) y = Unit {0}
NotAt (next_of x) y = x ≢ y

-- The link is in no header of the blocks.
abbrev pub Outside : Link → List Block → Type 0
Outside l bs = All (λ b. NotAt l b.address) bs

pub All-mono :
    {P Q : Block → Type 0} (bs : List Block) → ((b : Block) → P b → Q b) → All P bs → All Q bs
All-mono [] f all = tt
All-mono (b ∷ bs) f (p, ps) = (f b p, All-mono bs f ps)

pub All-append : (P : Block → Type 0) (xs ys : List Block) → All P xs → All P ys → All P (xs ++ ys)
All-append P [] ys a b = b
All-append P (x ∷ xs) ys (p, ps) b = (p, All-append P xs ys ps b)

pub All-split : (P : Block → Type 0) (xs ys : List Block) → All P (xs ++ ys) → All P xs × All P ys
All-split P [] ys a = (tt, a)
All-split P (x ∷ xs) ys (p, ps) = let (here, there) = All-split P xs ys ps in ((p, here), there)

pub Apart-flip : (b c : Block) → Apart b c → Apart c b
Apart-flip b c (inl l) = inr l
Apart-flip b c (inr r) = inl r

-- Each of the second blocks is apart from the first ones.
abbrev pub Cross : List Block → List Block → Type 0
Cross xs ys = All (λ c. AllApart c xs) ys

Cross-nil : (ys : List Block) → Cross [] ys
Cross-nil [] = tt
Cross-nil (y ∷ ys) = (tt, Cross-nil ys)

Cross-cons : (x : Block) (xs ys : List Block) → AllApart x ys → Cross xs ys → Cross (x ∷ xs) ys
Cross-cons x xs [] a c = tt
Cross-cons x xs (y ∷ ys) (a, more) (c, cs) = ((Apart-flip x y a, c), Cross-cons x xs ys more cs)

Cross-head : (x : Block) (xs ys : List Block) → Cross (x ∷ xs) ys → AllApart x ys × Cross xs ys
Cross-head x xs [] c = (tt, tt)
Cross-head x xs (y ∷ ys) ((a, more), cs) =
    let (hs, ts) = Cross-head x xs ys cs in ((Apart-flip y x a, hs), (more, ts))

pub Disjoint-split :
    (xs ys : List Block) → Disjoint (xs ++ ys) → Disjoint xs × Disjoint ys × Cross xs ys
Disjoint-split [] ys d = (tt, d, Cross-nil ys)
Disjoint-split (x ∷ xs) ys (i, apart, d) =
    let (here, there) = All-split (Apart x) xs ys apart in
    let (dx, dy, cross) = Disjoint-split xs ys d in
    ((i, here, dx), dy, Cross-cons x xs ys there cross)

pub Disjoint-append :
    (xs ys : List Block) → Disjoint xs → Disjoint ys → Cross xs ys → Disjoint (xs ++ ys)
Disjoint-append [] ys dx dy cross = dy
Disjoint-append (x ∷ xs) ys (i, apart, dx) dy cross =
    let (here, rest) = Cross-head x xs ys cross in
    (i, All-append (Apart x) xs ys apart here, Disjoint-append xs ys dx dy rest)

-- A place inside a block is at no header of those that are apart from it.
pub AllApart-Outside :
    (b : Block) (x : ℕ) (bs : List Block)
    → b.address ≤ x
    → x < b.address + 8 + b.bytes
    → AllApart b bs
    → Outside (next_of x) bs
AllApart-Outside b x [] lo hi apart = tt
AllApart-Outside b x (c ∷ cs) lo hi (here, rest) = (
  λ e. elim here [ inl l ↦ absurd (omega (arith, e)) | inr r ↦ absurd (omega (arith, e)) ],
  AllApart-Outside b x cs lo hi rest,
)

-- A header that is none of theirs does not matter to the blocks.
pub Segment-update :
    (h : ℕ → Header) (x : ℕ) (v : Header) (a : ℕ) (bs : List Block) (z : ℕ)
    → Outside (next_of x) bs
    → Segment h a bs z
    → Segment (update h x v) a bs z
Segment-update h x v a [] z out s = s
Segment-update h x v a (b ∷ bs) z (ne, out) (at, size, rest) =
    let same : update h x v b.address ≡ h b.address = update_ne h x v b.address (λ e. ne (sym e)) in
    (
      at,
      ap (λ (k : Header). k.size) same ∙ size,
      subst (λ (k : Header). Segment (update h x v) k.next bs z) (sym same)
          (Segment-update h x v (h b.address).next bs z out rest),
    )

pub Segment-append :
    (h : ℕ → Header) (a : ℕ) (bs cs : List Block) (y z : ℕ)
    → Segment h a bs y
    → Segment h y cs z
    → Segment h a (bs ++ cs) z
Segment-append h a [] cs y z s t = subst (λ k. Segment h k cs z) (sym s) t
Segment-append h a (b ∷ bs) cs y z (at, size, rest) t =
    (at, size, Segment-append h (h b.address).next bs cs y z rest t)

-- Blocks whose headers are the same stay linked.
pub Segment-congr :
    (h h' : ℕ → Header) (a : ℕ) (bs : List Block) (z : ℕ)
    → All (λ b. h' b.address ≡ h b.address) bs
    → Segment h a bs z
    → Segment h' a bs z
Segment-congr h h' a [] z same s = s
Segment-congr h h' a (b ∷ bs) z (same, more) (at, size, rest) = (
  at,
  ap (λ (k : Header). k.size) same ∙ size,
  subst (λ (k : Header). Segment h' k.next bs z) (sym same)
      (Segment-congr h h' (h b.address).next bs z more rest),
)

module _ {W : Type 0} where
  read_write : (l : Link) (v : ℕ) (s : Heap W) → read_link l (write_link l v s) ≡ v
  read_write (list_head i) v s = update_self s.freelist i v
  read_write (next_of x) v s = ap (λ (k : Header). k.next) (update_self s.header x _)

  write_size :
      (l : Link) (v x : ℕ) (s : Heap W) → ((write_link l v s).header x).size ≡ (s.header x).size
  write_size (list_head i) v x s = refl
  write_size (next_of y) v x s = elim (Nat_cases x y) [
    | inl e ↦ rw e (ap (λ (k : Header). k.size) (update_self s.header y _))
    | inr ne ↦ ap (λ (k : Header). k.size) (update_ne s.header y _ x ne)
  ]

  -- Writing behind the blocks leaves a link in front of them alone.
  read_after :
      (l : Link) (y v : ℕ) (bs : List Block) (s : Heap W)
      → NotAt l y
      → Outside l bs
      → read_link l (write_link (after (next_of y) bs) v s) ≡ read_link l s
  read_after (list_head i) y v [] s ne out = refl
  read_after (next_of x) y v [] s ne out = ap (λ (k : Header). k.next) (update_ne s.header y _ x ne)
  read_after l y v (b ∷ bs) s ne (here, out) = read_after l b.address v bs s here out

  -- The blocks up to a link, with the link behind them changed.
  pub Segment-relink :
      (l : Link) (v : ℕ) (bs : List Block) (z : ℕ) (s : Heap W)
      → Outside l bs
      → Disjoint bs
      → Segment s.header (read_link l s) bs z
      → Segment
          (write_link (after l bs) v s).header
          (read_link l (write_link (after l bs) v s))
          bs
          v
  Segment-relink l v [] z s out d seg = read_write l v s
  Segment-relink l v (b ∷ bs) z s (here, out) (is, apart, d) (at, size, rest) = (
    read_after l b.address v bs s here out ∙ at,
    write_size (after (next_of b.address) bs) v b.address s ∙ size,
    Segment-relink (next_of b.address) v bs z s
        (AllApart-Outside b b.address bs (omega arith) (omega arith) apart) d rest,
  )

  -- The end of the blocks is where the link behind them leads.
  pub Segment-after :
      (l : Link) (bs : List Block) (z : ℕ) (s : Heap W)
      → Segment s.header (read_link l s) bs z
      → read_link (after l bs) s ≡ z
  Segment-after l [] z s seg = seg
  Segment-after l (b ∷ bs) z s (at, size, rest) = Segment-after (next_of b.address) bs z s rest

  -- Writing behind the blocks changes no header but theirs.
  pub write_after :
      (l : Link) (bs : List Block) (v x : ℕ) (s : Heap W)
      → NotAt l x
      → Outside (next_of x) bs
      → (write_link (after l bs) v s).header x ≡ s.header x
  write_after (list_head i) [] v x s ne out = refl
  write_after (next_of y) [] v x s ne out = update_ne s.header y _ x (λ e. ne (sym e))
  write_after l (b ∷ bs) v x s ne (here, out) =
      write_after (next_of b.address) bs v x s (λ e. here (sym e)) out
