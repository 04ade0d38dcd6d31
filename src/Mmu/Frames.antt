-- ===== src/Mmu/Frames.antt =====
-- `_alloc_frame` and `_free_frame` of kernel/mmu/mmu040.c as operations on a list of free frames.
use mathlib.Core.Path.{subst}
use trollos.Base.{
  ℕ, suc, ◌+◌, ◌-◌, ◌*◌, ◌/◌, ◌%◌, ◌^◌, ◌≤◌, ◌<◌, ◌≡◌, ◌≢◌, ◌⊎◌, inl, inr, refl, sym, ap, ◌∙◌, some,
  List, [], ◌∷◌, length, arith, ◌==◌, if◌then◌else◌, lt→ltb, eq→==, ne→==_false, Nat_cases, update,
  update_self, update_ne, ret, Ends, returns,
}
use trollos.Mmu.{
  Mmu, Pointer, page_size, mapper_pages, physical_of, load_word, store_word, mapping_push,
  mapping_pop, zero_page, alloc_frame, free_frame,
}

-- The address of a frame: a page of the 32 bits, and not NULL.
pub record IsFrame (f : ℕ) : Type 0 where
  pub on_page : f % 4096 ≡ 0
  pub not_null : 0 < f
  pub in_memory : f < 2 ^ 32

abbrev pub Fresh : ℕ → List ℕ → Type 0
Fresh f [] = Unit {0}
Fresh f (g ∷ gs) = (f ≢ g) × Fresh f gs

-- The frames that the first words of free frames link, from `head` on.
abbrev pub Chain : (ℕ → ℕ) → ℕ → List ℕ → Type 0
Chain memory head [] = head ≡ 0
Chain memory head (f ∷ fs) = (head ≡ f) × IsFrame f × Fresh f fs × Chain memory (memory f) fs

-- The frames `fs` are linked from `next_frame` on, and are as many as `free_frames` at least; a
-- page of the mapper is free.
pub record FreeList (s : Mmu) (fs : List ℕ) : Type 0 where
  pub chain : Chain s.memory s.next_frame fs
  pub counted : s.free_frames ≤ length fs
  pub room : s.mapping < 10

Chain-congr :
    (m m' : ℕ → ℕ) (f head : ℕ) (fs : List ℕ)
    → ((g : ℕ) → IsFrame g → f ≢ g → m' g ≡ m g)
    → Fresh f fs
    → Chain m head fs
    → Chain m' head fs
Chain-congr m m' f head [] same fresh c = c
Chain-congr m m' f head (g ∷ gs) same fresh c = (
  c.0,
  c.1,
  c.2,
  Chain-congr m m' f (m' g) gs same fresh.1
      (subst (λ h. Chain m h gs) (sym (same g c.1 fresh.0)) c.3),
)

physical_of-start :
    (page frame : ℕ) (s : Mmu)
    → page < 10
    → s.page_descriptor page ≡ some frame
    → physical_of (record { page = page; offset = 0 }) s ≡ some (frame * page_size + 0)
unfolding physical_of
physical_of-start page frame s b e =
    let here : page + 0 / page_size ≡ page = omega arith in
    rw (here, physical_of) (rw (lt→ltb page mapper_pages b, physical_of) (rw (e, physical_of) refl))

-- The mapper with a frame in its next page.
unfoldable pub mapped : Mmu → ℕ → Mmu
mapped s f = record s {
  page_descriptor = update s.page_descriptor s.mapping (some (f / page_size % 2 ^ 20));
  mapping = s.mapping + 1;
}

pub mapping_push-ret :
    (s : Mmu) (f : ℕ) → s.mapping < 10 → mapping_push f s ≡ ret s.mapping (mapped s f)
unfolding mapping_push mapped
mapping_push-ret s f b = rw (lt→ltb s.mapping mapper_pages b, mapping_push) refl

frame_start : (f : ℕ) → IsFrame f → f / page_size % 2 ^ 20 * page_size + 0 ≡ f
frame_start f i = omega (arith, i.on_page, i.in_memory)

mapped-physical :
    (s : Mmu) (f : ℕ)
    → s.mapping < 10
    → IsFrame f
    → physical_of (record { page = s.mapping; offset = 0 }) (mapped s f) ≡ some f
unfolding mapped
mapped-physical s f b i =
    physical_of-start s.mapping (f / page_size % 2 ^ 20) (mapped s f) b
      (update_self s.page_descriptor s.mapping _)
    ∙ ap some (frame_start f i)

-- The memory with a page of zeros.
zeroed : (ℕ → ℕ) → ℕ → ℕ → ℕ
zeroed memory frame a = if a / page_size == frame then 0 else memory a

allocated : Mmu → Mmu
allocated s = record s {
  memory = zeroed s.memory (s.next_frame / page_size % 2 ^ 20);
  page_descriptor = update s.page_descriptor s.mapping (some (s.next_frame / page_size % 2 ^ 20));
  mapping = s.mapping + 1 - 1;
  free_frames = s.free_frames - 1;
  next_frame = s.memory s.next_frame;
}

mapping_pop-ret : (s : Mmu) → mapping_pop s ≡ ret tt (record s { mapping = s.mapping - 1 })
unfolding mapping_pop
mapping_pop-ret s = refl

load_word-ret :
    (s : Mmu) (p : Pointer) {a : ℕ} → physical_of p s ≡ some a → load_word p s ≡ ret (s.memory a) s
unfolding load_word
load_word-ret s p e = rw (e, load_word) refl

store_word-ret :
    (s : Mmu) (p : Pointer) (v : ℕ) {a : ℕ}
    → physical_of p s ≡ some a
    → store_word p v s ≡ ret tt (record s { memory = update s.memory a v })
unfolding store_word
store_word-ret s p v e = rw (e, store_word) refl

zero_page-ret :
    (s : Mmu) (page frame : ℕ)
    → s.page_descriptor page ≡ some frame
    → zero_page page s ≡ ret tt (record s { memory = zeroed s.memory frame })
unfolding zero_page zeroed
zero_page-ret s page frame e = rw (e, zero_page) refl

alloc_frame-ret :
    (s : Mmu)
    → 0 < s.free_frames
    → s.mapping < 10
    → IsFrame s.next_frame
    → alloc_frame s ≡ ret s.next_frame (allocated s)
unfolding alloc_frame mapped allocated mapping_pop
alloc_frame-ret s some_free b i =
    let t : Mmu = record s { free_frames = s.free_frames - 1 } in
    let f : ℕ = s.next_frame in
    rw (ne→==_false s.free_frames 0 (λ z. absurd (omega arith)), mapping_push-ret t f b)
      (rw
        (load_word-ret (mapped t f) (record { page = s.mapping; offset = 0 })
          (mapped-physical t f b i))
        (rw
          (zero_page-ret (record (mapped t f) { next_frame = s.memory f }) s.mapping
            (f / page_size % 2 ^ 20)
            (update_self s.page_descriptor s.mapping (some (f / page_size % 2 ^ 20))))
          refl))

released : Mmu → ℕ → Mmu
released s f = record s {
  memory = update s.memory f s.next_frame;
  page_descriptor = update s.page_descriptor s.mapping (some (f / page_size % 2 ^ 20));
  mapping = s.mapping + 1 - 1;
  next_frame = f;
}

free_frame-ret :
    (s : Mmu) (f : ℕ) → s.mapping < 10 → IsFrame f → free_frame f s ≡ ret tt (released s f)
unfolding free_frame mapped released mapping_pop
free_frame-ret s f b i = rw (mapping_push-ret s f b) (
    rw
      (store_word-ret (mapped s f) (record { page = s.mapping; offset = 0 }) s.next_frame
        (mapped-physical s f b i))
      refl)

-- Outside of the page that is zeroed nothing changes.
zeroed-other :
    (memory : ℕ → ℕ) (f a : ℕ)
    → IsFrame f
    → f / page_size ≢ a / page_size
    → zeroed memory (f / page_size % 2 ^ 20) a ≡ memory a
unfolding zeroed
zeroed-other memory f a i ne =
    rw
      (ne→==_false (a / page_size) (f / page_size % 2 ^ 20)
        (λ e. ne (omega (arith, e, i.in_memory))))
      refl

zeroed-page :
    (memory : ℕ → ℕ) (f a : ℕ)
    → IsFrame f
    → f / page_size ≡ a / page_size
    → zeroed memory (f / page_size % 2 ^ 20) a ≡ 0
unfolding zeroed
zeroed-page memory f a i e =
    rw (eq→== (a / page_size) (f / page_size % 2 ^ 20) (omega (arith, e, i.in_memory))) refl

apart : (f g : ℕ) → IsFrame f → IsFrame g → f ≢ g → f / page_size ≢ g / page_size
apart f g i j ne e = ne (omega (arith, e, i.on_page, j.on_page))

-- `frame` was taken from the list: it is zeroed, no other page has changed, and `rest` is free.
pub record Taken (s : Mmu) (frame : ℕ) (rest : List ℕ) (s' : Mmu) : Type 0 where
  pub is_frame : IsFrame frame
  pub free_list : FreeList s' rest
  pub one_less : suc s'.free_frames ≡ s.free_frames
  pub zeros : (a : ℕ) → frame / 4096 ≡ a / 4096 → s'.memory a ≡ 0
  pub others : (a : ℕ) → frame / 4096 ≢ a / 4096 → s'.memory a ≡ s.memory a
  pub mapping_kept : s'.mapping ≡ s.mapping

alloc_frame-null : (s : Mmu) → s.free_frames ≡ 0 → alloc_frame s ≡ ret 0 s
unfolding alloc_frame
alloc_frame-null s e = rw (eq→== s.free_frames 0 e, alloc_frame) refl

allocated-Taken :
    (s : Mmu) (fs : List ℕ)
    → IsFrame s.next_frame
    → Fresh s.next_frame fs
    → Chain s.memory (s.memory s.next_frame) fs
    → 0 < s.free_frames
    → s.free_frames ≤ suc (length fs)
    → s.mapping < 10
    → Taken s s.next_frame fs (allocated s)
unfolding allocated
allocated-Taken s fs i fresh chain some_free counted room =
    let other = λ (a : ℕ) (ne : s.next_frame / page_size ≢ a / page_size).
      zeroed-other s.memory s.next_frame a i ne in
    record {
      is_frame = i;
      free_list = record {
        chain =
            Chain-congr s.memory _ s.next_frame (s.memory s.next_frame) fs
              (λ g j ne. other g (apart s.next_frame g i j ne)) fresh chain;
        counted = omega arith;
        room = omega arith;
      };
      one_less = omega arith;
      zeros = λ a e. zeroed-page s.memory s.next_frame a i e;
      others = other;
      mapping_kept = omega arith;
    }

-- With the free frames linked in a list, `_alloc_frame` ends. Where `free_frames` is 0 it returns
-- NULL and changes nothing. Else it returns the first frame of the list, filled with zeros; the
-- list goes on without it, the counter is one less, no other page of memory and no use of the
-- mapper has changed.
pub alloc_frame-Taken :
    (s : Mmu) (fs : List ℕ)
    → FreeList s fs
    → Ends
        (λ frame s'.
          ((s.free_frames ≡ 0) × (frame ≡ 0) × (s' ≡ s))
          ⊎ ((rest : List ℕ) × (fs ≡ frame ∷ rest) × Taken s frame rest s'))
        (λ _ _. ⊥)
        (alloc_frame s)
alloc_frame-Taken s [] free =
    let none_left : s.free_frames ≡ 0 = omega (arith, free.counted) in
    rw (alloc_frame-null s none_left) (returns (inl (none_left, refl, refl)))
alloc_frame-Taken s (f ∷ fs) free = elim (Nat_cases s.free_frames 0) [
  | inl e ↦ rw (alloc_frame-null s e) (returns (inl (e, refl, refl)))
  | inr ne ↦
      let (head, is, fresh, chain) = free.chain in
      let i : IsFrame s.next_frame = subst IsFrame (sym head) is in
      let taken =
        allocated-Taken s fs i (subst (λ g. Fresh g fs) (sym head) fresh)
          (subst (λ g. Chain s.memory (s.memory g) fs) (sym head) chain) (omega arith) free.counted
          free.room in
      rw (alloc_frame-ret s (omega arith) free.room i)
        (returns (inr (fs, ap (λ g. g ∷ fs) (sym head), taken)))
]

released-FreeList :
    (s : Mmu) (f : ℕ) (fs : List ℕ)
    → FreeList s fs
    → IsFrame f
    → Fresh f fs
    → FreeList (released s f) (f ∷ fs)
unfolding released
released-FreeList s f fs free i fresh = record {
  chain = (
    refl,
    i,
    fresh,
    subst (λ h. Chain (update s.memory f s.next_frame) h fs)
        (sym (update_self s.memory f s.next_frame))
        (Chain-congr s.memory _ f s.next_frame fs
          (λ g j ne. update_ne s.memory f s.next_frame g (λ e. ne (sym e))) fresh free.chain),
  );
  counted = omega (arith, free.counted);
  room = omega (arith, free.room);
}

-- With the free frames linked in a list, `_free_frame` of a frame that is not in it ends, and puts
-- the frame before the others. It changes no word of memory but the frame's first, and it leaves
-- `free_frames` as it is: the number of frames that can be allocated does not grow.
pub free_frame-FreeList :
    (s : Mmu) (f : ℕ) (fs : List ℕ)
    → FreeList s fs
    → IsFrame f
    → Fresh f fs
    → Ends
        (λ _ s'.
          FreeList s' (f ∷ fs)
          × (s'.free_frames ≡ s.free_frames)
          × ((a : ℕ) → a ≢ f → s'.memory a ≡ s.memory a))
        (λ _ _. ⊥)
        (free_frame f s)
free_frame-FreeList s f fs free i fresh = rw (free_frame-ret s f free.room i) (
    returns (
      released-FreeList s f fs free i fresh,
      unfold released in refl,
      λ a ne. unfold released in (update_ne s.memory f s.next_frame a ne),
    ))
