-- ===== src/Base/Scan.antt =====
-- A fixed-size C array is a function on indices: a write is `update`, and the loops that look for
-- the first or last index with some property are `find_first` and `find_last`.
use Prim.Native.Nat.{ℕ, zero, suc, ◌+◌, ◌≤◌, ◌<◌}
use mathlib.Core.Path.{◌≡◌, refl, sym, ◌∙◌}
use mathlib.Core.Bool.{Bool, true, false}
use mathlib.Core.Logic.{◌≢◌, inl, inr}
use native.Mathlib.Decide.{dec_lt}
use mathlib.Core.Option.{Option, none, some}
use native.Mathlib.Omega.{arith}
use trollos.Base.Tests.{◌==◌, if◌then◌else◌, Bool-cases, Option-cases, Nat_cases, true_ne_false}

-- a[i] = v
unfoldable pub update {ℓ} : {A : Type ℓ} → (ℕ → A) → ℕ → A → ℕ → A
update f i v j = if j == i then v else f j

pub update_self {ℓ} : {A : Type ℓ} (f : ℕ → A) (i : ℕ) (v : A) → update f i v i ≡ v
unfolding update
update_self f i v = ground arith

pub update_ne {ℓ} : {A : Type ℓ} (f : ℕ → A) (i : ℕ) (v : A) (j : ℕ) → j ≢ i → update f i v j ≡ f j
unfolding update
update_ne f i v j h = ground arith

-- for (j = i; j < i + n; j++) if (p(j)) return j;
unfoldable pub find_from : (ℕ → Bool) → ℕ → ℕ → Option ℕ
find_from p zero i = none
find_from p (suc n) i = let rest = find_from p n (i + 1) in if p i then some i else rest

unfoldable pub find_first : (ℕ → Bool) → ℕ → Option ℕ
unfolding find_from
find_first p n = find_from p n 0

-- the last index below n with the property
unfoldable pub find_last : (ℕ → Bool) → ℕ → Option ℕ
find_last p zero = none
find_last p (suc n) = let rest = find_last p n in if p n then some n else rest

-- `j` is the first index from `i` on with the property, and lies before `m`.
pub record FirstAt (p : ℕ → Bool) (i m j : ℕ) : Type 0 where
  pub hit : p j ≡ true
  pub lower : i ≤ j
  pub upper : j < m
  pub before : (k : ℕ) → i ≤ k → k < j → p k ≡ false

find_from-FirstAt :
    (p : ℕ → Bool) (n i : ℕ) {j : ℕ} → find_from p n i ≡ some j → FirstAt p i (i + n) j
unfolding find_from
find_from-FirstAt p zero i h = cc
find_from-FirstAt p (suc n) i {j} h = elim (Bool-cases (p i)) [
  | inl e ↦
      let same : i ≡ j = ground arith in
      record {
        hit = ground arith;
        lower = omega arith;
        upper = omega arith;
        before = λ k a b. absurd (omega arith);
      }
  | inr e ↦
      let r = find_from-FirstAt p n (i + 1) {j = j} (ground arith) in
      record {
        hit = r.hit;
        lower = omega arith;
        upper = omega arith;
        before = λ k a b. elim (Nat_cases i k) [
          | inl same ↦ rw (← same) e
          | inr other ↦ r.before k (omega arith) b
        ];
      }
]

find_from-none :
    (p : ℕ → Bool) (n i k : ℕ) → find_from p n i ≡ none → i ≤ k → k < i + n → p k ≡ false
unfolding find_from
find_from-none p zero i k h a b = absurd (omega arith)
find_from-none p (suc n) i k h a b = elim (Bool-cases (p i)) [
  | inl e ↦ ground arith
  | inr e ↦ elim (Nat_cases i k) [
    | inl same ↦ rw (← same) e
    | inr other ↦ find_from-none p n (i + 1) k (ground arith) (omega arith) (omega arith)
  ]
]

pub find_first-FirstAt : (p : ℕ → Bool) (n : ℕ) {j : ℕ} → find_first p n ≡ some j → FirstAt p 0 n j
unfolding find_first
find_first-FirstAt p n {j} h =
    let r = find_from-FirstAt p n 0 h in
    record { hit = r.hit; lower = r.lower; upper = omega arith; before = r.before }

pub find_first-none : (p : ℕ → Bool) (n k : ℕ) → find_first p n ≡ none → k < n → p k ≡ false
unfolding find_first
find_first-none p n k h b = find_from-none p n 0 k h (omega arith) (omega arith)

-- The scan depends only on the values of the property below the end.
find_from-congr :
    (p q : ℕ → Bool) (n i : ℕ)
    → ((k : ℕ) → k < i + n → p k ≡ q k)
    → find_from p n i ≡ find_from q n i
unfolding find_from
find_from-congr p q zero i h = refl
find_from-congr p q (suc n) i h =
    rw (h i (omega arith), find_from-congr p q n (i + 1) λ k b. h k (omega arith)) refl

-- An index with the property makes the scan succeed, and at the latest there.
pub find_first-exists :
    (p : ℕ → Bool) (n k : ℕ) → k < n → p k ≡ true → (j : ℕ) × (find_first p n ≡ some j) × (j ≤ k)
find_first-exists p n k b h = elim (Option-cases (find_first p n)) [
  | inl e ↦ absurd (true_ne_false (sym h ∙ find_first-none p n k e b))
  | inr (j, e) ↦ (
    j,
    e,
    elim (dec_lt k j) [
      | yes l ↦ absurd (true_ne_false (sym h ∙ (find_first-FirstAt p n e).before k (omega arith) l))
      | no g ↦ omega arith
    ],
  )
]

pub find_last-some :
    (p : ℕ → Bool) (n : ℕ) {j : ℕ}
    → find_last p n ≡ some j
    → (p j ≡ true) × (j < n) × ((k : ℕ) → j < k → k < n → p k ≡ false)
unfolding find_last
find_last-some p zero h = cc
find_last-some p (suc n) {j} h = elim (Bool-cases (p n)) [
  | inl e ↦
      let same : n ≡ j = ground arith in (ground arith, omega arith, λ k a b. absurd (omega arith))
  | inr e ↦
      let r = find_last-some p n {j = j} (ground arith) in
      (
        r.0,
        omega arith,
        λ k a b. elim (Nat_cases k n) [ inl same ↦ rw same e | inr other ↦ r.2 k a (omega arith) ],
      )
]

pub find_last-none : (p : ℕ → Bool) (n k : ℕ) → find_last p n ≡ none → k < n → p k ≡ false
unfolding find_last
find_last-none p zero k h b = absurd (omega arith)
find_last-none p (suc n) k h b = elim (Bool-cases (p n)) [
  | inl e ↦ ground arith
  | inr e ↦ elim (Nat_cases k n) [
    | inl same ↦ rw same e
    | inr other ↦ find_last-none p n k (ground arith) (omega arith)
  ]
]
