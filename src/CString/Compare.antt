-- ===== src/CString/Compare.antt =====
-- `strcmp` of kernel/util/string.c as a test of equality.
use trollos.Base.{
  ℕ, ◌<◌, ◌≡◌, ◌↔◌, inl, inr, refl, sym, ◌∙◌, Bool, true, false, not, ◌&&◌, List, [], ◌∷◌, arith,
  ◌==◌, if◌then◌else◌, Bool-cases, eq→==,
}
use trollos.Base.Int.{ℤ, pos, negsuc}
use trollos.CString.{char_diff, strcmp, str_eq, c_string}

abbrev zero_test : ℤ → Bool
zero_test z = elim z [ pos n ↦ n == 0 | negsuc n ↦ false ]

char_diff_symm : (a b : ℕ) → zero_test (char_diff a b) ≡ zero_test (char_diff b a)
unfolding char_diff
char_diff_symm a b = ground arith

-- Two bytes differ by 0 only if they are one.
char_diff-zero : (a b : ℕ) → a < 256 → b < 256 → zero_test (char_diff a b) ≡ true → a ≡ b
unfolding char_diff
char_diff-zero a b ha hb h = ground arith

char_diff_self : (a : ℕ) → zero_test (char_diff a a) ≡ true
unfolding char_diff
char_diff_self a = ground arith

-- `strcmp` in one step.
abbrev both_more : ℕ → ℕ → Bool
both_more a b = not (a == 0) && not (b == 0) && a == b

str_eq-cons :
    (a b : ℕ) (s t : List ℕ)
    → str_eq (a ∷ s) (b ∷ t) ≡ (if both_more a b then str_eq s t else zero_test (char_diff a b))
unfolding str_eq
str_eq-cons a b s t = ground arith

both_more_symm : (a b : ℕ) → both_more a b ≡ both_more b a
both_more_symm a b = ground arith

pub str_eq_symm : (s t : List ℕ) → str_eq s t ≡ str_eq t s
str_eq_symm [] [] = refl
str_eq_symm [] (b ∷ t) = unfold str_eq strcmp in (char_diff_symm 0 b)
str_eq_symm (a ∷ s) [] = unfold str_eq strcmp in (char_diff_symm a 0)
str_eq_symm (a ∷ s) (b ∷ t) =
    str_eq-cons a b s t
    ∙ rw (both_more_symm a b, str_eq_symm s t, char_diff_symm a b) refl
    ∙ sym (str_eq-cons b a t s)

-- Every element is a byte.
abbrev pub Bytes : List ℕ → Type 0
Bytes [] = Unit
Bytes (c ∷ s) = (c < 256) × Bytes s

cons_injective : (a b : ℕ) (s t : List ℕ) → a ∷ s ≡ b ∷ t → (a ≡ b) × (s ≡ t)
cons_injective a b s t h = ground arith

str_eq→ : (s t : List ℕ) → Bytes s → Bytes t → str_eq s t ≡ true → c_string s ≡ c_string t
str_eq→ [] [] hs ht h = refl
str_eq→ [] (b ∷ t) hs ht h =
    let e : 0 ≡ b = char_diff-zero 0 b (omega arith) ht.0 (unfold str_eq strcmp in h) in
    rw (eq→== b 0 (sym e)) refl
str_eq→ (a ∷ s) [] hs ht h =
    let e : a ≡ 0 = char_diff-zero a 0 hs.0 (omega arith) (unfold str_eq strcmp in h) in
    rw (eq→== a 0 e) refl
str_eq→ (a ∷ s) (b ∷ t) hs ht h = elim (Bool-cases (both_more a b)) [
  | inl e ↦ ground (arith, str_eq→ s t hs.1 ht.1, str_eq-cons a b s t)
  | inr e ↦ ground (arith, char_diff-zero a b hs.0 ht.0, str_eq-cons a b s t)
]

str_eq← : (s t : List ℕ) → c_string s ≡ c_string t → str_eq s t ≡ true
unfolding str_eq
str_eq← [] [] h = refl
str_eq← [] (b ∷ t) h = ground arith
str_eq← (a ∷ s) [] h = ground arith
str_eq← (a ∷ s) (b ∷ t) h = elim (Bool-cases (both_more a b)) [
  | inl e ↦ ground (arith, str_eq← s t, str_eq-cons a b s t)
  | inr e ↦ ground (arith, char_diff_self a, str_eq-cons a b s t)
]

-- For two lists of bytes, `!strcmp(s, t)` holds exactly when they are the same up to their
-- terminators.
pub str_eq_iff :
    (s t : List ℕ) → Bytes s → Bytes t → (str_eq s t ≡ true) ↔ (c_string s ≡ c_string t)
str_eq_iff s t hs ht = (str_eq→ s t hs ht, str_eq← s t)
