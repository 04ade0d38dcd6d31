-- ===== src/CString/Copy.antt =====
-- kernel/util/string.c: copies and searches of strings.
use trollos.Base.{
  ℕ, zero, suc, ◌-◌, ◌≤◌, ◌<◌, ◌≡◌, ◌≢◌, refl, sym, ap, ◌∙◌, Bool, ◌&&◌, ◌||◌, Option, none, some,
  List, [], ◌∷◌, ◌++◌, arith, length, take, leb, ◌==◌, if◌then◌else◌, Bool-cases, inl, inr, eq→==,
  ne→==_false, length-append, length-take_le, true_ne_false,
}
use trollos.CString.{c_string}

unfoldable pub isalpha : ℕ → Bool
isalpha c = leb b'a' c && leb c b'z' || leb b'A' c && leb c b'Z'

-- `strchr`, which does not find the terminator: the string from the first `chr` on.
unfoldable pub strchr : List ℕ → ℕ → Option (List ℕ)
strchr [] chr = none
strchr (c ∷ s) chr =
    let rest = strchr s chr in if c == 0 then none else if c == chr then some (c ∷ s) else rest

-- The loop of `strncpy`: the bytes before the terminator, at most `max`.
unfoldable pub copied : ℕ → List ℕ → List ℕ
copied zero src = []
copied (suc max) [] = []
copied (suc max) (c ∷ src) = let rest = copied max src in if c == 0 then [] else c ∷ rest

-- `strncpy`: the bytes that `dest` begins with. With `max` 0 a byte in front of it is written.
unfoldable pub strncpy : List ℕ → ℕ → Option (List ℕ)
strncpy src max =
    let s = copied max src in
    if length s == max
    then (if max == 0 then none else some (take (max - 1) s ++ (0 ∷ [])))
    else some (s ++ (0 ∷ []))

-- `strcpy`
unfoldable pub strcpy : List ℕ → List ℕ
strcpy src = c_string src ++ (0 ∷ [])

copied-take : (max : ℕ) (src : List ℕ) → copied max src ≡ take max (c_string src)
unfolding copied
copied-take zero src = refl
copied-take (suc max) [] = refl
copied-take (suc max) (c ∷ src) = elim (Bool-cases (c == 0)) [
  | inl e ↦ rw e refl
  | inr e ↦ rw e (ap (λ r. c ∷ r) (copied-take max src))
]

-- Bytes of a string before its terminator end at the next one.
terminated :
    (n : ℕ) (src : List ℕ) → c_string (take n (c_string src) ++ (0 ∷ [])) ≡ take n (c_string src)
terminated zero src = refl
terminated (suc n) [] = refl
terminated (suc n) (c ∷ src) = elim (Bool-cases (c == 0)) [
  | inl e ↦ rw e refl
  | inr e ↦ rw e (rw e (ap (λ r. c ∷ r) (terminated n src)))
]

take-take : {A : Type 0} (n : ℕ) (s : List A) → take n (take (suc n) s) ≡ take n s
take-take zero s = refl
take-take (suc n) [] = refl
take-take (suc n) (x ∷ s) = ap (λ r. x ∷ r) (take-take n s)

take-short :
    {A : Type 0} (n : ℕ) (s : List A) → length (take (suc n) s) ≢ suc n → take (suc n) s ≡ take n s
take-short zero [] h = refl
take-short zero (x ∷ s) h = absurd (h refl)
take-short (suc n) [] h = refl
take-short (suc n) (x ∷ s) h = ap (λ r. x ∷ r) (take-short n s (λ e. h (omega arith)))

-- With a `max` of 1 or more, `strncpy` writes at most `max` bytes, and they hold a string with its
-- terminator: the first `max` - 1 bytes of the source, or all of it.
pub strncpy-take :
    (src : List ℕ) (max : ℕ)
    → 0 < max
    → (d : List ℕ) × (strncpy src max ≡ some d)
      × (length d ≤ max)
      × (c_string d ≡ take (max - 1) (c_string src))
unfolding strncpy
strncpy-take src zero h = absurd (omega arith)
strncpy-take src (suc n) h =
    let s = c_string src in
    let less : suc n - 1 ≡ n = omega arith in
    rw (copied-take (suc n) src, less)
      (elim (Bool-cases (length (take (suc n) s) == suc n)) [
        | inl full ↦ (
          take n s ++ (0 ∷ []),
          rw (full, ne→==_false (suc n) 0 (λ e. absurd (omega arith)))
              (ap (λ t. some (t ++ (0 ∷ []))) (take-take n s)),
          omega (arith, length-append (take n s) (0 ∷ []), length-take_le n s),
          terminated n src,
        )
        | inr short ↦ (
          take n s ++ (0 ∷ []),
          rw short (
              ap (λ t. some (t ++ (0 ∷ [])))
                (take-short n s (λ e. true_ne_false (sym (eq→== _ _ e) ∙ short)))),
          omega (arith, length-append (take n s) (0 ∷ []), length-take_le n s),
          terminated n src,
        )
      ])
