-- ===== src/CString/RoundTrip.antt =====
-- `int_to_string` ends inside the buffer of `vprintf`, and `str_parse_int` reads its output back.
use trollos.Base.{
  ℕ, zero, suc, ◌+◌, ◌-◌, ◌*◌, ◌/◌, ◌%◌, ◌^◌, ◌≤◌, ◌<◌, ◌≡◌, ◌≢◌, ◌⊎◌, inl, inr, refl, ap, ◌∙◌,
  true, false, ◌&&◌, some, List, [], ◌∷◌, arith, length, get_or, leb, ◌==◌, Bool-cases, eq→==,
  ==→eq, ne→==_false,
}
use native.Mathlib.Nat.{pow-suc, pow-succ', pow-zero}
use trollos.CString.{strnlen}
use trollos.CString.Number.{
  isdigit, parse_decimal, str_parse_int, digit_char, digits_loop, int_to_string,
}

div_below : (num b p : ℕ) → 0 < b → num < b * p → num / b < p
div_below num b p pos h = grind arith

-- A number below `b ^ (k + 1)` has at most `k + 1` digits, and as many rounds are enough.
digits_loop-length :
    (k n num b : ℕ) (s : List ℕ)
    → 2 ≤ b
    → num < b ^ suc k
    → k < n
    → (ds : List ℕ) × (digits_loop n num b s ≡ some ds) × (length ds ≤ suc k + length s)
unfolding digits_loop
digits_loop-length k zero num b s hb hn l = absurd (omega arith)
digits_loop-length zero (suc n) num b s hb hn l =
    let one : b ^ 1 ≡ b * 1 = pow-suc b 0 ∙ (ap (λ x. x * b) (pow-zero b) ∙ omega arith) in
    let below : num < b * 1 = rw (← one) hn in
    let small : num / b ≡ 0 = omega (arith, div_below num b 1 (omega arith) below) in
    (digit_char (num % b) ∷ s, rw (eq→== _ _ small) refl, omega arith)
digits_loop-length (suc k) (suc n) num b s hb hn l =
    let below : num < b * b ^ suc k = rw (← pow-succ' b (suc k)) hn in
    let less = div_below num b (b ^ suc k) (omega arith) below in
    let (ds, e, len) =
      digits_loop-length k n (num / b) b (digit_char (num % b) ∷ s) hb less (omega arith) in
    elim (Bool-cases (num / b == 0)) [
      | inl done ↦ (digit_char (num % b) ∷ s, rw done refl, omega arith)
      | inr more ↦ (ds, rw (more, digits_loop) e, omega arith)
    ]

-- The value of decimal digits behind a value.
unfoldable pub decimal : ℕ → List ℕ → ℕ
decimal r [] = r
decimal r (c ∷ s) = decimal (r * 10 + (c - 48)) s

abbrev pub Digits : List ℕ → Type 0
Digits [] = Unit
Digits (c ∷ s) = (48 ≤ c) × (c ≤ 57) × Digits s

digit_char-digit : (i : ℕ) → i < 10 → digit_char i ≡ i + 48
unfolding digit_char
digit_char-digit i h = ground arith

pub digits_loop-decimal :
    (n num : ℕ) (s : List ℕ) {ds : List ℕ}
    → digits_loop n num 10 s ≡ some ds
    → decimal 0 ds ≡ decimal num s
unfolding digits_loop decimal
digits_loop-decimal zero num s h = cc
digits_loop-decimal (suc n) num s {ds} h = elim (Bool-cases (num / 10 == 0)) [
  | inl done ↦
      let e : (digit_char (num % 10) ∷ s) ≡ ds = ground arith in
      let small : num / 10 ≡ 0 = ==→eq _ _ done in
      rw (← e, digit_char-digit (num % 10) (omega arith)) (ap (λ r. decimal r s) (omega arith))
  | inr more ↦
      digits_loop-decimal n (num / 10) (digit_char (num % 10) ∷ s) {ds = ds} (ground arith)
      ∙ rw (digit_char-digit (num % 10) (omega arith)) (ap (λ r. decimal r s) (omega arith))
]

pub digits_loop-Digits :
    (n num : ℕ) (s : List ℕ) {ds : List ℕ} → digits_loop n num 10 s ≡ some ds → Digits s → Digits ds
unfolding digits_loop
digits_loop-Digits zero num s h d = cc
digits_loop-Digits (suc n) num s {ds} h d = elim (Bool-cases (num / 10 == 0)) [
  | inl done ↦
      let e : (digit_char (num % 10) ∷ s) ≡ ds = ground arith in
      rw (← e, digit_char-digit (num % 10) (omega arith)) (omega arith, omega arith, d)
  | inr more ↦
      digits_loop-Digits n (num / 10) (digit_char (num % 10) ∷ s) {ds = ds} (ground arith)
        (rw (digit_char-digit (num % 10) (omega arith)) (omega arith, omega arith, d))
]

-- The first digit of a number that is not 0 is not 0.
digits_loop-head :
    (n num : ℕ) (s : List ℕ) {ds : List ℕ}
    → digits_loop n num 10 s ≡ some ds
    → 0 < num
    → (get_or ds 0 0 == b'0') ≡ false
unfolding digits_loop
digits_loop-head zero num s h d = cc
digits_loop-head (suc n) num s {ds} h d = elim (Bool-cases (num / 10 == 0)) [
  | inl done ↦
      let e : (digit_char (num % 10) ∷ s) ≡ ds = ground arith in
      let small : num / 10 ≡ 0 = ==→eq _ _ done in
      rw (← e, digit_char-digit (num % 10) (omega arith)) (ne→==_false _ _ (omega arith))
  | inr more ↦
      digits_loop-head n (num / 10) (digit_char (num % 10) ∷ s) {ds = ds} (ground arith)
        (let ne : num / 10 ≢ 0 = ground arith in omega arith)
]

-- A number of 64 bits has at most 22 digits in base 8, 10 or 16, and `int_to_string` finds them
-- within its 64 rounds.
pub int_to_string-length :
    (num b : ℕ)
    → num < 2 ^ 64
    → (b ≡ 8) ⊎ ((b ≡ 10) ⊎ (b ≡ 16))
    → (ds : List ℕ) × (int_to_string num b ≡ some ds) × (length ds ≤ 22)
unfolding int_to_string
int_to_string-length num b h (inl e) =
    rw e (digits_loop-length 21 64 num 8 [] (omega arith) (omega arith) (omega arith))
int_to_string-length num b h (inr (inl e)) =
    let (ds, found, len) =
      digits_loop-length 19 64 num 10 [] (omega arith) (omega arith) (omega arith) in
    rw e (ds, found, omega arith)
int_to_string-length num b h (inr (inr e)) =
    let (ds, found, len) =
      digits_loop-length 15 64 num 16 [] (omega arith) (omega arith) (omega arith) in
    rw e (ds, found, omega arith)

decimal-le : (r : ℕ) (s : List ℕ) → r ≤ decimal r s
unfolding decimal
decimal-le r [] = omega arith
decimal-le r (c ∷ s) = omega (arith, decimal-le (r * 10 + (c - 48)) s)

parse_decimal-decimal :
    (s : List ℕ) (r : ℕ)
    → Digits s
    → decimal r s < 2 ^ 32
    → parse_decimal (length s) s r ≡ decimal r s
unfolding parse_decimal decimal isdigit
parse_decimal-decimal [] r d h = refl
parse_decimal-decimal (c ∷ s) r (lo, hi, d) h =
    let below = decimal-le (r * 10 + (c - 48)) s in
    let same : (r * 10 % 2 ^ 32 + (c - 48)) % 2 ^ 32 ≡ r * 10 + (c - 48) = omega arith in
    let digit : (leb 48 c && leb c 57) ≡ true = ground arith in
    rw (digit, same) (parse_decimal-decimal s (r * 10 + (c - 48)) d h)

strnlen-Digits : (s : List ℕ) (n : ℕ) → Digits s → length s ≤ n → strnlen s n ≡ length s
unfolding strnlen
strnlen-Digits [] zero d h = refl
strnlen-Digits [] (suc n) d h = refl
strnlen-Digits (c ∷ s) zero d h = absurd (omega arith)
strnlen-Digits (c ∷ s) (suc n) (lo, hi, d) h =
    rw (ne→==_false c 0 (λ e. absurd (omega arith)), strnlen-Digits s n d (omega arith)) refl

decimal-length : (ds : List ℕ) (num : ℕ) → decimal 0 ds ≡ num → 0 < num → 0 < length ds
unfolding decimal
decimal-length [] num e h = absurd (omega arith)
decimal-length (c ∷ ds) num e h = omega arith

-- `str_parse_int` reads back what `int_to_string` writes in base 10, for each number of 32 bits.
pub str_parse_int-int_to_string :
    (num : ℕ)
    → num < 2 ^ 32
    → (ds : List ℕ) × (int_to_string num 10 ≡ some ds) × (str_parse_int ds ≡ num)
unfolding int_to_string str_parse_int digits_loop digit_char strnlen
str_parse_int-int_to_string zero h = (b'0' ∷ [], refl, refl)
str_parse_int-int_to_string (suc n) h =
    let num = suc n in
    let (ds, found, len) =
      digits_loop-length 9 64 num 10 [] (omega arith) (omega arith) (omega arith) in
    let value : decimal 0 ds ≡ num =
      digits_loop-decimal 64 num [] {ds = ds} found ∙ unfold decimal in refl in
    let digits = digits_loop-Digits 64 num [] {ds = ds} found tt in
    let parsed : parse_decimal (length ds) ds 0 ≡ num =
      parse_decimal-decimal ds 0 digits (omega arith) ∙ value in
    (
      ds,
      found,
      rw
          (
            strnlen-Digits ds 32 digits (omega arith),
            ne→==_false (length ds) 0
                (λ e. absurd (omega (arith, decimal-length ds num value (omega arith)))),
            digits_loop-head 64 num [] {ds = ds} found (omega arith),
          )
          parsed,
    )
