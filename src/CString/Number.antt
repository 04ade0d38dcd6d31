-- ===== src/CString/Number.antt =====
-- `str_parse_int` of kernel/util/string.c and `int_to_string` of kernel/util/printf.c.
use Prim.Native.Nat.{bit_or}
use trollos.Base.{
  ℕ, zero, suc, ◌+◌, ◌-◌, ◌*◌, ◌/◌, ◌%◌, ◌^◌, Bool, not, ◌&&◌, ◌||◌, Option, none, some, List, [],
  ◌∷◌, get_or, drop, ltb, leb, ◌==◌, if◌then◌else◌,
}
use trollos.CString.{strnlen}

unfoldable pub isdigit : ℕ → Bool
isdigit c = leb b'0' c && leb c b'9'

-- The loop of base 10: `n` characters of the string, and the value so far.
unfoldable pub parse_decimal : ℕ → List ℕ → ℕ → ℕ
parse_decimal zero s value = value
parse_decimal (suc n) [] value = value
parse_decimal (suc n) (c ∷ s) value =
    let rest = parse_decimal n s ((value * 10 % 2 ^ 32 + (c - b'0')) % 2 ^ 32) in
    if isdigit c then rest else value

-- The value of a hexadecimal digit.
unfoldable pub hex_digit : ℕ → Option ℕ
hex_digit c =
    if isdigit c
    then some (c - b'0')
    else if leb b'a' c && leb c b'f'
    then some (c - b'a' + 10)
    else if leb b'A' c && leb c b'F'
    then some (c - b'A' + 10)
    else none

-- The loop of base 16, which returns 0 at a character that is no digit.
unfoldable pub parse_hex : ℕ → List ℕ → ℕ → ℕ
parse_hex zero s value = value
parse_hex (suc n) [] value = 0
parse_hex (suc n) (c ∷ s) value = elim (hex_digit c) [
  | none ↦ 0
  | some d ↦ parse_hex n s (bit_or (value * 16 % 2 ^ 32) d)
]

unfoldable pub str_parse_int : List ℕ → ℕ
str_parse_int str =
    let len = strnlen str 32 in
    if len == 0
    then 0
    else if not (get_or str 0 0 == b'0')
    then parse_decimal len str 0
    else if get_or str 1 0 == b'x' || get_or str 1 0 == b'X'
    then parse_hex (len - 2) (drop 2 str) 0
    else 0

-- i += (i > 9 ? 'A' - 10 : '0')
unfoldable pub digit_char : ℕ → ℕ
digit_char i = if ltb 9 i then i + 55 else i + 48

-- The loop of `int_to_string` with `n` rounds, on the number and the characters from `s` on.
unfoldable pub digits_loop : ℕ → ℕ → ℕ → List ℕ → Option (List ℕ)
digits_loop zero num base s = none
digits_loop (suc n) num base s =
    let rest = digits_loop n (num / base) base (digit_char (num % base) ∷ s) in
    if num / base == 0 then some (digit_char (num % base) ∷ s) else rest

-- `int_to_string`: the characters that it writes in front of the end of the buffer. A number of 64
-- bits has no more than 64 digits.
unfoldable pub int_to_string : ℕ → ℕ → Option (List ℕ)
int_to_string num base = digits_loop 64 num base []
