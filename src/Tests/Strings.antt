-- ===== src/Tests/Strings.antt =====
-- The theorems on strings at concrete strings and numbers.
use trollos.CString.Copy.{strncpy, strncpy-take, strchr, copied}
use trollos.Base.{◌-◌, take, ℕ, ◌≡◌, ◌≤◌, ◌↔◌, inr, refl, true, some, List, [], ◌∷◌, arith, length}
use trollos.CString.Number.{int_to_string, str_parse_int}
use trollos.CString.{str_eq, c_string, strcmp, char_diff, char_value}
use trollos.CString.RoundTrip.{int_to_string-length, str_parse_int-int_to_string}
use trollos.CString.Compare.{str_eq_iff}
use trollos.CString.Token.{
  str_extract_arg, find_arg, arg_value, strtok_r, first_delim, skip_delims, skip_round,
}

str_eq_iff_example :
    (str_eq (b'a' ∷ 0 ∷ b'b' ∷ []) (b'a' ∷ []) ≡ true)
    ↔ (c_string (b'a' ∷ 0 ∷ b'b' ∷ []) ≡ c_string (b'a' ∷ []))
str_eq_iff_example =
    str_eq_iff (b'a' ∷ 0 ∷ b'b' ∷ []) (b'a' ∷ []) (omega arith, (omega arith, (omega arith, tt)))
      (omega arith, tt)

int_to_string-length_example : (ds : List ℕ) × (int_to_string 4096 16 ≡ some ds) × (length ds ≤ 22)
int_to_string-length_example = int_to_string-length 4096 16 (omega arith) (inr (inr refl))

str_parse_int-int_to_string_example :
    (ds : List ℕ) × (int_to_string 1337 10 ≡ some ds) × (str_parse_int ds ≡ 1337)
str_parse_int-int_to_string_example = str_parse_int-int_to_string 1337 (omega arith)

strncpy-take_example :
    (d : List ℕ) × (strncpy (b'a' ∷ b'b' ∷ b'c' ∷ []) 2 ≡ some d)
    × (length d ≤ 2)
    × (c_string d ≡ take (2 - 1) (c_string (b'a' ∷ b'b' ∷ b'c' ∷ [])))
strncpy-take_example = strncpy-take (b'a' ∷ b'b' ∷ b'c' ∷ []) 2 (omega arith)

-- The argument "b" of "a=1,,b=23".
extracted :
    str_extract_arg
      (b'a' ∷ b'=' ∷ b'1' ∷ b',' ∷ b',' ∷ b'b' ∷ b'=' ∷ b'2' ∷ b'3' ∷ [])
      (b'b' ∷ [])
      8
    ≡ some (some (b'2' ∷ b'3' ∷ 0 ∷ []))
unfolding str_extract_arg find_arg arg_value strtok_r first_delim skip_delims skip_round strchr
    strncpy copied strcmp char_diff char_value str_eq
extracted = refl
