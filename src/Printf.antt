-- ===== src/Printf.antt =====
-- `vprintf` of kernel/util/printf.c. The output is the list of the bytes written to the kernel
-- console; an argument is a number or a string.
pub mod Output
use trollos.Base.{
  ℕ, zero, suc, ◌+◌, ◌-◌, ◌*◌, ◌/◌, ◌%◌, ◌^◌, Bool, true, false, not, ◌&&◌, ◌||◌, Option, none,
  some, List, [], ◌∷◌, ◌++◌, ltb, leb, ◌==◌, if◌then◌else◌, Cmd, ret, fault, diverge, pure, crash,
  ◌>>=◌, ◌>>◌, length, take, replicate,
}
use trollos.Base.Outcome.{Outcome}
use trollos.CString.{c_string}
use trollos.CString.Number.{isdigit, int_to_string}

-- The modifiers `length` of a conversion.
pub data LengthModifier : Type 0 where
  length_char length_short length_int length_long length_long_long length_intmax length_size
        length_ptrdiff :
      LengthModifier

-- What `va_arg` finds: a word of 32 bits, one of 64 bits, or a string.
pub data Argument : Type 0 where
  word : ℕ → Argument
  long_word : ℕ → Argument
  text : List ℕ → Argument

-- The variables of one conversion.
pub record Format : Type 0 where
  pub modifier : LengthModifier
  pub width : ℕ
  pub prefix : Bool
  pub pad : ℕ

-- The bytes written, the arguments that are left, and `num` and `signum`, which keep the value of
-- the conversion before where a modifier has no case.
pub record Printer : Type 0 where
  pub output : List ℕ
  pub arguments : List Argument
  pub num : ℕ
  pub signum : ℕ

abbrev pub initial_format : Format
initial_format = record { modifier = length_int; width = 0; prefix = false; pad = b' ' }

unfoldable pub kconsole_write : List ℕ → Cmd Printer (Unit {0})
kconsole_write s p = ret tt (record p { output = p.output ++ s })

-- va_arg, of an argument that is there and has the type; else a fault.
unfoldable pub arg_word : Cmd Printer ℕ
arg_word p = elim p.arguments [
  | [] ↦ fault
  | a ∷ rest ↦ elim a [
    | word n ↦ ret (n % 2 ^ 32) (record p { arguments = rest })
    | long_word n ↦ fault
    | text s ↦ fault
  ]
]

unfoldable pub arg_long : Cmd Printer ℕ
arg_long p = elim p.arguments [
  | [] ↦ fault
  | a ∷ rest ↦ elim a [
    | word n ↦ fault
    | long_word n ↦ ret (n % 2 ^ 64) (record p { arguments = rest })
    | text s ↦ fault
  ]
]

unfoldable pub arg_text : Cmd Printer (List ℕ)
arg_text p = elim p.arguments [
  | [] ↦ fault
  | a ∷ rest ↦ elim a [
    | word n ↦ fault
    | long_word n ↦ fault
    | text s ↦ ret s (record p { arguments = rest })
  ]
]

-- A word of `bits` bits as a signed number, in the 64 bits of `signum`.
unfoldable pub sign_extend : ℕ → ℕ → ℕ
sign_extend bits n = if ltb n (2 ^ (bits - 1)) then n else 2 ^ 64 - 2 ^ bits + n

-- The first switch on `length`.
unfoldable pub fetch_unsigned : LengthModifier → Cmd Printer (Unit {0})
fetch_unsigned length_char = do n ← arg_word; λ p. ret tt (record p { num = n % 2 ^ 8 })
fetch_unsigned length_short = do n ← arg_word; λ p. ret tt (record p { num = n % 2 ^ 16 })
fetch_unsigned length_int = do n ← arg_word; λ p. ret tt (record p { num = n })
fetch_unsigned length_long = do n ← arg_word; λ p. ret tt (record p { num = n })
fetch_unsigned length_long_long = do n ← arg_long; λ p. ret tt (record p { num = n })
fetch_unsigned length_intmax = pure tt
fetch_unsigned length_size = pure tt
fetch_unsigned length_ptrdiff = pure tt

-- The second switch on `length`.
unfoldable pub fetch_signed : LengthModifier → Cmd Printer (Unit {0})
fetch_signed length_char = do
  n ← arg_word
  λ p. ret tt (record p { signum = sign_extend 8 (n % 2 ^ 8) })
fetch_signed length_short = do
  n ← arg_word
  λ p. ret tt (record p { signum = sign_extend 16 (n % 2 ^ 16) })
fetch_signed length_int = do n ← arg_word; λ p. ret tt (record p { signum = sign_extend 32 n })
fetch_signed length_long = do n ← arg_word; λ p. ret tt (record p { signum = sign_extend 32 n })
fetch_signed length_long_long = do n ← arg_long; λ p. ret tt (record p { signum = n })
fetch_signed length_intmax = pure tt
fetch_signed length_size = pure tt
fetch_signed length_ptrdiff = pure tt

-- if (signum < 0) { write "-"; num = -signum; } else num = signum;
unfoldable pub take_sign : Cmd Printer (Unit {0})
take_sign p =
    if leb (2 ^ 63) p.signum
    then (kconsole_write (b'-' ∷ []) >> (λ q. ret tt (record q { num = 2 ^ 64 - q.signum }))) p
    else ret tt (record p { num = p.signum })

-- The digits of `num` and their padding: as many bytes are written as the width says, if it is given.
unfoldable pub padded : Format → List ℕ → List ℕ
padded f digits =
    if f.width == 0
    then digits
    else replicate (f.width - length digits) f.pad
      ++ (if ltb (length digits) f.width then digits else take f.width digits)

-- From `print_num` on.
unfoldable pub print_num : Format → ℕ → Cmd Printer (Unit {0})
print_num f base p = elim (int_to_string p.num base) [
  | none ↦ diverge
  | some digits ↦ kconsole_write (padded f digits) p
]

unfoldable pub print_unsigned : Format → ℕ → Cmd Printer (Unit {0})
print_unsigned f base = do fetch_unsigned f.modifier; print_num f base

unfoldable pub print_signed : Format → Cmd Printer (Unit {0})
print_signed f = do fetch_signed f.modifier; take_sign; print_num f 10

-- What a character behind a '%' does: it changes the conversion, ends it, or ends the call.
pub data Directive : Type 0 where
  modify : Format → Directive
  convert : Cmd Printer (Unit {0}) → Directive
  stop : Directive

abbrev pub write_prefix : Format → List ℕ → Cmd Printer (Unit {0})
write_prefix f s = if f.prefix then kconsole_write s else pure tt

abbrev pub is_short : LengthModifier → Bool
is_short length_short = true
is_short _ = false

abbrev pub is_long : LengthModifier → Bool
is_long length_long = true
is_long _ = false

abbrev pub with_digit : Format → ℕ → Directive
with_digit f c = modify (record f { width = f.width * 10 + (c - b'0') })

-- The switch on a character behind a '%'.
unfoldable pub directive : Format → ℕ → Directive
directive f c =
    if c == 0
    then stop
    else if c == b'%'
    then convert (kconsole_write (b'%' ∷ []))
    else if c == b'#'
    then modify (record f { prefix = true })
    else if c == b'0'
    then (if f.width == 0 then modify (record f { pad = b'0' }) else with_digit f c)
    else if isdigit c
    then with_digit f c
    else if c == b'h'
    then modify (record f { modifier = if is_short f.modifier then length_char else length_short })
    else if c == b'l'
    then modify
        (record f { modifier = if is_long f.modifier then length_long_long else length_long })
    else if c == b'j'
    then modify (record f { modifier = length_intmax })
    else if c == b'z'
    then modify (record f { modifier = length_size })
    else if c == b't'
    then modify (record f { modifier = length_ptrdiff })
    else if c == b'o'
    then convert (write_prefix f (b'0' ∷ []) >> print_unsigned f 8)
    else if c == b'p'
    then (let g = record f { modifier = length_long; prefix = true } in
        convert (write_prefix g (b'0' ∷ b'x' ∷ []) >> print_unsigned g 16))
    else if c == b'x' || c == b'X'
    then convert (write_prefix f (b'0' ∷ b'x' ∷ []) >> print_unsigned f 16)
    else if c == b'u'
    then convert (print_unsigned f 10)
    else if c == b'd' || c == b'i'
    then convert (print_signed f)
    else if c == b's'
    then convert (do s ← arg_text; kconsole_write (c_string s))
    else if c == b'c'
    then convert (do n ← arg_word; kconsole_write (n % 2 ^ 8 ∷ []))
    else modify f

-- The loops of `vprintf`, in the text (`none`) and in a conversion. The count is the number of rounds
-- of the outer loop, so far `i`.
unfoldable pub print_chars : List ℕ → Option Format → ℕ → Cmd Printer ℕ
print_chars [] mode i p = ret i p
print_chars (c ∷ s) none i p =
    if c == 0
    then ret i p
    else if c == b'%'
    then print_chars s (some initial_format) i p
    else (kconsole_write (c ∷ []) >> print_chars s none (i + 1)) p
print_chars (c ∷ s) (some f) i p = elim (directive f c) [
  | stop ↦ ret i p
  | modify g ↦ print_chars s (some g) i p
  | convert m ↦ (m >> print_chars s none (i + 1)) p
]

-- `vprintf`
unfoldable pub vprintf : List ℕ → List Argument → Outcome Printer ℕ
vprintf format va =
    print_chars format none 0 (record { output = []; arguments = va; num = 0; signum = 0 })
