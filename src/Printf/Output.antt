-- ===== src/Printf/Output.antt =====
-- What `vprintf` of kernel/util/printf.c writes for its commonest conversions.
use trollos.Base.{
  ℕ, suc, ◌+◌, ◌%◌, ◌^◌, ◌<◌, ◌≡◌, ◌≢◌, refl, sym, ap, ◌∙◌, List, [], ◌∷◌, ◌++◌, arith, length,
  some, ret, ne→==_false, none,
}
use trollos.CString.Number.{int_to_string, str_parse_int, isdigit}
use trollos.CString.RoundTrip.{str_parse_int-int_to_string}
use trollos.Printf.{
  Printer, word, kconsole_write, print_chars, vprintf, padded, print_num, directive, print_unsigned,
  fetch_unsigned, arg_word, initial_format,
}

-- Text without a conversion.
abbrev pub Plain : List ℕ → Type 0
Plain [] = Unit
Plain (c ∷ s) = (c ≢ 0) × (c ≢ b'%') × Plain s

append_assoc : (s t u : List ℕ) → ((s ++ t) ++ u) ≡ (s ++ (t ++ u))
append_assoc [] t u = refl
append_assoc (c ∷ s) t u = ap (λ r. c ∷ r) (append_assoc s t u)

append_nil : (s : List ℕ) → (s ++ []) ≡ s
append_nil [] = refl
append_nil (c ∷ s) = ap (λ r. c ∷ r) (append_nil s)

-- Text without a conversion is written as it stands, and then what follows it.
pub print_chars-append :
    (s rest : List ℕ) (i : ℕ) (p : Printer)
    → Plain s
    → print_chars (s ++ rest) none i p
      ≡ print_chars rest none (i + length s) (record p { output = p.output ++ s })
unfolding print_chars kconsole_write
print_chars-append [] rest i p plain =
    let same : i + 0 ≡ i = omega arith in rw (same, append_nil p.output) refl
print_chars-append (c ∷ s) rest i p (no_end, no_percent, plain) =
    let count : i + 1 + length s ≡ i + suc (length s) = omega arith in
    rw (ne→==_false c 0 no_end, ne→==_false c b'%' no_percent)
      (print_chars-append s rest (i + 1) (record p { output = p.output ++ (c ∷ []) }) plain
        ∙ rw (count, append_assoc p.output (c ∷ []) s) refl)

print-Plain :
    (s : List ℕ) (i : ℕ) (p : Printer)
    → Plain s
    → print_chars s none i p ≡ ret (i + length s) (record p { output = p.output ++ s })
unfolding print_chars
print-Plain s i p plain =
    ap (λ r. print_chars r none i p) (sym (append_nil s)) ∙ print_chars-append s [] i p plain

print_unsigned-word :
    (out : List ℕ) (n : ℕ) {ds : List ℕ}
    → n < 2 ^ 32
    → int_to_string n 10 ≡ some ds
    → print_unsigned initial_format 10
        (record { output = out; arguments = word n ∷ []; num = 0; signum = 0 })
      ≡ ret tt (record { output = out ++ ds; arguments = []; num = n; signum = 0 })
unfolding print_unsigned fetch_unsigned arg_word print_num padded kconsole_write
print_unsigned-word out n h e =
    let same : n % 2 ^ 32 ≡ n = omega arith in rw same (rw (e, print_num) refl)

-- `vprintf` of plain text around a "%u" writes the text with the digits of the number, from which
-- `str_parse_int` reads the number back, and returns the number of characters of the text and 1.
pub vprintf-unsigned :
    (before after : List ℕ) (n : ℕ)
    → Plain before
    → Plain after
    → n < 2 ^ 32
    → (ds : List ℕ) × (str_parse_int ds ≡ n)
      × (vprintf (before ++ (b'%' ∷ b'u' ∷ after)) (word n ∷ [])
          ≡ ret
              (length before + 1 + length after)
              (record { output = (before ++ ds) ++ after; arguments = []; num = n; signum = 0 }))
unfolding vprintf print_chars directive isdigit
vprintf-unsigned before after n pb pa h =
    let (ds, e, back) = str_parse_int-int_to_string n h in
    let start : Printer = record { output = []; arguments = word n ∷ []; num = 0; signum = 0 } in
    let shown : Printer = record { output = before ++ ds; arguments = []; num = n; signum = 0 } in
    (
      ds,
      back,
      print_chars-append before (b'%' ∷ b'u' ∷ after) 0 start pb
          ∙ rw (print_unsigned-word before n h e) (
              print-Plain after (0 + length before + 1) shown pa
              ∙ (let z : 0 + length before ≡ length before = omega arith in rw z refl)),
    )
