-- ===== src/Console/Sequence.antt =====
-- Escape sequences of kernel/modules/chardev/console.c as they are written and as they are read.
use trollos.Base.{
  ℕ, suc, ◌+◌, ◌-◌, ◌*◌, ◌^◌, ◌≤◌, ◌<◌, ◌≡◌, refl, ap, ◌∙◌, true, false, List, [], ◌∷◌, ◌++◌, arith,
  length, update, ret, pure, fail, fault, diverge, Cmd, ◌>>◌, ne→==_false, and_then, ◌≢◌, lt→ltb,
}
use trollos.Base.Outcome.{Outcome}
use trollos.Base.Int.{ℤ, pos, negsuc}
use trollos.CString.Number.{isdigit}
use trollos.CString.RoundTrip.{decimal, Digits}
use trollos.Console.Types.{ascii, csi, csi_arg, ConsoleBackend, Console}
use trollos.Console.{
  push_arg, argument_char, write_char, write_chars, console_write, finish, csi_command, attributes,
  attribute, direction_of, delta_of, on_screen, both, switch,
}

-- The text of an argument is a digit and digits, and its value fits into an `int`.
abbrev pub Number : Type 0
Number = (c : ℕ) × (s : List ℕ) × (48 ≤ c) × (c ≤ 57) × Digits s × (decimal 0 (c ∷ s) < 2 ^ 31)

abbrev pub digits_of : Number → List ℕ
digits_of n = n.0 ∷ n.1

abbrev pub value_of : Number → ℕ
value_of n = decimal 0 (digits_of n)

-- Arguments with ';' between them, and the command behind them.
unfoldable pub arguments : Number → List Number → ℕ → List ℕ
arguments n [] cmd = digits_of n ++ (cmd ∷ [])
arguments n (m ∷ ns) cmd = digits_of n ++ (b';' ∷ arguments m ns cmd)

-- The table of arguments with the values from `i` on.
unfoldable pub stored_args : (ℕ → ℤ) → ℕ → List Number → ℕ → ℤ
stored_args arg i [] = arg
stored_args arg i (n ∷ ns) = stored_args (update arg i (pos (value_of n))) (i + 1) ns

-- A character that ends an argument and a sequence.
abbrev pub IsCommand : ℕ → Type 0
IsCommand cmd = (isdigit cmd ≡ false) × (cmd ≢ b';')

decimal-ge : (acc : ℕ) (ds : List ℕ) → acc ≤ decimal acc ds
unfolding decimal
decimal-ge acc [] = omega arith
decimal-ge acc (c ∷ ds) = omega (arith, decimal-ge (acc * 10 + (c - 48)) ds)

append_assoc : (s t u : List ℕ) → ((s ++ t) ++ u) ≡ (s ++ (t ++ u))
append_assoc [] t u = refl
append_assoc (c ∷ s) t u = ap (λ r. c ∷ r) (append_assoc s t u)

module _ {B : Type 0} (backend : ConsoleBackend B) where
  and_then_assoc :
      (o : Outcome (Console B) (Unit {0})) (f g h : Cmd (Console B) (Unit {0}))
      → ((d : Console B) → f d ≡ and_then (g d) (λ _. h))
      → and_then o (λ _. f) ≡ and_then (and_then o (λ _. g)) (λ _. h)
  and_then_assoc (ret u d) f g h e = e d
  and_then_assoc (fail n d) f g h e = refl
  and_then_assoc fault f g h e = refl
  and_then_assoc diverge f g h e = refl

  -- Text may be cut anywhere between two calls.
  write_chars-append :
      (s t : List ℕ) (c : Console B)
      → write_chars backend (s ++ t) c ≡ (write_chars backend s >> write_chars backend t) c
  unfolding write_chars
  write_chars-append [] t c = refl
  write_chars-append (x ∷ s) t c =
      and_then_assoc (write_char backend x c) (write_chars backend (s ++ t)) (write_chars backend s)
        (write_chars backend t) (λ d. write_chars-append s t d)

  digit_test : (c : ℕ) → 48 ≤ c → c ≤ 57 → isdigit c ≡ true
  unfolding isdigit
  digit_test c lo hi = ground arith

  -- A digit behind a digit.
  argument_char-digit :
      (c : ℕ) (s : Console B)
      → 48 ≤ c
      → c ≤ 57
      → s.a * 10 + (c - 48) < 2 ^ 31
      → argument_char backend c s ≡ ret tt (record s { a = s.a * 10 + (c - 48) })
  unfolding argument_char
  argument_char-digit c s lo hi small =
      rw
        (
          ne→==_false c b';' (λ e. absurd (omega arith)),
          digit_test c lo hi,
          lt→ltb (s.a * 10 + (c - 48)) (2 ^ 31) small,
        )
        refl

  -- From the first digit of an argument on.
  write-Digits :
      (ds rest : List ℕ) (s : Console B)
      → Digits ds
      → decimal s.a ds < 2 ^ 31
      → write_chars backend (ds ++ rest) (record s { state = csi_arg })
        ≡ write_chars backend rest (record s { state = csi_arg; a = decimal s.a ds })
  unfolding write_chars write_char decimal
  write-Digits [] rest s d small = refl
  write-Digits (c ∷ ds) rest s (lo, hi, d) small =
      let step : s.a * 10 + (c - 48) < 2 ^ 31 =
        omega (arith, small, decimal-ge (s.a * 10 + (c - 48)) ds) in
      rw (argument_char-digit c (record s { state = csi_arg }) lo hi step)
        (write-Digits ds rest (record s { a = s.a * 10 + (c - 48) }) d small)

  write_number :
      (n : Number) (rest : List ℕ) (s : Console B)
      → write_chars backend (digits_of n ++ rest) (record s { state = csi; a = 0 })
        ≡ write_chars backend rest (record s { state = csi_arg; a = value_of n })
  unfolding write_chars write_char decimal
  write_number (c, ds, lo, hi, d, small) rest s =
      let step : 0 * 10 + (c - 48) < 2 ^ 31 =
        omega (arith, small, decimal-ge (0 * 10 + (c - 48)) ds) in
      rw (ne→==_false c b';' (λ e. absurd (omega arith)), digit_test c lo hi)
        (rw (argument_char-digit c (record s { state = csi_arg; a = 0 }) lo hi step)
          (write-Digits ds rest (record s { state = csi_arg; a = 0 * 10 + (c - 48) }) d small))

  push_arg-room :
      (v : ℤ) (s : Console B)
      → s.argc < 10
      → push_arg backend v s
        ≡ ret tt (record s { arg = update s.arg s.argc v; argc = s.argc + 1; a = 0 })
  unfolding push_arg
  push_arg-room v s room = rw (lt→ltb s.argc 10 room)

  -- Arguments from argument number `argc` on, as long as there is room for them.
  write_arguments :
      (ns : List Number) (n : Number) (cmd : ℕ) (rest : List ℕ) (s : Console B)
      → IsCommand cmd
      → s.argc + length (n ∷ ns) ≤ 10
      → write_chars backend (arguments n ns cmd ++ rest) (record s { state = csi; a = 0 })
        ≡ (csi_command backend cmd (s.argc + length (n ∷ ns)) (stored_args s.arg s.argc (n ∷ ns))
              >> write_chars backend rest)
            (record s {
              state = ascii;
              a = 0;
              argc = s.argc + length (n ∷ ns);
              arg = stored_args s.arg s.argc (n ∷ ns);
            })
  unfolding arguments stored_args write_chars write_char argument_char finish
  write_arguments [] n cmd rest s (no_digit, no_semi) room =
      ap (λ t. write_chars backend t (record s { state = csi; a = 0 }))
        (append_assoc (digits_of n) (cmd ∷ []) rest)
      ∙ write_number n (cmd ∷ rest) s
      ∙ rw
          (
            ne→==_false cmd b';' no_semi,
            no_digit,
            push_arg-room (pos (value_of n)) (record s { state = csi_arg; a = value_of n })
                (omega arith),
          )
          refl
  write_arguments (m ∷ ns) n cmd rest s ok room =
      ap (λ t. write_chars backend t (record s { state = csi; a = 0 }))
        (append_assoc (digits_of n) (b';' ∷ arguments m ns cmd) rest)
      ∙ write_number n (b';' ∷ (arguments m ns cmd ++ rest)) s
      ∙ rw
          (push_arg-room (pos (value_of n)) (record s { state = csi_arg; a = value_of n })
            (omega arith))
          (write_arguments ns m cmd rest
              (record s { arg = update s.arg s.argc (pos (value_of n)); argc = s.argc + 1 }) ok
              (omega arith)
            ∙ (let e : s.argc + 1 + suc (length ns) ≡ s.argc + suc (suc (length ns)) =
                  omega arith in
                rw e refl))

  -- A sequence with at most 10 arguments in decimal, each below 2 ^ 31, read in the state of plain text, makes one call
  -- of `_csi` with the command, the number of arguments and their values, and leaves the state of
  -- plain text; what follows it is then read from there.
  pub write_chars-arguments :
      (n : Number) (ns : List Number) (cmd : ℕ) (rest : List ℕ) (s : Console B)
      → IsCommand cmd
      → length ns < 10
      → write_chars backend (27 ∷ b'[' ∷ (arguments n ns cmd ++ rest)) (record s { state = ascii })
        ≡ (csi_command backend cmd (length (n ∷ ns)) (stored_args s.arg 0 (n ∷ ns))
              >> write_chars backend rest)
            (record s {
              state = ascii;
              a = 0;
              argc = length (n ∷ ns);
              arg = stored_args s.arg 0 (n ∷ ns);
            })
  unfolding write_chars write_char
  write_chars-arguments n ns cmd rest s ok room =
      write_arguments ns n cmd rest (record s { argc = 0 }) ok (omega arith)
      ∙ (let e : 0 + suc (length ns) ≡ suc (length ns) = omega arith in rw e refl)

  -- An eleventh argument is stored behind the end of `arg`.
  pub write_char-overrun :
      (s : Console B)
      → s.state ≡ csi
      → s.argc ≡ 10
      → (write_char backend b';' s ≡ fault) × (write_char backend b'm' s ≡ fault)
  unfolding write_char push_arg finish isdigit
  write_char-overrun s h e =
      (rw (h, write_char, e, push_arg) refl, rw (h, write_char, e, push_arg) refl)

  written :
      (o : Outcome (Console B) (Unit {0})) (n : ℕ)
      → and_then (and_then o (λ _ d. ret tt d)) (λ _ d. ret n d) ≡ and_then o (λ _ d. ret n d)
  written (ret u d) n = refl
  written (fail e d) n = refl
  written fault n = refl
  written diverge n = refl

  -- "ESC [ m" changes neither the colors nor the weight, and "ESC [ J" clears the whole screen:
  -- the sequence without arguments is read as one with the argument -1.
  console_write-defaults :
      (s : Console B)
      → (console_write backend (27 ∷ b'[' ∷ b'm' ∷ []) (record s { state = ascii })
          ≡ ret 3 (record s { state = ascii; a = 0; argc = 1; arg = update s.arg 0 (negsuc 0) }))
        × (console_write backend (27 ∷ b'[' ∷ b'J' ∷ []) (record s { state = ascii })
            ≡ (on_screen (backend.clear_lines both) >> pure 3)
                (record s { state = ascii; a = 0; argc = 1; arg = update s.arg 0 (negsuc 0) }))
  unfolding console_write write_chars write_char push_arg finish csi_command switch attributes
      attribute direction_of isdigit update delta_of on_screen
  console_write-defaults s = (
    refl,
    written
        (on_screen (backend.clear_lines both)
          (record s { state = ascii; a = 0; argc = 1; arg = update s.arg 0 (negsuc 0) }))
        3,
  )
