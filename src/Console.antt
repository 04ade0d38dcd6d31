-- ===== src/Console.antt =====
-- kernel/modules/chardev/console.c: the terminal, which reads text with escape sequences and drives
-- a backend.
pub mod Types
pub mod Sequence
pub mod Text
pub mod Framebuffer
use trollos.Base.{
  ℕ, zero, suc, ◌+◌, ◌-◌, ◌*◌, ◌%◌, ◌^◌, Bool, true, false, not, ◌&&◌, ◌||◌, List, [], ◌∷◌, ltb,
  leb, ◌==◌, if◌then◌else◌, update, ret, fail, fault, diverge, Cmd, pure, crash, ◌>>=◌, ◌>>◌,
  length,
}
use trollos.Base.Outcome.{Outcome}
use trollos.Base.Int.{ℤ, pos, negsuc, ltℤ, pos_part}
use trollos.CString.{char_value}
use trollos.CString.Number.{isdigit}
use trollos.Console.Types.{
  ParseState, ascii, esc, csi, csi_arg, ClearDirection, forward, backward, both, ConsoleBackend,
  Console, light_gray, black,
}

-- x + d and x - d on `unsigned int`.
abbrev pub add_word : ℕ → ℕ → ℕ
add_word x d = (x + d) % 2 ^ 32

abbrev pub sub_word : ℕ → ℕ → ℕ
sub_word x d = (x + (2 ^ 32 - d % 2 ^ 32)) % 2 ^ 32

abbrev pub is_int : ℤ → ℕ → Bool
is_int (pos n) k = n == k
is_int (negsuc n) k = false

-- delta = argc > 0 && arg[0] > 0 ? arg[0] : 1
unfoldable pub delta_of : ℕ → ℤ → ℕ
delta_of argc (pos n) = if ltb 0 argc && ltb 0 n then n else 1
delta_of argc (negsuc n) = 1

-- The argument of the erasing commands.
unfoldable pub direction_of : ℕ → ℤ → ClearDirection
direction_of argc v =
    if argc == 0 || is_int v 0 then forward else if is_int v 1 then backward else both

-- switch(c) with cases that end in `break`, and `d` where none fits.
unfoldable pub switch : {A : Type 0} → ℕ → List (ℕ × A) → A → A
switch c [] d = d
switch c ((label, action) ∷ cases) d =
    let rest = switch c cases d in if c == label then action else rest

module _ {B : Type 0} where
  abbrev pub reset_colors : Console B → Console B
  reset_colors s = record s { color_fg = light_gray; color_bg = black; bold = false }

  -- One argument of the command 'm'.
  unfoldable pub attribute : ℤ → Console B → Console B
  attribute (negsuc n) s = s
  attribute (pos n) s =
      if n == 0
      then reset_colors s
      else if n == 1
      then record s { bold = true }
      else if n == 22
      then record s { bold = false }
      else if ltb 30 n && ltb n 38
      then record s { color_fg = n - 30 }
      else if n == 39
      then record s { color_fg = light_gray }
      else if ltb 40 n && ltb n 48
      then record s { color_bg = n - 40 }
      else if n == 49
      then record s { color_bg = black }
      else s

  -- for (i = i; n > 0; i++, n--) of the command 'm'.
  unfoldable pub attributes : (ℕ → ℤ) → ℕ → ℕ → Console B → Console B
  attributes arg zero i s = s
  attributes arg (suc n) i s = attributes arg n (i + 1) (attribute (arg i) s)

  -- A call of the backend.
  unfoldable pub on_screen : Cmd B (Unit {0}) → Cmd (Console B) (Unit {0})
  on_screen f s = elim (f s.screen) [
    | ret u b ↦ ret tt (record s { screen = b })
    | fail e b ↦ fail e (record s { screen = b })
    | fault ↦ fault
    | diverge ↦ diverge
  ]

  module _ (backend : ConsoleBackend B) where
    abbrev pub move_to : ℕ → ℕ → Cmd (Console B) (Unit {0})
    move_to x y = on_screen (backend.set_cursor x y)

    -- The commands 'f' and 'H'.
    unfoldable pub move_absolute : ℕ → ℕ → (ℕ → ℤ) → ℕ → Cmd (Console B) (Unit {0})
    move_absolute x argc arg delta =
        let second =
          (if argc == 1
            then move_to x (delta - 1)
            else move_to (pos_part (arg 1) - 1) (delta - 1)) in
        if argc == 0 then (move_to 1 1 >> second) else second

    -- The cases of `_csi`, at the cursor `x`, `y`.
    abbrev pub csi_cases : ℕ → (ℕ → ℤ) → ℕ → ℕ → List (ℕ × Cmd (Console B) (Unit {0}))
    csi_cases argc arg x y =
        let delta = delta_of argc (arg 0) in
        (b'A', if y == 0 then pure tt else move_to x (sub_word y delta))
        ∷ (b'B', move_to x (add_word y delta))
        ∷ (b'C', move_to (add_word x delta) y)
        ∷ (b'D', if x == 0 then pure tt else move_to (sub_word x delta) y)
        ∷ (b'E', move_to 0 (add_word y delta))
        ∷ (b'F', move_to 0 (sub_word (if y == 0 then 1 else y) delta))
        ∷ (b'G', move_to (delta - 1) y)
        ∷ (b'f', move_absolute x argc arg delta)
        ∷ (b'H', move_absolute x argc arg delta)
        ∷ (b'J', on_screen (backend.clear_lines (direction_of argc (arg 0))))
        ∷ (b'K', on_screen (backend.clear_on_line (direction_of argc (arg 0))))
        ∷ (b'S', on_screen (backend.scroll_up delta))
        ∷ (b'T', on_screen (backend.scroll_down delta))
        ∷ (b's', λ t. ret tt (record t { saved_x = x; saved_y = y }))
        ∷ (b'u', λ t. move_to t.saved_x t.saved_y t)
        ∷ (b'm', λ t. ret tt (if argc == 0 then reset_colors t else attributes arg argc 0 t))
        ∷ []

    -- `_csi`
    unfoldable pub csi_command : ℕ → ℕ → (ℕ → ℤ) → Cmd (Console B) (Unit {0})
    csi_command cmd argc arg s =
        let (x, y) = backend.get_cursor s.screen in switch cmd (csi_cases argc arg x y) (pure tt) s

    -- arg[argc] = v; if (argc < 10) argc++; a = 0;
    unfoldable pub push_arg : ℤ → Cmd (Console B) (Unit {0})
    push_arg v s =
        if ltb s.argc 10
        then ret tt (record s { arg = update s.arg s.argc v; argc = s.argc + 1; a = 0 })
        else fault

    abbrev pub goto_state : ParseState → Cmd (Console B) (Unit {0})
    goto_state p s = ret tt (record s { state = p })

    -- The last argument and the command.
    unfoldable pub finish : ℤ → ℕ → Cmd (Console B) (Unit {0})
    finish v c = do push_arg v; goto_state ascii; λ s. csi_command c s.argc s.arg s

    -- The case PARSE_STATE_CSI_ARG. An `int` that overflows is a fault.
    unfoldable pub argument_char : ℕ → Cmd (Console B) (Unit {0})
    argument_char c s =
        if c == b';'
        then (push_arg (pos s.a) >> goto_state csi) s
        else if not (isdigit c)
        then finish (pos s.a) c s
        else (let v = s.a * 10 + (c - b'0') in
            if ltb v (2 ^ 31) then ret tt (record s { a = v }) else fault)

    -- The body of the loop of `_write`.
    unfoldable pub write_char : ℕ → Cmd (Console B) (Unit {0})
    write_char c s = elim s.state [
      | ascii ↦
          if c == 27
          then goto_state esc s
          else on_screen
              (backend.putc (char_value c) (s.color_fg + (if s.bold then 8 else 0)) s.color_bg) s
      | esc ↦
          if c == b'['
          then ret tt (record s { state = csi; argc = 0; a = 0 })
          else goto_state ascii s
      | csi ↦
          if c == b';'
          then push_arg (negsuc 0) s
          else if not (isdigit c)
          then finish (negsuc 0) c s
          else (goto_state csi_arg >> argument_char c) s
      | csi_arg ↦ argument_char c s
    ]

    unfoldable pub write_chars : List ℕ → Cmd (Console B) (Unit {0})
    write_chars [] = pure tt
    write_chars (c ∷ s) = do write_char c; write_chars s

    -- `_write`
    unfoldable pub console_write : List ℕ → Cmd (Console B) ℕ
    console_write buf = do write_chars buf; pure (length buf)
