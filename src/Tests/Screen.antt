-- ===== src/Tests/Screen.antt =====
-- The theorems on the terminal at a backend that counts its calls, and at a small framebuffer.
use trollos.Base.{
  true, ◌<◌, ◌^◌, ℕ, ◌+◌, ◌≡◌, refl, false, [], ◌∷◌, ◌++◌, arith, ret, fault, Ends, ◌>>◌,
}
use trollos.Base.Int.{pos}
use trollos.Console.Types.{ConsoleBackend, Console, ascii}
use trollos.Console.{write_chars, console_write, csi_command}
use trollos.Console.Sequence.{Number, arguments, stored_args, IsCommand, write_chars-arguments}
use trollos.Console.Text.{Ready, Written, console_write-Ready}
use trollos.Console.Framebuffer.{Framebuffer, console_fb, scroll_up, putc, set_cursor}
use trollos.Console.Framebuffer.Scroll.{Scrolled, scroll_up-Scrolled}
use trollos.Console.Framebuffer.Draw.{
  Fits, OnScreen, SamePlace, putc-set_cursor_fault, putc-OnScreen,
}
use trollos.CString.Number.{isdigit}
use trollos.CString.RoundTrip.{decimal}

abbrev counting : ConsoleBackend ℕ
counting = record {
  putc = λ c fg bg b. ret tt (b + 1);
  set_cursor = λ x y b. ret tt (b + 1);
  get_cursor = λ b. (3, 4);
  clear_lines = λ d b. ret tt (b + 1);
  clear_on_line = λ d b. ret tt (b + 1);
  scroll_up = λ n b. ret tt (b + 1);
  scroll_down = λ n b. ret tt (b + 1);
}

abbrev fresh : Console ℕ
fresh = record {
  state = ascii;
  arg = λ i. pos 0;
  argc = 0;
  a = 0;
  bold = false;
  color_fg = 7;
  color_bg = 0;
  saved_x = 0;
  saved_y = 0;
  screen = 0;
}

twelve_small : decimal 0 (b'1' ∷ b'2' ∷ []) < 2 ^ 31
unfolding decimal
twelve_small = omega arith

five_small : decimal 0 (b'5' ∷ []) < 2 ^ 31
unfolding decimal
five_small = omega arith

abbrev twelve : Number
twelve = (b'1', b'2' ∷ [], omega arith, omega arith, (omega arith, omega arith, tt), twelve_small)

abbrev five : Number
five = (b'5', [], omega arith, omega arith, tt, five_small)

move-IsCommand : IsCommand b'H'
unfolding isdigit
move-IsCommand = (refl, λ e. absurd (omega arith))

write_chars-arguments_example :
    write_chars counting (27 ∷ b'[' ∷ (arguments twelve (five ∷ []) b'H' ++ (b'a' ∷ []))) fresh
    ≡ (csi_command counting b'H' 2 (stored_args fresh.arg 0 (twelve ∷ five ∷ []))
          >> write_chars counting (b'a' ∷ []))
        (record fresh { a = 0; argc = 2; arg = stored_args fresh.arg 0 (twelve ∷ five ∷ []) })
write_chars-arguments_example =
    write_chars-arguments counting twelve (five ∷ []) b'H' (b'a' ∷ []) fresh move-IsCommand
      (omega arith)

-- A screen of 2 by 2 characters.
abbrev small_screen : Framebuffer
small_screen = record {
  fb_mem = λ i. i;
  font = λ i. i;
  w_pixels = 16;
  h_pixels = 32;
  w_chars = 2;
  h_chars = 2;
  w_font = 8;
  h_font = 16;
  cursor_x = 1;
  cursor_y = 1;
  cmap = λ i. i;
}

small_screen-Fits : Fits small_screen
small_screen-Fits = record {
  small = omega arith;
  across = omega arith;
  down = omega arith;
  some_column = omega arith;
  some_row = omega arith;
}

-- The terminal on the small screen.
abbrev terminal : Console Framebuffer
terminal = record {
  state = ascii;
  arg = λ i. pos 0;
  argc = 0;
  a = 0;
  bold = true;
  color_fg = 7;
  color_bg = 0;
  saved_x = 0;
  saved_y = 0;
  screen = small_screen;
}

terminal-Ready : Ready terminal
terminal-Ready = record {
  reads_text = refl;
  fg_low = omega arith;
  bg_low = omega arith;
  fits = small_screen-Fits;
  on = (omega arith, omega arith);
}

console_write-Ready_example :
    Ends
      (λ n t. (n ≡ 3) × Written terminal t × Ready t)
      (λ _ _. ⊥)
      (console_write console_fb (b'a' ∷ 10 ∷ b'b' ∷ []) terminal)
console_write-Ready_example =
    console_write-Ready (b'a' ∷ 10 ∷ b'b' ∷ []) terminal
      (
        omega arith,
        (λ e. absurd (omega arith)),
        (omega arith, (λ e. absurd (omega arith)), (omega arith, (λ e. absurd (omega arith)), tt)),
      )
      terminal-Ready

scroll_up-Scrolled_example :
    Ends
      (λ _ g.
        (m : ℕ → ℕ) × (g ≡ record small_screen { fb_mem = m })
        × Scrolled small_screen (omega arith) 64 m)
      (λ _ _. ⊥)
      (scroll_up 1 small_screen)
scroll_up-Scrolled_example = scroll_up-Scrolled small_screen (omega arith) 1 (omega arith)

putc-OnScreen_example :
    Ends
      (λ _ g. SamePlace small_screen g × OnScreen g)
      (λ _ _. ⊥)
      (putc (pos b'a') 15 0 small_screen)
putc-OnScreen_example =
    putc-OnScreen small_screen small_screen-Fits b'a' 15 0 (omega arith) (omega arith)
      (omega arith, omega arith)

putc-set_cursor_fault_example : (set_cursor 0 2 >> putc (pos b'a') 7 0) small_screen ≡ fault
putc-set_cursor_fault_example =
    putc-set_cursor_fault small_screen b'a' 7 0 (λ e. absurd (omega arith))
      (λ e. absurd (omega arith)) refl (omega arith) (omega arith) (omega arith)
