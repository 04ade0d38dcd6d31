-- ===== src/Console/Types.antt =====
-- kernel/modules/chardev/console.h and the state of kernel/modules/chardev/console.c. `B` is the
-- state of the backend.
use trollos.Base.{ℕ, Bool, Cmd}
use trollos.Base.Int.{ℤ}

-- `enum ParseState`.
pub data ParseState : Type 0 where
  ascii esc csi csi_arg : ParseState

-- `enum ConsoleClearDirection`.
pub data ClearDirection : Type 0 where
  forward backward both : ClearDirection

-- `struct ConsoleBackend`. `get_cursor` hands back what it writes through its pointers.
pub record ConsoleBackend (B : Type 0) : Type 0 where
  pub putc : ℤ → ℕ → ℕ → Cmd B (Unit {0})
  pub set_cursor : ℕ → ℕ → Cmd B (Unit {0})
  pub get_cursor : B → ℕ × ℕ
  pub clear_lines : ClearDirection → Cmd B (Unit {0})
  pub clear_on_line : ClearDirection → Cmd B (Unit {0})
  pub scroll_up : ℕ → Cmd B (Unit {0})
  pub scroll_down : ℕ → Cmd B (Unit {0})

abbrev pub light_gray : ℕ
light_gray = 7

abbrev pub black : ℕ
black = 0

-- `_console`, and the state of its backend. `a` is read from digits and never negative.
pub record Console (B : Type 0) : Type 0 where
  pub state : ParseState
  pub arg : ℕ → ℤ
  pub argc : ℕ
  pub a : ℕ
  pub bold : Bool
  pub color_fg : ℕ
  pub color_bg : ℕ
  pub saved_x : ℕ
  pub saved_y : ℕ
  pub screen : B
