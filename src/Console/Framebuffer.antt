-- ===== src/Console/Framebuffer.antt =====
-- kernel/modules/chardev/console-fb.c: the backend of the terminal that draws into a framebuffer.
pub mod Scroll
pub mod Draw
use trollos.Base.{
  ℕ, zero, suc, ◌+◌, ◌-◌, ◌*◌, ◌/◌, ◌%◌, ◌^◌, Bool, true, false, ◌||◌, Option, none, some, ltb, leb,
  ◌==◌, if◌then◌else◌, update, ret, fault, Cmd, pure, crash, ◌>>=◌, ◌>>◌, for_up, for_down, ◌&&◌,
}
use trollos.Base.Int.{ℤ, pos, negsuc}
use trollos.Console.Types.{ClearDirection, forward, backward, both, ConsoleBackend}

-- `_fbcon`. The framebuffer has a byte for each pixel.
pub record Framebuffer : Type 0 where
  pub fb_mem : ℕ → ℕ
  pub font : ℕ → ℕ
  pub w_pixels : ℕ
  pub h_pixels : ℕ
  pub w_chars : ℕ
  pub h_chars : ℕ
  pub w_font : ℕ
  pub h_font : ℕ
  pub cursor_x : ℕ
  pub cursor_y : ℕ
  pub cmap : ℕ → ℕ

-- The bytes of the framebuffer.
abbrev pub size : Framebuffer → ℕ
size f = f.w_pixels * f.h_pixels

-- fb_mem[i] = v
unfoldable pub set_byte : ℕ → ℕ → Cmd Framebuffer (Unit {0})
set_byte i v f =
    if ltb i (size f) then ret tt (record f { fb_mem = update f.fb_mem i v }) else fault

-- The four bytes of word `i` become `bytes`.
unfoldable pub write_word : (ℕ → ℕ) → ℕ → (ℕ → ℕ) → ℕ → ℕ
write_word mem i bytes j = if j / 4 == i then bytes (j % 4) else mem j

-- fb_mem[i] = fb_mem[k] on the words of the framebuffer.
unfoldable pub copy_word : ℕ → ℕ → Cmd Framebuffer (Unit {0})
copy_word i k f =
    if ltb (4 * i + 3) (size f) && ltb (4 * k + 3) (size f)
    then ret tt (record f { fb_mem = write_word f.fb_mem i (λ n. f.fb_mem (4 * k + n)) })
    else fault

unfoldable pub clear_word : ℕ → Cmd Framebuffer (Unit {0})
clear_word i f =
    if ltb (4 * i + 3) (size f)
    then ret tt (record f { fb_mem = write_word f.fb_mem i (λ n. 0) })
    else fault

-- `_clear_lines`
unfoldable pub clear_lines : ClearDirection → Cmd Framebuffer (Unit {0})
clear_lines dir f =
    let end = size f % 2 ^ 32 in
    let line = f.cursor_y * f.h_font * f.w_pixels % 2 ^ 32 in
    elim dir [
      | forward ↦ for_up (end - line) line (λ i. set_byte i 0) f
      | backward ↦ for_up line 0 (λ i. set_byte i 0) f
      | both ↦ for_up end 0 (λ i. set_byte i 0) f
    ]

-- `_clear_on_line` does nothing.
unfoldable pub clear_on_line : ClearDirection → Cmd Framebuffer (Unit {0})
clear_on_line dir f = ret tt f

-- The words of the framebuffer, and those of a number of lines.
abbrev pub words : Framebuffer → ℕ
words f = size f % 2 ^ 32 / 4

abbrev pub word_offset : ℕ → Framebuffer → ℕ
word_offset lines f = lines * f.h_font * f.w_pixels % 2 ^ 32 / 4

-- `_scroll_down`. The first loop counts down to `offset`, with an unsigned counter: it does not end
-- within the framebuffer where `offset` is 0 or there is no word.
unfoldable pub scroll_down : ℕ → Cmd Framebuffer (Unit {0})
scroll_down lines f =
    let offset = word_offset lines f in
    if offset == 0 || words f == 0
    then fault
    else (for_down (words f - offset) offset (λ i. copy_word i (i - offset))
          >> for_up offset 0 clear_word)
        f

-- `_scroll_up`. Where `offset` is larger than the framebuffer the second loop starts behind its end.
unfoldable pub scroll_up : ℕ → Cmd Framebuffer (Unit {0})
scroll_up lines f =
    let offset = word_offset lines f in
    if leb offset (words f)
    then (for_up (words f - offset) offset (λ i. copy_word (i - offset) i)
          >> for_up offset (words f - offset) clear_word)
        f
    else ret tt f

-- The pixels of a row of a character, with what is left of the row of the font. The place of a pixel
-- is a word of 32 bits.
unfoldable pub draw_row : ℕ → ℕ → ℕ → ℕ → ℕ → Cmd Framebuffer (Unit {0})
draw_row zero at bits fg bg = pure tt
draw_row (suc n) at bits fg bg = do
  λ f. set_byte (at % 2 ^ 32) (if bits % 2 == 1 then f.cmap fg else f.cmap bg) f
  draw_row n (at + 1) (bits / 2) fg bg

-- The loops of `_putc_raw`: row `i` of the character.
unfoldable pub draw_char : ℕ → ℕ → ℕ → ℕ → Cmd Framebuffer (Unit {0})
draw_char c fg bg i f =
    let col = f.cursor_x * f.w_font in
    let row = f.cursor_y * f.h_font in
    draw_row f.w_font ((row + i) * f.w_pixels + col) (f.font (c * f.h_font + i)) fg bg f

-- What follows the loops of `_putc_raw`.
unfoldable pub advance_cursor : Cmd Framebuffer (Unit {0})
advance_cursor f =
    let moved =
      (if leb f.w_chars (f.cursor_x + 1)
        then record f { cursor_x = 0; cursor_y = f.cursor_y + 1 }
        else record f { cursor_x = f.cursor_x + 1 }) in
    if leb f.h_chars moved.cursor_y
    then (scroll_up 1 >> (λ g. ret tt (record g { cursor_y = g.h_chars - 1 }))) moved
    else ret tt moved

-- `_putc_raw`; a character that is negative reads in front of the font, and a color from 16 on
-- behind `cmap`.
unfoldable pub putc_raw : ℤ → ℕ → ℕ → Cmd Framebuffer (Unit {0})
putc_raw (negsuc n) fg bg = crash
putc_raw (pos c) fg bg =
    if ltb fg 16 && ltb bg 16
    then (λ f. (for_up f.h_font 0 (draw_char c fg bg) >> advance_cursor) f)
    else crash

abbrev pub is_char_code : ℤ → ℕ → Bool
is_char_code (pos n) c = n == c
is_char_code (negsuc n) c = false

-- `_putc`
unfoldable pub putc : ℤ → ℕ → ℕ → Cmd Framebuffer (Unit {0})
putc c fg bg f =
    if is_char_code c b'\n'
    then (let g = record f { cursor_x = 0; cursor_y = f.cursor_y + 1 } in
        if g.cursor_y == g.h_chars
        then (scroll_up 1 >> (λ h. ret tt (record h { cursor_y = h.cursor_y - 1 }))) g
        else ret tt g)
    else if is_char_code c b'\r'
    then ret tt (record f { cursor_x = 0 })
    else putc_raw c fg bg f

-- `_set_cursor`
unfoldable pub set_cursor : ℕ → ℕ → Cmd Framebuffer (Unit {0})
set_cursor x y f =
    ret tt (record f { cursor_x = x % (f.w_chars + 1); cursor_y = y % (f.h_chars + 1) })

unfoldable pub get_cursor : Framebuffer → ℕ × ℕ
get_cursor f = (f.cursor_x, f.cursor_y)

-- `console_fb_init`
unfoldable pub console_fb_init :
    (ℕ → ℕ) → ℕ → ℕ → (ℕ → ℕ) → ℕ → ℕ → Option (ℕ → ℕ) → Framebuffer → Framebuffer
console_fb_init fb_mem w h font font_w font_h cmap f = record f {
  fb_mem = fb_mem;
  w_pixels = w;
  h_pixels = h;
  font = font;
  w_font = font_w;
  h_font = font_h;
  w_chars = w / font_w;
  h_chars = h / font_h;
  cmap = elim cmap [ none ↦ f.cmap | some m ↦ λ i. if ltb i 16 then m i else f.cmap i ];
}

-- `console_fb`
abbrev pub console_fb : ConsoleBackend Framebuffer
console_fb = record {
  putc = putc;
  set_cursor = set_cursor;
  get_cursor = get_cursor;
  clear_lines = clear_lines;
  clear_on_line = clear_on_line;
  scroll_up = scroll_up;
  scroll_down = scroll_down;
}
