-- ===== src/Console/Framebuffer/Draw.antt =====
-- The drawing of kernel/modules/chardev/console-fb.c stays inside the framebuffer while the cursor
-- is on the screen.
use trollos.Base.{
  choose, ◌&&◌, ◌≢◌, ℕ, zero, suc, ◌+◌, ◌-◌, ◌*◌, ◌/◌, ◌%◌, ◌^◌, ◌≤◌, ◌<◌, ◌≡◌, refl, ap, ◌∙◌,
  arith, ltb, leb, ◌==◌, if◌then◌else◌, ret, fault, Cmd, ◌>>◌, for_up, for_up-Ends, Ends, returns,
  lt→ltb, lt→leb_false, Bool-cases, inl, inr, ne→==_false, le→ltb_false,
}
use native.Mathlib.Nat.{mod-eq_of_lt}
use trollos.Base.Outcome
use trollos.Console.Framebuffer.{
  Framebuffer, size, set_byte, words, word_offset, scroll_up, draw_row, draw_char, putc_raw, putc,
  advance_cursor, pos, set_cursor,
}
use trollos.Console.Framebuffer.Scroll.{scroll_up-Scrolled}

mod_small : (n : ℕ) → n % (n + 1) ≡ n
mod_small n = mod-eq_of_lt (omega arith)

-- The end of cell `x` of `n` places, of the `w` that fit into `p`.
cell : (x w n p : ℕ) → x < w → w * n ≤ p → x * n + n ≤ p
cell x w n p a b = grind arith

-- The characters fit into the framebuffer, a line of them is less than the framebuffer, and there
-- is a character at least.
pub record Fits (f : Framebuffer) : Type 0 where
  pub small : size f < 2 ^ 32
  pub across : f.w_chars * f.w_font ≤ f.w_pixels
  pub down : f.h_chars * f.h_font ≤ f.h_pixels
  pub some_column : 0 < f.w_chars
  pub some_row : 0 < f.h_chars

-- The cursor is on a character of the screen.
abbrev pub OnScreen : Framebuffer → Type 0
OnScreen f = (f.cursor_x < f.w_chars) × (f.cursor_y < f.h_chars)

-- At most the pixels and the cursor have changed.
abbrev pub SamePlace : Framebuffer → Framebuffer → Type 0
SamePlace f g = (m : ℕ → ℕ) × (x y : ℕ) × (g ≡ record f { fb_mem = m; cursor_x = x; cursor_y = y })

module _ (f : Framebuffer) (fits : Fits f) where
  abbrev Drawn : Framebuffer → Type 0
  Drawn g = (m : ℕ → ℕ) × (g ≡ record f { fb_mem = m })

  draw_row-Drawn :
      (n at bits fg bg : ℕ) (m : ℕ → ℕ)
      → at + n ≤ size f
      → Ends (λ _ g. Drawn g) (λ _ _. ⊥) (draw_row n at bits fg bg (record f { fb_mem = m }))
  unfolding draw_row set_byte
  draw_row-Drawn zero at bits fg bg m room = returns (m, refl)
  draw_row-Drawn (suc n) at bits fg bg m room =
      let place : at % 2 ^ 32 ≡ at = omega (arith, room, fits.small) in
      rw (place, lt→ltb at (size f) (omega arith))
        (draw_row-Drawn n (at + 1) (bits / 2) fg bg _ (omega arith))

  -- The last pixel of row `i` of the character at the cursor.
  pixel_room :
      (i : ℕ)
      → f.cursor_x < f.w_chars
      → f.cursor_y < f.h_chars
      → i < f.h_font
      → (f.cursor_y * f.h_font + i) * f.w_pixels + f.cursor_x * f.w_font + f.w_font ≤ size f
  pixel_room i a b c =
      let across : f.cursor_x * f.w_font + f.w_font ≤ f.w_pixels =
        cell f.cursor_x f.w_chars f.w_font f.w_pixels a fits.across in
      let down : f.cursor_y * f.h_font + i + 1 ≤ f.h_pixels =
        omega (arith, cell f.cursor_y f.h_chars f.h_font f.h_pixels b fits.down) in
      let lines : f.h_pixels * f.w_pixels ≤ size f = omega arith in
      let area =
        cell (f.cursor_y * f.h_font + i) f.h_pixels f.w_pixels (size f) (omega arith) lines in
      omega arith

  draw_loop :
      (c fg bg : ℕ)
      → OnScreen f
      → Ends (λ _ g. Drawn g) (λ _ _. ⊥) (for_up f.h_font 0 (draw_char c fg bg) f)
  unfolding draw_char
  draw_loop c fg bg on =
      for_up-Ends (λ _ g. Drawn g) (draw_char c fg bg) f.h_font 0 f
        (λ k g a b (m, e).
          rw e (draw_row-Drawn f.w_font _ _ fg bg m (pixel_room k on.0 on.1 (omega arith))))
        (f.fb_mem, refl)

  line_room : word_offset 1 f ≤ words f
  line_room =
      let line = cell 0 f.h_chars f.h_font f.h_pixels fits.some_row fits.down in
      let area : f.h_font * f.w_pixels ≤ f.h_pixels * f.w_pixels = grind arith in
      let whole : size f % 2 ^ 32 ≡ size f = omega (arith, fits.small) in
      let part : 1 * f.h_font * f.w_pixels ≡ f.h_font * f.w_pixels =
        ap (λ n. n * f.w_pixels) (omega arith) in
      let part_small : f.h_font * f.w_pixels % 2 ^ 32 ≡ f.h_font * f.w_pixels =
        omega (arith, fits.small) in
      rw (whole, part, part_small) (omega arith)

  -- Scrolling by a line, with the cursor anywhere.
  scrolled :
      (m : ℕ → ℕ) (x y : ℕ)
      → Ends
          (λ _ g. (n : ℕ → ℕ) × (g ≡ record f { fb_mem = n; cursor_x = x; cursor_y = y }))
          (λ _ _. ⊥)
          (scroll_up 1 (record f { fb_mem = m; cursor_x = x; cursor_y = y }))
  scrolled m x y =
      Outcome.mono
        (scroll_up-Scrolled (record f { fb_mem = m; cursor_x = x; cursor_y = y }) fits.small 1
          line_room)
        (λ _ g (n, e, _). (n, e)) (λ _ _ no_way. no_way)

  abbrev Kept : Framebuffer → Type 0
  Kept g = SamePlace f g × OnScreen g

  advance_cursor-Kept :
      (m : ℕ → ℕ)
      → OnScreen f
      → Ends (λ _ g. Kept g) (λ _ _. ⊥) (advance_cursor (record f { fb_mem = m }))
  unfolding advance_cursor
  advance_cursor-Kept m on = elim (Bool-cases (leb f.w_chars (f.cursor_x + 1))) [
    | inr e ↦
        rw (e, lt→leb_false f.h_chars f.cursor_y on.1)
          (returns ((m, f.cursor_x + 1, f.cursor_y, refl), (ground arith, on.1)))
    | inl e ↦ rw e (elim (Bool-cases (leb f.h_chars (f.cursor_y + 1))) [
      | inr e' ↦ rw e' (returns ((m, 0, f.cursor_y + 1, refl), (fits.some_column, ground arith)))
      | inl e' ↦ rw e' (
          Outcome.bind (scrolled m 0 (f.cursor_y + 1))
            (λ _ g (n, same). rw same (
              returns
                ((n, 0, f.h_chars - 1, refl), (fits.some_column, omega (arith, fits.some_row)))))
            (λ _ _ no_way. no_way))
    ])
  ]

  abbrev next_line : Framebuffer
  next_line = record f { cursor_x = 0; cursor_y = f.cursor_y + 1 }

  new_line :
      OnScreen f
      → Ends
          (λ _ g. Kept g)
          (λ _ _. ⊥)
          (if f.cursor_y + 1 == f.h_chars
            then (scroll_up 1 >> (λ h. ret tt (record h { cursor_y = h.cursor_y - 1 }))) next_line
            else ret tt next_line)
  new_line on = elim (Bool-cases (f.cursor_y + 1 == f.h_chars)) [
    | inr e ↦ rw e (returns ((f.fb_mem, 0, f.cursor_y + 1, refl), (fits.some_column, ground arith)))
    | inl e ↦ rw e (
        Outcome.bind (scrolled f.fb_mem 0 (f.cursor_y + 1))
          (λ _ g (n, same).
            rw same
              (returns ((n, 0, f.cursor_y + 1 - 1, refl), (fits.some_column, omega (arith, on.1)))))
          (λ _ _ no_way. no_way))
  ]

  -- With the cursor on the screen, `_putc` of a character from 0 on and of colors below 16 ends: it
  -- writes no byte outside the framebuffer, reads none in front of the font, and leaves the cursor
  -- on the screen.
  pub putc-OnScreen :
      (c fg bg : ℕ)
      → fg < 16
      → bg < 16
      → OnScreen f
      → Ends (λ _ g. SamePlace f g × OnScreen g) (λ _ _. ⊥) (putc (pos c) fg bg f)
  unfolding putc putc_raw
  putc-OnScreen c fg bg a b on =
      choose (Ends (λ _ g. SamePlace f g × OnScreen g) (λ _ _. ⊥)) (c == b'\n') (λ _. new_line on)
        (choose (Ends (λ _ g. SamePlace f g × OnScreen g) (λ _ _. ⊥)) (c == b'\r')
          (λ _. returns ((f.fb_mem, 0, f.cursor_y, refl), (fits.some_column, on.1)))
          (rw (lt→ltb fg 16 a, lt→ltb bg 16 b)
            (Outcome.bind (draw_loop c fg bg on) (λ _ g (m, e). rw e (advance_cursor-Kept m on))
              (λ _ _ no_way. no_way))))

draw_row-fault :
    (n at bits fg bg : ℕ) (f : Framebuffer)
    → 0 < n
    → size f ≤ at % 2 ^ 32
    → draw_row n at bits fg bg f ≡ fault
unfolding draw_row set_byte
draw_row-fault zero at bits fg bg f some behind = absurd (omega arith)
draw_row-fault (suc n) at bits fg bg f some behind = rw (le→ltb_false (at % 2 ^ 32) (size f) behind)

for_up-fault :
    (n i : ℕ) (body : ℕ → Cmd Framebuffer (Unit {0})) (f : Framebuffer)
    → 0 < n
    → body i f ≡ fault
    → for_up n i body f ≡ fault
unfolding for_up
for_up-fault zero i body f some e = absurd (omega arith)
for_up-fault (suc n) i body f some e = rw e

-- `_set_cursor` takes the row behind the last one. Where the characters fill the height of a
-- framebuffer of less than 2 ^ 32 bytes, drawing one there that is no line end writes outside it.
pub putc-set_cursor_fault :
    (f : Framebuffer) (c fg bg : ℕ)
    → c ≢ b'\n'
    → c ≢ b'\r'
    → f.h_chars * f.h_font ≡ f.h_pixels
    → size f < 2 ^ 32
    → 0 < f.h_font
    → 0 < f.w_font
    → (set_cursor 0 f.h_chars >> putc (pos c) fg bg) f ≡ fault
unfolding putc putc_raw set_cursor draw_char
putc-set_cursor_fault f c fg bg no_line no_return full small some_height some_width =
    let row : f.h_chars % (f.h_chars + 1) ≡ f.h_chars = mod_small f.h_chars in
    let column : 0 % (f.w_chars + 1) ≡ 0 = mod-eq_of_lt (omega arith) in
    let at_end : (f.h_chars * f.h_font + 0) * f.w_pixels + 0 * f.w_font ≡ size f =
      ap (λ h. h * f.w_pixels + 0 * f.w_font) {x = f.h_chars * f.h_font + 0} {y = f.h_pixels}
        (omega (arith, full))
      ∙ omega arith in
    let behind : size f
        ≤ ((f.h_chars % (f.h_chars + 1) * f.h_font + 0) * f.w_pixels
            + 0 % (f.w_chars + 1) * f.w_font)
          % 2 ^ 32 =
      rw (row, column, at_end) (omega (arith, small)) in
    let moved : Framebuffer = record f {
      cursor_x = 0 % (f.w_chars + 1);
      cursor_y = f.h_chars % (f.h_chars + 1);
    } in
    rw (ne→==_false c b'\n' no_line, ne→==_false c b'\r' no_return)
      (choose (λ (m : Cmd Framebuffer (Unit {0})). m moved ≡ fault) (ltb fg 16 && ltb bg 16)
        (λ _.
          rw
            (for_up-fault f.h_font 0 (draw_char c fg bg) moved some_height
              (draw_row-fault f.w_font _ _ fg bg moved some_width behind))
            refl)
        refl)
