-- ===== src/Console/Text.antt =====
-- Plain text, from kernel/modules/chardev/console.c to kernel/modules/chardev/console-fb.c.
use mathlib.Core.Path.{subst}
use trollos.Base.{
  sym, ℕ, ◌+◌, ◌<◌, ◌≡◌, ◌≢◌, refl, ap, ◌∙◌, Bool, true, false, List, [], ◌∷◌, arith, length,
  if◌then◌else◌, ret, fail, fault, diverge, Cmd, Ends, returns, fails, ne→==_false, mono, bind,
}
use trollos.Base.Outcome.{Outcome}
use trollos.Base.Int.{pos}
use trollos.CString.{char_value}
use trollos.Console.Types.{ascii, Console}
use trollos.Console.{write_char, write_chars, console_write, on_screen}
use trollos.Console.Framebuffer.{Framebuffer, console_fb, putc}
use trollos.Console.Framebuffer.Draw.{Fits, OnScreen, SamePlace, putc-OnScreen}

-- Characters of 7 bits other than the one that starts a sequence.
abbrev pub PlainText : List ℕ → Type 0
PlainText [] = Unit {0}
PlainText (c ∷ s) = (c < 128) × (c ≢ 27) × PlainText s

-- The terminal reads text, in colors of the table, and its cursor is on the screen.
pub record Ready (s : Console Framebuffer) : Type 0 where
  pub reads_text : s.state ≡ ascii
  pub fg_low : s.color_fg < 8
  pub bg_low : s.color_bg < 8
  pub fits : Fits s.screen
  pub on : OnScreen s.screen

-- At most the pixels and the cursor of the screen have changed, and the cursor is on the screen.
abbrev pub Written : Console Framebuffer → Console Framebuffer → Type 0
Written s t =
    (g : Framebuffer) × (t ≡ record s { screen = g }) × (SamePlace s.screen g × OnScreen g)

SamePlace-trans : (f g h : Framebuffer) → SamePlace f g → SamePlace g h → SamePlace f h
SamePlace-trans f g h (m, x, y, e) (m', x', y', e') = (
  m',
  x',
  y',
  e' ∙ ap (λ (k : Framebuffer). record k { fb_mem = m'; cursor_x = x'; cursor_y = y' }) e,
)

Fits-SamePlace : (f g : Framebuffer) → SamePlace f g → Fits f → Fits g
Fits-SamePlace f g (m, x, y, e) fits = rw e (record {
  small = fits.small;
  across = fits.across;
  down = fits.down;
  some_column = fits.some_column;
  some_row = fits.some_row;
})

Ready-Written : (s t : Console Framebuffer) → Ready s → Written s t → Ready t
Ready-Written s t r (g, e, (same, on)) = rw e (record {
  reads_text = r.reads_text;
  fg_low = r.fg_low;
  bg_low = r.bg_low;
  fits = Fits-SamePlace s.screen g same r.fits;
  on = on;
})

Written-trans : (s t u : Console Framebuffer) → Written s t → Written t u → Written s u
Written-trans s t u (g, e, (same, on)) (h, e', (same', on')) = (
  h,
  e' ∙ ap (λ (k : Console Framebuffer). record k { screen = h }) e,
  (SamePlace-trans s.screen g h same (rw e at same'), on'),
)

on_screen-Ends :
    {P : Framebuffer → Type 0} (f : Cmd Framebuffer (Unit {0})) (s : Console Framebuffer)
    → Ends (λ _ g. P g) (λ _ _. ⊥) (f s.screen)
    → Ends
        (λ _ t. (g : Framebuffer) × (t ≡ record s { screen = g }) × P g)
        (λ _ _. ⊥)
        (on_screen f s)
unfolding on_screen
on_screen-Ends {P} f s e = go (f s.screen) e
  where
    go :
        (o : Outcome Framebuffer (Unit {0}))
        → Ends (λ _ g. P g) (λ _ _. ⊥) o
        → Ends
            (λ _ t. (g : Framebuffer) × (t ≡ record s { screen = g }) × P g)
            (λ _ _. ⊥)
            (let r : Outcome (Console Framebuffer) (Unit {0}) = elim o [
              | ret u b ↦ ret tt (record s { screen = b })
              | fail n b ↦ fail n (record s { screen = b })
              | fault ↦ fault
              | diverge ↦ diverge
            ] in
              r)
    go _ (returns {s = g} p) = returns (g, refl, p)
    go _ (fails f) = absurd f

bold_color : (fg : ℕ) (b : Bool) → fg < 8 → fg + (if b then 8 else 0) < 16
bold_color fg true h = omega arith
bold_color fg false h = omega arith

char_value-small : (c : ℕ) → c < 128 → char_value c ≡ pos c
unfolding char_value
char_value-small c h = ground arith

plain_char :
    (c : ℕ) (s : Console Framebuffer)
    → c < 128
    → c ≢ 27
    → s.state ≡ ascii
    → write_char console_fb c s
      ≡ on_screen (putc (pos c) (s.color_fg + (if s.bold then 8 else 0)) s.color_bg) s
unfolding write_char
plain_char c s low no_escape text =
    let reading : Console Framebuffer = record s { state = ascii } in
    let same : s ≡ reading = ap (λ p. record s { state = p }) text in
    subst
      (λ (r : Console Framebuffer).
        write_char console_fb c r
        ≡ on_screen (putc (pos c) (r.color_fg + (if r.bold then 8 else 0)) r.color_bg) r)
      (sym same) (rw (ne→==_false c 27 no_escape, char_value-small c low) refl)

write_char-Written :
    (c : ℕ) (s : Console Framebuffer)
    → c < 128
    → c ≢ 27
    → Ready s
    → Ends (λ _ t. Written s t) (λ _ _. ⊥) (write_char console_fb c s)
write_char-Written c s low no_escape r = rw (plain_char c s low no_escape r.reads_text) (
    on_screen-Ends {P = λ g. SamePlace s.screen g × OnScreen g}
      (putc (pos c) (s.color_fg + (if s.bold then 8 else 0)) s.color_bg) s
      (putc-OnScreen s.screen r.fits c (s.color_fg + (if s.bold then 8 else 0)) s.color_bg
        (bold_color s.color_fg s.bold r.fg_low) (omega (arith, r.bg_low)) r.on))

write_chars-Written :
    (buf : List ℕ) (s : Console Framebuffer)
    → PlainText buf
    → Ready s
    → Ends (λ _ t. Written s t) (λ _ _. ⊥) (write_chars console_fb buf s)
unfolding write_chars
write_chars-Written [] s plain r =
    returns (s.screen, refl, ((s.screen.fb_mem, s.screen.cursor_x, s.screen.cursor_y, refl), r.on))
write_chars-Written (c ∷ buf) s (low, no_escape, plain) r =
    bind (write_char-Written c s low no_escape r)
      (λ _ t w.
        mono (write_chars-Written buf t plain (Ready-Written s t r w))
          (λ _ u w'. Written-trans s t u w w') (λ _ _ f. f))
      (λ _ _ f. f)

-- Where the terminal drives the framebuffer, reads text and has its cursor on a screen that fits into
-- the framebuffer, writing a text of 7-bit characters without ESC ends, however long it is: it
-- returns the number of its bytes, draws and scrolls inside the framebuffer, changes nothing but
-- the pixels and the cursor, and is ready for more with the cursor on the screen.
pub console_write-Ready :
    (buf : List ℕ) (s : Console Framebuffer)
    → PlainText buf
    → Ready s
    → Ends
        (λ n t. (n ≡ length buf) × Written s t × Ready t)
        (λ _ _. ⊥)
        (console_write console_fb buf s)
unfolding console_write
console_write-Ready buf s plain r =
    bind (write_chars-Written buf s plain r) (λ _ t w. returns (refl, w, Ready-Written s t r w))
      (λ _ _ f. f)
