-- ===== src/Console/Framebuffer/Scroll.antt =====
-- The scrolling of kernel/modules/chardev/console-fb.c stays inside the framebuffer.
use trollos.Base.{
  ℕ, ◌+◌, ◌-◌, ◌*◌, ◌/◌, ◌%◌, ◌^◌, ◌≤◌, ◌<◌, ◌≡◌, refl, ap, ◌∙◌, true, arith, leb, ret, for_up,
  for_up-Ends, Ends, returns, lt→ltb, inl, inr, Nat_cases, eq→==, ne→==_false,
}
use trollos.Base.Outcome
use trollos.Console.Framebuffer.{
  Framebuffer, size, write_word, copy_word, clear_word, words, word_offset, scroll_up,
}

-- At most the pixels have changed.
abbrev pub SamePlace : Framebuffer → Framebuffer → Type 0
SamePlace f g = (m : ℕ → ℕ) × (g ≡ record f { fb_mem = m })

-- The bytes below `end` are those of `mem` from `shift` bytes on, and the rest is as in `mem`.
abbrev Shifted : (ℕ → ℕ) → ℕ → ℕ → (ℕ → ℕ) → Type 0
Shifted mem shift end m =
    ((j : ℕ) → j < end → m j ≡ mem (j + shift)) × ((j : ℕ) → end ≤ j → m j ≡ mem j)

-- The bytes from `start` on, up to `end`, are 0.
abbrev Cleared : (ℕ → ℕ) → ℕ → ℕ → (ℕ → ℕ) → Type 0
Cleared mem start end m =
    ((j : ℕ) → j < start → m j ≡ mem j)
    × ((j : ℕ) → start ≤ j → j < end → m j ≡ 0)
    × ((j : ℕ) → end ≤ j → m j ≡ mem j)

le→leb : (a b : ℕ) → a ≤ b → leb a b ≡ true
le→leb a b h = ground arith

module _ (f : Framebuffer) (small : size f < 2 ^ 32) where
  copied :
      (offset k : ℕ) (m : ℕ → ℕ)
      → offset ≤ k
      → k < words f
      → Shifted f.fb_mem (4 * offset) (4 * (k - offset)) m
      → Shifted f.fb_mem
          (4 * offset)
          (4 * (k + 1 - offset))
          (write_word m (k - offset) (λ n. m (4 * k + n)))
  unfolding write_word
  copied offset k m lo hi (below, above) = (
    λ j l. elim (Nat_cases (j / 4) (k - offset)) [
      | inl e ↦
          let from : 4 * k + j % 4 ≡ j + 4 * offset = omega arith in
          rw (eq→== _ _ e) (above (4 * k + j % 4) (omega arith) ∙ ap f.fb_mem from)
      | inr ne ↦ rw (ne→==_false _ _ ne) (below j (omega arith))
    ],
    λ j l.
        rw (ne→==_false (j / 4) (k - offset) (λ e. absurd (omega arith))) (above j (omega arith)),
  )

  cleared :
      (mem : ℕ → ℕ) (start k : ℕ) (m : ℕ → ℕ)
      → start ≤ k
      → Cleared mem (4 * start) (4 * k) m
      → Cleared mem (4 * start) (4 * (k + 1)) (write_word m k (λ n. 0))
  unfolding write_word
  cleared mem start k m lo (before, inside, after) = (
    λ j l. rw (ne→==_false (j / 4) k (λ e. absurd (omega arith))) (before j l),
    λ j a b. elim (Nat_cases (j / 4) k) [
      | inl e ↦ rw (eq→== _ _ e) refl
      | inr ne ↦ rw (ne→==_false _ _ ne) (inside j a (omega arith))
    ],
    λ j a. rw (ne→==_false (j / 4) k (λ e. absurd (omega arith))) (after j (omega arith)),
  )

  copy_word-ret :
      (m : ℕ → ℕ) (i k : ℕ)
      → i < words f
      → k < words f
      → copy_word i k (record f { fb_mem = m })
        ≡ ret tt (record f { fb_mem = write_word m i (λ n. m (4 * k + n)) })
  unfolding copy_word
  copy_word-ret m i k a b =
      rw (lt→ltb (4 * i + 3) (size f) (omega arith), lt→ltb (4 * k + 3) (size f) (omega arith))

  clear_word-ret :
      (m : ℕ → ℕ) (i : ℕ)
      → i < words f
      → clear_word i (record f { fb_mem = m })
        ≡ ret tt (record f { fb_mem = write_word m i (λ n. 0) })
  unfolding clear_word
  clear_word-ret m i a = rw (lt→ltb (4 * i + 3) (size f) (omega arith))

  -- The bytes of a framebuffer, as a property of them.
  abbrev Bytes : ((ℕ → ℕ) → Type 0) → Framebuffer → Type 0
  Bytes P g = (m : ℕ → ℕ) × (g ≡ record f { fb_mem = m }) × P m

  copy_loop :
      (offset : ℕ)
      → offset ≤ words f
      → Ends
          (λ _ g. Bytes (Shifted f.fb_mem (4 * offset) (4 * (words f - offset))) g)
          (λ _ _. ⊥)
          (for_up (words f - offset) offset (λ i. copy_word (i - offset) i) f)
  copy_loop offset small_offset =
      Outcome.mono
        (for_up-Ends (λ k g. Bytes (Shifted f.fb_mem (4 * offset) (4 * (k - offset))) g)
          (λ i. copy_word (i - offset) i) (words f - offset) offset f
          (λ k g a b (m, e, p).
            rw (e, copy_word-ret m (k - offset) k (omega arith) (omega arith))
              (returns (
                write_word m (k - offset) (λ n. m (4 * k + n)),
                refl,
                copied offset k m a (omega arith) p,
              )))
          (f.fb_mem, refl, ((λ j l. absurd (omega arith)), λ j l. refl)))
        (λ _ g (m, e, p). (
          m,
          e,
          (let same : offset + (words f - offset) - offset ≡ words f - offset = omega arith in
              rw same at p),
        ))
        (λ _ _ no_way. no_way)

  clear_loop :
      (mem : ℕ → ℕ) (n start : ℕ)
      → start + n ≤ words f
      → Ends
          (λ _ g. Bytes (Cleared mem (4 * start) (4 * (start + n))) g)
          (λ _ _. ⊥)
          (for_up n start clear_word (record f { fb_mem = mem }))
  clear_loop mem n start room =
      for_up-Ends (λ k g. Bytes (Cleared mem (4 * start) (4 * k)) g) clear_word n start
        (record f { fb_mem = mem })
        (λ k g a b (m, e, p).
          rw (e, clear_word-ret m k (omega arith))
            (returns (write_word m k (λ n. 0), refl, cleared mem start k m a p)))
        (mem, refl, ((λ j l. refl), (λ j a b. absurd (omega arith)), λ j l. refl))

  -- The framebuffer with its lines moved up by `offset` words, and 0 behind them.
  abbrev pub Scrolled : ℕ → (ℕ → ℕ) → Type 0
  Scrolled offset m =
      ((j : ℕ) → j < 4 * (words f - offset) → m j ≡ f.fb_mem (j + 4 * offset))
      × ((j : ℕ) → 4 * (words f - offset) ≤ j → j < 4 * words f → m j ≡ 0)
      × ((j : ℕ) → 4 * words f ≤ j → m j ≡ f.fb_mem j)

  -- For a framebuffer of less than 2 ^ 32 bytes, `_scroll_up` by lines that fit into it ends and
  -- writes nothing outside it: each byte is the one that stood so many lines below, the last lines
  -- are 0, bytes behind the last whole word stay, and nothing but the pixels changes.
  pub scroll_up-Scrolled :
      (lines : ℕ)
      → word_offset lines f ≤ words f
      → Ends
          (λ _ g. (m : ℕ → ℕ) × (g ≡ record f { fb_mem = m }) × Scrolled (word_offset lines f) m)
          (λ _ _. ⊥)
          (scroll_up lines f)
  unfolding scroll_up
  scroll_up-Scrolled lines fits =
      let offset = word_offset lines f in
      rw (le→leb offset (words f) fits) (
        Outcome.bind (copy_loop offset fits)
          (λ _ g (m, e, (below, above)). rw e (
            Outcome.mono (clear_loop m offset (words f - offset) (omega arith))
              (λ _ h (m', e', (before, inside, after)). (
                m',
                e',
                (
                  (λ j l. before j l ∙ below j l),
                  (λ j a b. inside j a (omega arith)),
                  (λ j a. after j (omega arith) ∙ above j (omega arith)),
                ),
              ))
              (λ _ _ no_way. no_way)))
          (λ _ _ no_way. no_way))
