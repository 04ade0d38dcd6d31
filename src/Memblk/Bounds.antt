-- ===== src/Memblk/Bounds.antt =====
-- Reads of kernel/modules/blockdev/memblk.c stay inside their block.
use trollos.Base.{
  ℕ, zero, suc, ◌+◌, ◌-◌, ◌≤◌, ◌<◌, ◌≡◌, refl, ap, ◌∙◌, some, List, arith, length, ltb, get_or,
  Ends, returns, fails, Bool-cases, inl, inr, eio, ◌⊎◌,
}
use trollos.Base.Int.{pos, ltℤ, ◌+ℤ◌, ◌-ℤ◌}
use trollos.Memblk.{Memblk, locate_device, memblk_read, copy_out, bytes_from}

bytes_from-length : (memory : ℕ → ℕ) (a n : ℕ) → length (bytes_from memory a n) ≡ n
bytes_from-length memory a zero = refl
bytes_from-length memory a (suc n) = omega (arith, bytes_from-length memory (a + 1) n)

bytes_from-get_or :
    (memory : ℕ → ℕ) (a n i : ℕ) → i < n → get_or (bytes_from memory a n) i 0 ≡ memory (a + i)
bytes_from-get_or memory a zero i h = absurd (omega arith)
bytes_from-get_or memory a (suc n) zero h = ap memory (omega arith)
bytes_from-get_or memory a (suc n) (suc i) h =
    bytes_from-get_or memory (a + 1) n i (omega arith) ∙ ap memory (omega arith)

add_pos : (a b : ℕ) → (pos a +ℤ pos b) ≡ pos (a + b)
add_pos a b = ground arith

sub_pos : (a b : ℕ) → b ≤ a → (pos a -ℤ pos b) ≡ pos (a - b)
sub_pos a b h = ground arith

lt_pos : (a b : ℕ) → ltℤ (pos a) (pos b) ≡ ltb a b
lt_pos a b = ground arith

module _ {D : Type 0} where
  -- The bytes are those of the block from `position` on, as many as were asked for or as there are.
  pub record Inside (s : Memblk D) (address size position count : ℕ) (bytes : List ℕ) : Type 0 where
    pub in_block : position + length bytes ≤ size
    pub no_more : length bytes ≤ count
    pub all_there : (length bytes ≡ count) ⊎ (position + length bytes ≡ size)
    pub content : (i : ℕ) → i < length bytes → get_or bytes i 0 ≡ s.memory (address + position + i)

  copied :
      (s : Memblk D) (address size position count n : ℕ)
      → position + n ≤ size
      → n ≤ count
      → (n ≡ count) ⊎ (position + n ≡ size)
      → Inside s address size position count (bytes_from s.memory (address + position) n)
  copied s address size position count n a b c =
      let len = bytes_from-length s.memory (address + position) n in
      record {
        in_block = omega arith;
        no_more = omega arith;
        all_there = elim c [ inl e ↦ inl (omega arith) | inr e ↦ inr (omega arith) ];
        content = λ i h. bytes_from-get_or s.memory (address + position) n i (omega arith);
      }

  -- A read from a position that is not negative on a block of `size` bytes ends and changes nothing.
  -- It returns bytes of the block from this position on, as many as were asked for or as there are up
  -- to the end of the block; it fails, with EIO, only behind the end.
  pub memblk_read-Inside :
      (s : Memblk D) (device blk size position count : ℕ)
      → locate_device device s ≡ some blk
      → (s.memblk blk).len ≡ pos size
      → Ends
          (λ bytes t. (t ≡ s) × Inside s (s.memblk blk).addr size position count bytes)
          (λ e t. (t ≡ s) × (e ≡ eio) × (size < position))
          (memblk_read device (pos position) count s)
  unfolding memblk_read
  memblk_read-Inside s device blk size position count found sized =
      rw (found, memblk_read)
        (rw (sized, add_pos position count, lt_pos size (position + count), lt_pos size position)
          (elim (Bool-cases (ltb size (position + count))) [
            | inr whole ↦ rw whole (
                unfold copy_out in
                (returns (
                  refl,
                  copied s (s.memblk blk).addr size position count count (ground arith)
                      (omega arith) (inl refl),
                )))
            | inl short ↦ rw short (elim (Bool-cases (ltb size position)) [
              | inl behind ↦ rw behind (fails (refl, refl, ground arith))
              | inr start ↦
                  let inside : position ≤ size = ground arith in
                  rw (start, sub_pos size position inside)
                    (unfold copy_out in
                      (returns (
                        refl,
                        copied s (s.memblk blk).addr size position count (size - position)
                            (omega arith) (ground arith) (inr (omega arith)),
                      )))
            ])
          ]))
