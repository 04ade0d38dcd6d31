-- ===== src/Heap/Part.antt =====
-- What `kmalloc` of kernel/util/mem.c cuts a block into, and what it leaves alone.
use trollos.Base.{ℕ, ◌+◌, ◌-◌, ◌*◌, ◌/◌, ◌≤◌, ◌<◌, ◌≡◌, ◌⊎◌, refl, List, [], ◌∷◌, ltb, choose}
use trollos.Heap.{
  Heap, Link, list_head, next_of, word, align, header_size, read_link, write_link, take_block,
}
use trollos.Heap.Links.{Block}

-- The bytes of whole words that hold `size` bytes.
abbrev pub rounded : ℕ → ℕ
rounded size = (size + 3) / 4 * 4

-- What becomes of block `b` for `size` bytes: it is taken whole where nothing could be left of it
-- behind the bytes and another header; else `c` is its start, and the rest stays in the list.
abbrev pub Parted : ℕ → Block → Block → List Block → Type 0
Parted size b c rest =
    ((b.bytes ≤ rounded size + 8) × (c ≡ b) × (rest ≡ []))
    ⊎ ((rounded size + 8 < b.bytes)
        × (c ≡ record { address = b.address; bytes = rounded size })
        × (rest
            ≡ record {
              address = b.address + 8 + rounded size;
              bytes = b.bytes - (rounded size + 8);
            }
              ∷ []))

module _ {W : Type 0} where
  pub link_end : (l : Link) (v : ℕ) (s : Heap W) → (write_link l v s).heap_end ≡ s.heap_end
  link_end (list_head i) v s = refl
  link_end (next_of x) v s = refl

  pub link_world : (l : Link) (v : ℕ) (s : Heap W) → (write_link l v s).world ≡ s.world
  link_world (list_head i) v s = refl
  link_world (next_of x) v s = refl

  -- Taking a block does not change how far the heap reaches.
  pub take_block_end :
      (size : ℕ) (l : Link) (s : Heap W)
      → ((take_block size l s).heap_end ≡ s.heap_end) × ((take_block size l s).world ≡ s.world)
  unfolding take_block
  take_block_end size l s =
      choose (λ (t : Heap W). (t.heap_end ≡ s.heap_end) × (t.world ≡ s.world))
        (ltb (word (align size + header_size)) (align (s.header (read_link l s)).size))
        (λ _. (link_end l _ _, link_world l _ _)) (link_end l _ _, link_world l _ _)
