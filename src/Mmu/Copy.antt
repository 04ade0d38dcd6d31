-- ===== src/Mmu/Copy.antt =====
-- `mmu040_fill_frame`, `mmu040_copy_from_userspace` and `mmu040_copy_to_userspace` of
-- kernel/mmu/mmu040.c. `get_physical` is `mmu040_get_physical` for a user's address: what the
-- machine finds in the tables, which it reads from memory by the root pointer.
use trollos.Base.{
  ℕ, zero, suc, ◌+◌, ◌-◌, ◌*◌, ◌/◌, ◌%◌, ◌^◌, ◌<◌, ◌≡◌, ◌≢◌, refl, sym, ap, ap₂, ◌∙◌, some, List,
  [], ◌∷◌, arith, if◌then◌else◌, ◌==◌, lt→ltb, eq→==, ne→==_false, Nat_cases, inl, inr, update,
  update_self, ret, Cmd, pure, ◌>>=◌, ◌>>◌, Ends, returns, bind,
}
use trollos.Mmu.Frames.{mapped, mapping_push-ret}
use trollos.Mmu.{
  Mmu, Pointer, page_size, mapper_pages, physical_of, read_byte, write_byte, byte_of, mapping_push,
  mapping_pop, map_table,
}

-- The loop of `mmu040_fill_frame`, for the bytes from `i` on.
unfoldable pub fill_bytes : List ℕ → ℕ → ℕ → ℕ → Cmd Mmu (Unit {0})
fill_bytes [] page i offset = pure tt
fill_bytes (b ∷ src) page i offset = do
  write_byte (record { page = page; offset = i + offset }) b
  fill_bytes src page (i + 1) offset

-- `mmu040_fill_frame` with the `size` bytes at `src`.
unfoldable pub fill_frame : ℕ → ℕ → List ℕ → Cmd Mmu (Unit {0})
fill_frame frame offset src = do
  page ← mapping_push frame
  fill_bytes src page 0 offset
  mapping_pop

module _ (get_physical : (ℕ → ℕ) → ℕ → ℕ → ℕ) where
  -- The page of a user's address, mapped, and a pointer to the address in it.
  unfoldable pub map_user : ℕ → Cmd Mmu Pointer
  map_user virt s = map_table (get_physical s.memory s.urp virt) s

  -- The pointer to the user's address `virt`, from the one to the address before.
  unfoldable pub next_pointer : ℕ → Pointer → Cmd Mmu Pointer
  next_pointer virt p =
      if virt % page_size == 0
      then mapping_pop >> map_user virt
      else pure (record { page = p.page; offset = p.offset + 1 })

  -- The loop of `mmu040_copy_from_userspace`, for `n` bytes more than one.
  unfoldable pub read_in : ℕ → ℕ → Pointer → Cmd Mmu (List ℕ)
  read_in zero src p = do b ← read_byte p; mapping_pop; pure (b ∷ [])
  read_in (suc n) src p = do
    b ← read_byte p
    q ← next_pointer ((src + 1) % 2 ^ 32) p
    rest ← read_in n ((src + 1) % 2 ^ 32) q
    pure (b ∷ rest)

  -- `mmu040_copy_from_userspace`: the bytes that it writes to `dst`.
  unfoldable pub copy_from_userspace : ℕ → ℕ → Cmd Mmu (List ℕ)
  copy_from_userspace src zero = pure []
  copy_from_userspace src (suc n) = do p ← map_user src; read_in n src p

  -- The loop of `mmu040_copy_to_userspace`, on the bytes at `src`.
  unfoldable pub write_out : List ℕ → ℕ → Pointer → Cmd Mmu (Unit {0})
  write_out [] dst p = pure tt
  write_out (b ∷ []) dst p = write_byte p b >> mapping_pop
  write_out (b ∷ c ∷ src) dst p = do
    write_byte p b
    q ← next_pointer ((dst + 1) % 2 ^ 32) p
    write_out (c ∷ src) ((dst + 1) % 2 ^ 32) q

  -- `mmu040_copy_to_userspace`
  unfoldable pub copy_to_userspace : ℕ → List ℕ → Cmd Mmu (Unit {0})
  copy_to_userspace dst [] = pure tt
  copy_to_userspace dst (b ∷ src) = do p ← map_user dst; write_out (b ∷ src) dst p

  -- The machine translates an address of 32 bits to one, page by page.
  pub record Translates (memory : ℕ → ℕ) (urp : ℕ) : Type 0 where
    pub in_memory : (a : ℕ) → get_physical memory urp a < 2 ^ 32
    pub same_page :
        (a : ℕ)
        → (a + 1) % 4096 ≢ 0
        → get_physical memory urp (a + 1) ≡ get_physical memory urp a + 1
    pub same_offset : (a : ℕ) → get_physical memory urp a % 4096 ≡ a % 4096

  -- The bytes that a user sees from an address on, each found on its own.
  pub user_bytes : (ℕ → ℕ) → ℕ → ℕ → ℕ → List ℕ
  user_bytes memory urp zero a = []
  user_bytes memory urp (suc n) a =
      byte_of memory (get_physical memory urp a) ∷ user_bytes memory urp n ((a + 1) % 2 ^ 32)

  module _ (memory : ℕ → ℕ) (urp : ℕ) (translates : Translates memory urp) (k : ℕ) where
    -- `p` points to the user's address `a`, through page `k` of the mapper.
    record Shows (a : ℕ) (p : Pointer) (s : Mmu) : Type 0 where
      pub same_memory : s.memory ≡ memory
      pub same_urp : s.urp ≡ urp
      pub used : s.mapping ≡ suc k
      pub at_page : p.page ≡ k
      pub at_offset : p.offset ≡ get_physical memory urp a % 4096
      pub descriptor : s.page_descriptor k ≡ some (get_physical memory urp a / 4096 % 2 ^ 20)

    physical_of-Shows :
        (a : ℕ) (p : Pointer) (s : Mmu)
        → k < 10
        → Shows a p s
        → physical_of p s ≡ some (get_physical memory urp a)
    unfolding physical_of
    physical_of-Shows a p s b h =
        let page : p.page + p.offset / page_size ≡ k = omega (arith, h.at_page, h.at_offset) in
        let low : p.offset % page_size ≡ get_physical memory urp a % 4096 =
          omega (arith, h.at_offset) in
        let whole : get_physical memory urp a / 4096 % 2 ^ 20 * page_size
              + get_physical memory urp a % 4096
            ≡ get_physical memory urp a =
          omega (arith, translates.in_memory a) in
        rw (page, physical_of)
          (rw (lt→ltb k mapper_pages b, physical_of)
            (rw (h.descriptor, physical_of) (rw low (ap some whole))))

    -- Mapping a user's address from a state with `k` pages in use.
    map_user-Shows :
        (a : ℕ) (s : Mmu)
        → k < 10
        → s.memory ≡ memory
        → s.urp ≡ urp
        → s.mapping ≡ k
        → Ends (λ p t. Shows a p t) (λ _ _. ⊥) (map_user a s)
    unfolding map_user map_table mapped
    map_user-Shows a s b m u e =
        let f : ℕ = get_physical s.memory s.urp a in
        let same : f ≡ get_physical memory urp a = ap₂ (λ x y. get_physical x y a) m u in
        rw (mapping_push-ret s f (omega arith)) (
          returns (record {
            same_memory = m;
            same_urp = u;
            used = omega arith;
            at_page = e;
            at_offset = ap (λ x. x % 4096) same;
            descriptor =
                ap (update s.page_descriptor s.mapping (some (f / page_size % 2 ^ 20))) (sym e)
                ∙ update_self s.page_descriptor s.mapping _
                ∙ ap (λ x. some (x / 4096 % 2 ^ 20)) same;
          }))

    read_byte-Shows :
        (a : ℕ) (p : Pointer) (s : Mmu)
        → k < 10
        → Shows a p s
        → read_byte p s ≡ ret (byte_of s.memory (get_physical memory urp a)) s
    unfolding read_byte
    read_byte-Shows a p s b h = rw (physical_of-Shows a p s b h, read_byte) refl

    -- From one address of the user to the next, in the same page or in another.
    next_pointer-Shows :
        (a : ℕ) (p : Pointer) (s : Mmu)
        → k < 10
        → a < 2 ^ 32
        → Shows a p s
        → Ends
            (λ q t. Shows ((a + 1) % 2 ^ 32) q t)
            (λ _ _. ⊥)
            (next_pointer ((a + 1) % 2 ^ 32) p s)
    unfolding next_pointer
    next_pointer-Shows a p s b l h = elim (Nat_cases ((a + 1) % 2 ^ 32 % page_size) 0) [
      | inl e ↦
          rw (eq→== ((a + 1) % 2 ^ 32 % page_size) 0 e, next_pointer)
            (unfold mapping_pop in
              (map_user-Shows ((a + 1) % 2 ^ 32) (record s { mapping = s.mapping - 1 }) b
                h.same_memory h.same_urp (omega (arith, h.used))))
      | inr ne ↦
          rw (ne→==_false ((a + 1) % 2 ^ 32 % page_size) 0 ne, next_pointer)
            (returns (next_Shows ne))
    ]
      where
        next_Shows :
            (a + 1) % 2 ^ 32 % page_size ≢ 0
            → Shows ((a + 1) % 2 ^ 32) (record { page = p.page; offset = p.offset + 1 }) s
        next_Shows ne =
            let g : ℕ = get_physical memory urp a in
            let whole : (a + 1) % 2 ^ 32 ≡ a + 1 = omega arith in
            let after : get_physical memory urp ((a + 1) % 2 ^ 32) ≡ g + 1 =
              ap (get_physical memory urp) whole ∙ translates.same_page a (omega arith) in
            let offset : (g + 1) % 4096 ≡ g % 4096 + 1 = omega (arith, translates.same_offset a) in
            let frame : (g + 1) / 4096 ≡ g / 4096 = omega (arith, translates.same_offset a) in
            record {
              same_memory = h.same_memory;
              same_urp = h.same_urp;
              used = h.used;
              at_page = h.at_page;
              at_offset = ap (λ x. x + 1) h.at_offset ∙ sym offset ∙ ap (λ x. x % 4096) (sym after);
              descriptor =
                  h.descriptor
                  ∙ ap (λ x. some (x % 2 ^ 20)) (sym frame)
                  ∙ ap (λ x. some (x / 4096 % 2 ^ 20)) (sym after);
            }

    read_in-user_bytes :
        (n a : ℕ) (p : Pointer) (s : Mmu)
        → k < 10
        → a < 2 ^ 32
        → Shows a p s
        → Ends
            (λ bytes t.
              (bytes ≡ user_bytes memory urp (suc n) a) × (t.memory ≡ memory) × (t.mapping ≡ k))
            (λ _ _. ⊥)
            (read_in n a p s)
    unfolding read_in user_bytes
    read_in-user_bytes zero a p s b l h =
        let given_back : s.mapping - 1 ≡ k = omega (arith, h.used) in
        rw (read_byte-Shows a p s b h) (
          unfold mapping_pop in
          (returns (
            ap (λ m. byte_of m (get_physical memory urp a) ∷ []) h.same_memory,
            h.same_memory,
            given_back,
          )))
    read_in-user_bytes (suc n) a p s b l h = rw (read_byte-Shows a p s b h) (
        bind (next_pointer-Shows a p s b l h)
          (λ q t g.
            bind (read_in-user_bytes n ((a + 1) % 2 ^ 32) q t b (omega arith) g)
              (λ rest u r. returns (
                ap₂ (λ m xs. byte_of m (get_physical memory urp a) ∷ xs) h.same_memory r.0,
                r.1,
                r.2,
              ))
              (λ _ _ f. f))
          (λ _ _ f. f))

  -- Copying from the user ends, with a page of the mapper free, and where the machine translates
  -- addresses page by page: it gives the same bytes as translating every address on its own,
  -- over the ends of pages and of the 32 bits, changes no memory and gives its page of the mapper
  -- back.
  pub copy_from_userspace-user_bytes :
      (n src : ℕ) (s : Mmu)
      → Translates s.memory s.urp
      → s.mapping < 10
      → src < 2 ^ 32
      → Ends
          (λ bytes t.
            (bytes ≡ user_bytes s.memory s.urp n src)
            × (t.memory ≡ s.memory)
            × (t.mapping ≡ s.mapping))
          (λ _ _. ⊥)
          (copy_from_userspace src n s)
  unfolding copy_from_userspace user_bytes
  copy_from_userspace-user_bytes zero src s tr b l = returns (refl, refl, refl)
  copy_from_userspace-user_bytes (suc n) src s tr b l =
      bind (map_user-Shows s.memory s.urp tr s.mapping src s b refl refl refl)
        (λ p t h. read_in-user_bytes s.memory s.urp tr s.mapping n src p t b l h) (λ _ _ f. f)
