-- ===== src/Vfs/Register.antt =====
-- `vfs_fs_register` of kernel/vfs.c.
use trollos.Base.{
  ℕ, zero, suc, ◌+◌, ◌≤◌, ◌<◌, ◌≡◌, ◌≢◌, ◌⊎◌, inl, inr, refl, sym, ◌∙◌, true, false, Option, none,
  some, List, arith, take, Nat_cases, Bool-cases, Option-cases, true_ne_false, update, update_self,
  update_ne, Errno, Ret, ok, err, ret, fail, Ends, returns, fails, eexist, enomem,
}
use trollos.Base.Outcome
use trollos.CString.{str_eq}
use trollos.CString.Compare.{str_eq_symm}
use trollos.Vfs.Types.{FsType, Vfs, max_file_systems}
use trollos.Vfs.Mounts.{register_scan, vfs_fs_register}
use trollos.Vfs.Valid.{IsMounted, IsValid}

module _ {W : Type 0} (types : ℕ → Option (FsType W)) (name : List ℕ) where
  -- No slot from `i` up to `j` holds a file system of this name.
  abbrev pub IsNew : ℕ → ℕ → Type 0
  IsNew i j = (k : ℕ) (t : FsType W) → i ≤ k → k < j → types k ≡ some t → str_eq t.name name ≡ false

  -- Some slot below `j` does.
  pub data IsTaken (j : ℕ) : Type 0 where
    taken :
        (k : ℕ) (t : FsType W) → k < j → types k ≡ some t → str_eq t.name name ≡ true → IsTaken j

  data Scanned (i j : ℕ) (q : Option ℕ) : Ret (Option ℕ) → Type 0 where
    exists : IsTaken j → Scanned i j q (err eexist)
    keeps :
        {r : Option ℕ}
        → IsNew i j
        → r ≡ q
        → ((k : ℕ) → i ≤ k → k < j → types k ≢ none)
        → Scanned i j q (ok r)
    finds :
        (k : ℕ) {r : Option ℕ}
        → IsNew i j
        → r ≡ some k
        → k < j
        → types k ≡ none
        → Scanned i j q (ok r)

  IsNew-step :
      (i j : ℕ) (t : FsType W)
      → types i ≡ some t
      → str_eq t.name name ≡ false
      → IsNew (i + 1) j
      → IsNew i j
  IsNew-step i j t e differs rest k u a b e' = elim (Nat_cases k i) [
    | inl same ↦ let u_is_t : u ≡ t = cc in rw u_is_t differs
    | inr ne ↦ rest k u (omega arith) b e'
  ]

  IsNew-skip : (i j : ℕ) → types i ≡ none → IsNew (i + 1) j → IsNew i j
  IsNew-skip i j e rest k u a b e' = elim (Nat_cases k i) [
    | inl same ↦ cc
    | inr ne ↦ rest k u (omega arith) b e'
  ]

  register_scan-Scanned :
      (n i j : ℕ) (q : Option ℕ) → i + n ≡ j → Scanned i j q (register_scan types name n i q)
  unfolding register_scan
  register_scan-Scanned zero i j q e =
      keeps (λ k t a b. absurd (omega arith)) refl (λ k a b. absurd (omega arith))
  register_scan-Scanned (suc n) i j q e = elim (Option-cases (types i)) [
    | inl free ↦
        rw (free, register_scan)
          (skipped (register_scan-Scanned n (i + 1) j (some i) (omega arith)) free)
    | inr (t, used) ↦
        rw (used, register_scan)
          (elim (Bool-cases (str_eq t.name name)) [
            | inl same ↦ rw same (exists (taken i t (omega arith) used same))
            | inr differs ↦
                rw differs
                  (passed (register_scan-Scanned n (i + 1) j q (omega arith)) t used differs)
          ])
  ]
    where
      skipped :
          {r : Ret (Option ℕ)} → Scanned (i + 1) j (some i) r → types i ≡ none → Scanned i j q r
      skipped (exists t) free = exists t
      skipped (keeps new same full) free = finds i (IsNew-skip i j free new) same (omega arith) free
      skipped (finds k new same b f) free = finds k (IsNew-skip i j free new) same b f

      passed :
          {r : Ret (Option ℕ)}
          → Scanned (i + 1) j q r
          → (t : FsType W) → types i ≡ some t
          → str_eq t.name name ≡ false
          → Scanned i j q r
      passed (exists t) u used differs = exists t
      passed (keeps new same full) u used differs =
          keeps (IsNew-step i j u used differs new) same
            (λ k a b f. elim (Nat_cases k i) [ inl e' ↦ cc | inr ne ↦ full k (omega arith) b f ])
      passed (finds k new same b f) u used differs =
          finds k (IsNew-step i j u used differs new) same b f

module _ {W : Type 0} where
  -- The file system that is stored: its name cut to the 15 bytes that `name[16]` holds.
  abbrev pub stored : FsType W → FsType W
  stored fs = record fs { name = take 15 fs.name }

  IsMounted-registered :
      (s : Vfs W) (q i : ℕ) (fs : FsType W)
      → s.types q ≡ none
      → IsMounted s i
      → IsMounted (record s { types = update s.types q (some fs) }) i
  IsMounted-registered s q i fs free (a, b, c, t, e) =
      (a, b, c, t, update_ne s.types q (some fs) _ (λ same. cc) ∙ e)

  stored_at :
      (s : Vfs W) (q i : ℕ) (fs t : FsType W)
      → i ≡ q
      → update s.types q (some fs) i ≡ some t
      → fs ≡ t
  stored_at s q i fs t e h = cc (update_self s.types q (some fs))

  -- A stored name that was new is that of no other slot.
  clash :
      (s : Vfs W) (q : ℕ) (fs t u : FsType W) (j : ℕ)
      → IsNew s.types fs.name 0 max_file_systems
      → fs ≡ t
      → j < max_file_systems
      → s.types j ≡ some u
      → str_eq t.name u.name ≡ true
      → ⊥
  clash s q fs t u j new same b e h =
      let h' : str_eq fs.name u.name ≡ true = rw same h in
      true_ne_false (sym h' ∙ str_eq_symm fs.name u.name ∙ new j u (omega arith) b e)

  registered-IsValid :
      (s : Vfs W) (q : ℕ) (fs : FsType W)
      → IsValid s
      → s.types q ≡ none
      → IsNew s.types fs.name 0 max_file_systems
      → IsValid (record s { types = update s.types q (some fs) })
  registered-IsValid s q fs v free new = record {
    held = v.held;
    placed = λ i b u d. IsMounted-registered s q _ fs free (v.placed i b u d);
    mounted = λ i b u. IsMounted-registered s q i fs free (v.mounted i b u);
    distinct = λ i j t u a b et eu same. elim (Nat_cases i q) [
      | inl e ↦ elim (Nat_cases j q) [
        | inl e' ↦ e ∙ sym e'
        | inr ne ↦ absurd (
            clash s q fs t u j new (stored_at s q i fs t e et) b
              (sym (update_ne s.types q _ j ne) ∙ eu) same)
      ]
      | inr ne ↦ elim (Nat_cases j q) [
        | inl e' ↦ absurd (
            clash s q fs u t i new (stored_at s q j fs u e' eu) a
              (sym (update_ne s.types q _ i ne) ∙ et) (str_eq_symm u.name t.name ∙ same))
        | inr ne' ↦
            v.distinct i j t u a b (sym (update_ne s.types q _ i ne) ∙ et)
              (sym (update_ne s.types q _ j ne') ∙ eu) same
      ]
    ];
  }

  abbrev pub Registered : Vfs W → FsType W → ℕ → Vfs W → Type 0
  Registered s fs q s' =
      (q < max_file_systems)
      × (s.types q ≡ none)
      × IsNew s.types (stored fs).name 0 max_file_systems
      × (s' ≡ record s { types = update s.types q (some (stored fs)) })
      × IsValid s'

  abbrev pub Refused : Vfs W → FsType W → Errno → Vfs W → Type 0
  Refused s fs e s' =
      (s' ≡ s)
      × (((e ≡ eexist) × IsTaken s.types (stored fs).name max_file_systems)
          ⊎ ((e ≡ enomem)
              × IsNew s.types (stored fs).name 0 max_file_systems
              × ((k : ℕ) → k < max_file_systems → s.types k ≢ none)))

  -- On valid tables `vfs_fs_register` either stores the file system, its name cut to 15 bytes, in a
  -- slot that was free, which happens only if no registered file system has this name, and leaves
  -- valid tables; or it changes nothing, and the name is taken (EEXIST) or every slot is (ENOMEM).
  pub vfs_fs_register-Registered :
      (s : Vfs W) (fs : FsType W)
      → IsValid s
      → Ends (Registered s fs) (Refused s fs) (vfs_fs_register fs s)
  unfolding vfs_fs_register
  vfs_fs_register-Registered s fs v =
      finish
        (register_scan-Scanned s.types (stored fs).name max_file_systems 0 4 none (omega arith))
    where
      finish :
          {r : Ret (Option ℕ)}
          → Scanned s.types (stored fs).name 0 4 none r
          → Ends (Registered s fs) (Refused s fs) (
              let o : Outcome.Outcome (Vfs W) ℕ = elim r [
                | err e ↦ fail e s
                | ok none ↦ fail enomem s
                | ok (some q) ↦ ret q (record s { types = update s.types q (some (stored fs)) })
              ] in
              o)
      finish (exists t) = fails (refl, inl (refl, t))
      finish (keeps {r} new same full) =
          rw same (fails (refl, inr (refl, new, λ k b. full k (omega arith) b)))
      finish (finds k {r} new same b free) =
          rw same (returns (b, free, new, refl, registered-IsValid s k (stored fs) v free new))
