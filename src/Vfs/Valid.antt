-- ===== src/Vfs/Valid.antt =====
-- What holds of the tables of kernel/vfs.c between two calls, and the part of it that a call of a
-- driver leaves alone.
use trollos.Base.{ap, ◌∙◌, ℕ, ◌<◌, ◌≡◌, refl, true, false, some, Ret, ok, err, ret, fail}
use trollos.Base.Outcome.{Outcome, Ends, returns, fails}
use trollos.Base.Int.{pos}
use trollos.CString.{str_eq}
use trollos.Vfs.Types.{FsType, Vfs, max_global_files, max_mount_points, max_file_systems, call}

module _ {W : Type 0} where
  -- A mount point in use belongs to a registered file system.
  abbrev pub IsMounted : Vfs W → ℕ → Type 0
  IsMounted s i =
      (i < max_mount_points)
      × ((s.mounts i).is_used ≡ true)
      × ((s.mounts i).mounted_fs < max_file_systems)
      × (t : FsType W) × (s.types (s.mounts i).mounted_fs ≡ some t)

  abbrev pub AllMounted : Vfs W → Type 0
  AllMounted s = (i : ℕ) → i < max_mount_points → (s.mounts i).is_used ≡ true → IsMounted s i

  pub record IsValid (s : Vfs W) : Type 0 where
    -- An open file is held once: `vfs_open` sets `ref` to 1 and nothing raises it.
    pub held : (i : ℕ) → i < max_global_files → (s.files i).is_used ≡ true → (s.files i).ref ≡ pos 1
    -- An open file that is no device belongs to a mount point in use.
    pub placed :
        (i : ℕ)
        → i < max_global_files
        → (s.files i).is_used ≡ true
        → (s.files i).is_device ≡ false
        → IsMounted s (s.files i).first_word
    pub mounted : AllMounted s
    -- No two registered file systems have one name.
    pub distinct :
        (i j : ℕ) (t u : FsType W)
        → i < max_file_systems
        → j < max_file_systems
        → s.types i ≡ some t
        → s.types j ≡ some u
        → str_eq t.name u.name ≡ true
        → i ≡ j

  -- At most the state of the drivers has changed.
  abbrev pub SameTables : Vfs W → Vfs W → Type 0
  SameTables s s' = (s'.files ≡ s.files) × (s'.types ≡ s.types) × (s'.mounts ≡ s.mounts)

  pub call-SameTables :
      {A : Type 0} (f : W → Ret A × W) (s : Vfs W)
      → Ends (λ _ s'. SameTables s s') (λ _ s'. SameTables s s') (call f s)
  unfolding call
  call-SameTables {A} f s = split (f s.world).0
    where
      split :
          (r : Ret A)
          → Ends
              (λ _ s'. SameTables s s')
              (λ _ s'. SameTables s s')
              (let o : Outcome (Vfs W) A = elim r [
                | ok a ↦ ret a (record s { world = (f s.world).1 })
                | err e ↦ fail e (record s { world = (f s.world).1 })
              ] in
                o)
      split (ok a) = returns (refl, refl, refl)
      split (err e) = fails (refl, refl, refl)

  -- A call of a driver ends with the driver's answer, and leaves the state that it leaves.
  pub call-Answers :
      {A : Type 0} (f : W → Ret A × W) (s : Vfs W)
      → Ends
          (λ a s'. SameTables s s' × (f s.world ≡ (ok a, s'.world)))
          (λ e s'. SameTables s s' × (f s.world ≡ (err e, s'.world)))
          (call f s)
  unfolding call
  call-Answers {A} f s = split (f s.world).0 refl
    where
      split :
          (r : Ret A)
          → (f s.world).0 ≡ r
          → Ends
              (λ a s'. SameTables s s' × (f s.world ≡ (ok a, s'.world)))
              (λ e s'. SameTables s s' × (f s.world ≡ (err e, s'.world)))
              (let o : Outcome (Vfs W) A = elim r [
                | ok a ↦ ret a (record s { world = (f s.world).1 })
                | err e ↦ fail e (record s { world = (f s.world).1 })
              ] in
                o)
      split (ok a) h = returns ((refl, refl, refl), ap (λ r. (r, (f s.world).1)) h)
      split (err e) h = fails ((refl, refl, refl), ap (λ r. (r, (f s.world).1)) h)

  pub SameTables-trans : (s t u : Vfs W) → SameTables s t → SameTables t u → SameTables s u
  SameTables-trans s t u a b = (b.0 ∙ a.0, b.1 ∙ a.1, b.2 ∙ a.2)
