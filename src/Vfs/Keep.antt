-- ===== src/Vfs/Keep.antt =====
-- How validity survives a change: of one entry of the file table, of counters of mount points, and
-- of what the drivers hold. And what the accesses of the tables return inside their bounds.
use trollos.Base.{
  ℕ, ◌<◌, ◌≡◌, ◌≢◌, sym, ◌∙◌, true, false, some, ret, arith, Nat_cases, inl, inr, update,
  update_self, update_ne, ◌||◌, not,
}
use trollos.Base.Int.{pos, ltℤ}
use trollos.Vfs.Types.{
  FileEntry, MountPoint, FsType, Vfs, max_global_files, max_mount_points, max_file_systems, file_at,
  set_file, mount_at, set_mount, type_at,
}
use trollos.Vfs.Valid.{IsMounted, AllMounted, IsValid, SameTables}

module _ {W : Type 0} where
  -- The file systems are the same, and so are the mount points but for their counters and places.
  pub record Keeps (s s' : Vfs W) : Type 0 where
    pub same_types : s'.types ≡ s.types
    pub same_used : (i : ℕ) → (s'.mounts i).is_used ≡ (s.mounts i).is_used
    pub same_fs : (i : ℕ) → (s'.mounts i).mounted_fs ≡ (s.mounts i).mounted_fs

  pub IsMounted-Keeps : (s s' : Vfs W) (i : ℕ) → Keeps s s' → IsMounted s i → IsMounted s' i
  IsMounted-Keeps s s' i k m =
      (m.0, k.same_used i ∙ m.1, rw (k.same_fs i) m.2, m.3, rw (k.same_types, k.same_fs i) m.4)

  pub AllMounted-Keeps : (s s' : Vfs W) → Keeps s s' → AllMounted s → AllMounted s'
  AllMounted-Keeps s s' k all i b u = IsMounted-Keeps s s' i k (all i b (sym (k.same_used i) ∙ u))

  -- A valid state stays valid if one entry changes, and is no open file afterwards or is one that
  -- is held once and that belongs to a mount point in use if it is no device.
  pub IsValid-entry :
      (s s' : Vfs W) (fd : ℕ)
      → IsValid s
      → Keeps s s'
      → ((j : ℕ) → j ≢ fd → s'.files j ≡ s.files j)
      → ((s'.files fd).is_used ≡ true → (s'.files fd).ref ≡ pos 1)
      → ((s'.files fd).is_used ≡ true
          → (s'.files fd).is_device ≡ false
          → IsMounted s' (s'.files fd).first_word)
      → IsValid s'
  IsValid-entry s s' fd v k others held placed = record {
    held = λ i b u. elim (Nat_cases i fd) [
      | inl e ↦ rw e (held (rw e at u))
      | inr ne ↦ rw (others i ne) (v.held i b (rw (others i ne) at u))
    ];
    placed = λ i b u d. elim (Nat_cases i fd) [
      | inl e ↦ rw e (placed (rw e at u) (rw e at d))
      | inr ne ↦
          rw (others i ne) (
            IsMounted-Keeps s s' _ k (v.placed i b (rw (others i ne) at u) (rw (others i ne) at d)))
    ];
    mounted = AllMounted-Keeps s s' k v.mounted;
    distinct = rw k.same_types v.distinct;
  }

  pub Keeps-SameTables : (s s' : Vfs W) → SameTables s s' → Keeps s s'
  Keeps-SameTables s s' same = record {
    same_types = same.1;
    same_used = λ i. rw same.2;
    same_fs = λ i. rw same.2;
  }

  pub Keeps-trans : (s t u : Vfs W) → Keeps s t → Keeps t u → Keeps s u
  Keeps-trans s t u a b = record {
    same_types = b.same_types ∙ a.same_types;
    same_used = λ i. b.same_used i ∙ a.same_used i;
    same_fs = λ i. b.same_fs i ∙ a.same_fs i;
  }

  -- A mount point whose counter or place is written keeps its file system.
  pub Keeps-update :
      (s s' : Vfs W) (mp : ℕ) (m : MountPoint)
      → s'.types ≡ s.types
      → s'.mounts ≡ update s.mounts mp m
      → m.is_used ≡ (s.mounts mp).is_used
      → m.mounted_fs ≡ (s.mounts mp).mounted_fs
      → Keeps s s'
  Keeps-update s s' mp m types mounts used fs = record {
    same_types = types;
    same_used = λ i. elim (Nat_cases i mp) [
      | inl e ↦ rw (mounts, e, update_self s.mounts mp m) used
      | inr ne ↦ rw (mounts, update_ne s.mounts mp m i ne)
    ];
    same_fs = λ i. elim (Nat_cases i mp) [
      | inl e ↦ rw (mounts, e, update_self s.mounts mp m) fs
      | inr ne ↦ rw (mounts, update_ne s.mounts mp m i ne)
    ];
  }

  pub IsValid-SameTables : (s s' : Vfs W) → SameTables s s' → IsValid s → IsValid s'
  IsValid-SameTables s s' same v =
      let k = Keeps-SameTables s s' same in
      record {
        held = rw same.0 v.held;
        placed = λ i b u d.
            rw same.0 (IsMounted-Keeps s s' _ k (v.placed i b (rw same.0 at u) (rw same.0 at d)));
        mounted = AllMounted-Keeps s s' k v.mounted;
        distinct = rw same.1 v.distinct;
      }

  pub file_at-ret :
      (s : Vfs W) (i : ℕ) → i < max_global_files → file_at (pos i) s ≡ ret (s.files i) s
  unfolding file_at
  file_at-ret s i h = ground arith

  pub set_file-ret :
      (s : Vfs W) (i : ℕ) (f : FileEntry)
      → i < max_global_files
      → set_file (pos i) f s ≡ ret tt (record s { files = update s.files i f })
  unfolding set_file
  set_file-ret s i f h = ground arith

  pub mount_at-ret :
      (s : Vfs W) (i : ℕ) → i < max_mount_points → mount_at (pos i) s ≡ ret (s.mounts i) s
  unfolding mount_at
  mount_at-ret s i h = ground arith

  pub set_mount-ret :
      (s : Vfs W) (i : ℕ) (m : MountPoint)
      → i < max_mount_points
      → set_mount (pos i) m s ≡ ret tt (record s { mounts = update s.mounts i m })
  unfolding set_mount
  set_mount-ret s i m h = ground arith

  pub type_at-ret :
      (s : Vfs W) (i : ℕ) (t : FsType W)
      → i < max_file_systems
      → s.types i ≡ some t
      → type_at i s ≡ ret t s
  unfolding type_at
  type_at-ret s i t h e = ground arith

-- The guard of `vfs_close` and `vfs_read_directory` lets the numbers of the table pass.
pub in_table_guard :
    (fd : ℕ)
    → fd < max_global_files
    → (ltℤ (pos fd) (pos 0) || not (ltℤ (pos fd) (pos max_global_files))) ≡ false
in_table_guard fd b = ground arith

module _ {W : Type 0} where
  pub Keeps-SameMounts : (s s' : Vfs W) → s'.types ≡ s.types → s'.mounts ≡ s.mounts → Keeps s s'
  Keeps-SameMounts s s' types mounts = record {
    same_types = types;
    same_used = λ i. rw mounts;
    same_fs = λ i. rw mounts;
  }
