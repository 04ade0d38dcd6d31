-- ===== src/Vfs/Read.antt =====
-- `vfs_read`, `vfs_read_directory`, `vfs_seek` and `vfs_tell` of kernel/vfs.c.
use trollos.Base.{
  Ret, ok, err, some, ℕ, ◌≡◌, refl, ◌≤◌, ◌≢◌, ◌∙◌, ◌<◌, update, List, update_self, true, ret, fault,
  fail, ap, ◌||◌, update_ne, length, false, ebadf, not, eisdir, Ends, suc, arith, returns,
}
use trollos.Base.Outcome
use trollos.Base.Int.{pos, negsuc, ◌+ℤ◌, ltℤ}
use trollos.Vfs.Types.{FsType, FileEntry, Vfs, DeviceLayer, max_global_files, file_at}
use trollos.Vfs.Files.{advance, vfs_read}
use trollos.Vfs.Valid.{IsValid, SameTables, call-Answers}
use trollos.Vfs.Keep.{
  file_at-ret, Keeps, set_file-ret, Keeps-SameMounts, mount_at-ret, IsValid-entry, type_at-ret,
  IsMounted-Keeps, IsValid-SameTables,
}
use trollos.Vfs.Close.{instance_of_small}

-- The guard of `vfs_read` lets the numbers of the table pass, and -1.
read_guard :
    (fd : ℕ)
    → fd < max_global_files
    → (ltℤ (pos fd) (negsuc 0) || not (ltℤ (pos fd) (pos max_global_files))) ≡ false
read_guard fd b = ground arith

module _ {W : Type 0} where
  -- The position of `fd` has moved by `n` bytes, and nothing else in the tables has changed.
  pub record Moved (s : Vfs W) (fd n : ℕ) (s' : Vfs W) : Type 0 where
    pub entry : s'.files fd ≡ record (s.files fd) { position = (s.files fd).position +ℤ pos n }
    pub others : (j : ℕ) → j ≢ fd → s'.files j ≡ s.files j
    pub types_kept : s'.types ≡ s.types
    pub mounts_kept : s'.mounts ≡ s.mounts
    pub valid : IsValid s'

  moved : (s : Vfs W) (fd n : ℕ) → Vfs W
  moved s fd n = record s {
    files = update s.files fd (record (s.files fd) { position = (s.files fd).position +ℤ pos n });
  }

  moved-Moved :
      (s : Vfs W) (fd n : ℕ) → fd < max_global_files → IsValid s → Moved s fd n (moved s fd n)
  unfolding moved
  moved-Moved s fd n b v =
      let f = record (s.files fd) { position = (s.files fd).position +ℤ pos n } in
      let e : (moved s fd n).files fd ≡ f = update_self s.files fd f in
      let rest = λ (j : ℕ) (ne : j ≢ fd). update_ne s.files fd f j ne in
      let k : Keeps s (moved s fd n) = Keeps-SameMounts s (moved s fd n) refl refl in
      record {
        entry = e;
        others = rest;
        types_kept = refl;
        mounts_kept = refl;
        valid =
            IsValid-entry s _ fd v k rest (λ u. rw e (v.held fd b (rw e at u)))
              (λ u d. rw e (IsMounted-Keeps s _ _ k (v.placed fd b (rw e at u) (rw e at d))));
      }

  advance-ret :
      (s : Vfs W) (fd : ℕ) (bytes : List ℕ)
      → fd < max_global_files
      → advance (pos fd) bytes s ≡ ret bytes (moved s fd (length bytes))
  unfolding advance moved
  advance-ret s fd bytes b = rw (file_at-ret s fd b, set_file-ret s fd _ b)

  Moved-SameTables : (s t u : Vfs W) (fd n : ℕ) → SameTables s t → Moved t fd n u → Moved s fd n u
  Moved-SameTables s t u fd n same m = record {
    entry = rw (← same.0) m.entry;
    others = λ j ne. m.others j ne ∙ ap (λ (h : ℕ → FileEntry). h j) same.0;
    types_kept = m.types_kept ∙ same.1;
    mounts_kept = m.mounts_kept ∙ same.2;
    valid = m.valid;
  }

  -- `r` is what the driver of the file system answers, and `w` the state that it leaves, when it is
  -- asked for `count` bytes of the file's inode, on the file's mount, at the file's position.
  abbrev pub Answer : Vfs W → ℕ → ℕ → Ret (List ℕ) → W → Type 0
  Answer s fd count r w =
      let f = s.files fd in
      let m = s.mounts f.first_word in
      (ty : FsType W) × (s.types m.mounted_fs ≡ some ty)
      × (ty.read_file m.mounted_instance f.inode count f.position s.world ≡ (r, w))

  -- On valid tables, reading an open and readable file of a file system that is no directory ends
  -- with the answer of the file system's driver, when this is asked for the number of bytes, of the
  -- file's inode and mount, at the file's position. Where these are bytes, they are returned, the
  -- position moves by their number, nothing else in the tables changes and they stay valid; an error
  -- is passed on, and the tables are as before. The state of the drivers is the one that the driver
  -- leaves.
  pub vfs_read-Moved :
      (devices : DeviceLayer W) (s : Vfs W) (fd count : ℕ)
      → IsValid s
      → fd < max_global_files
      → (s.files fd).is_used ≡ true
      → (s.files fd).is_device ≡ false
      → (s.files fd).directory ≡ false
      → (s.files fd).can_read ≡ true
      → Ends
          (λ bytes s'. Answer s fd count (ok bytes) s'.world × Moved s fd (length bytes) s')
          (λ e s'. Answer s fd count (err e) s'.world × SameTables s s')
          (vfs_read devices (pos fd) count s)
  unfolding vfs_read
  vfs_read-Moved devices s fd count v b used no_device no_dir readable =
      let m = v.placed fd b used no_device in
      let f = s.files fd in
      rw
        (
          read_guard fd b,
          file_at-ret s fd b,
          used,
          no_device,
          no_dir,
          readable,
          instance_of_small f (omega (arith, m.0)),
          mount_at-ret s f.first_word m.0,
          type_at-ret s _ m.3 m.2 m.4,
        )
        (Outcome.bind
          (call-Answers
            (m.3.read_file (s.mounts f.first_word).mounted_instance f.inode count f.position) s)
          (λ bytes t (same, answer). rw (advance-ret t fd bytes b) (
            unfold moved in
            (returns (
              (m.3, m.4, answer),
              Moved-SameTables s t _ fd (length bytes) same
                  (moved-Moved t fd (length bytes) b (IsValid-SameTables s t same v)),
            ))))
          (λ _ t (same, answer). ((m.3, m.4, answer), same)))

  -- `vfs_read` refuses what is no open file and what is a directory, and changes nothing.
  pub vfs_read_refusals :
      (devices : DeviceLayer W) (s : Vfs W) (fd count : ℕ)
      → (max_global_files ≤ fd → vfs_read devices (pos fd) count s ≡ fail ebadf s)
        × (fd < max_global_files
            → (s.files fd).is_used ≡ false
            → vfs_read devices (pos fd) count s ≡ fail ebadf s)
        × (fd < max_global_files
            → (s.files fd).is_used ≡ true
            → (s.files fd).is_device ≡ false
            → (s.files fd).directory ≡ true
            → vfs_read devices (pos fd) count s ≡ fail eisdir s)
        × ((n : ℕ) → vfs_read devices (negsuc (suc n)) count s ≡ fail ebadf s)
  unfolding vfs_read
  vfs_read_refusals devices s fd count = (
    λ h. ground arith,
    λ b free. rw (read_guard fd b, file_at-ret s fd b, free),
    λ b used no_device dir. rw (read_guard fd b, file_at-ret s fd b, used, no_device, dir),
    λ n. ground arith,
  )

  -- The guard of `vfs_read` lets -1 pass, which reads in front of the table.
  pub vfs_read-minus_one :
      (devices : DeviceLayer W) (s : Vfs W) (count : ℕ)
      → vfs_read devices (negsuc 0) count s ≡ fault
  unfolding vfs_read file_at
  vfs_read-minus_one devices s count = refl
