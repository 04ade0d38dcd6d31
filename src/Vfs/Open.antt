-- ===== src/Vfs/Open.antt =====
-- `_alloc_file`, `vfs_open` and `vfs_open_device` of kernel/vfs.c.
use trollos.Base.{
  ◌⊎◌, Errno, ℕ, ◌<◌, ◌≡◌, ◌≢◌, refl, ◌∙◌, ap, true, false, none, some, arith, update, update_self,
  update_ne, find_first, find_first-FirstAt, find_first-none, inl, inr, ret, fail, List, Ends,
  emfile, Option-cases, fails, returns,
}
use trollos.Base.Outcome
use trollos.Base.Int.{pos, ◌+ℤ◌}
use trollos.Stat.{Stat}
use trollos.Vfs.Path.{vfs_stat}
use trollos.Vfs.Resolve.{vfs_stat-Resolved}
use trollos.Vfs.Types.{FileEntry, Vfs, max_global_files}
use trollos.Vfs.Entry.{EntryOf, KindOf-placed, opened_entry-EntryOf}
use trollos.Vfs.Files.{is_free, opened_entry, vfs_open, alloc_file}
use trollos.Vfs.Valid.{IsMounted, IsValid, SameTables}
use trollos.Vfs.Keep.{
  Keeps, Keeps-update, IsValid-entry, IsMounted-Keeps, IsValid-SameTables, file_at-ret,
  set_file-ret, mount_at-ret, set_mount-ret,
}

module _ {W : Type 0} where
  -- `fd` is the lowest free number of the table.
  pub record LowestFree (s : Vfs W) (fd : ℕ) : Type 0 where
    pub in_table : fd < max_global_files
    pub was_free : (s.files fd).is_used ≡ false
    pub lowest : (k : ℕ) → k < fd → (s.files k).is_used ≡ true

  abbrev IsFull : Vfs W → Type 0
  IsFull s = (k : ℕ) → k < max_global_files → (s.files k).is_used ≡ true

  pub lowest_free :
      (s : Vfs W) (fd : ℕ) → find_first (is_free s) max_global_files ≡ some fd → LowestFree s fd
  lowest_free s fd e =
      let f = find_first-FirstAt (is_free s) max_global_files e in
      record {
        in_table = f.upper;
        was_free = ground (arith, f.hit);
        lowest = λ k b. ground (arith, f.before k (omega arith) b);
      }

  pub full : (s : Vfs W) → find_first (is_free s) max_global_files ≡ none → IsFull s
  full s e k b = ground (arith, find_first-none (is_free s) max_global_files k e b)

  -- The state after an open of `fd` at mount point `mp`.
  pub record Opened (s : Vfs W) (fd : ℕ) (s' : Vfs W) : Type 0 where
    pub number : LowestFree s fd
    pub now_used : (s'.files fd).is_used ≡ true
    pub others : (j : ℕ) → j ≢ fd → s'.files j ≡ s.files j
    pub types_kept : s'.types ≡ s.types

  -- One more open file at `mp`, and no other mount point changed.
  pub record Counted (s : Vfs W) (mp : ℕ) (s' : Vfs W) : Type 0 where
    pub counter :
        s'.mounts mp ≡ record (s.mounts mp) { open_files = (s.mounts mp).open_files +ℤ pos 1 }
    pub other_mounts : (j : ℕ) → j ≢ mp → s'.mounts j ≡ s.mounts j

  -- The open of a file with the attributes `st` at mount point `mp`.
  pub record OpenedAt (s : Vfs W) (mp : ℕ) (st : Stat) (fd : ℕ) (s' : Vfs W) : Type 0 where
    pub at_mount : IsMounted s mp
    pub opened : Opened s fd s'
    pub counted : Counted s mp s'
    pub entry : EntryOf mp st (s'.files fd)
    pub valid : IsValid s'

  open_at : (s : Vfs W) (fd mp : ℕ) (st : Stat) → Vfs W
  open_at s fd mp st =
      let f = record (s.files fd) { is_used = true } in
      let files = update s.files fd f in
      record s {
        files = update files fd (opened_entry (files fd) mp st);
        mounts =
            update s.mounts mp
              (record (s.mounts mp) { open_files = (s.mounts mp).open_files +ℤ pos 1 });
      }

  open_at-entry :
      (s : Vfs W) (fd mp : ℕ) (st : Stat) → EntryOf mp st ((open_at s fd mp st).files fd)
  unfolding open_at
  open_at-entry s fd mp st =
      let f = record (s.files fd) { is_used = true } in
      rw (update_self (update s.files fd f) fd _) (
        opened_entry-EntryOf _ mp st (ap (λ (g : FileEntry). g.is_used) (update_self s.files fd f)))

  open_at-others :
      (s : Vfs W) (fd mp : ℕ) (st : Stat) (j : ℕ)
      → j ≢ fd
      → (open_at s fd mp st).files j ≡ s.files j
  unfolding open_at
  open_at-others s fd mp st j ne = update_ne _ fd _ j ne ∙ update_ne s.files fd _ j ne

  open_at-Keeps : (s : Vfs W) (fd mp : ℕ) (st : Stat) → Keeps s (open_at s fd mp st)
  unfolding open_at
  open_at-Keeps s fd mp st = Keeps-update s _ mp _ refl refl refl refl

  open_at-IsValid :
      (s : Vfs W) (fd mp : ℕ) (st : Stat)
      → IsValid s
      → IsMounted s mp
      → IsValid (open_at s fd mp st)
  open_at-IsValid s fd mp st v m =
      let e = open_at-entry s fd mp st in
      let k = open_at-Keeps s fd mp st in
      IsValid-entry s _ fd v k (open_at-others s fd mp st) (λ u. e.held_once)
        (λ u d. rw (KindOf-placed e.kind d) (IsMounted-Keeps s _ mp k m))

  open_at-Counted : (s : Vfs W) (fd mp : ℕ) (st : Stat) → Counted s mp (open_at s fd mp st)
  unfolding open_at
  open_at-Counted s fd mp st = record {
    counter = update_self s.mounts mp _;
    other_mounts = λ j ne. update_ne s.mounts mp _ j ne;
  }

  open_at-Opened :
      (s : Vfs W) (fd mp : ℕ) (st : Stat) → LowestFree s fd → Opened s fd (open_at s fd mp st)
  open_at-Opened s fd mp st low = record {
    number = low;
    now_used = (open_at-entry s fd mp st).in_use;
    others = open_at-others s fd mp st;
    types_kept = (open_at-Keeps s fd mp st).same_types;
  }

  alloc_file-ret :
      (s : Vfs W) (fd : ℕ)
      → find_first (is_free s) max_global_files ≡ some fd
      → alloc_file s
        ≡ ret fd (record s { files = update s.files fd (record (s.files fd) { is_used = true }) })
  unfolding alloc_file
  alloc_file-ret s fd e = rw (e, alloc_file)

  alloc_file-fail :
      (s : Vfs W) → find_first (is_free s) max_global_files ≡ none → alloc_file s ≡ fail emfile s
  unfolding alloc_file
  alloc_file-fail s e = rw (e, alloc_file)

  -- What an open of `path` ends with.
  abbrev pub OpenedPath : List ℕ → Vfs W → ℕ → Vfs W → Type 0
  OpenedPath path s fd s' =
      (mp : ℕ) × (st : Stat) × (u : Vfs W) × (vfs_stat path s ≡ ret (mp, st) u)
      × SameTables s u
      × OpenedAt u mp st fd s'

  abbrev pub NotOpened : List ℕ → Vfs W → Errno → Vfs W → Type 0
  NotOpened path s e s' =
      SameTables s s' × ((vfs_stat path s ≡ fail e s') ⊎ ((e ≡ emfile) × IsFull s'))

  -- What `vfs_open` returns when `vfs_stat` has found the file.
  after_stat :
      (path : List ℕ) (s t : Vfs W) (mp : ℕ) (st : Stat)
      → vfs_stat path s ≡ ret (mp, st) t
      → SameTables s t
      → IsValid t
      → IsMounted t mp
      → Ends (OpenedPath path s) (NotOpened path s) (vfs_open path s)
  unfolding vfs_open
  after_stat path s t mp st at same v m =
      elim (Option-cases (find_first (is_free t) max_global_files)) [
        | inl e ↦ rw (at, alloc_file-fail t e) (fails (same, inr (refl, full t e)))
        | inr (fd, e) ↦
            let low = lowest_free t fd e in
            rw
              (
                at,
                alloc_file-ret t fd e,
                file_at-ret _ fd low.in_table,
                set_file-ret _ fd _ low.in_table,
                mount_at-ret _ mp m.0,
                set_mount-ret _ mp _ m.0,
              )
              (unfold open_at in
                (returns (
                  mp,
                  st,
                  t,
                  at,
                  same,
                  record {
                    at_mount = m;
                    opened = open_at-Opened t fd mp st low;
                    counted = open_at-Counted t fd mp st;
                    entry = open_at-entry t fd mp st;
                    valid = open_at-IsValid t fd mp st v m;
                  },
                )))
      ]

  -- On valid tables `vfs_open` ends, whatever the path and the drivers. Either it fails and leaves
  -- the tables as they were, with the error of `vfs_stat` on the path, or with EMFILE where every
  -- number is in use. Or it returns the lowest free number, whose entry has the mode, the inode and
  -- the kind of the attributes that `vfs_stat` on the path found, at position 0, held once, with the
  -- mount point that it found or, for a device, the device number; there is then one more open file
  -- at this mount point, all other entries, mount points and file systems are as before, and the
  -- tables are valid.
  pub vfs_open-OpenedAt :
      (path : List ℕ) (s : Vfs W)
      → IsValid s
      → Ends (OpenedPath path s) (NotOpened path s) (vfs_open path s)
  vfs_open-OpenedAt path s v = found (vfs_stat path s) refl (vfs_stat-Resolved path s v.mounted)
    where
      found :
          (o : Outcome.Outcome (Vfs W) (ℕ × Stat))
          → vfs_stat path s ≡ o
          → Ends (λ r s'. SameTables s s' × IsMounted s' r.0) (λ _ s'. SameTables s s') o
          → Ends (OpenedPath path s) (NotOpened path s) (vfs_open path s)
      found _ e (returns {a = r} {s = t} (same, m)) =
          after_stat path s t r.0 r.1 e same (IsValid-SameTables s t same v) m
      found _ e (fails same) = unfold vfs_open in (rw e (fails (same, inl e)))
