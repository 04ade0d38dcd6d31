-- ===== src/Vfs/Close.antt =====
-- `vfs_close` of kernel/vfs.c.
use mathlib.Core.Path.{subst}
use trollos.Base.{
  ℕ, ◌≡◌, refl, update_self, update, false, update_ne, ap, ◌≢◌, ◌<◌, ◌∙◌, ◌^◌, true_ne_false,
  lt→ltb, sym, true, ◌≤◌, ret, fault, arith, Nat_cases, List, inl, inr,
}
use trollos.Base.Outcome
use trollos.Base.Int.{ℤ, pos, ◌-ℤ◌, ◌+ℤ◌}
use trollos.Vfs.Types.{
  FileEntry, Vfs, mount_at, set_mount, max_global_files, instance_of, max_mount_points, MountPoint,
}
use trollos.Vfs.Files.{vfs_close, vfs_open}
use trollos.Vfs.Valid.{IsValid}
use trollos.Vfs.Keep.{
  in_table_guard, IsValid-entry, Keeps-update, file_at-ret, set_file-ret, mount_at-ret,
  set_mount-ret,
}
use trollos.Stat.{Stat}
use trollos.Vfs.Entry.{KindOf-placed}
use trollos.Vfs.Open.{OpenedAt, vfs_open-OpenedAt}

-- `data.fs.instance` of an entry whose first word is a small number.
pub instance_of_small : (f : FileEntry) → f.first_word < 2 ^ 31 → instance_of f ≡ pos f.first_word
instance_of_small f h = rw (lt→ltb _ _ h)

closed_entry : FileEntry → FileEntry
closed_entry f = record f { ref = f.ref -ℤ pos 1; is_used = false }

add_sub_one : (x : ℤ) → (x +ℤ pos 1) -ℤ pos 1 ≡ x
add_sub_one x = ground arith

mount_at-fault :
    {W : Type 0} (s : Vfs W) (f : FileEntry)
    → max_mount_points ≤ f.first_word
    → mount_at (instance_of f) s ≡ fault
unfolding mount_at
mount_at-fault s f h = ground arith

module _ {W : Type 0} where
  -- `fd` is given back: its entry is free, and one file less is open at `mp`.
  pub record Closed (s : Vfs W) (fd mp : ℕ) (s' : Vfs W) : Type 0 where
    pub now_free : (s'.files fd).is_used ≡ false
    pub others : (j : ℕ) → j ≢ fd → s'.files j ≡ s.files j
    pub counter :
        s'.mounts mp ≡ record (s.mounts mp) { open_files = (s.mounts mp).open_files -ℤ pos 1 }
    pub other_mounts : (j : ℕ) → j ≢ mp → s'.mounts j ≡ s.mounts j
    pub types_kept : s'.types ≡ s.types
    pub valid : IsValid s'

  close_at : (s : Vfs W) (fd mp : ℕ) → Vfs W
  unfolding closed_entry
  close_at s fd mp =
      let files = update s.files fd (record (s.files fd) { ref = (s.files fd).ref -ℤ pos 1 }) in
      record s {
        files = update files fd (closed_entry (s.files fd));
        mounts =
            update s.mounts mp
              (record (s.mounts mp) { open_files = (s.mounts mp).open_files -ℤ pos 1 });
      }

  close_at-others :
      (s : Vfs W) (fd mp : ℕ) (j : ℕ) → j ≢ fd → (close_at s fd mp).files j ≡ s.files j
  unfolding close_at
  close_at-others s fd mp j ne = update_ne _ fd _ j ne ∙ update_ne s.files fd _ j ne

  close_at-free : (s : Vfs W) (fd mp : ℕ) → ((close_at s fd mp).files fd).is_used ≡ false
  unfolding close_at closed_entry
  close_at-free s fd mp = ap (λ (f : FileEntry). f.is_used) (update_self _ fd _)

  close_at-IsValid : (s : Vfs W) (fd mp : ℕ) → IsValid s → IsValid (close_at s fd mp)
  close_at-IsValid s fd mp v =
      IsValid-entry s _ fd v (unfold close_at in Keeps-update s _ mp _ refl refl refl refl)
        (close_at-others s fd mp) (λ u. absurd (true_ne_false (sym u ∙ close_at-free s fd mp)))
        (λ u. absurd (true_ne_false (sym u ∙ close_at-free s fd mp)))

  close_at-Closed : (s : Vfs W) (fd mp : ℕ) → IsValid s → Closed s fd mp (close_at s fd mp)
  close_at-Closed s fd mp v = record {
    now_free = close_at-free s fd mp;
    others = close_at-others s fd mp;
    counter = unfold close_at in (update_self s.mounts mp _);
    other_mounts = λ j ne. unfold close_at in (update_ne s.mounts mp _ j ne);
    types_kept = unfold close_at in refl;
    valid = close_at-IsValid s fd mp v;
  }

  -- The first steps of `vfs_close`, up to the counter of the mount point.
  released :
      (s : Vfs W) (fd : ℕ)
      → fd < max_global_files
      → (s.files fd).ref ≡ pos 1
      → vfs_close (pos fd) s
        ≡ Outcome.and_then
            (mount_at (instance_of (s.files fd)) (record s {
              files =
                  update
                    (update s.files fd (record (s.files fd) { ref = (s.files fd).ref -ℤ pos 1 }))
                    fd
                    (closed_entry (s.files fd));
            }))
            (λ m.
              set_mount
                (instance_of (s.files fd))
                (record m { open_files = m.open_files -ℤ pos 1 }))
  unfolding vfs_close closed_entry
  released s fd b one =
      rw
        (
          in_table_guard fd b,
          file_at-ret s fd b,
          set_file-ret s fd _ b,
          file_at-ret _ fd b,
          update_self,
          one,
          set_file-ret _ fd _ b,
        )
        refl

  -- On valid tables, closing a file that is open and no device gives its number back: it succeeds,
  -- frees the entry, takes one file off the counter of the file's mount point, and keeps all else
  -- and validity.
  pub vfs_close-Closed :
      (s : Vfs W) (fd : ℕ)
      → IsValid s
      → fd < max_global_files
      → (s.files fd).is_used ≡ true
      → (s.files fd).is_device ≡ false
      → (s' : Vfs W) × (vfs_close (pos fd) s ≡ ret tt s') × Closed s fd (s.files fd).first_word s'
  vfs_close-Closed s fd v b used no_device =
      let mp = (s.files fd).first_word in
      let m = v.placed fd b used no_device in
      let small : instance_of (s.files fd) ≡ pos mp =
        instance_of_small (s.files fd) (omega (arith, m.0)) in
      (
        close_at s fd mp,
        released s fd b (v.held fd b used)
            ∙ rw (small, mount_at-ret _ mp m.0, set_mount-ret _ mp _ m.0) (unfold close_at in refl),
        close_at-Closed s fd mp v,
      )

  -- On valid tables, closing an open device whose number is 16 or larger writes outside the table
  -- of mount points: the word that is read as the mount point holds the device number.
  pub vfs_close-device_fault :
      (s : Vfs W) (fd : ℕ)
      → IsValid s
      → fd < max_global_files
      → (s.files fd).is_used ≡ true
      → (s.files fd).is_device ≡ true
      → max_mount_points ≤ (s.files fd).first_word
      → vfs_close (pos fd) s ≡ fault
  vfs_close-device_fault s fd v b used device large =
      released s fd b (v.held fd b used) ∙ rw (mount_at-fault _ (s.files fd) large)

  close_opened :
      (t s' : Vfs W) (mp : ℕ) (st : Stat) (fd : ℕ)
      → OpenedAt t mp st fd s'
      → (s'.files fd).is_device ≡ false
      → (u : Vfs W) × (vfs_close (pos fd) s' ≡ ret tt u)
        × ((j : ℕ) → (u.files j).is_used ≡ (t.files j).is_used)
        × ((j : ℕ) → u.mounts j ≡ t.mounts j)
  close_opened t s' mp st fd r no_device =
      let place : (s'.files fd).first_word ≡ mp = KindOf-placed r.entry.kind no_device in
      let o = r.opened in
      let c = r.counted in
      let (u, closes, closed') =
        vfs_close-Closed s' fd r.valid o.number.in_table o.now_used no_device in
      let closed : Closed s' fd mp u = subst (λ k. Closed s' fd k u) place closed' in
      (
        u,
        closes,
        λ j. elim (Nat_cases j fd) [
          | inl same ↦ rw same (closed.now_free ∙ sym o.number.was_free)
          | inr ne ↦ ap (λ (f : FileEntry). f.is_used) (closed.others j ne ∙ o.others j ne)
        ],
        λ j. elim (Nat_cases j mp) [
          | inl same ↦ rw same (
              closed.counter
              ∙ ap (λ (k : MountPoint). record k { open_files = k.open_files -ℤ pos 1 }) c.counter
              ∙ ap (λ n. record (t.mounts mp) { open_files = n }) (add_sub_one _))
          | inr ne ↦ closed.other_mounts j ne ∙ c.other_mounts j ne
        ],
      )

  -- On valid tables a file that `vfs_open` opened and that is no device can be closed at once. This
  -- puts every mount point back as it was before the open, and every number in the state of use
  -- that it had.
  pub vfs_open-close :
      (path : List ℕ) (s s' : Vfs W) (fd : ℕ)
      → IsValid s
      → vfs_open path s ≡ ret fd s'
      → (s'.files fd).is_device ≡ false
      → (u : Vfs W) × (vfs_close (pos fd) s' ≡ ret tt u)
        × ((j : ℕ) → (u.files j).is_used ≡ (s.files j).is_used)
        × ((j : ℕ) → u.mounts j ≡ s.mounts j)
  vfs_open-close path s s' fd v opens no_device =
      let (mp, st, t, _, same, opened) =
        Outcome.at_ret (rw opens at (vfs_open-OpenedAt path s v)) in
      let (u, closes, used, mounts) = close_opened t s' mp st fd opened no_device in
      (
        u,
        closes,
        λ j. used j ∙ ap (λ (h : ℕ → FileEntry). (h j).is_used) same.0,
        λ j. mounts j ∙ ap (λ (h : ℕ → MountPoint). h j) same.2,
      )
