-- ===== src/Vfs/Directory.antt =====
-- `vfs_read_directory` of kernel/vfs.c.
use trollos.Base.{
  ℕ, zero, suc, ◌<◌, ◌≡◌, refl, ap, true, false, some, arith, replicate, Ret, ok, err, ret, fail,
}
use trollos.Base.Outcome
use trollos.Base.Int.{pos}
use trollos.Stat.{Dirent}
use trollos.Vfs.Types.{FileEntry, Vfs, max_global_files, call}
use trollos.Vfs.Files.{vfs_read_directory, read_entries}
use trollos.Vfs.Valid.{IsMounted}
use trollos.Vfs.Keep.{file_at-ret, mount_at-ret, type_at-ret, in_table_guard}
use trollos.Vfs.Close.{instance_of_small}

module _ {W : Type 0} where
  call-ret :
      {A : Type 0} (f : W → Ret A × W) (s : Vfs W) (a : A)
      → f s.world ≡ (ok a, s.world)
      → call f s ≡ ret a s
  unfolding call
  call-ret {A} f s a e = ap finish e
    where
      finish : Ret A × W → Outcome.Outcome (Vfs W) A
      finish (r, w) = elim r [
        | ok b ↦ ret b (record s { world = w })
        | err x ↦ fail x (record s { world = w })
      ]

  read_entries-replicate :
      (s : Vfs W) (f : FileEntry) (de : Dirent) (m : IsMounted s f.first_word)
      → m.3.read_entry (s.mounts f.first_word).mounted_instance f.inode f.position s.world
        ≡ (ok (some de), s.world)
      → (dirs : ℕ) → read_entries f dirs s ≡ ret (replicate dirs de) s
  unfolding read_entries
  read_entries-replicate s f de m gives zero = refl
  read_entries-replicate s f de m gives (suc dirs) =
      rw
        (
          instance_of_small f (omega (arith, m.0)),
          mount_at-ret s f.first_word m.0,
          type_at-ret s _ m.3 m.2 m.4,
          call-ret _ s _ gives,
          read_entries-replicate s f de m gives dirs,
        )
        refl

  -- On an open directory of a mount point in use, where the driver's answer at the position of the
  -- file is an entry and does not change the driver's state, `vfs_read_directory` fills the whole
  -- buffer with copies of this one entry and leaves the position as it was.
  pub vfs_read_directory-replicate :
      (s : Vfs W) (fd dirs : ℕ) (de : Dirent) (m : IsMounted s (s.files fd).first_word)
      → fd < max_global_files
      → (s.files fd).is_device ≡ false
      → (s.files fd).directory ≡ true
      → m.3.read_entry
          (s.mounts (s.files fd).first_word).mounted_instance
          (s.files fd).inode
          (s.files fd).position
          s.world
        ≡ (ok (some de), s.world)
      → vfs_read_directory (pos fd) dirs s ≡ ret (replicate dirs de) s
  unfolding vfs_read_directory read_entries
  vfs_read_directory-replicate s fd dirs de m b no_device dir gives =
      rw (in_table_guard fd b, file_at-ret s fd b, no_device, dir)
        (read_entries-replicate s (s.files fd) de m gives dirs)
