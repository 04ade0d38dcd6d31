-- ===== src/Vfs/Mounts.antt =====
-- kernel/vfs.c: `vfs_fs_register` and `vfs_mount`.
use trollos.Base.{
  ℕ, zero, suc, ◌+◌, ◌-◌, ◌^◌, Bool, true, false, Option, none, some, List, [], ◌∷◌, if◌then◌else◌,
  ◌==◌, not, Ret, ok, err, ret, fail, eexist, enomem, einval, errno_number, Cmd, ◌>>=◌, ◌>>◌,
  find_first, update, take,
}
use trollos.Base.Outcome.{Outcome}
use trollos.Base.Int.{pos, negsuc, ◌+ℤ◌}
use trollos.CString.{str_eq}
use trollos.Vfs.Types.{
  FsType, Vfs, max_mount_points, max_file_systems, mount_at, set_mount, type_at,
}
use trollos.Vfs.Path.{vfs_stat}

abbrev pub is_root : List ℕ → Bool
is_root [] = false
is_root (c ∷ []) = c == b'/'
is_root (c ∷ d ∷ s) = false

module _ {W : Type 0} where
  -- The loop of `vfs_fs_register` from slot `i` on, `n` slots: an error if the name is taken, else
  -- the last free slot, `q` where there is none from `i` on.
  unfoldable pub register_scan :
      (ℕ → Option (FsType W)) → List ℕ → ℕ → ℕ → Option ℕ → Ret (Option ℕ)
  register_scan types name zero i q = ok q
  register_scan types name (suc n) i q = elim (types i) [
    | none ↦ register_scan types name n (i + 1) (some i)
    | some t ↦
        let rest = register_scan types name n (i + 1) q in
        if str_eq t.name name then err eexist else rest
  ]

  unfoldable pub vfs_fs_register : FsType W → Cmd (Vfs W) ℕ
  vfs_fs_register fs s =
      let registered = record fs { name = take 15 fs.name } in
      elim (register_scan s.types registered.name max_file_systems 0 none) [
        | err e ↦ fail e s
        | ok none ↦ fail enomem s
        | ok (some q) ↦ ret q (record s { types = update s.types q (some registered) })
      ]

  abbrev pub is_named : Vfs W → List ℕ → ℕ → Bool
  is_named s fs i = elim (s.types i) [ none ↦ false | some t ↦ str_eq t.name fs ]

  abbrev pub is_unmounted : Vfs W → ℕ → Bool
  is_unmounted s i = not (s.mounts i).is_used

  -- The mount point's place: "/" or the inode of a path, whose file system has one more open file.
  unfoldable pub set_place : List ℕ → ℕ → Cmd (Vfs W) (Unit {0})
  set_place path slot_number =
      if is_root path
      then (do
        m ← mount_at (pos slot_number)
        set_mount (pos slot_number) (record m { dev = 2 ^ 32 - 1; inode = 2 ^ 32 - 1 }))
      else (do
        (parent, st) ← vfs_stat path
        m ← mount_at (pos slot_number)
        set_mount (pos slot_number) (record m { dev = st.st_dev; inode = st.st_ino })
        p ← mount_at (pos parent)
        set_mount (pos parent) (record p { open_files = p.open_files +ℤ pos 1 }))

  -- What follows the call of `_mount`, whose result is stored whether it is an error or not.
  unfoldable pub finish_mount : ℕ → ℕ → ℕ → Vfs W → Ret (ℕ × ℕ) × W → Outcome (Vfs W) (Unit {0})
  finish_mount dev i n s (err e, w) =
      let failed = negsuc (errno_number e - 1) in
      fail e (record s {
        world = w;
        mounts = update s.mounts n (record (s.mounts n) { mounted_instance = failed });
      })
  finish_mount dev i n s (ok (number, root), w) = ret tt (record s {
    world = w;
    mounts = update s.mounts n (record (s.mounts n) {
      mounted_instance = pos number;
      mounted_ino = root;
      mounted_dev = dev;
      mounted_fs = i;
      open_files = pos 0;
      is_used = true;
    });
  })

  unfoldable pub start_mount : ℕ → ℕ → ℕ → Cmd (Vfs W) (Unit {0})
  start_mount dev i n = do t ← type_at i; λ s. finish_mount dev i n s (t.mount_fs dev s.world)

  unfoldable pub vfs_mount : ℕ → List ℕ → List ℕ → Cmd (Vfs W) (Unit {0})
  vfs_mount dev path fs s = elim (find_first (is_named s fs) max_file_systems) [
    | none ↦ fail einval s
    | some i ↦ elim (find_first (is_unmounted s) max_mount_points) [
      | none ↦ fail enomem s
      | some n ↦ (set_place path n >> start_mount dev i n) s
    ]
  ]
