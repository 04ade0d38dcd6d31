-- ===== src/Vfs/Files.antt =====
-- kernel/vfs.c: `_alloc_file` and the operations on open files. A file number is an `int` that may
-- be negative; `vfs_file[fd]` outside the table is a fault.
use trollos.Base.{
  ℕ, zero, suc, ◌-◌, ◌^◌, Bool, true, false, Option, none, some, List, [], ◌∷◌, ◌||◌, not,
  if◌then◌else◌, ◌==◌, ret, fail, ebadf, eperm, enosys, einval, enodev, eisdir, eacces, enotdir,
  emfile, Cmd, pure, throw, crash, ◌>>=◌, ◌>>◌, find_first, update, length,
}
use trollos.Base.Int.{ℤ, pos, negsuc, ◌+ℤ◌, ◌-ℤ◌, ltℤ}
use trollos.Device.Types.{is_char, is_block}
use trollos.Stat.{Stat, Dirent, s_isdir, s_isblk, s_ischr}
use trollos.Vfs.Types.{
  FileEntry, Vfs, DeviceInfo, DeviceLayer, max_global_files, instance_of, file_at, set_file,
  mount_at, set_mount, call, type_at,
}
use trollos.Vfs.Path.{vfs_stat, vfs_stat_inode}

abbrev pub is_zero : ℤ → Bool
is_zero (pos n) = n == 0
is_zero (negsuc n) = false

-- The entry that `vfs_open` fills in. Writing `data.dev.dev` overwrites `data.fs.instance`.
unfoldable pub opened_entry : FileEntry → ℕ → Stat → FileEntry
opened_entry f mp st =
    let base = record f {
      mode = st.st_mode;
      is_device = false;
      can_read = true;
      can_write = false;
      unsupported = false;
      directory = false;
      position = pos 0;
      inode = st.st_ino;
      first_word = mp;
      ref = pos 1;
    } in
    if s_isblk st.st_mode || s_ischr st.st_mode
    then record base { is_device = true; first_word = st.st_rdev; can_write = true }
    else if s_isdir st.st_mode
    then record base { directory = true }
    else base

module _ {W : Type 0} where
  abbrev pub is_free : Vfs W → ℕ → Bool
  is_free s i = not (s.files i).is_used

  -- `_alloc_file`
  unfoldable pub alloc_file : Cmd (Vfs W) ℕ
  alloc_file s = elim (find_first (is_free s) max_global_files) [
    | none ↦ fail emfile s
    | some i ↦ ret i (record s { files = update s.files i (record (s.files i) { is_used = true }) })
  ]

  unfoldable pub vfs_tell : ℤ → Cmd (Vfs W) ℤ
  vfs_tell fd = do f ← file_at fd; pure f.position

  -- `s` is not initialised where `vfs_stat_inode` fails.
  abbrev pub ignore_error : {A : Type 0} → Cmd (Vfs W) A → Cmd (Vfs W) A
  ignore_error m s = elim (m s) [ fail e t ↦ crash t | other ↦ other ]

  unfoldable pub vfs_seek : ℤ → ℤ → ℕ → Cmd (Vfs W) (Unit {0})
  vfs_seek fd offset whence =
      if whence == 0
      then (do f ← file_at fd; set_file fd (record f { position = offset }))
      else if whence == 1
      then (do f ← file_at fd; set_file fd (record f { position = f.position +ℤ offset }))
      else if whence == 2
      then (do
        f ← file_at fd
        st ← ignore_error (vfs_stat_inode (instance_of f) f.inode)
        f ← file_at fd
        set_file fd (record f { position = st.st_size +ℤ offset }))
      else throw einval

  -- `if (err > 0) vfs_file[fd].pos += err; return err;`
  unfoldable pub advance : ℤ → List ℕ → Cmd (Vfs W) (List ℕ)
  advance fd bytes = do
    f ← file_at fd
    set_file fd (record f { position = f.position +ℤ pos (length bytes) })
    pure bytes

  module _ (devices : DeviceLayer W) where
    -- `device_lookup`, and the type of the device; a null pointer is `none`.
    abbrev pub lookup : ℕ → Cmd (Vfs W) (Option (DeviceInfo W))
    lookup dev s = ret (devices.device_lookup dev s.world) s

    abbrev pub write_device : ℕ → List ℕ → Option (DeviceInfo W) → Cmd (Vfs W) ℕ
    write_device dev buf none = crash
    write_device dev buf (some d) =
        if is_block d.device_type
        then elim d.block_write [ none ↦ throw enosys | some write ↦ call (write buf) ]
        else if is_char d.device_type
        then call (devices.chardev_write dev buf)
        else throw enosys

    unfoldable pub vfs_write : ℤ → List ℕ → Cmd (Vfs W) ℕ
    vfs_write fd buf = do
      f ← file_at fd
      if not f.is_device
          then throw eperm
          else (do d ← lookup f.first_word; write_device f.first_word buf d)

    abbrev pub read_device : ℤ → FileEntry → ℕ → Option (DeviceInfo W) → Cmd (Vfs W) (List ℕ)
    read_device fd f count none = throw enodev
    read_device fd f count (some d) =
        if is_char d.device_type
        then call (devices.chardev_read f.first_word count)
        else elim d.block_read [
          | none ↦ throw enosys
          | some read ↦ do bytes ← call (read f.first_word f.position count); advance fd bytes
        ]

    abbrev pub read_fs : ℤ → FileEntry → ℕ → Cmd (Vfs W) (List ℕ)
    read_fs fd f count =
        if f.directory then throw eisdir else if not f.can_read then throw eacces else (do
          m ← mount_at (instance_of f)
          t ← type_at m.mounted_fs
          bytes ← call (t.read_file m.mounted_instance f.inode count f.position)
          advance fd bytes)

    unfoldable pub vfs_read : ℤ → ℕ → Cmd (Vfs W) (List ℕ)
    vfs_read fd count =
        if ltℤ fd (negsuc 0) || not (ltℤ fd (pos max_global_files)) then throw ebadf else (do
          f ← file_at fd
          if not f.is_used
              then throw ebadf
              else if f.is_device
              then (do d ← lookup f.first_word; read_device fd f count d)
              else read_fs fd f count)

  -- The loop of `vfs_read_directory`, for `dirs` more entries. It returns the entries written to
  -- `de`, whose number is what the function returns.
  unfoldable pub read_entries : FileEntry → ℕ → Cmd (Vfs W) (List Dirent)
  read_entries f zero = pure []
  read_entries f (suc dirs) = do
    m ← mount_at (instance_of f)
    t ← type_at m.mounted_fs
    found ← call (t.read_entry m.mounted_instance f.inode f.position)
    elim found [
      | none ↦ pure []
      | some entry ↦ (do rest ← read_entries f dirs; pure (entry ∷ rest))
    ]

  unfoldable pub vfs_read_directory : ℤ → ℕ → Cmd (Vfs W) (List Dirent)
  vfs_read_directory fd dirs =
      if ltℤ fd (pos 0) || not (ltℤ fd (pos max_global_files)) then throw ebadf else (do
        f ← file_at fd
        if f.is_device
            then throw enotdir
            else if not f.directory
            then throw enotdir
            else read_entries f dirs)

  unfoldable pub vfs_open : List ℕ → Cmd (Vfs W) ℕ
  vfs_open path = do
    (mp, st) ← vfs_stat path
    fd ← alloc_file
    f ← file_at (pos fd)
    set_file (pos fd) (opened_entry f mp st)
    m ← mount_at (pos mp)
    set_mount (pos mp) (record m { open_files = m.open_files +ℤ pos 1 })
    pure fd

  unfoldable pub vfs_open_device : ℕ → Cmd (Vfs W) ℕ
  vfs_open_device device = do
    fd ← alloc_file
    f ← file_at (pos fd)
    set_file (pos fd) (record f {
      mode = 0;
      can_read = true;
      unsupported = false;
      directory = false;
      position = pos 0;
      inode = 2 ^ 32 - 1;
      is_device = true;
      first_word = device;
      can_write = true;
      ref = pos 1;
    })
    pure fd

  unfoldable pub vfs_close : ℤ → Cmd (Vfs W) (Unit {0})
  vfs_close fd = if ltℤ fd (pos 0) || not (ltℤ fd (pos max_global_files)) then throw ebadf else (do
    f ← file_at fd
    set_file fd (record f { ref = f.ref -ℤ pos 1 })
    f ← file_at fd
    if is_zero f.ref
        then (do
          set_file fd (record f { is_used = false })
          m ← mount_at (instance_of f)
          set_mount (instance_of f) (record m { open_files = m.open_files -ℤ pos 1 }))
        else pure tt)
