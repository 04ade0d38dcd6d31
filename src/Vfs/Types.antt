-- ===== src/Vfs/Types.antt =====
-- include/trollos/vfs.h and the static tables of kernel/vfs.c. `W` is the state behind the file
-- systems and the devices, which the function pointers of both read and change.
use trollos.Base.{
  ℕ, ◌-◌, ◌^◌, Bool, Option, none, some, List, if◌then◌else◌, ltb, Ret, ok, err, ret, fail, Cmd,
  crash, update,
}
use trollos.Base.Int.{ℤ, pos, negsuc, slot}
use trollos.Device.Types.{DeviceType}
use trollos.Stat.{Stat, Dirent}

abbrev pub max_global_files : ℕ
max_global_files = 1024

abbrev pub max_mount_points : ℕ
max_mount_points = 16

abbrev pub max_file_systems : ℕ
max_file_systems = 4

-- `struct VFSFSType` without `used`. A call that succeeds hands back what it writes through its
-- out parameters: `mount` an instance and its root inode, `read` the bytes (as many as it returns),
-- `read_directory` an entry, or none where it returns 0. `_umount` is never called.
pub record FsType (W : Type 0) : Type 0 where
  pub name : List ℕ
  pub mount_fs : ℕ → W → Ret (ℕ × ℕ) × W
  pub stat_name : ℤ → ℕ → List ℕ → W → Ret Stat × W
  pub stat_inode : ℤ → ℕ → W → Ret Stat × W
  pub read_file : ℤ → ℕ → ℕ → ℤ → W → Ret (List ℕ) × W
  pub read_entry : ℤ → ℕ → ℤ → W → Ret (Option Dirent) × W

-- `struct VFSFileEntry`. The union `data` is two words: the first is `data.dev.dev` and also
-- `data.fs.instance`, the second is `data.fs.inode`.
pub record FileEntry : Type 0 where
  pub is_used : Bool
  pub is_device : Bool
  pub can_read : Bool
  pub can_write : Bool
  pub directory : Bool
  pub unsupported : Bool
  pub position : ℤ
  pub ref : ℤ
  pub mode : ℕ
  pub first_word : ℕ
  pub inode : ℕ

-- `data.fs.instance`: the first word as an `int`.
abbrev pub instance_of : FileEntry → ℤ
instance_of f = let w = f.first_word in if ltb w (2 ^ 31) then pos w else negsuc (2 ^ 32 - w - 1)

-- `struct VFSMountPoint`.
pub record MountPoint : Type 0 where
  pub is_used : Bool
  pub open_files : ℤ
  pub dev : ℕ
  pub inode : ℕ
  pub mounted_fs : ℕ
  pub mounted_instance : ℤ
  pub mounted_dev : ℕ
  pub mounted_ino : ℕ

-- `vfs_file`, `_vfs_type` (a slot that is not used is `none`) and `_vfs_mount`.
pub record Vfs (W : Type 0) : Type 0 where
  pub files : ℕ → FileEntry
  pub types : ℕ → Option (FsType W)
  pub mounts : ℕ → MountPoint
  pub world : W

-- What the file system reads of a `struct Device`: its type, and the `read` and `write` of its
-- `blockdev`, where they are set. `read` returns the bytes that it writes to its buffer.
pub record DeviceInfo (W : Type 0) : Type 0 where
  pub device_type : DeviceType
  pub block_read : Option (ℕ → ℤ → ℕ → W → Ret (List ℕ) × W)
  pub block_write : Option (List ℕ → W → Ret ℕ × W)

-- kernel/device.c and kernel/modules/chardev.c as the file system calls them: `device_lookup`,
-- and `chardev_read` and `chardev_write` on the device that it found.
pub record DeviceLayer (W : Type 0) : Type 0 where
  pub device_lookup : ℕ → W → Option (DeviceInfo W)
  pub chardev_read : ℕ → ℕ → W → Ret (List ℕ) × W
  pub chardev_write : ℕ → List ℕ → W → Ret ℕ × W

module _ {W : Type 0} where
  -- vfs_file[fd]
  unfoldable pub file_at : ℤ → Cmd (Vfs W) FileEntry
  file_at fd s = elim (slot fd max_global_files) [ none ↦ crash s | some i ↦ ret (s.files i) s ]

  -- vfs_file[fd] = f
  unfoldable pub set_file : ℤ → FileEntry → Cmd (Vfs W) (Unit {0})
  set_file fd f s = elim (slot fd max_global_files) [
    | none ↦ crash s
    | some i ↦ ret tt (record s { files = update s.files i f })
  ]

  -- _vfs_mount[mp]
  unfoldable pub mount_at : ℤ → Cmd (Vfs W) MountPoint
  mount_at mp s = elim (slot mp max_mount_points) [ none ↦ crash s | some i ↦ ret (s.mounts i) s ]

  -- _vfs_mount[mp] = m
  unfoldable pub set_mount : ℤ → MountPoint → Cmd (Vfs W) (Unit {0})
  set_mount mp m s = elim (slot mp max_mount_points) [
    | none ↦ crash s
    | some i ↦ ret tt (record s { mounts = update s.mounts i m })
  ]

  -- A call through a function pointer.
  unfoldable pub call : {A : Type 0} → (W → Ret A × W) → Cmd (Vfs W) A
  call f s =
      let (r, w) = f s.world in
      elim r [ ok a ↦ ret a (record s { world = w }) | err e ↦ fail e (record s { world = w }) ]

  -- _vfs_type[fs], whose function pointers are null in a slot that is not used.
  unfoldable pub type_at : ℕ → Cmd (Vfs W) (FsType W)
  type_at fs s =
      if ltb fs max_file_systems
      then elim (s.types fs) [ none ↦ crash s | some t ↦ ret t s ]
      else crash s
