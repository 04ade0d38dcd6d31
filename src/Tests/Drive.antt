-- ===== src/Tests/Drive.antt =====
-- A small file system and tables of kernel/vfs.c with it mounted: file 0 is a regular file, file 1
-- a directory and file 2 a character device, all open.
use trollos.Base.{
  ℕ, zero, suc, ◌+◌, ◌-◌, ◌^◌, ◌<◌, ◌≡◌, refl, sym, Bool, true, false, Option, none, some, [], ◌∷◌,
  arith, true_ne_false, ok,
}
use trollos.Base.Int.{pos}
use trollos.Stat.{Stat, Dirent}
use trollos.Device.Types.{char}
use trollos.Vfs.Types.{FsType, FileEntry, MountPoint, Vfs, DeviceLayer, max_global_files}
use trollos.Vfs.Valid.{IsMounted, AllMounted, IsValid}
use trollos.CString.{str_eq}

-- The attributes of every inode: a regular file of 2 bytes.
abbrev pub plain : Stat
plain = record {
  st_dev = 1;
  st_ino = 5;
  st_mode = 0o100644;
  st_nlink = 1;
  st_uid = pos 0;
  st_gid = pos 0;
  st_rdev = 0;
  st_size = pos 2;
  st_blksize = 512;
  st_blocks = 1;
  st_mtime = 0;
}

abbrev pub entry : Dirent
entry = record { d_ino = 5; d_mode = 0o100644; d_name = b'a' ∷ [] }

-- A file system whose state counts the bytes read.
abbrev pub driver : FsType ℕ
driver = record {
  name = b'r' ∷ b'o' ∷ b'm' ∷ [];
  mount_fs = λ dev w. (ok (0, 5), w);
  stat_name = λ i ino word w. (ok plain, w);
  stat_inode = λ i ino w. (ok plain, w);
  read_file = λ i ino count at w. (ok (7 ∷ 8 ∷ []), w + 2);
  read_entry = λ i ino at w. (ok (some entry), w);
}

abbrev pub open_entry : Bool → Bool → ℕ → FileEntry
open_entry dir dev word = record {
  is_used = true;
  is_device = dev;
  can_read = true;
  can_write = dev;
  directory = dir;
  unsupported = false;
  position = pos 0;
  ref = pos 1;
  mode = 0;
  first_word = word;
  inode = 5;
}

abbrev pub free_entry : FileEntry
free_entry = record (open_entry false false 0) { is_used = false }

abbrev pub sample_files : ℕ → FileEntry
sample_files zero = open_entry false false 0
sample_files (suc zero) = open_entry true false 0
sample_files (suc (suc zero)) = open_entry false true 65537
sample_files (suc (suc (suc n))) = free_entry

abbrev pub sample_types : ℕ → Option (FsType ℕ)
sample_types zero = some driver
sample_types (suc n) = none

abbrev pub root_point : MountPoint
root_point = record {
  is_used = true;
  open_files = pos 2;
  dev = 2 ^ 32 - 1;
  inode = 2 ^ 32 - 1;
  mounted_fs = 0;
  mounted_instance = pos 0;
  mounted_dev = 1;
  mounted_ino = 0;
}

abbrev pub sample_mounts : ℕ → MountPoint
sample_mounts zero = root_point
sample_mounts (suc n) = record root_point { is_used = false }

abbrev pub sample : Vfs ℕ
sample = record { files = sample_files; types = sample_types; mounts = sample_mounts; world = 0 }

abbrev pub layer : DeviceLayer ℕ
layer = record {
  device_lookup =
      λ dev w. some (record { device_type = char; block_read = none; block_write = none });
  chardev_read = λ dev count w. (ok [], w);
  chardev_write = λ dev bytes w. (ok 0, w);
}

abbrev pub root-IsMounted : IsMounted sample 0
root-IsMounted = (omega arith, refl, omega arith, driver, refl)

pub sample-AllMounted : AllMounted sample
sample-AllMounted zero b u = root-IsMounted
sample-AllMounted (suc i) b u = absurd (true_ne_false (sym u))

pub sample-IsValid : IsValid sample
sample-IsValid = record {
  held = held;
  placed = placed;
  mounted = sample-AllMounted;
  distinct = distinct;
}
  where
    held :
        (i : ℕ)
        → i < max_global_files
        → (sample_files i).is_used ≡ true
        → (sample_files i).ref ≡ pos 1
    held zero b u = refl
    held (suc zero) b u = refl
    held (suc (suc zero)) b u = refl
    held (suc (suc (suc n))) b u = absurd (true_ne_false (sym u))

    placed :
        (i : ℕ)
        → i < max_global_files
        → (sample_files i).is_used ≡ true
        → (sample_files i).is_device ≡ false
        → IsMounted sample (sample_files i).first_word
    placed zero b u d = root-IsMounted
    placed (suc zero) b u d = root-IsMounted
    placed (suc (suc zero)) b u d = absurd (true_ne_false d)
    placed (suc (suc (suc n))) b u d = absurd (true_ne_false (sym u))

    distinct :
        (i j : ℕ) (t u : FsType ℕ)
        → i < 4
        → j < 4
        → sample_types i ≡ some t
        → sample_types j ≡ some u
        → str_eq t.name u.name ≡ true
        → i ≡ j
    distinct zero zero t u bi bj ei ej h = refl
    distinct zero (suc j) t u bi bj ei ej h = cc
    distinct (suc i) j t u bi bj ei ej h = cc
