-- ===== src/Stat.antt =====
-- include/sys/stat.h, include/sys/types.h and include/dirent.h: file attributes, device numbers
-- and directory entries.
use Prim.Native.Nat.{bit_and}
use trollos.Base.{ℕ, ◌+◌, ◌*◌, ◌/◌, ◌%◌, ◌^◌, Bool, List, ◌==◌}
use trollos.Base.Int.{ℤ}

pub record Stat : Type 0 where
  pub st_dev : ℕ
  pub st_ino : ℕ
  pub st_mode : ℕ
  pub st_nlink : ℕ
  pub st_uid : ℤ
  pub st_gid : ℤ
  pub st_rdev : ℕ
  pub st_size : ℤ
  pub st_blksize : ℕ
  pub st_blocks : ℕ
  pub st_mtime : ℕ

abbrev pub s_ifmt : ℕ
s_ifmt = 0o170000

abbrev pub s_ifdir : ℕ
s_ifdir = 0o040000

abbrev pub s_ifchr : ℕ
s_ifchr = 0o020000

abbrev pub s_ifblk : ℕ
s_ifblk = 0o060000

abbrev pub s_ifreg : ℕ
s_ifreg = 0o100000

abbrev pub s_ififo : ℕ
s_ififo = 0o010000

abbrev pub s_iflnk : ℕ
s_iflnk = 0o120000

abbrev pub s_ifsock : ℕ
s_ifsock = 0o140000

unfoldable pub s_isdir : ℕ → Bool
s_isdir mode = bit_and mode s_ifmt == s_ifdir

unfoldable pub s_ischr : ℕ → Bool
s_ischr mode = bit_and mode s_ifmt == s_ifchr

unfoldable pub s_isblk : ℕ → Bool
s_isblk mode = bit_and mode s_ifmt == s_ifblk

unfoldable pub s_isreg : ℕ → Bool
s_isreg mode = bit_and mode s_ifmt == s_ifreg

-- The macros of sys/types.h on a 32-bit device number.
unfoldable pub makedev : ℕ → ℕ → ℕ
makedev maj min = maj % 2 ^ 16 * 2 ^ 16 + min % 2 ^ 16

unfoldable pub minor : ℕ → ℕ
minor dev = dev % 2 ^ 16

unfoldable pub major : ℕ → ℕ
major dev = dev / 2 ^ 16

abbrev pub name_max : ℕ
name_max = 1024

-- `struct dirent`, its name without the terminator.
pub record Dirent : Type 0 where
  pub d_ino : ℕ
  pub d_mode : ℕ
  pub d_name : List ℕ
