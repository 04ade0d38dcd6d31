-- ===== src/Romfs.antt =====
-- kernel/modules/fs/romfs.c: the file system of a romfs image on a block device. A file is named by
-- the number of its 16-byte block; an image is a function from offsets to bytes.
pub mod Directory
use Prim.Native.Nat.{bit_and, bit_or}
use trollos.Base.{
  ℕ, zero, suc, ◌+◌, ◌-◌, ◌*◌, ◌/◌, ◌%◌, ◌^◌, Bool, true, false, not, ◌&&◌, ◌||◌, Option, none,
  some, List, [], ◌∷◌, if◌then◌else◌, ltb, leb, ◌==◌, update, find_first, find_from, get_or, drop,
  take, ret, fail, fault, diverge, Cmd, pure, throw, crash, ◌>>=◌, ◌>>◌, enoent, enotdir, einval,
  enomem,
}
use trollos.Base.Outcome.{Outcome}
use trollos.Base.Int.{ℤ, pos, negsuc}
use trollos.CString.{strn_eq, c_string}
use trollos.Stat.{
  Stat, Dirent, name_max, makedev, s_ifdir, s_ifreg, s_iflnk, s_ifblk, s_ifchr, s_ifsock, s_ififo,
}

abbrev pub max_romfs : ℕ
max_romfs = 2

-- `struct Instance`.
pub record Instance : Type 0 where
  pub used : Bool
  pub device : ℕ
  pub root_inode : ℕ

abbrev pub Image : Type 0
Image = ℕ → ℕ

-- `_instance`, and what the devices hold: `none` where `device_lookup` finds no block device.
-- Reading a device copies its bytes and changes no state. `blksize` is that of the devices.
pub record Romfs : Type 0 where
  pub instance_at : ℕ → Instance
  pub image : ℕ → Option Image
  pub blksize : ℕ

-- `_read_unaligned` of `bytes` bytes, which a block device hands back.
unfoldable pub bytes_at : Image → ℕ → ℕ → List ℕ
bytes_at image offset zero = []
bytes_at image offset (suc n) = image offset ∷ bytes_at image (offset + 1) n

unfoldable pub read_unaligned : ℕ → ℕ → ℕ → Cmd Romfs (List ℕ)
read_unaligned dev bytes offset s =
    if bytes == 0
    then ret [] s
    else elim (s.image dev) [ none ↦ fault | some image ↦ ret (bytes_at image offset bytes) s ]

-- MAKE_INT(buff + i)
unfoldable pub make_int : List ℕ → ℕ → ℕ
make_int buff i =
    get_or buff i 0 * 2 ^ 24
    + get_or buff (i + 1) 0 * 2 ^ 16
    + get_or buff (i + 2) 0 * 2 ^ 8
    + get_or buff (i + 3) 0

-- `_byte_to_mode`: the mode, and the device number where it is set.
unfoldable pub byte_to_mode : ℕ → ℕ → ℕ × Option ℕ
byte_to_mode byte special =
    let kind = byte % 8 in
    let rdev = makedev (special / 2 ^ 16) (special % 2 ^ 16) in
    let mode : ℕ =
      (if kind == 1
        then bit_or s_ifdir 0o444
        else if kind == 2
        then bit_or s_ifreg 0o444
        else if kind == 3
        then bit_or s_iflnk 0o444
        else if kind == 4
        then s_ifblk
        else if kind == 5
        then s_ifchr
        else if kind == 6
        then bit_or s_ifsock 0o444
        else bit_or s_ififo 0o444) in
    (
      if bit_and byte 8 == 0 then mode else bit_or mode 0o111,
      if kind == 4 || kind == 5 then some rdev else none,
    )

-- MAKE_INT(...) >> 4 as an inode: the value is an `int`, whose sign is shifted in.
unfoldable pub block_of : ℕ → ℕ
block_of n = if ltb n (2 ^ 31) then n / 16 else n / 16 + (2 ^ 32 - 2 ^ 28)

-- MAKE_INT(...) as an `off_t`.
unfoldable pub signed_size : ℕ → ℤ
signed_size n = if ltb n (2 ^ 31) then pos n else negsuc (2 ^ 32 - n - 1)

-- (MAKE_INT(...) + b - 1) / b as a `blkcnt_t`; the division of a negative number drops its rest.
unfoldable pub block_count : ℕ → ℕ → ℕ
block_count n b =
    if ltb n (2 ^ 31) then (n + b - 1) / b else (2 ^ 64 - (2 ^ 32 + 1 - n - b) / b) % 2 ^ 64

-- Inodes relative to the root and in the image, and the place of a block: words of 32 bits.
abbrev pub absolute : ℕ → Instance → ℕ
absolute ino t = (ino + t.root_inode) % 2 ^ 32

abbrev pub relative : ℕ → Instance → ℕ
relative inode t = (inode + 2 ^ 32 - t.root_inode) % 2 ^ 32

abbrev pub place : ℕ → ℕ → ℕ
place inode block = (inode * 16 + block * 16) % 2 ^ 32

-- _instance[i]
unfoldable pub get_instance : ℕ → Cmd Romfs Instance
get_instance i s = if ltb i max_romfs then ret (s.instance_at i) s else fault

abbrev pub node_size : ℕ
node_size = 16 + name_max + 1

-- The loop of `fs_romfs_read_directory` over the files of a directory, with `n` rounds: the node of
-- file number `at`, counted from `i`, or none behind the last one.
unfoldable pub nth_node : ℕ → ℕ → ℕ → ℕ → ℕ → Cmd Romfs (Option (ℕ × List ℕ))
nth_node zero dev inode i at = λ s. diverge
nth_node (suc n) dev inode i at = if inode == 0 then pure none else (do
  buff ← read_unaligned dev node_size (place inode 0)
  if i == at
      then pure (some (inode, buff))
      else nth_node n dev (block_of (make_int buff 0)) (i + 1) at)

-- The first file of a directory; that of the root is the root.
unfoldable pub first_inode : ℕ → Instance → List ℕ → Cmd Romfs ℕ
first_inode inode t buff =
    if inode == t.root_inode
    then pure inode
    else if get_or buff 3 0 % 8 == 1
    then pure (block_of (make_int buff 4))
    else throw enotdir

unfoldable pub entry_of : Instance → ℕ × List ℕ → Dirent
entry_of t (inode, buff) = record {
  d_ino = relative inode t;
  d_mode = (byte_to_mode (get_or buff 3 0) (make_int buff 4)).0;
  d_name = c_string (take name_max (drop 16 buff));
}

-- `fs_romfs_read_directory`, with `n` rounds for its loop.
unfoldable pub read_directory : ℕ → ℕ → ℕ → ℤ → Cmd Romfs (Option Dirent)
read_directory n i ino (negsuc p) = do t ← get_instance i; throw einval
read_directory n i ino (pos p) = do
  t ← get_instance i
  buff ← read_unaligned t.device 16 (place (absolute ino t) 0)
  first ← first_inode (absolute ino t) t buff
  found ← nth_node n t.device first 0 p
  elim found [ none ↦ pure none | some node ↦ pure (some (entry_of t node)) ]

abbrev pub has_zero : List ℕ → Bool
has_zero [] = false
has_zero (c ∷ s) = c == 0 || has_zero s

-- The first loop of `fs_romfs_read` from block `i` on, `n` blocks: `i` behind the loop.
unfoldable pub name_blocks : ℕ → ℕ → ℕ → ℕ → Cmd Romfs ℕ
name_blocks zero dev inode i = pure i
name_blocks (suc n) dev inode i = do
  node ← read_unaligned dev 16 (place inode (i + 1))
  if has_zero node then pure i else name_blocks n dev inode (i + 1)

-- The second read of `fs_romfs_read`, of a file of `size` bytes whose contents start behind `block`
-- blocks. Where the end of the file lies before `offset`, or its size is negative as an `int`, the
-- count becomes one of more bytes than the buffer has.
unfoldable pub read_contents : Instance → ℕ → ℕ → ℕ → ℕ → ℕ → Cmd Romfs (List ℕ)
read_contents t inode block size bytes offset =
    if leb (2 ^ 31) size
    then crash
    else if ltb size (offset + bytes)
    then (if ltb size offset
        then crash
        else read_unaligned t.device (size - offset) (place inode block + offset))
    else read_unaligned t.device bytes (place inode block + offset)

-- `fs_romfs_read`
unfoldable pub romfs_read : ℕ → ℕ → ℕ → ℕ → Cmd Romfs (List ℕ)
romfs_read i ino bytes offset = do
  t ← get_instance i
  node ← read_unaligned t.device 16 (place (absolute ino t) 0)
  blocks ← name_blocks 16 t.device (absolute ino t) 0
  read_contents t (absolute ino t) (blocks + 2) (make_int node 8) bytes offset

-- The attributes that `fs_romfs_stat_inode` fills in.
unfoldable pub stat_of : Instance → ℕ → List ℕ → ℕ → Stat
stat_of t ino buff size = record {
  st_dev = t.device;
  st_ino = ino;
  st_rdev = elim (byte_to_mode (get_or buff 3 0) (make_int buff 4)).1 [ none ↦ 0 | some d ↦ d ];
  st_mode = (byte_to_mode (get_or buff 3 0) (make_int buff 4)).0;
  st_nlink = 1;
  st_uid = pos 0;
  st_gid = pos 0;
  st_size = signed_size (make_int buff 8);
  st_blksize = size;
  st_blocks = block_count (make_int buff 8) size;
  st_mtime = 0;
}

-- `fs_romfs_stat_inode`
unfoldable pub stat_inode : ℕ → ℕ → Cmd Romfs Stat
stat_inode i ino = do
  t ← get_instance i
  buff ← read_unaligned t.device 16 (place (absolute ino t) 0)
  λ s. ret (stat_of t (relative (absolute ino t) t) buff s.blksize) s

-- The loop of `fs_romfs_stat`, with `n` rounds: the file of a directory with the name.
unfoldable pub find_name : ℕ → ℕ → List ℕ → ℕ → Cmd Romfs ℕ
find_name zero dev name inode = λ s. diverge
find_name (suc n) dev name inode = if inode == 0 then throw enoent else (do
  buff ← read_unaligned dev node_size (place inode 0)
  if strn_eq name (drop 16 buff) name_max
      then pure inode
      else find_name n dev name (block_of (make_int buff 0)))

abbrev pub is_empty_name : List ℕ → Bool
is_empty_name [] = true
is_empty_name (c ∷ s) = c == 0

-- `fs_romfs_stat`, with `n` rounds for its loop.
unfoldable pub stat_name : ℕ → ℕ → ℕ → List ℕ → Cmd Romfs Stat
stat_name n i ino name = do
  t ← get_instance i
  buff ← read_unaligned t.device node_size (place (absolute ino t) 0)
  if is_empty_name name then stat_inode i ino else (do
    first ← first_inode (absolute ino t) t buff
    found ← find_name n t.device name first
    stat_inode i (relative found t))

abbrev pub magic : List ℕ
magic = b'-' ∷ b'r' ∷ b'o' ∷ b'm' ∷ b'1' ∷ b'f' ∷ b's' ∷ b'-' ∷ []

abbrev pub is_unused : Romfs → ℕ → Bool
is_unused s q = not (s.instance_at q).used

-- From the read of the first 512 bytes on, in slot `q`.
unfoldable pub check_image : ℕ → List ℕ → Cmd Romfs (ℕ × ℕ)
check_image q buff s =
    if not (strn_eq magic buff 8)
    then fail einval s
    else elim (find_from (λ i. get_or buff i 0 == 0) (512 - 16) 16) [
      | none ↦ fail einval s
      | some i ↦
          ret (q, 0)
            (record s {
              instance_at =
                  update s.instance_at q
                    (record (s.instance_at q) { used = true; root_inode = (i + 16) / 16 });
            })
    ]

-- `fs_romfs_mount`: the instance, and the root inode that it writes through its pointer.
unfoldable pub romfs_mount : ℕ → Cmd Romfs (ℕ × ℕ)
romfs_mount dev s = elim (find_first (is_unused s) max_romfs) [
  | none ↦ fail enomem s
  | some q ↦
      (do
        λ t. ret tt (record t {
          instance_at = update t.instance_at q (record (t.instance_at q) { device = dev });
        })
        buff ← read_unaligned dev 512 0
        check_image q buff)
        s
]
