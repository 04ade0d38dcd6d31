-- ===== src/Memblk.antt =====
-- kernel/modules/blockdev/memblk.c: block devices in memory. `D` is the state of the table of devices.
pub mod Bounds
use trollos.Base.{
  ℕ, zero, suc, ◌+◌, ◌-◌, ◌^◌, ◌%◌, Bool, true, false, not, ◌&&◌, Option, none, some, List, [], ◌∷◌,
  if◌then◌else◌, ltb, leb, ◌==◌, update, find_first, ret, fail, fault, Ret, ok, err, Cmd, enoent,
  eio, einval, ebadf, throw, pure,
}
use trollos.Base.Int.{ℤ, pos, negsuc, ltℤ, ◌+ℤ◌, ◌-ℤ◌}

abbrev pub max_memblk : ℕ
max_memblk = 4

-- `struct MemblkDescriptor`.
pub record MemblkDescriptor : Type 0 where
  pub addr : ℕ
  pub len : ℤ
  pub device : ℕ

-- `memblk`, the memory, and the table of devices.
pub record Memblk (D : Type 0) : Type 0 where
  pub memblk : ℕ → MemblkDescriptor
  pub memory : ℕ → ℕ
  pub devices : D

-- memcpy(buf, addr, count)
abbrev pub bytes_from : (ℕ → ℕ) → ℕ → ℕ → List ℕ
bytes_from memory a zero = []
bytes_from memory a (suc n) = memory a ∷ bytes_from memory (a + 1) n

unfoldable pub memblk_blksize : ℕ → ℕ
memblk_blksize device = 512

module _ {D : Type 0} where
  abbrev pub is_open : Memblk D → ℕ → Bool
  is_open s i = not (ltℤ (s.memblk i).len (pos 0))

  abbrev pub is_device : ℕ → Memblk D → ℕ → Bool
  is_device device s i = is_open s i && (s.memblk i).device == device

  unfoldable pub locate_device : ℕ → Memblk D → Option ℕ
  locate_device device s = find_first (is_device device s) max_memblk

  unfoldable pub memblk_alloc : Memblk D → Option ℕ
  memblk_alloc s = find_first (λ i. ltℤ (s.memblk i).len (pos 0)) max_memblk

  unfoldable pub memblk_return : ℕ → Memblk D → Memblk D
  memblk_return d s =
      if leb max_memblk d
      then s
      else record s { memblk = update s.memblk d (record (s.memblk d) { len = negsuc 0 }) }

  unfoldable pub memblk_return_all : ℕ → Memblk D → Memblk D
  memblk_return_all zero s = s
  memblk_return_all (suc n) s = memblk_return n (memblk_return_all n s)

  unfoldable pub memblk_init : Cmd (Memblk D) (Unit {0})
  memblk_init s = ret tt (memblk_return_all max_memblk s)

  unfoldable pub memblk_write : List ℕ → Cmd (Memblk D) ℕ
  memblk_write buf = throw ebadf

  -- From "if (pos < 0)" on: `count` bytes. A count that is negative is one of more than 2 ^ 31 bytes.
  unfoldable pub copy_out : MemblkDescriptor → ℤ → ℤ → Cmd (Memblk D) (List ℕ)
  copy_out m (negsuc p) count s = fail eio s
  copy_out m (pos p) (negsuc c) s = fault
  copy_out m (pos p) (pos c) s = ret (bytes_from s.memory (m.addr + p) c) s

  unfoldable pub memblk_read : ℕ → ℤ → ℕ → Cmd (Memblk D) (List ℕ)
  memblk_read device position count s = elim (locate_device device s) [
    | none ↦ fail enoent s
    | some blk ↦
        let m = s.memblk blk in
        if ltℤ m.len (position +ℤ pos count)
        then (if ltℤ m.len position then fail eio s else copy_out m position (m.len -ℤ position) s)
        else copy_out m position (pos count) s
  ]

  unfoldable pub memblk_devsize : ℕ → Cmd (Memblk D) ℤ
  memblk_devsize device s = elim (locate_device device s) [
    | none ↦ fail enoent s
    | some blk ↦ ret (s.memblk blk).len s
  ]

  -- `memblk_open`; a slot number that is negative is outside the table. `register` is
  -- `device_register("memblk0", &dev, ...)`, which hands back the number that it writes.
  unfoldable pub memblk_open : (D → Ret ℕ × D) → ℕ → ℕ → Cmd (Memblk D) (Unit {0})
  memblk_open register address length s =
      if leb (2 ^ 31 - 1) length then fail einval s else elim (memblk_alloc s) [
        | none ↦ fault
        | some d ↦
            let (result, devices) = register s.devices in
            let opened = record (s.memblk d) { addr = address; len = pos length } in
            elim result [
              | err e ↦ fail e (record s { memblk = update s.memblk d opened; devices = devices })
              | ok number ↦ ret tt (record s {
                memblk = update s.memblk d (record opened { device = number });
                devices = devices;
              })
            ]
      ]
