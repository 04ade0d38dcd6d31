-- ===== src/Device.antt =====
-- kernel/device.c and include/device.h: the table of registered devices. A `Device *` is the number
-- of the object that it points to.
pub mod Types
pub mod Register
pub mod Character
use trollos.Base.{
  ℕ, zero, suc, ◌+◌, ◌-◌, ◌*◌, ◌/◌, ◌%◌, ◌^◌, Bool, true, false, not, ◌&&◌, ◌||◌, Option, none,
  some, List, [], ◌∷◌, take, ltb, leb, ◌==◌, if◌then◌else◌, update, ret, fail, fault, Ret, Cmd,
  pure, throw, crash, ◌>>=◌, ◌>>◌, enomem, enoent, eperm, find_first,
}
use trollos.Base.Outcome.{Outcome}
use trollos.Base.Int.{ℤ, pos, negsuc, slot, ltℤ}
use trollos.CString.{strlen, str_eq, c_string}
use trollos.Stat.{makedev, major}
use trollos.Process.{Processes}
use trollos.Device.Types.{DeviceType}

abbrev pub device_max : ℕ
device_max = 256

abbrev pub device_name_len : ℕ
device_name_len = 32

-- `struct Device` with the functions of its `chardev` and its `blockdev` that are called; a null
-- pointer is `none`. `W` is the state of the drivers.
pub record Device (W : Type 0) : Type 0 where
  pub device_type : DeviceType
  pub char_read : Option (ℕ → W → Ret (List ℕ) × W)
  pub char_write : Option (List ℕ → W → Ret ℕ × W)
  pub block_read : Option (ℕ → ℤ → ℕ → W → Ret (List ℕ) × W)
  pub block_write : Option (List ℕ → W → Ret ℕ × W)

-- `RegisteredDevice`.
pub record RegisteredDevice : Type 0 where
  pub name : List ℕ
  pub device : ℕ

-- `_device_registered` and `major_free`, the device objects with the queue of each for reading, and
-- the processes, behind which is the state of the drivers and of the allocator.
pub record Devices (W : Type 0) : Type 0 where
  pub registered : ℕ → Option RegisteredDevice
  pub major_free : ℕ
  pub object : ℕ → Device W
  pub queue_read : ℕ → List ℕ
  pub processes : Processes W

-- A device as `device_list` describes it.
pub record DeviceRegistration : Type 0 where
  pub name : List ℕ
  pub device : ℕ
  pub device_type : DeviceType

-- The loop of `device_register` from slot `i` on; `taken` is whether the slot of the new number
-- is in use, without which no entry is looked at. The result is whether the loop returns -1.
unfoldable pub register_loop :
    (ℕ → Option RegisteredDevice) → Bool → List ℕ → ℕ → ℕ → ℕ → Option Bool
register_loop registered taken name device zero i = some false
register_loop registered taken name device (suc n) i =
    let rest = register_loop registered taken name device n (i + 1) in
    if not taken then rest else elim (registered i) [
      | none ↦ none
      | some r ↦ if str_eq r.name name || device == r.device then some true else rest
    ]

abbrev pub is_some : Option RegisteredDevice → Bool
is_some none = false
is_some (some r) = true

abbrev pub has_name : (ℕ → Option RegisteredDevice) → List ℕ → ℕ → Bool
has_name registered name i = elim (registered i) [ none ↦ false | some r ↦ str_eq r.name name ]

module _ {W : Type 0} where
  -- _device_registered[major(n)]
  unfoldable pub slot_of : ℕ → Cmd (Devices W) (Option RegisteredDevice)
  slot_of number s =
      if ltb (major number) device_max then ret (s.registered (major number)) s else fault

  -- What follows the loop of `device_register`; `strcpy` of a name that is too long writes behind
  -- the end of the entry. `alloc` is `kmalloc(sizeof(RegisteredDevice))`.
  unfoldable pub add_device : (W → Bool × W) → List ℕ → ℕ → Cmd (Devices W) (Unit {0})
  add_device alloc name device s =
      let (room, w) = alloc s.processes.world in
      let t = record s { processes = record (s.processes) { world = w } } in
      if not room
      then fail enomem t
      else if leb device_name_len (strlen name) || leb device_max s.major_free
      then fault
      else ret tt (record t {
        registered =
            update s.registered s.major_free
              (some (record { name = c_string name; device = device }));
        major_free = (s.major_free + 1) % 2 ^ 16;
      })

  -- `device_register`, with the number that it writes through its pointer. The error -1 is -EPERM.
  unfoldable pub device_register : (W → Bool × W) → List ℕ → ℕ → Cmd (Devices W) ℕ
  device_register alloc name device s =
      let number = makedev s.major_free 1 in
      (do
        old ← slot_of number
        λ t. elim (register_loop t.registered (is_some old) name device device_max 0) [
          | none ↦ fault
          | some true ↦ fail eperm t
          | some false ↦ (do add_device alloc name device; pure number) t
        ])
        s

  -- `device_lookup`
  unfoldable pub device_lookup : ℕ → Cmd (Devices W) (Option ℕ)
  device_lookup number = do
    entry ← slot_of number
    elim entry [ none ↦ pure none | some r ↦ pure (some r.device) ]

  -- `device_lookup_name`: the number, 0 where there is none.
  unfoldable pub device_lookup_name : List ℕ → Devices W → ℕ
  device_lookup_name name s = elim (find_first (has_name s.registered name) device_max) [
    | none ↦ 0
    | some i ↦ makedev i 1
  ]

  -- The body of `device_list` behind its guard.
  unfoldable pub describe_device : ℤ → Cmd (Devices W) DeviceRegistration
  describe_device id s = elim (slot id device_max) [
    | none ↦ fault
    | some i ↦ elim (s.registered i) [
      | none ↦ fail enoent s
      | some r ↦
          ret
            (record {
              name = take (device_name_len - 1) r.name;
              device = makedev i 1;
              device_type = (s.object r.device).device_type;
            })
            s
    ]
  ]

  -- `device_list`
  unfoldable pub device_list : ℤ → Cmd (Devices W) DeviceRegistration
  device_list id = if ltℤ id (pos device_max) then throw enoent else describe_device id
