-- ===== src/Device/Register.antt =====
-- `device_register` and `device_lookup` of kernel/device.c.
use trollos.Base.{ℕ, ◌+◌, ◌%◌, ◌^◌, ◌≤◌, ◌<◌, ◌≡◌, ◌≢◌, none, some, List, update, ret, Ends, enomem}
use trollos.Base.Outcome
use trollos.CString.{c_string}
use trollos.Stat.{major, minor}
use trollos.Device.{Devices, device_lookup, device_max}

module _ {W : Type 0} where
  -- The numbers from `major_free` on are free, and there is one.
  pub record HasRoom (s : Devices W) : Type 0 where
    pub in_table : s.major_free < device_max
    pub free : (i : ℕ) → s.major_free ≤ i → s.registered i ≡ none

  -- A device is registered under its number: `device_lookup` finds it there, and each other number
  -- has the device that it had.
  pub record Registered (s : Devices W) (name : List ℕ) (device number : ℕ) (t : Devices W)
      : Type 0 where
    pub numbered : (major number ≡ s.major_free) × (minor number ≡ 1)
    pub found : device_lookup number t ≡ ret (some device) t
    pub was_free : device_lookup number s ≡ ret none s
    pub others : (i : ℕ) → i ≢ s.major_free → t.registered i ≡ s.registered i
    pub still_free : (i : ℕ) → t.major_free ≤ i → t.registered i ≡ none
    pub next_number : t.major_free ≡ s.major_free + 1

  -- A device that a state holds under the number that was next.
  abbrev added : List ℕ → ℕ → W → Devices W → Devices W
  added name device w s = record s {
    processes = record (s.processes) { world = w };
    registered =
        update s.registered s.major_free (some (record { name = c_string name; device = device }));
    major_free = (s.major_free + 1) % 2 ^ 16;
  }

  Adds : List ℕ → ℕ → Devices W → Outcome.Outcome (Devices W) ℕ → Type 0
  Adds name device s o =
      Ends (Registered s name device) (λ e t. (e ≡ enomem) × (t.registered ≡ s.registered)) o
