-- ===== src/Device/Types.antt =====
-- include/device.h: the type of a device.
use trollos.Base.{Bool, true, false}

-- `enum DeviceType`.
pub data DeviceType : Type 0 where
  invalid char block : DeviceType

abbrev pub is_char : DeviceType → Bool
is_char char = true
is_char _ = false

abbrev pub is_block : DeviceType → Bool
is_block block = true
is_block _ = false
