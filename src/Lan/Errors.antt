-- ===== src/Lan/Errors.antt =====
-- custom_components/birdie/lan/errors.py, and `_ConnectionLost` of lan/device.py. The messages,
-- which only reach the log, are left out.
use ha_birdie.Base.{Bool, true, false}

-- `connection_lost` is a subclass of `DeviceUnreachableError`, which is `unreachable` itself.
pub data LanError : Type 0 where
  unreachable connection_lost invalid_local_key : LanError

-- isinstance(e, InvalidLocalKeyError)
abbrev pub is_key_error : LanError → Bool
is_key_error invalid_local_key = true
is_key_error _ = false

-- isinstance(e, DeviceUnreachableError)
abbrev pub is_unreachable : LanError → Bool
is_unreachable invalid_local_key = false
is_unreachable _ = true
