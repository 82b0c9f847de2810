-- ===== src/Purifier/Flow.antt =====
-- custom_components/birdie/purifier/flow.py: the check of a local key as it was entered, and the
-- connection check of the configuration dialogue. The forms are left out.
pub mod Key
pub mod Check
use ha_birdie.Base.{ℕ, String, Bool, true, false, Option, none, some, if◌then◌else◌, ◌==◌, get_or}
use ha_birdie.Base.Text.{text_length, strip}
use ha_birdie.Base.Result.{Result, ok, raised}
use ha_birdie.Dps.{Dps}
use ha_birdie.Lan.Errors.{LanError, is_key_error, is_unreachable}
use ha_birdie.Lan.Redact.{Secrets}
use ha_birdie.Lan.Device.{LanDevice, DeviceConfig, default_timings}
use ha_birdie.Lan.Device.Worker.{Attempt}
use ha_birdie.Lan.Device.Once.{connect_once}

-- `LOCAL_KEY_LENGTH` of lan/device.py
abbrev pub local_key_length : ℕ
local_key_length = 16

-- `clean_local_key`; `none` is an input that was not given
unfoldable pub clean_local_key : Option String → Option String
clean_local_key value =
    let key = strip (get_or value "") in
    if text_length key == local_key_length then some key else none

-- `ConnectionResult`
pub record ConnectionResult : Type 0 where
  pub version : Option String
  pub dps : Option Dps
  pub error : Option String

-- the three `except` clauses, in their order
abbrev pub error_of : LanError → String
error_of e =
    if is_key_error e
    then "invalid_local_key"
    else if is_unreachable e
    then "cannot_connect"
    else "unknown"

-- What the connection raises is a `LanError`; an exception that the protocol library raises beside
-- its answers, and that the last clause is for, is not modelled.
abbrev pub check_result : Result LanError Dps × LanDevice → ConnectionResult
check_result (ok dps, device) = record { version = device.version; dps = some dps; error = none }
check_result (raised e, device) = record { version = none; dps = none; error = some (error_of e) }

module _ (bytes_form : String → String) where
  -- `async_check_connection`
  unfoldable pub check_connection :
      DeviceConfig → Option String → (String → Attempt) → ℕ → Secrets → ConnectionResult × Secrets
  check_connection config hint respond now secrets =
      let once = connect_once bytes_form config default_timings hint respond now secrets in
      (check_result once, (once.1).secrets)
