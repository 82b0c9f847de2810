-- ===== src/Purifier/Coordinator.antt =====
-- custom_components/birdie/purifier/coordinator.py: one coordinator, with its device and the parts of
-- Home Assistant that it changes. Times are in milliseconds, and the clock is an argument.
-- The callbacks of a device call are run when the call has ended, in their order. `data` is what was
-- handed to `async_set_updated_data` last, and `failure` what `async_set_update_error` was given since.
pub mod Search
pub mod Handlers
pub mod SearchTimes
pub mod Reauth
pub mod Setup
pub mod Commands
pub mod ReadBack
pub mod Tracking
pub mod Tests
use ha_birdie.Base.{ℕ, String, Bool, true, false, Option, none, some, List, [], get_or}
use ha_birdie.Dps.{Dps}
use ha_birdie.Lan.Errors.{LanError}
use ha_birdie.Lan.Device.{LanDevice, DeviceConfig, protocol_auto}
use ha_birdie.Purifier.Model.{PurifierState}

-- The data of a purifier's config entry.
pub record EntryData : Type 0 where
  pub device_id : String
  pub host : String
  pub local_key : String
  pub protocol_version : Option String
  pub detected_version : Option String
  pub product_key : Option String

-- `device_config`; the port is the default of `DeviceConfig`
unfoldable pub device_config : EntryData → DeviceConfig
device_config e = record {
  device_id = e.device_id;
  host = e.host;
  local_key = e.local_key;
  protocol_version = get_or e.protocol_version protocol_auto;
  port = 6668;
}

abbrev pub key_failures_before_reauth : ℕ
key_failures_before_reauth = 3

abbrev pub address_search_after : ℕ
address_search_after = 600000

abbrev pub address_search_first_interval : ℕ
address_search_first_interval = 3600000

abbrev pub address_search_max_interval : ℕ
address_search_max_interval = 86400000

-- `AddressSearch`; `running` is `task is not None and not task.done()`.
pub record AddressSearch : Type 0 where
  pub unreachable_since : Option ℕ
  pub next_search : Option ℕ
  pub interval : ℕ
  pub running : Bool

abbrev pub no_search : AddressSearch
no_search = record {
  unreachable_since = none;
  next_search = none;
  interval = address_search_first_interval;
  running = false;
}

-- the `UpdateFailed` that is shown, by its translation key
pub data Failure : Type 0 where
  key_rejected : Failure
  device_gone : String → Failure

-- The calls into Home Assistant that leave no field below.
pub data Action : Type 0 where
  start_reauth : Action
  abort_flow : String → Action
  start_search : Action
  schedule_reload : Action

-- `setup_failures` is this entry's count of `DATA_SETUP_KEY_FAILURES`, `flows` the reauth flows that
-- are active, `configured` whether the entry still exists, and `actions` has the newest first.
pub record Coordinator : Type 0 where
  pub device : LanDevice
  pub key_failures : ℕ
  pub setup_failures : ℕ
  pub search : AddressSearch
  pub data_seen : Option PurifierState
  pub failure : Option Failure
  pub entry : EntryData
  pub configured : Bool
  pub loaded : Bool
  pub flows : List String
  pub actions : List Action
