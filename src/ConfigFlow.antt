-- ===== src/ConfigFlow.antt =====
-- custom_components/birdie/config_flow.py: the state of a configuration dialogue and what its steps
-- show. The steps for an air purifier are in Purifier, those of an entry that exists in Change, and
-- those for a Bluetooth device in Bluetooth. The schemas of the forms are left out.
pub mod Purifier
pub mod Change
pub mod Bluetooth
pub mod Run
pub mod Verified
pub mod Entering
mod Tests
use ha_birdie.Base.{
  ℕ, String, Bool, true, false, not, ◌&&◌, ◌||◌, Option, none, some, List, [], ◌∷◌, str_eq,
  if◌then◌else◌, contains, get_or,
}
use ha_birdie.Base.Dict.{Dict}
use ha_birdie.Dps.{Dps}
use ha_birdie.Lan.Redact.{Secrets}
use ha_birdie.Lan.Device.{DeviceConfig, protocol_auto}
use ha_birdie.Lan.Device.Worker.{Attempt}
use ha_birdie.Lan.Discovery.{DiscoveredDevice}
use ha_birdie.Lan.Search.Find.{FoundDevice}
use ha_birdie.Purifier.Model.{looks_like_purifier}
use ha_birdie.Purifier.Coordinator.{EntryData}
use ha_birdie.Purifier.Discovery.{product_keys}
use ha_birdie.Purifier.Flow.{ConnectionResult, check_connection}

-- The input of the form for a purifier's data; what is optional and was not given is `none`.
pub record ManualInput : Type 0 where
  pub device_id : String
  pub local_key : String
  pub host : Option String
  pub protocol_version : Option String

-- `_NetworkSearch`; `started` is `task is not None`.
pub record NetworkSearch : Type 0 where
  pub step_id : String
  pub device_id : String
  pub local_key : String
  pub protocol_version : String
  pub user_input : ManualInput
  pub started : Bool
  pub found : Option FoundDevice
  pub not_a_podium : Bool

-- The fields of `BirdieConfigFlow` for a purifier, and the registry of lan/redact.py.
pub record Flow : Type 0 where
  pub scan_started : Bool
  pub lan_devices : Dict DiscoveredDevice
  pub purifier : Option DiscoveredDevice
  pub search : Option NetworkSearch
  pub secrets : Secrets

-- `__init__`
abbrev pub new_flow : Secrets → Flow
new_flow secrets = record {
  scan_started = false;
  lan_devices = [];
  purifier = none;
  search = none;
  secrets = secrets;
}

-- What a step answers: a form with its errors, by the field, or the end of the dialogue. `crash` is a
-- failed assertion or an unknown choice. An entry is given with its unique id.
pub data FlowResult : Type 0 where
  show_form : String → List (String × String) → FlowResult
  show_progress : String → FlowResult
  progress_done : String → FlowResult
  show_menu : FlowResult
  abort : String → FlowResult
  abort_moved : String → String → FlowResult
  create_purifier : String → EntryData → FlowResult
  create_ble : String → String → FlowResult
  update_entry : EntryData → FlowResult
  crash : FlowResult

-- a background task, as a step finds it: not done, ended by an exception, or done
pub data Task (A : Type 0) : Type 0 where
  pending failed : Task A
  done : A → Task A

-- What the outside is during a step: the unique ids with which `_abort_if_unique_id_configured` ends
-- the dialogue, those of `_async_current_ids(include_ignore=False)`, whether another dialogue is about
-- an id, what a scan for a device hears, and how a device with an id and a key answers at a host.
pub record Outside : Type 0 where
  pub configured : List String
  pub current_ids : List String
  pub in_progress : String → Bool
  pub scan : String → Option DiscoveredDevice
  pub respond : String → String → String → String → Attempt
  pub now : ℕ

-- `_is_podium`
unfoldable pub is_podium : Option Dps → Option String → Bool
is_podium dps product_key =
    elim product_key [ none ↦ false | some k ↦ contains product_keys k ]
    || looks_like_purifier (get_or dps [])

-- `if product_key:`
abbrev pub text_or_none : Option String → Option String
text_or_none none = none
text_or_none (some k) = if str_eq k "" then none else some k

-- the data of a new purifier entry
abbrev pub new_data : DeviceConfig → ConnectionResult → Option String → EntryData
new_data config result product_key = record {
  device_id = config.device_id;
  host = config.host;
  local_key = config.local_key;
  protocol_version = some config.protocol_version;
  detected_version = result.version;
  product_key = text_or_none product_key;
}

-- `_async_create_purifier`
unfoldable pub async_create_purifier :
    Outside → DeviceConfig → ConnectionResult → Option String → FlowResult
async_create_purifier o config result product_key =
    if contains o.configured config.device_id
    then abort "already_configured"
    else create_purifier config.device_id (new_data config result product_key)

-- the port of `DeviceConfig` where none is given
abbrev pub config_for : String → String → String → String → DeviceConfig
config_for device_id host key version = record {
  device_id = device_id;
  host = host;
  local_key = key;
  protocol_version = version;
  port = 6668;
}

module _ (bytes_form : String → String) (o : Outside) where
  -- a connection check during a step, and the dialogue after it
  abbrev pub connection_checked : DeviceConfig → Option String → Flow → ConnectionResult × Flow
  connection_checked config hint f =
      let r =
        check_connection bytes_form config hint
          (o.respond config.device_id config.local_key config.host) o.now f.secrets in
      (r.0, record f { secrets = r.1 })
