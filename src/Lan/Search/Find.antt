-- ===== src/Lan/Search/Find.antt =====
-- Trying a device's key at the addresses that accept connections (lan/search.py, `async_open_ports`,
-- `async_find_device`). `order` is the order in which the tries end. A try that is cancelled when
-- another one finds the device closes its device too, and is left out.
pub mod Tries
pub mod Found
use ha_birdie.Base.{
  ℕ, String, Bool, Option, none, some, List, [], ◌∷◌, str_eq, if◌then◌else◌, get_or,
}
use ha_birdie.Base.Result.{Result, ok, raised}
use ha_birdie.Dps.{Dps}
use ha_birdie.Lan.Errors.{LanError}
use ha_birdie.Lan.Redact.{Secrets}
use ha_birdie.Lan.Device.{LanDevice, DeviceConfig, Timings, default_timings}
use ha_birdie.Lan.Device.Worker.{Attempt}
use ha_birdie.Lan.Device.Once.{connect_once}

pub record FoundDevice : Type 0 where
  pub host : String
  pub protocol_version : String
  pub dps : Dps

-- `TRY_TIMINGS`
abbrev pub try_timings : Timings
try_timings = record default_timings { connect_timeout = 3000 }

-- `async_open_ports`: the addresses that accept a connection, in their order
unfoldable pub open_ports : (String → Bool) → List String → List String
open_ports accepts [] = []
open_ports accepts (a ∷ addresses) =
    let rest = open_ports accepts addresses in if accepts a then a ∷ rest else rest

-- `device.protocol_version or protocol_version`
abbrev pub version_or : Option String → String → String
version_or none w = w
version_or (some v) w = if str_eq v "" then w else v

-- What is looked for, and the answers at each address.
pub record Sought : Type 0 where
  pub device_id : String
  pub local_key : String
  pub protocol_version : String
  pub port : ℕ
  pub respond : String → String → Attempt
  pub now : ℕ

abbrev pub config_at : Sought → String → DeviceConfig
config_at q host = record {
  device_id = q.device_id;
  host = host;
  local_key = q.local_key;
  protocol_version = q.protocol_version;
  port = q.port;
}

abbrev pub found_at :
    Sought → String → Result LanError Dps × LanDevice → Option FoundDevice × Secrets
found_at q host (raised e, device) = (none, device.secrets)
found_at q host (ok dps, device) = (
  some (record {
    host = host;
    protocol_version = version_or device.version q.protocol_version;
    dps = dps;
  }),
  device.secrets,
)

module _ (bytes_form : String → String) (q : Sought) where
  -- the function `attempt`
  unfoldable pub attempt : String → Secrets → Option FoundDevice × Secrets
  attempt host secrets =
      found_at q host
        (connect_once bytes_form (config_at q host) try_timings none (q.respond host) q.now secrets)

  abbrev pub found_or :
      Option FoundDevice × Secrets
      → (Secrets → Option FoundDevice × Secrets)
      → Option FoundDevice × Secrets
  found_or (some f, secrets) next = (some f, secrets)
  found_or (none, secrets) next = next secrets

  -- the loop over `as_completed`
  unfoldable pub first_found : List String → Secrets → Option FoundDevice × Secrets
  first_found [] secrets = (none, secrets)
  first_found (host ∷ hosts) secrets = found_or (attempt host secrets) (first_found hosts)

  -- `async_find_device`
  unfoldable pub find_device :
      (String → Bool)
      → (List String → List String)
      → List String
      → Secrets
      → Option FoundDevice × Secrets
  find_device accepts order addresses secrets =
      first_found (order (open_ports accepts addresses)) secrets
