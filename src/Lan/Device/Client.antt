-- ===== src/Lan/Device/Client.antt =====
-- The state changes and the public methods of `LanDevice` (lan/device.py).
use ha_birdie.Base.{
  ℕ, ◌+◌, String, Bool, true, false, not, ◌&&◌, ◌||◌, Option, none, some, [], ◌∷◌, str_eq, ◌==◌,
  if◌then◌else◌, is_some, get_or,
}
use ha_birdie.Base.Dict.{lookup, has_key, update}
use ha_birdie.Base.Result.{Result, ok, raised}
use ha_birdie.Dps.{null, Dps, py_eq}
use ha_birdie.Lan.Errors.{LanError, unreachable, connection_lost}
use ha_birdie.Lan.Redact.{register_secret, unregister_secret}
use ha_birdie.Lan.Device.{
  DeviceConfig, Timings, LanDevice, Event, status, availability, Answer, Call, ◌>>=◌, ◌>>◌, pure,
  modify, gets, DeviceConfig, ConfigError, make_config,
}
use ha_birdie.Lan.Device.Worker.{Attempt, w_drop, w_open, w_status, w_set}

-- a call of a callback, if it is not None
unfoldable pub emit : Bool → Event → LanDevice → LanDevice
emit there e s = if there then record s { events = e ∷ s.events } else s

abbrev same_bool : Bool → Bool → Bool
same_bool true b = b
same_bool false b = not b

unfoldable pub set_available : Bool → Option LanError → LanDevice → LanDevice
unfolding emit
set_available there err s =
    if same_bool there s.available
    then s
    else emit s.on_availability (availability there err) (record s { available = there })

-- some value differs from the one known, where a DP that is not known counts as None
unfoldable pub any_changed : Dps → Dps → Bool
any_changed known [] = false
any_changed known ((k, v) ∷ dps) =
    not (py_eq (get_or (lookup k known) null) v) || any_changed known dps

-- `set(dps) - set(known)` is not empty
unfoldable pub any_new : Dps → Dps → Bool
any_new known [] = false
any_new known ((k, v) ∷ dps) = not (has_key k known) || any_new known dps

unfoldable pub handle_dps : ℕ → Dps → Bool → LanDevice → LanDevice
unfolding emit
handle_dps now dps full s =
    let merged = update s.dps dps in
    let tell = any_changed s.dps dps || (any_new s.dps dps || full) in
    emit (tell && s.on_status) (status merged) (record s {
      last_rx = now;
      last_status = if full then now else s.last_status;
      refresh_at = if full then none else s.refresh_at;
      dps = merged;
    })

unfoldable pub handle_connected : ℕ → String → Dps → LanDevice → LanDevice
handle_connected now version dps s = handle_dps now dps true (
    set_available true none
      (record s { version = some version; last_error = none; last_rx = now; last_heartbeat = now }))

unfoldable pub lost : LanError → LanDevice → LanDevice
unfolding w_drop
lost err s = set_available false (some err) (w_drop (record s { last_error = some err }))

unfoldable pub require_connection : Call (Unit {0})
require_connection s = (if s.closed || not (is_some s.api) then raised unreachable else ok tt, s)

unfoldable pub async_connect : (String → Attempt) → ℕ → Call Dps
async_connect respond now = do
  (version, dps) ← w_open respond
  modify (handle_connected now version dps)
  gets (λ s. s.dps)

-- `except _ConnectionLost`: the connection is dropped, and the caller is told
abbrev pub recover : {A : Type 0} → Result LanError A → Call A
recover (ok a) s = (ok a, s)
recover (raised connection_lost) s = (raised unreachable, lost connection_lost s)
recover (raised e) s = (raised e, s)

unfoldable pub or_lose : {A : Type 0} → Call A → Call A
or_lose m s = let (r, s') = m s in recover r s'

unfoldable pub async_refresh : Answer → ℕ → Call Dps
unfolding or_lose
async_refresh a now = do
  require_connection
  dps ← or_lose (w_status a)
  modify (handle_dps now dps true)
  gets (λ s. s.dps)

abbrev pub refresh_later : ℕ → LanDevice → LanDevice
refresh_later now s = record s { refresh_at = some (now + s.timings.refresh_after_command) }

unfoldable pub async_set_dps : Dps → Answer → ℕ → Call (Unit {0})
unfolding or_lose
async_set_dps [] a now = pure tt
async_set_dps dps a now = do require_connection; or_lose (w_set a); modify (refresh_later now)

unfoldable pub start : LanDevice → LanDevice
start s = if not s.task && not s.closed then record s { task = true } else s

-- What `async_reconfigure` is given; `none` keeps the present value.
pub record Changes : Type 0 where
  pub host : Option String
  pub local_key : Option String
  pub protocol_version : Option String
  pub port : Option ℕ

unfoldable pub apply_changes : Changes → DeviceConfig → DeviceConfig
apply_changes c config = record config {
  host = get_or c.host config.host;
  local_key = get_or c.local_key config.local_key;
  protocol_version = get_or c.protocol_version config.protocol_version;
  port = get_or c.port config.port;
}

abbrev pub same_config : DeviceConfig → DeviceConfig → Bool
same_config c d =
    str_eq c.device_id d.device_id
    && (str_eq c.host d.host
        && (str_eq c.local_key d.local_key
            && (str_eq c.protocol_version d.protocol_version && c.port == d.port)))

module _ (bytes_form : String → String) where
  -- `__init__`
  unfoldable pub init : DeviceConfig → Timings → Option String → LanDevice → LanDevice
  init config timings hint s = record s {
    config = config;
    timings = timings;
    version_hint = hint;
    api = none;
    version = none;
    dps = [];
    task = false;
    wake = false;
    closed = false;
    last_rx = 0;
    last_heartbeat = 0;
    last_status = 0;
    refresh_at = none;
    available = false;
    last_error = none;
    secrets = register_secret bytes_form config.local_key s.secrets;
    events = [];
  }

  unfoldable pub async_close : LanDevice → LanDevice
  unfolding w_drop
  async_close s =
      if s.closed
      then s
      else w_drop (record s {
        closed = true;
        wake = true;
        task = false;
        secrets = unregister_secret bytes_form s.config.local_key s.secrets;
      })

  -- the swap of the key in the registry, for a configuration that differs
  abbrev pub reconnect_with : DeviceConfig → LanDevice → LanDevice
  reconnect_with config s =
      let secrets = register_secret bytes_form config.local_key s.secrets in
      let moved = record s {
        config = config;
        secrets = unregister_secret bytes_form s.config.local_key secrets;
        api = none;
      } in
      record (set_available false (some unreachable) moved) { wake = true }

  abbrev pub reconfigured :
      Result ConfigError DeviceConfig → LanDevice → Result ConfigError (Unit {0}) × LanDevice
  reconfigured (raised e) s = (raised e, s)
  reconfigured (ok config) s =
      (ok tt, if same_config config s.config then s else reconnect_with config s)

  -- `replace` makes a new `DeviceConfig`, which is checked as every one is.
  unfoldable pub async_reconfigure : Changes → LanDevice → Result ConfigError (Unit {0}) × LanDevice
  unfolding make_config
  async_reconfigure c s = reconfigured (make_config (apply_changes c s.config)) s
