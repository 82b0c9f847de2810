-- ===== src/Lan/Device.antt =====
-- custom_components/birdie/lan/device.py: the configuration, the state of a `LanDevice`, and what
-- the protocol library answers. Times are in milliseconds, and the clock is an argument.
-- Each operation runs to its end before the next one starts: what another task does while one
-- waits is modelled only for `close`, which a connection attempt looks for (`Attempt.closed`).
pub mod Worker
pub mod Client
pub mod Loop
pub mod Versions
pub mod Opening
pub mod Status
pub mod Availability
pub mod Rounds
pub mod Heard
pub mod History
pub mod Registered
pub mod Backoff
pub mod Reconnect
pub mod Writing
pub mod Once
pub mod Tests
use ha_birdie.Base.{
  ℕ, String, Bool, true, false, not, ◌&&◌, ◌||◌, Option, none, some, List, [], ◌∷◌, str_eq,
  if◌then◌else◌, contains, is_some,
}
use ha_birdie.Base.Result.{Result, ok, raised}
use ha_birdie.Dps.{Dps}
use ha_birdie.Lan.Errors.{LanError, unreachable, invalid_local_key}
use ha_birdie.Lan.Redact.{Secrets}

abbrev pub protocol_auto : String
protocol_auto = "auto"

abbrev pub protocol_versions : List String
protocol_versions = "3.1" ∷ "3.2" ∷ "3.3" ∷ "3.4" ∷ "3.5" ∷ []

abbrev pub auto_protocol_order : List String
auto_protocol_order = "3.3" ∷ "3.5" ∷ "3.4" ∷ "3.1" ∷ []

abbrev pub unreachable_errors : List String
unreachable_errors = "901" ∷ "905" ∷ []

abbrev pub key_errors : List String
key_errors = "914" ∷ "904" ∷ "900" ∷ []

abbrev pub connection_lost_errors : List String
connection_lost_errors = "901" ∷ "905" ∷ "902" ∷ "906" ∷ "914" ∷ []

pub record DeviceConfig : Type 0 where
  pub device_id : String
  pub host : String
  pub local_key : String
  pub protocol_version : String
  pub port : ℕ

-- the two `ValueError`s of `__post_init__`
pub data ConfigError : Type 0 where
  id_or_host_missing unsupported_version : ConfigError

-- `__post_init__`
unfoldable pub make_config : DeviceConfig → Result ConfigError DeviceConfig
make_config c =
    if str_eq c.device_id "" || str_eq c.host ""
    then raised id_or_host_missing
    else if not (str_eq c.protocol_version protocol_auto)
        && not (contains protocol_versions c.protocol_version)
    then raised unsupported_version
    else ok c

pub record Timings : Type 0 where
  pub connect_timeout : ℕ
  pub receive_timeout : ℕ
  pub heartbeat_interval : ℕ
  pub status_interval : ℕ
  pub dead_after : ℕ
  pub refresh_after_command : ℕ
  pub reconnect_min : ℕ
  pub reconnect_max : ℕ

abbrev pub default_timings : Timings
default_timings = record {
  connect_timeout = 5000;
  receive_timeout = 500;
  heartbeat_interval = 10000;
  status_interval = 60000;
  dead_after = 35000;
  refresh_after_command = 3000;
  reconnect_min = 5000;
  reconnect_max = 60000;
}

-- What a call of the library returns: something else than a dict, or a dict with its `Err` as text
-- and its `dps`, if that is a dict too.
pub data Reply : Type 0 where
  no_dict : Reply
  dict : Option String → Option Dps → Reply

-- `_error_code`
unfoldable pub error_code : Reply → Option String
error_code no_dict = none
error_code (dict err dps) = err

-- `_dps_of`
unfoldable pub dps_of : Reply → Option Dps
dps_of (dict none dps) = dps
dps_of _ = none

-- `code in codes`
abbrev pub code_in : List String → Option String → Bool
code_in codes none = false
code_in codes (some c) = contains codes c

-- `_open_error`
unfoldable pub open_error : Option String → LanError
open_error code =
    if code_in unreachable_errors code
    then unreachable
    else if code_in key_errors code
    then invalid_local_key
    else unreachable

-- a reply, and whether the library still has its socket after the call
pub record Answer : Type 0 where
  pub reply : Reply
  pub socket : Bool

-- the library's `Device`, of which the code reads `socket is not None`
pub record Api : Type 0 where
  pub socket : Bool

-- the calls of the three callbacks, and the sleeps of the loop
pub data Event : Type 0 where
  status : Dps → Event
  availability : Bool → Option LanError → Event
  error : LanError → Event
  sleep : ℕ → Event

-- `on_status`, `on_availability` and `on_error` say whether the callback is not None.
-- `secrets` is the registry of lan/redact.py, and `events` has the newest first.
pub record LanDevice : Type 0 where
  pub config : DeviceConfig
  pub on_status : Bool
  pub on_availability : Bool
  pub on_error : Bool
  pub timings : Timings
  pub version_hint : Option String
  pub api : Option Api
  pub version : Option String
  pub dps : Dps
  pub task : Bool
  pub wake : Bool
  pub closed : Bool
  pub last_rx : ℕ
  pub last_heartbeat : ℕ
  pub last_status : ℕ
  pub refresh_at : Option ℕ
  pub available : Bool
  pub last_error : Option LanError
  pub secrets : Secrets
  pub events : List Event

-- A method that may raise: what was written before a raise stays written.
abbrev pub Call : Type 0 → Type 0
Call A = LanDevice → Result LanError A × LanDevice

abbrev pub continue : {A B : Type 0} → Result LanError A → (A → Call B) → Call B
continue (ok a) f s = f a s
continue (raised e) f s = (raised e, s)

infixl 5 ◌>>=◌ ◌>>◌
abbrev pub ◌>>=◌ : {A B : Type 0} → Call A → (A → Call B) → Call B
◌>>=◌ m f s = let (r, s') = m s in continue r f s'

abbrev pub ◌>>◌ : {A B : Type 0} → Call A → Call B → Call B
m >> k = m >>= λ _. k

abbrev pub pure : {A : Type 0} → A → Call A
pure a s = (ok a, s)

abbrev pub raise : {A : Type 0} → LanError → Call A
raise e s = (raised e, s)

abbrev pub modify : (LanDevice → LanDevice) → Call (Unit {0})
modify f s = (ok tt, f s)

abbrev pub gets : {A : Type 0} → (LanDevice → A) → Call A
gets f s = (ok (f s), s)

abbrev pub raise_if : Bool → LanError → Call (Unit {0})
raise_if b e s = (if b then raised e else ok tt, s)
