-- ===== src/Ble/Coordinator.antt =====
-- custom_components/birdie/coordinator.py: the Bluetooth coordinator. `_connect_lock` makes a connection
-- attempt one step. `listeners` counts the calls of `async_set_updated_data`.
pub mod Writes
pub mod Available
pub mod History
pub mod Tests
use ha_birdie.Base.{
  get_or, str_eq, ℕ, ◌+◌, String, Bool, true, false, not, ◌&&◌, Option, none, some, List, [], ◌∷◌,
  leb, if◌then◌else◌,
}
use ha_birdie.Base.Result.{Result, ok, raised}
use ha_birdie.Ble.Parse.{Bytes, Change, co2_threshold_ppm, cool_down_minutes}
use ha_birdie.Ble.Names.{normalize_address}
use ha_birdie.Ble.Data.{BirdieData, updated}
use ha_birdie.Ble.Client.{
  BleClient, BleError, ble_error, Meeting, is_connected, connect, disconnect, read_initial,
  start_notify, write_co2_threshold, write_cool_down, handle_disconnect as client_disconnected,
}

-- `HomeAssistantError`, by its reason, or an error of the client that is not caught
pub data Problem : Type 0 where
  out_of_range not_connected not_written : Problem
  uncaught : BleError → Problem

pub record BirdieCoordinator : Type 0 where
  pub shown : BirdieData
  pub client : BleClient
  pub expected_connected : Bool
  pub listeners : ℕ

abbrev text_or : String → String → String
text_or a b = if str_eq a "" then b else a

-- `BirdieData(address=…, name=…)`
abbrev pub new_data : String → String → BirdieData
new_data address name = record {
  address = address;
  name = some name;
  available = false;
  co2 = none;
  temperature = none;
  humidity = none;
  state = none;
  battery = none;
  co2_threshold = none;
  cool_down = none;
  firmware = none;
  hardware = none;
}

-- `BirdieBleClient.__init__`
abbrev pub new_client : BleClient
new_client = record { client = none; services = none; notify = []; expected_disconnect = false }

-- `__init__`, from the address and the name in the data of an entry, and its title
unfoldable pub create : String → Option String → String → BirdieCoordinator
create given name title =
    let address = normalize_address given in
    record {
      shown = new_data address (text_or (get_or name "") (text_or title address));
      client = new_client;
      expected_connected = false;
      listeners = 0;
    }

-- `async_set_updated_data`
abbrev pub show : BirdieData → BirdieCoordinator → BirdieCoordinator
show d c = record c { shown = d; listeners = c.listeners + 1 }

-- `_async_handle_values`; the flag is `"available": True` among the values
unfoldable pub handle_values : List Change → Bool → BirdieCoordinator → BirdieCoordinator
handle_values values available c =
    let merged = updated values c.shown in
    show (if available then record merged { available = true } else merged) c

abbrev pub same_bool : Bool → Bool → Bool
same_bool true b = b
same_bool false b = not b

-- `_set_available`
unfoldable pub set_available : Bool → BirdieCoordinator → BirdieCoordinator
set_available there c =
    if same_bool c.shown.available there then c else show (record c.shown { available = there }) c

-- `_async_handle_disconnect`
unfoldable pub handle_disconnect : BirdieCoordinator → BirdieCoordinator
unfolding set_available
handle_disconnect c = set_available false c

-- The connection drops: the client clears itself, and tells the coordinator if it did not expect it.
unfoldable pub dropped : BirdieCoordinator → BirdieCoordinator
dropped c =
    let (client, tell) = client_disconnected c.client in
    let alone = record c { client = client } in if tell then handle_disconnect alone else alone

-- What a connection meets: the attempt, the reads after it, whether it lasts until they have ended, and
-- which subscriptions work. A read that fails, as each one after a drop does, gives none.
pub record Contact : Type 0 where
  pub meeting : Meeting
  pub reads : String → Option Bytes
  pub lasts : Bool
  pub works : String → Bool

-- the end of a subscription
abbrev pub subscribed :
    Result BleError (Unit {0}) × BleClient
    → BirdieCoordinator
    → Result Problem Bool × BirdieCoordinator
subscribed (ok _, client) c = (ok true, record c { client = client })
subscribed (raised e, client) c = (raised (uncaught e), record c { client = client })

-- A connection that succeeded reads the values and subscribes. A `BirdieBleError` of the
-- subscription, for a device that is gone by then, is not caught.
unfoldable pub after_connect : Contact → BirdieCoordinator → Result Problem Bool × BirdieCoordinator
after_connect k c =
    let values = read_initial k.reads c.client in
    let read = handle_values values true (if k.lasts then c else dropped c) in
    subscribed (start_notify k.works read.client) read

-- `async_connect`
unfoldable pub async_connect : Contact → BirdieCoordinator → Result Problem Bool × BirdieCoordinator
async_connect k c =
    let (there, client) = connect k.meeting c.client in
    let met = record c { client = client; expected_connected = true } in
    if there then after_connect k met else (ok false, set_available false met)

-- `async_connect_if_expected`
unfoldable pub connect_if_expected :
    Contact → BirdieCoordinator → Result Problem Bool × BirdieCoordinator
connect_if_expected k c =
    if c.expected_connected && not (is_connected c.client) then async_connect k c else (ok false, c)

-- `async_disconnect`
unfoldable pub async_disconnect : BirdieCoordinator → BirdieCoordinator
async_disconnect c =
    set_available false (record c { expected_connected = false; client = disconnect c.client })

-- `_async_ensure_connected`
abbrev pub connected_or_not :
    Result Problem Bool × BirdieCoordinator → Result Problem (Unit {0}) × BirdieCoordinator
connected_or_not (ok true, c) = (ok tt, c)
connected_or_not (ok false, c) = (raised not_connected, c)
connected_or_not (raised e, c) = (raised e, c)

unfoldable pub ensure_connected :
    Contact → BirdieCoordinator → Result Problem (Unit {0}) × BirdieCoordinator
ensure_connected k c =
    let tried = connected_or_not (async_connect k c) in
    if is_connected c.client then (ok tt, c) else tried

-- the end of a write: only `BirdieBleError` is caught
abbrev pub written :
    (ℕ → Change)
    → Result BleError ℕ
    → BirdieCoordinator
    → Result Problem (Unit {0}) × BirdieCoordinator
written field (ok n) c = (ok tt, handle_values (field n ∷ []) true c)
written field (raised ble_error) c = (raised not_written, c)
written field (raised e) c = (raised (uncaught e), c)

abbrev pub write_when_connected :
    (ℕ → Change)
    → (BleClient → Result BleError ℕ)
    → Result Problem (Unit {0}) × BirdieCoordinator
    → Result Problem (Unit {0}) × BirdieCoordinator
write_when_connected field write (ok _, c) = written field (write c.client) c
write_when_connected field write (raised e, c) = (raised e, c)

module _ (k : Contact) (writes : Bytes → Bool) (reads : Bytes → String → Option Bytes) where
  -- `async_set_co2_threshold`
  unfoldable pub set_co2_threshold :
      ℕ → BirdieCoordinator → Result Problem (Unit {0}) × BirdieCoordinator
  set_co2_threshold value c =
      let done =
        write_when_connected co2_threshold_ppm (write_co2_threshold writes reads value)
          (ensure_connected k c) in
      if leb 400 value && leb value 5000 then done else (raised out_of_range, c)

  -- `async_set_cool_down`
  unfoldable pub set_cool_down :
      ℕ → BirdieCoordinator → Result Problem (Unit {0}) × BirdieCoordinator
  set_cool_down value c =
      let done =
        write_when_connected cool_down_minutes (write_cool_down writes reads value)
          (ensure_connected k c) in
      if leb 1 value && leb value 240 then done else (raised out_of_range, c)
