-- ===== src/Ble/Client.antt =====
-- custom_components/birdie/client.py: the Bluetooth client. What bleak and Home Assistant's Bluetooth
-- answer is an argument; `none` stands for an exception of the kinds that the code catches.
pub mod Clean
use ha_birdie.Base.{
  ℕ, String, Bool, true, false, not, ◌&&◌, ◌||◌, Option, none, some, List, [], ◌∷◌, ◌++◌, str_eq,
  if◌then◌else◌, contains, is_some, ltb, ◌%◌, ◌/◌,
}
use ha_birdie.Base.Result.{Result, ok, raised}
use ha_birdie.Ble.Const.{co2_threshold_uuid, cool_down_uuid, read_uuids, notify_uuids}
use ha_birdie.Ble.Parse.{Bytes, ParseError, Change, parse_characteristic_values, uint16_le, uint8}

-- `BirdieBleError`, the parser's `ValueError`, and the `OverflowError` of `to_bytes`
pub data BleError : Type 0 where
  ble_error value_error overflow_error : BleError

-- a characteristic, by the properties that the code looks for
pub record Characteristic : Type 0 where
  pub readable : Bool
  pub notifies : Bool

-- `services.get_characteristic`
abbrev pub Services : Type 0
Services = String → Option Characteristic

-- bleak's client, of which the code reads `is_connected`
pub record Gatt : Type 0 where
  pub connected : Bool

pub record BleClient : Type 0 where
  pub client : Option Gatt
  pub services : Option Services
  pub notify : List String
  pub expected_disconnect : Bool

-- `is_connected`
abbrev pub is_connected : BleClient → Bool
is_connected b = elim b.client [ none ↦ false | some g ↦ g.connected ]

-- the fields that every end of a connection clears
abbrev pub cleared : BleClient → BleClient
cleared b = record b { client = none; services = none; notify = [] }

-- `_async_ble_device`: which device is connected to, and whether through the BlueZ client
pub record Lookup : Type 0 where
  pub scanners : Bool
  pub ha_device : Option String
  pub bluez_device : Option String
  pub bluez_client : Bool

unfoldable pub ble_device : Lookup → Option String × Bool
ble_device l =
    if l.scanners && is_some l.ha_device
    then (l.ha_device, false)
    else if is_some l.bluez_device && l.bluez_client
    then (l.bluez_device, true)
    else if is_some l.ha_device
    then (l.ha_device, false)
    else (l.bluez_device, false)

any_known : Services → List String → Bool
any_known s [] = false
any_known s (u ∷ us) = is_some (s u) || any_known s us

-- `_services_have_known_characteristics`
unfoldable pub have_known : Option Services → Bool
unfolding any_known
have_known none = false
have_known (some s) = any_known s (read_uuids ++ notify_uuids)

-- `_async_get_services`: what the client has, or else what `get_services` gives
unfoldable pub get_services : Option Services → Option Services → Option Services
get_services cached fetched =
    if have_known cached then cached else if have_known fetched then fetched else none

-- What a connection attempt meets: the lookup, `establish_connection` (none for an exception, else
-- `is_connected`), and the services cached and fetched.
pub record Meeting : Type 0 where
  pub lookup : Lookup
  pub established : Option Bool
  pub cached : Option Services
  pub fetched : Option Services

-- `async_disconnect`; errors of bleak are suppressed
unfoldable pub disconnect : BleClient → BleClient
disconnect b = record (cleared b) { expected_disconnect = true }

abbrev with_services : Option Services → BleClient → Bool × BleClient
with_services none b = (false, disconnect b)
with_services (some s) b = (true, record b { services = some s })

abbrev establish : Meeting → BleClient → Bool × BleClient
establish m b = elim m.established [
  | none ↦ (false, b)
  | some false ↦ (false, b)
  | some true ↦
      with_services (get_services m.cached m.fetched)
        (record b { client = some (record { connected = true }) })
]

-- `async_connect`
unfoldable pub connect : Meeting → BleClient → Bool × BleClient
unfolding disconnect
connect m b =
    let fresh = if is_some b.client then cleared b else b in
    let found = (ble_device m.lookup).0 in
    if is_connected b
    then (true, b)
    else if is_some found
    then establish m (record fresh { expected_disconnect = false })
    else (false, fresh)

-- `_handle_disconnect`, and whether the disconnect callback is called
unfoldable pub handle_disconnect : BleClient → BleClient × Bool
handle_disconnect b = (cleared b, not b.expected_disconnect)

-- `_get_characteristic` under `_require_client` and `_require_services`
unfoldable pub get_characteristic : String → BleClient → Result BleError Characteristic
get_characteristic uuid b = elim b.services [
  | none ↦ raised ble_error
  | some s ↦ elim (s uuid) [ none ↦ raised ble_error | some c ↦ ok c ]
]

-- `_async_read_uuid`, with what reading gives
unfoldable pub read_uuid : (String → Option Bytes) → String → BleClient → Result BleError Bytes
unfolding get_characteristic
read_uuid reads uuid b =
    if is_connected b
    then elim (get_characteristic uuid b) [
      | raised e ↦ raised e
      | ok c ↦
          if c.readable
          then elim (reads uuid) [ none ↦ raised ble_error | some d ↦ ok d ]
          else raised ble_error
    ]
    else raised ble_error

-- the values of a payload; a parse that fails gives none
abbrev pub kept : Result ParseError (Option Change) → List Change
kept (raised e) = []
kept (ok none) = []
kept (ok (some c)) = c ∷ []

-- the values of one characteristic; a read that fails gives none
abbrev pub taken : String → Result BleError Bytes → List Change
taken uuid (raised e) = []
taken uuid (ok d) = kept (parse_characteristic_values uuid d)

unfoldable pub values_of : (String → Option Bytes) → BleClient → String → List Change
values_of reads b uuid = taken uuid (read_uuid reads uuid b)

-- `async_read_initial`
unfoldable pub read_all : (String → Option Bytes) → BleClient → List String → List Change
read_all reads b [] = []
read_all reads b (u ∷ us) = values_of reads b u ++ read_all reads b us

abbrev pub read_initial : (String → Option Bytes) → BleClient → List Change
read_initial reads b = read_all reads b read_uuids

-- the characteristic can notify, and the subscription works
abbrev subscribes : Services → (String → Bool) → String → Bool
subscribes s works uuid = elim (s uuid) [ none ↦ false | some c ↦ c.notifies && works uuid ]

unfoldable pub subscribe_all : Services → (String → Bool) → List String → List String
subscribe_all s works [] = []
subscribe_all s works (u ∷ us) =
    let rest = subscribe_all s works us in if subscribes s works u then u ∷ rest else rest

-- `async_start_notify`
unfoldable pub start_notify : (String → Bool) → BleClient → Result BleError (Unit {0}) × BleClient
start_notify works b =
    if is_connected b
    then elim b.services [
      | none ↦ (raised ble_error, b)
      | some s ↦ (ok tt, record b { notify = b.notify ++ subscribe_all s works notify_uuids })
    ]
    else (raised ble_error, b)

-- `_handle_notify`: the values that are handed on
unfoldable pub handle_notify : String → Bytes → List Change
handle_notify uuid d = kept (parse_characteristic_values uuid d)

-- `_async_write_then_read`: whether the write works, and what is read after it, which may depend on
-- what was written
unfoldable pub write_then_read :
    (Bytes → Bool)
    → (Bytes → String → Option Bytes)
    → String
    → Bytes
    → BleClient
    → Result BleError Bytes
unfolding get_characteristic
write_then_read writes reads uuid payload b =
    if is_connected b
    then elim (get_characteristic uuid b) [
      | raised e ↦ raised e
      | ok c ↦ if writes payload then read_uuid (reads payload) uuid b else raised ble_error
    ]
    else raised ble_error

module _ (writes : Bytes → Bool) (reads : Bytes → String → Option Bytes) where
  -- `async_write_co2_threshold`
  unfoldable pub write_co2_threshold : ℕ → BleClient → Result BleError ℕ
  write_co2_threshold value b =
      if ltb value 65536
      then elim (write_then_read writes reads co2_threshold_uuid (value % 256 ∷ value / 256 ∷ [])
          b) [
            | raised e ↦ raised e
            | ok d ↦ elim (uint16_le d) [ raised e ↦ raised value_error | ok n ↦ ok n ]
          ]
      else raised overflow_error

  -- `async_write_cool_down`
  unfoldable pub write_cool_down : ℕ → BleClient → Result BleError ℕ
  write_cool_down value b =
      if ltb value 256
      then elim (write_then_read writes reads cool_down_uuid (value ∷ []) b) [
        | raised e ↦ raised e
        | ok d ↦ elim (uint8 d) [ raised e ↦ raised value_error | ok n ↦ ok n ]
      ]
      else raised overflow_error
