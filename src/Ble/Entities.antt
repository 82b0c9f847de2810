-- ===== src/Ble/Entities.antt =====
-- The entities of a Bluetooth device: custom_components/birdie/entity.py, sensor.py, number.py and
-- binary_sensor.py. Names, units and unique ids are left out.
pub mod Shows
mod Tests
use ha_birdie.Base.{
  get_or, if◌then◌else◌, ℕ, String, Bool, true, false, ◌&&◌, Option, none, some, List, [], ◌∷◌, map,
}
use text.Mathlib.Text.{starts_with}
use ha_birdie.Base.Int.{ℤ, pos}
use ha_birdie.Base.Result.{Result}
use ha_birdie.Ble.Parse.{Bytes, Version}
use ha_birdie.Ble.Data.{BirdieData, birdie_state_value, co2_alarm}
use ha_birdie.Ble.Coordinator.{
  BirdieCoordinator, Contact, Problem, set_co2_threshold, set_cool_down,
}

-- what a sensor shows: nothing, a number, a number in thousandths, or a text
pub data StateValue : Type 0 where
  no_value : StateValue
  amount : ℕ → StateValue
  thousandths : ℤ → StateValue
  option : String → StateValue

abbrev amount_of : Option ℕ → StateValue
amount_of none = no_value
amount_of (some n) = amount n

abbrev thousandths_of : Option ℤ → StateValue
thousandths_of none = no_value
thousandths_of (some z) = thousandths z

abbrev signed_of : Option ℕ → Option ℤ
signed_of none = none
signed_of (some n) = some (pos n)

-- `BirdieEntity.available`; the coordinator's own is `last_update_success`
unfoldable pub available : Bool → BirdieCoordinator → Bool
available last_update_success c = last_update_success && c.shown.available

-- `BirdieCoordinator.model`, by the name of the device, which never changes
unfoldable pub model : BirdieCoordinator → String
model c = if starts_with (get_or c.shown.name "") "Birdie Pro" then "Birdie Pro" else "Birdie"

-- `DeviceInfo`; the identifier and the connection are the address
pub record DeviceInfo : Type 0 where
  pub address : String
  pub manufacturer : String
  pub model_name : String
  pub device_name : Option String
  pub sw_version : Option Version
  pub hw_version : Option Version

-- `BirdieEntity.device_info`
unfoldable pub device_info : BirdieCoordinator → DeviceInfo
device_info c = record {
  address = c.shown.address;
  manufacturer = "Birdie";
  model_name = model c;
  device_name = c.shown.name;
  sw_version = c.shown.firmware;
  hw_version = c.shown.hardware;
}

-- `BirdieSensorEntityDescription`
pub record SensorDescription : Type 0 where
  pub key : String
  pub options : Option (List String)
  pub value_fn : BirdieData → StateValue

-- the elements of `SENSORS`
abbrev pub co2_sensor : SensorDescription
co2_sensor = record { key = "co2"; options = none; value_fn = λ d. amount_of d.co2 }

abbrev pub temperature_sensor : SensorDescription
temperature_sensor = record {
  key = "temperature";
  options = none;
  value_fn = λ d. thousandths_of d.temperature;
}

abbrev pub humidity_sensor : SensorDescription
humidity_sensor = record {
  key = "humidity";
  options = none;
  value_fn = λ d. thousandths_of (signed_of d.humidity);
}

abbrev pub state_sensor : SensorDescription
state_sensor = record {
  key = "state";
  options = some ("up" ∷ "down" ∷ "cooldown" ∷ "unknown" ∷ []);
  value_fn = λ d. option (birdie_state_value d);
}

abbrev pub battery_sensor : SensorDescription
battery_sensor = record { key = "battery"; options = none; value_fn = λ d. amount_of d.battery }

-- `SENSORS`
abbrev pub sensors : List SensorDescription
sensors = co2_sensor ∷ temperature_sensor ∷ humidity_sensor ∷ state_sensor ∷ battery_sensor ∷ []

-- `BirdieSensor.native_value`
unfoldable pub sensor_value : SensorDescription → BirdieCoordinator → StateValue
sensor_value d c = d.value_fn c.shown

-- `BirdieCO2AlarmBinarySensor.is_on`
unfoldable pub is_on : BirdieCoordinator → Option Bool
is_on c = co2_alarm c.shown

-- A number that a user enters, by its whole part and its thousandths.
pub record Entered : Type 0 where
  pub whole : ℕ
  pub fraction : ℕ

-- the elements of `NUMBERS`, by their keys
pub data NumberKey : Type 0 where
  co2_threshold_number cool_down_number : NumberKey

module _ (k : Contact) (writes : Bytes → Bool) (reads : Bytes → String → Option Bytes) where
  -- `BirdieNumberEntityDescription`
  pub record NumberDescription : Type 0 where
    pub native_min_value : ℕ
    pub native_max_value : ℕ
    pub current : BirdieData → Option ℕ
    pub set_value_fn : ℕ → BirdieCoordinator → Result Problem (Unit {0}) × BirdieCoordinator

  -- `NUMBERS`
  abbrev pub numbers : NumberKey → NumberDescription
  numbers co2_threshold_number = record {
    native_min_value = 400;
    native_max_value = 5000;
    current = λ d. d.co2_threshold;
    set_value_fn = set_co2_threshold k writes reads;
  }
  numbers cool_down_number = record {
    native_min_value = 1;
    native_max_value = 240;
    current = λ d. d.cool_down;
    set_value_fn = set_cool_down k writes reads;
  }

  -- `BirdieNumber.native_value`
  unfoldable pub number_value : NumberKey → BirdieCoordinator → Option ℕ
  number_value key c = (numbers key).current c.shown

  -- `BirdieNumber.async_set_native_value`, which drops the fraction
  unfoldable pub set_native_value :
      NumberKey → Entered → BirdieCoordinator → Result Problem (Unit {0}) × BirdieCoordinator
  set_native_value key value c = (numbers key).set_value_fn value.whole c
