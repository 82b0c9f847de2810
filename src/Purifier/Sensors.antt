-- ===== src/Purifier/Sensors.antt =====
-- custom_components/birdie/purifier/sensor.py and binary_sensor.py: the entities that show values of a
-- purifier. A description has its key, its options where it is an enumeration, whether its unit is a
-- percentage, the value that it shows, and the DPs that it needs. Names and units are left out.
pub mod Fits
mod Tests
use ha_birdie.Base.{ℕ, String, Bool, true, false, Option, none, some, List, [], ◌∷◌}
use ha_birdie.Base.Int.{ℤ, pos}
use ha_birdie.Base.Result.{Result}
use ha_birdie.Lan.Device.{Answer}
use ha_birdie.Purifier.Model.{
  PurifierState, air_quality_levels, faults, dp_pm25, dp_air_quality, dp_filter_total_minutes,
  dp_filter_used_minutes, dp_device_error, dp_filter_status, dp_filter_cover, reset_filter_dps,
}
use ha_birdie.Purifier.Coordinator.{Coordinator}
use ha_birdie.Purifier.Coordinator.Handlers.{send_dps}
use ha_birdie.Purifier.Fan.{state_data, entity_available}

-- what a sensor shows; `no_value` is `None`
pub data StateValue : Type 0 where
  no_value : StateValue
  amount : ℤ → StateValue
  option : String → StateValue

abbrev pub amount_of : Option ℤ → StateValue
amount_of none = no_value
amount_of (some z) = amount z

abbrev pub count_of : Option ℕ → StateValue
count_of none = no_value
count_of (some n) = amount (pos n)

abbrev pub option_of : Option String → StateValue
option_of none = no_value
option_of (some s) = option s

-- `BirdiePurifierSensorEntityDescription`
pub record SensorDescription : Type 0 where
  pub key : String
  pub options : Option (List String)
  pub percentage : Bool
  pub value_fn : PurifierState → StateValue
  pub required_dps : List String

abbrev pub filter_dps : List String
filter_dps = dp_filter_total_minutes ∷ dp_filter_used_minutes ∷ []

-- the elements of `PURIFIER_SENSORS`
abbrev pub pm25_sensor : SensorDescription
pm25_sensor = record {
  key = "pm25";
  options = none;
  percentage = false;
  value_fn = λ s. amount_of s.pm25;
  required_dps = dp_pm25 ∷ [];
}

abbrev pub air_quality_sensor : SensorDescription
air_quality_sensor = record {
  key = "air_quality";
  options = some air_quality_levels;
  percentage = false;
  value_fn = λ s. option_of s.air_quality;
  required_dps = dp_air_quality ∷ [];
}

abbrev pub filter_life_sensor : SensorDescription
filter_life_sensor = record {
  key = "filter_life";
  options = none;
  percentage = true;
  value_fn = λ s. count_of s.filter_life_percent;
  required_dps = filter_dps;
}

abbrev pub filter_remaining_sensor : SensorDescription
filter_remaining_sensor = record {
  key = "filter_remaining";
  options = none;
  percentage = false;
  value_fn = λ s. count_of s.filter_remaining_minutes;
  required_dps = filter_dps;
}

abbrev pub device_status_sensor : SensorDescription
device_status_sensor = record {
  key = "device_status";
  options = some faults;
  percentage = false;
  value_fn = λ s. option_of s.fault;
  required_dps = dp_device_error ∷ [];
}

abbrev pub purifier_sensors : List SensorDescription
purifier_sensors =
    pm25_sensor ∷ air_quality_sensor ∷ filter_life_sensor ∷ filter_remaining_sensor
    ∷ device_status_sensor ∷ []

-- `native_value`
unfoldable pub native_value : SensorDescription → Coordinator → StateValue
unfolding state_data
native_value d c = d.value_fn (state_data c)

-- `available`
unfoldable pub sensor_available : SensorDescription → Coordinator → Bool
unfolding entity_available
sensor_available d c = entity_available d.required_dps c

-- `BirdiePurifierBinarySensorEntityDescription`
pub record BinarySensorDescription : Type 0 where
  pub key : String
  pub is_on_fn : PurifierState → Option Bool
  pub required_dps : List String

-- `PURIFIER_BINARY_SENSORS`
abbrev pub purifier_binary_sensors : List BinarySensorDescription
purifier_binary_sensors =
    record {
      key = "filter_replacement";
      is_on_fn = λ s. s.filter_replace_needed;
      required_dps = dp_filter_status ∷ [];
    }
    ∷ record {
      key = "filter_cover";
      is_on_fn = λ s. s.filter_cover_open;
      required_dps = dp_filter_cover ∷ [];
    }
    ∷ []

-- `is_on`
unfoldable pub is_on : BinarySensorDescription → Coordinator → Option Bool
unfolding state_data
is_on d c = d.is_on_fn (state_data c)
