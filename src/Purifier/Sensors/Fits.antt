-- ===== src/Purifier/Sensors/Fits.antt =====
-- What the sensors of a purifier show (purifier/sensor.py).
use ha_birdie.Base.{
  ℕ, String, ◌≡◌, refl, true, false, ◌⊎◌, inl, inr, Option, none, some, List, All, contains,
  is_some, ◌≤◌,
}
use ha_birdie.Base.Int.{ℤ, pos, negsuc}
use ha_birdie.Dps.{Dps}
use ha_birdie.Purifier.Model.{PurifierState, from_dps, air_quality_levels, faults}
use ha_birdie.Purifier.Model.Valid.{IfSome, IsValid, from_dps-IsValid}
use ha_birdie.Purifier.Coordinator.{Coordinator}
use ha_birdie.Purifier.Fan.{state_data}
use ha_birdie.Purifier.Sensors.{
  StateValue, no_value, amount, option, amount_of, count_of, option_of, SensorDescription,
  purifier_sensors, pm25_sensor, air_quality_sensor, filter_life_sensor, filter_remaining_sensor,
  device_status_sensor, native_value,
}

-- A value is of the sensor's kind: one of the options of an enumeration, at most 100 where it is a
-- percentage, and else a number; or it is missing.
abbrev pub Fits : SensorDescription → StateValue → Type 0
Fits d no_value = Unit
Fits d (amount (pos n)) = (is_some d.options ≡ false) × ((d.percentage ≡ false) ⊎ (n ≤ 100))
Fits d (amount (negsuc n)) = (is_some d.options ≡ false) × (d.percentage ≡ false)
Fits d (option s) =
    (options : List String) × (d.options ≡ some options) × (contains options s ≡ true)

amount-Fits :
    (d : SensorDescription) (o : Option ℤ)
    → is_some d.options ≡ false
    → d.percentage ≡ false
    → Fits d (amount_of o)
amount-Fits d none h p = tt
amount-Fits d (some (pos n)) h p = (h, inl p)
amount-Fits d (some (negsuc n)) h p = (h, p)

count-Fits :
    (d : SensorDescription) (o : Option ℕ)
    → is_some d.options ≡ false
    → (d.percentage ≡ false) ⊎ IfSome (λ n. n ≤ 100) o
    → Fits d (count_of o)
count-Fits d none h p = tt
count-Fits d (some n) h p = (h, p)

option-Fits :
    (d : SensorDescription) (options : List String) (o : Option String)
    → d.options ≡ some options
    → IfSome (λ s. contains options s ≡ true) o
    → Fits d (option_of o)
option-Fits d options none h p = tt
option-Fits d options (some s) h p = (options, h, p)

-- what the sensors show of a state
state-Fits : (s : PurifierState) → IsValid s → All (λ d. Fits d (d.value_fn s)) purifier_sensors
state-Fits s v = (
  amount-Fits pm25_sensor s.pm25 refl refl,
  (
    option-Fits air_quality_sensor air_quality_levels s.air_quality refl v.level_known,
    (
      count-Fits filter_life_sensor s.filter_life_percent refl (inr v.life_bounded),
      (
        count-Fits filter_remaining_sensor s.filter_remaining_minutes refl (inl refl),
        (option-Fits device_status_sensor faults s.fault refl v.fault_known, tt),
      ),
    ),
  ),
)

-- Whatever the device has reported, or while nothing is known of it, each sensor shows nothing, an
-- option of its enumeration, or a number, which is from 0 to 100 for the percentage.
pub native_value-Fits :
    (c : Coordinator) (dps : Dps)
    → (c.data_seen ≡ none) ⊎ (c.data_seen ≡ some (from_dps dps))
    → All (λ d. Fits d (native_value d c)) purifier_sensors
unfolding native_value state_data
native_value-Fits c dps (inl e) = rw e (tt, (tt, (tt, (tt, (tt, tt)))))
native_value-Fits c dps (inr e) = rw e (state-Fits (from_dps dps) (from_dps-IsValid dps))
