-- ===== src/Ble/Entities/Shows.antt =====
-- What the entities of a Bluetooth device show and set (sensor.py, number.py, binary_sensor.py).
use ha_birdie.Base.{
  ℕ, ◌≤◌, String, ◌≡◌, refl, Bool, true, false, ◌==◌, str_eq, get_or, ap, ◌&&◌, if◌then◌else◌,
  Option, none, some, List, [], ◌∷◌, arith, contains,
}
use ha_birdie.Base.Result.{ok}
use ha_birdie.Ble.Const.{co2_threshold_uuid, cool_down_uuid, state_value, birdie_state_down}
use ha_birdie.Ble.Parse.{Bytes}
use ha_birdie.Ble.Data.{BirdieData, birdie_state_value, co2_alarm}
use ha_birdie.Ble.Coordinator.{BirdieCoordinator, Contact}
use ha_birdie.Ble.Coordinator.Writes.{Echoes, set_co2_threshold-echo, set_cool_down-echo}
use ha_birdie.Ble.Entities.{
  option, available, state_sensor, sensor_value, is_on, Entered, NumberKey, co2_threshold_number,
  cool_down_number, numbers, number_value, set_native_value,
}

-- the characteristic that a number is kept in
abbrev pub uuid_of : NumberKey → String
uuid_of co2_threshold_number = co2_threshold_uuid
uuid_of cool_down_number = cool_down_uuid

abbrev states : List String
states = "up" ∷ "down" ∷ "cooldown" ∷ "unknown" ∷ []

-- an option of the state sensor, which says "down" exactly if the alarm is on
abbrev IsState : String → Bool → Type 0
IsState shown alarm = (contains states shown ≡ true) × (str_eq "down" shown ≡ alarm)

by_test :
    (up down cooldown : Bool)
    → (up && down) ≡ false
    → IsState
        (if up then "up" else if down then "down" else if cooldown then "cooldown" else "unknown")
        down
by_test true false z h = (refl, refl)
by_test true true z h = absurd (cc h)
by_test false true z h = (refl, refl)
by_test false false true h = (refl, refl)
by_test false false false h = (refl, refl)

state_value-IsState : (s : ℕ) → IsState (state_value s) (s == birdie_state_down)
unfolding state_value
state_value-IsState s = by_test (s == 0) (s == 1) (s == 2) (ground arith)

data-IsState :
    (d : BirdieData) (o : Option ℕ)
    → d.state ≡ o
    → IsState (birdie_state_value d) (get_or (co2_alarm d) false)
unfolding birdie_state_value co2_alarm
data-IsState d none h = rw h (refl, refl)
data-IsState d (some s) h = rw h (state_value-IsState s)

-- The state sensor always shows one of its options, and it shows "down" exactly if the CO2 alarm is on.
pub state_sensor-alarm :
    (c : BirdieCoordinator)
    → (shown : String) × (sensor_value state_sensor c ≡ option shown)
      × (options : List String) × (state_sensor.options ≡ some options)
      × (contains options shown ≡ true)
      × (str_eq "down" shown ≡ get_or (is_on c) false)
unfolding sensor_value is_on birdie_state_value co2_alarm
state_sensor-alarm c =
    let (listed, alarm) = data-IsState c.shown c.shown.state refl in
    (birdie_state_value c.shown, refl, states, refl, listed, alarm)

module _ (k : Contact) (writes : Bytes → Bool) (reads : Bytes → String → Option Bytes)
    (c : BirdieCoordinator) where
  -- On a connected device that keeps what is written, each number that a user can enter is accepted,
  -- its whole part is the value that the entity shows then, within the entity's bounds, and the
  -- entity is available if the last update succeeded.
  pub set_native_value-shown :
      (key : NumberKey) (value : Entered)
      → Echoes c.client (uuid_of key) writes reads
      → (numbers k writes reads key).native_min_value ≤ value.whole
      → value.whole ≤ (numbers k writes reads key).native_max_value
      → let r = set_native_value k writes reads key value c in
        (r.0 ≡ ok tt)
        × (number_value k writes reads key r.1 ≡ some value.whole)
        × (available true r.1 ≡ true)
  unfolding set_native_value number_value available
  set_native_value-shown co2_threshold_number value h low high =
      let (done, shown, same) = set_co2_threshold-echo k writes reads c value.whole h low high in
      (
        done,
        ap (λ (d : BirdieData). d.co2_threshold) shown,
        ap (λ (d : BirdieData). d.available) shown,
      )
  set_native_value-shown cool_down_number value h low high =
      let (done, shown, same) = set_cool_down-echo k writes reads c value.whole h low high in
      (done, ap (λ (d : BirdieData). d.cool_down) shown, ap (λ (d : BirdieData). d.available) shown)
