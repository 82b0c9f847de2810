-- ===== src/Ble/Parse/Known.antt =====
-- custom_components/birdie/ble.py: reading a payload for a person (`parse_known_characteristic`). A
-- `Reading` has what the text is made of.
use ha_birdie.Base.{
  ℕ, String, ◌≡◌, refl, ap, Bool, true, false, Option, none, some, [], ◌∷◌, str_eq, if◌then◌else◌,
  contains, ◌||◌,
}
use ha_birdie.Base.Text.Case.{lower}
use ha_birdie.Base.Int.{ℤ}
use ha_birdie.Base.Result.{Result, ok, raised, ◌>>=◌}
use ha_birdie.Ble.Const.{
  co2_uuid, temperature_uuids, humidity_uuids, birdie_state_uuid, battery_level_uuid,
  co2_threshold_uuid, cool_down_uuid, firmware_revision_uuid, hardware_version_uuid,
  battery_level_percent,
}
use ha_birdie.Ble.Parse.{
  Bytes, ParseError, Version, Change, co2_ppm, temperature_celsius, humidity_percent, birdie_state,
  battery_percent, co2_threshold_ppm, cool_down_minutes, firmware_version, hardware_version, uint8,
  uint16_le, parse_temperature, parse_humidity, parse_birdie_state, parse_battery_percent,
  parse_version, parse_characteristic_values, as_change,
}

pub data Reading : Type 0 where
  ppm : ℕ → Reading
  degrees : ℤ → Reading
  relative : ℕ → Reading
  state_and_alarm : ℕ → Bool → Reading
  battery_enum : ℕ → Option ℕ → Reading
  minutes : ℕ → Reading
  version : Version → Reading
  unparsed : Reading

abbrev as_reading : {A : Type 0} → (A → Reading) → Result ParseError A → Result ParseError Reading
as_reading make r = r >>= λ a. ok (make a)

abbrev read_battery : Bytes → Result ParseError Reading
read_battery payload = do
  raw ← uint8 payload
  percent ← parse_battery_percent payload
  ok (battery_enum raw percent)

-- `parse_known_characteristic`
unfoldable pub parse_known_characteristic : String → Bytes → Result ParseError Reading
parse_known_characteristic characteristic_uuid payload =
    let uuid = lower characteristic_uuid in
    if str_eq co2_uuid uuid
    then as_reading ppm (uint16_le payload)
    else if contains temperature_uuids uuid
    then as_reading degrees (parse_temperature payload)
    else if contains humidity_uuids uuid
    then as_reading relative (parse_humidity payload)
    else if str_eq birdie_state_uuid uuid
    then as_reading (λ (s : ℕ × Bool). state_and_alarm s.0 s.1) (parse_birdie_state payload)
    else if str_eq battery_level_uuid uuid
    then read_battery payload
    else if str_eq co2_threshold_uuid uuid
    then as_reading ppm (uint16_le payload)
    else if str_eq cool_down_uuid uuid
    then as_reading minutes (uint8 payload)
    else if contains (firmware_revision_uuid ∷ hardware_version_uuid ∷ []) uuid
    then as_reading version (parse_version payload)
    else ok unparsed

-- What a reading and a field of `BirdieData` have in common.
pub data Fact : Type 0 where
  number : ℕ → Fact
  signed_number : ℤ → Fact
  level : Option ℕ → Fact
  three_numbers : Version → Fact
  nothing : Fact

abbrev pub reading_fact : Reading → Fact
reading_fact (ppm n) = number n
reading_fact (degrees z) = signed_number z
reading_fact (relative n) = number n
reading_fact (state_and_alarm s a) = number s
reading_fact (battery_enum raw p) = level p
reading_fact (minutes n) = number n
reading_fact (version v) = three_numbers v
reading_fact unparsed = nothing

abbrev pub change_fact : Option Change → Fact
change_fact none = nothing
change_fact (some (co2_ppm n)) = number n
change_fact (some (temperature_celsius z)) = signed_number z
change_fact (some (humidity_percent n)) = number n
change_fact (some (birdie_state n)) = number n
change_fact (some (battery_percent o)) = level o
change_fact (some (co2_threshold_ppm n)) = number n
change_fact (some (cool_down_minutes n)) = number n
change_fact (some (firmware_version v)) = three_numbers v
change_fact (some (hardware_version v)) = three_numbers v

-- the facts of a result
abbrev pub facts : {A : Type 0} → (A → Fact) → Result ParseError A → Result ParseError Fact
facts f (ok a) = ok (f a)
facts f (raised e) = raised e

Agrees : Result ParseError Reading → Result ParseError (Option Change) → Type 0
Agrees r s = facts reading_fact r ≡ facts change_fact s

as_reading-Agrees :
    {A : Type 0} (make : A → Reading) (field : A → Change)
    → ((a : A) → reading_fact (make a) ≡ change_fact (some (field a)))
    → (r : Result ParseError A) → Agrees (as_reading make r) (as_change field r)
unfolding Agrees
as_reading-Agrees make field h (ok a) = ap ok (h a)
as_reading-Agrees make field h (raised e) = refl

level-Agrees :
    (r : Result ParseError ℕ)
    → let percent = r >>= λ n. ok (battery_level_percent n) in
      Agrees
        (r >>= λ raw. (percent >>= λ p. ok (battery_enum raw p)))
        (as_change battery_percent percent)
unfolding Agrees
level-Agrees (ok n) = refl
level-Agrees (raised e) = refl

read_battery-Agrees :
    (payload : Bytes)
    → Agrees (read_battery payload) (as_change battery_percent (parse_battery_percent payload))
unfolding parse_battery_percent
read_battery-Agrees payload = level-Agrees (uint8 payload)

choose-Agrees :
    (b : Bool) (p q : Result ParseError Reading) (s t : Result ParseError (Option Change))
    → Agrees p s
    → Agrees q t
    → Agrees (if b then p else q) (if b then s else t)
choose-Agrees true p q s t h k = h
choose-Agrees false p q s t h k = k

version-Agrees :
    (firmware hardware : Bool) (r : Result ParseError Version)
    → Agrees (if firmware || (hardware || false) then as_reading version r else ok unparsed) (
        if firmware
        then as_change firmware_version r
        else if hardware
        then as_change hardware_version r
        else ok none)
unfolding Agrees
version-Agrees true h r = as_reading-Agrees version firmware_version (λ v. refl) r
version-Agrees false true r = as_reading-Agrees version hardware_version (λ v. refl) r
version-Agrees false false r = refl

-- A payload is read for a person as it is for `BirdieData`: both fail with the same error, or both have
-- the same fact, and an unknown characteristic has none.
pub parse_known-agrees :
    (characteristic_uuid : String) (payload : Bytes)
    → facts reading_fact (parse_known_characteristic characteristic_uuid payload)
      ≡ facts change_fact (parse_characteristic_values characteristic_uuid payload)
unfolding parse_known_characteristic parse_characteristic_values Agrees
parse_known-agrees characteristic_uuid payload =
    let uuid = lower characteristic_uuid in
    choose-Agrees (str_eq co2_uuid uuid) _ _ _ _
      (as_reading-Agrees ppm co2_ppm (λ n. refl) (uint16_le payload))
      (choose-Agrees (contains temperature_uuids uuid) _ _ _ _
        (as_reading-Agrees degrees temperature_celsius (λ n. refl) (parse_temperature payload))
        (choose-Agrees (contains humidity_uuids uuid) _ _ _ _
          (as_reading-Agrees relative humidity_percent (λ n. refl) (parse_humidity payload))
          (choose-Agrees (str_eq birdie_state_uuid uuid) _ _ _ _
            (as_reading-Agrees (λ (s : ℕ × Bool). state_and_alarm s.0 s.1)
              (λ (s : ℕ × Bool). birdie_state s.0) (λ s. refl) (parse_birdie_state payload))
            (choose-Agrees (str_eq battery_level_uuid uuid) _ _ _ _ (read_battery-Agrees payload) (
              choose-Agrees (str_eq co2_threshold_uuid uuid) _ _ _ _
                (as_reading-Agrees ppm co2_threshold_ppm (λ n. refl) (uint16_le payload))
                (choose-Agrees (str_eq cool_down_uuid uuid) _ _ _ _
                  (as_reading-Agrees minutes cool_down_minutes (λ n. refl) (uint8 payload))
                  (version-Agrees (str_eq firmware_revision_uuid uuid)
                    (str_eq hardware_version_uuid uuid) (parse_version payload))))))))
