-- ===== src/Ble/Parse/Values.antt =====
-- Which payloads `parse_characteristic_values` takes (ble.py).
use ha_birdie.Base.{
  ℕ, String, ◌≡◌, refl, Bool, true, false, List, [], ◌∷◌, arith, str_eq, ◌==◌, length, ◌||◌,
  if◌then◌else◌,
}
use ha_birdie.Base.Text.Case.{lower}
use ha_birdie.Base.Result.{Result, ok, raised}
use ha_birdie.Ble.Const.{
  co2_uuid, legacy_temperature_uuid, temperature_uuid, legacy_humidity_uuid, humidity_uuid,
  birdie_state_uuid, battery_level_uuid, co2_threshold_uuid, cool_down_uuid, firmware_revision_uuid,
  hardware_version_uuid,
}
use ha_birdie.Ble.Parse.{
  Bytes, ParseError, Change, as_change, parse_characteristic_values, uint8, uint16_le, int16_le,
  int32_le, uint32_le, parse_version, parse_temperature, parse_humidity, parse_birdie_state,
  parse_battery_percent,
}

-- the characteristics that carry a reading, with the number of bytes a payload may have
abbrev pub formats : List (String × List ℕ)
formats =
    (co2_uuid, 2 ∷ [])
    ∷ (legacy_temperature_uuid, 2 ∷ 4 ∷ [])
    ∷ (temperature_uuid, 2 ∷ 4 ∷ [])
    ∷ (legacy_humidity_uuid, 2 ∷ 4 ∷ [])
    ∷ (humidity_uuid, 2 ∷ 4 ∷ [])
    ∷ (birdie_state_uuid, 1 ∷ [])
    ∷ (battery_level_uuid, 1 ∷ [])
    ∷ (co2_threshold_uuid, 2 ∷ [])
    ∷ (cool_down_uuid, 1 ∷ [])
    ∷ (firmware_revision_uuid, 3 ∷ [])
    ∷ (hardware_version_uuid, 3 ∷ [])
    ∷ []

abbrev one_of : List ℕ → ℕ → Bool
one_of [] n = false
one_of (m ∷ ms) n = (n == m) || one_of ms n

-- the length is one of those of the characteristic's format; any is, where there is no format
abbrev pub fits : List (String × List ℕ) → String → ℕ → Bool
fits [] uuid n = true
fits (row ∷ rows) uuid n = if str_eq row.0 uuid then one_of row.1 n else fits rows uuid n

abbrev pub parses : {A : Type 0} → Result ParseError A → Bool
parses (ok a) = true
parses (raised e) = false

module _ (p : Bytes) where
  uint8-parses : parses (uint8 p) ≡ (length p == 1)
  unfolding uint8
  uint8-parses = ground arith

  uint16-parses : parses (uint16_le p) ≡ (length p == 2)
  unfolding uint16_le
  uint16-parses = ground arith

  temperature-parses : parses (parse_temperature p) ≡ ((length p == 2) || (length p == 4))
  unfolding parse_temperature int16_le int32_le
  temperature-parses = ground arith

  humidity-parses : parses (parse_humidity p) ≡ ((length p == 2) || (length p == 4))
  unfolding parse_humidity uint16_le uint32_le
  humidity-parses = ground arith

version-parses : (p : Bytes) → parses (parse_version p) ≡ (length p == 3)
unfolding parse_version
version-parses (a ∷ b ∷ c ∷ []) = refl
version-parses [] = refl
version-parses (a ∷ []) = refl
version-parses (a ∷ b ∷ []) = refl
version-parses (a ∷ b ∷ c ∷ d ∷ e) = ground arith

state-parses : (p : Bytes) → parses (parse_birdie_state p) ≡ (length p == 1)
unfolding parse_birdie_state uint8
state-parses p = ground arith

battery-parses : (p : Bytes) → parses (parse_battery_percent p) ≡ (length p == 1)
unfolding parse_battery_percent uint8
battery-parses p = ground arith

parses-as_change :
    {A : Type 0} (field : A → Change) (r : Result ParseError A)
    → parses (as_change field r) ≡ parses r
parses-as_change field (ok a) = refl
parses-as_change field (raised e) = refl

parses-if :
    {A : Type 0} (b : Bool) (x y : Result ParseError A)
    → parses (if b then x else y) ≡ (if b then parses x else parses y)
parses-if true x y = refl
parses-if false x y = refl

if-or :
    {A : Type 0} (a b : Bool) (x y : A)
    → (if a || b then x else y) ≡ (if a then x else if b then x else y)
if-or true b x y = refl
if-or false b x y = refl

or-false : (b : Bool) → (b || false) ≡ b
or-false true = refl
or-false false = refl

-- A payload of a known characteristic, whose UUID may be in either case, is parsed exactly if it has
-- one of the lengths that the characteristic allows, and an unknown characteristic is never an error.
pub parse-fits :
    (uuid : String) (p : Bytes)
    → parses (parse_characteristic_values uuid p) ≡ fits formats (lower uuid) (length p)
unfolding parse_characteristic_values
parse-fits uuid p =
    simp
      (
        parses-if,
        parses-as_change,
        uint16-parses p,
        temperature-parses p,
        humidity-parses p,
        state-parses p,
        battery-parses p,
        uint8-parses p,
        version-parses p,
        if-or,
        or-false,
      )
      refl
