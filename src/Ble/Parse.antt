-- ===== src/Ble/Parse.antt =====
-- custom_components/birdie/ble.py: the parsers. A payload is the list of its bytes. A float `n / 1000`
-- is kept as `n`, its thousandths, and a version as its three numbers.
pub mod Numbers
pub mod Values
pub mod Known
mod Tests
use ha_birdie.Base.{
  ℕ, ◌+◌, ◌-◌, ◌*◌, ◌^◌, String, Bool, true, false, Option, none, some, List, [], ◌∷◌, str_eq, ◌==◌,
  ltb, if◌then◌else◌, contains, length, ◌||◌,
}
use ha_birdie.Base.Text.Case.{lower}
use ha_birdie.Base.Int.{ℤ, pos, negsuc}
use ha_birdie.Base.Result.{Result, ok, raised, ◌>>=◌}
use ha_birdie.Ble.Const.{
  environmental_service_uuid, co2_uuid, temperature_uuids, humidity_uuids, birdie_state_uuid,
  battery_level_uuid, co2_threshold_uuid, cool_down_uuid, firmware_revision_uuid,
  hardware_version_uuid, birdie_state_down, battery_level_percent,
}

-- the `ValueError` of a payload of the wrong length
pub data ParseError : Type 0 where
  wrong_length : ℕ → ParseError

abbrev pub Bytes : Type 0
Bytes = List ℕ

-- `_ensure_length`
unfoldable pub ensure_length : Bytes → ℕ → Result ParseError Bytes
ensure_length payload expected =
    if length payload == expected then ok payload else raised (wrong_length (length payload))

-- int.from_bytes(…, "little", signed=False)
unfoldable pub from_bytes : Bytes → ℕ
from_bytes [] = 0
from_bytes (b ∷ bs) = b + 256 * from_bytes bs

-- the two's complement reading of `n` in `half` times two values
unfoldable pub signed : ℕ → ℕ → ℤ
signed half n = if ltb n half then pos n else negsuc (2 * half - n - 1)

unfoldable pub uint8 : Bytes → Result ParseError ℕ
unfolding ensure_length from_bytes
uint8 payload = do b ← ensure_length payload 1; ok (from_bytes b)

unfoldable pub uint16_le : Bytes → Result ParseError ℕ
unfolding ensure_length from_bytes
uint16_le payload = do b ← ensure_length payload 2; ok (from_bytes b)

unfoldable pub int16_le : Bytes → Result ParseError ℤ
unfolding ensure_length from_bytes signed
int16_le payload = do b ← ensure_length payload 2; ok (signed (2 ^ 15) (from_bytes b))

unfoldable pub uint32_le : Bytes → Result ParseError ℕ
unfolding ensure_length from_bytes
uint32_le payload = do b ← ensure_length payload 4; ok (from_bytes b)

unfoldable pub int32_le : Bytes → Result ParseError ℤ
unfolding ensure_length from_bytes signed
int32_le payload = do b ← ensure_length payload 4; ok (signed (2 ^ 31) (from_bytes b))

abbrev pub Version : Type 0
Version = ℕ × ℕ × ℕ

unfoldable pub parse_version : Bytes → Result ParseError Version
parse_version (a ∷ b ∷ c ∷ []) = ok (a, b, c)
parse_version payload = raised (wrong_length (length payload))

-- thousandths of a degree Celsius
unfoldable pub parse_temperature : Bytes → Result ParseError ℤ
parse_temperature payload =
    if length payload == 2
    then int16_le payload
    else if length payload == 4
    then int32_le payload
    else raised (wrong_length (length payload))

-- thousandths of a percent of relative humidity
unfoldable pub parse_humidity : Bytes → Result ParseError ℕ
parse_humidity payload =
    if length payload == 2
    then uint16_le payload
    else if length payload == 4
    then uint32_le payload
    else raised (wrong_length (length payload))

-- the state and the alarm of `parse_birdie_state`; the name only reaches the log
unfoldable pub parse_birdie_state : Bytes → Result ParseError (ℕ × Bool)
parse_birdie_state payload = do state ← uint8 payload; ok (state, state == birdie_state_down)

unfoldable pub parse_battery_percent : Bytes → Result ParseError (Option ℕ)
parse_battery_percent payload = do level ← uint8 payload; ok (battery_level_percent level)

-- One field of `BirdieData` and its new value.
pub data Change : Type 0 where
  co2_ppm : ℕ → Change
  temperature_celsius : ℤ → Change
  humidity_percent : ℕ → Change
  birdie_state : ℕ → Change
  battery_percent : Option ℕ → Change
  co2_threshold_ppm : ℕ → Change
  cool_down_minutes : ℕ → Change
  firmware_version : Version → Change
  hardware_version : Version → Change

abbrev pub as_change :
    {A : Type 0} → (A → Change) → Result ParseError A → Result ParseError (Option Change)
as_change field r = r >>= λ a. ok (some (field a))

-- `parse_characteristic_values`: at most one field, and none for an unknown characteristic
unfoldable pub parse_characteristic_values : String → Bytes → Result ParseError (Option Change)
parse_characteristic_values characteristic_uuid payload =
    let uuid = lower characteristic_uuid in
    if str_eq co2_uuid uuid
    then as_change co2_ppm (uint16_le payload)
    else if contains temperature_uuids uuid
    then as_change temperature_celsius (parse_temperature payload)
    else if contains humidity_uuids uuid
    then as_change humidity_percent (parse_humidity payload)
    else if str_eq birdie_state_uuid uuid
    then as_change (λ (s : ℕ × Bool). birdie_state s.0) (parse_birdie_state payload)
    else if str_eq battery_level_uuid uuid
    then as_change battery_percent (parse_battery_percent payload)
    else if str_eq co2_threshold_uuid uuid
    then as_change co2_threshold_ppm (uint16_le payload)
    else if str_eq cool_down_uuid uuid
    then as_change cool_down_minutes (uint8 payload)
    else if str_eq firmware_revision_uuid uuid
    then as_change firmware_version (parse_version payload)
    else if str_eq hardware_version_uuid uuid
    then as_change hardware_version (parse_version payload)
    else ok none
