-- ===== src/Purifier/Model.antt =====
-- custom_components/birdie/purifier/model.py: data points to state, and commands to data points.
-- Decoding is modelled for the values on which it does not raise: `int()` raises for a float that is
-- not finite, which is no value here (Dps), and for a digit such as a superscript, which `isdigit()`
-- takes. A digit is an ASCII digit here, so a mode with other ones is not recognised. The filter's minutes are divided exactly and rounded half to even: the
-- float division agrees for totals below 2 ^ 45 minutes (the DP's documented range ends at 129600).
pub mod Decode
pub mod Valid
pub mod Commands
mod Tests
use ha_birdie.Base.{
  ℕ, ◌+◌, ◌-◌, ◌*◌, ◌/◌, ◌%◌, ◌^◌, String, Bool, true, false, not, ◌&&◌, ◌||◌, Option, none, some,
  List, [], ◌∷◌, str_eq, ltb, leb, ◌==◌, if◌then◌else◌, is_some, contains, codes,
}
use ha_birdie.Base.Int.{ℤ, pos, negsuc, pos_part, ◌-ℤ◌}
use ha_birdie.Base.Dict.{lookup, has_key, update, remove}
use ha_birdie.Base.Result.{Result, ok, raised}
use ha_birdie.Dps.{Value, bool, int, float, str, Dps}

abbrev pub dp_switch : String
dp_switch = "1"

abbrev pub dp_pm25 : String
dp_pm25 = "2"

abbrev pub dp_mode : String
dp_mode = "3"

abbrev pub dp_air_quality : String
dp_air_quality = "21"

abbrev pub dp_filter_total_minutes : String
dp_filter_total_minutes = "105"

abbrev pub dp_filter_used_minutes : String
dp_filter_used_minutes = "106"

abbrev pub dp_filter_status : String
dp_filter_status = "107"

abbrev pub dp_reset_filter : String
dp_reset_filter = "108"

abbrev pub dp_filter_cover : String
dp_filter_cover = "109"

abbrev pub dp_hw_version : String
dp_hw_version = "110"

abbrev pub dp_device_error : String
dp_device_error = "111"

abbrev pub preset_modes : List String
preset_modes = "auto" ∷ "sleep" ∷ []

abbrev pub air_quality_levels : List String
air_quality_levels = "good" ∷ "moderate" ∷ "poor" ∷ "very_poor" ∷ []

-- `_FAULTS_BY_DP.get`
abbrev pub fault_by_dp : String → Option String
fault_by_dp e =
    if str_eq e "normal"
    then some "none"
    else if str_eq e "fan"
    then some "fan"
    else if str_eq e "pm25"
    then some "pm25_sensor"
    else if str_eq e "ocp"
    then some "overcurrent"
    else none

abbrev pub faults : List String
faults = "none" ∷ "fan" ∷ "pm25_sensor" ∷ "overcurrent" ∷ []

-- `CommandError`, by its reason
pub data CommandError : Type 0 where
  unknown_mode speed_not_an_integer speed_out_of_range : CommandError

unfoldable pub to_bool : Option Value → Option Bool
to_bool (some (bool b)) = some b
to_bool _ = none

-- `int(value)` of a finite float drops the fraction.
abbrev truncate : ℤ → ℕ → ℤ
truncate (pos n) k = pos (n / 2 ^ k)
truncate (negsuc n) k = pos 0 -ℤ pos ((n + 1) / 2 ^ k)

unfoldable pub to_int : Option Value → Option ℤ
to_int (some (int n)) = some n
to_int (some (float n k)) = some (truncate n k)
to_int _ = none

unfoldable pub known : Option Value → List String → Option String
known (some (str s)) options = if contains options s then some s else none
known _ options = none

abbrev same_flag : Bool → Bool → Bool
same_flag true b = b
same_flag false b = not b

unfoldable pub flag : Option Value → Bool → Option Bool
flag (some (bool b)) true_means = some (same_flag b true_means)
flag _ true_means = none

-- `removeprefix`, or `none` where `startswith` fails
unfoldable pub strip_prefix : List ℕ → List ℕ → Option (List ℕ)
strip_prefix [] s = some s
strip_prefix (p ∷ ps) [] = none
strip_prefix (p ∷ ps) (c ∷ s) = if p == c then strip_prefix ps s else none

abbrev is_digit : ℕ → Bool
is_digit c = leb b'0' c && leb c b'9'

all_digits : List ℕ → Bool
all_digits [] = true
all_digits (c ∷ s) = is_digit c && all_digits s

-- `isdigit` of an ASCII text: no empty text is one
abbrev is_digits : List ℕ → Bool
is_digits [] = false
is_digits (c ∷ s) = is_digit c && all_digits s

-- `int(suffix)` of a text of digits
unfoldable pub int_of : ℕ → List ℕ → ℕ
int_of acc [] = acc
int_of acc (c ∷ s) = int_of (acc * 10 + (c - b'0')) s

abbrev pub Mode : Type 0
Mode = Option String × Option ℕ

unfoldable pub decode_manual : Option (List ℕ) → Mode
unfolding all_digits int_of
decode_manual none = (none, none)
decode_manual (some suffix) =
    let speed = int_of 0 suffix in
    if is_digits suffix && (leb 1 speed && leb speed 4)
    then (some "manual", some speed)
    else (none, none)

unfoldable pub decode_mode : Option Value → Mode
unfolding decode_manual strip_prefix
decode_mode (some (str s)) =
    if contains preset_modes s
    then (some s, none)
    else decode_manual (strip_prefix (codes "manual") (codes s))
decode_mode _ = (none, none)

pub record PurifierState : Type 0 where
  pub power : Option Bool
  pub mode : Option String
  pub fan_speed : Option ℕ
  pub pm25 : Option ℤ
  pub air_quality : Option String
  pub filter_life_percent : Option ℕ
  pub filter_remaining_minutes : Option ℕ
  pub filter_replace_needed : Option Bool
  pub filter_cover_open : Option Bool
  pub hardware_version : Option String
  pub fault : Option String
  pub dps : Dps

-- max(0, total - used)
unfoldable pub remaining_minutes : Option ℤ → Option ℤ → Option ℕ
remaining_minutes (some total) (some used) = some (pos_part (total -ℤ used))
remaining_minutes _ _ = none

-- round(a / b), halves to even
unfoldable pub round_div : ℕ → ℕ → ℕ
round_div a b =
    let q = a / b in
    let r = a % b in if ltb (2 * r) b then q else if ltb b (2 * r) then q + 1 else q + q % 2

-- round(min(100.0, remaining * 100.0 / total))
unfoldable pub life_percent : Option ℤ → Option ℕ → Option ℕ
life_percent (some (pos total)) (some remaining) =
    if ltb 0 total
    then some (if ltb total remaining then 100 else round_div (remaining * 100) total)
    else none
life_percent _ _ = none

unfoldable pub decode_fault : Option Value → Option String
decode_fault (some (str e)) = fault_by_dp e
decode_fault _ = none

unfoldable pub decode_hardware : Option Value → Option String
decode_hardware (some (str h)) = if str_eq h "" then none else some h
decode_hardware _ = none

abbrev pub is_text : Option String → String → Bool
is_text none t = false
is_text (some s) t = str_eq s t

-- With a broken PM2.5 sensor, `fault` hides the two values that depend on it.
abbrev sensor_ok : Option String → Bool
sensor_ok fault = not (is_text fault "pm25_sensor")

unfoldable pub from_dps : Dps → PurifierState
from_dps dps =
    let mode = decode_mode (lookup dp_mode dps) in
    let total = to_int (lookup dp_filter_total_minutes dps) in
    let used = to_int (lookup dp_filter_used_minutes dps) in
    let remaining = remaining_minutes total used in
    let fault = decode_fault (lookup dp_device_error dps) in
    record {
      power = to_bool (lookup dp_switch dps);
      mode = mode.0;
      fan_speed = mode.1;
      pm25 = if sensor_ok fault then to_int (lookup dp_pm25 dps) else none;
      air_quality =
          if sensor_ok fault then known (lookup dp_air_quality dps) air_quality_levels else none;
      filter_life_percent = life_percent total remaining;
      filter_remaining_minutes = remaining;
      filter_replace_needed = flag (lookup dp_filter_status dps) true;
      filter_cover_open = flag (lookup dp_filter_cover dps) false;
      hardware_version = decode_hardware (lookup dp_hw_version dps);
      fault = fault;
      dps = dps;
    }

-- `PurifierState.reported`
unfoldable pub reported : PurifierState → List String → Bool
reported s [] = true
reported s (dp ∷ ids) = has_key dp s.dps && reported s ids

-- `PurifierState.has_fault`
unfoldable pub has_fault : PurifierState → Option Bool
has_fault s = elim s.fault [ none ↦ none | some f ↦ some (not (str_eq f "none")) ]

abbrev podium_only_dps : List String
podium_only_dps =
    dp_filter_total_minutes ∷ dp_filter_used_minutes ∷ dp_hw_version ∷ dp_device_error ∷ []

any_key : List String → Dps → Bool
any_key [] dps = false
any_key (k ∷ ks) dps = has_key k dps || any_key ks dps

unfoldable pub looks_like_purifier : Dps → Bool
unfolding any_key
looks_like_purifier [] = true
looks_like_purifier dps =
    is_some (to_bool (lookup dp_switch dps))
    && (is_some (decode_mode (lookup dp_mode dps)).0 && any_key podium_only_dps dps)

unfoldable pub power_dps : Bool → Dps
power_dps on = (dp_switch, bool on) ∷ []

unfoldable pub mode_dps : String → Result CommandError Dps
mode_dps mode =
    if contains preset_modes mode then ok ((dp_mode, str mode) ∷ []) else raised unknown_mode

-- f"{MODE_MANUAL}{speed}", where the guards leave 1 to 4
abbrev pub manual_text : ℕ → String
manual_text speed =
    if speed == 1
    then "manual1"
    else if speed == 2
    then "manual2"
    else if speed == 3
    then "manual3"
    else "manual4"

unfoldable pub fan_speed_dps : Value → Result CommandError Dps
fan_speed_dps (int (pos speed)) =
    if leb 1 speed && leb speed 4
    then ok ((dp_mode, str (manual_text speed)) ∷ [])
    else raised speed_out_of_range
fan_speed_dps (int (negsuc _)) = raised speed_out_of_range
fan_speed_dps _ = raised speed_not_an_integer

unfoldable pub reset_filter_dps : Dps
reset_filter_dps = (dp_reset_filter, bool true) ∷ []

-- the state that a write is expected to give
unfoldable pub apply_dps : PurifierState → Dps → PurifierState
apply_dps s dps = from_dps (update s.dps (remove dp_reset_filter dps))
