-- ===== src/Purifier/Fan.antt =====
-- custom_components/birdie/purifier/fan.py, and `state_data` and `available` of purifier/entity.py: the
-- fan entity of a purifier. A method that raises leaves the coordinator as it was before the raise.
-- Home Assistant's two functions on percentages are parameters: `to_ranged p` is
-- `percentage_to_ranged_value((1, 4), p)` in hundredths, and `to_percentage n` is
-- `ranged_value_to_percentage((1, 4), n)`.
pub mod Send
pub mod Percentage
mod Tests
use ha_birdie.Base.{
  ℕ, ◌+◌, ◌/◌, String, Bool, true, false, not, ◌&&◌, ◌||◌, Option, none, some, List, [], ◌∷◌, ◌==◌,
  contains, if◌then◌else◌, is_some, get_or,
}
use ha_birdie.Base.Dict.{update}
use ha_birdie.Base.Int.{pos}
use ha_birdie.Base.Result.{Result, ok, raised, ◌>>=◌}
use ha_birdie.Dps.{Dps, int}
use ha_birdie.Lan.Device.{Answer}
use ha_birdie.Purifier.Model.{
  PurifierState, CommandError, power_dps, mode_dps, fan_speed_dps, reported, dp_mode, dp_switch,
  preset_modes, is_text,
}
use ha_birdie.Purifier.Coordinator.{Coordinator, Failure}
use ha_birdie.Purifier.Coordinator.Handlers.{send_dps}

-- the `ServiceValidationError`s by their keys, and an error of the write
pub data FanError : Type 0 where
  invalid_command : CommandError → FanError
  mode_not_supported : FanError
  write_failed : Failure → FanError

-- `PurifierState()`
abbrev pub empty_state : PurifierState
empty_state = record {
  power = none;
  mode = none;
  fan_speed = none;
  pm25 = none;
  air_quality = none;
  filter_life_percent = none;
  filter_remaining_minutes = none;
  filter_replace_needed = none;
  filter_cover_open = none;
  hardware_version = none;
  fault = none;
  dps = [];
}

-- `state_data`
unfoldable pub state_data : Coordinator → PurifierState
state_data c = get_or c.data_seen empty_state

-- `available` of the entity; the coordinator's own is `last_update_success`
unfoldable pub entity_available : List String → Coordinator → Bool
entity_available required c = elim c.data_seen [
  | none ↦ false
  | some s ↦ not (is_some c.failure) && reported s required
]

-- `preset_mode`
unfoldable pub preset_mode : PurifierState → Option String
preset_mode s = elim s.mode [
  | none ↦ none
  | some m ↦ if contains preset_modes m then some m else none
]

-- `dps.update(…)` with a part of the request, if there is one
abbrev pub part :
    {A : Type 0} → (A → Result CommandError Dps) → Option A → Dps → Result CommandError Dps
part f none dps = ok dps
part f (some a) dps = f a >>= λ d. ok (update dps d)

-- the `try` of `_async_send`
unfoldable pub request : Option Bool → Option String → Option ℕ → Result CommandError Dps
request power mode speed = do
  with_power ← part (λ b. ok (power_dps b)) power []
  with_mode ← part mode_dps mode with_power
  part (λ n. fan_speed_dps (int (pos n))) speed with_mode

abbrev pub sent_by_fan :
    Result Failure (Unit {0}) × Coordinator → Result FanError (Unit {0}) × Coordinator
sent_by_fan (ok _, c) = (ok tt, c)
sent_by_fan (raised e, c) = (raised (write_failed e), c)

abbrev pub checked :
    Bool
    → Answer
    → ℕ
    → Result CommandError Dps
    → Coordinator
    → Result FanError (Unit {0}) × Coordinator
checked wants_mode a now (raised e) c = (raised (invalid_command e), c)
checked wants_mode a now (ok dps) c =
    let done = sent_by_fan (send_dps dps a now c) in
    if wants_mode && not (reported (state_data c) (dp_mode ∷ []))
    then (raised mode_not_supported, c)
    else done

-- `_async_send`
unfoldable pub async_send :
    Option Bool
    → Option String
    → Option ℕ
    → Answer
    → ℕ
    → Coordinator
    → Result FanError (Unit {0}) × Coordinator
async_send power mode speed a now c =
    checked (is_some mode || is_some speed) a now (request power mode speed) c

-- `async_turn_off`
unfoldable pub turn_off : Answer → ℕ → Coordinator → Result FanError (Unit {0}) × Coordinator
turn_off a now c = async_send (some false) none none a now c

-- None if it is on, else True
abbrev pub power_if_off : Option Bool → Option Bool
power_if_off (some true) = none
power_if_off _ = some true

-- `async_set_preset_mode`
unfoldable pub set_preset_mode :
    String → Answer → ℕ → Coordinator → Result FanError (Unit {0}) × Coordinator
set_preset_mode m a now c = async_send (power_if_off (state_data c).power) (some m) none a now c

module _ (to_ranged to_percentage : ℕ → ℕ) where
  -- `_speed_for`
  unfoldable pub speed_for : ℕ → ℕ
  speed_for p = (to_ranged p + 99) / 100

  abbrev is_off : Option Bool → Bool
  is_off (some false) = true
  is_off _ = false

  abbrev speed_shown : Option ℕ → Option ℕ
  speed_shown none = none
  speed_shown (some n) = some (to_percentage n)

  -- `percentage`
  unfoldable pub percentage : PurifierState → Option ℕ
  percentage s =
      if is_off s.power
      then some 0
      else if is_text s.mode "manual"
      then speed_shown s.fan_speed
      else none

  -- the speed of `async_turn_on`: `percentage and preset_mode is None`
  abbrev pub speed_wanted : Option ℕ → Option String → Option ℕ
  speed_wanted (some p) none = if p == 0 then none else some (speed_for p)
  speed_wanted _ _ = none

  -- `async_turn_on`
  unfoldable pub turn_on :
      Option ℕ → Option String → Answer → ℕ → Coordinator → Result FanError (Unit {0}) × Coordinator
  turn_on p m a now c = async_send (some true) m (speed_wanted p m) a now c

  -- `async_set_percentage`
  unfoldable pub set_percentage :
      ℕ → Answer → ℕ → Coordinator → Result FanError (Unit {0}) × Coordinator
  set_percentage p a now c =
      let off = turn_off a now c in
      let on = async_send (power_if_off (state_data c).power) none (some (speed_for p)) a now c in
      if p == 0 then off else on
