-- ===== src/Purifier/Model/Commands.antt =====
-- What the commands of purifier/model.py write, and the state shown until the device confirms it.
use ha_birdie.Base.{
  ℕ, zero, suc, ◌≤◌, String, ◌≡◌, refl, true, Bool, none, some, [], ◌∷◌, arith, contains, str_eq,
  str_eq_iff, if◌then◌else◌, or_else, ◌⊎◌,
}
use ha_birdie.Base.Int.{pos}
use ha_birdie.Base.Dict.{
  lookup, insert, update, remove, lookup-update, lookup-remove, lookup-insert,
}
use ha_birdie.Base.Result.{ok}
use ha_birdie.Dps.{Value, int, str, Dps}
use ha_birdie.Purifier.Model.{
  PurifierState, from_dps, apply_dps, preset_modes, mode_dps, fan_speed_dps, power_dps,
  dp_reset_filter, reset_filter_dps, decode_mode, dp_mode, manual_text, to_bool,
}

-- Each DP of the expected state: the one written, but for the filter's reset trigger, and else
-- the one reported before.
pub lookup-apply_dps :
    (k : String) (s : PurifierState) (d : Dps)
    → lookup k (apply_dps s d).dps
      ≡ (if str_eq dp_reset_filter k then lookup k s.dps else or_else (lookup k d) (lookup k s.dps))
unfolding apply_dps from_dps
lookup-apply_dps k s d =
    ground
      (arith, lookup-update k s.dps (remove dp_reset_filter d), lookup-remove dp_reset_filter k d)

from_dps-insert :
    (dps : Dps) (v : Value)
    → from_dps (insert dp_mode v dps) ≡ record (from_dps dps) {
      mode = (decode_mode (some v)).0;
      fan_speed = (decode_mode (some v)).1;
      dps = insert dp_mode v dps;
    }
unfolding from_dps
from_dps-insert dps v = simp lookup-insert

pub decode-manual_text :
    (n : ℕ) → 1 ≤ n → n ≤ 4 → decode_mode (some (str (manual_text n))) ≡ (some "manual", some n)
unfolding decode_mode
decode-manual_text (suc zero) h k = refl
decode-manual_text (suc (suc zero)) h k = refl
decode-manual_text (suc (suc (suc zero))) h k = refl
decode-manual_text (suc (suc (suc (suc zero)))) h k = refl
decode-manual_text zero h k = absurd (omega arith)
decode-manual_text (suc (suc (suc (suc (suc n))))) h k = absurd (omega arith)

decode-preset :
    (m : String) → contains preset_modes m ≡ true → decode_mode (some (str m)) ≡ (some m, none)
unfolding decode_mode
decode-preset m h = rw h

fan_speed_dps_inv :
    (n : ℕ) {d : Dps}
    → fan_speed_dps (int (pos n)) ≡ ok d
    → (1 ≤ n) × (n ≤ 4) × ((dp_mode, str (manual_text n)) ∷ [] ≡ d)
unfolding fan_speed_dps
fan_speed_dps_inv n h = ground arith

mode_dps_inv :
    (m : String) {d : Dps}
    → mode_dps m ≡ ok d
    → (contains preset_modes m ≡ true) × ((dp_mode, str m) ∷ [] ≡ d)
unfolding mode_dps
mode_dps_inv m h = ground arith

-- An accepted speed is from 1 to 4, and the expected state is in manual mode at that speed, with
-- nothing else of it changed but the raw DPs.
pub fan_speed_dps-roundtrip :
    (dps : Dps) (n : ℕ) (d : Dps)
    → fan_speed_dps (int (pos n)) ≡ ok d
    → (1 ≤ n)
      × (n ≤ 4)
      × (apply_dps (from_dps dps) d
          ≡ record (from_dps dps) { mode = some "manual"; fan_speed = some n; dps = update dps d })
unfolding apply_dps remove update from_dps
fan_speed_dps-roundtrip dps n d h =
    let (low, high, e) = fan_speed_dps_inv n h in
    (low, high, rw (← e) (rw (from_dps-insert, decode-manual_text n low high) refl))

-- An accepted mode is `auto` or `sleep`, and the expected state is in that mode with no speed, with
-- nothing else of it changed but the raw DPs.
pub mode_dps-roundtrip :
    (dps : Dps) (m : String) (d : Dps)
    → mode_dps m ≡ ok d
    → ((m ≡ "auto") ⊎ (m ≡ "sleep"))
      × (apply_dps (from_dps dps) d
          ≡ record (from_dps dps) { mode = some m; fan_speed = none; dps = update dps d })
unfolding apply_dps remove update from_dps
mode_dps-roundtrip dps m d h =
    let (member, e) = mode_dps_inv m h in
    (
      ground (arith, str_eq_iff "auto" m, str_eq_iff "sleep" m),
      rw (← e) (rw (from_dps-insert, decode-preset m member) refl),
    )

-- Writing the filter's reset trigger changes nothing of the expected state.
pub apply_dps-reset : (dps : Dps) → apply_dps (from_dps dps) reset_filter_dps ≡ from_dps dps
unfolding apply_dps reset_filter_dps remove update from_dps
apply_dps-reset dps = refl

-- Switching power shows the new power, and nothing else of the expected state changes but the raw
-- DPs.
pub power_dps-roundtrip :
    (dps : Dps) (on : Bool)
    → apply_dps (from_dps dps) (power_dps on)
      ≡ record (from_dps dps) { power = some on; dps = update dps (power_dps on) }
unfolding apply_dps power_dps remove update from_dps to_bool
power_dps-roundtrip dps on = simp lookup-insert
