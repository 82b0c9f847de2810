-- ===== src/Purifier/Model/Valid.antt =====
-- What holds of every decoded state (purifier/model.py).
use ha_birdie.Base.{
  ℕ, ◌≤◌, String, ◌≡◌, refl, true, Option, none, some, List, arith, contains, is_some,
  if◌then◌else◌, inl, inr, Bool-cases,
}
use ha_birdie.Base.Int.{ℤ, pos, negsuc}
use ha_birdie.Base.Dict.{lookup}
use ha_birdie.Dps.{Value, null, bool, int, float, str, composite, Dps}
use ha_birdie.Purifier.Model.{
  PurifierState, from_dps, faults, decode_fault, known, air_quality_levels, to_int,
  remaining_minutes, life_percent, sensor_ok, dp_mode, dp_device_error, dp_air_quality,
  dp_filter_total_minutes, dp_filter_used_minutes,
}
use ha_birdie.Purifier.Model.Decode.{IsMode, decode_mode-IsMode, round_div-le}

-- The value of a field, if it is there, has the property.
abbrev pub IfSome {ℓ κ} : {A : Type ℓ} → (A → Type κ) → Option A → Type κ
IfSome P none = Unit
IfSome P (some a) = P a

known-contains :
    (v : Option Value) (options : List String)
    → IfSome (λ s. contains options s ≡ true) (known v options)
unfolding known
known-contains none options = tt
known-contains (some null) options = tt
known-contains (some (bool _)) options = tt
known-contains (some (int _)) options = tt
known-contains (some (float _ _)) options = tt
known-contains (some (composite _)) options = tt
known-contains (some (str s)) options = elim (Bool-cases (contains options s)) [
  | inl e ↦ rw e e
  | inr e ↦ rw e tt
]

fault-contains : (v : Option Value) → IfSome (λ s. contains faults s ≡ true) (decode_fault v)
unfolding decode_fault
fault-contains (some (str e)) = ground arith
fault-contains _ = tt

-- The decoded mode and speed fit, texts are those of their enumerations, the filter's percentage is
-- at most 100, and a fault of the PM2.5 sensor hides the values derived from it.
pub record IsValid (s : PurifierState) : Type 0 where
  pub mode_fits : IsMode (s.mode, s.fan_speed)
  pub level_known : IfSome (λ q. contains air_quality_levels q ≡ true) s.air_quality
  pub fault_known : IfSome (λ f. contains faults f ≡ true) s.fault
  pub life_bounded : IfSome (λ p. p ≤ 100) s.filter_life_percent
  pub life_has_minutes :
      is_some s.filter_life_percent ≡ true → is_some s.filter_remaining_minutes ≡ true
  pub sensor_masked : s.fault ≡ some "pm25_sensor" → (s.pm25 ≡ none) × (s.air_quality ≡ none)

life-le :
    (total : Option ℤ) (remaining : Option ℕ) → IfSome (λ p. p ≤ 100) (life_percent total remaining)
unfolding life_percent
life-le (some (pos t)) (some r) = ground (arith, round_div-le r t)
life-le _ _ = tt

life-minutes :
    (total : Option ℤ) (remaining : Option ℕ)
    → is_some (life_percent total remaining) ≡ true
    → is_some remaining ≡ true
unfolding life_percent
life-minutes (some (pos t)) none h = cc
life-minutes (some (pos t)) (some r) h = refl
life-minutes (some (negsuc t)) r h = cc
life-minutes none r h = cc

module _ (fault : Option String) where
  masked {ℓ} :
      {A : Type ℓ} (o : Option A)
      → fault ≡ some "pm25_sensor"
      → (if sensor_ok fault then o else none) ≡ none
  masked o h = rw h

  unmasked {ℓ} :
      {A : Type ℓ} (P : A → Type ℓ) (o : Option A)
      → IfSome P o
      → IfSome P (if sensor_ok fault then o else none)
  unmasked P o h = elim (Bool-cases (sensor_ok fault)) [ inl e ↦ rw e h | inr e ↦ rw e tt ]

-- A decoded state is valid: mode and speed fit together, texts
-- are known ones, the filter's percentage is at most 100 and comes with the minutes, and a fault of
-- the PM2.5 sensor hides the PM2.5 value and the air quality.
pub from_dps-IsValid : (dps : Dps) → IsValid (from_dps dps)
unfolding from_dps
from_dps-IsValid dps =
    let fault = decode_fault (lookup dp_device_error dps) in
    let total = to_int (lookup dp_filter_total_minutes dps) in
    let used = to_int (lookup dp_filter_used_minutes dps) in
    record {
      mode_fits = decode_mode-IsMode (lookup dp_mode dps);
      level_known =
          unmasked fault _ _ (known-contains (lookup dp_air_quality dps) air_quality_levels);
      fault_known = fault-contains (lookup dp_device_error dps);
      life_bounded = life-le total (remaining_minutes total used);
      life_has_minutes = life-minutes total (remaining_minutes total used);
      sensor_masked = λ h. (masked fault _ h, masked fault _ h);
    }
