-- ===== src/Purifier/Fan/Percentage.antt =====
-- The percentage that the fan shows (purifier/fan.py).
use ha_birdie.Base.{
  ℕ, ◌+◌, ◌*◌, ◌≤◌, ◌<◌, ◌≡◌, refl, Bool, true, false, Option, none, some, [], ◌∷◌, arith, inl, inr,
  ◌⊎◌,
}
use ha_birdie.Base.Dict.{lookup, insert, update, remove, lookup-insert}
use ha_birdie.Base.Int.{pos}
use ha_birdie.Base.Result.{ok}
use ha_birdie.Dps.{bool, str, int, Dps}
use ha_birdie.Purifier.Model.{
  Mode, from_dps, apply_dps, to_bool, decode_mode, dp_mode, dp_switch, manual_text, fan_speed_dps,
  power_dps,
}
use ha_birdie.Purifier.Model.Decode.{IsMode, decode_mode-IsMode}
use ha_birdie.Purifier.Model.Commands.{decode-manual_text}
use ha_birdie.Purifier.Fan.{speed_for, percentage, request, power_if_off, empty_state, preset_mode}

module _ (to_ranged to_percentage : ℕ → ℕ) (scales : (p : ℕ) → p ≤ 100 → to_ranged p ≡ 4 * p) where
  -- Each percentage from 1 to 100 gives the lowest of the four speeds that reaches it.
  pub speed_for-bounds :
      (p : ℕ)
      → 1 ≤ p
      → p ≤ 100
      → (1 ≤ speed_for to_ranged to_percentage p)
        × (speed_for to_ranged to_percentage p ≤ 4)
        × (p ≤ 25 * speed_for to_ranged to_percentage p)
        × (25 * speed_for to_ranged to_percentage p < p + 25)
  unfolding speed_for
  speed_for-bounds p low high =
      rw (scales p high) (omega arith, omega arith, omega arith, omega arith)

-- the DPs that select speed `n`, and switch the purifier on if it was off
abbrev pub speed_request : Option Bool → ℕ → Dps
speed_request (some b) n = (dp_switch, bool b) ∷ (dp_mode, str (manual_text n)) ∷ []
speed_request none n = (dp_mode, str (manual_text n)) ∷ []

fan_speed_dps-text :
    (n : ℕ) → 1 ≤ n → n ≤ 4 → fan_speed_dps (int (pos n)) ≡ ok ((dp_mode, str (manual_text n)) ∷ [])
unfolding fan_speed_dps
fan_speed_dps-text n low high = ground arith

pub request-speed :
    (power : Option Bool) (n : ℕ)
    → 1 ≤ n
    → n ≤ 4
    → request power none (some n) ≡ ok (speed_request power n)
unfolding request fan_speed_dps power_dps update insert
request-speed power n low high = request-part power (fan_speed_dps-text n low high)
  where
    request-part :
        (power : Option Bool)
        → fan_speed_dps (int (pos n)) ≡ ok ((dp_mode, str (manual_text n)) ∷ [])
        → request power none (some n) ≡ ok (speed_request power n)
    request-part none h = rw h refl
    request-part (some b) h = rw h refl

-- A decoded state after such a request shows the percentage of the speed.
module _ (to_ranged to_percentage : ℕ → ℕ) where
  shown-running :
      (dps : Dps) (n : ℕ)
      → 1 ≤ n
      → n ≤ 4
      → to_bool (lookup dp_switch dps) ≡ some true
      → percentage to_ranged to_percentage (apply_dps (from_dps dps) (speed_request none n))
        ≡ some (to_percentage n)
  unfolding percentage apply_dps from_dps update remove
  shown-running dps n low high on = simp (lookup-insert, decode-manual_text n low high, on) refl

  shown-started :
      (dps : Dps) (n : ℕ)
      → 1 ≤ n
      → n ≤ 4
      → percentage to_ranged to_percentage (apply_dps (from_dps dps) (speed_request (some true) n))
        ≡ some (to_percentage n)
  unfolding percentage apply_dps from_dps update remove to_bool
  shown-started dps n low high = simp (lookup-insert, decode-manual_text n low high) refl

  pub shown-speed :
      (dps : Dps) (n : ℕ)
      → 1 ≤ n
      → n ≤ 4
      → percentage to_ranged to_percentage
          (apply_dps (from_dps dps) (speed_request (power_if_off (from_dps dps).power) n))
        ≡ some (to_percentage n)
  unfolding from_dps
  shown-speed dps n low high = go (to_bool (lookup dp_switch dps)) refl
    where
      go :
          (power : Option Bool)
          → to_bool (lookup dp_switch dps) ≡ power
          → percentage to_ranged to_percentage
              (apply_dps (from_dps dps) (speed_request (power_if_off power) n))
            ≡ some (to_percentage n)
      go none e = shown-started dps n low high
      go (some true) e = shown-running dps n low high e
      go (some false) e = shown-started dps n low high

  shown-mode :
      (power : Option Bool) (m : Mode)
      → IsMode m
      → let s = record empty_state { power = power; mode = m.0; fan_speed = m.1 } in
        (preset_mode s ≡ none)
        ⊎ (percentage to_ranged to_percentage s ≡ none)
        ⊎ (percentage to_ranged to_percentage s ≡ some 0)
  unfolding preset_mode percentage
  shown-mode power (none, n) h = inl refl
  shown-mode power (some m, none) h = inr (ground arith)
  shown-mode power (some m, some n) (e, _, _) = inl (rw e refl)

  -- A decoded state never shows a preset mode and a speed at once, but for a purifier that is off,
  -- which shows 0 percent.
  pub preset_mode-percentage :
      (dps : Dps)
      → let s = from_dps dps in
        (preset_mode s ≡ none)
        ⊎ (percentage to_ranged to_percentage s ≡ none)
        ⊎ (percentage to_ranged to_percentage s ≡ some 0)
  unfolding preset_mode percentage from_dps
  preset_mode-percentage dps =
      shown-mode (to_bool (lookup dp_switch dps)) (decode_mode (lookup dp_mode dps))
        (decode_mode-IsMode (lookup dp_mode dps))
