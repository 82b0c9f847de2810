-- ===== src/Purifier/Fan/Send.antt =====
-- What a call of the fan's services sends and shows (purifier/fan.py, `_async_send`).
use ha_birdie.Base.{
  ℕ, ◌+◌, ◌*◌, ◌≤◌, ◌<◌, String, ◌≡◌, refl, Bool, true, false, not, Option, none, some, [], ◌∷◌,
  arith, contains, if◌then◌else◌, ◌&&◌, if-false, if-true, ◌∙◌, ap, Bool-cases, inl, inr, ◌==◌,
}
use ha_birdie.Base.Dict.{has_key}
use ha_birdie.Base.Result.{ok, raised}
use ha_birdie.Dps.{Value, Dps}
use ha_birdie.Lan.Device.{Answer, error_code}
use ha_birdie.Lan.Device.Writing.{live}
use ha_birdie.Purifier.Model.{
  from_dps, apply_dps, dp_mode, reported, preset_modes, mode_dps, unknown_mode,
}
use ha_birdie.Purifier.Coordinator.{Coordinator}
use ha_birdie.Purifier.Coordinator.Handlers.{send_dps}
use ha_birdie.Purifier.Coordinator.Commands.{send_dps-accepted}
use ha_birdie.Purifier.Fan.{
  invalid_command, mode_not_supported, state_data, async_send, request, set_percentage, speed_for,
  percentage, power_if_off, checked, sent_by_fan, set_preset_mode,
}
use ha_birdie.Purifier.Fan.Percentage.{speed_request, request-speed, shown-speed, speed_for-bounds}

module _ (a : Answer) (now : ℕ) (c : Coordinator) (dps : Dps)
    (open_device : c.device.closed ≡ false) (there : c.device.api ≡ live)
    (answers : a.socket ≡ true) (fine : error_code a.reply ≡ none)
    (seen : c.data_seen ≡ some (from_dps dps)) where
  state_data-seen : state_data c ≡ from_dps dps
  unfolding state_data
  state_data-seen = rw seen refl

  sent-shown :
      (e : String × Value) (d : Dps)
      → let r = sent_by_fan (send_dps (e ∷ d) a now c) in
        (r.0 ≡ ok tt) × (state_data r.1 ≡ apply_dps (from_dps dps) (e ∷ d))
  unfolding state_data
  sent-shown e d =
      ground
        (arith, send_dps-accepted e d a now c (from_dps dps) open_device there answers fine seen)

  checked-shown :
      (wants : Bool) (e : String × Value) (d : Dps)
      → has_key dp_mode dps ≡ true
      → let r = checked wants a now (ok (e ∷ d)) c in
        (r.0 ≡ ok tt) × (state_data r.1 ≡ apply_dps (from_dps dps) (e ∷ d))
  unfolding reported from_dps
  checked-shown wants e d known =
      let has : reported (state_data c) (dp_mode ∷ []) ≡ true =
        rw state_data-seen (rw known refl) in
      ground (arith, sent-shown e d)

  send-speed :
      (power : Option Bool) (n : ℕ)
      → 1 ≤ n
      → n ≤ 4
      → has_key dp_mode dps ≡ true
      → let r = async_send power none (some n) a now c in
        (r.0 ≡ ok tt) × (state_data r.1 ≡ apply_dps (from_dps dps) (speed_request power n))
  unfolding async_send
  send-speed none n low high known =
      rw (request-speed none n low high) (checked-shown true _ _ known)
  send-speed (some b) n low high known =
      rw (request-speed (some b) n low high) (checked-shown true _ _ known)

  module _ (to_ranged to_percentage : ℕ → ℕ) (scales : (p : ℕ) → p ≤ 100 → to_ranged p ≡ 4 * p)
      (shows : (n : ℕ) → n ≤ 4 → to_percentage n ≡ 25 * n) where
    set_percentage-sends :
        (p : ℕ)
        → 1 ≤ p
        → set_percentage to_ranged to_percentage p a now c
          ≡ async_send
              (power_if_off (from_dps dps).power)
              none
              (some (speed_for to_ranged to_percentage p))
              a
              now
              c
    unfolding set_percentage
    set_percentage-sends p low =
        if-false (p == 0) _ _ (ground arith)
        ∙ ap
            (λ s.
              async_send (power_if_off s.power) none (some (speed_for to_ranged to_percentage p)) a
                now c)
            state_data-seen

    -- Setting a percentage from 1 to 100 of an open, connected purifier that takes the write and has
    -- reported its mode returns. The fan then shows the lowest multiple of 25 that is not below it,
    -- also if the purifier was off. Home Assistant's functions scale between 100 percent and 4 speeds.
    pub set_percentage-shown :
        (p : ℕ)
        → 1 ≤ p
        → p ≤ 100
        → has_key dp_mode dps ≡ true
        → let r = set_percentage to_ranged to_percentage p a now c in
          (r.0 ≡ ok tt)
          × ((n : ℕ) × (percentage to_ranged to_percentage (state_data r.1) ≡ some (25 * n))
              × (p ≤ 25 * n)
              × (25 * n < p + 25))
    set_percentage-shown p low high known =
        let (least, most, above, close) =
          speed_for-bounds to_ranged to_percentage scales p low high in
        let n = speed_for to_ranged to_percentage p in
        let (done, state) = send-speed (power_if_off (from_dps dps).power) n least most known in
        rw (set_percentage-sends p low) (
          done,
          (
            n,
            rw state (shown-speed to_ranged to_percentage dps n least most)
                ∙ ap some (shows n most),
            above,
            close,
          ),
        )

unsupported :
    (a : Answer) (now : ℕ) (c : Coordinator) (d : Dps)
    → reported (state_data c) (dp_mode ∷ []) ≡ false
    → checked true a now (ok d) c ≡ (raised mode_not_supported, c)
unsupported a now c d h = if-true (not (reported (state_data c) (dp_mode ∷ []))) _ _ (rw h refl)

checked-unsupported :
    (a : Answer) (now : ℕ) (c : Coordinator) (power : Option Bool) (m : String)
    → contains preset_modes m ≡ true
    → reported (state_data c) (dp_mode ∷ []) ≡ false
    → checked true a now (request power (some m) none) c ≡ (raised mode_not_supported, c)
unfolding request mode_dps
checked-unsupported a now c none m e h = rw e (unsupported a now c _ h)
checked-unsupported a now c (some b) m e h = rw e (unsupported a now c _ h)

request-unknown :
    (power : Option Bool) (m : String)
    → contains preset_modes m ≡ false
    → request power (some m) none ≡ raised unknown_mode
unfolding request mode_dps
request-unknown none m e = rw e refl
request-unknown (some b) m e = rw e refl

-- A mode that is not a preset mode, or any mode while the purifier has not reported one, raises with
-- that reason, and the purifier and what is shown are not touched.
pub set_preset_mode-refused :
    (m : String) (a : Answer) (now : ℕ) (c : Coordinator)
    → (contains preset_modes m && reported (state_data c) (dp_mode ∷ [])) ≡ false
    → set_preset_mode m a now c ≡ (
      raised (if contains preset_modes m then mode_not_supported else invalid_command unknown_mode),
      c,
    )
unfolding set_preset_mode async_send
set_preset_mode-refused m a now c h = elim (Bool-cases (contains preset_modes m)) [
  | inl e ↦
      let power = power_if_off (state_data c).power in
      checked-unsupported a now c power m e (rw e at h) ∙ rw e refl
  | inr e ↦ rw (e, request-unknown (power_if_off (state_data c).power) m e) refl
]
