-- ===== src/Purifier/Button.antt =====
-- custom_components/birdie/purifier/button.py: the button that resets the filter's counter.
use ha_birdie.Base.{ℕ, ◌+◌, ◌≡◌, ◌∙◌, ap, sym, true, false, none, some, []}
use ha_birdie.Base.Result.{Result, ok}
use ha_birdie.Dps.{Dps, bool}
use ha_birdie.Lan.Device.{Answer, error_code}
use ha_birdie.Lan.Device.Writing.{live}
use ha_birdie.Purifier.Model.{from_dps, dp_reset_filter, reset_filter_dps}
use ha_birdie.Purifier.Model.Commands.{apply_dps-reset}
use ha_birdie.Purifier.Coordinator.{Coordinator, Failure}
use ha_birdie.Purifier.Coordinator.Handlers.{send_dps}
use ha_birdie.Purifier.Coordinator.Commands.{send_dps-accepted}

-- `BirdieResetFilterButton.async_press`
unfoldable pub press : Answer → ℕ → Coordinator → Result Failure (Unit {0}) × Coordinator
press a now c = send_dps reset_filter_dps a now c

-- While the device is open and connected and a state is known, a press that the device takes returns,
-- leaves the state that is shown as it is, and has the new one read back `refresh_after_command` later.
pub press-kept :
    (a : Answer) (now : ℕ) (c : Coordinator) (dps : Dps)
    → c.device.closed ≡ false
    → c.device.api ≡ live
    → a.socket ≡ true
    → error_code a.reply ≡ none
    → c.data_seen ≡ some (from_dps dps)
    → let r = press a now c in
      (r.0 ≡ ok tt)
      × ((r.1).data_seen ≡ c.data_seen)
      × ((r.1).device.refresh_at ≡ some (now + c.device.timings.refresh_after_command))
unfolding press reset_filter_dps
press-kept a now c dps o l sock fine seen =
    let (done, shown, later) =
      send_dps-accepted (dp_reset_filter, bool true) [] a now c (from_dps dps) o l sock fine seen in
    (done, shown ∙ ap (λ s. some s) (apply_dps-reset dps) ∙ sym seen, later)
