-- ===== src/Purifier/Coordinator/Commands.antt =====
-- Sending data points through the coordinator (purifier/coordinator.py, `async_send_dps`,
-- `async_set_host`).
use ha_birdie.Base.{
  ℕ, ◌+◌, String, ◌≡◌, refl, true, false, none, some, [], ◌∷◌, arith, is_some, ◌||◌, not,
}
use ha_birdie.Base.Result.{ok, raised}
use ha_birdie.Dps.{Value, Dps}
use ha_birdie.Lan.Errors.{LanError, connection_lost}
use ha_birdie.Lan.Device.{LanDevice, availability, Answer, error_code}
use ha_birdie.Lan.Device.Worker.{after}
use ha_birdie.Lan.Device.Client.{refresh_later, lost, set_available}
use ha_birdie.Lan.Device.Writing.{live, set_dps-accepted, set_dps-refused}
use ha_birdie.Purifier.Model.{PurifierState, apply_dps}
use ha_birdie.Purifier.Coordinator.{Coordinator, device_gone}
use ha_birdie.Purifier.Coordinator.Handlers.{
  send_dps, sent, fresh, settle, dispatch, on_availability, note_unreached,
}

-- While the device is open and connected and a state is known, a write that the device takes
-- returns, shows the expected state at once, and has the status read back `refresh_after_command`
-- later.
pub send_dps-accepted :
    (e : String × Value) (d : Dps) (a : Answer) (now : ℕ) (c : Coordinator) (s : PurifierState)
    → c.device.closed ≡ false
    → c.device.api ≡ live
    → a.socket ≡ true
    → error_code a.reply ≡ none
    → c.data_seen ≡ some s
    → let r = send_dps (e ∷ d) a now c in
      (r.0 ≡ ok tt)
      × ((r.1).data_seen ≡ some (apply_dps s (e ∷ d)))
      × ((r.1).device.refresh_at ≡ some (now + c.device.timings.refresh_after_command))
unfolding send_dps settle dispatch
send_dps-accepted e d a now c s o l sock fine seen =
    rw (set_dps-accepted e d a now (fresh c.device) o l sock fine) (shown seen)
  where
    settled : Coordinator
    settled = record c { device = refresh_later now (after a (fresh c.device)) }

    shown :
        c.data_seen ≡ some s
        → ((sent (e ∷ d) (ok tt) settled).0 ≡ ok tt)
          × (((sent (e ∷ d) (ok tt) settled).1).data_seen ≡ some (apply_dps s (e ∷ d)))
          × (((sent (e ∷ d) (ok tt) settled).1).device.refresh_at
              ≡ some (now + c.device.timings.refresh_after_command))
    shown seen = ground arith

lost-told :
    (e : LanError) (s : LanDevice)
    → s.available ≡ true
    → s.on_availability ≡ true
    → s.events ≡ []
    → lost e s ≡ record s {
      last_error = some e;
      api = none;
      available = false;
      events = availability false (some e) ∷ [];
    }
unfolding lost set_available
lost-told e s h k n = ground arith

note_unreached-frame :
    (now : ℕ) (c : Coordinator)
    → ((note_unreached now c).data_seen ≡ c.data_seen) × ((note_unreached now c).device ≡ c.device)
unfolding note_unreached
note_unreached-frame now c = ground arith

gone-shown :
    (now : ℕ) (c : Coordinator)
    → let c' = on_availability now false (some connection_lost) c in
      (c'.data_seen ≡ c.data_seen)
      × (c'.device ≡ c.device)
      × (c'.failure ≡ some (device_gone c.device.config.host))
unfolding on_availability
gone-shown now c = ground (arith, note_unreached-frame now c)

-- While the device is open, connected, available and listened to, a write that it refuses raises
-- with its address, and what is shown is the old state with the purifier unavailable.
pub send_dps-refused :
    (e : String × Value) (d : Dps) (a : Answer) (now : ℕ) (c : Coordinator)
    → c.device.closed ≡ false
    → c.device.api ≡ live
    → c.device.available ≡ true
    → c.device.on_availability ≡ true
    → (is_some (error_code a.reply) || not a.socket) ≡ true
    → let r = send_dps (e ∷ d) a now c in
      (r.0 ≡ raised (device_gone c.device.config.host))
      × ((r.1).data_seen ≡ c.data_seen)
      × ((r.1).failure ≡ some (device_gone c.device.config.host))
      × ((r.1).device.available ≡ false)
unfolding send_dps settle dispatch
send_dps-refused e d a now c o l avail hears bad =
    rw
      (
        set_dps-refused e d a now (fresh c.device) o l bad,
        lost-told connection_lost (after a (fresh c.device)) avail hears refl,
      )
      (ground (arith, gone-shown now gone))
  where
    gone : Coordinator
    gone = record c {
      device = record c.device {
        last_error = some connection_lost;
        api = none;
        available = false;
        events = [];
      };
    }
