-- ===== src/Lan/Device/Writing.antt =====
-- Writing data points to a device (lan/device.py, `async_set_dps`).
use ha_birdie.Base.{
  ℕ, String, ◌≡◌, refl, true, false, not, ◌||◌, Option, none, some, ◌∷◌, arith, is_some,
}
use ha_birdie.Base.Result.{ok, raised}
use ha_birdie.Dps.{Value, Dps}
use ha_birdie.Lan.Errors.{unreachable, connection_lost}
use ha_birdie.Lan.Device.{LanDevice, Answer, Api, error_code}
use ha_birdie.Lan.Device.Worker.{w_set, after}
use ha_birdie.Lan.Device.Client.{async_set_dps, require_connection, lost, refresh_later}

abbrev pub live : Option Api
live = some (record { socket = true })

require_connection-open :
    (s : LanDevice) → s.closed ≡ false → s.api ≡ live → require_connection s ≡ (ok tt, s)
unfolding require_connection
require_connection-open s o l = ground arith

w_set-accepted :
    (a : Answer) (s : LanDevice)
    → s.api ≡ live
    → a.socket ≡ true
    → error_code a.reply ≡ none
    → w_set a s ≡ (ok tt, after a s)
unfolding w_set
w_set-accepted a s l sock e = ground arith

w_set-refused :
    (a : Answer) (s : LanDevice)
    → s.api ≡ live
    → (is_some (error_code a.reply) || not a.socket) ≡ true
    → w_set a s ≡ (raised connection_lost, after a s)
unfolding w_set
w_set-refused a s l e = ground arith

module _ (e : String × Value) (d : Dps) (a : Answer) (now : ℕ) (s : LanDevice)
    (o : s.closed ≡ false) (l : s.api ≡ live) where
  -- A write that an open, connected device takes returns, and has the status read back
  -- `refresh_after_command` later; nothing else of the device changes.
  pub set_dps-accepted :
      a.socket ≡ true
      → error_code a.reply ≡ none
      → async_set_dps (e ∷ d) a now s ≡ (ok tt, refresh_later now (after a s))
  unfolding async_set_dps
  set_dps-accepted sock none_err =
      rw (require_connection-open s o l, w_set-accepted a s l sock none_err) refl

  -- A write that meets an error or loses the socket raises `DeviceUnreachableError`, and the
  -- connection is dropped like any other that is lost.
  pub set_dps-refused :
      (is_some (error_code a.reply) || not a.socket) ≡ true
      → async_set_dps (e ∷ d) a now s ≡ (raised unreachable, lost connection_lost (after a s))
  unfolding async_set_dps
  set_dps-refused bad = rw (require_connection-open s o l, w_set-refused a s l bad) refl
