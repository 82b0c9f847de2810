-- ===== src/Purifier/Coordinator/ReadBack.antt =====
-- What is shown after a write, and after the status was read back (purifier/coordinator.py,
-- `async_send_dps`; lan/device.py, `async_set_dps`, `_step`).
use ha_birdie.Base.{ℕ, String, ◌≡◌, true, false, none, some, []}
use ha_birdie.Base.Result.{Result}
use ha_birdie.Dps.{Value, Dps}
use ha_birdie.Lan.Device.{LanDevice, Answer, error_code}
use ha_birdie.Lan.Device.Worker.{after}
use ha_birdie.Lan.Device.Client.{refresh_later}
use ha_birdie.Lan.Device.Writing.{live}
use ha_birdie.Purifier.Model.{PurifierState}
use ha_birdie.Purifier.Coordinator.{Coordinator}
use ha_birdie.Purifier.Coordinator.Handlers.{fresh}

module _ (e : String × Value) (d : Dps) (a : Answer) (now : ℕ) (c : Coordinator) (s : PurifierState)
    (o : c.device.closed ≡ false) (l : c.device.api ≡ live) (sock : a.socket ≡ true)
    (fine : error_code a.reply ≡ none) (seen : c.data_seen ≡ some s) where
  -- the device after the write and its callbacks
  abbrev written : LanDevice
  written = record (refresh_later now (after a (fresh c.device))) { events = [] }
