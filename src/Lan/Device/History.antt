-- ===== src/Lan/Device/History.antt =====
-- Every history of a device: its operations in any order (lan/device.py).
use ha_birdie.Base.{ℕ, String, ◌≡◌, refl, true, Option}
use ha_birdie.Dps.{Dps}
use ha_birdie.Lan.Device.{DeviceConfig, Timings, LanDevice, Answer}
use ha_birdie.Lan.Device.Worker.{Attempt}
use ha_birdie.Lan.Device.Client.{
  init, async_connect, async_refresh, async_set_dps, start, Changes, async_reconfigure, async_close,
}
use ha_birdie.Lan.Device.Loop.{Round, round}
use ha_birdie.Lan.Device.Availability.{
  IsSound, async_connect-Keeps, async_refresh-Keeps, async_set_dps-Keeps, start-IsSound,
  async_reconfigure-IsSound, async_close-IsSound,
}
use ha_birdie.Lan.Device.Rounds.{round-IsSound}

module _ (bytes_form : String → String) where
  -- One operation of a device, whatever it is given and whatever the device answers.
  pub data Step : LanDevice → LanDevice → Type 0 where
    connects :
        (respond : String → Attempt) (now : ℕ) (s : LanDevice)
        → Step s (async_connect respond now s).1
    refreshes : (a : Answer) (now : ℕ) (s : LanDevice) → Step s (async_refresh a now s).1
    writes : (d : Dps) (a : Answer) (now : ℕ) (s : LanDevice) → Step s (async_set_dps d a now s).1
    starts : (s : LanDevice) → Step s (start s)
    loops : (r : Round) (backoff : ℕ) (s : LanDevice) → Step s (round r (backoff, s)).1
    reconfigures : (c : Changes) (s : LanDevice) → Step s (async_reconfigure bytes_form c s).1
    closes : (s : LanDevice) → Step s (async_close bytes_form s)

  -- Any number of operations.
  pub data Reaches : LanDevice → LanDevice → Type 0 where
    stays : (s : LanDevice) → Reaches s s
    goes : {s t u : LanDevice} → Step s t → Reaches t u → Reaches s u

  Step-IsSound : {s t : LanDevice} → Step s t → IsSound s → IsSound t
  Step-IsSound (connects respond now s) h = async_connect-Keeps respond now s h
  Step-IsSound (refreshes a now s) h = async_refresh-Keeps a now s h
  Step-IsSound (writes d a now s) h = async_set_dps-Keeps d a now s h
  Step-IsSound (starts s) h = start-IsSound s h
  Step-IsSound (loops r backoff s) h = round-IsSound r backoff s h
  Step-IsSound (reconfigures c s) h = async_reconfigure-IsSound bytes_form c s h
  Step-IsSound (closes s) h = async_close-IsSound bytes_form s h

  Reaches-IsSound : {s t : LanDevice} → Reaches s t → IsSound s → IsSound t
  Reaches-IsSound (stays s) h = h
  Reaches-IsSound (goes x r) h = Reaches-IsSound r (Step-IsSound x h)

  -- In every history of a new device that has an availability listener, whatever the device and the
  -- network do, the listener has been told of every change of the availability, once and in turn.
  pub history-IsSound :
      (config : DeviceConfig) (timings : Timings) (hint : Option String) (s t : LanDevice)
      → s.on_availability ≡ true
      → Reaches (init bytes_form config timings hint s) t
      → IsSound t
  unfolding init
  history-IsSound config timings hint s t h r =
      Reaches-IsSound r (record { listens = h; in_turn = tt; told = refl })
