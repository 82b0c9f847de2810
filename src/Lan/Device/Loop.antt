-- ===== src/Lan/Device/Loop.antt =====
-- The background loop of `LanDevice` (lan/device.py): one step of a connection, one round of the
-- loop, and a run of rounds. What the outside does in a round is its `Round`.
use ha_birdie.Base.{
  ℕ, ◌+◌, ◌*◌, min, String, Bool, true, false, ◌||◌, Option, none, some, List, [], ◌∷◌, ltb, leb,
  if◌then◌else◌, is_some,
}
use ha_birdie.Base.Result.{Result, ok, raised}
use ha_birdie.Dps.{Dps}
use ha_birdie.Lan.Errors.{LanError, connection_lost}
use ha_birdie.Lan.Device.{LanDevice, error, sleep, Answer, Call, ◌>>=◌, ◌>>◌, pure, modify}
use ha_birdie.Lan.Device.Worker.{Attempt, w_open, w_status, w_heartbeat, w_receive}
use ha_birdie.Lan.Device.Client.{emit, set_available, handle_dps, handle_connected, lost}

-- The clock at the start of the round, after its heartbeat and after its last call, and what the
-- device answers.
pub record Round : Type 0 where
  pub now : ℕ
  pub heartbeat_time : ℕ
  pub done_time : ℕ
  pub respond : String → Attempt
  pub status_answer : Answer
  pub heartbeat_answer : Answer
  pub receive_answer : Answer
  pub raw_received : Bool

abbrev pub refresh_due : ℕ → Option ℕ → Bool
refresh_due now none = false
refresh_due now (some at) = leb at now

-- now - last_rx > dead_after
abbrev pub is_dead : ℕ → LanDevice → Bool
is_dead now s = ltb (s.last_rx + s.timings.dead_after) now

abbrev pub status_due : ℕ → LanDevice → Bool
status_due now s =
    leb (s.last_status + s.timings.status_interval) now || refresh_due now s.refresh_at

abbrev pub heartbeat_due : ℕ → LanDevice → Bool
heartbeat_due now s = leb (s.last_heartbeat + s.timings.heartbeat_interval) now

unfoldable pub read_status : Round → Call (Unit {0})
read_status r = do
  modify (λ s. record s { refresh_at = none })
  dps ← w_status r.status_answer
  modify (handle_dps r.done_time dps true)

unfoldable pub beat_if_due : Round → Call (Unit {0})
beat_if_due r s =
    if heartbeat_due r.now s then w_heartbeat r.heartbeat_answer r.heartbeat_time s else (ok tt, s)

-- `if dps:`, which is false of an empty report too
abbrev pub handle_received : ℕ → Option Dps → Call (Unit {0})
handle_received now none = pure tt
handle_received now (some []) = pure tt
handle_received now (some (e ∷ dps)) = modify (handle_dps now (e ∷ dps) false)

unfoldable pub receive_next : Round → Call (Unit {0})
receive_next r = do
  beat_if_due r
  dps ← w_receive r.receive_answer r.raw_received r.done_time
  handle_received r.done_time dps

unfoldable pub step : Round → Call (Unit {0})
step r s =
    if is_dead r.now s
    then (raised connection_lost, s)
    else if status_due r.now s
    then read_status r s
    else receive_next r s

-- `_sleep`: what ends it early is not modelled
unfoldable pub sleep_for : ℕ → LanDevice → LanDevice
sleep_for ms s = record s { wake = false; events = sleep ms ∷ s.events }

-- an attempt to connect that failed
unfoldable pub not_connected : LanError → ℕ → LanDevice → ℕ × LanDevice
not_connected err backoff s =
    let failed = set_available false (some err) (record s { last_error = some err }) in
    (
      min (backoff * 2) s.timings.reconnect_max,
      sleep_for backoff (emit failed.on_error (error err) failed),
    )

abbrev pub after_open : ℕ → ℕ → Result LanError (String × Dps) × LanDevice → ℕ × LanDevice
after_open now backoff (raised err, s) = not_connected err backoff s
after_open now backoff (ok (version, dps), s) =
    (s.timings.reconnect_min, handle_connected now version dps s)

-- `except _ConnectionLost`
abbrev pub after_step : ℕ → Result LanError (Unit {0}) × LanDevice → ℕ × LanDevice
after_step backoff (ok _, s) = (backoff, s)
after_step backoff (raised err, s) = (backoff, sleep_for 1000 (lost err s))

-- one round of `while not self._closed`, on the backoff and the device
unfoldable pub round : Round → ℕ × LanDevice → ℕ × LanDevice
round r (backoff, s) =
    if is_some s.api
    then after_step backoff (step r s)
    else after_open r.done_time backoff (w_open r.respond s)

unfoldable pub run_from : List Round → ℕ × LanDevice → ℕ × LanDevice
run_from [] b = b
run_from (r ∷ rounds) (backoff, s) =
    let rest = run_from rounds (round r (backoff, s)) in if s.closed then (backoff, s) else rest

-- `_run`
unfoldable pub run : List Round → LanDevice → ℕ × LanDevice
run rounds s = run_from rounds (s.timings.reconnect_min, s)
