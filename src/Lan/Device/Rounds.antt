-- ===== src/Lan/Device/Rounds.antt =====
-- The rounds of the loop keep the reports of the availability sound (lan/device.py, `_run`).
use ha_birdie.Base.{ℕ, String, refl, Bool, true, false, Option, none, some, List, [], ◌∷◌, is_some}
use ha_birdie.Base.Result.{Result, ok, raised}
use ha_birdie.Dps.{Dps}
use ha_birdie.Lan.Errors.{LanError}
use ha_birdie.Lan.Device.{LanDevice, error, modify}
use ha_birdie.Lan.Device.Worker.{w_open, w_status, w_receive}
use ha_birdie.Lan.Device.Client.{emit, handle_dps, lost}
use ha_birdie.Lan.Device.Loop.{
  read_status, beat_if_due, receive_next, handle_received, after_open, after_step, heartbeat_due,
  is_dead, status_due, Round, step, sleep_for, not_connected, round, run_from,
}
use ha_birdie.Lan.Device.Availability.{
  IsSound, unseen, Keeps, choose-IsSound, bind-Keeps, set_available-IsSound, handle_dps-IsSound,
  handle_connected-IsSound, lost-IsSound, w_open-Keeps, w_status-Keeps, w_heartbeat-Keeps,
  w_receive-Keeps,
}

read_status-Keeps : (r : Round) → Keeps (read_status r)
unfolding read_status
read_status-Keeps r s h =
    bind-Keeps (w_status r.status_answer) (λ d. modify (handle_dps r.done_time d true))
      (w_status-Keeps r.status_answer) (λ d t k. handle_dps-IsSound r.done_time d true t k)
      (record s { refresh_at = none }) (unseen h refl refl refl)

beat_if_due-Keeps : (r : Round) → Keeps (beat_if_due r)
unfolding beat_if_due
beat_if_due-Keeps r s h =
    choose-IsSound (heartbeat_due r.now s) _ _
      (w_heartbeat-Keeps r.heartbeat_answer r.heartbeat_time s h) h

handle_received-Keeps : (now : ℕ) (o : Option Dps) → Keeps (handle_received now o)
handle_received-Keeps now none s h = h
handle_received-Keeps now (some []) s h = h
handle_received-Keeps now (some (e ∷ d)) s h = handle_dps-IsSound now (e ∷ d) false s h

receive_next-Keeps : (r : Round) → Keeps (receive_next r)
unfolding receive_next
receive_next-Keeps r = bind-Keeps (beat_if_due r) _ (beat_if_due-Keeps r) λ _.
    bind-Keeps (w_receive r.receive_answer r.raw_received r.done_time) _
      (w_receive-Keeps r.receive_answer r.raw_received r.done_time)
      λ o. handle_received-Keeps r.done_time o

pub step-Keeps : (r : Round) → Keeps (step r)
unfolding step
step-Keeps r s h =
    choose-IsSound (is_dead r.now s) _ _ h
      (choose-IsSound (status_due r.now s) _ _ (read_status-Keeps r s h) (receive_next-Keeps r s h))

sleep_for-IsSound : (n : ℕ) (s : LanDevice) → IsSound s → IsSound (sleep_for n s)
unfolding sleep_for
sleep_for-IsSound n s h = record { listens = h.listens; in_turn = h.in_turn; told = h.told }

emit_error-IsSound :
    (b : Bool) (e : LanError) (s : LanDevice) → IsSound s → IsSound (emit b (error e) s)
unfolding emit
emit_error-IsSound true e s h = record { listens = h.listens; in_turn = h.in_turn; told = h.told }
emit_error-IsSound false e s h = h

not_connected-IsSound :
    (e : LanError) (backoff : ℕ) (s : LanDevice) → IsSound s → IsSound (not_connected e backoff s).1
unfolding not_connected
not_connected-IsSound e backoff s h =
    let told =
      set_available-IsSound false (some e) (record s { last_error = some e })
        (unseen h refl refl refl) in
    sleep_for-IsSound backoff _ (emit_error-IsSound _ e _ told)

after_open-IsSound :
    (now backoff : ℕ) (r : Result LanError (String × Dps)) (s : LanDevice)
    → IsSound s
    → IsSound (after_open now backoff (r, s)).1
after_open-IsSound now backoff (raised e) s h = not_connected-IsSound e backoff s h
after_open-IsSound now backoff (ok (v, d)) s h = handle_connected-IsSound now v d s h

after_step-IsSound :
    (backoff : ℕ) (r : Result LanError (Unit {0})) (s : LanDevice)
    → IsSound s
    → IsSound (after_step backoff (r, s)).1
after_step-IsSound backoff (ok _) s h = h
after_step-IsSound backoff (raised e) s h = sleep_for-IsSound 1000 (lost e s) (lost-IsSound e s h)

pub round-IsSound : (r : Round) (b : ℕ) (s : LanDevice) → IsSound s → IsSound (round r (b, s)).1
unfolding round
round-IsSound r b s h =
    choose-IsSound (is_some s.api) _ _
      (after_step-IsSound b (step r s).0 (step r s).1 (step-Keeps r s h))
      (after_open-IsSound r.done_time b (w_open r.respond s).0 (w_open r.respond s).1
        (w_open-Keeps r.respond s h))

pub run_from-IsSound :
    (rounds : List Round) (b : ℕ) (s : LanDevice) → IsSound s → IsSound (run_from rounds (b, s)).1
unfolding run_from
run_from-IsSound [] b s h = h
run_from-IsSound (r ∷ rounds) b s h =
    choose-IsSound s.closed _ _ h
      (run_from-IsSound rounds (round r (b, s)).0 (round r (b, s)).1 (round-IsSound r b s h))
