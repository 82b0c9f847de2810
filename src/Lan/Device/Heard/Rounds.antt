-- ===== src/Lan/Device/Heard/Rounds.antt =====
-- The rounds of the loop tell the availability, and keep a connected device available (lan/device.py,
-- `_run`).
use ha_birdie.Base.{
  ℕ, String, ◌≡◌, refl, Bool, true, false, Option, none, some, [], ◌∷◌, arith, Bool-cases, inl, inr,
  if-true, if-false, is_some,
}
use ha_birdie.Base.Result.{Result, ok, raised}
use ha_birdie.Dps.{Dps}
use ha_birdie.Lan.Errors.{LanError}
use ha_birdie.Lan.Device.{LanDevice, modify}
use ha_birdie.Lan.Device.Worker.{w_open, w_status, w_receive}
use ha_birdie.Lan.Device.Client.{emit, handle_dps, lost}
use ha_birdie.Lan.Device.Loop.{
  read_status, beat_if_due, receive_next, handle_received, after_open, after_step, heartbeat_due,
  is_dead, status_due, Round, step, sleep_for, not_connected, round,
}
use ha_birdie.Lan.Device.Heard.{
  Heard, IsLinked, IsLive, IsLive-IsLinked, IsLinked-IsLive, Stays, set_available-IsLinked,
  handle_dps-IsLive, handle_connected-IsLive, lost-IsLinked, w_status-Stays, w_heartbeat-Stays,
  w_receive-Stays, bind-Stays, choose-IsLive, w_open-After,
}

module _ (b : Bool) where
  read_status-Stays : (r : Round) → Stays b (read_status r)
  unfolding read_status
  read_status-Stays r s h =
      bind-Stays b (w_status r.status_answer) (λ d. modify (handle_dps r.done_time d true))
        (w_status-Stays b r.status_answer) (λ d t k. handle_dps-IsLive b r.done_time d true t k)
        (record s { refresh_at = none })
        (record {
          heard = record {
            listens = h.heard.listens;
            now_told = h.heard.now_told;
            in_time = h.heard.in_time;
          };
          there = h.there;
        })

  beat_if_due-Stays : (r : Round) → Stays b (beat_if_due r)
  unfolding beat_if_due
  beat_if_due-Stays r s h =
      choose-IsLive b (heartbeat_due r.now s) _ _
        (w_heartbeat-Stays b r.heartbeat_answer r.heartbeat_time s h) h

  handle_received-Stays : (now : ℕ) (o : Option Dps) → Stays b (handle_received now o)
  handle_received-Stays now none s h = h
  handle_received-Stays now (some []) s h = h
  handle_received-Stays now (some (e ∷ d)) s h = handle_dps-IsLive b now (e ∷ d) false s h

  receive_next-Stays : (r : Round) → Stays b (receive_next r)
  unfolding receive_next
  receive_next-Stays r = bind-Stays b (beat_if_due r) _ (beat_if_due-Stays r) λ _.
      bind-Stays b (w_receive r.receive_answer r.raw_received r.done_time) _
        (w_receive-Stays b r.receive_answer r.raw_received r.done_time)
        λ o. handle_received-Stays r.done_time o

  step-Stays : (r : Round) → Stays b (step r)
  unfolding step
  step-Stays r s h = choose-IsLive b (is_dead r.now s) _ _ h (
      choose-IsLive b (status_due r.now s) _ _ (read_status-Stays r s h) (receive_next-Stays r s h))

  sleep_for-IsLinked : (n : ℕ) (s : LanDevice) → IsLinked b s → IsLinked b (sleep_for n s)
  unfolding sleep_for
  sleep_for-IsLinked n s h = ground arith

  not_connected-IsLinked :
      (e : LanError) (backoff : ℕ) (s : LanDevice)
      → Heard b s
      → is_some s.api ≡ false
      → IsLinked b (not_connected e backoff s).1
  unfolding not_connected emit
  not_connected-IsLinked e backoff s h off =
      let told =
        set_available-IsLinked b (some e) (record s { last_error = some e })
          (record { listens = h.listens; now_told = h.now_told; in_time = h.in_time }) off in
      sleep_for-IsLinked backoff _ (ground arith)

  after_open-IsLinked :
      (now backoff : ℕ) (r : Result LanError (String × Dps)) (s : LanDevice)
      → Heard b s
      → ((e : LanError) → r ≡ raised e → is_some s.api ≡ false)
      → IsLinked b (after_open now backoff (r, s)).1
  after_open-IsLinked now backoff (raised e) s h off =
      not_connected-IsLinked e backoff s h (off e refl)
  after_open-IsLinked now backoff (ok (v, d)) s h off =
      IsLive-IsLinked b _ (handle_connected-IsLive b now v d s h)

  after_step-IsLinked :
      (backoff : ℕ) (r : Result LanError (Unit {0})) (s : LanDevice)
      → IsLive b s
      → IsLinked b (after_step backoff (r, s)).1
  after_step-IsLinked backoff (ok _) s h = IsLive-IsLinked b s h
  after_step-IsLinked backoff (raised e) s h =
      sleep_for-IsLinked 1000 (lost e s) (lost-IsLinked b e s h.heard)

  pub round-IsLinked :
      (r : Round) (backoff : ℕ) (s : LanDevice) → IsLinked b s → IsLinked b (round r (backoff, s)).1
  unfolding round
  round-IsLinked r backoff s h = elim (Bool-cases (is_some s.api)) [
    | inl e ↦
        rw
          (if-true _ (after_step backoff (step r s))
            (after_open r.done_time backoff (w_open r.respond s)) e)
          (after_step-IsLinked backoff (step r s).0 (step r s).1
            (step-Stays r s (IsLinked-IsLive b s h e)))
    | inr e ↦
        let (heard, off) = w_open-After b r.respond s h in
        rw
          (if-false _ (after_step backoff (step r s))
            (after_open r.done_time backoff (w_open r.respond s)) e)
          (after_open-IsLinked r.done_time backoff (w_open r.respond s).0 (w_open r.respond s).1
            heard off)
  ]
