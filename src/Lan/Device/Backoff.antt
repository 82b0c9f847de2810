-- ===== src/Lan/Device/Backoff.antt =====
-- The delays between attempts to reconnect (lan/device.py, `_run`).
use ha_birdie.Base.{
  ℕ, zero, suc, ◌+◌, ◌*◌, ◌^◌, ◌≤◌, min, String, ◌≡◌, refl, ap, ◌∙◌, false, List, [], ◌∷◌, ◌++◌,
  arith, length, All, is_some, if-false,
}
use native.Mathlib.Nat.{pow-succ'}
use ha_birdie.Lan.Errors.{LanError}
use ha_birdie.Lan.Device.{LanDevice, Timings, Event, status, availability, error, sleep}
use ha_birdie.Lan.Device.Worker.{versions_to_try, w_drop}
use ha_birdie.Lan.Device.Client.{emit, set_available}
use ha_birdie.Lan.Device.Loop.{Round, not_connected, sleep_for, round, run_from, run}
use ha_birdie.Lan.Device.Opening.{Fails, w_open-refused}

-- No version connects in this round.
abbrev pub Silent : Round → Type 0
Silent r = (v : String) → Fails r.respond v

pub All-Fails : (r : Round) → Silent r → (vs : List String) → All (Fails r.respond) vs
All-Fails r h [] = tt
All-Fails r h (v ∷ vs) = (h v, All-Fails r h vs)

-- what the loop slept, the newest first
abbrev pub sleeps : List Event → List ℕ
sleeps [] = []
sleeps (sleep ms ∷ events) = ms ∷ sleeps events
sleeps (status d ∷ events) = sleeps events
sleeps (availability a e ∷ events) = sleeps events
sleeps (error e ∷ events) = sleeps events

-- The device stays without a connection, and sleeps the present backoff before the next attempt.
record Waits (b : ℕ) (s : LanDevice) (after : ℕ × LanDevice) : Type 0 where
  doubled : after.0 ≡ min (b * 2) s.timings.reconnect_max
  unconnected : is_some (after.1).api ≡ false
  open_still : (after.1).closed ≡ s.closed
  same_timings : (after.1).timings ≡ s.timings
  slept : sleeps (after.1).events ≡ b ∷ sleeps s.events

not_connected-Waits :
    (e : LanError) (b : ℕ) (s : LanDevice) → is_some s.api ≡ false → Waits b s (not_connected e b s)
unfolding not_connected set_available emit sleep_for
not_connected-Waits e b s h = ground arith

round-Waits :
    (r : Round) (b : ℕ) (s : LanDevice)
    → Silent r
    → is_some s.api ≡ false
    → Waits b s (round r (b, s))
unfolding round w_drop
round-Waits r b s h none_yet =
    let (e, refused, _) = w_open-refused r.respond s (All-Fails r h (versions_to_try s)) in
    let w = not_connected-Waits e b (w_drop s) refl in
    rw (none_yet, refused)
      (record {
        doubled = w.doubled;
        unconnected = w.unconnected;
        open_still = w.open_still;
        same_timings = w.same_timings;
        slept = w.slept;
      })

-- the delay after the attempt that follows `n` failing ones
abbrev pub delay : Timings → ℕ → ℕ
delay t n = min (t.reconnect_min * 2 ^ n) t.reconnect_max

-- the delays after `n` attempts that follow `k` failing ones, the newest first
abbrev pub delays : Timings → ℕ → ℕ → List ℕ
delays t k zero = []
delays t k (suc n) = delay t (k + n) ∷ delays t k n

delay-suc : (t : Timings) (k : ℕ) → min (delay t k * 2) t.reconnect_max ≡ delay t (suc k)
delay-suc t k = rw (pow-succ' 2 k) (omega arith)

delays-suc :
    (t : Timings) (k n : ℕ) (before : List ℕ)
    → (delays t (suc k) n ++ (delay t k ∷ before)) ≡ (delays t k (suc n) ++ before)
delays-suc t k zero before = ap (λ i. delay t i ∷ before) (omega arith)
delays-suc t k (suc n) before =
    ap (λ l. delay t (suc k + n) ∷ l) (delays-suc t k n before)
    ∙ ap (λ i. delay t i ∷ (delays t k (suc n) ++ before)) (omega arith)

run_from-sleeps :
    (t : Timings) (rounds : List Round) (k b : ℕ) (s : LanDevice)
    → All Silent rounds
    → is_some s.api ≡ false
    → s.closed ≡ false
    → s.timings ≡ t
    → b ≡ delay t k
    → sleeps (run_from rounds (b, s)).1.events ≡ (delays t k (length rounds) ++ sleeps s.events)
unfolding run_from
run_from-sleeps t [] k b s h n o same e = refl
run_from-sleeps t (r ∷ rounds) k b s (quiet, h) n o same e =
    let w = round-Waits r b s quiet n in
    let b' = (round r (b, s)).0 in
    let s' = (round r (b, s)).1 in
    let doubled : b' ≡ delay t (suc k) =
      w.doubled
      ∙ ap (λ (m : Timings). min (b * 2) m.reconnect_max) same
      ∙ ap (λ (d : ℕ). min (d * 2) t.reconnect_max) e
      ∙ delay-suc t k in
    ap (λ (p : ℕ × LanDevice). sleeps p.1.events)
      (if-false s.closed (b, s) (run_from rounds (b', s')) o)
    ∙ run_from-sleeps t rounds (suc k) b' s' h w.unconnected (w.open_still ∙ o)
        (w.same_timings ∙ same) doubled
    ∙ ap (λ (l : List ℕ). delays t (suc k) (length rounds) ++ l)
        (w.slept ∙ ap (λ (d : ℕ). d ∷ sleeps s.events) e)
    ∙ delays-suc t k (length rounds) (sleeps s.events)

-- While an open device without a connection gets through at no version, the loop sleeps once after
-- each attempt: the smallest delay after the first one, and after each further one twice as long,
-- but never more than the largest delay, where that is not below the smallest one.
pub run-backoff :
    (rounds : List Round) (s : LanDevice)
    → All Silent rounds
    → is_some s.api ≡ false
    → s.closed ≡ false
    → s.timings.reconnect_min ≤ s.timings.reconnect_max
    → sleeps (run rounds s).1.events ≡ (delays s.timings 0 (length rounds) ++ sleeps s.events)
unfolding run
run-backoff rounds s h n o le =
    run_from-sleeps s.timings rounds 0 s.timings.reconnect_min s h n o refl (omega arith)
