-- ===== src/Lan/Device/Reconnect.antt =====
-- How a connection comes back after failed attempts (lan/device.py, `_run`).
use ha_birdie.Base.{
  ℕ, String, ◌≡◌, refl, ◌∙◌, ap, true, false, some, List, [], ◌∷◌, ◌++◌, arith, All, is_some,
  if-false,
}
use ha_birdie.Base.Dict.{update}
use ha_birdie.Dps.{Dps}
use ha_birdie.Lan.Errors.{LanError}
use ha_birdie.Lan.Device.{LanDevice}
use ha_birdie.Lan.Device.Worker.{versions_to_try, w_open, w_drop}
use ha_birdie.Lan.Device.Client.{emit, set_available, handle_connected, handle_dps}
use ha_birdie.Lan.Device.Loop.{Round, not_connected, sleep_for, round, run_from}
use ha_birdie.Lan.Device.Opening.{Opens, w_open-refused, Opens-try_versions}
use ha_birdie.Lan.Device.Backoff.{Silent, All-Fails}

-- What an attempt that fails leaves alone.
record StaysOff (s t : LanDevice) : Type 0 where
  unconnected : is_some t.api ≡ false
  running : t.closed ≡ s.closed
  same_timings : t.timings ≡ s.timings
  same_dps : t.dps ≡ s.dps
  kept_config : t.config ≡ s.config
  same_version : t.version ≡ s.version
  same_hint : t.version_hint ≡ s.version_hint

not_connected-StaysOff :
    (e : LanError) (b : ℕ) (s : LanDevice) → StaysOff s (not_connected e b (w_drop s)).1
unfolding not_connected set_available emit sleep_for w_drop
not_connected-StaysOff e b s = ground arith

round-StaysOff :
    (r : Round) (b : ℕ) (s : LanDevice)
    → Silent r
    → is_some s.api ≡ false
    → StaysOff s (round r (b, s)).1
unfolding round
round-StaysOff r b s h none_yet =
    let (e, refused, _) = w_open-refused r.respond s (All-Fails r h (versions_to_try s)) in
    let w = not_connected-StaysOff e b s in rw (none_yet, refused) w

-- A device that has connected again.
pub record Connected (s : LanDevice) (v : String) (d : Dps) (after : ℕ × LanDevice) : Type 0 where
  pub backoff : after.0 ≡ s.timings.reconnect_min
  pub connection : is_some (after.1).api ≡ true
  pub available : (after.1).available ≡ true
  pub version : (after.1).version ≡ some v
  pub dps : (after.1).dps ≡ update s.dps d

round-Connected :
    (r : Round) (b : ℕ) (s : LanDevice) (v : String) (d : Dps)
    → is_some s.api ≡ false
    → Opens r.respond (versions_to_try s) v d
    → Connected s v d (round r (b, s))
unfolding round w_open w_drop handle_connected handle_dps set_available emit
round-Connected r b s v d none_yet opens =
    rw (none_yet, Opens-try_versions r.respond [] opens)
      (record {
        backoff = refl;
        connection = ground arith;
        available = ground arith;
        version = ground arith;
        dps = ground arith;
      })

versions-same :
    (s t : LanDevice)
    → t.config ≡ s.config
    → t.version ≡ s.version
    → t.version_hint ≡ s.version_hint
    → versions_to_try t ≡ versions_to_try s
unfolding versions_to_try
versions-same s t c v h = rw (c, v, h) refl

-- When, after any number of rounds in which no version connects, some version of the list answers,
-- the device is connected with that version, available, has the data points of the answer, and the
-- next delay is the smallest one again.
pub run_from-Connected :
    (rounds : List Round) (r : Round) (b : ℕ) (s : LanDevice) (v : String) (d : Dps)
    → All Silent rounds
    → is_some s.api ≡ false
    → s.closed ≡ false
    → Opens r.respond (versions_to_try s) v d
    → Connected s v d (run_from (rounds ++ r ∷ []) (b, s))
unfolding run_from
run_from-Connected [] r b s v d h none_yet running opens =
    rw (if-false s.closed (b, s) (round r (b, s)) running)
      (round-Connected r b s v d none_yet opens)
run_from-Connected (q ∷ rounds) r b s v d (quiet, h) none_yet running opens =
    let off = round-StaysOff q b s quiet none_yet in
    let b' = (round q (b, s)).0 in
    let s' = (round q (b, s)).1 in
    let same = versions-same s s' off.kept_config off.same_version off.same_hint in
    let c =
      run_from-Connected rounds r b' s' v d h off.unconnected (off.running ∙ running)
        (rw same opens) in
    rw (if-false s.closed (b, s) (run_from (rounds ++ r ∷ []) (b', s')) running) (record {
      backoff = c.backoff ∙ ap (λ t. t.reconnect_min) off.same_timings;
      connection = c.connection;
      available = c.available;
      version = c.version;
      dps = c.dps ∙ ap (λ e. update e d) off.same_dps;
    })
