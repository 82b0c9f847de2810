-- ===== src/Lan/Device/Registered.antt =====
-- What the operations of a device leave of the registry of local keys (lan/device.py, lan/redact.py).
pub mod Held
use ha_birdie.Base.{
  ℕ, String, ◌≡◌, refl, ◌∙◌, Bool, true, false, Option, none, some, [], ◌∷◌, arith, Bool-cases, inl,
  inr, if◌then◌else◌, is_some,
}
use ha_birdie.Base.Result.{Result, ok, raised}
use ha_birdie.Dps.{Dps, Value}
use ha_birdie.Lan.Errors.{LanError, unreachable, connection_lost, invalid_local_key}
use ha_birdie.Lan.Device.{LanDevice, Answer, Call, continue, modify, gets, ◌>>=◌, ◌>>◌}
use ha_birdie.Lan.Device.Worker.{
  Attempt, Opened, opened, failed, try_versions, versions_to_try, w_open, w_status, w_heartbeat,
  w_receive, w_set, w_drop, keep_api,
}
use ha_birdie.Lan.Device.Client.{
  emit, set_available, handle_dps, handle_connected, lost, require_connection, async_connect,
  or_lose, recover, async_refresh, async_set_dps, refresh_later, start,
}
use ha_birdie.Lan.Device.Loop.{
  read_status, beat_if_due, receive_next, handle_received, after_open, after_step, heartbeat_due,
  is_dead, status_due, Round, step, sleep_for, not_connected, round,
}

-- The registry, the configuration and whether the device is closed are the same.
pub record IsSame (s t : LanDevice) : Type 0 where
  pub secrets : t.secrets ≡ s.secrets
  pub config : t.config ≡ s.config
  pub closed : t.closed ≡ s.closed

same : (s : LanDevice) → IsSame s s
same s = record { secrets = refl; config = refl; closed = refl }

after : {s t u : LanDevice} → IsSame s t → IsSame t u → IsSame s u
after h k = record {
  secrets = k.secrets ∙ h.secrets;
  config = k.config ∙ h.config;
  closed = k.closed ∙ h.closed;
}

handle_dps-IsSame :
    (now : ℕ) (d : Dps) (full : Bool) (s : LanDevice) → IsSame s (handle_dps now d full s)
unfolding handle_dps emit
handle_dps-IsSame now d full s = ground arith

pub set_available-IsSame :
    (b : Bool) (e : Option LanError) (s : LanDevice) → IsSame s (set_available b e s)
unfolding set_available emit
set_available-IsSame b e s = ground arith

handle_connected-IsSame :
    (now : ℕ) (v : String) (d : Dps) (s : LanDevice) → IsSame s (handle_connected now v d s)
unfolding handle_connected handle_dps set_available emit
handle_connected-IsSame now v d s = ground arith

lost-IsSame : (e : LanError) (s : LanDevice) → IsSame s (lost e s)
unfolding lost w_drop set_available emit
lost-IsSame e s = ground arith

abbrev pub Saves : {A : Type 0} → Call A → Type 0
Saves m = (s : LanDevice) → IsSame s (m s).1

w_open-Saves : (respond : String → Attempt) → Saves (w_open respond)
unfolding w_open w_drop
w_open-Saves respond s = go (try_versions respond (versions_to_try s) [])
  where
    go : (o : Opened) → IsSame s (keep_api o (w_drop s)).1
    go (opened v d) = record { secrets = refl; config = refl; closed = refl }
    go (failed e) = record { secrets = refl; config = refl; closed = refl }

w_status-Saves : (a : Answer) → Saves (w_status a)
unfolding w_status
w_status-Saves a s = ground arith

w_heartbeat-Saves : (a : Answer) (now : ℕ) → Saves (w_heartbeat a now)
unfolding w_heartbeat
w_heartbeat-Saves a now s = ground arith

w_receive-Saves : (a : Answer) (raw : Bool) (now : ℕ) → Saves (w_receive a raw now)
unfolding w_receive
w_receive-Saves a raw now s = ground arith

w_set-Saves : (a : Answer) → Saves (w_set a)
unfolding w_set
w_set-Saves a s = ground arith

require_connection-Saves : Saves require_connection
unfolding require_connection
require_connection-Saves s = same s

module _ {A B : Type 0} where
  bind-Saves : (m : Call A) (f : A → Call B) → Saves m → ((a : A) → Saves (f a)) → Saves (m >>= f)
  bind-Saves m f km kf s = go (m s).0
    where
      go : (r : Result LanError A) → IsSame s (continue r f (m s).1).1
      go (ok a) = after (km s) (kf a (m s).1)
      go (raised e) = km s

module _ {A : Type 0} where
  or_lose-Saves : (m : Call A) → Saves m → Saves (or_lose m)
  unfolding or_lose
  or_lose-Saves m km s = go (m s).0
    where
      go : (r : Result LanError A) → IsSame s (recover r (m s).1).1
      go (ok a) = km s
      go (raised unreachable) = km s
      go (raised connection_lost) = after (km s) (lost-IsSame connection_lost (m s).1)
      go (raised invalid_local_key) = km s

choose-IsSame :
    {A : Type 0} (c : Bool) (s : LanDevice) (p q : A × LanDevice)
    → IsSame s p.1
    → IsSame s q.1
    → IsSame s (if c then p else q).1
choose-IsSame true s p q hp hq = hp
choose-IsSame false s p q hp hq = hq

pub async_connect-Saves : (respond : String → Attempt) (now : ℕ) → Saves (async_connect respond now)
unfolding async_connect
async_connect-Saves respond now =
    bind-Saves (w_open respond) _ (w_open-Saves respond)
      (λ x s. handle_connected-IsSame now x.0 x.1 s)

pub async_refresh-Saves : (a : Answer) (now : ℕ) → Saves (async_refresh a now)
unfolding async_refresh
async_refresh-Saves a now = bind-Saves require_connection _ require_connection-Saves λ u.
    bind-Saves (or_lose (w_status a)) _ (or_lose-Saves (w_status a) (w_status-Saves a))
      (λ d s. handle_dps-IsSame now d true s)

pub async_set_dps-Saves : (d : Dps) (a : Answer) (now : ℕ) → Saves (async_set_dps d a now)
unfolding async_set_dps
async_set_dps-Saves [] a now s = same s
async_set_dps-Saves (e ∷ d) a now s =
    bind-Saves require_connection _ require_connection-Saves
      (λ u.
        bind-Saves (or_lose (w_set a)) _ (or_lose-Saves (w_set a) (w_set-Saves a))
          (λ v t. record { secrets = refl; config = refl; closed = refl }))
      s

pub start-IsSame : (s : LanDevice) → IsSame s (start s)
unfolding start
start-IsSame s = ground arith

read_status-Saves : (r : Round) → Saves (read_status r)
unfolding read_status
read_status-Saves r s =
    let k =
      bind-Saves (w_status r.status_answer) (λ d. modify (handle_dps r.done_time d true))
        (w_status-Saves r.status_answer) (λ d t. handle_dps-IsSame r.done_time d true t)
        (record s { refresh_at = none }) in
    record { secrets = k.secrets; config = k.config; closed = k.closed }

beat_if_due-Saves : (r : Round) → Saves (beat_if_due r)
unfolding beat_if_due
beat_if_due-Saves r s =
    choose-IsSame (heartbeat_due r.now s) s _ _
      (w_heartbeat-Saves r.heartbeat_answer r.heartbeat_time s) (same s)

handle_received-Saves : (now : ℕ) (o : Option Dps) → Saves (handle_received now o)
handle_received-Saves now none s = same s
handle_received-Saves now (some []) s = same s
handle_received-Saves now (some (e ∷ d)) s = handle_dps-IsSame now (e ∷ d) false s

receive_next-Saves : (r : Round) → Saves (receive_next r)
unfolding receive_next
receive_next-Saves r = bind-Saves (beat_if_due r) _ (beat_if_due-Saves r) λ u.
    bind-Saves (w_receive r.receive_answer r.raw_received r.done_time) _
      (w_receive-Saves r.receive_answer r.raw_received r.done_time)
      λ o. handle_received-Saves r.done_time o

step-Saves : (r : Round) → Saves (step r)
unfolding step
step-Saves r s =
    choose-IsSame (is_dead r.now s) s _ _ (same s)
      (choose-IsSame (status_due r.now s) s _ _ (read_status-Saves r s) (receive_next-Saves r s))

not_connected-IsSame :
    (e : LanError) (backoff : ℕ) (s : LanDevice) → IsSame s (not_connected e backoff s).1
unfolding not_connected sleep_for set_available emit
not_connected-IsSame e backoff s = ground arith

after_open-IsSame :
    (now backoff : ℕ) (r : Result LanError (String × Dps)) (s : LanDevice)
    → IsSame s (after_open now backoff (r, s)).1
after_open-IsSame now backoff (raised e) s = not_connected-IsSame e backoff s
after_open-IsSame now backoff (ok (v, d)) s = handle_connected-IsSame now v d s

after_step-IsSame :
    (backoff : ℕ) (r : Result LanError (Unit {0})) (s : LanDevice)
    → IsSame s (after_step backoff (r, s)).1
unfolding sleep_for
after_step-IsSame backoff (ok u) s = same s
after_step-IsSame backoff (raised e) s =
    let k = lost-IsSame e s in record { secrets = k.secrets; config = k.config; closed = k.closed }

choose-round :
    (c : Bool) (s : LanDevice) (p q : ℕ × LanDevice)
    → IsSame s p.1
    → IsSame s q.1
    → IsSame s (if c then p else q).1
choose-round true s p q hp hq = hp
choose-round false s p q hp hq = hq

pub round-IsSame : (r : Round) (backoff : ℕ) (s : LanDevice) → IsSame s (round r (backoff, s)).1
unfolding round
round-IsSame r backoff s =
    let opened = w_open r.respond s in
    choose-round (is_some s.api) s _ _
      (after (step-Saves r s) (after_step-IsSame backoff (step r s).0 (step r s).1))
      (after (w_open-Saves r.respond s) (after_open-IsSame r.done_time backoff opened.0 opened.1))
