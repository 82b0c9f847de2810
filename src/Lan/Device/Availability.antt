-- ===== src/Lan/Device/Availability.antt =====
-- What the availability callback is told, over every operation of lan/device.py.
use ha_birdie.Base.{
  ℕ, String, ◌≡◌, refl, Bool, true, false, not, Option, none, some, List, [], ◌∷◌, arith,
  Bool-cases, inl, inr, if◌then◌else◌,
}
use ha_birdie.Base.Result.{Result, ok, raised, Result, ok, raised}
use ha_birdie.Dps.{Dps}
use ha_birdie.Lan.Errors.{LanError, unreachable, connection_lost, invalid_local_key}
use ha_birdie.Lan.Device.{
  LanDevice, Event, status, availability, error, sleep, Answer, Call, continue, ◌>>=◌, DeviceConfig,
  ConfigError, make_config,
}
use ha_birdie.Lan.Device.Worker.{
  Attempt, Opened, opened, failed, try_versions, versions_to_try, w_open, w_status, w_heartbeat,
  w_receive, w_set, w_drop, keep_api,
}
use ha_birdie.Lan.Device.Client.{
  set_available, handle_dps, handle_connected, lost, require_connection, async_connect, or_lose,
  recover, recover, async_refresh, async_set_dps, start, Changes, async_close, async_reconfigure,
  apply_changes, same_config, reconfigured,
}

-- The availability that was reported last; a device starts unavailable.
abbrev pub last_reported : List Event → Bool
last_reported [] = false
last_reported (availability b e ∷ events) = b
last_reported (status d ∷ events) = last_reported events
last_reported (error e ∷ events) = last_reported events
last_reported (sleep n ∷ events) = last_reported events

-- Each report differs from the one before it.
abbrev pub Alternates : List Event → Type 0
Alternates [] = Unit
Alternates (availability b e ∷ events) = (last_reported events ≡ not b) × Alternates events
Alternates (status d ∷ events) = Alternates events
Alternates (error e ∷ events) = Alternates events
Alternates (sleep n ∷ events) = Alternates events

-- There is a listener, and it has been told of every change of the availability, once and in turn.
pub record IsSound (s : LanDevice) : Type 0 where
  pub listens : s.on_availability ≡ true
  pub in_turn : Alternates s.events
  pub told : last_reported s.events ≡ s.available

pub set_available-IsSound :
    (b : Bool) (e : Option LanError) (s : LanDevice) → IsSound s → IsSound (set_available b e s)
unfolding set_available
set_available-IsSound b e s h = ground arith

pub handle_dps-IsSound :
    (now : ℕ) (d : Dps) (full : Bool) (s : LanDevice)
    → IsSound s
    → IsSound (handle_dps now d full s)
unfolding handle_dps
handle_dps-IsSound now d full s h = ground arith

-- A change of fields that a listener does not see.
abbrev pub unseen :
    {s t : LanDevice}
    → IsSound s
    → (s.events ≡ t.events)
    → (s.available ≡ t.available)
    → (s.on_availability ≡ t.on_availability)
    → IsSound t
unseen h e a o = record {
  listens = rw (← o) h.listens;
  in_turn = rw (← e) h.in_turn;
  told = rw (← e, ← a) h.told;
}

pub lost-IsSound : (e : LanError) (s : LanDevice) → IsSound s → IsSound (lost e s)
unfolding lost
lost-IsSound e s h = set_available-IsSound false (some e) _ (unseen h refl refl refl)

pub handle_connected-IsSound :
    (now : ℕ) (v : String) (d : Dps) (s : LanDevice)
    → IsSound s
    → IsSound (handle_connected now v d s)
unfolding handle_connected
handle_connected-IsSound now v d s h =
    handle_dps-IsSound now d true _ (set_available-IsSound true none _ (unseen h refl refl refl))

abbrev pub Keeps : {A : Type 0} → Call A → Type 0
Keeps m = (s : LanDevice) → IsSound s → IsSound (m s).1

pub w_open-Keeps : (respond : String → Attempt) → Keeps (w_open respond)
unfolding w_open
w_open-Keeps respond s h = go (try_versions respond (versions_to_try s) [])
  where
    go : (o : Opened) → IsSound (keep_api o (w_drop s)).1
    go (opened v d) = unseen h refl refl refl
    go (failed e) = unseen h refl refl refl

pub w_status-Keeps : (a : Answer) → Keeps (w_status a)
unfolding w_status
w_status-Keeps a s h = ground arith

pub w_heartbeat-Keeps : (a : Answer) (now : ℕ) → Keeps (w_heartbeat a now)
unfolding w_heartbeat
w_heartbeat-Keeps a now s h = ground arith

pub w_receive-Keeps : (a : Answer) (raw : Bool) (now : ℕ) → Keeps (w_receive a raw now)
unfolding w_receive
w_receive-Keeps a raw now s h = ground arith

pub w_set-Keeps : (a : Answer) → Keeps (w_set a)
unfolding w_set
w_set-Keeps a s h = ground arith

pub choose-IsSound :
    {A : Type 0} (b : Bool) (p q : A × LanDevice)
    → IsSound p.1
    → IsSound q.1
    → IsSound (if b then p else q).1
choose-IsSound true p q hp hq = hp
choose-IsSound false p q hp hq = hq

module _ {A B : Type 0} where
  pub bind-Keeps :
      (m : Call A) (f : A → Call B) → Keeps m → ((a : A) → Keeps (f a)) → Keeps (m >>= f)
  bind-Keeps m f km kf s h = go (m s).0 (km s h)
    where
      go : (r : Result LanError A) → IsSound (m s).1 → IsSound (continue r f (m s).1).1
      go (ok a) h' = kf a (m s).1 h'
      go (raised e) h' = h'

pub or_lose-Keeps : {A : Type 0} (m : Call A) → Keeps m → Keeps (or_lose m)
unfolding or_lose
or_lose-Keeps {A} m km s h = go (m s).0 (km s h)
  where
    go : (r : Result LanError A) → IsSound (m s).1 → IsSound (recover r (m s).1).1
    go (ok a) h' = h'
    go (raised unreachable) h' = h'
    go (raised connection_lost) h' = lost-IsSound connection_lost (m s).1 h'
    go (raised invalid_local_key) h' = h'

pub require_connection-Keeps : Keeps require_connection
unfolding require_connection
require_connection-Keeps s h = unseen h refl refl refl

pub async_connect-Keeps : (respond : String → Attempt) (now : ℕ) → Keeps (async_connect respond now)
unfolding async_connect
async_connect-Keeps respond now =
    bind-Keeps (w_open respond) _ (w_open-Keeps respond)
      λ (v, d) s h. handle_connected-IsSound now v d s h

pub async_refresh-Keeps : (a : Answer) (now : ℕ) → Keeps (async_refresh a now)
unfolding async_refresh
async_refresh-Keeps a now = bind-Keeps require_connection _ require_connection-Keeps λ _.
    bind-Keeps (or_lose (w_status a)) _ (or_lose-Keeps (w_status a) (w_status-Keeps a))
      λ d s h. handle_dps-IsSound now d true s h

pub async_set_dps-Keeps : (d : Dps) (a : Answer) (now : ℕ) → Keeps (async_set_dps d a now)
unfolding async_set_dps
async_set_dps-Keeps [] a now s h = h
async_set_dps-Keeps (_ ∷ _) a now s h =
    bind-Keeps require_connection _ require_connection-Keeps
      (λ _.
        bind-Keeps (or_lose (w_set a)) _ (or_lose-Keeps (w_set a) (w_set-Keeps a))
          (λ _ t k. unseen k refl refl refl))
      s h

pub start-IsSound : (s : LanDevice) → IsSound s → IsSound (start s)
unfolding start
start-IsSound s h = ground arith

module _ (bytes_form : String → String) where
  pub async_close-IsSound : (s : LanDevice) → IsSound s → IsSound (async_close bytes_form s)
  unfolding async_close
  async_close-IsSound s h = ground arith

  reconfigured-IsSound :
      (r : Result ConfigError DeviceConfig) (s : LanDevice)
      → IsSound s
      → IsSound (reconfigured bytes_form r s).1
  reconfigured-IsSound (raised e) s h = h
  reconfigured-IsSound (ok config) s h = elim (Bool-cases (same_config config s.config)) [
    | inl e ↦ rw e h
    | inr e ↦ rw e (
        unseen (set_available-IsSound false (some unreachable) _ (unseen h refl refl refl)) refl
          refl refl)
  ]

  pub async_reconfigure-IsSound :
      (c : Changes) (s : LanDevice) → IsSound s → IsSound (async_reconfigure bytes_form c s).1
  unfolding async_reconfigure
  async_reconfigure-IsSound c s h =
      reconfigured-IsSound (make_config (apply_changes c s.config)) s h
