-- ===== src/Lan/Device/Heard.antt =====
-- What the callbacks of one call tell of the availability, and that a connected device is available,
-- over every operation of lan/device.py.
pub mod Calls
pub mod Rounds
use ha_birdie.Base.{
  ℕ, String, ◌≡◌, refl, Bool, true, false, not, ◌&&◌, Option, none, some, List, [], ◌∷◌, arith,
  Bool-cases, inl, inr, if◌then◌else◌, is_some,
}
use ha_birdie.Base.Result.{Result, ok, raised}
use ha_birdie.Dps.{Dps}
use ha_birdie.Lan.Errors.{LanError, unreachable, connection_lost, invalid_local_key}
use ha_birdie.Lan.Device.{
  LanDevice, Event, status, availability, error, sleep, Answer, Call, continue, ◌>>=◌, modify,
}
use ha_birdie.Lan.Device.Worker.{
  Attempt, Opened, opened, failed, try_versions, versions_to_try, w_open, w_status, w_heartbeat,
  w_receive, w_set, w_drop, keep_api,
}
use ha_birdie.Lan.Device.Client.{
  emit, set_available, handle_dps, handle_connected, lost, require_connection, async_connect,
  or_lose, recover, async_refresh, async_set_dps, start, Changes, async_close, async_reconfigure,
  apply_changes, same_config, refresh_later,
}

-- The availability after these callbacks, the newest first, where it was `b` before them.
abbrev pub ends : Bool → List Event → Bool
ends b [] = b
ends b (availability x e ∷ events) = x
ends b (status d ∷ events) = ends b events
ends b (error e ∷ events) = ends b events
ends b (sleep n ∷ events) = ends b events

-- A status is told only while the device is available.
abbrev pub Told : Bool → List Event → Type 0
Told b [] = Unit
Told b (availability x e ∷ events) = Told b events
Told b (status d ∷ events) = (ends b events ≡ true) × Told b events
Told b (error e ∷ events) = Told b events
Told b (sleep n ∷ events) = Told b events

-- The callbacks since the device's availability was `b` tell its availability now.
pub record Heard (b : Bool) (s : LanDevice) : Type 0 where
  pub listens : s.on_availability ≡ true
  pub now_told : ends b s.events ≡ s.available
  pub in_time : Told b s.events

-- a device with a connection is available
pub record IsLinked (b : Bool) (s : LanDevice) : Type 0 where
  pub heard : Heard b s
  pub linked : (is_some s.api && not s.available) ≡ false

-- the same of an available device
pub record IsLive (b : Bool) (s : LanDevice) : Type 0 where
  pub heard : Heard b s
  pub there : s.available ≡ true

module _ (b : Bool) where
  pub IsLive-IsLinked : (s : LanDevice) → IsLive b s → IsLinked b s
  IsLive-IsLinked s h = ground arith

  pub IsLinked-IsLive : (s : LanDevice) → IsLinked b s → is_some s.api ≡ true → IsLive b s
  IsLinked-IsLive s h k = ground arith

  set_available-IsLive :
      (e : Option LanError) (s : LanDevice) → Heard b s → IsLive b (set_available true e s)
  unfolding set_available emit
  set_available-IsLive e s h = ground arith

  pub set_available-IsLinked :
      (e : Option LanError) (s : LanDevice)
      → Heard b s
      → is_some s.api ≡ false
      → IsLinked b (set_available false e s)
  unfolding set_available emit
  set_available-IsLinked e s h k = ground arith

  pub handle_dps-IsLive :
      (now : ℕ) (d : Dps) (full : Bool) (s : LanDevice)
      → IsLive b s
      → IsLive b (handle_dps now d full s)
  unfolding handle_dps emit
  handle_dps-IsLive now d full s h = ground arith

  pub handle_connected-IsLive :
      (now : ℕ) (v : String) (d : Dps) (s : LanDevice)
      → Heard b s
      → IsLive b (handle_connected now v d s)
  unfolding handle_connected
  handle_connected-IsLive now v d s h = handle_dps-IsLive now d true _ (
      set_available-IsLive none _
        (record { listens = h.listens; now_told = h.now_told; in_time = h.in_time }))

  pub lost-IsLinked : (e : LanError) (s : LanDevice) → Heard b s → IsLinked b (lost e s)
  unfolding lost w_drop
  lost-IsLinked e s h =
      set_available-IsLinked (some e) _
        (record { listens = h.listens; now_told = h.now_told; in_time = h.in_time }) refl

  -- after a call: the device is available if the call succeeded
  abbrev pub After : {A : Type 0} → Result LanError A × LanDevice → Type 0
  After (ok a, s) = IsLive b s
  After (raised e, s) = IsLinked b s

  pub After-IsLinked : {A : Type 0} (r : Result LanError A × LanDevice) → After r → IsLinked b r.1
  After-IsLinked (ok a, s) h = IsLive-IsLinked s h
  After-IsLinked (raised e, s) h = h

  abbrev pub Stays : {A : Type 0} → Call A → Type 0
  Stays m = (s : LanDevice) → IsLive b s → IsLive b (m s).1

  pub w_status-Stays : (a : Answer) → Stays (w_status a)
  unfolding w_status
  w_status-Stays a s h = ground arith

  pub w_heartbeat-Stays : (a : Answer) (now : ℕ) → Stays (w_heartbeat a now)
  unfolding w_heartbeat
  w_heartbeat-Stays a now s h = ground arith

  pub w_receive-Stays : (a : Answer) (raw : Bool) (now : ℕ) → Stays (w_receive a raw now)
  unfolding w_receive
  w_receive-Stays a raw now s h = ground arith

  pub w_set-Stays : (a : Answer) → Stays (w_set a)
  unfolding w_set
  w_set-Stays a s h = ground arith

  module _ {A B : Type 0} where
    pub bind-Stays :
        (m : Call A) (f : A → Call B) → Stays m → ((a : A) → Stays (f a)) → Stays (m >>= f)
    bind-Stays m f km kf s h = go (m s).0 (km s h)
      where
        go : (r : Result LanError A) → IsLive b (m s).1 → IsLive b (continue r f (m s).1).1
        go (ok a) h' = kf a (m s).1 h'
        go (raised e) h' = h'

  pub choose-IsLive :
      {A : Type 0} (c : Bool) (p q : A × LanDevice)
      → IsLive b p.1
      → IsLive b q.1
      → IsLive b (if c then p else q).1
  choose-IsLive true p q hp hq = hp
  choose-IsLive false p q hp hq = hq

  pub recover-After :
      {A : Type 0} (r : Result LanError A) (s : LanDevice) → IsLive b s → After (recover r s)
  recover-After (ok a) s h = h
  recover-After (raised unreachable) s h = IsLive-IsLinked s h
  recover-After (raised connection_lost) s h = lost-IsLinked connection_lost s h.heard
  recover-After (raised invalid_local_key) s h = IsLive-IsLinked s h

  pub w_open-After :
      (respond : String → Attempt) (s : LanDevice)
      → IsLinked b s
      → Heard b (w_open respond s).1
        × ((e : LanError)
            → (w_open respond s).0 ≡ raised e
            → is_some (w_open respond s).1.api ≡ false)
  unfolding w_open w_drop
  w_open-After respond s h = go (try_versions respond (versions_to_try s) [])
    where
      k : Heard b (w_drop s)
      k = record {
        listens = h.heard.listens;
        now_told = h.heard.now_told;
        in_time = h.heard.in_time;
      }

      go :
          (o : Opened)
          → Heard b (keep_api o (w_drop s)).1
            × ((e : LanError)
                → (keep_api o (w_drop s)).0 ≡ raised e
                → is_some (keep_api o (w_drop s)).1.api ≡ false)
      go (opened v d) =
          (record { listens = k.listens; now_told = k.now_told; in_time = k.in_time }, λ e i. cc)
      go (failed e) = (k, λ e i. refl)
