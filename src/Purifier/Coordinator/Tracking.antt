-- ===== src/Purifier/Coordinator/Tracking.antt =====
-- What a coordinator shows follows its device (purifier/coordinator.py). Once a state is known, the
-- coordinator shows an update exactly while the device is available.
pub mod History
pub mod Setup
pub mod Shown
use mathlib.Core.List.{reverse, reverse-cons}
use ha_birdie.Base.{
  ℕ, String, ◌≡◌, refl, sym, ◌∙◌, ap, Bool, true, false, not, ◌&&◌, Option, none, some, List, [],
  ◌∷◌, ◌++◌, arith, Bool-cases, Option-cases, inl, inr, if◌then◌else◌, is_some,
}
use ha_birdie.Base.Result.{Result, ok, raised}
use ha_birdie.Dps.{Dps, Value}
use ha_birdie.Lan.Errors.{LanError}
use ha_birdie.Lan.Device.{LanDevice, Event, status, availability, error, sleep, Call, Answer}
use ha_birdie.Lan.Device.Heard.{Heard, IsLinked, IsLive, ends, Told, After, After-IsLinked}
use ha_birdie.Purifier.Coordinator.{Coordinator}
use ha_birdie.Purifier.Coordinator.Handlers.{
  on_status, on_availability, on_error, note_reached, note_unreached, dispatch, settle, fresh,
  with_device,
}

-- A state is known, and the coordinator shows an update exactly if `b`.
pub record Shows (b : Bool) (c : Coordinator) : Type 0 where
  pub known : is_some c.data_seen ≡ true
  pub shown : is_some c.failure ≡ not b

-- The device is listened to, and available while it is connected.
pub record IsSettled (d : LanDevice) : Type 0 where
  pub listens : d.on_availability ≡ true
  pub linked : (is_some d.api && not d.available) ≡ false

-- A coordinator that knows a state and follows its device.
pub record Tracks (c : Coordinator) : Type 0 where
  pub shows : Shows c.device.available c
  pub settled : IsSettled c.device

pub note_unreached-same :
    (now : ℕ) (c : Coordinator)
    → ((note_unreached now c).data_seen ≡ c.data_seen)
      × ((note_unreached now c).failure ≡ c.failure)
      × ((note_unreached now c).device ≡ c.device)
unfolding note_unreached
note_unreached-same now c = ground arith

on_status-Shows : (d : Dps) (b : Bool) (c : Coordinator) → Shows b c → Shows true (on_status d c)
unfolding on_status
on_status-Shows d b c h = record { known = refl; shown = refl }

on_availability-Shows :
    (now : ℕ) (x : Bool) (e : Option LanError) (b : Bool) (c : Coordinator)
    → Shows b c
    → Shows x (on_availability now x e c)
unfolding on_availability note_reached
on_availability-Shows now true e b c h = ground arith
on_availability-Shows now false e b c h = ground (arith, note_unreached-same now c)

on_error-Shows :
    (now : ℕ) (e : LanError) (b : Bool) (c : Coordinator) → Shows b c → Shows b (on_error now e c)
unfolding on_error
on_error-Shows now e b c h = ground (arith, note_unreached-same now (record c { key_failures = 0 }))

dispatch-append :
    (now : ℕ) (xs ys : List Event) (c : Coordinator)
    → dispatch now (xs ++ ys) c ≡ dispatch now ys (dispatch now xs c)
unfolding dispatch
dispatch-append now [] ys c = refl
dispatch-append now (status d ∷ xs) ys c = dispatch-append now xs ys (on_status d c)
dispatch-append now (availability x e ∷ xs) ys c =
    dispatch-append now xs ys (on_availability now x e c)
dispatch-append now (error e ∷ xs) ys c = dispatch-append now xs ys (on_error now e c)
dispatch-append now (sleep n ∷ xs) ys c = dispatch-append now xs ys c

dispatch-Shows :
    (now : ℕ) (b : Bool) (events : List Event) (c : Coordinator)
    → Told b events
    → Shows b c
    → Shows (ends b events) (dispatch now (reverse events) c)
unfolding dispatch
dispatch-Shows now b [] c t h = h
dispatch-Shows now b (status d ∷ events) c (live, t) h =
    rw
      (reverse-cons (status d) events, dispatch-append now (reverse events) (status d ∷ []) c, live)
      (on_status-Shows d _ _ (dispatch-Shows now b events c t h))
dispatch-Shows now b (availability x e ∷ events) c t h =
    rw
      (
        reverse-cons (availability x e) events,
        dispatch-append now (reverse events) (availability x e ∷ []) c,
      )
      (on_availability-Shows now x e _ _ (dispatch-Shows now b events c t h))
dispatch-Shows now b (error e ∷ events) c t h =
    rw (reverse-cons (error e) events, dispatch-append now (reverse events) (error e ∷ []) c)
      (on_error-Shows now e _ _ (dispatch-Shows now b events c t h))
dispatch-Shows now b (sleep n ∷ events) c t h =
    rw (reverse-cons (sleep n) events, dispatch-append now (reverse events) (sleep n ∷ []) c)
      (dispatch-Shows now b events c t h)

on_availability-device :
    (now : ℕ) (x : Bool) (e : Option LanError) (c : Coordinator)
    → (on_availability now x e c).device ≡ c.device
unfolding on_availability note_reached
on_availability-device now true e c = ground arith
on_availability-device now false e c = ground (arith, note_unreached-same now c)

on_error-device : (now : ℕ) (e : LanError) (c : Coordinator) → (on_error now e c).device ≡ c.device
unfolding on_error
on_error-device now e c = ground (arith, note_unreached-same now (record c { key_failures = 0 }))

pub dispatch-device :
    (now : ℕ) (events : List Event) (c : Coordinator) → (dispatch now events c).device ≡ c.device
unfolding dispatch on_status
dispatch-device now [] c = refl
dispatch-device now (status d ∷ events) c = dispatch-device now events (on_status d c)
dispatch-device now (availability x e ∷ events) c =
    dispatch-device now events (on_availability now x e c) ∙ on_availability-device now x e c
dispatch-device now (error e ∷ events) c =
    dispatch-device now events (on_error now e c) ∙ on_error-device now e c
dispatch-device now (sleep n ∷ events) c = dispatch-device now events c

pub settle-device : (now : ℕ) (d : LanDevice) (c : Coordinator) → (settle now d c).device ≡ fresh d
unfolding settle
settle-device now d c = dispatch-device now (reverse d.events) (record c { device = fresh d })

Shows-same : {x y : Bool} {c : Coordinator} → x ≡ y → Shows x c → Shows y c
Shows-same e h = record { known = h.known; shown = h.shown ∙ ap not e }

-- a settled device before a call
pub fresh-IsLinked : (d : LanDevice) → IsSettled d → IsLinked d.available (fresh d)
fresh-IsLinked d h = record {
  heard = record { listens = h.listens; now_told = refl; in_time = tt };
  linked = h.linked;
}

pub IsLinked-IsSettled : (b : Bool) (d : LanDevice) → IsLinked b d → IsSettled (fresh d)
IsLinked-IsSettled b d h = record { listens = h.heard.listens; linked = h.linked }

-- the coordinator after a call of its device
pub settle-Tracks :
    (now : ℕ) (d : LanDevice) (c : Coordinator)
    → Tracks c
    → IsLinked c.device.available d
    → Tracks (settle now d c)
unfolding settle
settle-Tracks now d c h k =
    let kept = settle-device now d c in
    let shows =
      dispatch-Shows now c.device.available d.events (record c { device = fresh d }) k.heard.in_time
        (record { known = h.shows.known; shown = h.shows.shown }) in
    record {
      shows = Shows-same (k.heard.now_told ∙ sym (ap (λ (t : LanDevice). t.available) kept)) shows;
      settled = rw kept (IsLinked-IsSettled c.device.available d k);
    }
