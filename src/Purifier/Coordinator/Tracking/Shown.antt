-- ===== src/Purifier/Coordinator/Tracking/Shown.antt =====
-- What the entities of a purifier show, from its setup on (purifier/coordinator.py).
use ha_birdie.Base.{
  ℕ, String, ◌≡◌, refl, ◌∙◌, ap, Bool, true, not, ◌&&◌, Option, none, some, List, arith, is_some,
}
use ha_birdie.Base.Result.{Result, ok, raised}
use ha_birdie.Dps.{Dps}
use ha_birdie.Lan.Errors.{LanError}
use ha_birdie.Lan.Device.{LanDevice, Answer}
use ha_birdie.Lan.Device.Client.{async_refresh}
use ha_birdie.Lan.Device.Heard.{After, IsLive-IsLinked}
use ha_birdie.Lan.Device.Heard.Calls.{async_refresh-After}
use ha_birdie.Purifier.Model.{PurifierState, from_dps, reported}
use ha_birdie.Purifier.Fan.{entity_available}
use ha_birdie.Purifier.Coordinator.{Coordinator, Failure, device_gone}
use ha_birdie.Purifier.Coordinator.Handlers.{
  fresh, settle, with_device, set_updated_data, update_data,
}
use ha_birdie.Purifier.Coordinator.Tracking.{IsSettled, Tracks, fresh-IsLinked, settle-device}
use ha_birdie.Purifier.Coordinator.Tracking.History.{updated-Tracks}
use ha_birdie.Purifier.Coordinator.Tracking.Setup.{settle-IsSettled}

-- What an entity shows: a state, and that it is available exactly if the device is and the state has
-- the data points that the entity needs.
pub record Follows (required : List String) (c : Coordinator) : Type 0 where
  pub state : PurifierState
  pub seen : c.data_seen ≡ some state
  pub entity : entity_available required c ≡ (c.device.available && reported state required)

known-Follows :
    (required : List String) (o : Option PurifierState) (c : Coordinator)
    → c.data_seen ≡ o
    → is_some o ≡ true
    → is_some c.failure ≡ not c.device.available
    → Follows required c
unfolding entity_available
known-Follows required none c e k f = cc
known-Follows required (some s) c e k f = record { state = s; seen = e; entity = ground arith }

pub Tracks-Follows : (required : List String) (c : Coordinator) → Tracks c → Follows required c
Tracks-Follows required c h = known-Follows required c.data_seen c refl h.shows.known h.shows.shown

-- the result of `_async_update_data`
answer : Result LanError Dps → Coordinator → Result Failure PurifierState
answer (ok dps) c = ok (from_dps dps)
answer (raised e) c = raised (device_gone c.device.config.host)

-- a refresh that succeeded leaves the device available
answered :
    (r : Result LanError Dps) (d : LanDevice) (b : Bool) (now : ℕ) (c : Coordinator)
    (s : PurifierState)
    → After b (r, d)
    → answer r (settle now d c) ≡ ok s
    → Tracks (set_updated_data s (settle now d c))
unfolding answer
answered (ok dps) d b now c s k e =
    updated-Tracks s (settle now d c) (settle-IsSettled now b d c (IsLive-IsLinked b d k))
      (ap (λ (t : LanDevice). t.available) (settle-device now d c) ∙ k.there)
answered (raised x) d b now c s k e = cc

update_data-result :
    (a : Answer) (now : ℕ) (c : Coordinator)
    → let r = with_device now (async_refresh a now) c in update_data a now c ≡ (answer r.0 r.1, r.1)
unfolding update_data answer
update_data-result a now c =
    let r = with_device now (async_refresh a now) c in
    elim r.0
      as (λ (t : Result LanError Dps).
        (elim t as (λ x. Result Failure PurifierState × Coordinator) [
          | ok dps ↦ (ok (from_dps dps), r.1)
          | raised x ↦ (raised (device_gone r.1.device.config.host), r.1)
        ])
        ≡ (answer t r.1, r.1)) [ ok dps ↦ refl | raised x ↦ refl ]

pub update_data-Tracks :
    (a : Answer) (now : ℕ) (c : Coordinator) (s : PurifierState)
    → IsSettled c.device
    → (update_data a now c).0 ≡ ok s
    → Tracks (set_updated_data s (update_data a now c).1)
update_data-Tracks a now c s h e =
    let b = c.device.available in
    let call = async_refresh a now (fresh c.device) in
    let same = update_data-result a now c in
    rw same (
      answered call.0 call.1 b now c s
        (async_refresh-After b a now (fresh c.device) (fresh-IsLinked c.device h)) (rw same at e))
