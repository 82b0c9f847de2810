-- ===== src/Purifier/Coordinator/Handlers.antt =====
-- The callbacks and methods of `BirdiePurifierCoordinator` (purifier/coordinator.py).
use mathlib.Core.List.{reverse}
use ha_birdie.Base.{
  ℕ, ◌+◌, String, Bool, true, false, not, Option, none, some, List, [], ◌∷◌, str_eq, ◌==◌,
  if◌then◌else◌,
}
use ha_birdie.Base.Result.{Result, ok, raised}
use ha_birdie.Dps.{Dps}
use ha_birdie.Lan.Errors.{LanError, is_key_error}
use ha_birdie.Lan.Device.{
  LanDevice, Event, status, availability, error, sleep, Call, Answer, default_timings,
}
use ha_birdie.Lan.Device.Client.{
  async_refresh, async_set_dps, async_reconfigure, async_close, Changes, init, start,
}
use ha_birdie.Purifier.Model.{PurifierState, from_dps, apply_dps}
use ha_birdie.Purifier.Coordinator.{
  Coordinator, EntryData, device_config, Failure, key_rejected, device_gone, Action, start_reauth,
  abort_flow, start_search, schedule_reload, key_failures_before_reauth,
}
use ha_birdie.Purifier.Coordinator.Search.{note_reachable, note_unreachable, search_done}

abbrev pub act : Action → Coordinator → Coordinator
act a c = record c { actions = a ∷ c.actions }

abbrev pub set_updated_data : PurifierState → Coordinator → Coordinator
set_updated_data s c = record c { data_seen = some s; failure = none }

unfoldable pub note_reached : Coordinator → Coordinator
note_reached c = record c { search = note_reachable c.search }

unfoldable pub note_unreached : ℕ → Coordinator → Coordinator
note_unreached now c =
    let (search, starts) = note_unreachable now c.search in
    let noted = record c { search = search } in if starts then act start_search noted else noted

-- `_async_store_detected_version`: the device's version, if it has one that is not stored yet
unfoldable pub store_version : Option String → EntryData → EntryData
store_version none e = e
store_version (some v) e = if str_eq v "" then e else record e { detected_version = some v }

abbrev pub store_detected_version : Coordinator → Coordinator
store_detected_version c = record c { entry = store_version c.device.version c.entry }

-- the loop over the active reauth flows
unfoldable pub abort_flows : List String → List Action → List Action
abort_flows [] actions = actions
abort_flows (id ∷ ids) actions = abort_flows ids (abort_flow id ∷ actions)

-- the last lines of the branch for an available device
abbrev show_known : Coordinator → Coordinator
show_known c = elim c.data_seen [ none ↦ c | some _ ↦ set_updated_data (from_dps c.device.dps) c ]

failure_of : Option LanError → Coordinator → Failure
failure_of none c = device_gone c.device.config.host
failure_of (some e) c = if is_key_error e then key_rejected else device_gone c.device.config.host

abbrev not_key_error : Option LanError → Bool
not_key_error none = true
not_key_error (some e) = not (is_key_error e)

-- `_async_on_status`
unfoldable pub on_status : Dps → Coordinator → Coordinator
on_status dps c = set_updated_data (from_dps dps) c

-- `_async_on_availability`
unfoldable pub on_availability : ℕ → Bool → Option LanError → Coordinator → Coordinator
unfolding failure_of
on_availability now true err c =
    let stored = store_detected_version (note_reached (record c { key_failures = 0 })) in
    show_known (record stored { actions = abort_flows c.flows stored.actions; flows = [] })
on_availability now false err c =
    let noted = if not_key_error err then note_unreached now c else c in
    record noted { failure = some (failure_of err noted) }

-- `_async_on_error`
unfoldable pub on_error : ℕ → LanError → Coordinator → Coordinator
on_error now err c =
    let counted = record c { key_failures = c.key_failures + 1 } in
    let reset = note_unreached now (record c { key_failures = 0 }) in
    if not (is_key_error err)
    then reset
    else if counted.key_failures == key_failures_before_reauth
    then act start_reauth counted
    else counted

-- The callbacks that a device call made, the oldest first.
unfoldable pub dispatch : ℕ → List Event → Coordinator → Coordinator
dispatch now [] c = c
dispatch now (status d ∷ events) c = dispatch now events (on_status d c)
dispatch now (availability b e ∷ events) c = dispatch now events (on_availability now b e c)
dispatch now (error e ∷ events) c = dispatch now events (on_error now e c)
dispatch now (sleep n ∷ events) c = dispatch now events c

-- the device after a call, and the callbacks that it made
unfoldable pub settle : ℕ → LanDevice → Coordinator → Coordinator
settle now device c =
    dispatch now (reverse device.events) (record c { device = record device { events = [] } })

-- the device before a call, with no callback made yet
abbrev pub fresh : LanDevice → LanDevice
fresh d = record d { events = [] }

-- a call of the device and the callbacks that it makes
abbrev pub with_device : {A : Type 0} → ℕ → Call A → Coordinator → Result LanError A × Coordinator
with_device now m c = let (r, device) = m (fresh c.device) in (r, settle now device c)

-- `_async_update_data`
unfoldable pub update_data : Answer → ℕ → Coordinator → Result Failure PurifierState × Coordinator
update_data a now c =
    let (r, c') = with_device now (async_refresh a now) c in
    elim r [
      | ok dps ↦ (ok (from_dps dps), c')
      | raised e ↦ (raised (device_gone c'.device.config.host), c')
    ]

-- the optimistic update of `async_send_dps`
abbrev pub show_expected : Dps → Coordinator → Coordinator
show_expected dps c = elim c.data_seen [ none ↦ c | some s ↦ set_updated_data (apply_dps s dps) c ]

abbrev pub sent :
    Dps → Result LanError (Unit {0}) → Coordinator → Result Failure (Unit {0}) × Coordinator
sent dps (ok _) c = (ok tt, show_expected dps c)
sent dps (raised e) c = (raised (device_gone c.device.config.host), c)

-- `async_send_dps`
unfoldable pub send_dps : Dps → Answer → ℕ → Coordinator → Result Failure (Unit {0}) × Coordinator
send_dps dps a now c = let (r, c') = with_device now (async_set_dps dps a now) c in sent dps r c'

-- `async_start`
unfoldable pub async_start : Coordinator → Coordinator
async_start c = record c { device = start c.device }

module _ (bytes_form : String → String) where
  abbrev pub new_host : String → Changes
  new_host host = record {
    host = some host;
    local_key = none;
    protocol_version = none;
    port = none;
  }

  -- `async_set_host`; a `ValueError` of the device, which an empty host would bring, is not passed on
  -- here
  unfoldable pub set_host : String → ℕ → Coordinator → Coordinator
  set_host host now c =
      let moved = record c { entry = record c.entry { host = host } } in
      let device = (async_reconfigure bytes_form (new_host host) (fresh c.device)).1 in
      if str_eq host c.device.config.host
      then c
      else if c.device.closed
      then moved
      else settle now device moved

  -- `__init__`: the bookkeeping of the search outlives a coordinator
  unfoldable pub create : EntryData → Coordinator → Coordinator
  create e c =
      let hears = record c.device { on_status = true; on_availability = true; on_error = true } in
      record c {
        device = init bytes_form (device_config e) default_timings e.detected_version hears;
        key_failures = 0;
        data_seen = none;
        failure = none;
        entry = e;
      }

  -- `async_shutdown`, but for the base class
  unfoldable pub shutdown : Coordinator → Coordinator
  shutdown c = record c { device = async_close bytes_form c.device }

  -- the end of `_async_search_address`, with the host that was found
  unfoldable pub search_address : Option String → ℕ → Coordinator → Coordinator
  search_address none now c = record c { search = search_done c.search }
  search_address (some host) now c =
      let moved = set_host host now c in
      let tried = if moved.loaded then moved else act schedule_reload moved in
      let result = if c.configured then tried else c in
      record result { search = search_done result.search }
