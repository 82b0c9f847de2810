-- ===== src/Lan/Discovery/Collect.antt =====
-- A search for announcements (lan/discovery.py, `async_discover`). The collecting callback adds each
-- announcement to `found`, so that it is not one of the listener's numbers here. What a wait brings is
-- its `Wait`.
pub mod Waits
pub mod Ends
use ha_birdie.Base.{
  ℕ, ◌+◌, ◌-◌, min, String, Bool, true, false, not, ◌&&◌, ◌||◌, Option, none, some, List, [], ◌∷◌,
  str_eq, leb, if◌then◌else◌, is_some,
}
use ha_birdie.Base.Dict.{Dict, lookup, insert, has_key}
use ha_birdie.Lan.Discovery.{
  DiscoveredDevice, DiscoveryListener, request_interval, handle, request, start, stop,
}

-- What is announced while the search waits, and by how much a wait that is not ended by the device
-- that is looked for takes longer than its timeout.
pub record Wait : Type 0 where
  pub heard : List DiscoveredDevice
  pub late : ℕ

pub record Found : Type 0 where
  pub listener : DiscoveryListener
  pub found : Dict DiscoveredDevice
  pub done : Bool

abbrev pub is_wanted : Option String → DiscoveredDevice → Bool
is_wanted none d = false
is_wanted (some id) d = str_eq d.device_id id

-- an announcement, and `on_device` for it
unfoldable pub hear : Option String → DiscoveredDevice → Found → Found
hear wanted d f = record {
  listener = handle d f.listener;
  found = insert d.device_id d f.found;
  done = f.done || is_wanted wanted d;
}

unfoldable pub hear_all : Option String → List DiscoveredDevice → Found → Found
hear_all wanted [] f = f
hear_all wanted (d ∷ ds) f = hear_all wanted ds (hear wanted d f)

abbrev pub asked : Bool → Found → Found
asked requests f = if requests then record f { listener = request f.listener } else f

-- the loop, where `none` means that it has not ended in these waits
unfoldable pub collect : Bool → Option String → ℕ → List Wait → ℕ → Found → Option Found
collect requests wanted deadline [] now f = none
collect requests wanted deadline (w ∷ ws) now f =
    let heard = hear_all wanted w.heard (asked requests f) in
    let later = now + min request_interval (deadline - now) + w.late in
    let rest = collect requests wanted deadline ws later heard in
    if heard.done || leb deadline later then some heard else rest

-- the announcement that was looked for is there already
abbrev pub already : Option String → Dict DiscoveredDevice → Bool
already none found = false
already (some id) found = has_key id found

-- the `finally` clause
abbrev pub ended : Bool → Option Found → Option Found
ended own none = none
ended own (some f) = some (if own then record f { listener = stop f.listener } else f)

-- `async_discover` on a listener, which is its own if it was not given one
unfoldable pub discover :
    Bool → Bool → (ℕ → Bool) → Option String → ℕ → List Wait → ℕ → DiscoveryListener → Option Found
discover own requests binds wanted seconds waits now l =
    let begun : Found = record {
      listener = if own then start binds l else l;
      found = l.devices;
      done = false;
    } in
    let result =
      if already wanted l.devices
      then some begun
      else collect requests wanted (now + seconds) waits now begun in
    ended own result
