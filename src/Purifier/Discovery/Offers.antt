-- ===== src/Purifier/Discovery/Offers.antt =====
-- No purifier is offered twice (purifier/discovery.py, `_async_on_device`).
use ha_birdie.Base.{String, ◌≡◌, List, [], ◌∷◌, arith, Distinct}
use ha_birdie.Lan.Discovery.{DiscoveredDevice}
use ha_birdie.Purifier.Discovery.{
  PurifierDiscovery, ConfigEntry, Reaction, set_host_of, create_flow, acquire, release, on_device,
  offer,
}
use ha_birdie.Purifier.Discovery.Sharing.{Use, acquires, releases, hears, use_one, use_all}

-- the purifiers that a flow was created for
abbrev pub flow_ids : List Reaction → List String
flow_ids [] = []
flow_ids (set_host_of id host ∷ rs) = flow_ids rs
flow_ids (create_flow device ∷ rs) = device.device_id ∷ flow_ids rs

-- What was offered is remembered, and nothing was offered twice.
pub record IsOnce (d : PurifierDiscovery) : Type 0 where
  pub remembered : flow_ids d.reactions ≡ d.offered
  pub once : Distinct d.offered

offer-IsOnce :
    (device : DiscoveredDevice) (d : PurifierDiscovery) → IsOnce d → IsOnce (offer device d)
unfolding offer
offer-IsOnce device d h = ground arith

on_device-IsOnce :
    (entries : List ConfigEntry) (device : DiscoveredDevice) (d : PurifierDiscovery)
    → IsOnce d
    → IsOnce (on_device entries device d)
unfolding on_device
on_device-IsOnce [] device d h = offer-IsOnce device d h
on_device-IsOnce (e ∷ entries) device d h = ground (arith, on_device-IsOnce entries device d h)

use_one-IsOnce : (u : Use) (d : PurifierDiscovery) → IsOnce d → IsOnce (use_one u d)
unfolding use_one acquire release
use_one-IsOnce acquires d h = ground arith
use_one-IsOnce releases d h = ground arith
use_one-IsOnce (hears entries device) d h = on_device-IsOnce entries device d h

-- Whatever entries acquire and release and whatever is announced, no purifier is offered twice, and
-- those that were offered are remembered, if this was so before.
pub use_all-IsOnce : (us : List Use) (d : PurifierDiscovery) → IsOnce d → IsOnce (use_all us d)
unfolding use_all
use_all-IsOnce [] d h = h
use_all-IsOnce (u ∷ us) d h = use_all-IsOnce us (use_one u d) (use_one-IsOnce u d h)
