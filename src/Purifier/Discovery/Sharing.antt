-- ===== src/Purifier/Discovery/Sharing.antt =====
-- The shared listener runs while it has users (purifier/discovery.py).
use ha_birdie.Base.{◌+◌, ◌≡◌, List, [], ◌∷◌, arith, ltb, if◌then◌else◌}
use ha_birdie.Lan.Discovery.{DiscoveredDevice}
use ha_birdie.Purifier.Discovery.{
  PurifierDiscovery, ConfigEntry, acquire, release, on_device, offer,
}

-- an operation on the shared listener
pub data Use : Type 0 where
  acquires releases : Use
  hears : List ConfigEntry → DiscoveredDevice → Use

unfoldable pub use_one : Use → PurifierDiscovery → PurifierDiscovery
use_one acquires d = acquire d
use_one releases d = release d
use_one (hears entries device) d = on_device entries device d

unfoldable pub use_all : List Use → PurifierDiscovery → PurifierDiscovery
use_all [] d = d
use_all (u ∷ us) d = use_all us (use_one u d)

-- The listener runs exactly while there are users, and each one that was started was stopped but
-- for the one that runs.
pub record IsShared (d : PurifierDiscovery) : Type 0 where
  pub runs : d.listening ≡ ltb 0 d.users
  pub balanced : d.started ≡ d.stopped + (if d.listening then 1 else 0)

acquire-IsShared : (d : PurifierDiscovery) → IsShared d → IsShared (acquire d)
unfolding acquire
acquire-IsShared d h = ground arith

release-IsShared : (d : PurifierDiscovery) → IsShared d → IsShared (release d)
unfolding release
release-IsShared d h = ground arith

on_device-IsShared :
    (entries : List ConfigEntry) (device : DiscoveredDevice) (d : PurifierDiscovery)
    → IsShared d
    → IsShared (on_device entries device d)
unfolding on_device offer
on_device-IsShared [] device d h = ground arith
on_device-IsShared (e ∷ entries) device d h = ground (arith, on_device-IsShared entries device d h)

use_one-IsShared : (u : Use) (d : PurifierDiscovery) → IsShared d → IsShared (use_one u d)
unfolding use_one
use_one-IsShared acquires d h = acquire-IsShared d h
use_one-IsShared releases d h = release-IsShared d h
use_one-IsShared (hears entries device) d h = on_device-IsShared entries device d h

-- Whatever entries acquire and release and whatever is announced, the listener runs exactly while
-- there are users, and each one that was started was stopped but for the one that runs, if this was
-- so before.
pub use_all-IsShared :
    (us : List Use) (d : PurifierDiscovery) → IsShared d → IsShared (use_all us d)
unfolding use_all
use_all-IsShared [] d h = h
use_all-IsShared (u ∷ us) d h = use_all-IsShared us (use_one u d) (use_one-IsShared u d h)
