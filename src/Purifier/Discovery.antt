-- ===== src/Purifier/Discovery.antt =====
-- custom_components/birdie/purifier/discovery.py: the listener that all purifier entries share, and
-- what an announcement leads to. Starting and stopping a listener is the library's.
pub mod Sharing
pub mod Offers
pub mod Network
pub mod Scan
mod Tests
use ha_birdie.Base.{
  ℕ, ◌+◌, ◌-◌, String, Bool, true, false, not, ◌&&◌, ◌||◌, Option, none, some, List, [], ◌∷◌, ◌==◌,
  contains, if◌then◌else◌, is_some, str_eq,
}
use ha_birdie.Lan.Discovery.{DiscoveredDevice}

-- An entry of this integration: whether it is a purifier's, its data, and whether it has a coordinator.
pub record ConfigEntry : Type 0 where
  pub purifier : Bool
  pub device_id : Option String
  pub host : Option String
  pub has_coordinator : Bool

-- What an announcement leads to: an entry follows the purifier to its host, or a flow offers it.
pub data Reaction : Type 0 where
  set_host_of : String → String → Reaction
  create_flow : DiscoveredDevice → Reaction

-- `PurifierDiscovery`; `listening` is `_listener is not None`, and `stopped` counts the listeners
-- that were stopped.
pub record PurifierDiscovery : Type 0 where
  pub users : ℕ
  pub listening : Bool
  pub started : ℕ
  pub stopped : ℕ
  pub offered : List String
  pub reactions : List Reaction

-- `async_acquire`
unfoldable pub acquire : PurifierDiscovery → PurifierDiscovery
acquire d =
    let counted = record d { users = d.users + 1 } in
    if d.listening then counted else record counted { listening = true; started = d.started + 1 }

-- `async_release`
unfoldable pub release : PurifierDiscovery → PurifierDiscovery
release d =
    let counted = record d { users = d.users - 1 } in
    if not (counted.users == 0) || not d.listening
    then counted
    else record counted { listening = false; stopped = d.stopped + 1 }

abbrev pub same_text : Option String → String → Bool
same_text none t = false
same_text (some s) t = str_eq s t

-- the entry's guards in the loop
abbrev pub is_entry_of : DiscoveredDevice → ConfigEntry → Bool
is_entry_of device e = e.purifier && same_text e.device_id device.device_id

abbrev follow : DiscoveredDevice → ConfigEntry → PurifierDiscovery → PurifierDiscovery
follow device e d =
    if not (same_text e.host device.host) && e.has_coordinator
    then record d { reactions = set_host_of device.device_id device.host ∷ d.reactions }
    else d

abbrev pub product_keys : List String
product_keys = "a2zf7q0zxcutn5dy" ∷ []

abbrev pub is_birdie_purifier : DiscoveredDevice → Bool
is_birdie_purifier device = elim device.product_key [
  | none ↦ false
  | some k ↦ contains product_keys k
]

-- the lines after the loop
unfoldable pub offer : DiscoveredDevice → PurifierDiscovery → PurifierDiscovery
offer device d =
    if is_birdie_purifier device && not (contains d.offered device.device_id)
    then record d {
      offered = device.device_id ∷ d.offered;
      reactions = create_flow device ∷ d.reactions;
    }
    else d

-- `_async_on_device`
unfoldable pub on_device :
    List ConfigEntry → DiscoveredDevice → PurifierDiscovery → PurifierDiscovery
on_device [] device d = offer device d
on_device (e ∷ entries) device d =
    let rest = on_device entries device d in
    if is_entry_of device e then follow device e d else rest
