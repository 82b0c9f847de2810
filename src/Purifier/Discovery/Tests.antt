-- ===== src/Purifier/Discovery/Tests.antt =====
-- Examples for purifier/discovery.py.
use ha_birdie.Base.{
  ℕ, String, ◌≡◌, refl, arith, true, false, none, some, List, [], ◌∷◌, ◌==◌, if◌then◌else◌,
}
use ha_birdie.Base.Dict.{lookup, update, insert}
use ha_birdie.Dps.{bool, py_eq}
use ha_birdie.Lan.Device.Tests.{only_34}
use ha_birdie.Lan.Search.{among, own_addresses, addresses_to_search, search_all, collect, hosts}
use ha_birdie.Lan.Device.{dps_of}
use ha_birdie.Lan.Device.Worker.{w_open, try_versions, versions_to_try}
use ha_birdie.Lan.Device.Client.{
  init, async_connect, async_close, handle_connected, handle_dps, any_changed, set_available,
}
use ha_birdie.Lan.Device.Once.{connect_once}
use ha_birdie.Lan.Search.Bounds.{is_near}
use ha_birdie.Lan.Search.Find.{Sought, FoundDevice, find_device, first_found, open_ports, attempt}
use ha_birdie.Lan.Search.Find.Tries.{IsFound}
use ha_birdie.Purifier.Discovery.Network.{
  Adapter, local_interfaces, search_network, search_network-found,
}
use ha_birdie.Lan.Discovery.{DiscoveredDevice, DiscoveryListener}
use ha_birdie.Lan.Discovery.Collect.{Wait, Found}
use ha_birdie.Lan.Discovery.Collect.Waits.{Collected}
use ha_birdie.Purifier.Discovery.Scan.{create_listener, scan, scan_ends}
use ha_birdie.Purifier.Discovery.{PurifierDiscovery}
use ha_birdie.Purifier.Discovery.Sharing.{
  Use, acquires, releases, hears, use_all, IsShared, use_all-IsShared,
}
use ha_birdie.Purifier.Discovery.Offers.{IsOnce, use_all-IsOnce}

abbrev idle : PurifierDiscovery
idle = record {
  users = 0;
  listening = false;
  started = 0;
  stopped = 0;
  offered = [];
  reactions = [];
}

abbrev podium_seen : DiscoveredDevice
podium_seen = record {
  device_id = "id";
  host = "10.0.0.7";
  product_key = some "a2zf7q0zxcutn5dy";
  protocol_version = none;
  seen_at = 0;
}

abbrev uses : List Use
uses = acquires ∷ hears [] podium_seen ∷ acquires ∷ hears [] podium_seen ∷ releases ∷ []

use_all-IsShared_example : IsShared (use_all uses idle)
use_all-IsShared_example = use_all-IsShared uses idle (record { runs = refl; balanced = refl })

use_all-IsOnce_example : IsOnce (use_all uses idle)
use_all-IsOnce_example = use_all-IsOnce uses idle (record { remembered = refl; once = tt })

-- 192.168.1.9/30
abbrev adapters : List Adapter
adapters =
    record {
      enabled = true;
      ipv4 =
          record {
            ip = 3232235785;
            prefixlen = 30;
            is_private = true;
            is_loopback = false;
            is_link_local = false;
          }
          ∷ [];
    }
    ∷ []

abbrev same_bytes : String → String
same_bytes s = s

abbrev in_order : List String → List String
in_order hosts = hosts

abbrev address_text : ℕ → String
address_text n = if n == 3232235786 then "192.168.1.10" else "192.168.1.9"

abbrev wanted : Sought
wanted = record {
  device_id = "id";
  local_key = "key";
  protocol_version = "3.4";
  port = 6668;
  respond = λ host. only_34;
  now = 70;
}

abbrev found : FoundDevice
found = record { host = "192.168.1.10"; protocol_version = "3.4"; dps = ("1", bool true) ∷ [] }

network_test :
    (search_network same_bytes (λ h. true) in_order wanted address_text adapters []).0 ≡ some found
unfolding search_network addresses_to_search search_all local_interfaces collect hosts find_device
    first_found open_ports attempt connect_once async_connect w_open try_versions versions_to_try
    init dps_of async_close handle_connected handle_dps any_changed py_eq lookup set_available
    update insert
network_test = refl

search_network-found_example :
    (a : ℕ) × ("192.168.1.10" ≡ address_text a)
    × (is_near (local_interfaces adapters) a ≡ true)
    × (among a (own_addresses (local_interfaces adapters)) ≡ false)
    × (true ≡ true)
    × IsFound wanted found
search_network-found_example =
    search_network-found same_bytes (λ h. true) in_order wanted address_text adapters
      (λ hosts h. refl) [] found network_test

abbrev listener : DiscoveryListener
listener = record create_listener { transports = 6666 ∷ []; devices = ("id", podium_seen) ∷ [] }

abbrev quiet : List Wait
quiet = record { heard = []; late = 3 } ∷ []

scan_ends_example :
    (r : Found) × (scan (λ p. true) (some "id2") 6000 quiet 5 (some listener) ≡ some r)
    × Collected (some "id2") 6005 5 quiet (("id", podium_seen) ∷ []) r
    × (r.listener.transports ≡ 6666 ∷ [])
scan_ends_example =
    scan_ends (λ p. true) (some "id2") 6000 quiet 5 (some listener) (omega arith) (omega arith)
