-- ===== src/Lan/Search/Tests.antt =====
-- Examples for lan/search.py.
use ha_birdie.Base.{
  String, ◌⊎◌, ◌&&◌, Option, none, some, contains, str_eq, if◌then◌else◌, true, false, List, [],
  ◌∷◌, ◌≡◌, refl,
}
use ha_birdie.Lan.Search.{Interface, addresses_to_search, own_addresses, hosts, collect, search_all}
use ha_birdie.Lan.Device.Tests.{only_34, all_reject}
use ha_birdie.Lan.Search.Find.{FoundDevice, Sought, find_device}
use ha_birdie.Lan.Search.Find.Tries.{IsFound, Refuses}
use ha_birdie.Lan.Search.Find.Found.{find_device-found}
use ha_birdie.Lan.Search.Bounds.{IsFit, addresses_to_search-IsFit}

-- 192.168.1.9/30
abbrev home : List Interface
home =
    record {
      ip = 3232235785;
      prefixlen = 30;
      is_private = true;
      is_loopback = false;
      is_link_local = false;
    }
    ∷ []

home_test : addresses_to_search home ≡ 3232235786 ∷ []
unfolding addresses_to_search search_all collect hosts
home_test = refl

addresses_to_search-IsFit_example : IsFit home (own_addresses home) (addresses_to_search home)
addresses_to_search-IsFit_example = addresses_to_search-IsFit home

abbrev same_bytes : String → String
same_bytes s = s

abbrev in_order : List String → List String
in_order hosts = hosts

-- the device `id` at one host, by version 3.4
abbrev wanted : Sought
wanted = record {
  device_id = "id";
  local_key = "key";
  protocol_version = "3.4";
  port = 6668;
  respond = λ host. if str_eq host "10.0.0.7" then only_34 else all_reject;
  now = 70;
}

abbrev two_hosts : List String
two_hosts = "10.0.0.9" ∷ "10.0.0.7" ∷ []

abbrev tried : Option FoundDevice
tried = (find_device same_bytes wanted (λ h. true) in_order two_hosts []).0

find_device-found_example :
    ((f : FoundDevice) × (tried ≡ some f)
      × (contains two_hosts f.host ≡ true)
      × (true ≡ true)
      × IsFound wanted f)
    ⊎ ((tried ≡ none)
        × (((contains two_hosts "10.0.0.7" && true) ≡ false) ⊎ Refuses wanted "10.0.0.7"))
find_device-found_example =
    find_device-found same_bytes wanted (λ h. true) in_order (λ hosts h. refl) two_hosts []
      "10.0.0.7"
