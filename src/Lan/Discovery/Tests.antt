-- ===== src/Lan/Discovery/Tests.antt =====
-- Examples for lan/discovery.py.
use ha_birdie.Base.{
  ℕ, String, ◌≡◌, ◌≢◌, refl, ap, Bool, true, none, some, List, [], ◌∷◌, arith, str_eq,
}
use ha_birdie.Dps.{Value, str}
use ha_birdie.Base.Dict.{Dict, lookup}
use ha_birdie.Lan.Discovery.{DiscoveredDevice, DiscoveryListener, parse_broadcast}
use ha_birdie.Lan.Discovery.Collect.{Wait, discover}
use ha_birdie.Lan.Discovery.Collect.Ends.{Result, discover_ends}
use ha_birdie.Lan.Discovery.Broadcast.{Reads, parse_broadcast-Reads}

abbrev podium_seen : DiscoveredDevice
podium_seen = record {
  device_id = "id";
  host = "10.0.0.7";
  protocol_version = none;
  product_key = some "a2zf7q0zxcutn5dy";
  seen_at = 9;
}

abbrev announcement : Dict Value
announcement =
    ("gwId", str "id") ∷ ("ip", str "10.0.0.7") ∷ ("productKey", str "a2zf7q0zxcutn5dy") ∷ []

abbrev all_full : ℕ → Bool
all_full n = true

abbrev only_text : Value → String
only_text (str s) = s
only_text _ = "?"

abbrev address : String
address = "10.0.0.7"

address-full : address ≢ ""
address-full h = let same : str_eq address "" ≡ str_eq "" "" = ap (λ k. str_eq k "") h in cc

parse_broadcast-Reads_example : Reads all_full only_text announcement address 9 podium_seen
unfolding parse_broadcast lookup
parse_broadcast-Reads_example =
    parse_broadcast-Reads all_full only_text announcement address 9 podium_seen address-full refl

abbrev listener : DiscoveryListener
listener = record {
  ports = 6666 ∷ 6667 ∷ [];
  request_port = some 7000;
  transports = [];
  callbacks = [];
  devices = [];
  calls = [];
  requests = 0;
}

abbrev waits : List Wait
waits = record { heard = []; late = 3 } ∷ record { heard = podium_seen ∷ []; late = 0 } ∷ []

discover_ends_example :
    Result true true
      (λ p. true)
      (some "id")
      listener
      10000
      5
      waits
      (discover true true (λ p. true) (some "id") 10000 waits 5 listener)
discover_ends_example =
    discover_ends true true (λ p. true) (some "id") listener 10000 waits 5 (omega arith)
      (omega arith)
