-- ===== src/Purifier/Discovery/Scan.antt =====
-- custom_components/birdie/purifier/discovery.py: a search for announcements, on the listener that all
-- purifiers share if it runs, or else on one that lives as long as the search (`async_scan`,
-- `_async_create_listener`).
use ha_birdie.Base.{
  ℕ, ◌+◌, ◌*◌, ◌≤◌, String, ◌≡◌, refl, Bool, true, false, Option, none, some, List, [], ◌∷◌, length,
}
use ha_birdie.Lan.Discovery.{DiscoveryListener, start, stop}
use ha_birdie.Lan.Discovery.Collect.{Wait, Found, discover}
use ha_birdie.Lan.Discovery.Collect.Waits.{Collected}
use ha_birdie.Lan.Discovery.Collect.Ends.{discover_ends}

-- `DiscoveryListener(request_source_ip=…)`; the source address is only a part of the request.
abbrev pub create_listener : DiscoveryListener
create_listener = record {
  ports = 6666 ∷ 6667 ∷ [];
  request_port = some 7000;
  transports = [];
  callbacks = [];
  devices = [];
  calls = [];
  requests = 0;
}

abbrev stop_found : Option Found → Option Found
stop_found none = none
stop_found (some f) = some (record f { listener = stop f.listener })

module _ (binds : ℕ → Bool) (wanted : Option String) (seconds : ℕ) (waits : List Wait)
    (now : ℕ) where
  -- `async_scan`, given the running listener, if there is one
  unfoldable pub scan : Option DiscoveryListener → Option Found
  scan none =
      stop_found (discover false true binds wanted seconds waits now (start binds create_listener))
  scan (some shared) = discover false true binds wanted seconds waits now shared

  -- Where there are waits enough for the seconds of a scan, it ends. It takes no wait exactly where it
  -- looks for a device that the shared listener knew, and else waits until that device is heard or the
  -- seconds have passed, whichever is first. It gives each device with its last announcement in the
  -- waits that it took, or else the one that the shared listener knew. The shared listener listens as
  -- before, and one that was started for the scan is stopped.
  pub scan_ends :
      (shared : Option DiscoveryListener)
      → 1 ≤ length waits
      → seconds ≤ 6000 * length waits
      → (r : Found) × (scan shared ≡ some r)
        × Collected wanted
            (now + seconds)
            now
            waits
            (elim shared [ none ↦ [] | some l ↦ l.devices ])
            r
        × (r.listener.transports ≡ (elim shared [ none ↦ [] | some l ↦ l.transports ]))
  unfolding scan start stop
  scan_ends none h k =
      let (r, e, c, t) =
        discover_ends false true binds wanted (start binds create_listener) seconds waits now h k in
      rw e (
        record r { listener = stop r.listener },
        refl,
        record { waits = c.waits; enough = c.enough; taken = c.taken; shows = c.shows },
        refl,
      )
  scan_ends (some l) h k = discover_ends false true binds wanted l seconds waits now h k
