-- ===== src/Purifier/Entry/Life.antt =====
-- What the setup of an entry leads to, and that an unloading takes back (purifier/entry.py).
use ha_birdie.Base.{String, ◌≡◌, refl, Bool, true, false, not, ◌&&◌, some, List, [], arith, is_some}
use ha_birdie.Lan.Device.{LanDevice, Answer}
use ha_birdie.Lan.Device.Client.{async_close}
use ha_birdie.Lan.Device.Worker.{w_drop}
use ha_birdie.Purifier.Model.{PurifierState, reported}
use ha_birdie.Purifier.Fan.{entity_available}
use ha_birdie.Purifier.Discovery.{PurifierDiscovery, acquire, release}
use ha_birdie.Purifier.Discovery.Sharing.{IsShared}
use ha_birdie.Purifier.Coordinator.{Coordinator, EntryData}
use ha_birdie.Purifier.Coordinator.Handlers.{create, async_start, update_data}
use ha_birdie.Purifier.Coordinator.Setup.{Outside, async_setup}
use ha_birdie.Purifier.Coordinator.Tracking.{Tracks}
use ha_birdie.Purifier.Coordinator.Tracking.History.{Reaches, Reaches-Tracks, async_start-Tracks}
use ha_birdie.Purifier.Coordinator.Tracking.Setup.{create-IsSettled, async_setup-IsSettled}
use ha_birdie.Purifier.Coordinator.Tracking.Shown.{Tracks-Follows, update_data-Tracks}
use ha_birdie.Purifier.Entry.{
  EntryState, FirstRefresh, FirstRefreshed, refreshed, entered, setup_entry, unload_entry,
  run_on_unload,
}

released-same :
    (d : PurifierDiscovery)
    → IsShared d
    → ((release (acquire d)).users ≡ d.users) × ((release (acquire d)).listening ≡ d.listening)
unfolding acquire release
released-same d h = ground (arith, h.runs)

-- What an unloading leaves of a setup, and what a setup that failed leaves.
abbrev pub IsBalanced : EntryState → Bool × EntryState → Type 0
IsBalanced s (true, t) =
    let u = run_on_unload (unload_entry true t).1 in
    (u.platforms ≡ [])
    × (u.discovery.users ≡ s.discovery.users)
    × (u.discovery.listening ≡ s.discovery.listening)
IsBalanced s (false, t) =
    (t.coordinator.device.closed ≡ true)
    × (t.platforms ≡ s.platforms)
    × (t.discovery ≡ s.discovery)
    × (t.on_unload ≡ 0)

module _ (bytes_form : String → String) where
  async_close-closed : (d : LanDevice) → (async_close bytes_form d).closed ≡ true
  unfolding async_close w_drop
  async_close-closed d = ground arith

module _ (bytes_form : String → String) (first_refresh : FirstRefresh) where
  entered-ready :
      (s : EntryState) (b : Bool) (c : Coordinator)
      → let r = entered bytes_form first_refresh s (b, c) in
        r.0 ≡ true → (b ≡ true) × (r.1.coordinator ≡ async_start c)
  entered-ready s true c h = (refl, refl)
  entered-ready s false c h = cc

  setup_entry-ready :
      (e : EntryData) (o : Outside) (a : Answer) (s : EntryState)
      → (setup_entry bytes_form first_refresh e o a s).0 ≡ true
      → let r = refreshed bytes_form first_refresh e o a s.coordinator in
        (r.0 ≡ true)
        × ((setup_entry bytes_form first_refresh e o a s).1.coordinator ≡ async_start r.1)
  unfolding setup_entry
  setup_entry-ready e o a s h =
      let r = refreshed bytes_form first_refresh e o a s.coordinator in entered-ready s r.0 r.1 h

  refreshed-Tracks :
      (law : FirstRefreshed first_refresh) (e : EntryData) (o : Outside) (a : Answer)
      (c : Coordinator)
      → let r = refreshed bytes_form first_refresh e o a c in r.0 ≡ true → Tracks r.1
  refreshed-Tracks law e o a c h =
      let (s, was_set_up, was_updated, same) =
        law (async_setup bytes_form o) (update_data a o.now) (create bytes_form e c) h in
      rw same (
        update_data-Tracks a o.now (async_setup bytes_form o (create bytes_form e c)).1 s
          (async_setup-IsSettled bytes_form o (create bytes_form e c)
            (create-IsSettled bytes_form e c))
          was_updated)

  -- If a first refresh that succeeds ran a setup and an update that succeeded, and shows the update,
  -- then from an entry setup that succeeded on, after any rounds of the device's loop, writes of some
  -- data point, changes of the host, address searches, starts and stops, whatever the device answers:
  -- a state is known, the coordinator shows a failure exactly while the device is not available, and an
  -- entity is available exactly if the device is and the state has the data points that it needs.
  pub setup_entry-Follows :
      (law : FirstRefreshed first_refresh) (e : EntryData) (o : Outside) (a : Answer)
      (s : EntryState) (required : List String) (c : Coordinator)
      → (setup_entry bytes_form first_refresh e o a s).0 ≡ true
      → Reaches bytes_form (setup_entry bytes_form first_refresh e o a s).1.coordinator c
      → (shown : PurifierState) × (c.data_seen ≡ some shown)
        × (is_some c.failure ≡ not c.device.available)
        × (entity_available required c ≡ (c.device.available && reported shown required))
  setup_entry-Follows law e o a s required c h r =
      let ready = setup_entry-ready e o a s h in
      let tracks : Tracks (setup_entry bytes_form first_refresh e o a s).1.coordinator =
        rw ready.1
          (async_start-Tracks bytes_form _ (refreshed-Tracks law e o a s.coordinator ready.0)) in
      let k = Reaches-Tracks bytes_form r tracks in
      let f = Tracks-Follows required c k in (f.state, f.seen, k.shows.shown, f.entity)

  entered-IsBalanced :
      (s : EntryState) (b : Bool) (c : Coordinator)
      → s.on_unload ≡ 0
      → IsShared s.discovery
      → IsBalanced s (entered bytes_form first_refresh s (b, c))
  unfolding unload_entry run_on_unload
  entered-IsBalanced s true c z h = let k = released-same s.discovery h in rw z (refl, k.0, k.1)
  entered-IsBalanced s false c z h = (async_close-closed bytes_form c.device, refl, refl, z)

  -- Of an entry that has no release registered, where the shared listener runs exactly while it has
  -- users: a setup that succeeds and is unloaded leaves no platform, the users that the listener had
  -- and whether it runs; a setup that fails has closed the device and changed neither the platforms nor
  -- the listener.
  pub setup_entry-IsBalanced :
      (e : EntryData) (o : Outside) (a : Answer) (s : EntryState)
      → s.on_unload ≡ 0
      → IsShared s.discovery
      → IsBalanced s (setup_entry bytes_form first_refresh e o a s)
  unfolding setup_entry
  setup_entry-IsBalanced e o a s z h =
      let r = refreshed bytes_form first_refresh e o a s.coordinator in
      entered-IsBalanced s r.0 r.1 z h
