-- ===== src/Purifier/Entry.antt =====
-- custom_components/birdie/purifier/entry.py: setting up and unloading the config entry of a purifier,
-- with the coordinator and the discovery that all purifiers share. `first_refresh` is the coordinator's
-- `async_config_entry_first_refresh`, which Home Assistant defines.
pub mod Life
mod Tests
use ha_birdie.Base.{
  ℕ, zero, suc, ◌+◌, String, ◌≡◌, refl, Bool, true, false, not, ◌&&◌, Option, none, some, List, [],
  ◌∷◌, arith, is_some, if◌then◌else◌,
}
use ha_birdie.Base.Result.{Result, ok, raised}
use ha_birdie.Lan.Device.{LanDevice, Answer}
use ha_birdie.Lan.Device.Client.{async_close}
use ha_birdie.Purifier.Model.{PurifierState, reported}
use ha_birdie.Purifier.Fan.{entity_available}
use ha_birdie.Purifier.Discovery.{PurifierDiscovery, acquire, release}
use ha_birdie.Purifier.Coordinator.{Coordinator, EntryData, Failure}
use ha_birdie.Purifier.Coordinator.Handlers.{create, async_start, set_updated_data, update_data}
use ha_birdie.Purifier.Coordinator.Setup.{Outside, SetupError, async_setup}
use ha_birdie.Purifier.Coordinator.Tracking.{Tracks}
use ha_birdie.Purifier.Coordinator.Tracking.History.{Reaches, Reaches-Tracks, async_start-Tracks}
use ha_birdie.Purifier.Coordinator.Tracking.Setup.{create-IsSettled, async_setup-IsSettled}
use ha_birdie.Purifier.Coordinator.Tracking.Shown.{Follows, Tracks-Follows, update_data-Tracks}

-- The config entry, as its setup and its unloading change it: the coordinator, whether it is the
-- entry's `runtime_data`, the discovery, how many of its users are released when the entry is
-- unloaded, and the platforms that have entities of the entry.
pub record EntryState : Type 0 where
  pub coordinator : Coordinator
  pub runtime_data : Bool
  pub discovery : PurifierDiscovery
  pub on_unload : ℕ
  pub platforms : List String

-- `PURIFIER_PLATFORMS`
abbrev pub purifier_platforms : List String
purifier_platforms = "sensor" ∷ "binary_sensor" ∷ "fan" ∷ "button" ∷ []

abbrev pub FirstRefresh : Type 0
FirstRefresh =
    (Coordinator → Result SetupError (Unit {0}) × Coordinator)
    → (Coordinator → Result Failure PurifierState × Coordinator)
    → Coordinator
    → Bool × Coordinator

-- A first refresh that succeeds has run a setup and an update that did, and shows the update.
abbrev pub FirstRefreshed : FirstRefresh → Type 0
FirstRefreshed f =
    (setup : Coordinator → Result SetupError (Unit {0}) × Coordinator)
    → (update : Coordinator → Result Failure PurifierState × Coordinator) → (c : Coordinator)
    → (f setup update c).0 ≡ true
    → (s : PurifierState) × ((setup c).0 ≡ ok tt)
      × ((update (setup c).1).0 ≡ ok s)
      × ((f setup update c).1 ≡ set_updated_data s (update (setup c).1).1)

module _ (bytes_form : String → String) (first_refresh : FirstRefresh) where
  -- the first refresh of a coordinator that is new
  abbrev pub refreshed : EntryData → Outside → Answer → Coordinator → Bool × Coordinator
  refreshed e o a c =
      first_refresh (async_setup bytes_form o) (update_data a o.now) (create bytes_form e c)

  -- the lines after the refresh, and those where it raised
  abbrev pub entered : EntryState → Bool × Coordinator → Bool × EntryState
  entered s (true, c) = (
    true,
    record s {
      coordinator = async_start c;
      runtime_data = true;
      discovery = acquire s.discovery;
      on_unload = s.on_unload + 1;
      platforms = purifier_platforms;
    },
  )
  entered s (false, c) =
      (false, record s { coordinator = record c { device = async_close bytes_form c.device } })

  -- `async_setup_purifier_entry`; the result is false where the refresh raised
  unfoldable pub setup_entry : EntryData → Outside → Answer → EntryState → Bool × EntryState
  setup_entry e o a s = entered s (refreshed e o a s.coordinator)

-- `async_unload_purifier_entry`; the argument is whether the platforms could be unloaded
unfoldable pub unload_entry : Bool → EntryState → Bool × EntryState
unload_entry unloaded s = (unloaded, if unloaded then record s { platforms = [] } else s)

abbrev pub releases : ℕ → PurifierDiscovery → PurifierDiscovery
releases zero d = d
releases (suc n) d = releases n (release d)

-- the callbacks of `entry.async_on_unload`, which Home Assistant runs after an unloading
unfoldable pub run_on_unload : EntryState → EntryState
run_on_unload s = record s { discovery = releases s.on_unload s.discovery; on_unload = 0 }
