-- ===== src/Purifier/Entry/Tests.antt =====
-- Examples for purifier/entry.py.
use ha_birdie.Base.{◌≡◌, refl, Bool, true, false, not, ◌&&◌, none, some, [], ◌∷◌, is_some}
use ha_birdie.Base.Result.{Result, ok, raised}
use ha_birdie.Base.Dict.{lookup}
use ha_birdie.Dps.{bool, py_eq}
use ha_birdie.Lan.Device.{error_code, dps_of}
use ha_birdie.Lan.Device.Worker.{w_open, try_versions, versions_to_try, prefer, w_status, w_drop}
use ha_birdie.Lan.Device.Client.{
  async_connect, init, async_refresh, require_connection, or_lose, set_available, handle_connected,
  handle_dps, emit, any_changed,
}
use ha_birdie.Lan.Device.Tests.{silence, switched_on, all_reject, only_34, escaped}
use ha_birdie.Purifier.Model.{PurifierState, reported}
use ha_birdie.Purifier.Fan.{entity_available}
use ha_birdie.Purifier.Discovery.{PurifierDiscovery}
use ha_birdie.Purifier.Coordinator.{Coordinator, Failure, device_config}
use ha_birdie.Purifier.Coordinator.Handlers.{
  send_dps, set_updated_data, create, update_data, note_reached, settle, dispatch, on_availability,
  on_status, store_version, abort_flows,
}
use ha_birdie.Purifier.Coordinator.Setup.{
  Outside, SetupError, async_setup, conclude, connect_following,
}
use ha_birdie.Purifier.Coordinator.Tracking.History.{goes, stays, writes}
use ha_birdie.Purifier.Coordinator.Tests.{running, entry_data}
use ha_birdie.Purifier.Entry.{EntryState, FirstRefreshed, setup_entry}
use ha_birdie.Purifier.Entry.Life.{IsBalanced, setup_entry-Follows, setup_entry-IsBalanced}

-- a first refresh that does what it is to do
updated : Result Failure PurifierState × Coordinator → Bool × Coordinator
updated (ok s, c) = (true, set_updated_data s c)
updated (raised e, c) = (false, c)

after_setup :
    (Coordinator → Result Failure PurifierState × Coordinator)
    → Result SetupError (Unit {0}) × Coordinator
    → Bool × Coordinator
after_setup update (ok u, c) = updated (update c)
after_setup update (raised e, c) = (false, c)

plain_refresh :
    (Coordinator → Result SetupError (Unit {0}) × Coordinator)
    → (Coordinator → Result Failure PurifierState × Coordinator)
    → Coordinator
    → Bool × Coordinator
plain_refresh setup update c = after_setup update (setup c)

updated-law :
    (r : Result Failure PurifierState) (c : Coordinator)
    → (updated (r, c)).0 ≡ true
    → (s : PurifierState) × (r ≡ ok s) × ((updated (r, c)).1 ≡ set_updated_data s c)
unfolding updated
updated-law (ok s) c h = (s, refl, refl)
updated-law (raised e) c h = cc

after_setup-law :
    (update : Coordinator → Result Failure PurifierState × Coordinator)
    (r : Result SetupError (Unit {0})) (c : Coordinator)
    → (after_setup update (r, c)).0 ≡ true
    → (s : PurifierState) × (r ≡ ok tt)
      × ((update c).0 ≡ ok s)
      × ((after_setup update (r, c)).1 ≡ set_updated_data s (update c).1)
unfolding after_setup
after_setup-law update (ok u) c h =
    let (s, e, same) = updated-law (update c).0 (update c).1 h in (s, refl, e, same)
after_setup-law update (raised e) c h = cc

plain_refresh-law : FirstRefreshed plain_refresh
unfolding plain_refresh
plain_refresh-law setup update c h = after_setup-law update (setup c).0 (setup c).1 h

abbrev unused : PurifierDiscovery
unused = record {
  users = 0;
  listening = false;
  started = 0;
  stopped = 0;
  offered = [];
  reactions = [];
}

abbrev before_setup : EntryState
before_setup = record {
  coordinator = running;
  runtime_data = false;
  discovery = unused;
  on_unload = 0;
  platforms = [];
}

abbrev answering : Outside
answering = record { now = 9; first = only_34; announced = none; second = all_reject }

abbrev written : Coordinator
written =
    let c =
      (setup_entry escaped plain_refresh entry_data answering switched_on
        before_setup).1.coordinator in
    (send_dps (("1", bool false) ∷ []) silence 70 c).1

was_ready :
    (setup_entry escaped plain_refresh entry_data answering switched_on before_setup).0 ≡ true
unfolding setup_entry plain_refresh after_setup updated async_setup conclude connect_following
    async_connect w_open try_versions versions_to_try create init device_config prefer dps_of
    error_code update_data async_refresh require_connection or_lose w_status note_reached settle
    dispatch on_availability on_status set_available handle_connected handle_dps emit w_drop
    store_version abort_flows any_changed py_eq lookup
was_ready = refl

setup_entry-Follows_example :
    (shown : PurifierState) × (written.data_seen ≡ some shown)
    × (is_some written.failure ≡ not written.device.available)
    × (entity_available ("1" ∷ []) written
        ≡ (written.device.available && reported shown ("1" ∷ [])))
setup_entry-Follows_example =
    setup_entry-Follows escaped plain_refresh plain_refresh-law entry_data answering switched_on
      before_setup ("1" ∷ []) written was_ready
      (goes (writes ("1", bool false) [] silence 70 _) (stays _))

setup_entry-IsBalanced_example :
    IsBalanced before_setup
      (setup_entry escaped plain_refresh entry_data answering switched_on before_setup)
setup_entry-IsBalanced_example =
    setup_entry-IsBalanced escaped plain_refresh entry_data answering switched_on before_setup refl
      (record { runs = refl; balanced = refl })
