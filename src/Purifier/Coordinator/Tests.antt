-- ===== src/Purifier/Coordinator/Tests.antt =====
-- Examples for purifier/coordinator.py.
use ha_birdie.Base.{◌+◌, ◌≡◌, refl, true, false, none, some, [], ◌∷◌, ◌<◌, ◌↔◌, arith}
use ha_birdie.Base.Result.{raised}
use ha_birdie.Dps.{bool, Dps}
use ha_birdie.Lan.Device.{Answer, dict, error_code}
use ha_birdie.Lan.Device.Tests.{connected, bad_key, all_reject, only_34, escaped, round_at}
use ha_birdie.Purifier.Model.{from_dps}
use ha_birdie.Purifier.Coordinator.{
  Coordinator, EntryData, no_search, device_gone, key_failures_before_reauth,
}
use ha_birdie.Purifier.Coordinator.Handlers.{send_dps}
use ha_birdie.Purifier.Coordinator.SearchTimes.{
  IsPaced, sight_all, reached, finished, unreached, sight_all-IsPaced,
}
use ha_birdie.Purifier.Coordinator.Reauth.{reauths, reject_all, reject_all-reauth}
use ha_birdie.Purifier.Coordinator.Setup.{
  Outside, auth_failed, rejects, connect_following, async_setup, async_setup-auth,
}
use ha_birdie.Purifier.Coordinator.Commands.{send_dps-refused}
use ha_birdie.Lan.Device.Loop.{Round}

abbrev pub entry_data : EntryData
entry_data = record {
  device_id = "id";
  host = "10.0.0.7";
  local_key = "key";
  protocol_version = none;
  detected_version = none;
  product_key = none;
}

abbrev pub on_dps : Dps
on_dps = ("1", bool true) ∷ []

abbrev pub running : Coordinator
running = record {
  device = record connected { available = true };
  key_failures = 0;
  setup_failures = 2;
  search = no_search;
  data_seen = some (from_dps on_dps);
  failure = none;
  entry = entry_data;
  configured = true;
  loaded = true;
  flows = "flow" ∷ [];
  actions = [];
}

sight_all-IsPaced_example : IsPaced (
    sight_all
      (unreached 0 ∷ unreached 700000 ∷ finished ∷ unreached 5000000 ∷ reached ∷ [])
      (no_search, []))
sight_all-IsPaced_example =
    sight_all-IsPaced (unreached 0 ∷ unreached 700000 ∷ finished ∷ unreached 5000000 ∷ reached ∷ [])

reject_all-reauth_example :
    ((reject_all (1 ∷ 2 ∷ 3 ∷ 4 ∷ []) running).key_failures ≡ 4)
    × (reauths (reject_all (1 ∷ 2 ∷ 3 ∷ 4 ∷ []) running).actions ≡ reauths running.actions + 1)
reject_all-reauth_example = reject_all-reauth (1 ∷ 2 ∷ 3 ∷ 4 ∷ []) running refl

abbrev refusing : Outside
refusing = record { now = 9; first = all_reject; announced = some "10.0.0.8"; second = only_34 }

async_setup-auth_example :
    (((async_setup escaped refusing running).1).setup_failures < key_failures_before_reauth)
    × ((async_setup escaped refusing running).0 ≡ raised auth_failed
        ↔ (rejects (connect_following escaped refusing running).0 ≡ true)
          × (running.setup_failures ≡ 2))
async_setup-auth_example = async_setup-auth escaped refusing running (omega arith)

abbrev off_dps : Dps
off_dps = ("1", bool false) ∷ []

abbrev told_off : Answer
told_off = record { reply = dict none (some off_dps); socket = true }

-- a round in which the status read answers
abbrev reading : Round
reading = record (round_at 3070) { status_answer = told_off }

send_dps-refused_example :
    let r = send_dps off_dps bad_key 70 running in
    (r.0 ≡ raised (device_gone running.device.config.host))
    × ((r.1).data_seen ≡ running.data_seen)
    × ((r.1).failure ≡ some (device_gone running.device.config.host))
    × ((r.1).device.available ≡ false)
unfolding error_code
send_dps-refused_example =
    send_dps-refused ("1", bool false) [] bad_key 70 running refl refl refl refl refl
