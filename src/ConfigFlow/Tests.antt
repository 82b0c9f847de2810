-- ===== src/ConfigFlow/Tests.antt =====
-- Examples for config_flow.py.
use ha_birdie.Base.{
  String, ◌≡◌, refl, true, false, not, ◌&&◌, ◌||◌, none, some, [], ◌∷◌, contains, str_eq,
  if◌then◌else◌,
}
use ha_birdie.Base.Text.{strip, lstrip, rstrip, is_space}
use ha_birdie.Base.Dict.{has_key, update}
use ha_birdie.Dps.{bool, int, str, Dps}
use ha_birdie.Base.Int.{pos}
use ha_birdie.Lan.Redact.{count}
use ha_birdie.Lan.Device.{dict, dps_of, error_code}
use ha_birdie.Lan.Device.Worker.{Attempt}
use ha_birdie.Lan.Device.Opening.{here}
use ha_birdie.Purifier.Flow.{clean_local_key}
use ha_birdie.ConfigFlow.{ManualInput, new_flow, show_form, create_purifier, Outside, is_podium}
use ha_birdie.ConfigFlow.Purifier.{step_manual}
use ha_birdie.ConfigFlow.Run.{FlowCall, manual_step, search_waits, flow_step, run_flow}
use ha_birdie.ConfigFlow.Verified.{Sound}
use ha_birdie.ConfigFlow.Verified.Runs.{OccursIn, run_flow-Sound, run_flow-secrets}
use ha_birdie.ConfigFlow.Entering.{Entered, entered_data, step_manual-adds, step_manual-refuses}
use ha_birdie.ConfigFlow.Bluetooth.{Advertisement, scan_for_devices}
use ha_birdie.ConfigFlow.Bluetooth.Offers.{advertised, some_new, scan_for_devices-offers}

abbrev same_bytes : String → String
same_bytes s = s

abbrev podium_status : Dps
podium_status = ("1", bool true) ∷ ("3", str "auto") ∷ ("105", int (pos 9)) ∷ []

abbrev answering : Attempt
answering = record {
  closed = false;
  answer = record { reply = dict none (some podium_status); socket = true };
}

abbrev rejecting : Attempt
rejecting = record {
  closed = false;
  answer = record { reply = dict (some "914") none; socket = true };
}

-- a device at 10.0.0.7 that answers to its key
abbrev home : Outside
home = record {
  configured = "other" ∷ [];
  current_ids = [];
  in_progress = λ id. false;
  scan = λ id. none;
  respond = λ id key host v.
      if str_eq key "0123456789abcdef" && str_eq host "10.0.0.7" then answering else rejecting;
  now = 70;
}

abbrev typed : String → ManualInput
typed key = record {
  device_id = " id ";
  local_key = key;
  host = some "10.0.0.7";
  protocol_version = some "3.4";
}

abbrev right_key : String
right_key = "0123456789abcdef"

abbrev wrong_key : String
wrong_key = "0123456789abcdeg"

typed-Entered : Entered home (typed " 0123456789abcdef") (new_flow []) right_key
unfolding is_space strip lstrip rstrip clean_local_key
typed-Entered = record { no_search = refl; new = refl; named = refl; keyed = refl; located = refl }

wrong-Entered : Entered home (typed wrong_key) (new_flow []) wrong_key
unfolding is_space strip lstrip rstrip clean_local_key
wrong-Entered = record { no_search = refl; new = refl; named = refl; keyed = refl; located = refl }

step_manual-adds_example :
    (step_manual same_bytes home "purifier_manual"
      (some (typed " 0123456789abcdef"))
      (new_flow [])).0
    ≡ (if is_podium (some (update [] podium_status)) none
        then create_purifier "id" (entered_data (typed " 0123456789abcdef") right_key "3.4")
        else show_form "purifier_manual" (("base", "not_a_podium") ∷ []))
unfolding is_space strip lstrip rstrip error_code dps_of
step_manual-adds_example =
    step_manual-adds same_bytes home "purifier_manual" (typed " 0123456789abcdef") (new_flow [])
      right_key typed-Entered "3.4" podium_status (here [] (record { running = refl; live = refl }))

step_manual-refuses_example :
    (step_manual same_bytes home "purifier_manual" (some (typed wrong_key)) (new_flow [])).0
    ≡ show_form "purifier_manual" (("base", "invalid_local_key") ∷ [])
unfolding is_space strip lstrip rstrip error_code dps_of
step_manual-refuses_example =
    step_manual-refuses same_bytes home "purifier_manual" (typed wrong_key) (new_flow []) wrong_key
      wrong-Entered (record { running = refl; silent = refl; goes_on = refl }, tt)

abbrev entering : FlowCall
entering = manual_step (some (typed " 0123456789abcdef"))

run_flow-Sound_example :
    Sound
      (OccursIn ((home, entering) ∷ (home, search_waits) ∷ []))
      home
      (flow_step same_bytes home entering
        (run_flow same_bytes ((home, search_waits) ∷ []) (new_flow []))).0
run_flow-Sound_example = run_flow-Sound same_bytes [] ((home, search_waits) ∷ []) home entering

run_flow-secrets_example :
    count right_key (run_flow same_bytes ((home, entering) ∷ []) (new_flow [])).secrets
    ≡ count right_key []
run_flow-secrets_example = run_flow-secrets same_bytes [] ((home, entering) ∷ []) right_key

abbrev pro : Advertisement
pro = record { name = "Birdie Pro"; address = " aa:01"; service_uuids = [] }

abbrev lamp : Advertisement
lamp = record { name = "Lamp"; address = "BB:02"; service_uuids = [] }

scan_for_devices-offers_example :
    has_key "AA:01" (scan_for_devices ("CC:03" ∷ []) (lamp ∷ []) [] (pro ∷ []) []) ≡ (
      not (contains ("CC:03" ∷ []) "AA:01")
      && ((advertised (lamp ∷ []) "AA:01" || advertised [] "AA:01")
          || (not (some_new ("CC:03" ∷ []) (lamp ∷ []) || some_new ("CC:03" ∷ []) [])
              && advertised (pro ∷ []) "AA:01")))
scan_for_devices-offers_example =
    scan_for_devices-offers ("CC:03" ∷ []) (lamp ∷ []) [] (pro ∷ []) "AA:01"
