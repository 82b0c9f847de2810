-- ===== src/Lan/Device/Tests.antt =====
-- Examples for lan/device.py and lan/redact.py.
use ha_birdie.Base.{
  ℕ, String, ◌≡◌, ◌≢◌, refl, true, false, none, some, [], ◌∷◌, arith, ◌↔◌, ◌+◌, if◌then◌else◌,
  str_eq, ap,
}
use ha_birdie.Base.Result.{ok, raised}
use ha_birdie.Base.Int.{pos}
use ha_birdie.Dps.{bool, int, Dps}
use ha_birdie.Lan.Errors.{LanError, is_key_error}
use ha_birdie.Lan.Device.{LanDevice, default_timings, no_dict, dict, Answer, dps_of, error_code}
use ha_birdie.Lan.Device.Worker.{Attempt, versions_to_try, prefer, w_open, w_drop}
use ha_birdie.Lan.Device.Client.{init, async_close}
use ha_birdie.Lan.Device.Loop.{Round, round, run, run_from}
use ha_birdie.Lan.Device.Opening.{Opens, here, later, any_rejected, w_open-Opens, w_open-refused}
use ha_birdie.Lan.Device.Availability.{IsSound}
use ha_birdie.Lan.Device.History.{goes, stays, loops, closes, history-IsSound}
use ha_birdie.Lan.Device.Registered.Held.{goes as uses_then, stays as uses_none, init-IsHeld}
use ha_birdie.Lan.Redact.Balance.{shares}
use ha_birdie.Lan.Redact.{count}
use ha_birdie.Lan.Device.Backoff.{sleeps, Silent, All-Fails, run-backoff}
use ha_birdie.Lan.Device.Reconnect.{Connected, run_from-Connected}
use ha_birdie.Lan.Device.Writing.{live}

-- a bytes form that differs for one secret only
abbrev pub escaped : String → String
escaped s = "k\\xe9y"

abbrev key : String
key = "key"

key-nonempty : key ≢ ""
key-nonempty h = let same : str_eq key "" ≡ str_eq "" "" = ap (λ k. str_eq k "") h in cc

abbrev pub podium : LanDevice
podium = record {
  config = record {
    device_id = "id";
    host = "10.0.0.7";
    local_key = "key";
    protocol_version = "auto";
    port = 6668;
  };
  on_status = true;
  on_availability = true;
  on_error = true;
  timings = default_timings;
  version_hint = some "3.4";
  api = none;
  version = some "3.5";
  dps = ("1", bool true) ∷ [];
  task = true;
  wake = false;
  closed = false;
  last_rx = 0;
  last_heartbeat = 0;
  last_status = 0;
  refresh_at = none;
  available = false;
  last_error = none;
  secrets = [];
  events = [];
}

abbrev pub connected : LanDevice
connected = record podium { api = live }

abbrev pub silence : Answer
silence = record { reply = no_dict; socket = true }

abbrev pub bad_key : Answer
bad_key = record { reply = dict (some "914") none; socket = true }

abbrev pub switched_on : Answer
switched_on = record { reply = dict none (some (("1", bool true) ∷ [])); socket = true }

-- version 3.4 answers, every other one rejects the key
abbrev pub only_34 : String → Attempt
only_34 v = record { closed = false; answer = if str_eq v "3.4" then switched_on else bad_key }

abbrev pub all_reject : String → Attempt
all_reject v = record { closed = false; answer = bad_key }

abbrev pub round_at : ℕ → Round
round_at now = record {
  now = now;
  heartbeat_time = now;
  done_time = now;
  respond = all_reject;
  status_answer = silence;
  heartbeat_answer = silence;
  receive_answer = silence;
  raw_received = false;
}

all_reject-Silent : (n : ℕ) → Silent (round_at n)
unfolding dps_of error_code
all_reject-Silent n v = record { running = refl; silent = refl; goes_on = refl }

w_open-Opens_example :
    (w_open only_34 podium).0 ≡ ok ("3.4", ("1", bool true) ∷ [])
    ↔ Opens only_34 (versions_to_try podium) "3.4" (("1", bool true) ∷ [])
w_open-Opens_example = w_open-Opens only_34 podium "3.4" (("1", bool true) ∷ [])

w_open-refused_example :
    (e : LanError) × (w_open all_reject podium ≡ (raised e, w_drop podium))
    × (is_key_error e ≡ any_rejected all_reject (versions_to_try podium))
w_open-refused_example =
    w_open-refused all_reject podium (All-Fails (round_at 1) (all_reject-Silent 1) _)

abbrev warmer : Dps
warmer = ("2", int (pos 30)) ∷ []

abbrev after_two_rounds : LanDevice
after_two_rounds =
    (round (round_at 2) (
      10000,
      (round (round_at 1) (5000, init escaped podium.config default_timings none podium)).1,
    )).1

history-IsSound_example : IsSound after_two_rounds
history-IsSound_example =
    history-IsSound escaped podium.config default_timings none podium after_two_rounds refl
      (goes (loops (round_at 1) 5000 _) (goes (loops (round_at 2) 10000 _) (stays _)))

init-IsHeld_example :
    let t = async_close escaped (init escaped podium.config default_timings none podium) in
    count "key" t.secrets
    ≡ count "key" podium.secrets + (if t.closed then 0 else shares escaped "key" t.config.local_key)
unfolding init
init-IsHeld_example =
    init-IsHeld escaped podium.config default_timings none podium _ "key"
      (uses_then (closes _) refl (uses_none _))

run-backoff_example :
    sleeps (run (round_at 1 ∷ round_at 2 ∷ []) podium).1.events ≡ 10000 ∷ 5000 ∷ []
run-backoff_example =
    run-backoff (round_at 1 ∷ round_at 2 ∷ []) podium
      (all_reject-Silent 1, (all_reject-Silent 2, tt)) refl refl (omega arith)

answers_34 : Opens only_34 (versions_to_try podium) "3.4" (("1", bool true) ∷ [])
unfolding versions_to_try prefer dps_of error_code
answers_34 =
    later "3.5" (record { running = refl; silent = refl; goes_on = refl })
      (here _ (record { running = refl; live = refl }))

run_from-Connected_example :
    Connected podium "3.4"
      (("1", bool true) ∷ [])
      (run_from (round_at 1 ∷ record (round_at 2) { respond = only_34 } ∷ []) (5000, podium))
run_from-Connected_example =
    run_from-Connected (round_at 1 ∷ []) (record (round_at 2) { respond = only_34 }) 5000 podium
      "3.4" (("1", bool true) ∷ []) (all_reject-Silent 1, tt) refl refl answers_34
