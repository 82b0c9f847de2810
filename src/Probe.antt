-- ===== src/Probe.antt =====
-- tools/birdie_probe.py: the standalone tool that scans for Bluetooth devices and inspects one. What bleak
-- answers is an argument, and the lines that the tool logs are its reports. Reading the command line, but
-- for the default that the tool adds, is `argparse`'s.
pub mod Agrees
pub mod Scan
mod Tests
use ha_birdie.Base.{
  ℕ, String, Bool, true, false, not, ◌&&◌, ◌||◌, Option, none, some, List, [], ◌∷◌, ◌++◌, str_eq,
  if◌then◌else◌, is_some, get_or,
}
use ha_birdie.Base.Result.{Result, ok, raised}
use ha_birdie.Ble.Const.{read_uuids, notify_uuids}
use ha_birdie.Ble.Parse.{Bytes, ParseError}
use ha_birdie.Ble.Parse.Known.{Reading, parse_known_characteristic}
use ha_birdie.Ble.Client.{Characteristic, Services}

-- What is logged of a characteristic that is read.
pub data Report : Type 0 where
  missing not_readable read_failed : Report
  was_read : Bytes → Result ParseError Reading → Report

-- one turn of the loop of `read_known_characteristics`; `_parse_or_error` keeps the error as text
abbrev pub report : String → Option Characteristic → Option Bytes → Report
report uuid none o = missing
report uuid (some c) o =
    if c.readable
    then elim o [ none ↦ read_failed | some d ↦ was_read d (parse_known_characteristic uuid d) ]
    else not_readable

unfoldable pub read_one : Services → (String → Option Bytes) → String → Report
read_one services reads uuid = report uuid (services uuid) (reads uuid)

unfoldable pub read_each : Services → (String → Option Bytes) → List String → List (String × Report)
read_each services reads [] = []
read_each services reads (u ∷ us) = (u, read_one services reads u) ∷ read_each services reads us

-- `read_known_characteristics`
abbrev pub read_known_characteristics : Services → (String → Option Bytes) → List (String × Report)
read_known_characteristics services reads = read_each services reads read_uuids

-- What the device is asked for by `subscribe_notifications`, in order.
pub data Request : Type 0 where
  start_notify stop_notify : String → Request

-- The answers to a subscription: whether it works. A failure to stop is only logged.
abbrev pub can_notify : Services → String → Bool
can_notify services uuid = elim (services uuid) [ none ↦ false | some c ↦ c.notifies ]

-- the loop: the requests, and the characteristics that are active
unfoldable pub subscribe : Services → (String → Bool) → List String → List Request × List String
subscribe services works [] = ([], [])
subscribe services works (u ∷ us) =
    let rest = subscribe services works us in
    if can_notify services u
    then (start_notify u ∷ rest.0, if works u then u ∷ rest.1 else rest.1)
    else rest

-- `stop_notifications`
unfoldable pub stop_notifications : List String → List Request
stop_notifications [] = []
stop_notifications (u ∷ us) = stop_notify u ∷ stop_notifications us

-- `subscribe_notifications`, whether or not the wait is interrupted
unfoldable pub subscribe_notifications : Services → (String → Bool) → List Request
subscribe_notifications services works =
    let (requests, active) = subscribe services works notify_uuids in
    requests ++ stop_notifications active

-- What connecting meets: whether it connects without an exception, and is connected then, the services
-- that the client has or that can be fetched, and the answers.
pub record Target : Type 0 where
  pub connects : Bool
  pub reports_connected : Bool
  pub cached : Option Services
  pub fetched : Option Services
  pub reads : String → Option Bytes
  pub works : String → Bool

-- `_get_services`: those of the client, or else those that it fetches, or an exception
unfoldable pub get_services : Target → Option Services
get_services t = elim t.cached [ none ↦ t.fetched | some s ↦ some s ]

-- what a probe reports, or that it failed, with exit code 2
pub data Outcome : Type 0 where
  failed : Outcome
  probed : List (String × Report) → List Request → Outcome

-- `probe_address`, but for the search of the address
unfoldable pub probe_address : Bool → Target → Outcome
unfolding get_services
probe_address notify t =
    if t.connects && t.reports_connected
    then elim (get_services t) [
      | none ↦ failed
      | some s ↦
          probed (read_known_characteristics s t.reads)
            (if notify then subscribe_notifications s t.works else [])
    ]
    else failed

-- `find_device`: what is connected to, a device that was found or else the address
pub data Peer : Type 0 where
  by_device : String → Peer
  by_address : String → Peer

-- an answer of the scanner; `lookup_failed` is an exception that is caught
pub data Seen : Type 0 where
  lookup_failed not_seen : Seen
  seen : String → Seen

unfoldable pub find_device : String → Seen → Peer
find_device address lookup_failed = by_address address
find_device address not_seen = by_address address
find_device address (seen device) = by_device device

-- the arguments that decide what is done
pub record Args : Type 0 where
  pub address : Option String
  pub scan : Bool
  pub notify : Bool

abbrev pub has_address : Args → Bool
has_address a = elim a.address [ none ↦ false | some s ↦ not (str_eq s "") ]

-- the default of `parse_args`
unfoldable pub with_default : Args → Args
with_default a = if not a.scan && not (has_address a) then record a { scan = true } else a

-- what `async_main` does, in order
pub data Task : Type 0 where
  scan_task : Task
  probe_task : String → Task

abbrev probe_tasks : Option String → List Task
probe_tasks none = []
probe_tasks (some s) = if str_eq s "" then [] else probe_task s ∷ []

unfoldable pub async_main : Args → List Task
async_main a =
    let args = with_default a in
    let probes = probe_tasks args.address in if args.scan then scan_task ∷ probes else probes
