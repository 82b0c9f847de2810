-- ===== src/Lan/Device/Worker.antt =====
-- The calls of lan/device.py that the worker thread makes, one at a time (`_w_open` to `_w_set`).
use ha_birdie.Base.{
  ℕ, String, Bool, true, not, ◌||◌, Option, none, some, List, [], ◌∷◌, ◌++◌, str_eq, if◌then◌else◌,
  contains, is_some,
}
use ha_birdie.Base.Result.{ok, raised}
use ha_birdie.Dps.{Dps}
use ha_birdie.Lan.Errors.{LanError, unreachable, connection_lost, invalid_local_key}
use ha_birdie.Lan.Device.{
  LanDevice, Answer, error_code, dps_of, open_error, code_in, unreachable_errors,
  connection_lost_errors, protocol_auto, protocol_versions, auto_protocol_order, Call, ◌>>◌, pure,
  raise, modify, raise_if,
}

-- `order.remove(v)`, with its `ValueError` suppressed
unfoldable pub remove_first : String → List String → List String
remove_first v [] = []
remove_first v (w ∷ order) = if str_eq w v then order else w ∷ remove_first v order

-- one round of the loop over the preferred versions
unfoldable pub prefer : Option String → List String → List String
unfolding remove_first
prefer none order = order
prefer (some v) order = if contains protocol_versions v then v ∷ remove_first v order else order

unfoldable pub versions_to_try : LanDevice → List String
versions_to_try s =
    let configured = s.config.protocol_version in
    if not (str_eq configured protocol_auto)
    then configured ∷ []
    else prefer s.version (prefer s.version_hint auto_protocol_order)

unfoldable pub w_drop : LanDevice → LanDevice
w_drop s = record s { api = none }

-- What one attempt meets: `_closed` as it is read before it, and the answer to `status()`.
pub record Attempt : Type 0 where
  pub closed : Bool
  pub answer : Answer

pub data Opened : Type 0 where
  opened : String → Dps → Opened
  failed : LanError → Opened

-- `dps is not None and api.socket is not None`
abbrev pub live_dps : Answer → Option Dps
live_dps a = if a.socket then dps_of a.reply else none

-- the errors of the attempts that failed: the first rejected key, or the last error
unfoldable pub final_error : LanError → List LanError → LanError
final_error last [] = last
final_error last (invalid_local_key ∷ errors) = invalid_local_key
final_error last (e ∷ errors) = final_error e errors

-- the loop of `_w_open`, with the errors so far
unfoldable pub try_versions : (String → Attempt) → List String → List LanError → Opened
try_versions respond [] errors = failed (final_error unreachable errors)
try_versions respond (v ∷ vs) errors =
    let a = respond v in
    let code = error_code a.answer.reply in
    let rest = try_versions respond vs (errors ++ open_error code ∷ []) in
    if a.closed then failed unreachable else elim (live_dps a.answer) [
      | some d ↦ opened v d
      | none ↦ if code_in unreachable_errors code then failed (open_error code) else rest
    ]

-- the end of `_w_open`: the library object is kept on success only
abbrev pub keep_api : Opened → Call (String × Dps)
keep_api (opened v d) s = (ok (v, d), record s { api = some (record { socket = true }) })
keep_api (failed e) s = (raised e, s)

unfoldable pub w_open : (String → Attempt) → Call (String × Dps)
unfolding w_drop
w_open respond s = keep_api (try_versions respond (versions_to_try s) []) (w_drop s)

-- `_w_api`: there is a connection, or `_ConnectionLost`
unfoldable pub w_api : Call (Unit {0})
w_api s = elim s.api [
  | none ↦ (raised connection_lost, s)
  | some api ↦ (if api.socket then ok tt else raised connection_lost, s)
]

-- the library's object after a call that gave this answer
abbrev pub after : Answer → LanDevice → LanDevice
after a s = record s { api = some (record { socket = a.socket }) }

abbrev or_lost : Option Dps → Call Dps
or_lost none = raise connection_lost
or_lost (some d) = pure d

unfoldable pub w_status : Answer → Call Dps
unfolding w_api
w_status a = do w_api; modify (after a); or_lost (live_dps a)

unfoldable pub w_heartbeat : Answer → ℕ → Call (Unit {0})
unfolding w_api
w_heartbeat a now = do
  w_api
  modify (λ s. record (after a s) { last_heartbeat = now })
  raise_if (is_some (error_code a.reply) || not a.socket) connection_lost

-- `raw` says whether bytes came in; `now` is the clock after the call
unfoldable pub w_receive : Answer → Bool → ℕ → Call (Option Dps)
unfolding w_api
w_receive a raw now = do
  w_api
  modify (λ s. record (after a s) { last_rx = if raw then now else s.last_rx })
  raise_if (not a.socket || code_in connection_lost_errors (error_code a.reply)) connection_lost
  pure (dps_of a.reply)

unfoldable pub w_set : Answer → Call (Unit {0})
unfolding w_api
w_set a = do
  w_api
  modify (after a)
  raise_if (is_some (error_code a.reply) || not a.socket) connection_lost
