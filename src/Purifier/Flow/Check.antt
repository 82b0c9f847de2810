-- ===== src/Purifier/Flow/Check.antt =====
-- What the connection check of the dialogue says (purifier/flow.py, `async_check_connection`).
use ha_birdie.Base.{
  ℕ, String, ◌≡◌, refl, ◌∙◌, ap, Option, none, some, List, [], arith, All, if◌then◌else◌,
}
use ha_birdie.Base.Dict.{update}
use ha_birdie.Base.Result.{Result, ok, raised}
use ha_birdie.Dps.{Dps}
use ha_birdie.Lan.Errors.{LanError, unreachable, connection_lost, invalid_local_key, is_key_error}
use ha_birdie.Lan.Redact.{Secrets, count}
use ha_birdie.Lan.Device.{LanDevice, DeviceConfig, default_timings}
use ha_birdie.Lan.Device.Worker.{Attempt}
use ha_birdie.Lan.Device.Opening.{Opens, Fails, any_rejected}
use ha_birdie.Lan.Device.Once.{
  connect_once, connect_once-secrets, connect_once-shows, connect_once-Opens, connect_once-refused,
  first_versions,
}
use ha_birdie.Purifier.Flow.{ConnectionResult, error_of, check_result, check_connection}

check_result-ok :
    (r : Result LanError Dps) (device : LanDevice) {d : Dps} {v : String}
    → r ≡ ok d
    → device.version ≡ some v
    → check_result (r, device) ≡ record { version = some v; dps = some d; error = none }
check_result-ok r device h k = rw h (ground arith)

error_of_lem :
    (e : LanError) → error_of e ≡ (if is_key_error e then "invalid_local_key" else "cannot_connect")
error_of_lem unreachable = refl
error_of_lem connection_lost = refl
error_of_lem invalid_local_key = refl

check_result-raised :
    (r : Result LanError Dps) (device : LanDevice) {e : LanError}
    → r ≡ raised e
    → check_result (r, device) ≡ record {
      version = none;
      dps = none;
      error = some (if is_key_error e then "invalid_local_key" else "cannot_connect");
    }
check_result-raised r device {e = e} h = rw (h, error_of_lem e) refl

check_result_inv :
    (r : Result LanError Dps) (device : LanDevice)
    → (check_result (r, device)).error ≡ none
    → (d : Dps) × (r ≡ ok d)
check_result_inv (ok d) device h = (d, refl)
check_result_inv (raised e) device h = cc

module _ (bytes_form : String → String) (config : DeviceConfig) (hint : Option String)
    (respond : String → Attempt) (now : ℕ) (secrets : Secrets) where
  abbrev checked_result : ConnectionResult
  checked_result = (check_connection bytes_form config hint respond now secrets).0

  abbrev tried : List String
  tried = first_versions config.protocol_version hint

  pub check_connection-Opens :
      (v : String) (e : Dps)
      → Opens respond tried v e
      → checked_result ≡ record { version = some v; dps = some (update [] e); error = none }
  unfolding check_connection
  check_connection-Opens v e o =
      let once = connect_once bytes_form config default_timings hint respond now secrets in
      let (shown, version) =
        connect_once-Opens bytes_form config default_timings hint respond now secrets v e o in
      check_result-ok once.0 once.1 shown version

  -- A check without an error has connected to the device, at the version that it says.
  pub check_connection-passes :
      checked_result.error ≡ none
      → (v : String) × (e : Dps) × Opens respond tried v e
        × (checked_result ≡ record { version = some v; dps = some (update [] e); error = none })
  unfolding check_connection
  check_connection-passes h =
      let once = connect_once bytes_form config default_timings hint respond now secrets in
      let (d, r) = check_result_inv once.0 once.1 h in
      let (v, e, o, same, version) =
        connect_once-shows bytes_form config default_timings hint respond now secrets d r in
      (v, e, o, check_connection-Opens v e o)

  -- Where every version fails and none is cut short, the check says that the key is wrong exactly if
  -- some answer had a code of a rejected key, and else that there is no connection.
  pub check_connection-refused :
      All (Fails respond) tried
      → checked_result.error
        ≡ some (if any_rejected respond tried then "invalid_local_key" else "cannot_connect")
  unfolding check_connection
  check_connection-refused h =
      let once = connect_once bytes_form config default_timings hint respond now secrets in
      let (e, r, key) =
        connect_once-refused bytes_form config default_timings hint respond now secrets h in
      ap (λ (c : ConnectionResult). c.error) (check_result-raised once.0 once.1 r)
      ∙ ap (λ b. some (if b then "invalid_local_key" else "cannot_connect")) key

  pub check_connection-secrets :
      (k : String)
      → count k (check_connection bytes_form config hint respond now secrets).1 ≡ count k secrets
  unfolding check_connection
  check_connection-secrets k =
      connect_once-secrets bytes_form config default_timings hint respond now secrets k
