-- ===== src/ConfigFlow/Entering.antt =====
-- What the form for a device's data answers when an address is entered (config_flow.py,
-- `_async_purifier_manual`).
use ha_birdie.Base.{
  String, ◌≡◌, refl, ◌∙◌, ap, false, none, some, List, [], ◌∷◌, str_eq, contains, if◌then◌else◌,
  get_or, All,
}
use ha_birdie.Base.Dict.{update}
use ha_birdie.Base.Text.{strip}
use ha_birdie.Dps.{Dps}
use ha_birdie.Lan.Device.{protocol_auto}
use ha_birdie.Lan.Device.Opening.{Opens, Fails, any_rejected}
use ha_birdie.Lan.Device.Once.{first_versions}
use ha_birdie.Purifier.Coordinator.{EntryData}
use ha_birdie.Purifier.Flow.{ConnectionResult, clean_local_key}
use ha_birdie.Purifier.Flow.Check.{check_connection-Opens, check_connection-refused}
use ha_birdie.ConfigFlow.{
  ManualInput, Flow, show_form, create_purifier, Outside, is_podium, async_create_purifier,
  config_for, connection_checked,
}
use ha_birdie.ConfigFlow.Purifier.{answered, step_manual}

-- A device's id, key and address that are entered, and pass the checks of the form.
pub record Entered (o : Outside) (input : ManualInput) (f : Flow) (key : String) : Type 0 where
  pub no_search : f.search ≡ none
  pub new : contains o.configured (strip input.device_id) ≡ false
  pub named : str_eq (strip input.device_id) "" ≡ false
  pub keyed : clean_local_key (some input.local_key) ≡ some key
  pub located : str_eq (strip (get_or input.host "")) "" ≡ false

-- the protocol version of the form
abbrev pub entered_version : ManualInput → String
entered_version input = get_or input.protocol_version protocol_auto

-- the data of the device that was entered
abbrev pub entered_data : ManualInput → String → String → EntryData
entered_data input key detected = record {
  device_id = strip input.device_id;
  host = strip (get_or input.host "");
  local_key = key;
  protocol_version = some (entered_version input);
  detected_version = some detected;
  product_key = none;
}

module _ (bytes_form : String → String) (o : Outside) (step : String) (input : ManualInput)
    (f : Flow) (key : String) where
  -- the connection check of what was entered
  abbrev entered_check : ConnectionResult
  entered_check =
      (connection_checked bytes_form o
        (config_for (strip input.device_id) (strip (get_or input.host "")) key
          (entered_version input))
        none (record f { search = none })).0

  abbrev versions : List String
  versions = first_versions (entered_version input) none

  step_manual-answered :
      Entered o input f key
      → (step_manual bytes_form o step (some input) f).0
        ≡ answered o step
            (config_for
              (strip input.device_id)
              (strip (get_or input.host ""))
              key
              (entered_version input))
            none
            entered_check
            entered_check.error
  unfolding step_manual
  step_manual-answered h = rw (h.no_search, h.new, h.named, h.keyed, h.located) refl

  answered-opened :
      (r : ConnectionResult) (v : String) (e : Dps)
      → contains o.configured (strip input.device_id) ≡ false
      → r ≡ record { version = some v; dps = some (update [] e); error = none }
      → answered o step
          (config_for
            (strip input.device_id)
            (strip (get_or input.host ""))
            key
            (entered_version input))
          none
          r
          r.error
        ≡ (if is_podium (some (update [] e)) none
            then create_purifier (strip input.device_id) (entered_data input key v)
            else show_form step (("base", "not_a_podium") ∷ []))
  unfolding async_create_purifier
  answered-opened r v e new same = rw (same, new) refl

  -- Where a device that is not set up is entered with its address and a key of the right form, and the
  -- device at the address accepts the key at version `v`, the answer is a new entry with that data and
  -- that version if the device is a podium, and else the form with an error.
  pub step_manual-adds :
      Entered o input f key
      → (v : String) (e : Dps)
      → Opens (o.respond (strip input.device_id) key (strip (get_or input.host ""))) versions v e
      → (step_manual bytes_form o step (some input) f).0 ≡ (
          if is_podium (some (update [] e)) none
          then create_purifier (strip input.device_id) (entered_data input key v)
          else show_form step (("base", "not_a_podium") ∷ []))
  step_manual-adds h v e opens =
      step_manual-answered h
      ∙ answered-opened entered_check v e h.new
          (check_connection-Opens bytes_form _ none _ o.now f.secrets v e opens)

  answered-error :
      (r : ConnectionResult) (error : String)
      → r.error ≡ some error
      → answered o step
          (config_for
            (strip input.device_id)
            (strip (get_or input.host ""))
            key
            (entered_version input))
          none
          r
          r.error
        ≡ show_form step (("base", error) ∷ [])
  answered-error r error same =
      ap
        (answered o step
          (config_for (strip input.device_id) (strip (get_or input.host "")) key
            (entered_version input))
          none r)
        same

  -- Where every version fails at the address and none is cut short, the answer is the form. Its error
  -- is the key if some version said that it is wrong, and else the connection.
  pub step_manual-refuses :
      Entered o input f key
      → All (Fails (o.respond (strip input.device_id) key (strip (get_or input.host "")))) versions
      → (step_manual bytes_form o step (some input) f).0
        ≡ show_form step (
            (
              "base",
              if any_rejected
                    (o.respond (strip input.device_id) key (strip (get_or input.host "")))
                    versions
                  then "invalid_local_key"
                  else "cannot_connect",
            )
            ∷ [])
  step_manual-refuses h fails =
      step_manual-answered h
      ∙ answered-error entered_check _
          (check_connection-refused bytes_form _ none _ o.now f.secrets fails)
