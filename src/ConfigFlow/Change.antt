-- ===== src/ConfigFlow/Change.antt =====
-- The steps that change a purifier's entry (config_flow.py): a new local key after the device rejected
-- the old one, and the form for the key, the address and the protocol version. An entry that is no
-- purifier's is `none`.
use ha_birdie.Base.{String, Option, none, some, [], ◌∷◌, str_eq, if◌then◌else◌, get_or}
use ha_birdie.Base.Text.{strip}
use ha_birdie.Lan.Device.{protocol_auto}
use ha_birdie.Purifier.Coordinator.{EntryData, device_config}
use ha_birdie.Purifier.Flow.{ConnectionResult, clean_local_key}
use ha_birdie.ConfigFlow.{
  Flow, FlowResult, show_form, abort, update_entry, Outside, config_for, connection_checked,
}

-- The input of the form of `async_step_reconfigure`.
pub record Reconfigured : Type 0 where
  pub local_key : Option String
  pub host : String
  pub protocol_version : Option String

-- what a step that changes an entry answers after a connection check with this error
abbrev pub changes_to : String → EntryData → Option String → FlowResult
changes_to step changed (some e) = show_form step (("base", e) ∷ [])
changes_to step changed none = update_entry changed

-- the end of a step that changes an entry, after its connection check
abbrev pub after_change :
    String → (ConnectionResult → EntryData) → ConnectionResult × Flow → FlowResult × Flow
after_change step changed (result, f) = (changes_to step (changed result) result.error, f)

-- `entered_key`, and the key that is checked
abbrev pub key_or_kept : Option String → String → Option String
key_or_kept input kept =
    let entered = strip (get_or input "") in
    if str_eq entered "" then some kept else clean_local_key (some entered)

module _ (bytes_form : String → String) (o : Outside) where
  abbrev pub rekeyed : EntryData → Option String → Flow → FlowResult × Flow
  rekeyed entry none f =
      (show_form "reauth_confirm" (("local_key", "invalid_local_key_format") ∷ []), f)
  rekeyed entry (some key) f =
      after_change "reauth_confirm"
        (λ result. record entry { local_key = key; detected_version = result.version })
        (connection_checked bytes_form o (record (device_config entry) { local_key = key })
          entry.detected_version f)

  -- `async_step_reauth_confirm`
  unfoldable pub step_reauth_confirm : EntryData → Option String → Flow → FlowResult × Flow
  step_reauth_confirm entry none f = (show_form "reauth_confirm" [], f)
  step_reauth_confirm entry (some input) f = rekeyed entry (clean_local_key (some input)) f

  abbrev pub readdressed : EntryData → Option String → String → String → Flow → FlowResult × Flow
  readdressed entry none host version f =
      (show_form "reconfigure" (("local_key", "invalid_local_key_format") ∷ []), f)
  readdressed entry (some key) host version f =
      let changed =
        after_change "reconfigure"
          (λ result. record entry {
            local_key = key;
            host = host;
            protocol_version = some version;
            detected_version = result.version;
          })
          (connection_checked bytes_form o (config_for entry.device_id host key version)
            entry.detected_version f) in
      if str_eq host ""
      then (show_form "reconfigure" (("host", "invalid_host") ∷ []), f)
      else changed

  -- `async_step_reconfigure`
  unfoldable pub step_reconfigure :
      Option EntryData → Option Reconfigured → Flow → FlowResult × Flow
  step_reconfigure none input f = (abort "reconfigure_not_supported", f)
  step_reconfigure (some entry) none f = (show_form "reconfigure" [], f)
  step_reconfigure (some entry) (some input) f =
      readdressed entry (key_or_kept input.local_key entry.local_key) (strip input.host)
        (get_or input.protocol_version protocol_auto) f
