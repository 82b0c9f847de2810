-- ===== src/ConfigFlow/Verified/Changes.antt =====
-- The steps that change an entry store only what was checked (config_flow.py).
use ha_birdie.Base.{String, ◌≡◌, refl, ◌∙◌, Option, none, some, str_eq, get_or}
use ha_birdie.Base.Text.{strip}
use ha_birdie.Lan.Device.{DeviceConfig, protocol_auto}
use ha_birdie.Lan.Redact.{Secrets}
use ha_birdie.Purifier.Coordinator.{EntryData, device_config}
use ha_birdie.Purifier.Flow.{ConnectionResult, clean_local_key}
use ha_birdie.Purifier.Flow.Check.{check_connection-secrets}
use ha_birdie.ConfigFlow.{Flow, Outside, config_for, connection_checked}
use ha_birdie.ConfigFlow.Change.{
  Reconfigured, rekeyed, readdressed, step_reauth_confirm, step_reconfigure, key_or_kept,
  after_change,
}
use ha_birdie.ConfigFlow.Verified.{config_of, connection_checked-Checked, changes_to-Sound}
use ha_birdie.ConfigFlow.Verified.Steps.{StepOk, FlowOk, choose-Ok}

module _ (Occurs : Outside → Type 0) (start : Secrets) (bytes_form : String → String) (o : Outside)
    (occurs : Occurs o) where
  change-Ok :
      (step : String) (config : DeviceConfig) (hint : Option String)
      (changed : ConnectionResult → EntryData) (f : Flow)
      → FlowOk Occurs start f
      → config_of (changed (connection_checked bytes_form o config hint f).0) ≡ config
      → (changed (connection_checked bytes_form o config hint f).0).detected_version
        ≡ (connection_checked bytes_form o config hint f).0.version
      → StepOk Occurs start o
          (after_change step changed (connection_checked bytes_form o config hint f))
  change-Ok step config hint changed f h same detected =
      let r = (connection_checked bytes_form o config hint f).0 in
      (
        changes_to-Sound Occurs o step config (changed r) r r.error occurs same detected
            (connection_checked-Checked bytes_form o config hint f),
        (
          h.0,
          λ k.
              check_connection-secrets bytes_form config hint
                (o.respond config.device_id config.local_key config.host) o.now f.secrets k
              ∙ h.1 k,
        ),
      )

  rekeyed-Ok :
      (e : EntryData) (key : Option String) (f : Flow)
      → FlowOk Occurs start f
      → StepOk Occurs start o (rekeyed bytes_form o e key f)
  unfolding device_config
  rekeyed-Ok e none f h = (tt, h)
  rekeyed-Ok e (some key) f h =
      change-Ok "reauth_confirm" (record (device_config e) { local_key = key }) e.detected_version
        (λ result. record e { local_key = key; detected_version = result.version }) f h refl refl

  pub step_reauth_confirm-Ok :
      (e : EntryData) (input : Option String) (f : Flow)
      → FlowOk Occurs start f
      → StepOk Occurs start o (step_reauth_confirm bytes_form o e input f)
  unfolding step_reauth_confirm
  step_reauth_confirm-Ok e none f h = (tt, h)
  step_reauth_confirm-Ok e (some input) f h = rekeyed-Ok e (clean_local_key (some input)) f h

  readdressed-Ok :
      (e : EntryData) (key : Option String) (host version : String) (f : Flow)
      → FlowOk Occurs start f
      → StepOk Occurs start o (readdressed bytes_form o e key host version f)
  readdressed-Ok e none host version f h = (tt, h)
  readdressed-Ok e (some key) host version f h =
      choose-Ok Occurs start bytes_form o occurs (str_eq host "") _ _ (tt, h)
        (change-Ok "reconfigure" (config_for e.device_id host key version) e.detected_version
          (λ result. record e {
            local_key = key;
            host = host;
            protocol_version = some version;
            detected_version = result.version;
          })
          f h refl refl)

  pub step_reconfigure-Ok :
      (e : Option EntryData) (input : Option Reconfigured) (f : Flow)
      → FlowOk Occurs start f
      → StepOk Occurs start o (step_reconfigure bytes_form o e input f)
  unfolding step_reconfigure
  step_reconfigure-Ok none input f h = (tt, h)
  step_reconfigure-Ok (some e) none f h = (tt, h)
  step_reconfigure-Ok (some e) (some input) f h =
      readdressed-Ok e (key_or_kept input.local_key e.local_key) (strip input.host)
        (get_or input.protocol_version protocol_auto) f h
