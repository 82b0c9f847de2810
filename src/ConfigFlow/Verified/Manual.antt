-- ===== src/ConfigFlow/Verified/Manual.antt =====
-- The steps for a device's data that are entered by hand, and those that change an entry
-- (config_flow.py).
use ha_birdie.Base.{
  String, sym, ◌∙◌, ap, Bool-cases, inl, inr, Option, none, some, str_eq, str_eq_iff, contains,
  if-false, get_or, or_else,
}
use ha_birdie.Base.Dict.{Dict, lookup}
use ha_birdie.Base.Text.{strip}
use ha_birdie.Lan.Device.{protocol_auto}
use ha_birdie.Lan.Redact.{Secrets}
use ha_birdie.Lan.Search.Find.{FoundDevice}
use ha_birdie.Lan.Discovery.{DiscoveredDevice}
use ha_birdie.Purifier.Flow.{clean_local_key}
use ha_birdie.ConfigFlow.{
  ManualInput, NetworkSearch, Flow, Task, pending, failed, done, Outside, is_podium, config_for,
}
use ha_birdie.ConfigFlow.Purifier.{
  step_purifier, step_search, step_search_found, step_manual, step_pick, add_found, add_searched,
  located, keyed, manual_for, picked, choice_manual,
}
use ha_birdie.ConfigFlow.Verified.{async_create_purifier-Sound}
use ha_birdie.ConfigFlow.Verified.Steps.{
  StepOk, FlowOk, SearchOk, FoundOk, choose-Ok, check-Ok, step_key-Ok,
}

module _ (Occurs : Outside → Type 0) (start : Secrets) (bytes_form : String → String) (o : Outside)
    (occurs : Occurs o) where
  add_found-Ok :
      (s : NetworkSearch) (d : Option FoundDevice) (f : Flow)
      → FoundOk Occurs s d
      → FlowOk Occurs start f
      → StepOk Occurs start o (add_found bytes_form o s d f)
  add_found-Ok s none f h i = (tt, i)
  add_found-Ok s (some d) f h i = (
    async_create_purifier-Sound Occurs o
        (config_for s.device_id d.host s.local_key s.protocol_version)
        (record { version = some d.protocol_version; dps = some d.dps; error = none }) none
        h.outside h.occurs h.found.version h.found.answer
        (record { hint = none; accepted = h.found.accepted })
        (elim (Bool-cases (str_eq h.found.version "")) [
          | inl e ↦ inr ((str_eq_iff h.found.version "").0 e)
          | inr e ↦ inl (ap some (h.found.named ∙ if-false _ _ _ e))
        ])
        (ap (λ d. is_podium (some d) none) (sym h.found.shown) ∙ h.podium),
    i,
  )

  add_searched-Ok :
      (s : Option NetworkSearch) (f : Flow)
      → SearchOk Occurs s
      → FlowOk Occurs start f
      → StepOk Occurs start o (add_searched bytes_form o s f)
  add_searched-Ok none f h i = (tt, i)
  add_searched-Ok (some s) f h i = add_found-Ok s s.found (record f { search = none }) h (tt, i.1)

  pub step_search_found-Ok :
      (f : Flow) → FlowOk Occurs start f → StepOk Occurs start o (step_search_found bytes_form o f)
  unfolding step_search_found
  step_search_found-Ok f h = add_searched-Ok f.search f h.0 h

  located-Ok :
      (step : String) (input : ManualInput) (id key version : String) (d : Option DiscoveredDevice)
      (f : Flow)
      → FlowOk Occurs start f
      → StepOk Occurs start o (located bytes_form o step input id key version d f)
  unfolding step_search
  located-Ok step input id key version none f h = (tt, (tt, h.1))
  located-Ok step input id key version (some d) f h =
      check-Ok Occurs start bytes_form o occurs step id d.host key version d.protocol_version
        d.product_key f h

  keyed-Ok :
      (step : String) (input : ManualInput) (id : String) (key : Option String) (f : Flow)
      → FlowOk Occurs start f
      → StepOk Occurs start o (keyed bytes_form o step input id key f)
  keyed-Ok step input id none f h = (tt, h)
  keyed-Ok step input id (some key) f h =
      let host = strip (get_or input.host "") in
      let version = get_or input.protocol_version protocol_auto in
      choose-Ok Occurs start bytes_form o occurs (str_eq host "") _ _
        (located-Ok step input id key version (or_else (lookup id f.lan_devices) (o.scan id)) f h)
        (check-Ok Occurs start bytes_form o occurs step id host key version none none f h)

  manual_for-Ok :
      (step : String) (s : Option NetworkSearch) (input : Option ManualInput) (f : Flow)
      → FlowOk Occurs start f
      → StepOk Occurs start o (manual_for bytes_form o step s input f)
  manual_for-Ok step (some s) input f h = (tt, h)
  manual_for-Ok step none none f h = (tt, h)
  manual_for-Ok step none (some input) f h =
      let id = strip input.device_id in
      choose-Ok Occurs start bytes_form o occurs (contains o.configured id) _ _ (tt, h)
        (choose-Ok Occurs start bytes_form o occurs (str_eq id "") _ _ (tt, h)
          (keyed-Ok step input id (clean_local_key (some input.local_key)) f h))

  pub step_manual-Ok :
      (step : String) (input : Option ManualInput) (f : Flow)
      → FlowOk Occurs start f
      → StepOk Occurs start o (step_manual bytes_form o step input f)
  unfolding step_manual
  step_manual-Ok step input f h =
      manual_for-Ok step f.search input (record f { search = none }) (tt, h.1)

  picked-Ok :
      (d : Option DiscoveredDevice) (f : Flow)
      → FlowOk Occurs start f
      → StepOk Occurs start o (picked bytes_form o d f)
  picked-Ok none f h = (tt, h)
  picked-Ok (some d) f h =
      step_key-Ok Occurs start bytes_form o occurs none (record f { purifier = some d }) h

  pub step_pick-Ok :
      (choice : Option String) (f : Flow)
      → FlowOk Occurs start f
      → StepOk Occurs start o (step_pick bytes_form o choice f)
  unfolding step_pick
  step_pick-Ok none f h = (tt, h)
  step_pick-Ok (some choice) f h =
      choose-Ok Occurs start bytes_form o occurs (str_eq choice choice_manual) _ _
        (step_manual-Ok "purifier_manual" none f h) (picked-Ok (lookup choice f.lan_devices) f h)

  pub step_purifier-Ok :
      (task : Task (Dict DiscoveredDevice)) (f : Flow)
      → FlowOk Occurs start f
      → StepOk Occurs start o (step_purifier o task f)
  unfolding step_purifier
  step_purifier-Ok pending f h = (tt, h)
  step_purifier-Ok failed f h = (tt, h)
  step_purifier-Ok (done found) f h = (tt, h)
