-- ===== src/ConfigFlow/Purifier.antt =====
-- The steps that add an air purifier (config_flow.py). What HA passes on from a progress step, and
-- `_form_input` drops, is `none` here.
use ha_birdie.Base.{
  String, true, false, not, ◌&&◌, Option, none, some, List, [], ◌∷◌, str_eq, if◌then◌else◌,
  contains, get_or, or_else,
}
use ha_birdie.Base.Dict.{Dict, lookup}
use ha_birdie.Base.Text.{strip}
use ha_birdie.Lan.Device.{DeviceConfig, protocol_auto}
use ha_birdie.Lan.Discovery.{DiscoveredDevice}
use ha_birdie.Lan.Search.Find.{FoundDevice}
use ha_birdie.Purifier.Discovery.{is_birdie_purifier}
use ha_birdie.Purifier.Flow.{ConnectionResult, clean_local_key}
use ha_birdie.ConfigFlow.{
  ManualInput, NetworkSearch, Flow, FlowResult, show_form, show_progress, progress_done, abort,
  abort_moved, crash, Task, pending, failed, done, Outside, is_podium, async_create_purifier,
  config_for, connection_checked,
}

abbrev pub choice_manual : String
choice_manual = "manual"

-- what a step answers after a connection check with this error
abbrev pub answered :
    Outside → String → DeviceConfig → Option String → ConnectionResult → Option String → FlowResult
answered o step config product_key result (some e) = show_form step (("base", e) ∷ [])
answered o step config product_key result none =
    if is_podium result.dps product_key
    then async_create_purifier o config result product_key
    else show_form step (("base", "not_a_podium") ∷ [])

-- the end of a step after a connection check
abbrev pub after_check :
    Outside → String → DeviceConfig → Option String → ConnectionResult × Flow → FlowResult × Flow
after_check o step config product_key (result, f) =
    (answered o step config product_key result result.error, f)

-- the new devices of a scan that are purifiers
unfoldable pub new_purifiers : List String → Dict DiscoveredDevice → Dict DiscoveredDevice
new_purifiers current_ids [] = []
new_purifiers current_ids ((id, d) ∷ found) =
    let rest = new_purifiers current_ids found in
    if is_birdie_purifier d && not (contains current_ids id) then (id, d) ∷ rest else rest

abbrev pub scanned : Outside → Dict DiscoveredDevice → Flow → FlowResult × Flow
scanned o found f =
    let devices = new_purifiers o.current_ids found in
    (
      progress_done (elim devices [ [] ↦ "purifier_not_found" | d ∷ ds ↦ "purifier_pick" ]),
      record f { scan_started = true; lan_devices = devices },
    )

-- `async_step_purifier`
unfoldable pub step_purifier : Outside → Task (Dict DiscoveredDevice) → Flow → FlowResult × Flow
unfolding new_purifiers
step_purifier o pending f = (show_progress "purifier", record f { scan_started = true })
step_purifier o failed f = scanned o [] f
step_purifier o (done found) f = scanned o found f

module _ (bytes_form : String → String) (o : Outside) where
  abbrev pub key_checked : DiscoveredDevice → Option String → Flow → FlowResult × Flow
  key_checked device none f =
      (show_form "purifier_key" (("local_key", "invalid_local_key_format") ∷ []), f)
  key_checked device (some key) f =
      let config = config_for device.device_id device.host key protocol_auto in
      after_check o "purifier_key" config device.product_key
        (connection_checked bytes_form o config device.protocol_version f)

  abbrev pub key_for : Option String → Option DiscoveredDevice → Flow → FlowResult × Flow
  key_for input none f = (crash, f)
  key_for none (some device) f = (show_form "purifier_key" [], f)
  key_for (some text) (some device) f = key_checked device (clean_local_key (some text)) f

  -- `async_step_purifier_key`
  unfoldable pub step_key : Option String → Flow → FlowResult × Flow
  step_key input f = key_for input f.purifier f

  -- `async_step_integration_discovery`
  unfoldable pub step_discovered : DiscoveredDevice → Flow → FlowResult × Flow
  unfolding step_key
  step_discovered device f =
      let asked = step_key none (record f { purifier = some device }) in
      if o.in_progress device.device_id
      then (abort "already_in_progress", f)
      else if contains o.configured device.device_id
      then (abort_moved device.device_id device.host, f)
      else asked

  -- `async_step_purifier_search`, with the state of its task
  abbrev pub searched : Option FoundDevice → NetworkSearch → Flow → FlowResult × Flow
  searched none s f = (
    progress_done s.step_id,
    record f { search = some (record s { started = true; found = none }) },
  )
  searched (some d) s f =
      if is_podium (some d.dps) none
      then (
        progress_done "purifier_search_found",
        record f { search = some (record s { started = true; found = some d }) },
      )
      else (
        progress_done s.step_id,
        record f { search = some (record s { started = true; found = none; not_a_podium = true }) },
      )

  abbrev pub search_for :
      Task (Option FoundDevice) → Option NetworkSearch → Flow → FlowResult × Flow
  search_for task none f = (crash, f)
  search_for pending (some s) f =
      (show_progress "purifier_search", record f { search = some (record s { started = true }) })
  search_for failed (some s) f = searched s.found s f
  search_for (done found) (some s) f = searched found s f

  unfoldable pub step_search : Task (Option FoundDevice) → Flow → FlowResult × Flow
  step_search task f = search_for task f.search f

  abbrev pub add_found : NetworkSearch → Option FoundDevice → Flow → FlowResult × Flow
  add_found s none f = (crash, f)
  add_found s (some d) f = (
    async_create_purifier o (config_for s.device_id d.host s.local_key s.protocol_version)
        (record { version = some d.protocol_version; dps = some d.dps; error = none }) none,
    f,
  )

  abbrev pub add_searched : Option NetworkSearch → Flow → FlowResult × Flow
  add_searched none f = (crash, f)
  add_searched (some s) f = add_found s s.found (record f { search = none })

  -- `async_step_purifier_search_found`
  unfoldable pub step_search_found : Flow → FlowResult × Flow
  step_search_found f = add_searched f.search f

  -- the start of a search, and its first step
  abbrev begin_search : String → ManualInput → String → String → String → Flow → FlowResult × Flow
  begin_search step input device_id key version f = step_search pending (record f {
    search = some (record {
      step_id = step;
      device_id = device_id;
      local_key = key;
      protocol_version = version;
      user_input = input;
      started = false;
      found = none;
      not_a_podium = false;
    });
  })

  abbrev pub connect_manual :
      String
      → String
      → String
      → String
      → String
      → Option String
      → Option String
      → Flow
      → FlowResult × Flow
  connect_manual step device_id host key version hint product_key f =
      let config = config_for device_id host key version in
      after_check o step config product_key (connection_checked bytes_form o config hint f)

  abbrev pub located :
      String
      → ManualInput
      → String
      → String
      → String
      → Option DiscoveredDevice
      → Flow
      → FlowResult × Flow
  located step input device_id key version none f = begin_search step input device_id key version f
  located step input device_id key version (some d) f =
      connect_manual step device_id d.host key version d.protocol_version d.product_key f

  abbrev pub keyed : String → ManualInput → String → Option String → Flow → FlowResult × Flow
  keyed step input device_id none f =
      (show_form step (("local_key", "invalid_local_key_format") ∷ []), f)
  keyed step input device_id (some key) f =
      let host = strip (get_or input.host "") in
      let version = get_or input.protocol_version protocol_auto in
      let known = or_else (lookup device_id f.lan_devices) (o.scan device_id) in
      let direct = connect_manual step device_id host key version none none f in
      if str_eq host "" then located step input device_id key version known f else direct

  abbrev pub manual_for :
      String → Option NetworkSearch → Option ManualInput → Flow → FlowResult × Flow
  manual_for step (some s) input f = (
    show_form step
        ((if s.not_a_podium then ("base", "not_a_podium") else ("host", "device_not_found")) ∷ []),
    f,
  )
  manual_for step none none f = (show_form step [], f)
  manual_for step none (some input) f =
      let device_id = strip input.device_id in
      let entered = keyed step input device_id (clean_local_key (some input.local_key)) f in
      if contains o.configured device_id
      then (abort "already_configured", f)
      else if str_eq device_id ""
      then (show_form step (("device_id", "invalid_device_id") ∷ []), f)
      else entered

  -- `_async_purifier_manual`
  unfoldable pub step_manual : String → Option ManualInput → Flow → FlowResult × Flow
  unfolding step_search
  step_manual step input f = manual_for step f.search input (record f { search = none })

  abbrev pub picked : Option DiscoveredDevice → Flow → FlowResult × Flow
  picked none f = (crash, f)
  picked (some d) f = step_key none (record f { purifier = some d })

  -- `async_step_purifier_pick`
  unfoldable pub step_pick : Option String → Flow → FlowResult × Flow
  unfolding step_key step_manual
  step_pick none f = (show_form "purifier_pick" [], f)
  step_pick (some choice) f =
      let entering = step_manual "purifier_manual" none f in
      let picking = picked (lookup choice f.lan_devices) f in
      if str_eq choice choice_manual then entering else picking
