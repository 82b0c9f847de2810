-- ===== src/ConfigFlow/Bluetooth.antt =====
-- The steps that add a Bluetooth device (config_flow.py), and the fields of the dialogue that they use.
-- Home Assistant's cache of advertisements, and what it hears during a scan, are given; it sends only
-- advertisements that match a name or the service. The schemas of the forms are left out.
pub mod Offers
use ha_birdie.Base.{
  String, Bool, true, false, not, ◌&&◌, ◌||◌, Option, none, some, List, [], ◌∷◌, str_eq,
  if◌then◌else◌, contains, is_some, get_or,
}
use ha_birdie.Base.Dict.{Dict, lookup, has_key, insert}
use ha_birdie.Ble.Names.{is_birdie_advertisement, normalize_address}
use ha_birdie.ConfigFlow.{
  FlowResult, show_form, show_progress, progress_done, show_menu, abort, create_ble, crash,
}

-- What is used of a `BluetoothServiceInfoBleak`.
pub record Advertisement : Type 0 where
  pub name : String
  pub address : String
  pub service_uuids : List String

-- The fields of `BirdieConfigFlow` for a Bluetooth device; `scanning` is `_scan_task is not None`.
pub record BleFlow : Type 0 where
  pub discovery_info : Option Advertisement
  pub discovered_devices : Dict String
  pub scan_complete : Bool
  pub scanning : Bool

-- `a or b` on texts
abbrev pub text_or : String → String → String
text_or a b = if str_eq a "" then b else a

-- `_discovery_title`
unfoldable pub discovery_title : Advertisement → String
discovery_title info = text_or info.name info.address

-- `_is_supported`
unfoldable pub is_supported : Advertisement → Bool
is_supported info = is_birdie_advertisement (some info.name) info.service_uuids

-- `_async_add_discovery`
unfoldable pub add_discovery : List String → Advertisement → Dict String → Bool × Dict String
add_discovery current_ids info devices =
    let address = normalize_address info.address in
    if contains current_ids address || has_key address devices
    then (false, devices)
    else if not (is_supported info)
    then (false, devices)
    else (true, insert address (discovery_title info) devices)

-- the loop over advertisements
unfoldable pub add_discoveries : List String → List Advertisement → Dict String → Dict String
add_discoveries current_ids [] devices = devices
add_discoveries current_ids (info ∷ infos) devices =
    add_discoveries current_ids infos (add_discovery current_ids info devices).1

-- `_async_collect_cached_discoveries`, over those that connect and those that do not
unfoldable pub collect_cached :
    List String → List Advertisement → List Advertisement → Dict String → Dict String
unfolding add_discoveries
collect_cached current_ids connectable others devices =
    add_discoveries current_ids others (add_discoveries current_ids connectable devices)

-- `_async_scan_for_devices`; `heard` is what arrives until the callbacks are removed
unfoldable pub scan_for_devices :
    List String
    → List Advertisement
    → List Advertisement
    → List Advertisement
    → Dict String
    → Dict String
unfolding collect_cached add_discoveries
scan_for_devices current_ids connectable others heard devices =
    let cached = collect_cached current_ids connectable others devices in
    elim cached [ [] ↦ add_discoveries current_ids heard [] | d ∷ ds ↦ d ∷ ds ]

-- `async_step_scan`; `finished` is `_scan_task.done()`
unfoldable pub step_scan : Bool → BleFlow → FlowResult × BleFlow
step_scan finished f =
    if finished
    then (progress_done "ble", record f { scanning = false; scan_complete = true })
    else (show_progress "scan", record f { scanning = true })

-- the entry of `async_step_ble` and `async_step_bluetooth_confirm`, or its refusal
abbrev pub new_device : List String → String → String → FlowResult
new_device configured address title =
    if contains configured address then abort "already_configured" else create_ble address title

-- `user_input.get(CONF_NAME) or self._discovered_devices.get(address) or address`
abbrev pub entered_title : Option String → Option String → String → String
entered_title name known address = text_or (get_or name "") (text_or (get_or known "") address)

-- `async_step_ble`, with the address and the name of the form, on the ids with which
-- `_abort_if_unique_id_configured` ends the dialogue and on the current ids
unfoldable pub step_ble :
    List String
    → List String
    → List Advertisement
    → List Advertisement
    → Bool
    → Option (String × Option String)
    → BleFlow
    → FlowResult × BleFlow
unfolding step_scan
step_ble configured current_ids connectable others finished (some (entered, name)) f =
    let address = normalize_address entered in
    (
      new_device configured address
          (entered_title name (lookup address f.discovered_devices) address),
      f,
    )
step_ble configured current_ids connectable others finished none f =
    if not f.scan_complete then step_scan finished f else (
      show_form "ble" [],
      record f {
        discovered_devices = collect_cached current_ids connectable others f.discovered_devices;
      },
    )

-- `async_step_bluetooth_confirm`
unfoldable pub step_bluetooth_confirm : Bool → Option Advertisement → FlowResult
step_bluetooth_confirm confirmed none = crash
step_bluetooth_confirm confirmed (some info) =
    if confirmed
    then create_ble (normalize_address info.address) (text_or info.name (discovery_title info))
    else show_form "bluetooth_confirm" []

-- `async_step_bluetooth`
unfoldable pub step_bluetooth :
    List String → (String → Bool) → Advertisement → BleFlow → FlowResult × BleFlow
unfolding step_bluetooth_confirm
step_bluetooth configured in_progress info f =
    let address = normalize_address info.address in
    if not (is_supported info)
    then (abort "not_supported", f)
    else if in_progress address
    then (abort "already_in_progress", f)
    else if contains configured address
    then (abort "already_configured", f)
    else (step_bluetooth_confirm false (some info), record f { discovery_info = some info })

-- `async_step_user`
abbrev pub step_user : FlowResult
step_user = show_menu
