-- ===== src/Probe/Tests.antt =====
-- Examples for tools/birdie_probe.py.
use ha_birdie.Base.{String, ◌≡◌, refl, Bool, true, false, none, some, List, [], ◌∷◌}
use ha_birdie.Ble.Const.{notify_uuids}
use ha_birdie.Ble.Parse.{Bytes}
use ha_birdie.Ble.Client.{Services, read_initial}
use ha_birdie.Ble.Coordinator.Tests.{attached, every}
use ha_birdie.Probe.{read_known_characteristics, can_notify, subscribe_notifications}
use ha_birdie.Probe.Agrees.{
  changed, reported, started, stopped, keep, read_known-agrees, subscribe_notifications-stops,
}
use ha_birdie.Probe.Scan.{Advertised, AreFirst, how_many, scan_devices, scan_devices-first}

abbrev two_bytes : String → Bytes
two_bytes uuid = 32 ∷ 3 ∷ []

read_known-agrees_example :
    changed (read_initial (λ uuid. some (two_bytes uuid)) attached)
    ≡ reported (read_known_characteristics every (λ uuid. some (two_bytes uuid)))
read_known-agrees_example =
    read_known-agrees attached every (λ uuid. some (two_bytes uuid)) refl refl

abbrev notifying : Services
notifying uuid = some (record { readable = true; notifies = true })

subscribe_notifications-stops_example :
    let rs = subscribe_notifications notifying (λ uuid. false) in
    (started rs ≡ keep (can_notify notifying) notify_uuids)
    × (stopped rs ≡ keep (λ uuid. false) (started rs))
subscribe_notifications-stops_example = subscribe_notifications-stops notifying (λ uuid. false)

abbrev seen_devices : List Advertised
seen_devices =
    record { address = "A"; name = some "Lamp"; local_name = none; service_uuids = [] }
    ∷ record { address = "B"; name = none; local_name = some "Birdie"; service_uuids = [] }
    ∷ []

scan_devices-first_example :
    AreFirst (scan_devices (λ a b. true) seen_devices)
    × ((p : Advertised → Bool)
        → how_many p (scan_devices (λ a b. true) seen_devices) ≡ how_many p seen_devices)
scan_devices-first_example = scan_devices-first (λ a b. true) seen_devices
