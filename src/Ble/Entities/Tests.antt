-- ===== src/Ble/Entities/Tests.antt =====
-- Examples for the entities of a Bluetooth device.
use ha_birdie.Base.{◌≡◌, true, some, arith}
use ha_birdie.Base.Result.{ok}
use ha_birdie.Ble.Const.{co2_threshold_uuid}
use ha_birdie.Ble.Coordinator.Tests.{birdie, contact, accepts_all, echo, echoes}
use ha_birdie.Ble.Entities.{
  available, Entered, co2_threshold_number, number_value, set_native_value,
}
use ha_birdie.Ble.Entities.Shows.{set_native_value-shown}

abbrev entered : Entered
entered = record { whole = 1000; fraction = 500 }

set_native_value-shown_example :
    let r = set_native_value contact accepts_all echo co2_threshold_number entered birdie in
    (r.0 ≡ ok tt)
    × (number_value contact accepts_all echo co2_threshold_number r.1 ≡ some 1000)
    × (available true r.1 ≡ true)
set_native_value-shown_example =
    set_native_value-shown contact accepts_all echo birdie co2_threshold_number entered
      (echoes co2_threshold_uuid) (omega arith) (omega arith)
