-- ===== src/Ble/Data.antt =====
-- custom_components/birdie/models.py: the latest values of a Bluetooth device.
use ha_birdie.Base.{ℕ, String, Bool, Option, none, some, List, [], ◌∷◌, ◌==◌}
use ha_birdie.Base.Int.{ℤ}
use ha_birdie.Ble.Const.{birdie_state_down, state_value}
use ha_birdie.Ble.Parse.{
  Version, Change, co2_ppm, temperature_celsius, humidity_percent, birdie_state, battery_percent,
  co2_threshold_ppm, cool_down_minutes, firmware_version, hardware_version,
}

pub record BirdieData : Type 0 where
  pub address : String
  pub name : Option String
  pub available : Bool
  pub co2 : Option ℕ
  pub temperature : Option ℤ
  pub humidity : Option ℕ
  pub state : Option ℕ
  pub battery : Option ℕ
  pub co2_threshold : Option ℕ
  pub cool_down : Option ℕ
  pub firmware : Option Version
  pub hardware : Option Version

-- `birdie_state_value`
unfoldable pub birdie_state_value : BirdieData → String
birdie_state_value d = elim d.state [ none ↦ "unknown" | some s ↦ state_value s ]

-- `co2_alarm`
unfoldable pub co2_alarm : BirdieData → Option Bool
co2_alarm d = elim d.state [ none ↦ none | some s ↦ some (s == birdie_state_down) ]

-- `updated` with one field
unfoldable pub set_field : Change → BirdieData → BirdieData
set_field (co2_ppm n) d = record d { co2 = some n }
set_field (temperature_celsius z) d = record d { temperature = some z }
set_field (humidity_percent n) d = record d { humidity = some n }
set_field (birdie_state n) d = record d { state = some n }
set_field (battery_percent o) d = record d { battery = o }
set_field (co2_threshold_ppm n) d = record d { co2_threshold = some n }
set_field (cool_down_minutes n) d = record d { cool_down = some n }
set_field (firmware_version v) d = record d { firmware = some v }
set_field (hardware_version v) d = record d { hardware = some v }

-- `updated(**values)`: the values in the order in which they were merged, so the last of a field stays
unfoldable pub updated : List Change → BirdieData → BirdieData
updated [] d = d
updated (c ∷ cs) d = updated cs (set_field c d)
