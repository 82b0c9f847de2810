-- ===== src/Ble/Const.antt =====
-- The constants of custom_components/birdie/const.py that the Bluetooth part uses.
use ha_birdie.Base.{ℕ, String, Option, none, some, List, [], ◌∷◌, ◌==◌, if◌then◌else◌}

abbrev pub environmental_service_uuid : String
environmental_service_uuid = "4c9b9a7b-370d-473b-8109-f4dfeb661012"

abbrev pub co2_uuid : String
co2_uuid = "8fd61dc9-bb74-48c8-924a-d95c57c2f42f"

abbrev pub temperature_uuid : String
temperature_uuid = "0b91651c-cadb-490c-92ca-45cc8f40f1c9"

abbrev pub humidity_uuid : String
humidity_uuid = "0842ee99-4d87-40c5-89c2-8e5b23f37c59"

abbrev pub birdie_state_uuid : String
birdie_state_uuid = "6fdbae35-d241-4a74-bbc3-992010010601"

abbrev pub legacy_temperature_uuid : String
legacy_temperature_uuid = "00002a6e-0000-1000-8000-00805f9b34fb"

abbrev pub legacy_humidity_uuid : String
legacy_humidity_uuid = "00002a6f-0000-1000-8000-00805f9b34fb"

abbrev pub battery_level_uuid : String
battery_level_uuid = "4769d60c-49b1-4e4b-bc0c-149c5e757bdd"

abbrev pub co2_threshold_uuid : String
co2_threshold_uuid = "5f46fade-19a9-4dd5-991e-22729e3ebc44"

abbrev pub cool_down_uuid : String
cool_down_uuid = "2f0c3872-c2be-4416-9610-14a103ed1fc7"

abbrev pub firmware_revision_uuid : String
firmware_revision_uuid = "8798982b-8e1a-4102-ab20-b8f1b6a75495"

abbrev pub hardware_version_uuid : String
hardware_version_uuid = "a418b935-1e12-4e2a-9e30-81c91ea6b5a0"

abbrev pub temperature_uuids : List String
temperature_uuids = legacy_temperature_uuid ∷ temperature_uuid ∷ []

abbrev pub humidity_uuids : List String
humidity_uuids = legacy_humidity_uuid ∷ humidity_uuid ∷ []

abbrev pub read_uuids : List String
read_uuids =
    co2_uuid ∷ legacy_temperature_uuid ∷ temperature_uuid ∷ legacy_humidity_uuid ∷ humidity_uuid
    ∷ birdie_state_uuid ∷ battery_level_uuid ∷ co2_threshold_uuid ∷ cool_down_uuid
    ∷ firmware_revision_uuid ∷ hardware_version_uuid ∷ []

abbrev pub notify_uuids : List String
notify_uuids =
    co2_uuid ∷ legacy_temperature_uuid ∷ temperature_uuid ∷ legacy_humidity_uuid ∷ humidity_uuid
    ∷ birdie_state_uuid ∷ battery_level_uuid ∷ []

abbrev pub birdie_state_down : ℕ
birdie_state_down = 1

-- `BIRDIE_STATE_VALUES.get(state, UNKNOWN_STATE)`
unfoldable pub state_value : ℕ → String
state_value s =
    if s == 0 then "up" else if s == 1 then "down" else if s == 2 then "cooldown" else "unknown"

-- `BATTERY_LEVEL_PERCENT.get(level)`
unfoldable pub battery_level_percent : ℕ → Option ℕ
battery_level_percent l =
    if l == 0
    then some 100
    else if l == 1
    then some 75
    else if l == 2
    then some 50
    else if l == 3
    then some 25
    else if l == 4
    then some 0
    else none
