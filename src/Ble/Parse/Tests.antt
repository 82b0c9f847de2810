-- ===== src/Ble/Parse/Tests.antt =====
-- Examples for ble.py.
use ha_birdie.Base.{◌^◌, ◌≡◌, [], ◌∷◌, arith}
use ha_birdie.Base.{String}
use ha_birdie.Base.Text.Case.{upper, lower}
use ha_birdie.Base.Int.{negsuc}
use ha_birdie.Base.Result.{ok}
use ha_birdie.Ble.Const.{co2_uuid}
use ha_birdie.Ble.Parse.{parse_temperature, parse_characteristic_values}
use ha_birdie.Ble.Parse.Numbers.{to_bytes, unsigned, temperature-roundtrip}
use ha_birdie.Ble.Parse.Values.{parses, fits, formats, parse-fits}

-- minus five degrees
temperature-roundtrip_example :
    (parse_temperature (to_bytes 2 (unsigned (2 ^ 15) (negsuc 4999))) ≡ ok (negsuc 4999))
    × (parse_temperature (to_bytes 4 (unsigned (2 ^ 31) (negsuc 4999))) ≡ ok (negsuc 4999))
temperature-roundtrip_example = temperature-roundtrip (negsuc 4999) (omega arith) (omega arith)

-- an upper-case UUID, and a payload that is too long
abbrev co2_upper : String
co2_upper = upper co2_uuid

parse-fits_example :
    parses (parse_characteristic_values co2_upper (32 ∷ 3 ∷ 0 ∷ []))
    ≡ fits formats (lower co2_upper) 3
parse-fits_example = parse-fits co2_upper (32 ∷ 3 ∷ 0 ∷ [])
