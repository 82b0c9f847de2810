-- ===== src/Purifier/Model/Tests.antt =====
-- Examples for purifier/model.py.
use ha_birdie.Base.{String, ◌≡◌, refl, true, some, [], ◌∷◌, ◌≤◌}
use ha_birdie.Base.Int.{pos, ◌-ℤ◌}
use ha_birdie.Base.Dict.{lookup, update}
use ha_birdie.Dps.{bool, int, str, Dps}
use ha_birdie.Purifier.Model.{
  to_int, remaining_minutes, round_div, from_dps, apply_dps, dp_switch, dp_mode, dp_pm25,
  dp_filter_total_minutes, dp_filter_used_minutes, life_percent, fan_speed_dps,
}
use ha_birdie.Purifier.Model.Commands.{fan_speed_dps-roundtrip}

abbrev report : Dps
report =
    (dp_switch, bool true)
    ∷ (dp_mode, str "manual3")
    ∷ (dp_pm25, int (pos 12))
    ∷ (dp_filter_total_minutes, int (pos 1000))
    ∷ (dp_filter_used_minutes, int (pos 335))
    ∷ []

life_test : (from_dps report).filter_life_percent ≡ some 66
unfolding from_dps life_percent to_int lookup remaining_minutes ◌-ℤ◌ round_div
life_test = refl

abbrev speed_two : Dps
speed_two = (dp_mode, str "manual2") ∷ []

fan_speed_dps-roundtrip_example :
    (1 ≤ 2)
    × (2 ≤ 4)
    × (apply_dps (from_dps report) speed_two ≡ record (from_dps report) {
      mode = some "manual";
      fan_speed = some 2;
      dps = update report speed_two;
    })
unfolding fan_speed_dps
fan_speed_dps-roundtrip_example = fan_speed_dps-roundtrip report 2 speed_two refl

abbrev preset : String
preset = "sleep"

abbrev sleep_mode : Dps
sleep_mode = (dp_mode, str "sleep") ∷ []
