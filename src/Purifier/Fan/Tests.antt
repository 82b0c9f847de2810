-- ===== src/Purifier/Fan/Tests.antt =====
-- Examples for purifier/fan.py.
use ha_birdie.Base.{ℕ, ◌+◌, ◌*◌, ◌≤◌, ◌<◌, ◌≡◌, refl, true, some, [], ◌∷◌, arith}
use ha_birdie.Base.Dict.{lookup}
use ha_birdie.Base.Result.{ok, raised}
use ha_birdie.Dps.{bool, str, Dps}
use ha_birdie.Lan.Device.{error_code}
use ha_birdie.Lan.Device.Tests.{silence}
use ha_birdie.Purifier.Model.{from_dps, reported}
use ha_birdie.Purifier.Coordinator.{Coordinator}
use ha_birdie.Purifier.Coordinator.Tests.{running}
use ha_birdie.Purifier.Fan.{
  state_data, set_percentage, percentage, set_preset_mode, mode_not_supported,
}
use ha_birdie.Purifier.Fan.Send.{set_percentage-shown, set_preset_mode-refused}

abbrev four_speeds : ℕ → ℕ
four_speeds p = 4 * p

abbrev quarters : ℕ → ℕ
quarters n = 25 * n

abbrev asleep : Dps
asleep = ("1", bool true) ∷ ("3", str "sleep") ∷ []

abbrev sleeping : Coordinator
sleeping = record running { data_seen = some (from_dps asleep) }

set_percentage-shown_example :
    let r = set_percentage four_speeds quarters 60 silence 70 sleeping in
    (r.0 ≡ ok tt)
    × ((n : ℕ) × (percentage four_speeds quarters (state_data r.1) ≡ some (25 * n))
        × (60 ≤ 25 * n)
        × (25 * n < 60 + 25))
unfolding error_code lookup
set_percentage-shown_example =
    set_percentage-shown silence 70 sleeping asleep refl refl refl refl refl four_speeds quarters
      (λ p h. refl) (λ n h. refl) 60 (omega arith) (omega arith) refl

-- the purifier has not reported its mode
set_preset_mode-refused_example :
    set_preset_mode "sleep" silence 70 running ≡ (raised mode_not_supported, running)
unfolding state_data reported from_dps lookup
set_preset_mode-refused_example = set_preset_mode-refused "sleep" silence 70 running refl
