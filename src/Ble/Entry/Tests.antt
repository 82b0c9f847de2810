-- ===== src/Ble/Entry/Tests.antt =====
-- Examples for __init__.py.
use ha_birdie.Base.{◌≡◌, none, [], ◌∷◌, str_eq, if◌then◌else◌, true, false}
use ha_birdie.Base.Dict.{lookup}
use ha_birdie.Ble.Client.{is_connected}
use ha_birdie.Ble.Coordinator.Tests.{birdie, contact, unplugged}
use ha_birdie.Ble.Entry.{Hass, unload_entry, unload_entry-gone, on_advertisement}

abbrev hass : Hass
hass = record {
  coordinators = ("one", birdie) ∷ ("two", unplugged) ∷ [];
  watched = [];
  rediscovered = [];
}

unload_entry-gone_example :
    let (done, gone, after) = unload_entry true "one" birdie hass in
    (lookup "two" after.coordinators
      ≡ (if str_eq "one" "two" then none else lookup "two" hass.coordinators))
    × (is_connected gone.client ≡ false)
    × (gone.shown ≡ record birdie.shown { available = false })
    × (on_advertisement contact gone ≡ gone)
unload_entry-gone_example = unload_entry-gone "one" birdie hass "two" contact
