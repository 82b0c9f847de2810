-- ===== src/Ble/Entry.antt =====
-- custom_components/birdie/__init__.py: setting up and unloading the config entry of a Bluetooth device.
-- The entries of purifiers are those of Purifier.Entry. Home Assistant adds and removes the entities of
-- a platform, and runs the callbacks that were registered.
mod Tests
use ha_birdie.Base.{
  String, ◌≡◌, refl, ap, ◌∙◌, Bool, true, false, Option, none, some, List, [], ◌∷◌, arith, str_eq,
  if◌then◌else◌,
}
use ha_birdie.Base.Dict.{Dict, lookup, insert, remove, lookup-insert, lookup-remove}
use ha_birdie.Base.Result.{Result, ok, raised}
use ha_birdie.Ble.Client.{is_connected}
use ha_birdie.Ble.Coordinator.{
  BirdieCoordinator, Problem, Contact, create, async_connect, connect_if_expected, async_disconnect,
}
use ha_birdie.Ble.Coordinator.Available.{
  Tells, IsAttempt, async_connect-shown, async_disconnect-unavailable,
}

-- The parts of Home Assistant that are changed: the coordinators under `DOMAIN` by their entry, the
-- addresses whose advertisements are listened to, and those that are to be discovered again, the newest
-- first.
pub record Hass : Type 0 where
  pub coordinators : Dict BirdieCoordinator
  pub watched : List String
  pub rediscovered : List String

-- the lines after the connection, of which an error that it raises leaves out all
abbrev pub set_up : Result Problem Bool × BirdieCoordinator → Hass → Result Problem Bool × Hass
set_up (ok there, c) h = (ok true, record h { watched = c.shown.address ∷ h.watched })
set_up (raised e, c) h = (raised e, h)

-- `async_setup_entry`: the coordinator is in the data before it connects, and changes there
unfoldable pub setup_entry :
    Contact → String → String → Option String → String → Hass → Result Problem Bool × Hass
setup_entry k entry_id given name title h =
    let r = async_connect k (create given name title) in
    set_up r (record h { coordinators = insert entry_id r.1 h.coordinators })

-- `_async_bluetooth_callback`, for an advertisement of the coordinator's address
unfoldable pub on_advertisement : Contact → BirdieCoordinator → BirdieCoordinator
on_advertisement k c = (connect_if_expected k c).1

-- `_async_stop`
unfoldable pub on_stop : BirdieCoordinator → BirdieCoordinator
on_stop c = async_disconnect c

-- `async_unload_entry`, given whether the platforms could be unloaded and the entry's `runtime_data`
unfoldable pub unload_entry :
    Bool → String → BirdieCoordinator → Hass → Bool × BirdieCoordinator × Hass
unload_entry false entry_id c h = (false, c, h)
unload_entry true entry_id c h = (
  true,
  async_disconnect c,
  record h {
    coordinators = remove entry_id h.coordinators;
    rediscovered = c.shown.address ∷ h.rediscovered;
  },
)

set_up-data :
    (r : Result Problem Bool) (c : BirdieCoordinator) (h : Hass)
    → ((set_up (r, c) h).1).coordinators ≡ h.coordinators
set_up-data (ok b) c h = refl
set_up-data (raised e) c h = refl

-- After the setup of an entry its coordinator is in the data, whatever the connection came to, and it
-- tells whether it is connected; the other entries have theirs as before.
pub setup_entry-data :
    (k : Contact) (entry_id given : String) (name : Option String) (title : String) (h : Hass)
    (other : String)
    → let r = async_connect k (create given name title) in
      IsAttempt r
      × (lookup other ((setup_entry k entry_id given name title h).1).coordinators
          ≡ (if str_eq entry_id other then some r.1 else lookup other h.coordinators))
unfolding setup_entry
setup_entry-data k entry_id given name title h other =
    let r = async_connect k (create given name title) in
    let held = record h { coordinators = insert entry_id r.1 h.coordinators } in
    (
      async_connect-shown k (create given name title),
      ap (λ d. lookup other d) (set_up-data r.0 r.1 held)
          ∙ lookup-insert entry_id other r.1 h.coordinators,
    )

-- After an entry was unloaded its coordinator is no longer in the data, while the other entries have
-- theirs as before; the coordinator is disconnected, shows the device as unavailable, and no
-- advertisement that is still handled connects it again.
pub unload_entry-gone :
    (entry_id : String) (c : BirdieCoordinator) (h : Hass) (other : String) (k : Contact)
    → let (done, gone, after) = unload_entry true entry_id c h in
      (lookup other after.coordinators
        ≡ (if str_eq entry_id other then none else lookup other h.coordinators))
      × (is_connected gone.client ≡ false)
      × (gone.shown ≡ record c.shown { available = false })
      × (on_advertisement k gone ≡ gone)
unfolding unload_entry on_advertisement connect_if_expected
unload_entry-gone entry_id c h other k =
    let (shown, expected, client) = async_disconnect-unavailable c in
    (lookup-remove entry_id other h.coordinators, client, shown, rw expected refl)
