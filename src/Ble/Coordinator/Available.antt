-- ===== src/Ble/Coordinator/Available.antt =====
-- When a Bluetooth device is shown as available (coordinator.py).
use ha_birdie.Base.{
  String, ◌&&◌, ◌≡◌, refl, ap, sym, ◌∙◌, none, some, Bool, true, false, List, arith, if◌then◌else◌,
}
use ha_birdie.Base.Result.{Result, ok, raised}
use ha_birdie.Ble.Parse.{Change}
use ha_birdie.Ble.Client.Clean.{connect-connected}
use ha_birdie.Ble.Client.{
  BleClient, BleError, ble_error, is_connected, connect, read_initial, disconnect, start_notify,
  handle_disconnect as client_disconnected,
}
use ha_birdie.Ble.Coordinator.{
  Problem, uncaught, BirdieCoordinator, Contact, handle_values, set_available, after_connect,
  async_connect, subscribed, async_disconnect, dropped, handle_disconnect,
}

set_available-client :
    (b : Bool) (c : BirdieCoordinator)
    → ((set_available b c).client ≡ c.client)
      × ((set_available b c).shown.available ≡ b)
      × ((set_available b c).expected_connected ≡ c.expected_connected)
unfolding set_available
set_available-client b c = ground arith

-- Disconnecting shows the device as unavailable, keeps the values that were shown, and expects no
-- connection any more, so that an advertisement does not bring it back.
pub async_disconnect-unavailable :
    (c : BirdieCoordinator)
    → let c' = async_disconnect c in
      (c'.shown ≡ record c.shown { available = false })
      × (c'.expected_connected ≡ false)
      × (is_connected c'.client ≡ false)
unfolding async_disconnect set_available disconnect
async_disconnect-unavailable c = ground arith

-- A connection that drops unexpectedly shows the device as unavailable, and one that was ended on
-- purpose changes nothing that is shown.
pub dropped-shown :
    (c : BirdieCoordinator)
    → (is_connected (dropped c).client ≡ false)
      × ((dropped c).shown ≡ (
          if c.client.expected_disconnect then c.shown else record c.shown { available = false }))
unfolding dropped handle_disconnect client_disconnected set_available
dropped-shown c = ground arith

handle_values-available :
    (vs : List Change) (c : BirdieCoordinator)
    → ((handle_values vs true c).shown.available ≡ true)
      × ((handle_values vs true c).client ≡ c.client)
      × ((handle_values vs true c).expected_connected ≡ c.expected_connected)
unfolding handle_values
handle_values-available vs c = (refl, refl, refl)

start_notify-client :
    (works : String → Bool) (b : BleClient)
    → (((start_notify works b).1).client ≡ b.client)
      × ((start_notify works b).0 ≡ ok tt → is_connected b ≡ true)
      × ((e : BleError) → (start_notify works b).0 ≡ raised e → e ≡ ble_error)
      × (((start_notify works b).1).expected_disconnect ≡ b.expected_disconnect)
unfolding start_notify
start_notify-client works b = ground arith

dropped-gone :
    (c : BirdieCoordinator)
    → (is_connected (dropped c).client ≡ false)
      × ((dropped c).expected_connected ≡ c.expected_connected)
unfolding dropped handle_disconnect client_disconnected set_available
dropped-gone c = ground arith

-- the connection while the values are read
abbrev met : Contact → BirdieCoordinator → BirdieCoordinator
met k c = if k.lasts then c else dropped c

met-connected :
    (k : Contact) (c : BirdieCoordinator)
    → ((met k c).expected_connected ≡ c.expected_connected)
      × (is_connected (met k c).client ≡ (k.lasts && is_connected c.client))
met-connected k c = ground (arith, dropped-gone c)

-- what an attempt to connect tells: whether it is connected, and an error with the device shown
abbrev pub Tells : Result Problem Bool → BirdieCoordinator → Type 0
Tells (ok b) c = (c.shown.available ≡ b) × (is_connected c.client ≡ b)
Tells (raised e) c = (e ≡ uncaught ble_error) × (c.shown.available ≡ true)

subscribed-Tells :
    (r : Result BleError (Unit {0})) (b : BleClient) (c : BirdieCoordinator)
    → c.shown.available ≡ true
    → (r ≡ ok tt → is_connected b ≡ true)
    → ((e : BleError) → r ≡ raised e → e ≡ ble_error)
    → let s = subscribed (r, b) c in
      ((s.1).expected_connected ≡ c.expected_connected) × ((s.1).client ≡ b) × Tells s.0 s.1
subscribed-Tells (ok u) b c h k m = (refl, refl, (h, k refl))
subscribed-Tells (raised e) b c h k m = (refl, refl, (ap uncaught (m e refl), h))

after_connect-Tells :
    (k : Contact) (c : BirdieCoordinator)
    → let r = after_connect k c in ((r.1).expected_connected ≡ c.expected_connected) × Tells r.0 r.1
unfolding after_connect
after_connect-Tells k c =
    let values = read_initial k.reads c.client in
    let read = handle_values values true (met k c) in
    let shown = handle_values-available values (met k c) in
    let (same, left, only, flag) = start_notify-client k.works read.client in
    let notified = start_notify k.works read.client in
    let (expected, client, tells) =
      subscribed-Tells notified.0 notified.1 read shown.0
        (λ h. ap (λ o. elim o as (λ x. Bool) [ none ↦ false | some g ↦ g.connected ]) same ∙ left h)
        only in
    (expected ∙ shown.2 ∙ (met-connected k c).0, tells)

-- an attempt to connect, after which a connection is expected
abbrev pub IsAttempt : Result Problem Bool × BirdieCoordinator → Type 0
IsAttempt (r, c) = (c.expected_connected ≡ true) × Tells r c

choose-IsAttempt :
    (b : Bool) (p q : Result Problem Bool × BirdieCoordinator)
    → IsAttempt p
    → (b ≡ false → IsAttempt q)
    → IsAttempt (if b then p else q)
choose-IsAttempt true p q hp hq = hp
choose-IsAttempt false p q hp hq = hq refl

-- A connection attempt that returns says whether the device is connected then, and shows it as
-- available exactly if it is. One that raises is an error of the client that is not caught, and leaves
-- the device shown as available. The connection is expected from then on.
pub async_connect-shown : (k : Contact) (c : BirdieCoordinator) → IsAttempt (async_connect k c)
unfolding async_connect
async_connect-shown k c =
    let tried = connect k.meeting c.client in
    let found = record c { client = tried.1; expected_connected = true } in
    let gone = set_available-client false found in
    choose-IsAttempt tried.0 (after_connect k found) (ok false, set_available false found)
      (after_connect-Tells k found)
      (λ e.
        (gone.2, (gone.1, ap is_connected gone.0 ∙ sym (connect-connected k.meeting c.client) ∙ e)))
