-- ===== src/Ble/Coordinator/History.antt =====
-- Every history of a Bluetooth coordinator (coordinator.py).
use ha_birdie.Base.{
  Option, ℕ, String, ◌≡◌, refl, sym, ◌∙◌, ◌&&◌, Bool, true, false, not, List, Option, [], ◌∷◌,
  arith, leb, if◌then◌else◌,
}
use ha_birdie.Base.Result.{Result, ok, raised}
use ha_birdie.Ble.Parse.{Bytes, Change, co2_threshold_ppm, cool_down_minutes}
use ha_birdie.Ble.Data.{BirdieData, updated, set_field}
use ha_birdie.Ble.Client.{
  BleClient, BleError, ble_error, value_error, overflow_error, is_connected, connect, disconnect,
  start_notify, handle_notify, write_co2_threshold, write_cool_down,
  handle_disconnect as client_disconnected,
}
use ha_birdie.Ble.Coordinator.{
  create, BirdieCoordinator, Problem, uncaught, out_of_range, Contact, handle_values, set_available,
  after_connect, async_connect, connect_if_expected, async_disconnect, dropped, handle_disconnect,
  ensure_connected, connected_or_not, written, write_when_connected, set_co2_threshold,
  set_cool_down,
}
use ha_birdie.Ble.Coordinator.Available.{IsAttempt, async_connect-shown}

-- The device is shown as available exactly while it is connected, and then the connection is
-- expected, and no disconnection is.
pub record IsTrue (c : BirdieCoordinator) : Type 0 where
  pub shown : c.shown.available ≡ is_connected c.client
  pub expected : (is_connected c.client && not c.expected_connected) ≡ false
  pub kept : (is_connected c.client && c.client.expected_disconnect) ≡ false

-- an error of the client that is not caught
abbrev pub is_uncaught : {A : Type 0} → Result Problem A → Bool
is_uncaught (raised (uncaught e)) = true
is_uncaught _ = false

connect-kept :
    (m : _) (b : BleClient)
    → (is_connected b && b.expected_disconnect) ≡ false
    → (is_connected (connect m b).1 && (connect m b).1.expected_disconnect) ≡ false
unfolding connect disconnect
connect-kept m b h = ground arith

async_connect-kept :
    (k : Contact) (c : BirdieCoordinator)
    → (is_connected c.client && c.client.expected_disconnect) ≡ false
    → let c' = (async_connect k c).1 in
      (is_connected c'.client && c'.client.expected_disconnect) ≡ false
unfolding async_connect after_connect dropped handle_disconnect client_disconnected set_available
    handle_values start_notify
async_connect-kept k c h = ground (arith, connect-kept k.meeting c.client h)

attempt-IsTrue :
    (r : Result Problem Bool) (c : BirdieCoordinator)
    → IsAttempt (r, c)
    → (is_connected c.client && c.client.expected_disconnect) ≡ false
    → is_uncaught r ≡ false
    → IsTrue c
attempt-IsTrue (ok b) c h k u = record {
  shown = (h.1).0 ∙ sym (h.1).1;
  expected = ground (arith, h.0);
  kept = k;
}
attempt-IsTrue (raised e) c h k u = absurd (cc ((h.1).0, u))

async_connect-IsTrue :
    (k : Contact) (c : BirdieCoordinator)
    → IsTrue c
    → is_uncaught (async_connect k c).0 ≡ false
    → IsTrue (async_connect k c).1
async_connect-IsTrue k c h u =
    let r = async_connect k c in
    attempt-IsTrue r.0 r.1 (async_connect-shown k c) (async_connect-kept k c h.kept) u

-- a result, and a connection where it is no error
IsReady : Result Problem (Unit {0}) × BirdieCoordinator → Type 0
IsReady (ok u, c) = IsTrue c × (is_connected c.client ≡ true)
IsReady (raised e, c) = is_uncaught {A = Unit {0}} (raised e) ≡ false → IsTrue c

connected_or_not-IsReady :
    (r : Result Problem Bool) (c : BirdieCoordinator)
    → IsAttempt (r, c)
    → (is_uncaught r ≡ false → IsTrue c)
    → IsReady (connected_or_not (r, c))
unfolding IsReady
connected_or_not-IsReady (ok true) c h k = (k refl, (h.1).1)
connected_or_not-IsReady (ok false) c h k = λ u. k refl
connected_or_not-IsReady (raised e) c h k = λ u. absurd (cc ((h.1).0, u))

choose-IsReady :
    (b : Bool) (p q : Result Problem (Unit {0}) × BirdieCoordinator)
    → (b ≡ true → IsReady p)
    → IsReady q
    → IsReady (if b then p else q)
choose-IsReady true p q hp hq = hp refl
choose-IsReady false p q hp hq = hq

ensure_connected-IsReady :
    (k : Contact) (c : BirdieCoordinator) → IsTrue c → IsReady (ensure_connected k c)
unfolding ensure_connected IsReady
ensure_connected-IsReady k c h =
    let r = async_connect k c in
    choose-IsReady (is_connected c.client) (ok tt, c) (connected_or_not r) (λ e. (h, e))
      (connected_or_not-IsReady r.0 r.1 (async_connect-shown k c) (async_connect-IsTrue k c h))

updated-available : (vs : List Change) (d : BirdieData) → (updated vs d).available ≡ d.available
unfolding updated set_field
updated-available [] d = refl
updated-available (v ∷ vs) d = ground (arith, updated-available vs (set_field v d))

handle_values-IsTrue :
    (vs : List Change) (b : Bool) (c : BirdieCoordinator)
    → IsTrue c
    → (b ≡ true → is_connected c.client ≡ true)
    → IsTrue (handle_values vs b c)
unfolding handle_values
handle_values-IsTrue vs true c h k = record {
  shown = sym (k refl);
  expected = h.expected;
  kept = h.kept;
}
handle_values-IsTrue vs false c h k = record {
  shown = updated-available vs c.shown ∙ h.shown;
  expected = h.expected;
  kept = h.kept;
}

written-IsTrue :
    (field : ℕ → Change) (r : Result BleError ℕ) (c : BirdieCoordinator)
    → IsTrue c
    → is_connected c.client ≡ true
    → IsTrue (written field r c).1
written-IsTrue field (ok n) c h k = handle_values-IsTrue (field n ∷ []) true c h (λ e. k)
written-IsTrue field (raised ble_error) c h k = h
written-IsTrue field (raised value_error) c h k = h
written-IsTrue field (raised overflow_error) c h k = h

write-IsTrue :
    (field : ℕ → Change) (write : BleClient → Result BleError ℕ) (r : Result Problem (Unit {0}))
    (c : BirdieCoordinator)
    → IsReady (r, c)
    → is_uncaught (write_when_connected field write (r, c)).0 ≡ false
    → IsTrue (write_when_connected field write (r, c)).1
unfolding IsReady
write-IsTrue field write (ok u) c h e = written-IsTrue field (write c.client) c h.0 h.1
write-IsTrue field write (raised p) c h e = h e

choose-IsTrue :
    (b : Bool) (p q : Result Problem (Unit {0}) × BirdieCoordinator)
    → (is_uncaught p.0 ≡ false → IsTrue p.1)
    → IsTrue q.1
    → let r = if b then p else q in is_uncaught r.0 ≡ false → IsTrue r.1
choose-IsTrue true p q hp hq u = hp u
choose-IsTrue false p q hp hq u = hq

choose-connect :
    (b : Bool) (p q : Result Problem Bool × BirdieCoordinator)
    → (is_uncaught p.0 ≡ false → IsTrue p.1)
    → IsTrue q.1
    → let r = if b then p else q in is_uncaught r.0 ≡ false → IsTrue r.1
choose-connect true p q hp hq u = hp u
choose-connect false p q hp hq u = hq

async_disconnect-IsTrue : (c : BirdieCoordinator) → IsTrue (async_disconnect c)
unfolding async_disconnect set_available disconnect
async_disconnect-IsTrue c = ground arith

dropped-IsTrue : (c : BirdieCoordinator) → IsTrue c → IsTrue (dropped c)
unfolding dropped handle_disconnect client_disconnected set_available
dropped-IsTrue c h = ground (arith, h.shown, h.kept)

-- One operation, whatever it meets. Those that connect raise no error of the client that is not caught.
pub data Step : BirdieCoordinator → BirdieCoordinator → Type 0 where
  connects :
      (k : Contact) (c : BirdieCoordinator)
      → is_uncaught (async_connect k c).0 ≡ false
      → Step c (async_connect k c).1
  reconnects :
      (k : Contact) (c : BirdieCoordinator)
      → is_uncaught (connect_if_expected k c).0 ≡ false
      → Step c (connect_if_expected k c).1
  disconnects : (c : BirdieCoordinator) → Step c (async_disconnect c)
  drops : (c : BirdieCoordinator) → Step c (dropped c)
  notifies :
      (uuid : String) (d : Bytes) (c : BirdieCoordinator)
      → Step c (handle_values (handle_notify uuid d) false c)
  sets_co2_threshold :
      (k : Contact) (writes : Bytes → Bool) (reads : Bytes → String → Option Bytes) (v : ℕ)
      (c : BirdieCoordinator)
      → is_uncaught (set_co2_threshold k writes reads v c).0 ≡ false
      → Step c (set_co2_threshold k writes reads v c).1
  sets_cool_down :
      (k : Contact) (writes : Bytes → Bool) (reads : Bytes → String → Option Bytes) (v : ℕ)
      (c : BirdieCoordinator)
      → is_uncaught (set_cool_down k writes reads v c).0 ≡ false
      → Step c (set_cool_down k writes reads v c).1

pub data Reaches : BirdieCoordinator → BirdieCoordinator → Type 0 where
  stays : (c : BirdieCoordinator) → Reaches c c
  goes : {c d e : BirdieCoordinator} → Step c d → Reaches d e → Reaches c e

Step-IsTrue : {c d : BirdieCoordinator} → Step c d → IsTrue c → IsTrue d
unfolding connect_if_expected set_co2_threshold set_cool_down
Step-IsTrue (connects k c u) h = async_connect-IsTrue k c h u
Step-IsTrue (reconnects k c u) h =
    choose-connect (c.expected_connected && not (is_connected c.client)) (async_connect k c)
      (ok false, c) (async_connect-IsTrue k c h) h u
Step-IsTrue (disconnects c) h = async_disconnect-IsTrue c
Step-IsTrue (drops c) h = dropped-IsTrue c h
Step-IsTrue (notifies uuid d c) h = handle_values-IsTrue (handle_notify uuid d) false c h (λ e. cc)
Step-IsTrue (sets_co2_threshold k writes reads v c u) h =
    let ready = ensure_connected k c in
    let write = write_co2_threshold writes reads v in
    choose-IsTrue (leb 400 v && leb v 5000) (write_when_connected co2_threshold_ppm write ready)
      (raised out_of_range, c)
      (write-IsTrue co2_threshold_ppm write ready.0 ready.1 (ensure_connected-IsReady k c h)) h u
Step-IsTrue (sets_cool_down k writes reads v c u) h =
    let ready = ensure_connected k c in
    let write = write_cool_down writes reads v in
    choose-IsTrue (leb 1 v && leb v 240) (write_when_connected cool_down_minutes write ready)
      (raised out_of_range, c)
      (write-IsTrue cool_down_minutes write ready.0 ready.1 (ensure_connected-IsReady k c h)) h u

Reaches-IsTrue : {c d : BirdieCoordinator} → Reaches c d → IsTrue c → IsTrue d
Reaches-IsTrue (stays c) h = h
Reaches-IsTrue (goes x r) h = Reaches-IsTrue r (Step-IsTrue x h)

create-IsTrue :
    (address : String) (name : Option String) (title : String) → IsTrue (create address name title)
unfolding create
create-IsTrue address name title = record { shown = refl; expected = refl; kept = refl }

-- After any operations of a new coordinator in which no error of the client goes uncaught, the device
-- is shown as available exactly while it is connected, and then the connection is expected, and no
-- disconnection is.
pub history-IsTrue :
    (address : String) (name : Option String) (title : String) (c : BirdieCoordinator)
    → Reaches (create address name title) c
    → IsTrue c
history-IsTrue address name title c r = Reaches-IsTrue r (create-IsTrue address name title)
