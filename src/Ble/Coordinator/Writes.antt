-- ===== src/Ble/Coordinator/Writes.antt =====
-- Writing a setting through the Bluetooth coordinator (coordinator.py, client.py).
use ha_birdie.Base.{
  ℕ, ◌/◌, ◌%◌, ◌≤◌, ◌<◌, String, ◌≡◌, refl, ◌⊎◌, Bool, true, Option, some, [], ◌∷◌, arith, leb,
  ◌&&◌,
}
use ha_birdie.Base.Result.{ok, raised}
use ha_birdie.Ble.Const.{co2_threshold_uuid, cool_down_uuid}
use ha_birdie.Ble.Parse.{Bytes, uint16_le, uint8}
use ha_birdie.Ble.Data.{updated, set_field}
use ha_birdie.Ble.Client.{
  BleClient, Services, Characteristic, is_connected, read_uuid, write_then_read,
  write_co2_threshold, write_cool_down,
}
use ha_birdie.Ble.Coordinator.{
  BirdieCoordinator, Contact, out_of_range, handle_values, ensure_connected, set_co2_threshold,
  set_cool_down,
}

-- The characteristic is there, it can be read, and reading it gives what was written last.
pub record Echoes (b : BleClient) (uuid : String) (writes : Bytes → Bool)
    (reads : Bytes → String → Option Bytes) : Type 0 where
  pub connected : is_connected b ≡ true
  pub services : Services
  pub have : b.services ≡ some services
  pub characteristic : Characteristic
  pub found : services uuid ≡ some characteristic
  pub readable : characteristic.readable ≡ true
  pub accepts : (d : Bytes) → writes d ≡ true
  pub keeps : (d : Bytes) → reads d uuid ≡ some d

module _ (b : BleClient) (uuid : String) (writes : Bytes → Bool)
    (reads : Bytes → String → Option Bytes) (h : Echoes b uuid writes reads) where
  pub write_then_read-echo : (d : Bytes) → write_then_read writes reads uuid d b ≡ ok d
  unfolding write_then_read read_uuid
  write_then_read-echo d =
      ground (arith, h.connected, h.have, h.found, h.readable, h.accepts d, h.keeps d)

uint16-pair : (v : ℕ) → uint16_le (v % 256 ∷ v / 256 ∷ []) ≡ ok v
unfolding uint16_le
uint16-pair v = ground arith

module _ (k : Contact) (writes : Bytes → Bool) (reads : Bytes → String → Option Bytes)
    (c : BirdieCoordinator) where
  write_co2-echo :
      (v : ℕ)
      → Echoes c.client co2_threshold_uuid writes reads
      → v < 65536
      → write_co2_threshold writes reads v c.client ≡ ok v
  unfolding write_co2_threshold
  write_co2-echo v h lt = ground (
    arith,
    write_then_read-echo c.client co2_threshold_uuid writes reads h (v % 256 ∷ v / 256 ∷ []),
    uint16-pair v,
  )

  write_cool_down-echo :
      (v : ℕ)
      → Echoes c.client cool_down_uuid writes reads
      → v < 256
      → write_cool_down writes reads v c.client ≡ ok v
  unfolding write_cool_down uint8
  write_cool_down-echo v h lt =
      ground (arith, write_then_read-echo c.client cool_down_uuid writes reads h (v ∷ []))

  ensure-connected : is_connected c.client ≡ true → ensure_connected k c ≡ (ok tt, c)
  unfolding ensure_connected
  ensure-connected h = ground arith

  -- On a connected device that keeps what is written, a threshold from 400 to 5000 ppm is accepted,
  -- and the value shown is the one that was read back; the device is then shown as available.
  pub set_co2_threshold-echo :
      (v : ℕ)
      → Echoes c.client co2_threshold_uuid writes reads
      → 400 ≤ v
      → v ≤ 5000
      → let r = set_co2_threshold k writes reads v c in
        (r.0 ≡ ok tt)
        × ((r.1).shown ≡ record c.shown { co2_threshold = some v; available = true })
        × ((r.1).client ≡ c.client)
  unfolding set_co2_threshold handle_values updated set_field
  set_co2_threshold-echo v h low high =
      let in_range : (leb 400 v && leb v 5000) ≡ true = ground arith in
      rw (in_range, ensure-connected h.connected)
        (rw (write_co2-echo v h (omega arith)) (refl, refl, refl))

  -- On a connected device that keeps what is written, a cool down period from 1 to 240 minutes is
  -- accepted, and the value shown is the one that was read back; the device is then shown as available.
  pub set_cool_down-echo :
      (v : ℕ)
      → Echoes c.client cool_down_uuid writes reads
      → 1 ≤ v
      → v ≤ 240
      → let r = set_cool_down k writes reads v c in
        (r.0 ≡ ok tt)
        × ((r.1).shown ≡ record c.shown { cool_down = some v; available = true })
        × ((r.1).client ≡ c.client)
  unfolding set_cool_down handle_values updated set_field
  set_cool_down-echo v h low high =
      let in_range : (leb 1 v && leb v 240) ≡ true = ground arith in
      rw (in_range, ensure-connected h.connected)
        (rw (write_cool_down-echo v h (omega arith)) (refl, refl, refl))

  -- A threshold out of range is refused, and neither the device nor what is shown is touched.
  pub set_co2_threshold-range :
      (v : ℕ)
      → (v < 400) ⊎ (5000 < v)
      → set_co2_threshold k writes reads v c ≡ (raised out_of_range, c)
  unfolding set_co2_threshold
  set_co2_threshold-range v h = ground arith
