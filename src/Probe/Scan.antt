-- ===== src/Probe/Scan.antt =====
-- The devices of a scan, the Birdies first (tools/birdie_probe.py, `scan_devices`). How texts are
-- ordered is Python's.
use ha_birdie.Base.{
  ℕ, ◌+◌, String, ◌≡◌, refl, Bool, true, false, not, ◌&&◌, ◌||◌, Option, none, some, List, [], ◌∷◌,
  arith, str_eq, if◌then◌else◌,
}
use ha_birdie.Ble.Names.{is_birdie_advertisement}

-- A device with its advertisement, which a version of bleak may not give: then it has no local name
-- and no services.
pub record Advertised : Type 0 where
  pub address : String
  pub name : Option String
  pub local_name : Option String
  pub service_uuids : List String

abbrev name_or : Option String → String → String
name_or none other = other
name_or (some s) other = if str_eq s "" then other else s

-- `_device_name`
unfoldable pub device_name : Advertised → String
device_name d = name_or d.name (name_or d.local_name "(unknown)")

-- whether it is a Birdie
unfoldable pub is_candidate : Advertised → Bool
is_candidate d = is_birdie_advertisement (some (device_name d)) d.service_uuids

module _ (text_le : String → String → Bool) where
  -- the order of the sort's keys
  unfoldable pub key_le : Advertised → Advertised → Bool
  key_le a b =
      if is_candidate a && not (is_candidate b)
      then true
      else if not (is_candidate a) && is_candidate b
      then false
      else if str_eq (device_name a) (device_name b)
      then text_le a.address b.address
      else text_le (device_name a) (device_name b)

  unfoldable pub place : Advertised → List Advertised → List Advertised
  place a [] = a ∷ []
  place a (b ∷ bs) = let rest = place a bs in if key_le a b then a ∷ b ∷ bs else b ∷ rest

  -- the devices of `scan_devices`, sorted
  unfoldable pub scan_devices : List Advertised → List Advertised
  scan_devices [] = []
  scan_devices (d ∷ ds) = place d (scan_devices ds)

-- `candidates`
unfoldable pub candidates : List Advertised → List String
candidates [] = []
candidates (d ∷ ds) = let rest = candidates ds in if is_candidate d then d.address ∷ rest else rest

abbrev pub has_candidate : List Advertised → Bool
has_candidate [] = false
has_candidate (d ∷ ds) = is_candidate d || has_candidate ds

-- No candidate stands after another device.
abbrev pub AreFirst : List Advertised → Type 0
AreFirst [] = Unit
AreFirst (d ∷ ds) = ((has_candidate ds && not (is_candidate d)) ≡ false) × AreFirst ds

abbrev pub how_many : (Advertised → Bool) → List Advertised → ℕ
how_many p [] = 0
how_many p (d ∷ ds) = (if p d then 1 else 0) + how_many p ds

module _ (text_le : String → String → Bool) where
  place-candidate :
      (d : Advertised) (ds : List Advertised)
      → has_candidate (place text_le d ds) ≡ (is_candidate d || has_candidate ds)
  unfolding place
  place-candidate d [] = refl
  place-candidate d (b ∷ bs) = ground (arith, place-candidate d bs)

  key_le-candidate :
      (a b : Advertised) → (key_le text_le a b && (is_candidate b && not (is_candidate a))) ≡ false
  unfolding key_le
  key_le-candidate a b = ground arith

  key_le-other :
      (a b : Advertised)
      → (not (key_le text_le a b) && (is_candidate a && not (is_candidate b))) ≡ false
  unfolding key_le
  key_le-other a b = ground arith

  place-AreFirst :
      (d : Advertised) (ds : List Advertised) → AreFirst ds → AreFirst (place text_le d ds)
  unfolding place
  place-AreFirst d [] h = ground arith
  place-AreFirst d (b ∷ bs) h = ground (
    arith,
    h,
    place-AreFirst d bs h.1,
    place-candidate d bs,
    key_le-candidate d b,
    key_le-other d b,
  )

  place-how_many :
      (p : Advertised → Bool) (d : Advertised) (ds : List Advertised)
      → how_many p (place text_le d ds) ≡ (if p d then 1 else 0) + how_many p ds
  unfolding place
  place-how_many p d [] = refl
  place-how_many p d (b ∷ bs) = ground (arith, place-how_many p d bs)

  -- A scan shows the devices that were seen, each as often as it was, and every candidate before every
  -- other device.
  pub scan_devices-first :
      (ds : List Advertised)
      → AreFirst (scan_devices text_le ds)
        × ((p : Advertised → Bool) → how_many p (scan_devices text_le ds) ≡ how_many p ds)
  unfolding scan_devices
  scan_devices-first [] = (tt, λ p. refl)
  scan_devices-first (d ∷ ds) =
      let (first, same) = scan_devices-first ds in
      (
        place-AreFirst d (scan_devices text_le ds) first,
        λ p. omega (arith, place-how_many p d (scan_devices text_le ds), same p),
      )
