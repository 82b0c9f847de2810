-- ===== src/ConfigFlow/Bluetooth/Offers.antt =====
-- Which devices the dialogue offers after a scan (config_flow.py).
use ha_birdie.Base.{
  String, ◌≡◌, refl, ap, Bool, true, false, not, ◌&&◌, ◌||◌, Bool-cases, inl, inr, List, [], ◌∷◌,
  arith, str_eq, str_eq_iff, contains,
}
use ha_birdie.Base.Dict.{Dict, lookup, has_key, insert, lookup-insert}
use ha_birdie.Ble.Names.{normalize_address}
use ha_birdie.ConfigFlow.Bluetooth.{
  Advertisement, is_supported, discovery_title, add_discovery, add_discoveries, collect_cached,
  scan_for_devices,
}

-- some supported advertisement has the address, in its normal form
abbrev pub advertised : List Advertisement → String → Bool
advertised [] address = false
advertised (info ∷ infos) address =
    (str_eq (normalize_address info.address) address && is_supported info)
    || advertised infos address

module _ (current_ids : List String) where
  has_key-add_discovery :
      (info : Advertisement) (devices : Dict String) (a : String)
      → has_key a (add_discovery current_ids info devices).1 ≡ (
          has_key a devices
          || (not (contains current_ids a)
              && (str_eq (normalize_address info.address) a && is_supported info)))
  unfolding add_discovery
  has_key-add_discovery info devices a =
      elim (Bool-cases (str_eq (normalize_address info.address) a)) [
        | inl e ↦
            let same : normalize_address info.address ≡ a = (str_eq_iff _ _).0 e in
            ground (
              arith,
              ap (contains current_ids) same,
              ap (λ b. lookup b devices) same,
              lookup-insert (normalize_address info.address) a (discovery_title info) devices,
            )
        | inr e ↦
            ground (
              arith,
              lookup-insert (normalize_address info.address) a (discovery_title info) devices,
            )
      ]

  -- what a list of advertisements adds
  pub has_key-add_discoveries :
      (infos : List Advertisement) (devices : Dict String) (a : String)
      → has_key a (add_discoveries current_ids infos devices)
        ≡ (has_key a devices || (not (contains current_ids a) && advertised infos a))
  unfolding add_discoveries
  has_key-add_discoveries [] devices a = ground arith
  has_key-add_discoveries (info ∷ infos) devices a =
      let rest = has_key-add_discoveries infos (add_discovery current_ids info devices).1 a in
      let first = has_key-add_discovery info devices a in ground arith

  -- some supported advertisement is of a device that is not set up
  abbrev pub some_new : List Advertisement → Bool
  some_new [] = false
  some_new (info ∷ infos) =
      (not (contains current_ids (normalize_address info.address)) && is_supported info)
      || some_new infos

  abbrev is_nil : Dict String → Bool
  is_nil [] = true
  is_nil (d ∷ ds) = false

  is_nil-insert : (k v : String) (devices : Dict String) → is_nil (insert k v devices) ≡ false
  unfolding insert
  is_nil-insert k v [] = refl
  is_nil-insert k v ((j, w) ∷ devices) = ground arith

  is_nil-add_discovery :
      (info : Advertisement) (devices : Dict String)
      → is_nil (add_discovery current_ids info devices).1 ≡ (
          is_nil devices
          && not (not (contains current_ids (normalize_address info.address)) && is_supported info))
  unfolding add_discovery lookup
  is_nil-add_discovery info [] =
      ground (arith, is_nil-insert (normalize_address info.address) (discovery_title info) [])
  is_nil-add_discovery info (d ∷ ds) =
      ground (arith, is_nil-insert (normalize_address info.address) (discovery_title info) (d ∷ ds))

  is_nil-add_discoveries :
      (infos : List Advertisement) (devices : Dict String)
      → is_nil (add_discoveries current_ids infos devices)
        ≡ (is_nil devices && not (some_new infos))
  unfolding add_discoveries
  is_nil-add_discoveries [] devices = ground arith
  is_nil-add_discoveries (info ∷ infos) devices =
      let rest = is_nil-add_discoveries infos (add_discovery current_ids info devices).1 in
      let first = is_nil-add_discovery info devices in ground arith

  advertised-some_new :
      (infos : List Advertisement) (a : String)
      → some_new infos ≡ false
      → (not (contains current_ids a) && advertised infos a) ≡ false
  advertised-some_new [] a h = ground arith
  advertised-some_new (info ∷ infos) a h =
      let rest = advertised-some_new infos a (ground arith) in
      elim (Bool-cases (str_eq (normalize_address info.address) a)) [
        | inl e ↦
            let same : normalize_address info.address ≡ a = (str_eq_iff _ _).0 e in
            ground (arith, ap (contains current_ids) same)
        | inr e ↦ ground arith
      ]

  module _ (connectable others heard : List Advertisement) where
    scan_cases :
        (cached : Dict String) (a : String)
        → has_key a (elim cached [ [] ↦ add_discoveries current_ids heard [] | d ∷ ds ↦ d ∷ ds ])
          ≡ (has_key a cached
              || (is_nil cached && (not (contains current_ids a) && advertised heard a)))
    unfolding lookup
    scan_cases [] a = ground (arith, has_key-add_discoveries heard [] a)
    scan_cases (d ∷ ds) a = ground arith

    -- A scan of a new dialogue offers an address exactly if no entry has it and a supported
    -- advertisement does, in its normal form: one that Home Assistant knew, or, where no new device
    -- was among those, one that was heard.
    pub scan_for_devices-offers :
        (a : String)
        → has_key a (scan_for_devices current_ids connectable others heard []) ≡ (
            not (contains current_ids a)
            && ((advertised connectable a || advertised others a)
                || (not (some_new connectable || some_new others) && advertised heard a)))
    unfolding scan_for_devices collect_cached lookup
    scan_for_devices-offers a =
        let first = add_discoveries current_ids connectable [] in
        let cached = add_discoveries current_ids others first in
        let shown = scan_cases cached a in
        let has_cached = has_key-add_discoveries others first a in
        let has_first = has_key-add_discoveries connectable [] a in
        let nil_cached = is_nil-add_discoveries others first in
        let nil_first = is_nil-add_discoveries connectable [] in ground arith
