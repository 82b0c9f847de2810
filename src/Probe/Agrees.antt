-- ===== src/Probe/Agrees.antt =====
-- The probe reads what the integration reads, and stops what it subscribed to (tools/birdie_probe.py,
-- custom_components/birdie/client.py).
use ha_birdie.Base.{
  String, ◌≡◌, refl, ap, sym, ◌∙◌, Bool, true, false, Option, none, some, List, [], ◌∷◌, ◌++◌,
  arith, if◌then◌else◌,
}
use mathlib.Core.List.{append-nil}
use ha_birdie.Base.Result.{Result, ok, raised}
use ha_birdie.Ble.Const.{notify_uuids, read_uuids}
use ha_birdie.Ble.Parse.{Bytes, ParseError, Change, parse_characteristic_values}
use ha_birdie.Ble.Parse.Known.{
  Fact, nothing, reading_fact, change_fact, facts, parse_known_characteristic, parse_known-agrees,
}
use ha_birdie.Ble.Client.{
  kept, taken, BleError, ble_error, Characteristic, BleClient, Services, is_connected,
  get_characteristic, read_uuid, values_of, read_all, read_initial,
}
use ha_birdie.Probe.{
  Report, not_readable, read_failed, was_read, report, read_one, read_each,
  read_known_characteristics, Request, start_notify, stop_notify, can_notify, subscribe,
  stop_notifications, subscribe_notifications,
}

-- the facts that a reading, or the changes of one characteristic, tell
abbrev pub told_by : Result ParseError Fact → List Fact
told_by (ok nothing) = []
told_by (ok f) = f ∷ []
told_by (raised e) = []

-- the facts in a list of reports
abbrev pub facts_of : Report → List Fact
facts_of (was_read d r) = told_by (facts reading_fact r)
facts_of _ = []

abbrev pub reported : List (String × Report) → List Fact
reported [] = []
reported ((u, r) ∷ rs) = facts_of r ++ reported rs

-- the facts of changes
abbrev pub changed : List Change → List Fact
changed [] = []
changed (c ∷ cs) = change_fact (some c) ∷ changed cs

changed-append : (cs ds : List Change) → changed (cs ++ ds) ≡ changed cs ++ changed ds
changed-append [] ds = refl
changed-append (c ∷ cs) ds = ap (λ fs. change_fact (some c) ∷ fs) (changed-append cs ds)

kept-told :
    (r : Result ParseError (Option Change)) → changed (kept r) ≡ told_by (facts change_fact r)
kept-told (raised e) = refl
kept-told (ok none) = refl
kept-told (ok (some c)) = ground arith

module _ (b : BleClient) (s : Services) (reads : String → Option Bytes)
    (there : is_connected b ≡ true) (have : b.services ≡ some s) where
  abbrev known : Option Characteristic → Option Bytes → Result BleError Bytes
  known none o = raised ble_error
  known (some c) o =
      if c.readable then elim o [ none ↦ raised ble_error | some d ↦ ok d ] else raised ble_error

  read_uuid-known : (uuid : String) → read_uuid reads uuid b ≡ known (s uuid) (reads uuid)
  unfolding read_uuid get_characteristic
  read_uuid-known uuid = go (s uuid) refl
    where
      go : (o : Option Characteristic) → s uuid ≡ o → read_uuid reads uuid b ≡ known o (reads uuid)
      go none h = rw (there, have, h) refl
      go (some c) h = rw (there, have, h) refl

  known-told :
      (uuid : String) (readable : Bool) (o : Option Bytes)
      → changed (
          taken uuid (
            if readable
            then elim o [ none ↦ raised ble_error | some d ↦ ok d ]
            else raised ble_error))
        ≡ facts_of (
            if readable
            then elim o [
              | none ↦ read_failed
              | some d ↦ was_read d (parse_known_characteristic uuid d)
            ]
            else not_readable)
  known-told uuid false o = refl
  known-told uuid true none = refl
  known-told uuid true (some d) =
      kept-told (parse_characteristic_values uuid d) ∙ ap told_by (sym (parse_known-agrees uuid d))

  report-told :
      (uuid : String) (o : Option Characteristic)
      → changed (taken uuid (known o (reads uuid))) ≡ facts_of (report uuid o (reads uuid))
  report-told uuid none = refl
  report-told uuid (some c) = known-told uuid c.readable (reads uuid)

  values_of-told :
      (uuid : String) → changed (values_of reads b uuid) ≡ facts_of (read_one s reads uuid)
  unfolding values_of read_one
  values_of-told uuid =
      ap (λ r. changed (taken uuid r)) (read_uuid-known uuid) ∙ report-told uuid (s uuid)

  read_all-told :
      (us : List String) → changed (read_all reads b us) ≡ reported (read_each s reads us)
  unfolding read_all read_each
  read_all-told [] = refl
  read_all-told (u ∷ us) =
      changed-append (values_of reads b u) (read_all reads b us)
      ∙ ap (λ fs. fs ++ changed (read_all reads b us)) (values_of-told u)
      ∙ ap (λ fs. facts_of (read_one s reads u) ++ fs) (read_all-told us)

  -- On a connected device the probe reports the facts that the integration reads after it connects, in
  -- the same order.
  pub read_known-agrees :
      changed (read_initial reads b) ≡ reported (read_known_characteristics s reads)
  read_known-agrees = read_all-told read_uuids

-- the characteristics that are asked to notify, and to stop it
abbrev pub started : List Request → List String
started [] = []
started (start_notify u ∷ rs) = u ∷ started rs
started (stop_notify u ∷ rs) = started rs

abbrev pub stopped : List Request → List String
stopped [] = []
stopped (start_notify u ∷ rs) = stopped rs
stopped (stop_notify u ∷ rs) = u ∷ stopped rs

unfoldable pub keep : (String → Bool) → List String → List String
keep p [] = []
keep p (u ∷ us) = if p u then u ∷ keep p us else keep p us

started-append : (rs qs : List Request) → started (rs ++ qs) ≡ started rs ++ started qs
started-append [] qs = refl
started-append (start_notify u ∷ rs) qs = ap (λ us. u ∷ us) (started-append rs qs)
started-append (stop_notify u ∷ rs) qs = started-append rs qs

stopped-append : (rs qs : List Request) → stopped (rs ++ qs) ≡ stopped rs ++ stopped qs
stopped-append [] qs = refl
stopped-append (start_notify u ∷ rs) qs = stopped-append rs qs
stopped-append (stop_notify u ∷ rs) qs = ap (λ us. u ∷ us) (stopped-append rs qs)

stop-stopped :
    (us : List String)
    → (stopped (stop_notifications us) ≡ us) × (started (stop_notifications us) ≡ [])
unfolding stop_notifications
stop-stopped [] = (refl, refl)
stop-stopped (u ∷ us) = let h = stop-stopped us in (ap (λ us. u ∷ us) h.0, h.1)

module _ (services : Services) (works : String → Bool) where
  subscribe-lists :
      (us : List String)
      → let r = subscribe services works us in
        (started r.0 ≡ keep (can_notify services) us)
        × (stopped r.0 ≡ [])
        × (r.1 ≡ keep works (started r.0))
  unfolding subscribe keep
  subscribe-lists [] = (refl, refl, refl)
  subscribe-lists (u ∷ us) = ground (arith, subscribe-lists us)

  subscribe-stops :
      (us : List String)
      → let r = subscribe services works us in
        let rs = r.0 ++ stop_notifications r.1 in
        (started rs ≡ keep (can_notify services) us) × (stopped rs ≡ keep works (started rs))
  subscribe-stops us =
      let r = subscribe services works us in
      let h = subscribe-lists us in
      let stops = stop-stopped r.1 in
      let only =
        started-append r.0 (stop_notifications r.1)
        ∙ ap (λ us. started r.0 ++ us) stops.1
        ∙ append-nil (started r.0) in
      (
        only ∙ h.0,
        stopped-append r.0 (stop_notifications r.1)
            ∙ ap (λ us. us ++ stopped (stop_notifications r.1)) h.1
            ∙ stops.0
            ∙ h.2
            ∙ ap (keep works) (sym only),
      )

  -- Every characteristic that can notify is asked to, in order, and exactly those of which this works
  -- are asked to stop in the end.
  pub subscribe_notifications-stops :
      let rs = subscribe_notifications services works in
      (started rs ≡ keep (can_notify services) notify_uuids)
      × (stopped rs ≡ keep works (started rs))
  unfolding subscribe_notifications
  subscribe_notifications-stops = subscribe-stops notify_uuids
