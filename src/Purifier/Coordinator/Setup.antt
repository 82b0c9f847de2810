-- ===== src/Purifier/Coordinator/Setup.antt =====
-- `_async_setup` of the coordinator (purifier/coordinator.py): the first connection, and what its
-- failures come to.
use ha_birdie.Base.{
  ℕ, ◌+◌, ◌<◌, String, ◌≡◌, refl, Bool, true, false, Option, none, some, arith, str_eq, leb,
  if◌then◌else◌, ◌∙◌, ◌↔◌, List, [], ◌∷◌,
}
use mathlib.Core.List.{reverse}
use ha_birdie.Base.Result.{Result, ok, raised}
use ha_birdie.Dps.{Dps}
use ha_birdie.Lan.Errors.{LanError, is_key_error, is_unreachable}
use ha_birdie.Lan.Device.{LanDevice, Event, status, availability, error, sleep}
use ha_birdie.Lan.Device.Worker.{Attempt}
use ha_birdie.Lan.Device.Client.{async_connect}
use ha_birdie.Purifier.Coordinator.{
  Coordinator, Failure, key_rejected, device_gone, key_failures_before_reauth,
}
use ha_birdie.Purifier.Coordinator.Handlers.{
  set_host, with_device, note_reached, note_unreached, store_detected_version, settle, fresh,
  dispatch, on_status, on_availability, on_error,
}

-- `ConfigEntryAuthFailed` or `UpdateFailed`
pub data SetupError : Type 0 where
  auth_failed : SetupError
  update_failed : Failure → SetupError

-- What the outside does during a setup: the answers of the first connection, the host that the
-- purifier announces, if any, the answers at that host, and the clock.
pub record Outside : Type 0 where
  pub now : ℕ
  pub first : String → Attempt
  pub announced : Option String
  pub second : String → Attempt

-- the key was rejected
abbrev pub rejects : Result LanError Dps → Bool
rejects (ok d) = false
rejects (raised e) = is_key_error e

module _ (bytes_form : String → String) where
  -- `_async_follow_announced_host`
  unfoldable pub follow_announced : Option String → ℕ → Coordinator → Bool × Coordinator
  follow_announced none now c = (false, c)
  follow_announced (some host) now c =
      if str_eq host c.device.config.host
      then (false, c)
      else (true, set_host bytes_form host now c)

  abbrev pub retry : Outside → LanError → Bool × Coordinator → Result LanError Dps × Coordinator
  retry o e (false, c) = (raised e, c)
  retry o e (true, c) = with_device o.now (async_connect o.second o.now) c

  -- the inner `try`
  abbrev pub after_first :
      Outside → Result LanError Dps × Coordinator → Result LanError Dps × Coordinator
  after_first o (ok d, c) = (ok d, c)
  after_first o (raised e, c) =
      let tried = retry o e (follow_announced o.announced o.now c) in
      if is_unreachable e then tried else (raised e, c)

  unfoldable pub connect_following : Outside → Coordinator → Result LanError Dps × Coordinator
  connect_following o c = after_first o (with_device o.now (async_connect o.first o.now) c)

  -- the two `except` clauses, and the end of `_async_setup`
  unfoldable pub conclude :
      ℕ → Result LanError Dps × Coordinator → Result SetupError (Unit {0}) × Coordinator
  conclude now (ok d, c) =
      (ok tt, store_detected_version (note_reached (record c { setup_failures = 0 })))
  conclude now (raised e, c) =
      let counted = c.setup_failures + 1 in
      if is_key_error e
      then if leb key_failures_before_reauth counted
        then (raised auth_failed, record c { setup_failures = 0 })
        else (raised (update_failed key_rejected), record c { setup_failures = counted })
      else (raised (update_failed (device_gone c.device.config.host)), note_unreached now c)

  unfoldable pub async_setup : Outside → Coordinator → Result SetupError (Unit {0}) × Coordinator
  async_setup o c = conclude o.now (connect_following o c)

on_status-setup : (d : Dps) (c : Coordinator) → (on_status d c).setup_failures ≡ c.setup_failures
unfolding on_status
on_status-setup d c = refl

note_unreached-setup :
    (now : ℕ) (c : Coordinator) → (note_unreached now c).setup_failures ≡ c.setup_failures
unfolding note_unreached
note_unreached-setup now c = ground arith

on_availability-setup :
    (now : ℕ) (b : Bool) (e : Option LanError) (c : Coordinator)
    → (on_availability now b e c).setup_failures ≡ c.setup_failures
unfolding on_availability note_reached
on_availability-setup now true e c = ground arith
on_availability-setup now false e c = ground (arith, note_unreached-setup now c)

on_error-setup :
    (now : ℕ) (e : LanError) (c : Coordinator)
    → (on_error now e c).setup_failures ≡ c.setup_failures
unfolding on_error
on_error-setup now e c = ground (arith, note_unreached-setup now (record c { key_failures = 0 }))

dispatch-setup :
    (now : ℕ) (events : List Event) (c : Coordinator)
    → (dispatch now events c).setup_failures ≡ c.setup_failures
unfolding dispatch
dispatch-setup now [] c = refl
dispatch-setup now (status d ∷ events) c =
    dispatch-setup now events (on_status d c) ∙ on_status-setup d c
dispatch-setup now (availability b e ∷ events) c =
    dispatch-setup now events (on_availability now b e c) ∙ on_availability-setup now b e c
dispatch-setup now (error e ∷ events) c =
    dispatch-setup now events (on_error now e c) ∙ on_error-setup now e c
dispatch-setup now (sleep n ∷ events) c = dispatch-setup now events c

settle-setup :
    (now : ℕ) (d : LanDevice) (c : Coordinator) → (settle now d c).setup_failures ≡ c.setup_failures
unfolding settle
settle-setup now d c =
    dispatch-setup now (reverse d.events) (record c { device = record d { events = [] } })

choose-setup :
    (b : Bool) (p q : Coordinator) (n : ℕ)
    → p.setup_failures ≡ n
    → q.setup_failures ≡ n
    → (if b then p else q).setup_failures ≡ n
choose-setup true p q n hp hq = hp
choose-setup false p q n hp hq = hq

module _ (bytes_form : String → String) where
  set_host-setup :
      (h : String) (now : ℕ) (c : Coordinator)
      → (set_host bytes_form h now c).setup_failures ≡ c.setup_failures
  unfolding set_host
  set_host-setup h now c =
      choose-setup (str_eq h c.device.config.host) _ _ _ refl
        (choose-setup c.device.closed _ _ _ refl (settle-setup now _ _))

  follow-setup :
      (a : Option String) (now : ℕ) (c : Coordinator)
      → ((follow_announced bytes_form a now c).1).setup_failures ≡ c.setup_failures
  unfolding follow_announced
  follow-setup none now c = refl
  follow-setup (some h) now c = ground (arith, set_host-setup h now c)

  retry-setup :
      (o : Outside) (e : LanError) (b : Bool) (c : Coordinator)
      → ((retry bytes_form o e (b, c)).1).setup_failures ≡ c.setup_failures
  retry-setup o e false c = refl
  retry-setup o e true c = settle-setup o.now _ c

  after_first-setup :
      (o : Outside) (r : Result LanError Dps) (c : Coordinator)
      → ((after_first bytes_form o (r, c)).1).setup_failures ≡ c.setup_failures
  after_first-setup o (ok d) c = refl
  after_first-setup o (raised e) c =
      let f = follow_announced bytes_form o.announced o.now c in
      ground (arith, retry-setup o e f.0 f.1, follow-setup o.announced o.now c)

  connect-setup :
      (o : Outside) (c : Coordinator)
      → ((connect_following bytes_form o c).1).setup_failures ≡ c.setup_failures
  unfolding connect_following
  connect-setup o c =
      after_first-setup o (async_connect o.first o.now (fresh c.device)).0 _
      ∙ settle-setup o.now _ c

  conclude-failures :
      (now : ℕ) (r : Result LanError Dps) (c : Coordinator)
      → c.setup_failures < key_failures_before_reauth
      → ((conclude bytes_form now (r, c)).1.setup_failures < key_failures_before_reauth)
        × ((conclude bytes_form now (r, c)).0 ≡ raised auth_failed
            ↔ (rejects r ≡ true) × (c.setup_failures ≡ 2))
  unfolding conclude note_reached
  conclude-failures now (ok d) c h = ground arith
  conclude-failures now (raised e) c h = ground (arith, note_unreached-setup now c)

  -- A count of a setup's key rejections that is below three stays below three, and the setup then asks
  -- for a new key exactly if the key was rejected in this attempt and the count stood at two.
  pub async_setup-auth :
      (o : Outside) (c : Coordinator)
      → c.setup_failures < key_failures_before_reauth
      → (((async_setup bytes_form o c).1).setup_failures < key_failures_before_reauth)
        × ((async_setup bytes_form o c).0 ≡ raised auth_failed
            ↔ (rejects (connect_following bytes_form o c).0 ≡ true) × (c.setup_failures ≡ 2))
  unfolding async_setup
  async_setup-auth o c h =
      let e = connect-setup o c in
      let r = connect_following bytes_form o c in rw e at (conclude-failures o.now r.0 r.1 (rw e h))
