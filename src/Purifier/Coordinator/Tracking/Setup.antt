-- ===== src/Purifier/Coordinator/Tracking/Setup.antt =====
-- A coordinator that was set up follows its device (purifier/coordinator.py).
use ha_birdie.Base.{
  ℕ, String, ◌≡◌, refl, Bool, true, false, Option, none, some, if◌then◌else◌, str_eq, leb, ◌+◌,
}
use ha_birdie.Base.Result.{Result, ok, raised}
use ha_birdie.Dps.{Dps}
use ha_birdie.Lan.Errors.{LanError, is_key_error, is_unreachable}
use ha_birdie.Lan.Device.{LanDevice}
use ha_birdie.Lan.Device.Worker.{Attempt}
use ha_birdie.Lan.Device.Client.{async_connect, init}
use ha_birdie.Lan.Device.Heard.{IsLinked, After-IsLinked}
use ha_birdie.Lan.Device.Heard.Calls.{async_connect-After, async_reconfigure-IsLinked}
use ha_birdie.Purifier.Coordinator.{Coordinator, EntryData, key_failures_before_reauth}
use ha_birdie.Purifier.Coordinator.Handlers.{
  fresh, settle, with_device, set_host, new_host, create, note_reached, note_unreached,
}
use ha_birdie.Purifier.Coordinator.Setup.{
  Outside, async_setup, conclude, connect_following, after_first, retry, follow_announced,
}
use ha_birdie.Purifier.Coordinator.Tracking.{
  IsSettled, fresh-IsLinked, IsLinked-IsSettled, settle-device, note_unreached-same,
}

pub settle-IsSettled :
    (now : ℕ) (b : Bool) (d : LanDevice) (c : Coordinator)
    → IsLinked b d
    → IsSettled (settle now d c).device
settle-IsSettled now b d c h = rw (settle-device now d c) (IsLinked-IsSettled b d h)

same-IsSettled : (c d : Coordinator) → d.device ≡ c.device → IsSettled c.device → IsSettled d.device
same-IsSettled c d e h = rw e h

choose-IsSettled :
    (b : Bool) (c d : Coordinator)
    → IsSettled c.device
    → IsSettled d.device
    → IsSettled (if b then c else d).device
choose-IsSettled true c d hc hd = hc
choose-IsSettled false c d hc hd = hd

choose-second :
    {A : Type 0} (b : Bool) (p q : A × Coordinator)
    → IsSettled (p.1).device
    → IsSettled (q.1).device
    → IsSettled ((if b then p else q).1).device
choose-second true p q hp hq = hp
choose-second false p q hp hq = hq

module _ (bytes_form : String → String) where
  pub create-IsSettled :
      (e : EntryData) (c : Coordinator) → IsSettled (create bytes_form e c).device
  unfolding create init
  create-IsSettled e c = record { listens = refl; linked = refl }

  set_host-IsSettled :
      (host : String) (now : ℕ) (c : Coordinator)
      → IsSettled c.device
      → IsSettled (set_host bytes_form host now c).device
  unfolding set_host
  set_host-IsSettled host now c h = choose-IsSettled (str_eq host c.device.config.host) c _ h (
      choose-IsSettled c.device.closed _ _ h (
        settle-IsSettled now c.device.available _ _ (
          async_reconfigure-IsLinked c.device.available bytes_form (new_host bytes_form host)
            (fresh c.device) (fresh-IsLinked c.device h))))

  follow_announced-IsSettled :
      (host : Option String) (now : ℕ) (c : Coordinator)
      → IsSettled c.device
      → IsSettled (follow_announced bytes_form host now c).1.device
  unfolding follow_announced
  follow_announced-IsSettled none now c h = h
  follow_announced-IsSettled (some host) now c h =
      choose-second (str_eq host c.device.config.host) (false, c)
        (true, set_host bytes_form host now c) h (set_host-IsSettled host now c h)

  connect-IsSettled :
      (respond : String → Attempt) (now : ℕ) (c : Coordinator)
      → IsSettled c.device
      → IsSettled (with_device now (async_connect respond now) c).1.device
  connect-IsSettled respond now c h =
      let call = async_connect respond now (fresh c.device) in
      settle-IsSettled now c.device.available call.1 c (
        After-IsLinked c.device.available call (
          async_connect-After c.device.available respond now (fresh c.device)
            (fresh-IsLinked c.device h)))

  retry-IsSettled :
      (o : Outside) (e : LanError) (b : Bool) (c : Coordinator)
      → IsSettled c.device
      → IsSettled (retry bytes_form o e (b, c)).1.device
  retry-IsSettled o e false c h = h
  retry-IsSettled o e true c h = connect-IsSettled o.second o.now c h

  after_first-IsSettled :
      (o : Outside) (r : Result LanError Dps) (c : Coordinator)
      → IsSettled c.device
      → IsSettled (after_first bytes_form o (r, c)).1.device
  after_first-IsSettled o (ok d) c h = h
  after_first-IsSettled o (raised e) c h =
      let followed = follow_announced bytes_form o.announced o.now c in
      choose-second (is_unreachable e) _ (raised e, c)
        (retry-IsSettled o e followed.0 followed.1
          (follow_announced-IsSettled o.announced o.now c h))
        h

  conclude-IsSettled :
      (now : ℕ) (r : Result LanError Dps) (c : Coordinator)
      → IsSettled c.device
      → IsSettled (conclude bytes_form now (r, c)).1.device
  unfolding conclude note_reached
  conclude-IsSettled now (ok d) c h = record { listens = h.listens; linked = h.linked }
  conclude-IsSettled now (raised e) c h =
      choose-second (is_key_error e) _ (_, note_unreached now c)
        (choose-second (leb key_failures_before_reauth (c.setup_failures + 1)) (_, counted 0)
          (_, counted (c.setup_failures + 1)) (record { listens = h.listens; linked = h.linked })
          (record { listens = h.listens; linked = h.linked }))
        (same-IsSettled c (note_unreached now c) (note_unreached-same now c).2 h)
    where
      counted : ℕ → Coordinator
      counted n = record c { setup_failures = n }

  pub async_setup-IsSettled :
      (o : Outside) (c : Coordinator)
      → IsSettled c.device
      → IsSettled (async_setup bytes_form o c).1.device
  unfolding async_setup connect_following
  async_setup-IsSettled o c h =
      let first = with_device o.now (async_connect o.first o.now) c in
      let second = after_first bytes_form o first in
      conclude-IsSettled o.now second.0 second.1
        (after_first-IsSettled o first.0 first.1 (connect-IsSettled o.first o.now c h))
