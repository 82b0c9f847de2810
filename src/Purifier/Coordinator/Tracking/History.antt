-- ===== src/Purifier/Coordinator/Tracking/History.antt =====
-- Every history of a coordinator whose first refresh succeeded (purifier/coordinator.py).
use ha_birdie.Base.{
  ℕ, String, ◌≡◌, refl, sym, ◌∙◌, ap, Bool, true, false, not, ◌&&◌, Option, none, some, ◌∷◌, arith,
  if◌then◌else◌, is_some, str_eq,
}
use ha_birdie.Base.Result.{Result, ok, raised}
use ha_birdie.Dps.{Dps, Value}
use ha_birdie.Lan.Errors.{LanError}
use ha_birdie.Lan.Device.{LanDevice, Answer}
use ha_birdie.Lan.Device.Client.{async_set_dps, async_reconfigure, async_close, start}
use ha_birdie.Lan.Device.Loop.{Round, round}
use ha_birdie.Lan.Device.Heard.{After, After-IsLinked}
use ha_birdie.Lan.Device.Heard.Calls.{async_set_dps-After, async_reconfigure-IsLinked}
use ha_birdie.Lan.Device.Heard.Rounds.{round-IsLinked}
use ha_birdie.Purifier.Model.{PurifierState, apply_dps}
use ha_birdie.Purifier.Coordinator.{Coordinator, schedule_reload}
use ha_birdie.Purifier.Coordinator.Handlers.{
  fresh, settle, send_dps, sent, set_updated_data, async_start, shutdown, set_host, new_host,
  search_address, act,
}
use ha_birdie.Purifier.Coordinator.Tracking.{
  IsSettled, Tracks, fresh-IsLinked, settle-Tracks, settle-device,
}

-- a round of the device's loop, and the callbacks that it makes
abbrev pub loop_round : Round → ℕ → Coordinator → Coordinator
loop_round r backoff c = settle r.done_time (round r (backoff, fresh c.device)).1 c

module _ (bytes_form : String → String) where
  -- One operation of a coordinator, whatever it is given and whatever the device answers. A write has
  -- some data point.
  pub data Step : Coordinator → Coordinator → Type 0 where
    loops : (r : Round) (backoff : ℕ) (c : Coordinator) → Step c (loop_round r backoff c)
    writes :
        (e : String × Value) (d : Dps) (a : Answer) (now : ℕ) (c : Coordinator)
        → Step c (send_dps (e ∷ d) a now c).1
    moves : (host : String) (now : ℕ) (c : Coordinator) → Step c (set_host bytes_form host now c)
    searches :
        (host : Option String) (now : ℕ) (c : Coordinator)
        → Step c (search_address bytes_form host now c)
    starts : (c : Coordinator) → Step c (async_start c)
    stops : (c : Coordinator) → Step c (shutdown bytes_form c)

  -- Any number of operations.
  pub data Reaches : Coordinator → Coordinator → Type 0 where
    stays : (c : Coordinator) → Reaches c c
    goes : {c d e : Coordinator} → Step c d → Reaches d e → Reaches c e

frame :
    (c d : Coordinator)
    → d.data_seen ≡ c.data_seen
    → d.failure ≡ c.failure
    → d.device ≡ c.device
    → Tracks c
    → Tracks d
frame c d seen failed same h = record {
  shows = record {
    known = ap is_some seen ∙ h.shows.known;
    shown = ap is_some failed ∙ h.shows.shown ∙ ap (λ (t : LanDevice). not t.available) (sym same);
  };
  settled = record {
    listens = ap (λ (t : LanDevice). t.on_availability) same ∙ h.settled.listens;
    linked = ap (λ (t : LanDevice). is_some t.api && not t.available) same ∙ h.settled.linked;
  };
}

choose-Tracks : (b : Bool) (c d : Coordinator) → Tracks c → Tracks d → Tracks (if b then c else d)
choose-Tracks true c d hc hd = hc
choose-Tracks false c d hc hd = hd

loop_round-Tracks :
    (r : Round) (backoff : ℕ) (c : Coordinator) → Tracks c → Tracks (loop_round r backoff c)
loop_round-Tracks r backoff c h =
    settle-Tracks r.done_time (round r (backoff, fresh c.device)).1 c h (
      round-IsLinked c.device.available r backoff (fresh c.device)
        (fresh-IsLinked c.device h.settled))

pub updated-Tracks :
    (s : PurifierState) (c : Coordinator)
    → IsSettled c.device
    → c.device.available ≡ true
    → Tracks (set_updated_data s c)
updated-Tracks s c h live = record {
  shows = record { known = refl; shown = ap not (sym live) };
  settled = record { listens = h.listens; linked = h.linked };
}

expected-Tracks :
    (o : Option PurifierState) (dps : Dps) (c : Coordinator)
    → Tracks c
    → c.device.available ≡ true
    → Tracks (elim o [ none ↦ c | some s ↦ set_updated_data (apply_dps s dps) c ])
expected-Tracks none dps c h live = h
expected-Tracks (some s) dps c h live = updated-Tracks (apply_dps s dps) c h.settled live

sent-Tracks :
    (dps : Dps) (now : ℕ) (b : Bool) (r : Result LanError (Unit {0})) (d : LanDevice)
    (c : Coordinator)
    → Tracks (settle now d c)
    → After b (r, d)
    → Tracks (sent dps r (settle now d c)).1
sent-Tracks dps now b (ok u) d c h k =
    let live : (settle now d c).device.available ≡ true =
      ap (λ (t : LanDevice). t.available) (settle-device now d c) ∙ k.there in
    expected-Tracks (settle now d c).data_seen dps (settle now d c) h live
sent-Tracks dps now b (raised e) d c h k = h

send_dps-Tracks :
    (e : String × Value) (dps : Dps) (a : Answer) (now : ℕ) (c : Coordinator)
    → Tracks c
    → Tracks (send_dps (e ∷ dps) a now c).1
unfolding send_dps
send_dps-Tracks e dps a now c h =
    let b = c.device.available in
    let call = async_set_dps (e ∷ dps) a now (fresh c.device) in
    let after =
      async_set_dps-After b e dps a now (fresh c.device) (fresh-IsLinked c.device h.settled) in
    sent-Tracks (e ∷ dps) now b call.0 call.1 c
      (settle-Tracks now call.1 c h (After-IsLinked b call after)) after

module _ (bytes_form : String → String) where
  set_host-Tracks :
      (host : String) (now : ℕ) (c : Coordinator)
      → Tracks c
      → Tracks (set_host bytes_form host now c)
  unfolding set_host
  set_host-Tracks host now c h =
      let moved : Coordinator = record c { entry = record c.entry { host = host } } in
      let tracked : Tracks moved = frame c moved refl refl refl h in
      let device = (async_reconfigure bytes_form (new_host bytes_form host) (fresh c.device)).1 in
      choose-Tracks (str_eq host c.device.config.host) c _ h (
        choose-Tracks c.device.closed moved (settle now device moved) tracked (
          settle-Tracks now device moved tracked (
            async_reconfigure-IsLinked c.device.available bytes_form (new_host bytes_form host)
              (fresh c.device) (fresh-IsLinked c.device h.settled))))

  search_address-Tracks :
      (host : Option String) (now : ℕ) (c : Coordinator)
      → Tracks c
      → Tracks (search_address bytes_form host now c)
  unfolding search_address
  search_address-Tracks none now c h = frame c _ refl refl refl h
  search_address-Tracks (some host) now c h =
      let moved = set_host bytes_form host now c in
      let k = set_host-Tracks host now c h in
      let tried = if moved.loaded then moved else act schedule_reload moved in
      let t =
        choose-Tracks moved.loaded moved (act schedule_reload moved) k
          (frame moved _ refl refl refl k) in
      frame (if c.configured then tried else c) _ refl refl refl
        (choose-Tracks c.configured tried c t h)

  pub async_start-Tracks : (c : Coordinator) → Tracks c → Tracks (async_start c)
  unfolding async_start start
  async_start-Tracks c h = ground arith

  shutdown-Tracks : (c : Coordinator) → Tracks c → Tracks (shutdown bytes_form c)
  unfolding shutdown async_close
  shutdown-Tracks c h = ground arith

  Step-Tracks : {c d : Coordinator} → Step bytes_form c d → Tracks c → Tracks d
  Step-Tracks (loops r backoff c) h = loop_round-Tracks r backoff c h
  Step-Tracks (writes e d a now c) h = send_dps-Tracks e d a now c h
  Step-Tracks (moves host now c) h = set_host-Tracks host now c h
  Step-Tracks (searches host now c) h = search_address-Tracks host now c h
  Step-Tracks (starts c) h = async_start-Tracks c h
  Step-Tracks (stops c) h = shutdown-Tracks c h

  pub Reaches-Tracks : {c d : Coordinator} → Reaches bytes_form c d → Tracks c → Tracks d
  Reaches-Tracks (stays c) h = h
  Reaches-Tracks (goes x r) h = Reaches-Tracks r (Step-Tracks x h)
