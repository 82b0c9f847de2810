-- ===== src/ConfigFlow/Verified/Steps.antt =====
-- Each step of the dialogue stores only what was checked, and keeps the search's result to what was
-- found (config_flow.py).
use mathlib.Core.Option.{some-injective}
use ha_birdie.Base.{
  String, ◌≡◌, refl, ◌∙◌, ap, Bool, true, false, Bool-cases, inl, inr, Option, none, some, contains,
  if◌then◌else◌,
}
use ha_birdie.Lan.Device.{protocol_auto}
use ha_birdie.Lan.Redact.{Secrets, count}
use ha_birdie.Lan.Search.Find.{FoundDevice}
use ha_birdie.Lan.Search.Find.Tries.{IsFound}
use ha_birdie.Lan.Discovery.{DiscoveredDevice}
use ha_birdie.Purifier.Flow.{clean_local_key}
use ha_birdie.Purifier.Flow.Check.{check_connection-secrets}
use ha_birdie.ConfigFlow.{
  NetworkSearch, Flow, FlowResult, abort_moved, Task, pending, failed, done, Outside, is_podium,
  config_for, connection_checked,
}
use ha_birdie.ConfigFlow.Purifier.{
  after_check, step_key, step_discovered, searched, key_checked, key_for, search_for,
}
use ha_birdie.ConfigFlow.Run.{sought}
use ha_birdie.ConfigFlow.Verified.{Sound, connection_checked-Checked, answered-Sound}

module _ (Occurs : Outside → Type 0) where
  -- what a search has found was found in an outside that occurs, and is a podium
  pub record Located (s : NetworkSearch) (d : FoundDevice) : Type 0 where
    pub outside : Outside
    pub occurs : Occurs outside
    pub found : IsFound (sought outside s) d
    pub podium : is_podium (some d.dps) none ≡ true

  abbrev pub FoundOk : NetworkSearch → Option FoundDevice → Type 0
  FoundOk s none = Unit
  FoundOk s (some d) = Located s d

  abbrev pub SearchOk : Option NetworkSearch → Type 0
  SearchOk none = Unit
  SearchOk (some s) = FoundOk s s.found

  -- the search is as it should be, and the registry of secrets counts as at the start
  abbrev pub FlowOk : Secrets → Flow → Type 0
  FlowOk start f = SearchOk f.search × ((k : String) → count k f.secrets ≡ count k start)

  -- a step's result is sound, and the dialogue is as it should be
  abbrev pub StepOk : Secrets → Outside → FlowResult × Flow → Type 0
  StepOk start o (result, f) = Sound Occurs o result × FlowOk start f

module _ (Occurs : Outside → Type 0) (start : Secrets) (bytes_form : String → String) (o : Outside)
    (occurs : Occurs o) where
  pub choose-Ok :
      (b : Bool) (x y : FlowResult × Flow)
      → StepOk Occurs start o x
      → StepOk Occurs start o y
      → StepOk Occurs start o (if b then x else y)
  choose-Ok true x y hx hy = hx
  choose-Ok false x y hx hy = hy

  pub check-Ok :
      (step : String) (id host key version : String) (hint product_key : Option String) (f : Flow)
      → FlowOk Occurs start f
      → StepOk Occurs start o (
          after_check o step
            (config_for id host key version)
            product_key
            (connection_checked bytes_form o (config_for id host key version) hint f))
  check-Ok step id host key version hint product_key f h =
      let config = config_for id host key version in
      let r = connection_checked bytes_form o config hint f in
      (
        answered-Sound Occurs o step config product_key r.0 r.0.error occurs
            (connection_checked-Checked bytes_form o config hint f),
        (
          h.0,
          λ k.
              check_connection-secrets bytes_form config hint (o.respond id key host) o.now
                f.secrets k
              ∙ h.1 k,
        ),
      )

  key_checked-Ok :
      (d : DiscoveredDevice) (key : Option String) (f : Flow)
      → FlowOk Occurs start f
      → StepOk Occurs start o (key_checked bytes_form o d key f)
  key_checked-Ok d none f h = (tt, h)
  key_checked-Ok d (some key) f h =
      check-Ok "purifier_key" d.device_id d.host key protocol_auto d.protocol_version d.product_key
        f h

  key_for-Ok :
      (input : Option String) (d : Option DiscoveredDevice) (f : Flow)
      → FlowOk Occurs start f
      → StepOk Occurs start o (key_for bytes_form o input d f)
  key_for-Ok input none f h = (tt, h)
  key_for-Ok none (some d) f h = (tt, h)
  key_for-Ok (some text) (some d) f h = key_checked-Ok d (clean_local_key (some text)) f h

  pub step_key-Ok :
      (input : Option String) (f : Flow)
      → FlowOk Occurs start f
      → StepOk Occurs start o (step_key bytes_form o input f)
  unfolding step_key
  step_key-Ok input f h = key_for-Ok input f.purifier f h

  moved-Ok :
      (id host : String) (b : Bool) (y : FlowResult × Flow) (f : Flow)
      → contains o.configured id ≡ b
      → FlowOk Occurs start f
      → StepOk Occurs start o y
      → StepOk Occurs start o (if b then (abort_moved id host, f) else y)
  moved-Ok id host true y f e h k = (e, h)
  moved-Ok id host false y f e h k = k

  pub step_discovered-Ok :
      (d : DiscoveredDevice) (f : Flow)
      → FlowOk Occurs start f
      → StepOk Occurs start o (step_discovered bytes_form o d f)
  unfolding step_discovered
  step_discovered-Ok d f h =
      choose-Ok (o.in_progress d.device_id) _ _ (tt, h)
        (moved-Ok d.device_id d.host (contains o.configured d.device_id) _ f refl h
          (step_key-Ok none (record f { purifier = some d }) h))

  searched-Ok :
      (found : Option FoundDevice) (s : NetworkSearch) (f : Flow)
      → ((d : FoundDevice) → found ≡ some d → (p : Outside) × Occurs p × IsFound (sought p s) d)
      → ((k : String) → count k f.secrets ≡ count k start)
      → StepOk Occurs start o (searched bytes_form o found s f)
  searched-Ok none s f h i = (tt, (tt, i))
  searched-Ok (some d) s f h i = elim (Bool-cases (is_podium (some d.dps) none)) [
    | inl e ↦
        let (p, occurs_p, found) = h d refl in
        rw e (tt, (record { outside = p; occurs = occurs_p; found = found; podium = e }, i))
    | inr e ↦ rw e (tt, (tt, i))
  ]

  restart :
      (s : NetworkSearch) (d : Option FoundDevice)
      → FoundOk Occurs s d
      → FoundOk Occurs (record s { started = true }) d
  restart s none h = tt
  restart s (some d) h = record {
    outside = h.outside;
    occurs = h.occurs;
    found = h.found;
    podium = h.podium;
  }

  pub search_for-Ok :
      (task : Task (Option FoundDevice)) (s : Option NetworkSearch) (f : Flow)
      → SearchOk Occurs s
      → ((t : NetworkSearch) (d : FoundDevice)
          → s ≡ some t
          → task ≡ done (some d)
          → (p : Outside) × Occurs p × IsFound (sought p t) d)
      → FlowOk Occurs start f
      → StepOk Occurs start o (search_for bytes_form o task s f)
  search_for-Ok task none f h known i = (tt, i)
  search_for-Ok pending (some s) f h known i = (tt, (restart s s.found h, i.1))
  search_for-Ok failed (some s) f h known i = searched-Ok s.found s f (again s.found h) i.1
    where
      again :
          (found : Option FoundDevice)
          → FoundOk Occurs s found
          → (d : FoundDevice) → found ≡ some d
          → (p : Outside) × Occurs p × IsFound (sought p s) d
      again none h d e = cc
      again (some g) h d e = rw (← some-injective g d e) (h.outside, h.occurs, h.found)
  search_for-Ok (done found) (some s) f h known i =
      searched-Ok found s f (λ d e. known s d refl (ap done e)) i.1
