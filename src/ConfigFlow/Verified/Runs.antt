-- ===== src/ConfigFlow/Verified/Runs.antt =====
-- What a whole dialogue stores, whatever the order of its steps (config_flow.py).
use mathlib.Core.Option.{some-injective}
use ha_birdie.Base.{
  String, ◌≡◌, refl, sym, ◌∙◌, ap, ◌⊎◌, inl, inr, Option, none, some, List, [], ◌∷◌,
}
use ha_birdie.Lan.Redact.{Secrets, count}
use ha_birdie.Lan.Search.Find.{FoundDevice}
use ha_birdie.Lan.Search.Find.Tries.{IsFound}
use ha_birdie.Purifier.Discovery.Network.{search_network-IsFound, search_network-secrets}
use ha_birdie.ConfigFlow.{NetworkSearch, Flow, new_flow, Task, pending, failed, done, Outside}
use ha_birdie.ConfigFlow.Purifier.{step_search}
use ha_birdie.ConfigFlow.Run.{
  FlowCall, Network, purifier_step, pick_step, integration_discovery_step, key_step, not_found_step,
  manual_step, search_waits, search_fails, search_found_step, search_ends, reauth_confirm_step,
  reconfigure_step, sought, result_of, after_search, flow_step, run_flow,
}
use ha_birdie.ConfigFlow.Verified.{Sound}
use ha_birdie.ConfigFlow.Verified.Steps.{
  StepOk, FlowOk, step_key-Ok, step_discovered-Ok, search_for-Ok,
}
use ha_birdie.ConfigFlow.Verified.Manual.{
  step_search_found-Ok, step_manual-Ok, step_pick-Ok, step_purifier-Ok,
}
use ha_birdie.ConfigFlow.Verified.Changes.{step_reauth_confirm-Ok, step_reconfigure-Ok}

module _ (Occurs : Outside → Type 0) (start : Secrets) (bytes_form : String → String) (o : Outside)
    (occurs : Occurs o) where
  step_search-Ok :
      (task : Task (Option FoundDevice)) (f : Flow)
      → ((s : NetworkSearch) (d : FoundDevice)
          → f.search ≡ some s
          → task ≡ done (some d)
          → (p : Outside) × Occurs p × IsFound (sought p s) d)
      → FlowOk Occurs start f
      → StepOk Occurs start o (step_search bytes_form o task f)
  unfolding step_search
  step_search-Ok task f known h =
      search_for-Ok Occurs start bytes_form o occurs task f.search f h.0 known h

  after_search-Ok :
      (n : Network) (s : Option NetworkSearch) (f : Flow)
      → f.search ≡ s
      → FlowOk Occurs start f
      → StepOk Occurs start o (after_search bytes_form o n s f)
  after_search-Ok n none f e h = (tt, h)
  after_search-Ok n (some s) f e h =
      let r = result_of bytes_form o n s f.secrets in
      step_search-Ok (done r.0) (record f { secrets = r.1 })
        (λ t d same found.
          let t_s : s ≡ t = some-injective s t (sym e ∙ same) in
          (
            o,
            occurs,
            rw (← t_s) (
                search_network-IsFound bytes_form n.accepts n.order (sought o s) n.address_text
                  n.adapters f.secrets d (ap (λ (t : Task (Option FoundDevice)). result t) found)),
          ))
        (
          h.0,
          λ k.
              search_network-secrets bytes_form n.accepts n.order (sought o s) n.address_text
                n.adapters f.secrets k
              ∙ h.1 k,
        )
    where
      result : Task (Option FoundDevice) → Option FoundDevice
      result pending = none
      result failed = none
      result (done d) = d

  -- each step
  pub flow_step-Ok :
      (c : FlowCall) (f : Flow)
      → FlowOk Occurs start f
      → StepOk Occurs start o (flow_step bytes_form o c f)
  unfolding flow_step
  flow_step-Ok (purifier_step task) f h = step_purifier-Ok Occurs start bytes_form o occurs task f h
  flow_step-Ok (pick_step choice) f h = step_pick-Ok Occurs start bytes_form o occurs choice f h
  flow_step-Ok (integration_discovery_step d) f h =
      step_discovered-Ok Occurs start bytes_form o occurs d f h
  flow_step-Ok (key_step input) f h = step_key-Ok Occurs start bytes_form o occurs input f h
  flow_step-Ok (not_found_step input) f h =
      step_manual-Ok Occurs start bytes_form o occurs "purifier_not_found" input f h
  flow_step-Ok (manual_step input) f h =
      step_manual-Ok Occurs start bytes_form o occurs "purifier_manual" input f h
  flow_step-Ok search_waits f h = step_search-Ok pending f (λ s d e found. cc) h
  flow_step-Ok search_fails f h = step_search-Ok failed f (λ s d e found. cc) h
  flow_step-Ok (search_ends n) f h = after_search-Ok n f.search f refl h
  flow_step-Ok search_found_step f h = step_search_found-Ok Occurs start bytes_form o occurs f h
  flow_step-Ok (reauth_confirm_step e input) f h =
      step_reauth_confirm-Ok Occurs start bytes_form o occurs e input f h
  flow_step-Ok (reconfigure_step e input) f h =
      step_reconfigure-Ok Occurs start bytes_form o occurs e input f h

-- the outsides of the steps
abbrev pub OccursIn : List (Outside × FlowCall) → Outside → Type 0
OccursIn [] p = ⊥
OccursIn ((o, c) ∷ calls) p = (o ≡ p) ⊎ OccursIn calls p

module _ (bytes_form : String → String) (secrets : Secrets) where
  run_flow-Ok :
      (Occurs : Outside → Type 0) (calls : List (Outside × FlowCall)) (f : Flow)
      → ((p : Outside) → OccursIn calls p → Occurs p)
      → FlowOk Occurs secrets f
      → FlowOk Occurs secrets (run_flow bytes_form calls f)
  unfolding run_flow
  run_flow-Ok Occurs [] f m h = h
  run_flow-Ok Occurs ((o, c) ∷ calls) f m h =
      run_flow-Ok Occurs calls (flow_step bytes_form o c f).1 (λ p i. m p (inr i))
        (flow_step-Ok Occurs secrets bytes_form o (m o (inl refl)) c f h).1

  -- Whatever the steps of a new dialogue are, and in whatever order: if the last one adds an entry,
  -- its id is the device's and no entry has it, and if it adds one, or changes one by a new key or a
  -- reconfiguration, the entry's device accepted its key at its host, in the outside of one of the
  -- steps, and the version that is stored is the accepted one unless that was empty. A new entry's
  -- device is a podium, by its product key or by what it answered. Where an announcement moves an
  -- entry to another host, nothing is said of that host, but the id is one that has an entry.
  pub run_flow-Sound :
      (calls : List (Outside × FlowCall)) (o : Outside) (c : FlowCall)
      → Sound
          (OccursIn ((o, c) ∷ calls))
          o
          (flow_step bytes_form o c (run_flow bytes_form calls (new_flow secrets))).0
  run_flow-Sound calls o c =
      (flow_step-Ok (OccursIn ((o, c) ∷ calls)) secrets bytes_form o (inl refl) c _ (
        run_flow-Ok (OccursIn ((o, c) ∷ calls)) calls (new_flow secrets) (λ p i. inr i)
          (tt, λ k. refl))).0

  -- A dialogue leaves the registry of redacted secrets as it was.
  pub run_flow-secrets :
      (calls : List (Outside × FlowCall)) (k : String)
      → count k (run_flow bytes_form calls (new_flow secrets)).secrets ≡ count k secrets
  run_flow-secrets calls k =
      (run_flow-Ok (λ p. Unit) calls (new_flow secrets) (λ p i. tt) (tt, λ j. refl)).1 k
