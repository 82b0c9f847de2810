-- ===== src/ConfigFlow/Run.antt =====
-- A dialogue about an air purifier as a sequence of steps (config_flow.py). Home Assistant calls the
-- steps; in which order, and with which input, is left open. A search of the network that has ended is
-- the one of purifier/discovery.py.
use ha_birdie.Base.{ℕ, String, Bool, Option, none, some, List, [], ◌∷◌}
use ha_birdie.Base.Dict.{Dict}
use ha_birdie.Lan.Redact.{Secrets}
use ha_birdie.Lan.Discovery.{DiscoveredDevice}
use ha_birdie.Lan.Search.Find.{FoundDevice, Sought}
use ha_birdie.Purifier.Coordinator.{EntryData}
use ha_birdie.Purifier.Discovery.Network.{Adapter, search_network}
use ha_birdie.ConfigFlow.{
  ManualInput, NetworkSearch, Flow, FlowResult, crash, Task, pending, failed, done, Outside,
}
use ha_birdie.ConfigFlow.Purifier.{
  step_purifier, step_key, step_discovered, step_search, step_search_found, step_manual, step_pick,
}
use ha_birdie.ConfigFlow.Change.{Reconfigured, step_reauth_confirm, step_reconfigure}

-- The network during a search: its adapters, the text of an address, which addresses accept a
-- connection, and the order in which the tries end.
pub record Network : Type 0 where
  pub adapters : List Adapter
  pub address_text : ℕ → String
  pub accepts : String → Bool
  pub order : List String → List String

-- A call of a step with its input.
pub data FlowCall : Type 0 where
  purifier_step : Task (Dict DiscoveredDevice) → FlowCall
  pick_step : Option String → FlowCall
  integration_discovery_step : DiscoveredDevice → FlowCall
  key_step : Option String → FlowCall
  not_found_step manual_step : Option ManualInput → FlowCall
  search_waits search_fails search_found_step : FlowCall
  search_ends : Network → FlowCall
  reauth_confirm_step : EntryData → Option String → FlowCall
  reconfigure_step : Option EntryData → Option Reconfigured → FlowCall

-- what the search looks for
abbrev pub sought : Outside → NetworkSearch → Sought
sought o s = record {
  device_id = s.device_id;
  local_key = s.local_key;
  protocol_version = s.protocol_version;
  port = 6668;
  respond = o.respond s.device_id s.local_key;
  now = o.now;
}

module _ (bytes_form : String → String) where
  -- the search's task, and its result
  abbrev pub result_of : Outside → Network → NetworkSearch → Secrets → Option FoundDevice × Secrets
  result_of o n s secrets =
      search_network bytes_form n.accepts n.order (sought o s) n.address_text n.adapters secrets

  abbrev pub after_search : Outside → Network → Option NetworkSearch → Flow → FlowResult × Flow
  after_search o n none f = (crash, f)
  after_search o n (some s) f =
      let r = result_of o n s f.secrets in
      step_search bytes_form o (done r.0) (record f { secrets = r.1 })

  -- one step of a dialogue
  unfoldable pub flow_step : Outside → FlowCall → Flow → FlowResult × Flow
  flow_step o (purifier_step task) f = step_purifier o task f
  flow_step o (pick_step choice) f = step_pick bytes_form o choice f
  flow_step o (integration_discovery_step device) f = step_discovered bytes_form o device f
  flow_step o (key_step input) f = step_key bytes_form o input f
  flow_step o (not_found_step input) f = step_manual bytes_form o "purifier_not_found" input f
  flow_step o (manual_step input) f = step_manual bytes_form o "purifier_manual" input f
  flow_step o search_waits f = step_search bytes_form o pending f
  flow_step o search_fails f = step_search bytes_form o failed f
  flow_step o (search_ends n) f = after_search o n f.search f
  flow_step o search_found_step f = step_search_found bytes_form o f
  flow_step o (reauth_confirm_step entry input) f = step_reauth_confirm bytes_form o entry input f
  flow_step o (reconfigure_step entry input) f = step_reconfigure bytes_form o entry input f

  -- a dialogue after these steps, each in its outside
  unfoldable pub run_flow : List (Outside × FlowCall) → Flow → Flow
  unfolding flow_step
  run_flow [] f = f
  run_flow ((o, c) ∷ calls) f = run_flow calls (flow_step o c f).1
