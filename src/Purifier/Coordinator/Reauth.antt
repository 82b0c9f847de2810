-- ===== src/Purifier/Coordinator/Reauth.antt =====
-- When a new key is asked for, and when that is taken back (purifier/coordinator.py,
-- `_async_on_error`, `_async_on_availability`).
use ha_birdie.Base.{
  ℕ, ◌+◌, String, ◌≡◌, refl, true, false, Option, none, List, [], ◌∷◌, arith, length, leb,
  if◌then◌else◌,
}
use ha_birdie.Lan.Errors.{LanError, invalid_local_key, is_key_error}
use ha_birdie.Purifier.Coordinator.{
  Coordinator, Action, start_reauth, abort_flow, start_search, schedule_reload,
}
use ha_birdie.Purifier.Coordinator.Search.{note_reachable}
use ha_birdie.Purifier.Coordinator.Handlers.{
  on_error, on_availability, note_unreached, note_reached, abort_flows,
}

-- how often a new key was asked for
abbrev pub reauths : List Action → ℕ
reauths [] = 0
reauths (start_reauth ∷ actions) = reauths actions + 1
reauths (abort_flow id ∷ actions) = reauths actions
reauths (start_search ∷ actions) = reauths actions
reauths (schedule_reload ∷ actions) = reauths actions

-- The key is rejected at each of these times, and nothing else happens.
unfoldable pub reject_all : List ℕ → Coordinator → Coordinator
reject_all [] c = c
reject_all (now ∷ times) c = reject_all times (on_error now invalid_local_key c)

-- a count that goes from `k` by `n` passes three
abbrev passes : ℕ → ℕ → ℕ
passes k n = if leb 3 k then 0 else if leb 3 (k + n) then 1 else 0

reject-step :
    (now : ℕ) (c : Coordinator)
    → ((on_error now invalid_local_key c).key_failures ≡ c.key_failures + 1)
      × (reauths (on_error now invalid_local_key c).actions
          ≡ reauths c.actions + passes c.key_failures 1)
unfolding on_error
reject-step now c = ground arith

reject_all-passes :
    (times : List ℕ) (c : Coordinator)
    → ((reject_all times c).key_failures ≡ c.key_failures + length times)
      × (reauths (reject_all times c).actions
          ≡ reauths c.actions + passes c.key_failures (length times))
unfolding reject_all
reject_all-passes [] c = ground arith
reject_all-passes (now ∷ times) c =
    ground (arith, reject-step now c, reject_all-passes times (on_error now invalid_local_key c))

-- After a success, a key that is rejected again and again is counted, and a new key is asked for
-- once: at the third rejection, not before, and not again.
pub reject_all-reauth :
    (times : List ℕ) (c : Coordinator)
    → c.key_failures ≡ 0
    → ((reject_all times c).key_failures ≡ length times)
      × (reauths (reject_all times c).actions
          ≡ reauths c.actions + (if leb 3 (length times) then 1 else 0))
reject_all-reauth times c h = ground (arith, reject_all-passes times c)

note_unreached-reauths :
    (now : ℕ) (c : Coordinator)
    → (reauths (note_unreached now c).actions ≡ reauths c.actions)
      × ((note_unreached now c).key_failures ≡ c.key_failures)
unfolding note_unreached
note_unreached-reauths now c = ground arith

abort_flows-reauths :
    (ids : List String) (actions : List Action)
    → reauths (abort_flows ids actions) ≡ reauths actions
unfolding abort_flows
abort_flows-reauths [] actions = refl
abort_flows-reauths (id ∷ ids) actions = abort_flows-reauths ids (abort_flow id ∷ actions)

-- Any other error ends the count of rejections and asks for no key.
pub on_error-resets :
    (now : ℕ) (e : LanError) (c : Coordinator)
    → is_key_error e ≡ false
    → ((on_error now e c).key_failures ≡ 0)
      × (reauths (on_error now e c).actions ≡ reauths c.actions)
unfolding on_error
on_error-resets now e c h =
    ground (arith, note_unreached-reauths now (record c { key_failures = 0 }))

-- A purifier that becomes available ends the count and the search bookkeeping, asks for no key,
-- and aborts every request for a key that is still open.
pub on_availability-available :
    (now : ℕ) (e : Option LanError) (c : Coordinator)
    → let c' = on_availability now true e c in
      (c'.key_failures ≡ 0)
      × (c'.flows ≡ [])
      × (c'.search.unreachable_since ≡ none)
      × (c'.search.next_search ≡ none)
      × (reauths c'.actions ≡ reauths c.actions)
      × (c'.actions ≡ abort_flows c.flows c.actions)
unfolding on_availability note_reached note_reachable
on_availability-available now e c = ground (arith, abort_flows-reauths c.flows c.actions)
