-- ===== src/Lan/Device/Status.antt =====
-- How status reports are merged and when the listener hears of them, and what a silent device
-- costs (lan/device.py, `_handle_dps`, `_step`).
use ha_birdie.Base.{
  ℕ, ◌+◌, ◌<◌, String, ◌≡◌, refl, Bool, true, false, some, List, [], ◌∷◌, arith, All, or_else,
  is_some, get_or, Bool-cases, inl, inr, ◌⊎◌, if-true, lt→ltb, ◌∙◌, ap, Option-cases, ◌||◌,
}
use ha_birdie.Base.Dict.{lookup, lookup-update, update}
use ha_birdie.Dps.{Value, null, Dps, py_eq}
use ha_birdie.Lan.Errors.{connection_lost}
use ha_birdie.Lan.Device.{LanDevice, Event, status, sleep}
use ha_birdie.Lan.Device.Client.{any_changed, any_new, handle_dps, lost, set_available, emit}
use ha_birdie.Lan.Device.Loop.{Round, is_dead, step, round, sleep_for, after_step}

-- After a report each DP has the reported value, or else the one known before.
pub lookup-handle_dps :
    (k : String) (now : ℕ) (d : Dps) (full : Bool) (s : LanDevice)
    → lookup k (handle_dps now d full s).dps ≡ or_else (lookup k d) (lookup k s.dps)
unfolding handle_dps
lookup-handle_dps k now d full s = ground (arith, lookup-update k s.dps d)

-- The value that a report gives was known before.
pub record Known (known : Dps) (entry : String × Value) : Type 0 where
  pub value : Value
  pub found : lookup entry.0 known ≡ some value
  pub equal : py_eq value entry.1 ≡ true

abbrev EntryQuiet : Dps → String × Value → Type 0
EntryQuiet known e =
    (py_eq (get_or (lookup e.0 known) null) e.1 ≡ true) × (is_some (lookup e.0 known) ≡ true)

quiet-Known : (known : Dps) (e : String × Value) → EntryQuiet known e → Known known e
quiet-Known known (k, v) (eq, there) = elim (Option-cases (lookup k known)) [
  | inl missing ↦ cc (rw missing at there)
  | inr (w, found) ↦ record { value = w; found = found; equal = rw found at eq }
]

All-Known :
    (known d : Dps) → any_changed known d ≡ false → any_new known d ≡ false → All (Known known) d
unfolding any_changed any_new
All-Known known [] c n = tt
All-Known known ((k, v) ∷ d) c n = (
  quiet-Known known (k, v) (ground arith, ground arith),
  All-Known known d (ground arith) (ground arith),
)

-- A listener is told of every full report, and if it is not told of another one, then every value
-- of that report was known before.
pub handle_dps-told :
    (now : ℕ) (d : Dps) (full : Bool) (s : LanDevice)
    → s.on_status ≡ true
    → ((handle_dps now d full s).events ≡ status (update s.dps d) ∷ s.events)
      ⊎ ((full ≡ false) × ((handle_dps now d full s).events ≡ s.events) × All (Known s.dps) d)
unfolding handle_dps
handle_dps-told now d full s h =
    elim (Bool-cases (any_changed s.dps d || (any_new s.dps d || full))) [
      | inl e ↦ inl (ground arith)
      | inr e ↦ inr (ground arith, ground arith, All-Known s.dps d (ground arith) (ground arith))
    ]

round-gives_up :
    (r : Round) (b : ℕ) (s : LanDevice)
    → is_some s.api ≡ true
    → s.last_rx + s.timings.dead_after < r.now
    → round r (b, s) ≡ (b, sleep_for 1000 (lost connection_lost s))
unfolding round step
round-gives_up r b s there late =
    if-true (is_some s.api) _ _ there
    ∙ ap (after_step b) (if-true (is_dead r.now s) _ _ (lt→ltb _ _ late))

-- A connected device from which nothing has come for longer than `dead_after` is given up: the
-- connection is dropped, the device is unavailable with the error noted, and the
-- loop sleeps for a second.
pub round-dead :
    (r : Round) (b : ℕ) (s : LanDevice)
    → is_some s.api ≡ true
    → s.last_rx + s.timings.dead_after < r.now
    → ((round r (b, s)).0 ≡ b)
      × (is_some ((round r (b, s)).1).api ≡ false)
      × (((round r (b, s)).1).available ≡ false)
      × (((round r (b, s)).1).last_error ≡ some connection_lost)
      × ((rest : List Event) × (((round r (b, s)).1).events ≡ sleep 1000 ∷ rest))
unfolding lost sleep_for set_available emit
round-dead r b s there late = rw (round-gives_up r b s there late) (
  refl,
  ground arith,
  ground arith,
  ground arith,
  ((lost connection_lost s).events, ground arith),
)
