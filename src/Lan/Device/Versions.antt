-- ===== src/Lan/Device/Versions.antt =====
-- The protocol versions that a connection tries (lan/device.py, `_versions_to_try`).
use ha_birdie.Base.{
  String, ◌≡◌, refl, true, false, Option, none, some, List, [], ◌∷◌, arith, str_eq, str_eq_iff,
  contains, Distinct, if◌then◌else◌, Bool, ◌&&◌, ◌||◌, ap, ◌∙◌,
}
use ha_birdie.Lan.Device.{LanDevice, protocol_auto, protocol_versions, auto_protocol_order}
use ha_birdie.Lan.Device.Worker.{remove_first, prefer, versions_to_try}

contains-remove_first :
    (v w : String) (order : List String)
    → Distinct order
    → contains (remove_first v order) w ≡ (if str_eq v w then false else contains order w)
unfolding remove_first
contains-remove_first v w [] h = ground arith
contains-remove_first v w (x ∷ order) h = ground (
  arith,
  contains-remove_first v w order h.1,
  str_eq_iff v w,
  str_eq_iff x v,
  str_eq_iff x w,
  h.0,
)

remove_first-Distinct :
    (v : String) (order : List String) → Distinct order → Distinct (remove_first v order)
unfolding remove_first
remove_first-Distinct v [] h = tt
remove_first-Distinct v (x ∷ order) h =
    ground (
      arith,
      remove_first-Distinct v order h.1,
      contains-remove_first v x order h.1,
      str_eq_iff v x,
    )

prefer-Distinct :
    (o : Option String) (order : List String) → Distinct order → Distinct (prefer o order)
unfolding prefer
prefer-Distinct none order h = h
prefer-Distinct (some v) order h =
    ground
      (arith, remove_first-Distinct v order h, contains-remove_first v v order h, str_eq_iff v v)

-- the version is the preferred one, and supported
abbrev pub prefers : Option String → String → Bool
prefers none w = false
prefers (some v) w = contains protocol_versions v && str_eq v w

contains-prefer :
    (o : Option String) (order : List String) (w : String)
    → Distinct order
    → contains (prefer o order) w ≡ (prefers o w || contains order w)
unfolding prefer
contains-prefer none order w d = refl
contains-prefer (some v) order w d =
    ground (arith, contains-remove_first v w order d, str_eq_iff v w)

auto_order-Distinct : Distinct auto_protocol_order
auto_order-Distinct = (refl, (refl, (refl, (refl, tt))))

module _ (s : LanDevice) (auto : s.config.protocol_version ≡ protocol_auto) where
  abbrev hinted : List String
  hinted = prefer s.version_hint auto_protocol_order

  versions_to_try-eq : versions_to_try s ≡ prefer s.version hinted
  unfolding versions_to_try
  versions_to_try-eq = rw auto

  hinted-Distinct : Distinct hinted
  hinted-Distinct = prefer-Distinct s.version_hint auto_protocol_order auto_order-Distinct

  -- With an automatic version, no version is tried twice, and those that are tried are the ones of
  -- the default order, the one that last worked and the hinted one, the latter two if supported.
  pub versions_to_try-auto :
      (w : String)
      → Distinct (versions_to_try s)
        × (contains (versions_to_try s) w
            ≡ (prefers s.version w || (prefers s.version_hint w || contains auto_protocol_order w)))
  versions_to_try-auto w = rw versions_to_try-eq (
    prefer-Distinct s.version hinted hinted-Distinct,
    contains-prefer s.version hinted w hinted-Distinct
        ∙ ap (λ (b : Bool). prefers s.version w || b)
            (contains-prefer s.version_hint auto_protocol_order w auto_order-Distinct),
  )

  -- With an automatic version, the version that last worked is tried first, if it is supported.
  pub versions_to_try-last :
      (v : String)
      → s.version ≡ some v
      → contains protocol_versions v ≡ true
      → (rest : List String) × (versions_to_try s ≡ v ∷ rest)
  unfolding prefer
  versions_to_try-last v known supported =
      (remove_first v hinted, rw (versions_to_try-eq, known) (rw supported refl))
