-- ===== src/Lan/Device/Opening.antt =====
-- What a connection attempt ends in (lan/device.py, `_w_open`).
use ha_birdie.Base.{
  String, ◌≡◌, refl, ◌∙◌, ◌↔◌, inl, inr, Bool, false, ◌||◌, none, some, List, [], ◌∷◌, ◌++◌, map,
  arith, Bool-cases, Option-cases, All,
}
use mathlib.Core.List.{append-nil, append_assoc}
use ha_birdie.Base.Result.{ok, raised}
use ha_birdie.Dps.{Dps}
use ha_birdie.Lan.Errors.{LanError, unreachable, connection_lost, invalid_local_key, is_key_error}
use ha_birdie.Lan.Device.{
  LanDevice, error_code, open_error, code_in, unreachable_errors, key_errors,
}
use ha_birdie.Lan.Device.Worker.{
  Attempt, Opened, opened, failed, live_dps, final_error, try_versions, versions_to_try, w_open,
  w_drop, keep_api,
}

module _ (respond : String → Attempt) where
  -- the attempt at `v` fails, and the next version is tried
  pub record Fails (v : String) : Type 0 where
    pub running : (respond v).closed ≡ false
    pub silent : live_dps (respond v).answer ≡ none
    pub goes_on : code_in unreachable_errors (error_code (respond v).answer.reply) ≡ false

  -- the attempt at `v` connects
  pub record Answers (v : String) (d : Dps) : Type 0 where
    pub running : (respond v).closed ≡ false
    pub live : live_dps (respond v).answer ≡ some d

  -- `v` is the first version of the list that answers; those before it fail
  pub data Opens : List String → String → Dps → Type 0 where
    here : {v : String} {d : Dps} (vs : List String) → Answers v d → Opens (v ∷ vs) v d
    later :
        {w : String} {d : Dps} (v : String) {vs : List String}
        → Fails v
        → Opens vs w d
        → Opens (v ∷ vs) w d

  -- the error that the answer at `v` means
  abbrev refusal : String → LanError
  refusal v = open_error (error_code (respond v).answer.reply)

  pub Opens-try_versions :
      {vs : List String} {v : String} {d : Dps} (errors : List LanError)
      → Opens vs v d
      → try_versions respond vs errors ≡ opened v d
  unfolding try_versions
  Opens-try_versions errors (here vs a) = ground (arith, a.running, a.live)
  Opens-try_versions errors (later v f o) =
      ground
        (arith, f.running, f.silent, f.goes_on, Opens-try_versions (errors ++ refusal v ∷ []) o)

  opened-here :
      (x : String) (vs : List String) (v : String) (d d' : Dps)
      → (respond x).closed ≡ false
      → live_dps (respond x).answer ≡ some d'
      → opened x d' ≡ opened v d
      → Opens (x ∷ vs) v d
  opened-here x vs v d d' run live e =
      let same : x ≡ v = cc in
      let same_dps : d' ≡ d = cc in
      rw (← same, ← same_dps) (here vs (record { running = run; live = live }))

  pub try_versions-Opens :
      (vs : List String) (v : String) (d : Dps) (errors : List LanError)
      → try_versions respond vs errors ≡ opened v d
      → Opens vs v d
  unfolding try_versions
  try_versions-Opens [] v d errors h = cc
  try_versions-Opens (x ∷ vs) v d errors h = elim (Bool-cases (respond x).closed) [
    | inl gone ↦ cc (rw gone at h)
    | inr run ↦ elim (Option-cases (live_dps (respond x).answer)) [
      | inr (d', live) ↦ opened-here x vs v d d' run live (rw (run, live) at h)
      | inl silent ↦
          elim (Bool-cases (code_in unreachable_errors (error_code (respond x).answer.reply))) [
            | inl stop ↦ cc (rw (run, silent, stop) at h)
            | inr on ↦
                later x (record { running = run; silent = silent; goes_on = on })
                  (try_versions-Opens vs v d (errors ++ refusal x ∷ []) (rw (run, silent, on) at h))
          ]
    ]
  ]

  try_versions-Fails :
      (vs : List String) (errors : List LanError)
      → All Fails vs
      → try_versions respond vs errors ≡ failed (final_error unreachable (errors ++ map refusal vs))
  unfolding try_versions
  try_versions-Fails [] errors h = rw append-nil
  try_versions-Fails (v ∷ vs) errors (f, h) = ground (
    arith,
    f.running,
    f.silent,
    f.goes_on,
    try_versions-Fails vs (errors ++ refusal v ∷ []) h,
    append_assoc errors (refusal v ∷ []) (map refusal vs),
  )

-- some attempt was refused with a code of a rejected key
abbrev pub any_rejected : (String → Attempt) → List String → Bool
any_rejected respond [] = false
any_rejected respond (v ∷ vs) =
    code_in key_errors (error_code (respond v).answer.reply) || any_rejected respond vs

abbrev any_key_error : List LanError → Bool
any_key_error [] = false
any_key_error (e ∷ errors) = is_key_error e || any_key_error errors

final_error-key :
    (last : LanError) (errors : List LanError)
    → is_key_error last ≡ false
    → is_key_error (final_error last errors) ≡ any_key_error errors
unfolding final_error
final_error-key last [] h = h
final_error-key last (unreachable ∷ errors) h = final_error-key unreachable errors refl
final_error-key last (connection_lost ∷ errors) h = final_error-key connection_lost errors refl
final_error-key last (invalid_local_key ∷ errors) h = refl

refusals-key :
    (respond : String → Attempt) (vs : List String)
    → All (Fails respond) vs
    → any_key_error (map (λ v. open_error (error_code (respond v).answer.reply)) vs)
      ≡ any_rejected respond vs
unfolding open_error
refusals-key respond [] h = refl
refusals-key respond (v ∷ vs) (f, h) = ground (arith, f.goes_on, refusals-key respond vs h)

keep_api-inv :
    (o : Opened) (s : LanDevice) (v : String) (d : Dps)
    → (keep_api o s).0 ≡ ok (v, d)
    → o ≡ opened v d
keep_api-inv (opened w e) s v d h = cc
keep_api-inv (failed e) s v d h = cc

-- The connection opens exactly at the first version that answers while those before it fail, with
-- the data points of that answer.
pub w_open-Opens :
    (respond : String → Attempt) (s : LanDevice) (v : String) (d : Dps)
    → (w_open respond s).0 ≡ ok (v, d) ↔ Opens respond (versions_to_try s) v d
unfolding w_open
w_open-Opens respond s v d = (
  λ h.
      try_versions-Opens respond (versions_to_try s) v d []
        (keep_api-inv (try_versions respond (versions_to_try s) []) (w_drop s) v d h),
  λ o. rw (Opens-try_versions respond [] o) refl,
)

-- Where every version fails and none is cut short, the error is a rejected key exactly if some
-- answer had a code of a rejected key, and the device is left without a connection.
pub w_open-refused :
    (respond : String → Attempt) (s : LanDevice)
    → All (Fails respond) (versions_to_try s)
    → (e : LanError) × (w_open respond s ≡ (raised e, w_drop s))
      × (is_key_error e ≡ any_rejected respond (versions_to_try s))
unfolding w_open
w_open-refused respond s h =
    let errors = map (λ v. open_error (error_code (respond v).answer.reply)) (versions_to_try s) in
    (
      final_error unreachable errors,
      rw (try_versions-Fails respond (versions_to_try s) [] h) refl,
      final_error-key unreachable errors refl ∙ refusals-key respond (versions_to_try s) h,
    )
