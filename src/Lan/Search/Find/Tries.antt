-- ===== src/Lan/Search/Find/Tries.antt =====
-- One try of a key at an address (lan/search.py, `async_find_device`).
use ha_birdie.Base.{String, ◌≡◌, ◌≢◌, refl, ◌∙◌, ap, none, some, [], arith}
use ha_birdie.Base.Dict.{update}
use ha_birdie.Base.Result.{Result, ok, raised}
use ha_birdie.Dps.{Dps}
use ha_birdie.Lan.Errors.{LanError}
use ha_birdie.Lan.Redact.{Secrets, count}
use ha_birdie.Lan.Device.{LanDevice}
use ha_birdie.Lan.Device.Opening.{Opens}
use ha_birdie.Lan.Device.Once.{
  connect_once, connect_once-secrets, connect_once-shows, connect_once-Opens, first_versions,
}
use ha_birdie.Lan.Search.Find.{
  FoundDevice, Sought, version_or, config_at, found_at, try_timings, attempt,
}

module _ (q : Sought) where
  -- the key is accepted at the host, by version `v`
  abbrev pub Accepts : String → String → Dps → Type 0
  Accepts host v e = Opens (q.respond host) (first_versions q.protocol_version none) v e

  -- no version accepts the key at the host
  abbrev pub Refuses : String → Type 0
  Refuses host = (v : String) (e : Dps) → ¬ Accepts host v e

  -- The device was reached at the host that was found, and the version and the data points are those
  -- of that connection.
  pub record IsFound (f : FoundDevice) : Type 0 where
    pub version : String
    pub answer : Dps
    pub accepted : Accepts f.host version answer
    pub shown : f.dps ≡ update [] answer
    pub named : f.protocol_version ≡ version_or (some version) q.protocol_version

found_at_inv :
    (q : Sought) (host : String) (r : Result LanError Dps) (device : LanDevice) {f : FoundDevice}
    → (found_at q host (r, device)).0 ≡ some f
    → (d : Dps) × (r ≡ ok d)
      × (f.host ≡ host)
      × (f.dps ≡ d)
      × (f.protocol_version ≡ version_or device.version q.protocol_version)
found_at_inv q host (ok d) device h = (d, refl, ground arith, ground arith, ground arith)
found_at_inv q host (raised e) device h = cc

found_at-secrets :
    (q : Sought) (host : String) (r : Result LanError Dps) (device : LanDevice)
    → (found_at q host (r, device)).1 ≡ device.secrets
found_at-secrets q host (ok d) device = refl
found_at-secrets q host (raised e) device = refl

found_at-ok :
    (q : Sought) (host : String) (r : Result LanError Dps) (device : LanDevice) {d : Dps}
    → (found_at q host (r, device)).0 ≡ none
    → r ≢ ok d
found_at-ok q host (ok e) device h k = cc
found_at-ok q host (raised e) device h k = cc

module _ (bytes_form : String → String) (q : Sought) where
  pub attempt-found :
      (host : String) (secrets : Secrets) {f : FoundDevice}
      → (attempt bytes_form q host secrets).0 ≡ some f
      → (f.host ≡ host) × IsFound q f
  unfolding attempt
  attempt-found host secrets {f} h =
      let once =
        connect_once bytes_form (config_at q host) try_timings none (q.respond host) q.now
          secrets in
      let (d, r, same_host, same_dps, named) = found_at_inv q host once.0 once.1 h in
      let (v, e, o, same, version) =
        connect_once-shows bytes_form (config_at q host) try_timings none (q.respond host) q.now
          secrets d r in
      (
        same_host,
        record {
          version = v;
          answer = e;
          accepted = rw same_host o;
          shown = same_dps ∙ same;
          named = named ∙ ap (λ w. version_or w q.protocol_version) version;
        },
      )

  pub attempt-none :
      (host : String) (secrets : Secrets)
      → (attempt bytes_form q host secrets).0 ≡ none
      → Refuses q host
  unfolding attempt
  attempt-none host secrets h v e o =
      let once =
        connect_once bytes_form (config_at q host) try_timings none (q.respond host) q.now
          secrets in
      found_at-ok q host once.0 once.1 h
        (connect_once-Opens bytes_form (config_at q host) try_timings none (q.respond host) q.now
          secrets v e o).0

  pub attempt-secrets :
      (host : String) (secrets : Secrets) (k : String)
      → count k (attempt bytes_form q host secrets).1 ≡ count k secrets
  unfolding attempt
  attempt-secrets host secrets k =
      let once =
        connect_once bytes_form (config_at q host) try_timings none (q.respond host) q.now
          secrets in
      ap (count k) (found_at-secrets q host once.0 once.1)
      ∙ connect_once-secrets bytes_form (config_at q host) try_timings none (q.respond host) q.now
          secrets k
