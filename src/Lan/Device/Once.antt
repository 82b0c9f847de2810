-- ===== src/Lan/Device/Once.antt =====
-- A device that is made for one connection and closed again, as lan/search.py and purifier/flow.py
-- do. `connect_once` is the body that their `try` statements share.
use ha_birdie.Base.{
  ℕ, ◌-◌, String, ◌≡◌, refl, ◌∙◌, true, false, not, Option, none, some, List, [], ◌∷◌, arith, All,
  ◌⊎◌, inl, inr, if◌then◌else◌, str_eq, ap,
}
use ha_birdie.Base.Dict.{update}
use ha_birdie.Base.Result.{Result, ok, raised}
use ha_birdie.Dps.{Dps}
use ha_birdie.Lan.Errors.{LanError, is_key_error}
use ha_birdie.Lan.Redact.{Secrets, count}
use ha_birdie.Lan.Redact.Balance.{count-register, count-unregister, shares}
use ha_birdie.Lan.Device.{
  LanDevice, DeviceConfig, Timings, default_timings, protocol_auto, auto_protocol_order,
}
use ha_birdie.Lan.Device.Worker.{
  Attempt, Opened, opened, failed, try_versions, w_open, w_drop, versions_to_try, prefer,
}
use ha_birdie.Lan.Device.Client.{
  init, async_connect, async_close, handle_connected, handle_dps, set_available, emit,
}
use ha_birdie.Lan.Device.Opening.{
  Opens, Fails, any_rejected, w_open-refused, Opens-try_versions, try_versions-Opens,
}

-- a `LanDevice` with no callbacks, before its `__init__`
abbrev pub no_listener : Secrets → LanDevice
no_listener secrets = record {
  config = record {
    device_id = "";
    host = "";
    local_key = "";
    protocol_version = protocol_auto;
    port = 0;
  };
  on_status = false;
  on_availability = false;
  on_error = false;
  timings = default_timings;
  version_hint = none;
  api = none;
  version = none;
  dps = [];
  task = false;
  wake = false;
  closed = false;
  last_rx = 0;
  last_heartbeat = 0;
  last_status = 0;
  refresh_at = none;
  available = false;
  last_error = none;
  secrets = secrets;
  events = [];
}

-- What the operations before the close leave alone.
record Keeps (s t : LanDevice) : Type 0 where
  secrets : t.secrets ≡ s.secrets
  config : t.config ≡ s.config
  closed : t.closed ≡ s.closed

handle_connected-Keeps :
    (now : ℕ) (v : String) (d : Dps) (s : LanDevice) → Keeps s (handle_connected now v d s)
unfolding handle_connected handle_dps set_available emit
handle_connected-Keeps now v d s = ground arith

handle_connected-shows :
    (now : ℕ) (v : String) (d : Dps) (s : LanDevice)
    → ((handle_connected now v d s).dps ≡ update s.dps d)
      × ((handle_connected now v d s).version ≡ some v)
unfolding handle_connected handle_dps set_available emit
handle_connected-shows now v d s = ground arith

pub Opened-cases :
    (o : Opened) → ((v : String) × (d : Dps) × (o ≡ opened v d)) ⊎ ((e : LanError) × (o ≡ failed e))
Opened-cases (opened v d) = inl (v, d, refl)
Opened-cases (failed e) = inr (e, refl)

module _ (respond : String → Attempt) (now : ℕ) (s : LanDevice) where
  -- the device with a connection
  abbrev holding : LanDevice
  holding = record (w_drop s) { api = some (record { socket = true }) }

  connect-opened :
      (v : String) (d : Dps)
      → try_versions respond (versions_to_try s) [] ≡ opened v d
      → async_connect respond now s
        ≡ (ok (handle_connected now v d holding).dps, handle_connected now v d holding)
  unfolding async_connect w_open
  connect-opened v d h = rw h refl

  connect-failed :
      (e : LanError)
      → try_versions respond (versions_to_try s) [] ≡ failed e
      → async_connect respond now s ≡ (raised e, w_drop s)
  unfolding async_connect w_open
  connect-failed e h = rw h refl

  connect-Keeps : Keeps s (async_connect respond now s).1
  unfolding w_drop
  connect-Keeps = elim (Opened-cases (try_versions respond (versions_to_try s) [])) [
    | inl (v, d, h) ↦
        let k = handle_connected-Keeps now v d holding in
        rw (connect-opened v d h)
          (record { secrets = k.secrets; config = k.config; closed = k.closed })
    | inr (e, h) ↦ rw (connect-failed e h) (record { secrets = refl; config = refl; closed = refl })
  ]

  -- A connection that succeeds has the version and the data points of the first version that answers.
  connect-shows :
      (d : Dps)
      → (async_connect respond now s).0 ≡ ok d
      → (v : String) × (e : Dps) × Opens respond (versions_to_try s) v e
        × (d ≡ update s.dps e)
        × (((async_connect respond now s).1).version ≡ some v)
  unfolding w_drop
  connect-shows d h = elim (Opened-cases (try_versions respond (versions_to_try s) [])) [
    | inl (v, e, o) ↦ (
      v,
      e,
      try_versions-Opens respond (versions_to_try s) v e [] o,
      cc ((handle_connected-shows now v e holding).0, rw (connect-opened v e o) at h),
      rw (connect-opened v e o) (handle_connected-shows now v e holding).1,
    )
    | inr (e, o) ↦ cc (rw (connect-failed e o) at h)
  ]

  connect-Opens :
      (v : String) (e : Dps)
      → Opens respond (versions_to_try s) v e
      → ((async_connect respond now s).0 ≡ ok (update s.dps e))
        × (((async_connect respond now s).1).version ≡ some v)
  unfolding w_drop
  connect-Opens v e o =
      let (dps, version) = handle_connected-shows now v e holding in
      rw (connect-opened v e (Opens-try_versions respond [] o)) (ap ok dps, version)

-- the versions that a new device tries
abbrev pub first_versions : String → Option String → List String
first_versions v hint =
    if not (str_eq v protocol_auto) then v ∷ [] else prefer hint auto_protocol_order

module _ (bytes_form : String → String) where
  unfoldable pub connect_once :
      DeviceConfig
      → Timings
      → Option String
      → (String → Attempt)
      → ℕ
      → Secrets
      → Result LanError Dps × LanDevice
  connect_once config timings hint respond now secrets =
      let (r, device) =
        async_connect respond now (init bytes_form config timings hint (no_listener secrets)) in
      (r, async_close bytes_form device)

  close-secrets :
      (k : String) (s : LanDevice)
      → s.closed ≡ false
      → count k (async_close bytes_form s).secrets
        ≡ count k s.secrets - shares bytes_form k s.config.local_key
  unfolding async_close w_drop
  close-secrets k s open_still =
      ground (arith, count-unregister bytes_form k s.config.local_key s.secrets)

  close-version : (s : LanDevice) → (async_close bytes_form s).version ≡ s.version
  unfolding async_close w_drop
  close-version s = ground arith

  -- Such a device leaves the registry of secrets as it was, whether it connects or not.
  pub connect_once-secrets :
      (config : DeviceConfig) (timings : Timings) (hint : Option String)
      (respond : String → Attempt) (now : ℕ) (secrets : Secrets) (k : String)
      → count k (connect_once config timings hint respond now secrets).1.secrets ≡ count k secrets
  unfolding connect_once init
  connect_once-secrets config timings hint respond now secrets k =
      let device = init bytes_form config timings hint (no_listener secrets) in
      let kept = connect-Keeps respond now device in
      close-secrets k (async_connect respond now device).1 kept.closed
      ∙ ap
          (λ (c : DeviceConfig).
            count k (async_connect respond now device).1.secrets - shares bytes_form k c.local_key)
          kept.config
      ∙ ap (λ (s : Secrets). count k s - shares bytes_form k config.local_key) kept.secrets
      ∙ omega (arith, count-register bytes_form k config.local_key secrets)

  module _ (config : DeviceConfig) (timings : Timings) (hint : Option String)
      (respond : String → Attempt) (now : ℕ) (secrets : Secrets) where
    abbrev tried : List String
    tried = first_versions config.protocol_version hint

    versions-first :
        versions_to_try (init bytes_form config timings hint (no_listener secrets)) ≡ tried
    unfolding versions_to_try init prefer
    versions-first = refl

    -- Such a device connects exactly at the first version that answers, and has its version and data
    -- points then.
    pub connect_once-shows :
        (d : Dps)
        → (connect_once config timings hint respond now secrets).0 ≡ ok d
        → (v : String) × (e : Dps) × Opens respond tried v e
          × (d ≡ update [] e)
          × (((connect_once config timings hint respond now secrets).1).version ≡ some v)
    unfolding connect_once init
    connect_once-shows d h =
        let device = init bytes_form config timings hint (no_listener secrets) in
        let (v, e, o, same, version) = connect-shows respond now device d h in
        (v, e, rw versions-first at o, same, close-version _ ∙ version)

    pub connect_once-Opens :
        (v : String) (e : Dps)
        → Opens respond tried v e
        → ((connect_once config timings hint respond now secrets).0 ≡ ok (update [] e))
          × (((connect_once config timings hint respond now secrets).1).version ≡ some v)
    unfolding connect_once init
    connect_once-Opens v e o =
        let device = init bytes_form config timings hint (no_listener secrets) in
        let (dps, version) = connect-Opens respond now device v e (rw versions-first o) in
        (dps, close-version _ ∙ version)

    -- Where every version fails and none is cut short, the error is a rejected key exactly if some
    -- answer had a code of a rejected key.
    pub connect_once-refused :
        All (Fails respond) tried
        → (e : LanError) × ((connect_once config timings hint respond now secrets).0 ≡ raised e)
          × (is_key_error e ≡ any_rejected respond tried)
    unfolding connect_once async_connect
    connect_once-refused h =
        let device = init bytes_form config timings hint (no_listener secrets) in
        let (e, refused, key) = w_open-refused respond device (rw versions-first h) in
        (e, rw refused refl, rw versions-first at key)
