-- ===== src/Lan/Device/Registered/Held.antt =====
-- An open device holds one registration of its local key, and a closed one none (lan/device.py,
-- lan/redact.py).
use ha_birdie.Base.Result.{Result, ok, raised}
use ha_birdie.Base.{
  ℕ, ◌+◌, String, ◌≡◌, refl, ◌∙◌, ap, sym, Bool, true, false, not, ◌&&◌, Option, none, some, arith,
  Bool-cases, inl, inr, if◌then◌else◌,
}
use ha_birdie.Lan.Errors.{unreachable}
use ha_birdie.Lan.Redact.{count, register_secret, unregister_secret}
use ha_birdie.Lan.Redact.Balance.{shares, count-register, count-unregister}
use ha_birdie.Lan.Device.{LanDevice, DeviceConfig, Timings, DeviceConfig, ConfigError, make_config}
use ha_birdie.Lan.Device.Worker.{w_drop}
use ha_birdie.Lan.Device.Client.{
  init, Changes, apply_changes, same_config, reconnect_with, async_reconfigure, async_close,
  reconfigured,
}
use ha_birdie.Lan.Device.History.{
  Step, connects, refreshes, writes, starts, loops, reconfigures, closes,
}
use ha_birdie.Lan.Device.Registered.{
  IsSame, set_available-IsSame, async_connect-Saves, async_refresh-Saves, async_set_dps-Saves,
  start-IsSame, round-IsSame,
}

module _ (bytes_form : String → String) where
  -- Any number of operations, where a closed device is not given another configuration.
  pub data Uses : LanDevice → LanDevice → Type 0 where
    stays : (s : LanDevice) → Uses s s
    goes :
        {s t u : LanDevice}
        → Step bytes_form s t
        → (s.closed && not (same_config t.config s.config)) ≡ false
        → Uses t u
        → Uses s u

  -- the swap of the key, before the connection is dropped
  abbrev moved_to : DeviceConfig → LanDevice → LanDevice
  moved_to config s = record s {
    config = config;
    secrets =
        unregister_secret bytes_form s.config.local_key
          (register_secret bytes_form config.local_key s.secrets);
    api = none;
  }

  reconnect_with-config :
      (config : DeviceConfig) (s : LanDevice) → (reconnect_with bytes_form config s).config ≡ config
  reconnect_with-config config s =
      (set_available-IsSame false (some unreachable) (moved_to config s)).config

  -- a device that is given another configuration is open
  still_open :
      (config : DeviceConfig) (s : LanDevice)
      → same_config config s.config ≡ false
      → (s.closed && not (same_config (reconnect_with bytes_form config s).config s.config)) ≡ false
      → s.closed ≡ false
  still_open config s e o =
      let other : same_config (reconnect_with bytes_form config s).config s.config ≡ false =
        ap (λ (k : DeviceConfig). same_config k s.config) (reconnect_with-config config s) ∙ e in
      ground (arith, o, other)

  module _ (text : String) (others : ℕ) where
    -- what the registry counts of a text: the others' registrations, and the device's own
    pub IsHeld : LanDevice → Type 0
    IsHeld s =
        count text s.secrets
        ≡ others + (if s.closed then 0 else shares bytes_form text s.config.local_key)

    same-IsHeld : (s t : LanDevice) → IsSame s t → IsHeld s → IsHeld t
    unfolding IsHeld
    same-IsHeld s t h k =
        ap (count text) h.secrets
        ∙ k
        ∙ ap (λ (c : Bool). others + (if c then 0 else shares bytes_form text s.config.local_key))
            (sym h.closed)
        ∙ ap
            (λ (c : DeviceConfig).
              others + (if t.closed then 0 else shares bytes_form text c.local_key))
            (sym h.config)

    async_close-IsHeld : (s : LanDevice) → IsHeld s → IsHeld (async_close bytes_form s)
    unfolding IsHeld async_close w_drop
    async_close-IsHeld s h =
        ground (arith, h, count-unregister bytes_form text s.config.local_key s.secrets)

    moved-IsHeld :
        (config : DeviceConfig) (s : LanDevice)
        → s.closed ≡ false
        → IsHeld s
        → IsHeld (moved_to config s)
    unfolding IsHeld
    moved-IsHeld config s o h = ground (
      arith,
      o,
      h,
      count-unregister bytes_form text s.config.local_key
          (register_secret bytes_form config.local_key s.secrets),
      count-register bytes_form text config.local_key s.secrets,
    )

    reconnect_with-IsHeld :
        (config : DeviceConfig) (s : LanDevice)
        → s.closed ≡ false
        → IsHeld s
        → IsHeld (reconnect_with bytes_form config s)
    reconnect_with-IsHeld config s o h =
        let k = set_available-IsSame false (some unreachable) (moved_to config s) in
        same-IsHeld (moved_to config s) (reconnect_with bytes_form config s)
          (record { secrets = k.secrets; config = k.config; closed = k.closed })
          (moved-IsHeld config s o h)

    choose-IsHeld :
        (b : Bool) (s t : LanDevice)
        → IsHeld s
        → (b ≡ false → IsHeld t)
        → IsHeld (if b then s else t)
    choose-IsHeld true s t h k = h
    choose-IsHeld false s t h k = k refl

    reconfigured-IsHeld :
        (r : Result ConfigError DeviceConfig) (s : LanDevice)
        → (s.closed && not (same_config (reconfigured bytes_form r s).1.config s.config)) ≡ false
        → IsHeld s
        → IsHeld (reconfigured bytes_form r s).1
    reconfigured-IsHeld (raised e) s o h = h
    reconfigured-IsHeld (ok config) s o h = elim (Bool-cases (same_config config s.config)) [
      | inl e ↦ rw e h
      | inr e ↦ rw e (reconnect_with-IsHeld config s (still_open config s e (rw e at o)) h)
    ]

    async_reconfigure-IsHeld :
        (c : Changes) (s : LanDevice)
        → (s.closed && not (same_config (async_reconfigure bytes_form c s).1.config s.config))
          ≡ false
        → IsHeld s
        → IsHeld (async_reconfigure bytes_form c s).1
    unfolding async_reconfigure
    async_reconfigure-IsHeld c s o h =
        reconfigured-IsHeld (make_config (apply_changes c s.config)) s o h

    Step-IsHeld :
        {s t : LanDevice}
        → Step bytes_form s t
        → (s.closed && not (same_config t.config s.config)) ≡ false
        → IsHeld s
        → IsHeld t
    Step-IsHeld (connects respond now s) o h = same-IsHeld s _ (async_connect-Saves respond now s) h
    Step-IsHeld (refreshes a now s) o h = same-IsHeld s _ (async_refresh-Saves a now s) h
    Step-IsHeld (writes d a now s) o h = same-IsHeld s _ (async_set_dps-Saves d a now s) h
    Step-IsHeld (starts s) o h = same-IsHeld s _ (start-IsSame s) h
    Step-IsHeld (loops r backoff s) o h = same-IsHeld s _ (round-IsSame r backoff s) h
    Step-IsHeld (reconfigures c s) o h = async_reconfigure-IsHeld c s o h
    Step-IsHeld (closes s) o h = async_close-IsHeld s h

    Uses-IsHeld : {s t : LanDevice} → Uses s t → IsHeld s → IsHeld t
    Uses-IsHeld (stays s) h = h
    Uses-IsHeld (goes x o r) h = Uses-IsHeld r (Step-IsHeld x o h)

  -- In every history of a new device in which a closed one is not given another configuration, the
  -- registry counts of each text what it did before the device was made, and while the device is
  -- open the variants of its present key as well.
  pub init-IsHeld :
      (config : DeviceConfig) (timings : Timings) (hint : Option String) (s t : LanDevice)
      (text : String)
      → Uses (init bytes_form config timings hint s) t
      → count text t.secrets
        ≡ count text s.secrets + (if t.closed then 0 else shares bytes_form text t.config.local_key)
  unfolding init IsHeld
  init-IsHeld config timings hint s t text r =
      Uses-IsHeld text (count text s.secrets) r
        (count-register bytes_form text config.local_key s.secrets)
