-- ===== src/Lan/Device/Heard/Calls.antt =====
-- The public methods tell the availability, and keep a connected device available (lan/device.py).
use ha_birdie.Base.{
  ℕ, String, ◌≡◌, refl, Bool, true, false, not, ◌||◌, ◌∷◌, arith, Bool-cases, inl, inr, is_some,
}
use ha_birdie.Base.Result.{Result, ok, raised, Result, ok, raised}
use ha_birdie.Dps.{Dps, Value}
use ha_birdie.Lan.Errors.{LanError}
use ha_birdie.Lan.Device.{
  LanDevice, Answer, Call, continue, modify, gets, ◌>>◌, ◌>>=◌, DeviceConfig, ConfigError,
  make_config,
}
use ha_birdie.Lan.Device.Worker.{Attempt, w_open, w_status, w_set}
use ha_birdie.Lan.Device.Client.{
  emit, set_available, handle_dps, handle_connected, require_connection, async_connect, or_lose,
  async_refresh, async_set_dps, start, Changes, async_close, async_reconfigure, apply_changes,
  same_config, refresh_later, reconfigured,
}
use ha_birdie.Lan.Device.Heard.{
  Heard, IsLinked, IsLive, IsLinked-IsLive, After, Stays, handle_dps-IsLive,
  handle_connected-IsLive, w_status-Stays, w_set-Stays, recover-After, w_open-After,
}

module _ (b : Bool) where
  pub async_connect-After :
      (respond : String → Attempt) (now : ℕ) (s : LanDevice)
      → IsLinked b s
      → After b (async_connect respond now s)
  unfolding async_connect
  async_connect-After respond now s h =
      let (heard, off) = w_open-After b respond s h in
      go (w_open respond s).0 (w_open respond s).1 heard off
    where
      go :
          (r : Result LanError (String × Dps)) (t : LanDevice)
          → Heard b t
          → ((e : LanError) → r ≡ raised e → is_some t.api ≡ false)
          → After b (
              continue r
                (λ x. modify (handle_connected now x.0 x.1) >> gets (λ (u : LanDevice). u.dps))
                t)
      go (ok (v, d)) t heard off = handle_connected-IsLive b now v d t heard
      go (raised e) t heard off =
          let gone = off e refl in record { heard = heard; linked = ground arith }

  -- a call on a connection: it fails without one, and a device that fails in it may be lost
  module _ {A B : Type 0} (m : Call A) (f : A → Call B) where
    connection-After :
        Stays b m
        → ((a : A) (t : LanDevice) → IsLive b t → After b (f a t))
        → (s : LanDevice) → IsLinked b s
        → After b ((require_connection >>= (λ u. or_lose m >>= f)) s)
    unfolding require_connection or_lose
    connection-After km kf s h = elim (Bool-cases (s.closed || not (is_some s.api))) [
      | inl e ↦ rw e h
      | inr e ↦
          let live = km s (IsLinked-IsLive b s h (ground arith)) in
          rw e (go (or_lose m s).0 (or_lose m s).1 (recover-After b (m s).0 (m s).1 live))
    ]
      where
        go : (r : Result LanError A) (t : LanDevice) → After b (r, t) → After b (continue r f t)
        go (ok a) t k = kf a t k
        go (raised e) t k = k

  pub async_refresh-After :
      (a : Answer) (now : ℕ) (s : LanDevice) → IsLinked b s → After b (async_refresh a now s)
  unfolding async_refresh
  async_refresh-After a now =
      connection-After (w_status a)
        (λ d. modify (handle_dps now d true) >> gets (λ (t : LanDevice). t.dps))
        (w_status-Stays b a) (λ d t h. handle_dps-IsLive b now d true t h)

  pub async_set_dps-After :
      (e : String × Value) (d : Dps) (a : Answer) (now : ℕ) (s : LanDevice)
      → IsLinked b s
      → After b (async_set_dps (e ∷ d) a now s)
  unfolding async_set_dps
  async_set_dps-After e d a now =
      connection-After (w_set a) (λ u. modify (refresh_later now)) (w_set-Stays b a)
        (λ u t h. record {
          heard = record {
            listens = h.heard.listens;
            now_told = h.heard.now_told;
            in_time = h.heard.in_time;
          };
          there = h.there;
        })

  pub start-IsLinked : (s : LanDevice) → IsLinked b s → IsLinked b (start s)
  unfolding start
  start-IsLinked s h = ground arith

  module _ (bytes_form : String → String) where
    pub async_close-IsLinked :
        (s : LanDevice) → IsLinked b s → IsLinked b (async_close bytes_form s)
    unfolding async_close
    async_close-IsLinked s h = ground arith

    reconfigured-IsLinked :
        (r : Result ConfigError DeviceConfig) (s : LanDevice)
        → IsLinked b s
        → IsLinked b (reconfigured bytes_form r s).1
    unfolding set_available emit
    reconfigured-IsLinked (raised e) s h = h
    reconfigured-IsLinked (ok config) s h = elim (Bool-cases (same_config config s.config)) [
      | inl e ↦ rw e h
      | inr e ↦ rw e (ground arith)
    ]

    pub async_reconfigure-IsLinked :
        (c : Changes) (s : LanDevice)
        → IsLinked b s
        → IsLinked b (async_reconfigure bytes_form c s).1
    unfolding async_reconfigure
    async_reconfigure-IsLinked c s h =
        reconfigured-IsLinked (make_config (apply_changes c s.config)) s h
