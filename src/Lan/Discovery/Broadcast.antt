-- ===== src/Lan/Discovery/Broadcast.antt =====
-- Which broadcasts are announcements (lan/discovery.py, `parse_broadcast`).
use ha_birdie.Base.{
  ℕ, String, ◌≡◌, ◌≢◌, refl, Bool, false, some, arith, str_eq_iff, Bool-cases, inl, inr,
}
use ha_birdie.Base.Dict.{Dict}
use ha_birdie.Dps.{Value, null, bool, int, float, str, composite}
use ha_birdie.Lan.Discovery.{
  DiscoveredDevice, object, field, is_text_of, host_of, text_if, announced, value_or,
  parse_broadcast,
}

host_of-full : (v : Value) (source : String) → source ≢ "" → host_of v source ≢ ""
host_of-full (str s) source h = ground (arith, str_eq_iff s "")
host_of-full null source h = h
host_of-full (bool b) source h = h
host_of-full (int z) source h = h
host_of-full (float z k) source h = h
host_of-full (composite n) source h = h

module _ (full : ℕ → Bool) (text_of : Value → String) where
  -- What an announcement says of its device.
  pub record Reads (fields : Dict Value) (source : String) (now : ℕ) (d : DiscoveredDevice)
      : Type 0 where
    pub foreign : is_text_of (field "from" fields) "app" ≡ false
    pub named : value_or full text_of (field "gwId" fields) (field "id" fields) ≡ str d.device_id
    pub id_full : d.device_id ≢ ""
    pub host_read : d.host ≡ host_of (field "ip" fields) source
    pub host_full : d.host ≢ ""
    pub version_read : d.protocol_version ≡ text_if full text_of (field "version" fields)
    pub key_read : d.product_key ≡ text_if full text_of (field "productKey" fields)
    pub time_read : d.seen_at ≡ now

  announced-Reads :
      (v : Value) (fields : Dict Value) (source : String) (now : ℕ) (d : DiscoveredDevice)
      → source ≢ ""
      → is_text_of (field "from" fields) "app" ≡ false
      → value_or full text_of (field "gwId" fields) (field "id" fields) ≡ v
      → announced full text_of v fields source now ≡ some d
      → Reads fields source now d
  announced-Reads (str id) fields source now d there not_app v h =
      ground (arith, host_of-full (field "ip" fields) source there, str_eq_iff id "")
  announced-Reads null fields source now d there not_app v h = cc
  announced-Reads (bool b) fields source now d there not_app v h = cc
  announced-Reads (int z) fields source now d there not_app v h = cc
  announced-Reads (float z k) fields source now d there not_app v h = cc
  announced-Reads (composite n) fields source now d there not_app v h = cc

  -- A broadcast that is read as an announcement is not a request of an app. It gives the device an id
  -- and a host that are not empty, if the datagram came from an address.
  pub parse_broadcast-Reads :
      (fields : Dict Value) (source : String) (now : ℕ) (d : DiscoveredDevice)
      → source ≢ ""
      → parse_broadcast full text_of (object fields) source now ≡ some d
      → Reads fields source now d
  unfolding parse_broadcast
  parse_broadcast-Reads fields source now d there h =
      elim (Bool-cases (is_text_of (field "from" fields) "app")) [
        | inl e ↦ cc (rw e at h)
        | inr e ↦
            announced-Reads (value_or full text_of (field "gwId" fields) (field "id" fields)) fields
              source now d there e refl (rw e at h)
      ]
