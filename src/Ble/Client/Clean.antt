-- ===== src/Ble/Client/Clean.antt =====
-- A client without a connection holds nothing of an old one (client.py).
use ha_birdie.Base.{
  String, ◌≡◌, refl, Bool, true, false, Option, none, [], arith, is_some, Bool-cases, inl, inr,
}
use ha_birdie.Ble.Client.{
  BleClient, Services, Meeting, is_connected, connect, disconnect, handle_disconnect, start_notify,
  get_services, have_known,
}

-- Without a client there are no services and no subscriptions.
pub record IsClean (b : BleClient) : Type 0 where
  pub no_services : is_some b.client ≡ false → b.services ≡ none
  pub no_notify : is_some b.client ≡ false → b.notify ≡ []

pub disconnect-IsClean : (b : BleClient) → IsClean (disconnect b)
unfolding disconnect
disconnect-IsClean b = record { no_services = λ h. refl; no_notify = λ h. refl }

pub handle_disconnect-IsClean : (b : BleClient) → IsClean (handle_disconnect b).0
unfolding handle_disconnect
handle_disconnect-IsClean b = record { no_services = λ h. refl; no_notify = λ h. refl }

pub connect-IsClean : (m : Meeting) (b : BleClient) → IsClean b → IsClean (connect m b).1
unfolding connect
connect-IsClean m b h = ground arith

pub start_notify-IsClean :
    (works : String → Bool) (b : BleClient) → IsClean b → IsClean (start_notify works b).1
unfolding start_notify
start_notify-IsClean works b h = ground arith

get_services-known :
    (cached fetched : Option Services)
    → is_some (get_services cached fetched) ≡ true
    → have_known (get_services cached fetched) ≡ true
unfolding get_services
get_services-known cached fetched h = elim (Bool-cases (have_known cached)) [
  | inl e ↦ rw e e
  | inr e ↦ elim (Bool-cases (have_known fetched)) [
    | inl f ↦ rw (e, f) f
    | inr f ↦ cc (rw (e, f) at h)
  ]
]

pub connect-connected :
    (m : Meeting) (b : BleClient) → (connect m b).0 ≡ is_connected (connect m b).1
unfolding connect
connect-connected m b = ground arith

-- A connection attempt from a disconnected client that reports success leaves the client connected,
-- with services that have a characteristic the code knows.
pub connect-known :
    (m : Meeting) (b : BleClient)
    → is_connected b ≡ false
    → (connect m b).0 ≡ true
    → (is_connected (connect m b).1 ≡ true) × (have_known ((connect m b).1).services ≡ true)
unfolding connect
connect-known m b off done = ground (arith, get_services-known m.cached m.fetched)
