-- ===== src/Lan/Discovery.antt =====
-- custom_components/birdie/lan/discovery.py: reading a broadcast, the listener, and a search for
-- announcements. Decryption and `json.loads` are the library's: a payload is what they give. Times are
-- in milliseconds. A callback is a number, and the listener notes the calls, the newest first.
pub mod Broadcast
pub mod Collect
mod Tests
use ha_birdie.Base.{
  ℕ, ◌+◌, ◌-◌, ◌*◌, min, String, Bool, true, false, not, ◌&&◌, ◌||◌, Option, none, some, List, [],
  ◌∷◌, ◌++◌, str_eq, ◌==◌, leb, if◌then◌else◌, is_some, get_or,
}
use ha_birdie.Base.Int.{ℤ, pos, negsuc}
use ha_birdie.Base.Dict.{Dict, lookup, insert}
use ha_birdie.Dps.{Value, null, bool, int, float, str, composite}

abbrev pub request_interval : ℕ
request_interval = 6000

pub record DiscoveredDevice : Type 0 where
  pub device_id : String
  pub host : String
  pub protocol_version : Option String
  pub product_key : Option String
  pub seen_at : ℕ

-- what a datagram decodes to; `corrupt` is an exception of the library or of `json.loads`
pub data Payload : Type 0 where
  corrupt : Payload
  other : Payload
  object : Dict Value → Payload

-- `payload.get(k)`
abbrev pub field : String → Dict Value → Value
field k fields = get_or (lookup k fields) null

abbrev pub is_text_of : Value → String → Bool
is_text_of (str s) t = str_eq s t
is_text_of _ t = false

abbrev nonzero : ℤ → Bool
nonzero (pos n) = not (n == 0)
nonzero (negsuc n) = true

-- the host of an announcement: `host or source_ip`
abbrev pub host_of : Value → String → String
host_of (str s) source = if str_eq s "" then source else s
host_of _ source = source

-- Whether a list or an object is empty, and `str` of a value, are Python's.
module _ (full : ℕ → Bool) (text_of : Value → String) where
  -- `bool(v)`
  unfoldable pub truthy : Value → Bool
  truthy null = false
  truthy (bool b) = b
  truthy (int z) = nonzero z
  truthy (float z k) = nonzero z
  truthy (str s) = not (str_eq s "")
  truthy (composite n) = full n

  -- `str(v) if v else None`
  abbrev pub text_if : Value → Option String
  text_if v = if truthy v then some (text_of v) else none

  -- a device of this id, unless it is no text or empty
  abbrev pub announced : Value → Dict Value → String → ℕ → Option DiscoveredDevice
  announced (str id) fields source now =
      if str_eq id ""
      then none
      else some (record {
        device_id = id;
        host = host_of (field "ip" fields) source;
        protocol_version = text_if (field "version" fields);
        product_key = text_if (field "productKey" fields);
        seen_at = now;
      })
  announced _ fields source now = none

  -- `a or b`
  abbrev pub value_or : Value → Value → Value
  value_or a b = if truthy a then a else b

  -- `parse_broadcast`
  unfoldable pub parse_broadcast : Payload → String → ℕ → Option DiscoveredDevice
  unfolding truthy
  parse_broadcast corrupt source now = none
  parse_broadcast other source now = none
  parse_broadcast (object fields) source now =
      if is_text_of (field "from" fields) "app"
      then none
      else announced (value_or (field "gwId" fields) (field "id" fields)) fields source now

-- `DiscoveryListener`; `transports` has the ports that are bound.
pub record DiscoveryListener : Type 0 where
  pub ports : List ℕ
  pub request_port : Option ℕ
  pub transports : List ℕ
  pub callbacks : List ℕ
  pub devices : Dict DiscoveredDevice
  pub calls : List (ℕ × DiscoveredDevice)
  pub requests : ℕ

-- `listening`
abbrev pub is_listening : DiscoveryListener → Bool
is_listening l = elim l.transports [ [] ↦ false | p ∷ ps ↦ true ]

-- `add_callback`
unfoldable pub add_callback : ℕ → DiscoveryListener → DiscoveryListener
add_callback k l = record l { callbacks = l.callbacks ++ k ∷ [] }

abbrev pub drop_callback : ℕ → List ℕ → List ℕ
drop_callback k [] = []
drop_callback k (j ∷ js) = if j == k then js else j ∷ drop_callback k js

-- the remover that `add_callback` returns
unfoldable pub remove_callback : ℕ → DiscoveryListener → DiscoveryListener
remove_callback k l = record l { callbacks = drop_callback k l.callbacks }

abbrev pub call_all :
    List ℕ → DiscoveredDevice → List (ℕ × DiscoveredDevice) → List (ℕ × DiscoveredDevice)
call_all [] d calls = calls
call_all (k ∷ ks) d calls = call_all ks d ((k, d) ∷ calls)

-- `handle`: an exception of a callback is caught, so that each one is called
unfoldable pub handle : DiscoveredDevice → DiscoveryListener → DiscoveryListener
handle d l = record l {
  devices = insert d.device_id d l.devices;
  calls = call_all l.callbacks d l.calls;
}

-- the ports that can be bound
abbrev pub bind_all : (ℕ → Bool) → List ℕ → List ℕ
bind_all binds [] = []
bind_all binds (p ∷ ps) = let rest = bind_all binds ps in if binds p then p ∷ rest else rest

-- `async_start`
unfoldable pub start : (ℕ → Bool) → DiscoveryListener → DiscoveryListener
start binds l = record l { transports = l.transports ++ bind_all binds l.ports }

-- `async_stop`
unfoldable pub stop : DiscoveryListener → DiscoveryListener
stop l = record l { transports = [] }

-- `async_request`; an error of the socket is only logged
unfoldable pub request : DiscoveryListener → DiscoveryListener
request l =
    if is_some l.request_port && is_listening l then record l { requests = l.requests + 1 } else l
