-- ===== src/Lan/Discovery/Collect/Waits.antt =====
-- The waits of a search for announcements, and what is heard in them (lan/discovery.py).
use ha_birdie.Base.{
  ℕ, zero, suc, ◌+◌, ◌-◌, ◌≤◌, min, String, ◌≡◌, refl, Bool, true, false, ◌||◌, Option, none, some,
  List, [], ◌∷◌, ◌++◌, arith, str_eq, leb, if◌then◌else◌, or_else, length, ◌⊎◌, inl, inr, ◌<◌,
}
use ha_birdie.Base.Dict.{Dict, lookup, has_key, lookup-insert}
use ha_birdie.Lan.Discovery.{DiscoveredDevice, request_interval}
use ha_birdie.Lan.Discovery.Collect.{Wait, Found, hear, hear_all, asked, already}

-- the last announcement of a device
abbrev pub latest : String → List DiscoveredDevice → Option DiscoveredDevice
latest id [] = none
latest id (d ∷ ds) = or_else (latest id ds) (if str_eq d.device_id id then some d else none)

-- what is announced in the first `n` waits
abbrev pub heard_in : ℕ → List Wait → List DiscoveredDevice
heard_in zero ws = []
heard_in (suc n) [] = []
heard_in (suc n) (w ∷ ws) = w.heard ++ heard_in n ws

pub latest-append :
    (id : String) (ds es : List DiscoveredDevice)
    → latest id (ds ++ es) ≡ or_else (latest id es) (latest id ds)
latest-append id [] es = ground arith
latest-append id (d ∷ ds) es = ground (arith, latest-append id ds es)

pub lookup-hear_all :
    (wanted : Option String) (k : String) (ds : List DiscoveredDevice) (f : Found)
    → lookup k (hear_all wanted ds f).found ≡ or_else (latest k ds) (lookup k f.found)
unfolding hear_all hear
lookup-hear_all wanted k [] f = refl
lookup-hear_all wanted k (d ∷ ds) f =
    ground
      (arith, lookup-hear_all wanted k ds (hear wanted d f), lookup-insert d.device_id k d f.found)

-- the device that is looked for is among these
abbrev pub hears : Option String → List DiscoveredDevice → Bool
hears none ds = false
hears (some id) [] = false
hears (some id) (d ∷ ds) = str_eq d.device_id id || hears (some id) ds

module _ (wanted : Option String) (deadline : ℕ) where
  -- the time after a wait: it lasts until the next request or the deadline, and is late by its delay
  abbrev pub time_after : ℕ → Wait → ℕ
  time_after now w = now + min request_interval (deadline - now) + w.late

  -- The number of waits of a search that begins to wait at a time: in the last one the device that is
  -- looked for is heard or the deadline passes, and in none before it.
  pub data Waited : ℕ → List Wait → ℕ → Type 0 where
    last :
        {now : ℕ} {w : Wait} {ws : List Wait}
        → (hears wanted w.heard ≡ true) ⊎ (deadline ≤ time_after now w)
        → Waited now (w ∷ ws) 1
    more :
        {now : ℕ} {w : Wait} {ws : List Wait} {n : ℕ}
        → hears wanted w.heard ≡ false
        → time_after now w < deadline
        → Waited (time_after now w) ws n
        → Waited now (w ∷ ws) (suc n)

  -- The number of waits of a search: none exactly where it looks for a device that is known.
  pub data Takes (known : Dict DiscoveredDevice) : ℕ → List Wait → ℕ → Type 0 where
    at_once :
        {now : ℕ} {ws : List Wait} (id : String)
        → wanted ≡ some id
        → has_key id known ≡ true
        → Takes known now ws 0
    waiting :
        {now : ℕ} {ws : List Wait} {n : ℕ}
        → ((id : String) → wanted ≡ some id → has_key id known ≡ false)
        → Waited now ws n
        → Takes known now ws n

  -- After the waits that a search takes, each device has its last announcement in them, or else the
  -- one that was known before.
  pub record Collected (now : ℕ) (ws : List Wait) (known : Dict DiscoveredDevice) (r : Found)
      : Type 0 where
    pub waits : ℕ
    pub enough : waits ≤ length ws
    pub taken : Takes known now ws waits
    pub shows :
        (k : String) → lookup k r.found ≡ or_else (latest k (heard_in waits ws)) (lookup k known)

pub hear_all-done :
    (wanted : Option String) (ds : List DiscoveredDevice) (f : Found)
    → (hear_all wanted ds f).done ≡ (f.done || hears wanted ds)
unfolding hear_all hear
hear_all-done none [] f = ground arith
hear_all-done none (d ∷ ds) f = ground (arith, hear_all-done none ds (hear none d f))
hear_all-done (some id) [] f = ground arith
hear_all-done (some id) (d ∷ ds) f = ground (arith, hear_all-done (some id) ds (hear (some id) d f))

pub or_else_assoc :
    {A : Type 0} (a b c : Option A) → or_else a (or_else b c) ≡ or_else (or_else a b) c
or_else_assoc none b c = refl
or_else_assoc (some a) b c = refl

pub asked-found : (requests : Bool) (f : Found) → (asked requests f).found ≡ f.found
asked-found true f = refl
asked-found false f = refl

pub asked-done : (requests : Bool) (f : Found) → (asked requests f).done ≡ f.done
asked-done true f = refl
asked-done false f = refl

pub stops_cases : (a b : Bool) (m n : ℕ) → a ≡ b → (a || leb m n) ≡ true → (b ≡ true) ⊎ (m ≤ n)
stops_cases a true m n h e = inl refl
stops_cases a false m n h e = inr (ground (arith, h, e))

pub already-Takes :
    (wanted : Option String) (deadline : ℕ) (known : Dict DiscoveredDevice) (now : ℕ)
    (ws : List Wait)
    → already wanted known ≡ true
    → Takes wanted deadline known now ws 0
already-Takes none deadline known now ws h = cc
already-Takes (some id) deadline known now ws h = at_once id refl h

pub not_already-unknown :
    (wanted : Option String) (known : Dict DiscoveredDevice)
    → already wanted known ≡ false
    → (id : String) → wanted ≡ some id
    → has_key id known ≡ false
not_already-unknown wanted known h id e = rw e at h
