-- ===== src/Purifier/Discovery/Network.antt =====
-- custom_components/birdie/purifier/discovery.py: the network search of a device that does not announce
-- itself, over the addresses around our own ones (`async_local_ipv4_interfaces`,
-- `async_search_network`). The text of an address is given.
use ha_birdie.Base.{
  ℕ, ◌==◌, String, ◌≡◌, refl, Bool, true, false, Bool-cases, inl, inr, Option, none, some, List, [],
  ◌∷◌, ◌++◌, map, arith, str_eq, str_eq_iff, contains, if◌then◌else◌, All,
}
use ha_birdie.Lan.Redact.{Secrets, count}
use ha_birdie.Lan.Search.{Interface, among, own_addresses, addresses_to_search}
use ha_birdie.Lan.Search.Bounds.{is_near, addresses_to_search-IsFit}
use ha_birdie.Lan.Search.Find.{FoundDevice, Sought, find_device}
use ha_birdie.Lan.Search.Find.Tries.{IsFound}
use ha_birdie.Lan.Search.Find.Found.{find_device-IsFound, find_device-secrets, found_open}

-- A network adapter; the properties of its addresses are those of `Interface`.
pub record Adapter : Type 0 where
  pub enabled : Bool
  pub ipv4 : List Interface

-- `async_local_ipv4_interfaces`
unfoldable pub local_interfaces : List Adapter → List Interface
local_interfaces [] = []
local_interfaces (a ∷ adapters) =
    let rest = local_interfaces adapters in if a.enabled then a.ipv4 ++ rest else rest

module _ (bytes_form : String → String) (accepts : String → Bool)
    (order : List String → List String) (q : Sought) where
  -- the search at the addresses, where there are any
  abbrev pub find_among : List String → Secrets → Option FoundDevice × Secrets
  find_among [] secrets = (none, secrets)
  find_among (a ∷ addresses) secrets =
      find_device bytes_form q accepts order (a ∷ addresses) secrets

  -- `async_search_network`
  unfoldable pub search_network :
      (ℕ → String) → List Adapter → Secrets → Option FoundDevice × Secrets
  search_network text_of adapters secrets =
      find_among (map text_of (addresses_to_search (local_interfaces adapters))) secrets

  find_among-IsFound :
      (addresses : List String) (s : Secrets) (f : FoundDevice)
      → (find_among addresses s).0 ≡ some f
      → IsFound q f
  find_among-IsFound [] s f h = cc
  find_among-IsFound (a ∷ addresses) s f h =
      find_device-IsFound bytes_form q accepts order (a ∷ addresses) s f h

  find_among-secrets :
      (addresses : List String) (s : Secrets) (k : String)
      → count k (find_among addresses s).1 ≡ count k s
  find_among-secrets [] s k = refl
  find_among-secrets (a ∷ addresses) s k =
      find_device-secrets bytes_form q accepts order (a ∷ addresses) s k

  find_among-found :
      ((hosts : List String) (h : String) → contains (order hosts) h ≡ contains hosts h)
      → (addresses : List String) (s : Secrets) (f : FoundDevice)
      → (find_among addresses s).0 ≡ some f
      → (contains addresses f.host ≡ true) × (accepts f.host ≡ true) × IsFound q f
  find_among-found permutes [] s f h = cc
  find_among-found permutes (a ∷ addresses) s f h =
      found_open bytes_form q accepts order permutes (a ∷ addresses) s f h

module _ (text_of : ℕ → String) where
  contains-map :
      (xs : List ℕ) (t : String)
      → contains (map text_of xs) t ≡ true
      → (a : ℕ) × (among a xs ≡ true) × (t ≡ text_of a)
  contains-map [] t h = cc
  contains-map (x ∷ xs) t h = elim (Bool-cases (str_eq (text_of x) t)) [
    | inl e ↦ (x, ground arith, ground (arith, str_eq_iff (text_of x) t))
    | inr e ↦ let (a, m, same) = contains-map xs t (ground arith) in (a, ground arith, same)
  ]

All-among {κ} : (P : ℕ → Type κ) (xs : List ℕ) (a : ℕ) → All P xs → among a xs ≡ true → P a
All-among P [] a h m = cc
All-among P (x ∷ xs) a (p, ps) m = elim (Bool-cases (a == x)) [
  | inl e ↦ let same : x ≡ a = ground arith in rw (← same) p
  | inr e ↦ All-among P xs a ps (ground arith)
]

module _ (bytes_form : String → String) (accepts : String → Bool)
    (order : List String → List String) (q : Sought) (text_of : ℕ → String)
    (adapters : List Adapter) where
  abbrev searched : List ℕ
  searched = addresses_to_search (local_interfaces adapters)

  pub search_network-IsFound :
      (s : Secrets) (f : FoundDevice)
      → (search_network bytes_form accepts order q text_of adapters s).0 ≡ some f
      → IsFound q f
  unfolding search_network
  search_network-IsFound s f h =
      find_among-IsFound bytes_form accepts order q (map text_of searched) s f h

  pub search_network-secrets :
      (s : Secrets) (k : String)
      → count k (search_network bytes_form accepts order q text_of adapters s).1 ≡ count k s
  unfolding search_network
  search_network-secrets s k =
      find_among-secrets bytes_form accepts order q (map text_of searched) s k

  -- A search of the network, which tries the addresses in any order, finds a device only at the text
  -- of an address that has the first 24 bits of a usable address of an enabled adapter and is not our
  -- own. That address accepts connections, and the device was reached there with the key.
  pub search_network-found :
      ((hosts : List String) (h : String) → contains (order hosts) h ≡ contains hosts h)
      → (s : Secrets) (f : FoundDevice)
      → (search_network bytes_form accepts order q text_of adapters s).0 ≡ some f
      → (a : ℕ) × (f.host ≡ text_of a)
        × (is_near (local_interfaces adapters) a ≡ true)
        × (among a (own_addresses (local_interfaces adapters)) ≡ false)
        × (accepts f.host ≡ true)
        × IsFound q f
  unfolding search_network
  search_network-found permutes s f h =
      let fit = addresses_to_search-IsFit (local_interfaces adapters) in
      let (m, opened, found) =
        find_among-found bytes_form accepts order q permutes (map text_of searched) s f h in
      let (a, tried, same) = contains-map text_of searched f.host m in
      (
        a,
        same,
        All-among (λ b. is_near (local_interfaces adapters) b ≡ true) searched a fit.near tried,
        All-among (λ b. among b (own_addresses (local_interfaces adapters)) ≡ false) searched a
            fit.foreign tried,
        opened,
        found,
      )
