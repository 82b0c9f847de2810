-- ===== src/Lan/Search/Find/Found.antt =====
-- What a search by key finds (lan/search.py, `async_find_device`).
use mathlib.Core.Option.{some-injective}
use ha_birdie.Base.{
  String, ◌≡◌, sym, Bool-cases, refl, ◌∙◌, ap, Bool, true, false, ◌&&◌, ◌⊎◌, inl, inr, Option, none,
  some, List, [], ◌∷◌, arith, str_eq, str_eq_iff, contains, All,
}
use ha_birdie.Lan.Redact.{Secrets, count}
use ha_birdie.Lan.Search.Find.{
  FoundDevice, Sought, open_ports, attempt, found_or, first_found, find_device,
}
use ha_birdie.Lan.Search.Find.Tries.{Refuses, IsFound, attempt-found, attempt-none, attempt-secrets}

contains-open_ports :
    (accepts : String → Bool) (addresses : List String) (h : String)
    → contains (open_ports accepts addresses) h ≡ (contains addresses h && accepts h)
unfolding open_ports
contains-open_ports accepts [] h = refl
contains-open_ports accepts (a ∷ addresses) h =
    ground
      (arith, contains-open_ports accepts addresses h, str_eq_iff a h, ap accepts {x = a} {y = h})

All-contains {κ} :
    (P : String → Type κ) (xs : List String) (h : String) → All P xs → contains xs h ≡ true → P h
All-contains P [] h p m = cc
All-contains P (x ∷ xs) h (p, ps) m = elim (Bool-cases (str_eq x h)) [
  | inl e ↦ rw (← (str_eq_iff x h).0 e) p
  | inr e ↦ All-contains P xs h ps (rw e at m)
]

module _ (bytes_form : String → String) (q : Sought) where
  -- what the loop over the tries gives
  abbrev pub Outcome : List String → Option FoundDevice → Type 0
  Outcome hosts none = All (Refuses q) hosts
  Outcome hosts (some f) = (contains hosts f.host ≡ true) × IsFound q f

  first_found-step :
      (host : String) (hosts : List String) (a : Option FoundDevice × Secrets)
      → ((f : FoundDevice) → a.0 ≡ some f → (f.host ≡ host) × IsFound q f)
      → (a.0 ≡ none → Refuses q host)
      → ((s : Secrets) → Outcome hosts (first_found bytes_form q hosts s).0)
      → Outcome (host ∷ hosts) (found_or bytes_form q a (first_found bytes_form q hosts)).0
  first_found-step host hosts (some f, s) yes_found no_found rest =
      let (e, found) = yes_found f refl in (ground (arith, str_eq_iff host f.host), found)
  first_found-step host hosts (none, s) yes_found no_found rest =
      later (first_found bytes_form q hosts s).0 (rest s)
    where
      later : (o : Option FoundDevice) → Outcome hosts o → Outcome (host ∷ hosts) o
      later none h = (no_found refl, h)
      later (some f) (m, found) = (ground arith, found)

  first_found-Outcome :
      (hosts : List String) (s : Secrets) → Outcome hosts (first_found bytes_form q hosts s).0
  unfolding first_found
  first_found-Outcome [] s = tt
  first_found-Outcome (host ∷ hosts) s =
      first_found-step host hosts (attempt bytes_form q host s)
        (λ f h. attempt-found bytes_form q host s h) (attempt-none bytes_form q host s)
        (first_found-Outcome hosts)

  first_found-secrets :
      (hosts : List String) (s : Secrets) (k : String)
      → count k (first_found bytes_form q hosts s).1 ≡ count k s
  unfolding first_found
  first_found-secrets [] s k = refl
  first_found-secrets (host ∷ hosts) s k =
      go (attempt bytes_form q host s) (attempt-secrets bytes_form q host s k)
        (first_found-secrets hosts (attempt bytes_form q host s).1 k)
    where
      go :
          (a : Option FoundDevice × Secrets)
          → count k a.1 ≡ count k s
          → count k (first_found bytes_form q hosts a.1).1 ≡ count k a.1
          → count k (found_or bytes_form q a (first_found bytes_form q hosts)).1 ≡ count k s
      go (some f, s') h rest = h
      go (none, s') h rest = rest ∙ h

  -- A search leaves the registry of redacted secrets as it was.
  pub find_device-secrets :
      (accepts : String → Bool) (order : List String → List String) (addresses : List String)
      (s : Secrets) (k : String)
      → count k (find_device bytes_form q accepts order addresses s).1 ≡ count k s
  unfolding find_device
  find_device-secrets accepts order addresses s k =
      first_found-secrets (order (open_ports accepts addresses)) s k

  -- what is found was reached with the key
  pub find_device-IsFound :
      (accepts : String → Bool) (order : List String → List String) (addresses : List String)
      (s : Secrets) (f : FoundDevice)
      → (find_device bytes_form q accepts order addresses s).0 ≡ some f
      → IsFound q f
  unfolding find_device
  find_device-IsFound accepts order addresses s f h =
      go (first_found bytes_form q (order (open_ports accepts addresses)) s).0 h
        (first_found-Outcome (order (open_ports accepts addresses)) s)
    where
      go :
          (o : Option FoundDevice)
          → o ≡ some f
          → Outcome (order (open_ports accepts addresses)) o
          → IsFound q f
      go none e outcome = cc
      go (some g) e outcome = rw (← some-injective g f e) outcome.1

  module _ (accepts : String → Bool) (order : List String → List String)
      (permutes : (hosts : List String) (h : String)
        → contains (order hosts) h ≡ contains hosts h) where
    candidates-contains :
        (addresses : List String) (h : String)
        → contains (order (open_ports accepts addresses)) h ≡ (contains addresses h && accepts h)
    candidates-contains addresses h =
        permutes (open_ports accepts addresses) h ∙ contains-open_ports accepts addresses h

    -- The key is tried at the addresses of the list that accept connections, in any order. Either a
    -- device is found at such an address, reached there with the key, or none is found, and an
    -- address does not accept connections, is not on the list, or refuses the key at every version.
    pub find_device-found :
        (addresses : List String) (s : Secrets) (host : String)
        → ((f : FoundDevice) × ((find_device bytes_form q accepts order addresses s).0 ≡ some f)
            × (contains addresses f.host ≡ true)
            × (accepts f.host ≡ true)
            × IsFound q f)
          ⊎ (((find_device bytes_form q accepts order addresses s).0 ≡ none)
              × (((contains addresses host && accepts host) ≡ false) ⊎ Refuses q host))
    unfolding find_device
    find_device-found addresses s host =
        go (first_found bytes_form q hosts s).0 refl (first_found-Outcome hosts s)
      where
        hosts : List String
        hosts = order (open_ports accepts addresses)

        go :
            (o : Option FoundDevice)
            → (first_found bytes_form q hosts s).0 ≡ o
            → Outcome hosts o
            → ((f : FoundDevice) × ((first_found bytes_form q hosts s).0 ≡ some f)
                × (contains addresses f.host ≡ true)
                × (accepts f.host ≡ true)
                × IsFound q f)
              ⊎ (((first_found bytes_form q hosts s).0 ≡ none)
                  × (((contains addresses host && accepts host) ≡ false) ⊎ Refuses q host))
        go (some f) e (m, found) = inl (
          f,
          e,
          ground (arith, candidates-contains addresses f.host),
          ground (arith, candidates-contains addresses f.host),
          found,
        )
        go none e refused = inr (
          e,
          elim (Bool-cases (contains addresses host && accepts host)) [
            | inl m ↦ inr (
                All-contains (Refuses q) hosts host refused
                  (candidates-contains addresses host ∙ m))
            | inr n ↦ inl n
          ],
        )

    -- the address of what is found
    pub found_open :
        (addresses : List String) (s : Secrets) (f : FoundDevice)
        → (find_device bytes_form q accepts order addresses s).0 ≡ some f
        → (contains addresses f.host ≡ true) × (accepts f.host ≡ true) × IsFound q f
    found_open addresses s f h = elim (find_device-found addresses s f.host) [
      | inl (g, e, m, opened, found) ↦
          let same : g ≡ f = some-injective g f (sym e ∙ h) in
          (rw (← same) m, rw (← same) opened, rw (← same) found)
      | inr (e, refused) ↦ cc
    ]
