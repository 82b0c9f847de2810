-- ===== src/Lan/Search/Bounds.antt =====
-- Which addresses are tried, and how many (lan/search.py, `addresses_to_search`).
use ha_birdie.Base.{
  ℕ, zero, suc, ◌+◌, ◌-◌, ◌/◌, ◌%◌, ◌^◌, ◌≤◌, ◌<◌, ◌≡◌, refl, Bool, true, false, ◌&&◌, ◌||◌, List,
  [], ◌∷◌, ◌++◌, arith, ◌==◌, leb, if◌then◌else◌, length, All, Bool-cases, inl, inr,
}
use ha_birdie.Lan.Search.{
  Interface, max_addresses, among, addresses_from, searched_prefix, hosts, collect, usable,
  search_all, own_addresses, addresses_to_search,
}

-- No address stands twice.
abbrev pub AllDifferent : List ℕ → Type 0
AllDifferent [] = Unit
AllDifferent (a ∷ as') = (among a as' ≡ false) × AllDifferent as'

-- The address has the first 24 bits of the address of a usable interface.
abbrev pub is_near : List Interface → ℕ → Bool
is_near [] a = false
is_near (i ∷ is) a = (usable i && (i.ip / 256 == a / 256)) || is_near is a

All-map : {P Q : ℕ → Type 0} → ((a : ℕ) → P a → Q a) → (xs : List ℕ) → All P xs → All Q xs
All-map f [] h = tt
All-map f (x ∷ xs) (p, h) = (f x p, All-map f xs h)

length-snoc : (xs : List ℕ) (a : ℕ) → length (xs ++ a ∷ []) ≡ length xs + 1
length-snoc [] a = refl
length-snoc (x ∷ xs) a = omega (arith, length-snoc xs a)

All-snoc : (P : ℕ → Type 0) (xs : List ℕ) (a : ℕ) → All P xs → P a → All P (xs ++ a ∷ [])
All-snoc P [] a h p = (p, tt)
All-snoc P (x ∷ xs) a (q, h) p = (q, All-snoc P xs a h p)

among-snoc : (b : ℕ) (xs : List ℕ) (a : ℕ) → among b (xs ++ a ∷ []) ≡ (among b xs || (b == a))
among-snoc b [] a = ground arith
among-snoc b (x ∷ xs) a = ground (arith, among-snoc b xs a)

AllDifferent-snoc :
    (xs : List ℕ) (a : ℕ) → AllDifferent xs → among a xs ≡ false → AllDifferent (xs ++ a ∷ [])
AllDifferent-snoc [] a h n = (refl, tt)
AllDifferent-snoc (x ∷ xs) a (d, h) n =
    (ground (arith, among-snoc x xs a), AllDifferent-snoc xs a h (ground arith))

addresses_from-range : (a n : ℕ) → All (λ b. (a ≤ b) × (b < a + n)) (addresses_from a n)
unfolding addresses_from
addresses_from-range a zero = tt
addresses_from-range a (suc n) = (
  (omega arith, omega arith),
  All-map (λ b h. (omega (arith, h.0), omega (arith, h.1))) _ (addresses_from-range (a + 1) n),
)

module _ (ip : ℕ) where
  same_block :
      (k b : ℕ) → k ≤ 8 → ip - ip % 2 ^ k ≤ b → b < ip - ip % 2 ^ k + 2 ^ k → ip / 256 ≡ b / 256
  same_block zero b h low high = omega arith
  same_block (suc zero) b h low high = omega arith
  same_block (suc (suc zero)) b h low high = omega arith
  same_block (suc (suc (suc zero))) b h low high = omega arith
  same_block (suc (suc (suc (suc zero)))) b h low high = omega arith
  same_block (suc (suc (suc (suc (suc zero))))) b h low high = omega arith
  same_block (suc (suc (suc (suc (suc (suc zero)))))) b h low high = omega arith
  same_block (suc (suc (suc (suc (suc (suc (suc zero))))))) b h low high = omega arith
  same_block (suc (suc (suc (suc (suc (suc (suc (suc zero)))))))) b h low high = omega arith
  same_block (suc (suc (suc (suc (suc (suc (suc (suc (suc k))))))))) b h low high =
      absurd (omega arith)

  -- The addresses of a network of at most 256 have the first 24 bits of the given one.
  hosts-near : (k : ℕ) → k ≤ 8 → All (λ b. ip / 256 ≡ b / 256) (hosts ip k)
  unfolding hosts
  hosts-near k h = elim (Bool-cases (leb (2 ^ k) 2)) [
    | inl e ↦ rw e (
        All-map (λ b (l, u). same_block k b h l u) _
          (addresses_from-range (ip - ip % 2 ^ k) (2 ^ k)))
    | inr e ↦ rw e (
        All-map (λ b (l, u). same_block k b h (omega arith) (ground arith)) _
          (addresses_from-range (ip - ip % 2 ^ k + 1) (2 ^ k - 2)))
  ]

-- what is found is a list of at most `max_addresses` addresses that are near and not our own, none
-- of them twice
pub record IsFit (interfaces : List Interface) (own found : List ℕ) : Type 0 where
  pub different : AllDifferent found
  pub few : length found ≤ max_addresses
  pub near : All (λ a. is_near interfaces a ≡ true) found
  pub foreign : All (λ a. among a own ≡ false) found

module _ (all : List Interface) (own : List ℕ) where
  collect-IsFit :
      (candidates found : List ℕ)
      → All (λ a. is_near all a ≡ true) candidates
      → IsFit all own found
      → IsFit all own (collect own candidates found)
  unfolding collect
  collect-IsFit [] found n h = h
  collect-IsFit (a ∷ candidates) found (m, n) h =
      elim (Bool-cases (leb max_addresses (length found))) [
        | inl full ↦ rw full h
        | inr more ↦ elim (Bool-cases (among a own || among a found)) [
          | inl known ↦ rw (more, known) (collect-IsFit candidates found n h)
          | inr new ↦
              rw (more, new)
                (collect-IsFit candidates (found ++ a ∷ []) n (record {
                  different = AllDifferent-snoc found a h.different (ground arith);
                  few = rw length-snoc (ground arith);
                  near = All-snoc _ found a h.near m;
                  foreign = All-snoc _ found a h.foreign (ground arith);
                }))
        ]
      ]

  choose-IsFit :
      (b : Bool) (p q : List ℕ)
      → (b ≡ true → IsFit all own p)
      → IsFit all own q
      → IsFit all own (if b then p else q)
  choose-IsFit true p q hp hq = hp refl
  choose-IsFit false p q hp hq = hq

  -- The interface's addresses are near.
  abbrev Covers : Interface → Type 0
  Covers i = (a : ℕ) → usable i ≡ true → i.ip / 256 ≡ a / 256 → is_near all a ≡ true

  search_all-IsFit :
      (interfaces : List Interface) (found : List ℕ)
      → All Covers interfaces
      → IsFit all own found
      → IsFit all own (search_all own interfaces found)
  unfolding search_all
  search_all-IsFit [] found n h = h
  search_all-IsFit (i ∷ interfaces) found (m, n) h = search_all-IsFit interfaces _ n (
      choose-IsFit (usable i) _ _
        (λ u.
          collect-IsFit (hosts i.ip (32 - searched_prefix i)) found
            (All-map (λ a e. m a u e) _ (hosts-near i.ip (32 - searched_prefix i) (ground arith)))
            h)
        h)

Covers-weaken :
    (j : Interface) (all is : List Interface)
    → All (Covers all []) is
    → All (Covers (j ∷ all) []) is
Covers-weaken j all [] h = tt
Covers-weaken j all (i ∷ is) (m, h) = (λ a u e. ground (arith, m a u e), Covers-weaken j all is h)

Covers-own : (is : List Interface) → All (Covers is []) is
Covers-own [] = tt
Covers-own (i ∷ is) = (λ a u e. ground (arith, u, e), Covers-weaken i is is (Covers-own is))

-- The addresses of a search are at most 1024, none of them twice and none of them our own, and each
-- has the first 24 bits of a private address of ours that is not loopback or link-local.
pub addresses_to_search-IsFit :
    (interfaces : List Interface)
    → IsFit interfaces (own_addresses interfaces) (addresses_to_search interfaces)
unfolding addresses_to_search
addresses_to_search-IsFit interfaces =
    search_all-IsFit interfaces (own_addresses interfaces) interfaces [] (Covers-own interfaces)
      (record { different = tt; few = omega arith; near = tt; foreign = tt })
