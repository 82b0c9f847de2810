-- ===== src/Lan/Search.antt =====
-- custom_components/birdie/lan/search.py: the addresses that a search tries. An IPv4 address is its
-- number, since its text is another form of it.
pub mod Bounds
pub mod Find
mod Tests
use ha_birdie.Base.{
  ℕ, zero, suc, ◌+◌, ◌-◌, ◌%◌, ◌^◌, Bool, true, false, not, ◌&&◌, ◌||◌, List, [], ◌∷◌, ◌++◌, ◌==◌,
  ltb, leb, if◌then◌else◌, length,
}

abbrev pub max_addresses : ℕ
max_addresses = 1024

abbrev pub smallest_prefix : ℕ
smallest_prefix = 24

-- `IPv4Interface`, with the properties of its address that the code reads
pub record Interface : Type 0 where
  pub ip : ℕ
  pub prefixlen : ℕ
  pub is_private : Bool
  pub is_loopback : Bool
  pub is_link_local : Bool

abbrev pub among : ℕ → List ℕ → Bool
among a [] = false
among a (b ∷ bs) = (a == b) || among a bs

-- `n` addresses from `a` on
unfoldable pub addresses_from : ℕ → ℕ → List ℕ
addresses_from a zero = []
addresses_from a (suc n) = a ∷ addresses_from (a + 1) n

-- the prefix of the network that is searched
abbrev pub searched_prefix : Interface → ℕ
searched_prefix i = if ltb i.prefixlen smallest_prefix then smallest_prefix else i.prefixlen

-- `network.hosts()` of the network of `2 ^ host_bits` addresses around `ip`: without the first and the
-- last one, where there are more than two
unfoldable pub hosts : ℕ → ℕ → List ℕ
unfolding addresses_from
hosts ip host_bits =
    let size = 2 ^ host_bits in
    let first = ip - ip % size in
    if leb size 2 then addresses_from first size else addresses_from (first + 1) (size - 2)

-- the inner loop: the addresses so far, and no more than `max_addresses` of them
unfoldable pub collect : List ℕ → List ℕ → List ℕ → List ℕ
collect own [] found = found
collect own (a ∷ candidates) found =
    let skipped = collect own candidates found in
    let taken = collect own candidates (found ++ a ∷ []) in
    if leb max_addresses (length found)
    then found
    else if among a own || among a found
    then skipped
    else taken

abbrev pub usable : Interface → Bool
usable i = i.is_private && (not i.is_loopback && not i.is_link_local)

-- the outer loop
unfoldable pub search_all : List ℕ → List Interface → List ℕ → List ℕ
search_all own [] found = found
search_all own (i ∷ interfaces) found =
    let candidates = hosts i.ip (32 - searched_prefix i) in
    search_all own interfaces (if usable i then collect own candidates found else found)

abbrev pub own_addresses : List Interface → List ℕ
own_addresses [] = []
own_addresses (i ∷ interfaces) = i.ip ∷ own_addresses interfaces

-- `addresses_to_search`
unfoldable pub addresses_to_search : List Interface → List ℕ
addresses_to_search interfaces = search_all (own_addresses interfaces) interfaces []
