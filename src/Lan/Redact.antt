-- ===== src/Lan/Redact.antt =====
-- custom_components/birdie/lan/redact.py: how often each secret is registered. `_lock` makes each
-- call one step, and `_install`, which attaches the log filter, is not modelled.
-- `bytes_form s` is `repr(s.encode("latin1", "replace"))[2:-1]`.
pub mod Balance
pub mod Filter
pub mod Hides
mod Tests
use ha_birdie.Base.{
  ℕ, ◌+◌, ◌-◌, String, Bool, Option, none, some, List, [], ◌∷◌, str_eq, leb, get_or, if◌then◌else◌,
}
use ha_birdie.Base.Dict.{Dict, lookup, insert, remove}

-- `Counter[str]`
abbrev pub Secrets : Type 0
Secrets = Dict ℕ

-- `_secrets[secret]`, 0 for a missing key
unfoldable pub count : String → Secrets → ℕ
count k s = get_or (lookup k s) 0

unfoldable pub add_one : String → Secrets → Secrets
unfolding count
add_one k s = insert k (count k s + 1) s

-- the body of the loop in `unregister_secret`
unfoldable pub drop_one : String → Secrets → Secrets
unfolding count
drop_one k s = if leb (count k s) 1 then remove k s else insert k (count k s - 1) s

-- `_secrets.update(ks)`
unfoldable pub add_all : List String → Secrets → Secrets
add_all [] s = s
add_all (k ∷ ks) s = add_all ks (add_one k s)

-- the loop in `unregister_secret`
unfoldable pub drop_all : List String → Secrets → Secrets
drop_all [] s = s
drop_all (k ∷ ks) s = drop_all ks (drop_one k s)

module _ (bytes_form : String → String) where
  -- the set `_variants(secret)`
  unfoldable pub variants : String → List String
  variants secret =
      if str_eq secret (bytes_form secret) then secret ∷ [] else secret ∷ bytes_form secret ∷ []

  unfoldable pub register_secret : String → Secrets → Secrets
  register_secret secret s = if str_eq secret "" then s else add_all (variants secret) s

  unfoldable pub unregister_secret : String → Secrets → Secrets
  unregister_secret secret s = if str_eq secret "" then s else drop_all (variants secret) s
