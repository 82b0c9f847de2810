-- ===== src/Lan/Redact/Balance.antt =====
-- Registering and unregistering keep the count of every secret (lan/redact.py).
use ha_birdie.Base.{
  ℕ, ◌+◌, ◌-◌, ◌≤◌, String, ◌≡◌, ◌≢◌, List, [], ◌∷◌, arith, str_eq, str_eq_iff, if◌then◌else◌,
}
use ha_birdie.Base.Dict.{lookup-insert, lookup-remove}
use ha_birdie.Lan.Redact.{
  Secrets, count, add_one, drop_one, variants, add_all, drop_all, register_secret,
  unregister_secret,
}

pub count-add_one :
    (k j : String) (s : Secrets) → count j (add_one k s) ≡ count j s + (if str_eq k j then 1 else 0)
unfolding count add_one
count-add_one k j s = ground (arith, lookup-insert k j (count k s + 1) s, str_eq_iff k j)

pub count-drop_one :
    (k j : String) (s : Secrets)
    → count j (drop_one k s) ≡ count j s - (if str_eq k j then 1 else 0)
unfolding count drop_one
count-drop_one k j s =
    ground (arith, lookup-insert k j (count k s - 1) s, lookup-remove k j s, str_eq_iff k j)

-- how often a text stands in a list
abbrev occurrences : String → List String → ℕ
occurrences j [] = 0
occurrences j (k ∷ ks) = (if str_eq k j then 1 else 0) + occurrences j ks

count-add_all :
    (j : String) (ks : List String) (s : Secrets)
    → count j (add_all ks s) ≡ count j s + occurrences j ks
unfolding add_all
count-add_all j [] s = omega arith
count-add_all j (k ∷ ks) s = omega (arith, count-add_all j ks (add_one k s), count-add_one k j s)

count-drop_all :
    (j : String) (ks : List String) (s : Secrets)
    → count j (drop_all ks s) ≡ count j s - occurrences j ks
unfolding drop_all
count-drop_all j [] s = omega arith
count-drop_all j (k ∷ ks) s =
    omega (arith, count-drop_all j ks (drop_one k s), count-drop_one k j s)

module _ (bytes_form : String → String) where
  -- how many of a secret's variants a text is
  pub shares : String → String → ℕ
  shares j secret = if str_eq secret "" then 0 else occurrences j (variants bytes_form secret)

  pub count-register :
      (j secret : String) (s : Secrets)
      → count j (register_secret bytes_form secret s) ≡ count j s + shares j secret
  unfolding register_secret shares
  count-register j secret s = ground (arith, count-add_all j (variants bytes_form secret) s)

  pub count-unregister :
      (j secret : String) (s : Secrets)
      → count j (unregister_secret bytes_form secret s) ≡ count j s - shares j secret
  unfolding unregister_secret shares
  count-unregister j secret s = ground (arith, count-drop_all j (variants bytes_form secret) s)

  pub shares_self : (secret : String) → secret ≢ "" → 1 ≤ shares secret secret
  unfolding shares variants
  shares_self secret h = ground (arith, str_eq_iff secret "", str_eq_iff secret secret)

  -- Unregistering a secret undoes one registration of it, whatever another holder registered in
  -- between: every text is then counted as if only the other one had been registered.
  pub unregister-register :
      (a b j : String) (s : Secrets)
      → count j (
          unregister_secret bytes_form a
            (register_secret bytes_form b (register_secret bytes_form a s)))
        ≡ count j (register_secret bytes_form b s)
  unregister-register a b j s = omega (
    arith,
    count-unregister j a (register_secret bytes_form b (register_secret bytes_form a s)),
    count-register j b (register_secret bytes_form a s),
    count-register j a s,
    count-register j b s,
  )

  -- A secret that is no empty text and was registered twice is still counted, and so redacted, after
  -- one unregistration.
  pub register-kept :
      (secret : String) (s : Secrets)
      → secret ≢ ""
      → 1
        ≤ count secret (
            unregister_secret bytes_form secret
              (register_secret bytes_form secret (register_secret bytes_form secret s)))
  register-kept secret s h = omega (
    arith,
    shares_self secret h,
    unregister-register secret secret secret s,
    count-register secret secret s,
  )
