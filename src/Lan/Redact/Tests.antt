-- ===== src/Lan/Redact/Tests.antt =====
-- Examples for the filter of lan/redact.py.
use ha_birdie.Base.{ℕ, String, ◌≡◌, refl, ◌≤◌, false, some, [], All, arith}
use ha_birdie.Base.Dict.{insert, lookup}
use ha_birdie.Lan.Redact.{Secrets, count, register_secret, variants, add_all, add_one}
use ha_birdie.Lan.Redact.Filter.{occurs, redact, replace_from, filter}
use ha_birdie.Lan.Redact.Hides.{filter-hides}

abbrev same_bytes : String → String
same_bytes s = s

abbrev a_key : String
a_key = "0123456789abcdef"

abbrev registered : Secrets
registered = register_secret same_bytes a_key []

abbrev logged : String
logged = "key=0123456789abcdef, retry"

filter_test : filter registered (some logged) ≡ some "key=**REDACTED**, retry"
unfolding filter redact replace_from register_secret variants add_all add_one insert lookup count
filter_test = refl

is_counted : 1 ≤ count a_key registered
unfolding register_secret variants add_all add_one insert lookup count
is_counted = omega arith

filter-hides_example :
    (shown : String) × (filter registered (some logged) ≡ some shown) × (occurs a_key shown ≡ false)
filter-hides_example =
    filter-hides registered a_key logged is_counted
      (record { full = refl; plain = refl; foreign = refl })

none_there : All (λ (e : String × ℕ). occurs e.0 "retry" ≡ false) registered
unfolding register_secret variants add_all add_one insert lookup count
none_there = (refl, tt)
