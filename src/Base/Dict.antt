-- ===== src/Base/Dict.antt =====
-- Python's `dict` with text keys, in insertion order.
use mathlib.Core.Path.{◌≡◌, refl}
use mathlib.Core.Bool.{Bool}
use mathlib.Core.Option.{Option, none, some}
use mathlib.Core.List.{List, [], ◌∷◌}
use Prim.Native.String.{String}
use native.Mathlib.Omega.{arith}
use text.Mathlib.Text.{◌==◌ as str_eq}
use text.Mathlib.TextEquality.{eq_iff}
use ha_birdie.Base.Tests.{if◌then◌else◌, is_some, or_else}

abbrev pub Dict {ℓ} : Type ℓ → Type ℓ
Dict V = List (String × V)

module _ {ℓ} {V : Type ℓ} where
  -- `d.get(k)`
  unfoldable pub lookup : String → Dict V → Option V
  lookup k [] = none
  lookup k ((j, v) ∷ d) = if str_eq j k then some v else lookup k d

  -- `k in d`
  abbrev pub has_key : String → Dict V → Bool
  has_key k d = is_some (lookup k d)

  -- `d[k] = v`: an old key keeps its place
  unfoldable pub insert : String → V → Dict V → Dict V
  insert k v [] = (k, v) ∷ []
  insert k v ((j, w) ∷ d) = if str_eq j k then (k, v) ∷ d else (j, w) ∷ insert k v d

  -- `d.update(e)`, `{**d, **e}`. The order of new keys, which nothing reads, is not kept.
  unfoldable pub update : Dict V → Dict V → Dict V
  update d [] = d
  update d ((k, v) ∷ e) = insert k v (update d e)

  -- `d.pop(k, None)`
  unfoldable pub remove : String → Dict V → Dict V
  remove k [] = []
  remove k ((j, v) ∷ d) = let rest = remove k d in if str_eq j k then rest else (j, v) ∷ rest

  pub lookup-insert :
      (k j : String) (v : V) (d : Dict V)
      → lookup j (insert k v d) ≡ (if str_eq k j then some v else lookup j d)
  unfolding lookup insert
  lookup-insert k j v [] = refl
  lookup-insert k j v ((i, w) ∷ d) =
      ground (arith, eq_iff k j, eq_iff i k, eq_iff i j, lookup-insert k j v d)

  pub lookup-remove :
      (k j : String) (d : Dict V)
      → lookup j (remove k d) ≡ (if str_eq k j then none else lookup j d)
  unfolding lookup remove
  lookup-remove k j [] = ground arith
  lookup-remove k j ((i, w) ∷ d) =
      ground (arith, eq_iff k j, eq_iff i k, eq_iff i j, lookup-remove k j d)

  pub lookup-update :
      (j : String) (d e : Dict V) → lookup j (update d e) ≡ or_else (lookup j e) (lookup j d)
  unfolding lookup update
  lookup-update j d [] = refl
  lookup-update j d ((k, v) ∷ e) =
      ground (arith, lookup-insert k j v (update d e), lookup-update j d e)

pub ruleset dict_laws = (lookup-insert, lookup-remove, lookup-update)
