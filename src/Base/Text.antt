-- ===== src/Base/Text.antt =====
-- Python's `str.strip` and `len` on texts, and the case of letters in Case.
pub mod Case
use Prim.Native.Nat.{ℕ, suc}
use Prim.Native.Char.{Char, code}
use Prim.Native.String.{String}
use mathlib.Core.Path.{◌≡◌, refl}
use mathlib.Core.Logic.{◌⊎◌, inl, inr}
use mathlib.Core.Bool.{Bool, true, false, ◌&&◌, ◌||◌}
use native.Mathlib.Omega.{arith}
use ha_birdie.Base.Tests.{ltb, leb, ◌==◌, if◌then◌else◌, Bool-cases}

-- `len`
abbrev pub text_length : String → ℕ
text_length String.[] = 0
text_length (String.◌∷◌ c s) = suc (text_length s)

abbrev pub between : ℕ → ℕ → ℕ → Bool
between low high n = leb low n && leb n high

-- `str.isspace` of one character
unfoldable pub is_space : ℕ → Bool
is_space n =
    between 9 13 n
    || (between 28 32 n
        || (n == 133
            || (n == 160
                || (n == 5760
                    || (between 8192 8202 n
                        || (between 8232 8233 n || (n == 8239 || (n == 8287 || n == 12288))))))))

abbrev pub is_empty : String → Bool
is_empty String.[] = true
is_empty (String.◌∷◌ c s) = false

unfoldable pub lstrip : String → String
lstrip String.[] = ""
lstrip (String.◌∷◌ c s) = let rest = lstrip s in if is_space (code c) then rest else String.◌∷◌ c s

unfoldable pub rstrip : String → String
rstrip String.[] = ""
rstrip (String.◌∷◌ c s) =
    let rest = rstrip s in if is_space (code c) && is_empty rest then "" else String.◌∷◌ c rest

-- `strip`
unfoldable pub strip : String → String
unfolding lstrip rstrip
strip s = rstrip (lstrip s)

rstrip_idem : (s : String) → rstrip (rstrip s) ≡ rstrip s
unfolding rstrip
rstrip_idem String.[] = refl
rstrip_idem (String.◌∷◌ c s) = elim (Bool-cases (is_space (code c) && is_empty (rstrip s))) [
  | inl e ↦ rw e refl
  | inr e ↦ rw e (rw (rstrip_idem s, e) refl)
]

-- A text that starts with no space.
abbrev Starts : String → Type 0
Starts String.[] = Unit
Starts (String.◌∷◌ c s) = is_space (code c) ≡ false

lstrip-Starts : (s : String) → Starts (lstrip s)
unfolding lstrip
lstrip-Starts String.[] = tt
lstrip-Starts (String.◌∷◌ c s) = elim (Bool-cases (is_space (code c))) [
  | inl e ↦ rw e (lstrip-Starts s)
  | inr e ↦ rw e e
]

lstrip-rstrip : (s : String) → Starts s → lstrip (rstrip s) ≡ rstrip s
unfolding lstrip rstrip
lstrip-rstrip String.[] h = refl
lstrip-rstrip (String.◌∷◌ c s) h = rw h (rw h refl)

-- A stripped text has no space left to strip.
pub strip_idem : (s : String) → strip (strip s) ≡ strip s
unfolding strip
strip_idem s = rw (lstrip-rstrip (lstrip s) (lstrip-Starts s)) (rstrip_idem (lstrip s))
