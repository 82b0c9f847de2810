-- ===== src/Base/Text/Case.antt =====
-- Python's `str.upper` and `str.lower` on texts of ASCII characters; others keep their character.
use Prim.Native.Nat.{ℕ, zero, suc, ◌-◌, ◌<◌}
use Prim.Native.Char.{Char, code}
use Prim.Native.String.{String}
use mathlib.Core.Path.{◌≡◌, refl, ◌∙◌, ap}
use mathlib.Core.Logic.{◌⊎◌, inl, inr}
use mathlib.Core.Bool.{true, false, ◌&&◌}
use native.Mathlib.Omega.{arith}
use ha_birdie.Base.Tests.{if◌then◌else◌, Bool-cases}
use ha_birdie.Base.Text.{is_space, lstrip, rstrip, strip, is_empty, between, text_length}

abbrev lower_letters : String
lower_letters = "abcdefghijklmnopqrstuvwxyz"

abbrev upper_letters : String
upper_letters = "ABCDEFGHIJKLMNOPQRSTUVWXYZ"

-- the character at a place, or `d` past the end
unfoldable letter : String → ℕ → Char → Char
letter String.[] n d = d
letter (String.◌∷◌ c s) zero d = c
letter (String.◌∷◌ c s) (suc n) d = letter s n d

-- the characters of a range of 26, changed to the letters at their places
unfoldable change : ℕ → ℕ → String → Char → Char
change low high letters c = if between low high (code c) then letter letters (code c - low) c else c

unfoldable pub upper : String → String
unfolding change letter
upper String.[] = ""
upper (String.◌∷◌ c s) = String.◌∷◌ (change 97 122 upper_letters c) (upper s)

unfoldable pub lower : String → String
unfolding change letter
lower String.[] = ""
lower (String.◌∷◌ c s) = String.◌∷◌ (change 65 90 lower_letters c) (lower s)

abbrev Uppers : String → Type 0
Uppers String.[] = Unit
Uppers (String.◌∷◌ c s) = (between 65 90 (code c) ≡ true) × Uppers s

letter-Uppers :
    (s : String) (n : ℕ) (d : Char)
    → Uppers s
    → n < text_length s
    → between 65 90 (code (letter s n d)) ≡ true
unfolding letter
letter-Uppers String.[] n d h k = ground arith
letter-Uppers (String.◌∷◌ c s) zero d (h, hs) k = h
letter-Uppers (String.◌∷◌ c s) (suc n) d (h, hs) k = letter-Uppers s n d hs (omega (arith, k))

upper_letters-Uppers : Uppers upper_letters
upper_letters-Uppers = search tt

-- what is changed to upper case: an upper-case letter in place of a lower-case one
change-cases :
    (c : Char)
    → ((between 97 122 (code c) ≡ true)
        × (between 65 90 (code (change 97 122 upper_letters c)) ≡ true))
      ⊎ ((between 97 122 (code c) ≡ false) × (change 97 122 upper_letters c ≡ c))
unfolding change
change-cases c = elim (Bool-cases (between 97 122 (code c))) [
  | inl e ↦
      inl
        (e, rw e (letter-Uppers upper_letters (code c - 97) c upper_letters-Uppers (ground arith)))
  | inr e ↦ inr (e, rw e refl)
]

is_space-between :
    (n : ℕ) → (between 65 90 n ≡ true) ⊎ (between 97 122 n ≡ true) → is_space n ≡ false
unfolding is_space
is_space-between n h = ground arith

is_space-change : (c : Char) → is_space (code (change 97 122 upper_letters c)) ≡ is_space (code c)
is_space-change c = elim (change-cases c) [
  | inl (e, u) ↦ rw (is_space-between (code c) (inr e)) (is_space-between _ (inl u))
  | inr (e, same) ↦ rw same refl
]

change-other : (c : Char) → between 97 122 (code c) ≡ false → change 97 122 upper_letters c ≡ c
unfolding change
change-other c h = rw h refl

change_idem :
    (c : Char)
    → change 97 122 upper_letters (change 97 122 upper_letters c) ≡ change 97 122 upper_letters c
change_idem c = elim (change-cases c) [
  | inl (e, u) ↦ change-other (change 97 122 upper_letters c) (ground arith)
  | inr (e, same) ↦ ap (change 97 122 upper_letters) same
]

pub upper_idem : (s : String) → upper (upper s) ≡ upper s
unfolding upper
upper_idem String.[] = refl
upper_idem (String.◌∷◌ c s) = rw (change_idem c, upper_idem s) refl

lstrip-upper : (s : String) → lstrip (upper s) ≡ upper (lstrip s)
unfolding upper lstrip
lstrip-upper String.[] = refl
lstrip-upper (String.◌∷◌ c s) = elim (Bool-cases (is_space (code c))) [
  | inl e ↦ rw (is_space-change c, e) (lstrip-upper s)
  | inr e ↦ rw (is_space-change c, e) refl
]

is_empty-upper : (s : String) → is_empty (upper s) ≡ is_empty s
unfolding upper
is_empty-upper String.[] = refl
is_empty-upper (String.◌∷◌ c s) = refl

rstrip-upper : (s : String) → rstrip (upper s) ≡ upper (rstrip s)
unfolding upper rstrip
rstrip-upper String.[] = refl
rstrip-upper (String.◌∷◌ c s) = elim (Bool-cases (is_space (code c) && is_empty (rstrip s))) [
  | inl e ↦ rw (is_space-change c, rstrip-upper s, is_empty-upper (rstrip s), e) refl
  | inr e ↦ rw (is_space-change c, rstrip-upper s, is_empty-upper (rstrip s), e) refl
]

pub strip-upper : (s : String) → strip (upper s) ≡ upper (strip s)
unfolding strip
strip-upper s = ap rstrip (lstrip-upper s) ∙ rstrip-upper (lstrip s)
