-- ===== src/Purifier/Model/Decode.antt =====
-- What `_decode_mode` and the filter's percentage can be (purifier/model.py).
use ha_birdie.Base.{
  ℕ, ◌+◌, ◌*◌, ◌/◌, ◌%◌, ◌≤◌, ◌<◌, ◌≡◌, ◌⊎◌, true, false, ltb, Option, none, some, List, arith,
  contains, codes, Bool-cases, inl, inr,
}
use native.Mathlib.Nat.{mod-lt, div-add-mod}
use ha_birdie.Base.Int.{pos}
use ha_birdie.Dps.{Value, null, bool, int, float, str, composite}
use ha_birdie.Purifier.Model.{
  preset_modes, Mode, strip_prefix, decode_manual, decode_mode, round_div, life_percent,
}

-- A preset mode has no speed, and manual mode has a speed from 1 to 4.
abbrev pub IsMode : Mode → Type 0
IsMode (none, none) = Unit
IsMode (none, some _) = ⊥
IsMode (some m, none) = contains preset_modes m ≡ true
IsMode (some m, some speed) = (m ≡ "manual") × (1 ≤ speed) × (speed ≤ 4)

decode_manual-IsMode : (o : Option (List ℕ)) → IsMode (decode_manual o)
unfolding decode_manual
decode_manual-IsMode none = tt
decode_manual-IsMode (some suffix) = ground arith

pub decode_mode-IsMode : (v : Option Value) → IsMode (decode_mode v)
unfolding decode_mode
decode_mode-IsMode none = tt
decode_mode-IsMode (some null) = tt
decode_mode-IsMode (some (bool _)) = tt
decode_mode-IsMode (some (int _)) = tt
decode_mode-IsMode (some (float _ _)) = tt
decode_mode-IsMode (some (composite _)) = tt
decode_mode-IsMode (some (str s)) = elim (Bool-cases (contains preset_modes s)) [
  | inl e ↦ rw e e
  | inr e ↦ rw e (decode_manual-IsMode (strip_prefix (codes "manual") (codes s)))
]

-- `q` is `a / b` rounded to the nearest integer.
abbrev pub IsNearest : ℕ → ℕ → ℕ → Type 0
IsNearest a b q = (2 * a ≤ 2 * q * b + b) × (2 * q * b ≤ 2 * a + b)

parity : (q : ℕ) → (q % 2 ≡ 0) ⊎ (q % 2 ≡ 1)
parity q = omega arith

module _ (a b q r : ℕ) (split : b * q + r ≡ a) (rest : r < b) where
  IsNearest-down : ltb (2 * r) b ≡ true → IsNearest a b q
  IsNearest-down h = let k : 2 * r < b = ground arith in (omega arith, omega arith)

  IsNearest-up : ltb b (2 * r) ≡ true → IsNearest a b (q + 1)
  IsNearest-up h = let k : b < 2 * r = ground arith in (omega arith, omega arith)

  IsNearest-even :
      ltb (2 * r) b ≡ false
      → ltb b (2 * r) ≡ false
      → (q % 2 ≡ 0) ⊎ (q % 2 ≡ 1)
      → IsNearest a b (q + q % 2)
  IsNearest-even h k (inl even) =
      let m : 2 * r ≡ b = ground arith in rw even (omega arith, omega arith)
  IsNearest-even h k (inr odd) =
      let m : 2 * r ≡ b = ground arith in rw odd (omega arith, omega arith)

pub round_div-IsNearest : (a b : ℕ) → 0 < b → IsNearest a b (round_div a b)
unfolding round_div
round_div-IsNearest a b h = elim (Bool-cases (ltb (2 * (a % b)) b)) [
  | inl low ↦ rw low (IsNearest-down a b (a / b) (a % b) (div-add-mod a b) (mod-lt a h) low)
  | inr not_low ↦ elim (Bool-cases (ltb b (2 * (a % b)))) [
    | inl high ↦
        rw (not_low, high) (IsNearest-up a b (a / b) (a % b) (div-add-mod a b) (mod-lt a h) high)
    | inr even ↦
        rw (not_low, even)
          (IsNearest-even a b (a / b) (a % b) (div-add-mod a b) (mod-lt a h) not_low even
            (parity (a / b)))
  ]
]

le_of_scaled : (q b : ℕ) → 0 < b → 2 * q * b ≤ 201 * b → q ≤ 100
le_of_scaled q b h k = grind arith

pub round_div-le : (r t : ℕ) → 0 < t → r ≤ t → round_div (r * 100) t ≤ 100
round_div-le r t h k =
    le_of_scaled (round_div (r * 100) t) t h (omega (arith, (round_div-IsNearest (r * 100) t h).1))

-- A percentage is given for a positive total only. It is at most 100, and it is 100 where more than
-- the total remains, and else the nearest integer to `remaining * 100 / total`.
pub life_percent_bounds :
    (total remaining life : ℕ)
    → life_percent (some (pos total)) (some remaining) ≡ some life
    → (0 < total)
      × (life ≤ 100)
      × (((total < remaining) × (life ≡ 100)) ⊎ IsNearest (remaining * 100) total life)
unfolding life_percent
life_percent_bounds total remaining life h = elim (Bool-cases (ltb total remaining)) [
  | inl e ↦ (ground arith, ground arith, inl (ground arith, ground arith))
  | inr e ↦
      let e' : round_div (remaining * 100) total ≡ life = ground arith in
      let positive : 0 < total = ground arith in
      (
        positive,
        rw (← e') (round_div-le remaining total positive (ground arith)),
        inr (rw (← e') (round_div-IsNearest (remaining * 100) total positive)),
      )
]
