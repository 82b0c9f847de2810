-- ===== src/Ble/Parse/Numbers.antt =====
-- Encoding and decoding little-endian numbers (ble.py).
use native.Mathlib.Nat.{pow-succ'}
use ha_birdie.Base.{
  ℕ, zero, suc, ◌-◌, ◌*◌, ◌/◌, ◌%◌, ◌^◌, ◌≤◌, ◌<◌, ◌≡◌, refl, ap, ◌∙◌, [], ◌∷◌, arith, length, All,
}
use ha_birdie.Base.Int.{ℤ, pos, negsuc, pos_part, neg_part}
use ha_birdie.Base.Result.{ok}
use ha_birdie.Ble.Parse.{Bytes, from_bytes, signed, int16_le, int32_le, parse_temperature}

-- int.to_bytes(n, "little", signed=False), for a number that fits
unfoldable pub to_bytes : ℕ → ℕ → Bytes
to_bytes zero v = []
to_bytes (suc n) v = (v % 256) ∷ to_bytes n (v / 256)

pub length-to_bytes : (n v : ℕ) → length (to_bytes n v) ≡ n
unfolding to_bytes
length-to_bytes zero v = refl
length-to_bytes (suc n) v = ap suc (length-to_bytes n (v / 256))

-- Decoding an encoded number gives it back, if it fits.
pub from_bytes-to_bytes : (n v : ℕ) → v < 256 ^ n → from_bytes (to_bytes n v) ≡ v
unfolding to_bytes from_bytes
from_bytes-to_bytes zero v h = omega arith
from_bytes-to_bytes (suc n) v h =
    let fits : v / 256 < 256 ^ n = let k : v < 256 * 256 ^ n = rw pow-succ' at h in omega arith in
    omega (arith, from_bytes-to_bytes n (v / 256) fits)

-- A decoded number fits the bytes that it came from.
pub from_bytes-lt : (bs : Bytes) → All (λ b. b < 256) bs → from_bytes bs < 256 ^ length bs
unfolding from_bytes
from_bytes-lt [] h = omega arith
from_bytes-lt (b ∷ bs) (k, h) = rw pow-succ' (omega (arith, from_bytes-lt bs h))

-- the two's complement encoding of an integer
unfoldable pub unsigned : ℕ → ℤ → ℕ
unsigned half (pos n) = n
unsigned half (negsuc n) = 2 * half - n - 1

signed-unsigned :
    (half : ℕ) (z : ℤ) → pos_part z < half → neg_part z ≤ half → signed half (unsigned half z) ≡ z
unfolding signed unsigned
signed-unsigned half (pos n) h k = ground arith
signed-unsigned half (negsuc n) h k = ground arith

unsigned-lt :
    (half : ℕ) (z : ℤ) → pos_part z < half → neg_part z ≤ half → unsigned half z < 2 * half
unfolding unsigned
unsigned-lt half (pos n) h k = omega arith
unsigned-lt half (negsuc n) h k = omega arith

temperature_short :
    (bs : Bytes) → length bs ≡ 2 → parse_temperature bs ≡ ok (signed (2 ^ 15) (from_bytes bs))
unfolding parse_temperature int16_le
temperature_short bs h = rw h refl

temperature_long :
    (bs : Bytes) → length bs ≡ 4 → parse_temperature bs ≡ ok (signed (2 ^ 31) (from_bytes bs))
unfolding parse_temperature int32_le
temperature_long bs h = rw h refl

-- A temperature is read from its two-byte and from its four-byte encoding alike, below zero too.
pub temperature-roundtrip :
    (z : ℤ)
    → pos_part z < 2 ^ 15
    → neg_part z ≤ 2 ^ 15
    → (parse_temperature (to_bytes 2 (unsigned (2 ^ 15) z)) ≡ ok z)
      × (parse_temperature (to_bytes 4 (unsigned (2 ^ 31) z)) ≡ ok z)
temperature-roundtrip z h k = (
  temperature_short (to_bytes 2 (unsigned (2 ^ 15) z)) (length-to_bytes 2 (unsigned (2 ^ 15) z))
      ∙ ap (λ (n : ℕ). ok (signed (2 ^ 15) n))
          (from_bytes-to_bytes 2 (unsigned (2 ^ 15) z) (unsigned-lt (2 ^ 15) z h k))
      ∙ ap ok (signed-unsigned (2 ^ 15) z h k),
  temperature_long (to_bytes 4 (unsigned (2 ^ 31) z)) (length-to_bytes 4 (unsigned (2 ^ 31) z))
      ∙ ap (λ (n : ℕ). ok (signed (2 ^ 31) n))
          (from_bytes-to_bytes 4 (unsigned (2 ^ 31) z)
            (unsigned-lt (2 ^ 31) z (omega arith) (omega arith)))
      ∙ ap ok (signed-unsigned (2 ^ 31) z (omega arith) (omega arith)),
)
