-- ===== src/Dps.antt =====
-- The values of a device's data points (DPs), which Python holds as `Any`, and a status report,
-- `dict[str, Any]` (custom_components/birdie/lan/device.py, purifier/model.py).
-- A float is finite, `n / 2 ^ k`. Arrays and objects, which the code only compares and hands on,
-- are numbered.
use ha_birdie.Base.{ℕ, ◌+◌, ◌*◌, ◌^◌, String, Bool, true, false, str_eq, ◌==◌}
use ha_birdie.Base.Int.{ℤ, pos, pos_part, neg_part, eqb_ℤ}
use ha_birdie.Base.Dict.{Dict}

pub data Value : Type 0 where
  null : Value
  bool : Bool → Value
  int : ℤ → Value
  float : ℤ → ℕ → Value
  str : String → Value
  composite : ℕ → Value

abbrev pub Dps : Type 0
Dps = Dict Value

abbrev one_if : Bool → ℤ
one_if true = pos 1
one_if false = pos 0

-- m / 2 ^ j == n / 2 ^ k
abbrev same_ratio : ℤ → ℕ → ℤ → ℕ → Bool
same_ratio m j n k =
    (pos_part m * 2 ^ k + neg_part n * 2 ^ j) == (pos_part n * 2 ^ j + neg_part m * 2 ^ k)

-- Python's `==`: the numbers are compared by value, and `True` is 1.
unfoldable pub py_eq : Value → Value → Bool
py_eq null null = true
py_eq (bool a) (bool b) = eqb_ℤ (one_if a) (one_if b)
py_eq (bool a) (int n) = eqb_ℤ (one_if a) n
py_eq (bool a) (float n k) = same_ratio (one_if a) 0 n k
py_eq (int m) (bool b) = eqb_ℤ m (one_if b)
py_eq (int m) (int n) = eqb_ℤ m n
py_eq (int m) (float n k) = same_ratio m 0 n k
py_eq (float m j) (bool b) = same_ratio m j (one_if b) 0
py_eq (float m j) (int n) = same_ratio m j n 0
py_eq (float m j) (float n k) = same_ratio m j n k
py_eq (str s) (str t) = str_eq s t
py_eq (composite i) (composite j) = i == j
py_eq _ _ = false
