-- ===== src/Lan/Redact/Hides.antt =====
-- No secret is left in a message that went through the log filter (lan/redact.py).
use Prim.Native.Char.{code}
use ha_birdie.Base.{
  ℕ, zero, suc, ◌-◌, ◌≤◌, String, ◌≡◌, refl, ap, Bool, true, false, not, ◌&&◌, ◌||◌, Bool-cases,
  inl, inr, some, [], ◌∷◌, All, arith, ◌==◌, str_eq, str_eq_iff,
}
use ha_birdie.Base.Dict.{lookup}
use ha_birdie.Base.Text.{text_length, is_empty}
use ha_birdie.Lan.Redact.{Secrets, count}
use ha_birdie.Lan.Redact.Filter.{
  append, starts, occurs, redacted, replace_from, replace, redact, filter,
}

-- no `*` stands in the text
abbrev pub no_star : String → Bool
no_star String.[] = true
no_star (String.◌∷◌ c s) = not (code c == 42) && no_star s

-- A secret that is not made of the replacement's characters alone: it is not empty, has no `*`, and is
-- no part of the word in the replacement.
pub record IsPlain (k : String) : Type 0 where
  pub full : is_empty k ≡ false
  pub plain : no_star k ≡ true
  pub foreign : occurs k "REDACTED" ≡ false

starts-star :
    (w u t : String)
    → no_star w ≡ true
    → starts w (append u (append "*" t)) ≡ true
    → starts w u ≡ true
starts-star String.[] u t h m = refl
starts-star (String.◌∷◌ c w) String.[] t h m = ground arith
starts-star (String.◌∷◌ c w) (String.◌∷◌ d u) t h m =
    let rest = starts-star w u t (ground arith) (ground arith) in ground arith

-- a text without a star stands on one side of it
occurs-star :
    (w u t : String)
    → no_star w ≡ true
    → occurs w (append u (append "*" t)) ≡ true
    → (occurs w u || occurs w t) ≡ true
occurs-star w String.[] t h m = elim (Bool-cases (starts w (append "" (append "*" t)))) [
  | inl e ↦ let s = starts-star w "" t h e in ground arith
  | inr e ↦ ground arith
]
occurs-star w (String.◌∷◌ d u) t h m =
    elim (Bool-cases (starts w (append (String.◌∷◌ d u) (append "*" t)))) [
      | inl e ↦ let s = starts-star w (String.◌∷◌ d u) t h e in ground arith
      | inr e ↦ let s = occurs-star w u t h (ground arith) in ground arith
    ]

occurs-nothing : (w : String) → is_empty w ≡ false → occurs w "" ≡ false
occurs-nothing String.[] h = cc
occurs-nothing (String.◌∷◌ c w) h = refl

occurs-redacted :
    (w t : String) → IsPlain w → occurs w (append redacted t) ≡ true → occurs w t ≡ true
occurs-redacted w t p m =
    let end_1 = append "*" t in
    let end_2 = append "*" end_1 in
    let end_3 = append "REDACTED" end_2 in
    let none_empty = occurs-nothing w p.full in
    let a = occurs-star w "" (append "*" end_3) p.plain m in
    let b = occurs-star w "" end_3 p.plain (ground arith) in
    let c = occurs-star w "REDACTED" end_1 p.plain (ground arith) in
    let foreign = p.foreign in let d = occurs-star w "" t p.plain (ground arith) in ground arith

right : {a b : Bool} → a ≡ false → (a || b) ≡ true → b ≡ true
right h m = ground arith

neither : {a b : Bool} → a ≡ false → b ≡ false → (a || b) ≡ false
neither h m = ground arith

no_more : {a b : Bool} → (a ≡ true → b ≡ true) → b ≡ false → a ≡ false
no_more {a = true} h m = let yes_b = h refl in cc
no_more {a = false} h m = refl

module _ (k : String) where
  -- what stands at the start of the result without a star stood there before
  starts-replace :
      (w s : String) → no_star w ≡ true → starts w (replace_from k 0 s) ≡ true → starts w s ≡ true
  unfolding replace_from
  starts-replace String.[] s h m = refl
  starts-replace (String.◌∷◌ x w) String.[] h m = ground arith
  starts-replace (String.◌∷◌ x w) (String.◌∷◌ c s) h m =
      elim (Bool-cases (starts k (String.◌∷◌ c s))) [
        | inl e ↦ ground arith
        | inr e ↦ let rest = starts-replace w s (ground arith) in ground arith
      ]

  -- a replacement brings no secret in
  occurs-replace_from :
      (w : String) (n : ℕ) (s : String)
      → IsPlain w
      → occurs w (replace_from k n s) ≡ true
      → occurs w s ≡ true
  unfolding replace_from
  occurs-replace_from w n String.[] p m = m
  occurs-replace_from w (suc n) (String.◌∷◌ c s) p m =
      let rest = occurs-replace_from w n s p m in ground arith
  occurs-replace_from w zero (String.◌∷◌ c s) p m = elim (Bool-cases (starts k (String.◌∷◌ c s))) [
    | inl e ↦
        let rest =
          occurs-replace_from w (text_length k - 1) s p (occurs-redacted w _ p (rw e at m)) in
        ground arith
    | inr e ↦ elim (Bool-cases (starts w (String.◌∷◌ c (replace_from k 0 s)))) [
      | inl f ↦ let here = starts-replace w (String.◌∷◌ c s) p.plain (rw e f) in ground arith
      | inr f ↦ let rest = occurs-replace_from w 0 s p (right f (rw e at m)) in ground arith
    ]
  ]

  -- what is replaced is left nowhere
  occurs-replaced : (n : ℕ) (s : String) → IsPlain k → occurs k (replace_from k n s) ≡ false
  unfolding replace_from
  occurs-replaced n String.[] p = occurs-nothing k p.full
  occurs-replaced (suc n) (String.◌∷◌ c s) p = occurs-replaced n s p
  occurs-replaced zero (String.◌∷◌ c s) p = elim (Bool-cases (starts k (String.◌∷◌ c s))) [
    | inl e ↦ rw e (no_more (occurs-redacted k _ p) (occurs-replaced (text_length k - 1) s p))
    | inr e ↦ rw e (
        neither (no_more (λ f. starts-replace k (String.◌∷◌ c s) p.plain (rw e f)) e)
          (occurs-replaced 0 s p))
  ]

redact-without :
    (secrets : Secrets) (k message : String)
    → IsPlain k
    → occurs k message ≡ false
    → occurs k (redact secrets message) ≡ false
unfolding redact
redact-without [] k message p m = m
redact-without ((j, n) ∷ secrets) k message p m =
    redact-without secrets k (replace j message) p (no_more (occurs-replace_from j k 0 message p) m)

-- A message that went through the filter has no registered secret in it that is plain: one that is
-- not empty, has no `*`, and is no part of `REDACTED`.
pub filter-hides :
    (secrets : Secrets) (k message : String)
    → 1 ≤ count k secrets
    → IsPlain k
    → (shown : String) × (filter secrets (some message) ≡ some shown) × (occurs k shown ≡ false)
unfolding filter count redact lookup
filter-hides secrets k message m p = (redact secrets message, refl, go secrets message m)
  where
    go :
        (secrets : Secrets) (message : String)
        → 1 ≤ count k secrets
        → occurs k (redact secrets message) ≡ false
    go [] message m = ground arith
    go ((j, n) ∷ secrets) message m = elim (Bool-cases (str_eq j k)) [
      | inl e ↦
          let same : j ≡ k = (str_eq_iff j k).0 e in
          redact-without secrets k (replace j message) p
            (rw (← same) (occurs-replaced j 0 message (rw same p)))
      | inr e ↦ go secrets (replace j message) (rw e at m)
    ]

replace-same : (k s : String) → occurs k s ≡ false → replace k s ≡ s
unfolding replace_from
replace-same k String.[] h = refl
replace-same k (String.◌∷◌ c s) h =
    let here : starts k (String.◌∷◌ c s) ≡ false = ground arith in
    let rest : occurs k s ≡ false = ground arith in
    rw here (ap (λ t. String.◌∷◌ c t) (replace-same k s rest))

-- A message without any registered secret goes through the filter as it is.
pub filter-same :
    (secrets : Secrets) (message : String)
    → All (λ (e : String × ℕ). occurs e.0 message ≡ false) secrets
    → filter secrets (some message) ≡ some message
unfolding filter redact
filter-same [] message h = refl
filter-same ((k, n) ∷ secrets) message (h, hs) =
    rw (replace-same k message h) (filter-same secrets message hs)
