-- ===== src/Lan/Redact/Filter.antt =====
-- custom_components/birdie/lan/redact.py: the log filter. A record is its message, or `none` where
-- `getMessage` raises. The text of a message that does not change is the same either way, so the
-- comparison before the record is written is left out.
use Prim.Native.Char.{code}
use ha_birdie.Base.{
  ℕ, zero, suc, ◌-◌, String, Bool, true, false, ◌&&◌, ◌||◌, Option, none, some, [], ◌∷◌, ◌==◌,
  if◌then◌else◌,
}
use ha_birdie.Base.Text.{text_length}
use ha_birdie.Lan.Redact.{Secrets}

abbrev pub append : String → String → String
append String.[] t = t
append (String.◌∷◌ c s) t = String.◌∷◌ c (append s t)

-- `s.startswith(k)`
abbrev pub starts : String → String → Bool
starts String.[] s = true
starts (String.◌∷◌ c k) String.[] = false
starts (String.◌∷◌ c k) (String.◌∷◌ d s) = (code c == code d) && starts k s

-- `k in s`
abbrev pub occurs : String → String → Bool
occurs k String.[] = starts k ""
occurs k (String.◌∷◌ c s) = starts k (String.◌∷◌ c s) || occurs k s

-- `REDACTED`
abbrev pub redacted : String
redacted = "**REDACTED**"

-- `str.replace` from left to right, where `n` characters of a match are left to skip
unfoldable pub replace_from : String → ℕ → String → String
replace_from k n String.[] = ""
replace_from k (suc n) (String.◌∷◌ c s) = replace_from k n s
replace_from k zero (String.◌∷◌ c s) =
    let matched = append redacted (replace_from k (text_length k - 1) s) in
    let rest = String.◌∷◌ c (replace_from k 0 s) in
    if starts k (String.◌∷◌ c s) then matched else rest

-- `message.replace(k, REDACTED)`, for a text `k` that is not empty
abbrev pub replace : String → String → String
replace k message = replace_from k 0 message

-- the loop over the secrets
unfoldable pub redact : Secrets → String → String
redact [] message = message
redact ((k, n) ∷ secrets) message = redact secrets (replace k message)

-- `_RedactLocalKeys.filter`
unfoldable pub filter : Secrets → Option String → Option String
filter secrets none = none
filter secrets (some message) = some (redact secrets message)
