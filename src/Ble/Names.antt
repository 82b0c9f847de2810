-- ===== src/Ble/Names.antt =====
-- custom_components/birdie/ble.py: which advertisements are a Birdie's, and the form of an address.
-- Names and UUIDs are texts of ASCII characters where their case is changed.
use ha_birdie.Base.{
  String, ◌≡◌, ◌∙◌, ap, Bool, false, ◌&&◌, ◌||◌, not, Option, none, some, List, [], ◌∷◌, map,
  str_eq, contains,
}
use ha_birdie.Base.Text.{strip, strip_idem}
use ha_birdie.Base.Text.Case.{upper, lower, upper_idem, strip-upper}
use ha_birdie.Ble.Const.{environmental_service_uuid}
use text.Mathlib.Text.{starts_with}

-- `BIRDIE_NAME_PREFIXES`
abbrev pub birdie_name_prefixes : List String
birdie_name_prefixes = "Birdie" ∷ "Birdie Pro" ∷ []

abbrev pub starts_with_any : String → List String → Bool
starts_with_any name [] = false
starts_with_any name (p ∷ prefixes) = starts_with name p || starts_with_any name prefixes

-- `is_birdie_name`
unfoldable pub is_birdie_name : Option String → Bool
is_birdie_name none = false
is_birdie_name (some name) = not (str_eq name "") && starts_with_any name birdie_name_prefixes

-- `is_birdie_advertisement`
unfoldable pub is_birdie_advertisement : Option String → List String → Bool
is_birdie_advertisement name uuids =
    contains (map lower uuids) environmental_service_uuid || is_birdie_name name

-- `normalize_address`
unfoldable pub normalize_address : String → String
normalize_address address = upper (strip address)

-- An address in the form of an identifier stays as it is.
pub normalize_address_idem :
    (address : String) → normalize_address (normalize_address address) ≡ normalize_address address
unfolding normalize_address
normalize_address_idem address =
    ap upper (strip-upper (strip address) ∙ ap upper (strip_idem address))
    ∙ upper_idem (strip address)
