-- ===== src/Purifier/Flow/Key.antt =====
-- What an accepted local key looks like (purifier/flow.py, `clean_local_key`).
use ha_birdie.Base.{String, ◌≡◌, refl, Option, none, some, arith, if◌then◌else◌, ◌==◌, get_or}
use ha_birdie.Base.Text.{text_length, strip, strip_idem}
use ha_birdie.Purifier.Flow.{clean_local_key, local_key_length}

clean_inv :
    (key k : String)
    → (if text_length key == local_key_length then some key else none) ≡ some k
    → (key ≡ k) × (text_length key ≡ local_key_length)
clean_inv key k h = ground arith

-- An accepted key is the input without the spaces around it. It has 16 characters and no space around
-- it, and it is accepted as it is when it is entered again.
pub clean_local_key-clean :
    (value : Option String) (k : String)
    → clean_local_key value ≡ some k
    → (k ≡ strip (get_or value ""))
      × (text_length k ≡ 16)
      × (strip k ≡ k)
      × (clean_local_key (some k) ≡ some k)
unfolding clean_local_key
clean_local_key-clean value k h =
    let (same, size) = clean_inv (strip (get_or value "")) k h in
    let again : strip k ≡ k = rw (← same) (strip_idem (get_or value "")) in
    let sized : text_length k ≡ 16 = rw (← same) size in
    (rw same refl, sized, again, rw again (ground arith))
