-- ===== src/Purifier/Coordinator/SearchTimes.antt =====
-- When searches for an address start, over any history of one entry (purifier/coordinator.py).
use native.Mathlib.Nat.{pow-succ'}
use ha_birdie.Base.{
  ℕ, suc, ◌+◌, ◌*◌, ◌^◌, ◌≤◌, min, ◌≡◌, refl, ap, ◌∙◌, Bool, true, false, Option, none, some, List,
  [], ◌∷◌, arith, length, All, if◌then◌else◌, ltb,
}
use ha_birdie.Purifier.Coordinator.{
  AddressSearch, no_search, address_search_after, address_search_first_interval,
  address_search_max_interval,
}
use ha_birdie.Purifier.Coordinator.Search.{
  note_reachable, note_gone, note_unreachable, search_done, too_early,
}

-- What happens to an entry: it is reached, it is found unreachable at a time, or its search ends.
pub data Sighting : Type 0 where
  reached finished : Sighting
  unreached : ℕ → Sighting

-- The bookkeeping, and when the searches of the present outage started, the newest first.
abbrev pub Outage : Type 0
Outage = AddressSearch × List ℕ

abbrev noted : ℕ → List ℕ → AddressSearch × Bool → Outage
noted now starts (s, b) = (s, if b then now ∷ starts else starts)

unfoldable pub sight : Sighting → Outage → Outage
sight reached (s, starts) = (note_reachable s, [])
sight finished (s, starts) = (search_done s, starts)
sight (unreached now) (s, starts) = noted now starts (note_unreachable now s)

unfoldable pub sight_all : List Sighting → Outage → Outage
sight_all [] o = o
sight_all (x ∷ xs) o = sight_all xs (sight x o)

-- An hour, doubled `n` times, but at most a day.
abbrev pub delay : ℕ → ℕ
delay n = min (address_search_first_interval * 2 ^ n) address_search_max_interval

-- Each search starts no earlier than the delay after the one before it, which doubles each time.
abbrev pub Spaced : List ℕ → Type 0
Spaced [] = Unit
Spaced (t ∷ []) = Unit
Spaced (t ∷ u ∷ us) = (u + delay (length us) ≤ t) × Spaced (u ∷ us)

abbrev NextFits : Option ℕ → List ℕ → Type 0
NextFits next [] = next ≡ none
NextFits next (t ∷ ts) = next ≡ some (t + delay (length ts))

-- Each search starts ten minutes after the purifier was first found unreachable, or later.
abbrev pub StartsLate : Option ℕ → List ℕ → Type 0
StartsLate none starts = starts ≡ []
StartsLate (some since) starts = All (λ t. since + address_search_after ≤ t) starts

pub record IsPaced (o : Outage) : Type 0 where
  pub spaced : Spaced o.1
  pub next_fits : NextFits (o.0).next_search o.1
  pub interval_fits : (o.0).interval ≡ delay (length o.1)
  pub late : StartsLate (o.0).unreachable_since o.1

delay-suc : (n : ℕ) → min (delay n * 2) address_search_max_interval ≡ delay (suc n)
delay-suc n = rw pow-succ' (omega arith)

Spaced-start :
    (now : ℕ) (next : Option ℕ) (starts : List ℕ)
    → NextFits next starts
    → too_early now next ≡ false
    → Spaced starts
    → Spaced (now ∷ starts)
Spaced-start now next [] f n h = tt
Spaced-start now next (t ∷ ts) f n h =
    let on_time : t + delay (length ts) ≤ now = ground arith in (on_time, h)

late-start :
    (now since : ℕ) (found : Option ℕ) (starts : List ℕ)
    → found ≡ some since
    → ltb now (since + address_search_after) ≡ false
    → StartsLate found starts
    → StartsLate found (now ∷ starts)
late-start now since none starts e l h = cc
late-start now since (some u) starts e l h =
    let in_time : u + address_search_after ≤ now = ground arith in (in_time, h)

module _ (now : ℕ) (s : AddressSearch) (starts : List ℕ) (h : IsPaced (s, starts)) where
  started : AddressSearch
  started = record s {
    next_search = some (now + s.interval);
    interval = min (s.interval * 2) address_search_max_interval;
    running = true;
  }

  start-IsPaced :
      (since : ℕ)
      → s.unreachable_since ≡ some since
      → ltb now (since + address_search_after) ≡ false
      → too_early now s.next_search ≡ false
      → IsPaced (started, now ∷ starts)
  unfolding started
  start-IsPaced since e l n = record {
    spaced = Spaced-start now s.next_search starts h.next_fits n h.spaced;
    next_fits = ap (λ (d : ℕ). some (now + d)) h.interval_fits;
    interval_fits =
        ap (λ (d : ℕ). min (d * 2) address_search_max_interval) h.interval_fits
        ∙ delay-suc (length starts);
    late = late-start now since s.unreachable_since starts e l h.late;
  }

  -- the first sighting of an outage, before which no search has started
  first-IsPaced :
      s.unreachable_since ≡ none → IsPaced (record s { unreachable_since = some now }, starts)
  first-IsPaced e =
      let fresh : starts ≡ [] = rw e at h.late in
      record {
        spaced = h.spaced;
        next_fits = h.next_fits;
        interval_fits = h.interval_fits;
        late = rw fresh tt;
      }

  choose-IsPaced :
      (b : Bool) (p q : AddressSearch × Bool)
      → (b ≡ true → IsPaced (noted now starts p))
      → (b ≡ false → IsPaced (noted now starts q))
      → IsPaced (noted now starts (if b then p else q))
  choose-IsPaced true p q hp hq = hp refl
  choose-IsPaced false p q hp hq = hq refl

  gone-IsPaced :
      (found : Option ℕ)
      → s.unreachable_since ≡ found
      → IsPaced (noted now starts (note_gone now found s))
  unfolding note_gone started
  gone-IsPaced none e = first-IsPaced e
  gone-IsPaced (some since) e =
      choose-IsPaced s.running _ _ (λ _. h)
        λ _.
          choose-IsPaced (ltb now (since + address_search_after)) _ _ (λ _. h)
            λ l. choose-IsPaced (too_early now s.next_search) _ _ (λ _. h) (start-IsPaced since e l)

  unreached-IsPaced : IsPaced (noted now starts (note_unreachable now s))
  unfolding note_unreachable
  unreached-IsPaced = gone-IsPaced s.unreachable_since refl

reached-IsPaced : (s : AddressSearch) → IsPaced (note_reachable s, [])
unfolding note_reachable
reached-IsPaced s = record { spaced = tt; next_fits = refl; interval_fits = refl; late = refl }

sight-IsPaced : (x : Sighting) (o : Outage) → IsPaced o → IsPaced (sight x o)
unfolding sight search_done
sight-IsPaced reached (s, starts) h = reached-IsPaced s
sight-IsPaced finished (s, starts) h = record {
  spaced = h.spaced;
  next_fits = h.next_fits;
  interval_fits = h.interval_fits;
  late = h.late;
}
sight-IsPaced (unreached now) (s, starts) h = unreached-IsPaced now s starts h

sight_all-keeps : (xs : List Sighting) (o : Outage) → IsPaced o → IsPaced (sight_all xs o)
unfolding sight_all
sight_all-keeps [] o h = h
sight_all-keeps (x ∷ xs) o h = sight_all-keeps xs (sight x o) (sight-IsPaced x o h)

-- Whatever happens to an entry, the searches of an outage start ten minutes after it began or
-- later, and each one no earlier than an hour after the one before, a time that doubles with each
-- search up to a day. The bookkeeping says when the next one may start.
pub sight_all-IsPaced : (xs : List Sighting) → IsPaced (sight_all xs (no_search, []))
sight_all-IsPaced xs =
    sight_all-keeps xs (no_search, [])
      (record { spaced = tt; next_fits = refl; interval_fits = refl; late = refl })
