-- ===== src/Purifier/Coordinator/Search.antt =====
-- The bookkeeping of the search for a purifier's address (purifier/coordinator.py).
use ha_birdie.Base.{ℕ, ◌+◌, ◌*◌, min, Bool, true, false, Option, none, some, ltb, if◌then◌else◌}
use ha_birdie.Purifier.Coordinator.{
  AddressSearch, address_search_after, address_search_first_interval, address_search_max_interval,
}

-- `_async_note_reachable`
unfoldable pub note_reachable : AddressSearch → AddressSearch
note_reachable s = record s {
  unreachable_since = none;
  next_search = none;
  interval = address_search_first_interval;
}

-- `next_search is not None and now < next_search`
abbrev pub too_early : ℕ → Option ℕ → Bool
too_early now none = false
too_early now (some at) = ltb now at

-- the guards of `_async_note_unreachable` for a purifier that has been gone `since` then
unfoldable pub note_gone : ℕ → Option ℕ → AddressSearch → AddressSearch × Bool
note_gone now none s = (record s { unreachable_since = some now }, false)
note_gone now (some since) s =
    if s.running
    then (s, false)
    else if ltb now (since + address_search_after)
    then (s, false)
    else if too_early now s.next_search
    then (s, false)
    else (
      record s {
        next_search = some (now + s.interval);
        interval = min (s.interval * 2) address_search_max_interval;
        running = true;
      },
      true,
    )

-- `_async_note_unreachable`: the bookkeeping, and whether a search is started
unfoldable pub note_unreachable : ℕ → AddressSearch → AddressSearch × Bool
unfolding note_gone
note_unreachable now s = note_gone now s.unreachable_since s

-- the background task ends
unfoldable pub search_done : AddressSearch → AddressSearch
search_done s = record s { running = false }
