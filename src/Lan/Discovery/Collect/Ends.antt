-- ===== src/Lan/Discovery/Collect/Ends.antt =====
-- A search for announcements ends in time and gives what was announced (lan/discovery.py).
use ha_birdie.Base.{
  ℕ, suc, ◌+◌, ◌-◌, ◌*◌, ◌≤◌, min, String, ◌≡◌, refl, ◌∙◌, ap, sym, Bool, false, ◌||◌, Option, some,
  List, [], ◌∷◌, ◌++◌, arith, leb, if◌then◌else◌, or_else, length, Bool-cases, inl, inr,
}
use mathlib.Core.List.{append-nil}
use ha_birdie.Base.Dict.{Dict, lookup}
use ha_birdie.Lan.Discovery.{
  DiscoveredDevice, DiscoveryListener, request_interval, start, stop, handle, request,
}
use ha_birdie.Lan.Discovery.Collect.Waits.{
  latest, heard_in, latest-append, lookup-hear_all, hears, Waited, last, more, waiting, Collected,
  or_else_assoc, asked-found, asked-done, hear_all-done, stops_cases, already-Takes,
  not_already-unknown,
}
use ha_birdie.Lan.Discovery.Collect.{
  Wait, Found, hear, hear_all, asked, collect, already, ended, discover,
}

module _ (requests : Bool) (wanted : Option String) (deadline : ℕ) where
  -- what the waiting loop gives
  record Gathered (now : ℕ) (ws : List Wait) (known : Dict DiscoveredDevice) (r : Found)
      : Type 0 where
    waits : ℕ
    enough : waits ≤ length ws
    waited : Waited wanted deadline now ws waits
    shows :
        (k : String) → lookup k r.found ≡ or_else (latest k (heard_in waits ws)) (lookup k known)

  collect_ends :
      (ws : List Wait) (now : ℕ) (f : Found)
      → f.done ≡ false
      → 1 ≤ length ws
      → deadline ≤ now + 6000 * length ws
      → (r : Found) × (collect requests wanted deadline ws now f ≡ some r)
        × Gathered now ws f.found r
  unfolding collect
  collect_ends [] now f o h k = absurd (omega arith)
  collect_ends (w ∷ ws) now f o h k = elim (Bool-cases (heard.done || leb deadline later)) [
    | inl e ↦ (
      heard,
      rw e refl,
      record {
        waits = 1;
        enough = omega arith;
        waited = last (stops_cases heard.done (hears wanted w.heard) deadline later done_if e);
        shows = λ k. rw append-nil (one_wait k);
      },
    )
    | inr e ↦
        let (r, ended, c) =
          collect_ends ws later heard (ground (arith, e)) (ground (arith, h, k, e))
            (ground (arith, h, k, e)) in
        (
          r,
          rw e ended,
          record {
            waits = suc c.waits;
            enough = omega (arith, c.enough);
            waited = more (sym done_if ∙ ground (arith, e)) (ground (arith, e)) c.waited;
            shows = λ k. more_waits k c.waits r (c.shows k);
          },
        )
  ]
    where
      heard : Found
      heard = hear_all wanted w.heard (asked requests f)

      done_if : heard.done ≡ hears wanted w.heard
      done_if =
          hear_all-done wanted w.heard (asked requests f)
          ∙ ap (λ (b : Bool). b || hears wanted w.heard) (asked-done requests f ∙ o)

      later : ℕ
      later = now + min request_interval (deadline - now) + w.late

      one_wait : (k : String) → lookup k heard.found ≡ or_else (latest k w.heard) (lookup k f.found)
      one_wait k =
          lookup-hear_all wanted k w.heard (asked requests f)
          ∙ ap (λ d. or_else (latest k w.heard) (lookup k d)) (asked-found requests f)

      more_waits :
          (k : String) (n : ℕ) (r : Found)
          → lookup k r.found ≡ or_else (latest k (heard_in n ws)) (lookup k heard.found)
          → lookup k r.found ≡ or_else (latest k (w.heard ++ heard_in n ws)) (lookup k f.found)
      more_waits k n r h =
          h
          ∙ ap (or_else (latest k (heard_in n ws))) (one_wait k)
          ∙ or_else_assoc (latest k (heard_in n ws)) (latest k w.heard) (lookup k f.found)
          ∙ ap (λ o. or_else o (lookup k f.found)) (sym (latest-append k w.heard (heard_in n ws)))

hear_all-transports :
    (wanted : Option String) (ds : List DiscoveredDevice) (f : Found)
    → (hear_all wanted ds f).listener.transports ≡ f.listener.transports
unfolding hear_all hear handle
hear_all-transports wanted [] f = refl
hear_all-transports wanted (d ∷ ds) f = hear_all-transports wanted ds (hear wanted d f)

asked-transports :
    (requests : Bool) (f : Found) → (asked requests f).listener.transports ≡ f.listener.transports
unfolding request
asked-transports requests f = ground arith

collect-transports :
    (requests : Bool) (wanted : Option String) (deadline : ℕ) (ws : List Wait) (now : ℕ) (f : Found)
    (r : Found)
    → collect requests wanted deadline ws now f ≡ some r
    → r.listener.transports ≡ f.listener.transports
unfolding collect
collect-transports requests wanted deadline [] now f r h = cc
collect-transports requests wanted deadline (w ∷ ws) now f r h =
    let heard = hear_all wanted w.heard (asked requests f) in
    let later = now + min request_interval (deadline - now) + w.late in
    ground (
      arith,
      hear_all-transports wanted w.heard (asked requests f),
      asked-transports requests f,
      collect-transports requests wanted deadline ws later heard r,
    )

module _ (own requests : Bool) (binds : ℕ → Bool) (wanted : Option String)
    (l : DiscoveryListener) where
  -- the search before its first wait
  abbrev begun : Found
  begun = record { listener = if own then start binds l else l; found = l.devices; done = false }

  abbrev pub Result : ℕ → ℕ → List Wait → Option Found → Type 0
  Result seconds now waits o =
      (r : Found) × (o ≡ some r)
      × Collected wanted (now + seconds) now waits l.devices r
      × (r.listener.transports ≡ (if own then [] else l.transports))

  ended-Result :
      (seconds now : ℕ) (waits : List Wait) (r : Found)
      → Collected wanted (now + seconds) now waits l.devices r
      → r.listener.transports ≡ begun.listener.transports
      → Result seconds now waits (ended own (some r))
  unfolding stop
  ended-Result seconds now waits r c t = elim (Bool-cases own) [
    | inl e ↦ rw e (
      record r { listener = stop r.listener },
      refl,
      record { waits = c.waits; enough = c.enough; taken = c.taken; shows = c.shows },
      refl,
    )
    | inr e ↦ rw e (r, refl, c, rw e at t)
  ]

  -- Where there are waits enough for the seconds of a search, it ends. It takes no wait exactly where
  -- it looks for a device that the listener knew, and else waits until that device is heard or the
  -- seconds have passed, whichever is first. It gives each device with its last announcement in the
  -- waits that it took, or else the one that the listener knew before, and a listener of its own is
  -- stopped, while another one listens as before.
  pub discover_ends :
      (seconds : ℕ) (waits : List Wait) (now : ℕ)
      → 1 ≤ length waits
      → seconds ≤ 6000 * length waits
      → Result seconds now waits (discover own requests binds wanted seconds waits now l)
  unfolding discover
  discover_ends seconds waits now h k = elim (Bool-cases (already wanted l.devices)) [
    | inl e ↦ rw e (
        ended-Result seconds now waits begun
          (record {
            waits = 0;
            enough = omega arith;
            taken = already-Takes wanted (now + seconds) l.devices now waits e;
            shows = λ k. refl;
          })
          refl)
    | inr e ↦
        let (r, ends, c) =
          collect_ends requests wanted (now + seconds) waits now begun refl h (omega arith) in
        rw (e, ends)
          (ended-Result seconds now waits r
            (record {
              waits = c.waits;
              enough = c.enough;
              taken = waiting (not_already-unknown wanted l.devices e) c.waited;
              shows = c.shows;
            })
            (collect-transports requests wanted (now + seconds) waits now begun r ends))
  ]
