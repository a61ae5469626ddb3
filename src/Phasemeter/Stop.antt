-- ===== src/Phasemeter/Stop.antt =====
-- How `phasemeter_stop` reaches the thread of src/phasemeter.c.
use oscillatord.Base.{
  ◌≡◌, refl, sym, ◌≢◌, ◌⊎◌, inl, inr, Bool, true, false, Option, List, [], ◌∷◌, map, arith,
}
use oscillatord.Base.Int.{ℤ, pos, ◌-ℤ◌}
use oscillatord.Phasemeter.{
  internal_pps, gnss_pps, milliseconds_500, both_timestamps, ExttsEvent, Stamp, Phasemeter,
  read_extts, is_pps, Point, first, second, closed, publish, is_far, timestamp_diff, pair, reading,
  request_stop, on_reading, run,
}
use oscillatord.Phasemeter.Pairing.{stamp, Near, pair-gnss, pair-far}
use mathlib.Core.Path.{subst}

-- What the last read leaves before the next one.
abbrev pub left_time : Point → ℤ
left_time (first stop old) = old
left_time (second ts1 old) = old
left_time closed = pos 0

-- Once `stop` is set, a pair of timestamps that is published (any outcome but the 500 ms one)
-- ends the thread at the next PPS that is read, if not before.
pub publication-closes :
    (p : Phasemeter) (ts1 ts2 : Stamp) (e : Option ExttsEvent)
    → p.stop ≡ true
    → (pair p ts1 ts2).0.published ≢ p.published
    → is_pps (read_extts e (left_time (pair p ts1 ts2).1)) ≡ true
    → (on_reading (pair p ts1 ts2).0 (pair p ts1 ts2).1 e).1 ≡ closed
unfolding pair publish on_reading
publication-closes p ts1 ts2 e h q r = ground arith

-- The thread holds an internal timestamp, and the next second brings the GNSS PPS, more than 500 ms
-- away from it, and then the internal PPS, at most 500 ms from that: the two of the new second are
-- published, and the thread waits for a first timestamp again.
pub far-resynchronises :
    (p : Phasemeter) (old t g i : ℤ) (e f : Option ExttsEvent)
    → is_far (timestamp_diff (stamp t internal_pps) (stamp g gnss_pps)) ≡ true
    → Near g i milliseconds_500
    → ((x : ℤ) → read_extts e x ≡ stamp g gnss_pps)
    → ((x : ℤ) → read_extts f x ≡ stamp i internal_pps)
    → run (p, second (stamp t internal_pps) old) (reading e ∷ reading f ∷ [])
      ≡ (publish p both_timestamps (g -ℤ i), first p.stop g)
unfolding run on_reading
far-resynchronises p old t g i e f far near he hf =
    rw (he old, pair-far p t g far, hf g) (pair-gnss p g i near)

-- Readings of alternate PPS, each more than 500 ms from the one before.
abbrev pub Alternate : Stamp → Stamp → Type 0
Alternate a b =
    ((a.index ≡ internal_pps) × (b.index ≡ gnss_pps))
    ⊎ ((a.index ≡ gnss_pps) × (b.index ≡ internal_pps))

abbrev pub Drifts : Stamp → List (Option ExttsEvent) → Type 0
Drifts a [] = Unit {0}
Drifts a (e ∷ es) =
    let b = read_extts e a.timestamp in
    Alternate a b × (is_far (timestamp_diff a b) ≡ true) × Drifts b es

pair-Alternate :
    (p : Phasemeter) (a b : Stamp)
    → Alternate a b
    → is_far (timestamp_diff a b) ≡ true
    → (is_pps b ≡ true) × (pair p a b ≡ (p, second b b.timestamp))
unfolding pair
pair-Alternate p a b h far = elim h [
  | inl (ha, hb) ↦ (rw hb, ground arith)
  | inr (ha, hb) ↦ (rw hb, ground arith)
]

abbrev pub is_closed : Point → Bool
is_closed closed = true
is_closed _ = false

on_reading-drift :
    (p : Phasemeter) (a : Stamp) (e : Option ExttsEvent)
    → let b = read_extts e a.timestamp in
      Alternate a b
      → is_far (timestamp_diff a b) ≡ true
      → on_reading p (second a a.timestamp) e ≡ (p, second b b.timestamp)
unfolding on_reading
on_reading-drift p a e h far =
    let (seen, kept) = pair-Alternate p a (read_extts e a.timestamp) h far in rw (seen, kept)

drift_kept :
    (p : Phasemeter) (a : Stamp) (es : List (Option ExttsEvent))
    → Drifts a es
    → let (p', q) = run (p, second a a.timestamp) (map reading es) in
      (p' ≡ p) × (is_closed q ≡ false)
unfolding run
drift_kept p a [] h = (refl, refl)
drift_kept p a (e ∷ es) h =
    let b = read_extts e a.timestamp in
    subst (λ s. ((run s (map reading es)).0 ≡ p) × (is_closed (run s (map reading es)).1 ≡ false))
      (sym (on_reading-drift p a e h.0 h.1)) (drift_kept p b es h.2)

-- While the two PPS alternate, each more than 500 ms from the one before, a request to stop is not
-- seen: after any number of such readings the thread is in its loop, and nothing was published.
pub drift_ignores_stop :
    (p : Phasemeter) (a : Stamp) (es : List (Option ExttsEvent))
    → Drifts a es
    → let (p', q) = run (p, second a a.timestamp) (request_stop ∷ map reading es) in
      (p' ≡ record p { stop = true }) × (is_closed q ≡ false)
unfolding run
drift_ignores_stop p a es h = drift_kept (record p { stop = true }) a es h
