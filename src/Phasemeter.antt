-- ===== src/Phasemeter.antt =====
-- src/phasemeter.c: the thread that pairs the PPS timestamps of the PHC and of the GNSS receiver
-- and publishes their phase error. A read of the PHC that blocks is the end of the list of events;
-- `stop` requests of the main thread are events of the same list, in any place.
pub mod Pairing
pub mod Runs
pub mod Stop
mod Tests
use oscillatord.Base.{
  ℕ, ◌+◌, ◌-◌, Bool, true, false, ◌&&◌, ◌||◌, Option, none, some, List, [], ◌∷◌, if◌then◌else◌,
}
use oscillatord.Base.Int.{ℤ, pos, negsuc, ◌+ℤ◌, ◌-ℤ◌, ◌*ℤ◌, neg, ltb_ℤ, eqb_ℤ}
use oscillatord.Structs.{
  Status, init, both_timestamps, no_gnss_timestamps, no_art_internal_timestamps,
}
use oscillatord.Base.CError.{fail, e_inval}
use oscillatord.Base.Words.{to_int32, to_int64}

-- EXTTS_INDEX_ART_INTERNAL_PPS, EXTTS_INDEX_GNSS_PPS and MILLISECONDS_500
abbrev pub internal_pps : ℤ
internal_pps = pos 5

abbrev pub gnss_pps : ℤ
gnss_pps = pos 0

abbrev pub milliseconds_500 : ℕ
milliseconds_500 = 500000000

-- `struct ptp_extts_event`: `t.sec` is signed, `t.nsec` and `index` are not.
pub record ExttsEvent : Type 0 where
  pub sec : ℤ
  pub nsec : ℕ
  pub index : ℕ

-- `struct external_timestamp`
pub record Stamp : Type 0 where
  pub timestamp : ℤ
  pub index : ℤ

-- `struct phasemeter`: what the two threads share. `published` counts the signals of `cond`.
pub record Phasemeter : Type 0 where
  pub phase_error : ℤ
  pub status : Status
  pub stop : Bool
  pub published : ℕ

-- The index (or the error), and the timestamp. `none` is a short read, which leaves `*nsec` alone,
-- as a negative second field does.
pub read_extts : Option ExttsEvent → ℤ → Stamp
read_extts none old = record { timestamp = old; index = fail }
read_extts (some e) old =
    if ltb_ℤ e.sec (pos 0) then record { timestamp = old; index = e_inval } else record {
      timestamp = to_int64 (e.sec *ℤ pos 1000000000 +ℤ pos e.nsec);
      index = to_int32 (pos e.index);
    }

abbrev pub same : ℤ → ℤ → Bool
same a b = eqb_ℤ a b

-- The end of a wait loop: `ts.index` is one of the two PPS.
abbrev pub is_pps : Stamp → Bool
is_pps s = same s.index internal_pps || same s.index gnss_pps

-- Where the thread stands: in a wait loop for a first timestamp (with its own `stop`, as it was
-- last read), in the one for the second with the first at hand, or out of the loop. The number is
-- what `timestamp` holds before the read.
pub data Point : Type 0 where
  first : Bool → ℤ → Point
  second : Stamp → ℤ → Point
  closed : Point

-- `while (!stop)`, with `ts1` at hand; `ts2.timestamp` is what the last read left.
abbrev loop_test : Bool → Stamp → ℤ → Point
loop_test stop ts1 old = if stop then closed else second ts1 old

pub publish : Phasemeter → Status → ℤ → Phasemeter
publish p status error = record p {
  status = status;
  phase_error = error;
  published = p.published + 1;
}

-- The test `timestamp_diff > MILLISECONDS_500 || timestamp_diff < -MILLISECONDS_500`.
abbrev pub is_far : ℤ → Bool
is_far d = ltb_ℤ (pos milliseconds_500) d || ltb_ℤ d (negsuc (milliseconds_500 - 1))

-- `timestamp_diff`, with the sign that the order of arrival gives it.
pub timestamp_diff : Stamp → Stamp → ℤ
timestamp_diff ts1 ts2 =
    let diff = to_int64 (ts2.timestamp -ℤ ts1.timestamp) in
    if same ts1.index gnss_pps then neg diff else diff

-- The body of the loop once both timestamps are read. A pair more than 500 ms apart is left by
-- `continue`, which reads no `phasemeter->stop`. A published pair wants a new first timestamp.
pub pair : Phasemeter → Stamp → Stamp → Phasemeter × Point
unfolding publish timestamp_diff
pair p ts1 ts2 =
    if same ts1.index internal_pps && same ts1.index ts2.index
    then (publish p no_gnss_timestamps p.phase_error, loop_test p.stop ts2 ts2.timestamp)
    else if same ts1.index gnss_pps && same ts1.index ts2.index
    then (publish p no_art_internal_timestamps p.phase_error, loop_test p.stop ts2 ts2.timestamp)
    else (let diff = timestamp_diff ts1 ts2 in
        if is_far diff
        then (p, second ts2 ts2.timestamp)
        else (publish p both_timestamps (to_int32 diff), first p.stop ts1.timestamp))

-- What the thread meets: a read that returns, or a `stop` that the main thread sets meanwhile.
pub data Event : Type 0 where
  reading : Option ExttsEvent → Event
  request_stop : Event

abbrev pub System : Type 0
System = Phasemeter × Point

-- A read that returns, in each of the wait loops.
pub on_reading : Phasemeter → Point → Option ExttsEvent → System
unfolding pair
on_reading p (first stop old) e =
    let ts = read_extts e old in
    if is_pps ts then (p, loop_test stop ts ts.timestamp) else (p, first stop ts.timestamp)
on_reading p (second ts1 old) e =
    let ts = read_extts e old in if is_pps ts then pair p ts1 ts else (p, second ts1 ts.timestamp)
on_reading p closed e = (p, closed)

pub step : System → Event → System
unfolding on_reading
step (p, point) (reading e) = on_reading p point e
step (p, point) request_stop = (record p { stop = true }, point)

pub run : System → List Event → System
unfolding step
run s [] = s
run s (e ∷ es) = run (step s e) es

-- The thread's start: both PPS are enabled first, and a failure ends it. The memory of the first
-- timestamp and of `phase_error` is not initialised, so they are any numbers.
pub start : Bool → Bool → ℤ → ℤ → System
start internal_enabled gnss_enabled phase_error timestamp =
    let p : Phasemeter = record {
      phase_error = phase_error;
      status = init;
      stop = false;
      published = 0;
    } in
    (p, if internal_enabled && gnss_enabled then first false timestamp else closed)

-- What `get_phase_error` hands out once it has been woken.
pub get_phase_error : Phasemeter → Status × ℤ
get_phase_error p = (p.status, p.phase_error)
