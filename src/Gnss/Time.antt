-- ===== src/Gnss/Time.antt =====
-- The time scales and leap seconds of src/gnss.c.
use oscillatord.Base.{
  ℕ, ◌+◌, ◌*◌, ◌/◌, ◌≤◌, ◌<◌, ◌≡◌, sym, ap, ◌∙◌, ◌≢◌, ◌↔◌, ◌⊎◌, Bool, true, false, Option, none,
  some, List, [], ◌∷◌, arith, if◌then◌else◌,
}
use oscillatord.Base.Int.{ℤ, pos, negsuc, ◌+ℤ◌, ◌-ℤ◌, abs, ◌≤ℤ◌, ◌<ℤ◌}
use oscillatord.Gnss.Session.{
  Leap, no_warning, add_second, del_second, Context, Session, TimeBase, gnss_base, utc_base,
  TimeRef, gps, bds, gal, glo, TimTp, mon_rf, nav_timels, tim_tp, tim_svin, other_message,
}
use oscillatord.Gnss.Messages.{
  parse_nav_timels, q_err_threshold_ps, int32_min, filter_q_err, sec_in_week, gnss_offset,
  tai_offset, to_int, tai_exact, tai_seconds, set_tai, parse_tim_tp, get_antenna_data,
}
use oscillatord.Gnss.Thread.{Input, epoch, message, timeout, on_input, run, get_epoch_data}
use oscillatord.Base.Words.{to_int32}

-- A message of UBX-TIM-TP that is whole.
abbrev pub tim : TimeBase → TimeRef → ℕ → ℕ → TimTp
tim base ref week tow_ms = record {
  is_whole = true;
  tow_ms = tow_ms;
  week = week;
  q_err = pos 0;
  time_base = base;
  time_ref = ref;
}

-- Milliseconds since the epoch of the constellation.
abbrev pub since_epoch : ℕ → ℕ → ℕ
since_epoch week tow_ms = (week * sec_in_week) * 1000 + tow_ms

same_exact :
    (c : Context) (w t w' t' : ℕ) (offset offset' : ℤ) (ref : TimeRef) (lead : ℕ)
    → ((ref ≡ gal) × (lead ≡ 619315200)) ⊎ ((ref ≡ bds) × (lead ≡ 820108814))
    → since_epoch w t ≡ since_epoch w' t' + lead * 1000
    → tai_offset c (tim gnss_base gps w t) ≡ some offset
    → tai_offset c (tim gnss_base ref w' t') ≡ some offset'
    → tai_exact t w offset ≡ tai_exact t' w' offset'
unfolding tai_offset gnss_offset tai_exact ◌+ℤ◌ ◌-ℤ◌
same_exact c w t w' t' offset offset' ref lead r e h h' = ground arith

gps_exact :
    (c : Context) (w t : ℕ) (offset : ℤ)
    → tai_offset c (tim gnss_base gps w t) ≡ some offset
    → tai_exact t w offset ≡ pos ((since_epoch w t + 500) / 1000 + 315964818)
unfolding tai_offset gnss_offset tai_exact ◌+ℤ◌ ◌-ℤ◌
gps_exact c w t offset h = ground arith

to_int-fits : (n : ℕ) → n ≤ 2147483647 → to_int (pos n) ≡ pos n
to_int-fits n h = ground arith

week_fits :
    (w t : ℕ) → t < 604800000 → w ≤ 3027 → (since_epoch w t + 500) / 1000 + 315964818 ≤ 2147483647
week_fits w t l k = omega arith

-- The same pulse, told in GPS time and in the time of Galileo or BeiDou, gives the same TAI time:
-- Galileo counts from 619315200 s after the GPS epoch, BeiDou from 820108814 s after it. Up to GPS
-- week 3027 (January 2038) both are the exact time, 315964819 s and the GPS time in whole seconds,
-- less the one second to the pulse before. Nothing is said of later weeks, whose times need not fit
-- an `int`.
pub constellations_agree :
    (c : Context) (w t w' t' : ℕ) (offset offset' : ℤ) (ref : TimeRef) (lead : ℕ)
    → ((ref ≡ gal) × (lead ≡ 619315200)) ⊎ ((ref ≡ bds) × (lead ≡ 820108814))
    → since_epoch w t ≡ since_epoch w' t' + lead * 1000
    → t < 604800000
    → w ≤ 3027
    → tai_offset c (tim gnss_base gps w t) ≡ some offset
    → tai_offset c (tim gnss_base ref w' t') ≡ some offset'
    → (tai_seconds t w offset ≡ pos ((since_epoch w t + 500) / 1000 + 315964818))
      × (tai_seconds t' w' offset' ≡ pos ((since_epoch w t + 500) / 1000 + 315964818))
unfolding tai_seconds
constellations_agree c w t w' t' offset offset' ref lead r e l k h h' =
    let a = gps_exact c w t offset h in
    let b = same_exact c w t w' t' offset offset' ref lead r e h h' in
    let f = to_int-fits _ (week_fits w t l k) in (ap to_int a ∙ f, ap to_int (sym b ∙ a) ∙ f)

-- With leap seconds below 256 known, a pulse told in UTC or in GLONASS time (three hours ahead of UTC)
-- has the TAI time, before its conversion to an `int`, of the same pulse in GPS time, which is ahead
-- of UTC by the leap seconds.
pub utc_agrees :
    (c : Context) (n w t w' t' : ℕ) (offset offset' : ℤ) (base : TimeBase) (ref : TimeRef)
    (ahead : ℕ)
    → (c.lsset ≡ true) × (c.leap_seconds ≡ pos n) × (n < 256)
    → ((base ≡ utc_base) × (ahead ≡ 0)) ⊎ ((base ≡ gnss_base) × (ref ≡ glo) × (ahead ≡ 10800))
    → since_epoch w t + ahead * 1000 ≡ since_epoch w' t' + n * 1000
    → tai_offset c (tim gnss_base gps w t) ≡ some offset
    → tai_offset c (tim base ref w' t') ≡ some offset'
    → tai_exact t w offset ≡ tai_exact t' w' offset'
unfolding tai_offset gnss_offset tai_exact to_int32 ◌+ℤ◌ ◌-ℤ◌
utc_agrees c n w t w' t' offset offset' base ref ahead k r e h h' = ground arith

-- Without leap seconds, UTC and GLONASS messages change nothing: no time is made up.
pub unknown_leap_ignored :
    (s : Session) (g : TimTp)
    → s.context.lsset ≡ false
    → (g.time_base ≡ utc_base) ⊎ ((g.time_base ≡ gnss_base) × (g.time_ref ≡ glo))
    → parse_tim_tp s g ≡ s
unfolding parse_tim_tp tai_offset gnss_offset
unknown_leap_ignored s g h r = ground arith

-- The TAI time of a message in GPS time, before its conversion to an `int`, fits the 32-bit
-- `tai_time` exactly if its week is 3027 or before (January 2038), for any week but 3028, in the
-- course of which it stops fitting.
pub gps_time_fits :
    (c : Context) (week tow_ms : ℕ) (offset : ℤ)
    → tow_ms < 604800000
    → week ≢ 3028
    → tai_offset c (tim gnss_base gps week tow_ms) ≡ some offset
    → (tai_exact tow_ms week offset ≤ℤ pos 2147483647) ↔ (week ≤ 3027)
unfolding tai_offset gnss_offset tai_exact ◌+ℤ◌ ◌-ℤ◌
gps_time_fits c week tow_ms offset h n e = ground arith

-- Within 5 ns, or INT32_MIN.
abbrev pub IsSmall : ℤ → Type 0
IsSmall q = (abs q ≤ q_err_threshold_ps) ⊎ (q ≡ int32_min)

-- Every quantization error at hand is.
pub record QErrSmall (s : Session) : Type 0 where
  pub current : IsSmall s.context.q_err
  pub last : IsSmall s.context.q_err_last_epoch

filter_q_err-IsSmall : (q : ℤ) → IsSmall (filter_q_err q)
unfolding filter_q_err
filter_q_err-IsSmall q = ground arith

-- The warning agrees with the change of leap seconds that it is about, and with its time.
abbrev pub Warns : Leap → ℤ → ℤ → Type 0
Warns no_warning change time = Unit {0}
Warns add_second change time = (change ≡ pos 1) × (time <ℤ pos 82800)
Warns del_second change time = (change ≡ negsuc 0) × (time <ℤ pos 82800)

abbrev pub LeapIsSound : Session → Type 0
LeapIsSound s = Warns s.context.leap_notify s.context.ls_change s.context.time_to_ls_event

-- The receiver announces at most one second at a time.
abbrev pub OneSecond : Input → Type 0
OneSecond (message (nav_timels g)) = abs g.ls_change ≤ 1
OneSecond _ = Unit {0}

abbrev pub AllOneSecond : List Input → Type 0
AllOneSecond [] = Unit {0}
AllOneSecond (i ∷ is) = OneSecond i × AllOneSecond is

module _ (fix_time power_off : ℕ) where
  tim_tp-QErrSmall :
      (s : Session) (g : TimTp) (whole : Bool) (o : Option ℤ)
      → QErrSmall s
      → QErrSmall (if whole then elim o [ none ↦ s | some offset ↦ set_tai s g offset ] else s)
  unfolding set_tai
  tim_tp-QErrSmall s g false o h = h
  tim_tp-QErrSmall s g true none h = h
  tim_tp-QErrSmall s g true (some offset) h = record {
    current = filter_q_err-IsSmall g.q_err;
    last = h.current;
  }

  on_input-QErrSmall :
      (s : Session) (i : Input) → QErrSmall s → QErrSmall (on_input fix_time power_off s i).0
  unfolding on_input parse_tim_tp get_antenna_data parse_nav_timels
  on_input-QErrSmall s (epoch e) h = ground arith
  on_input-QErrSmall s (message (tim_tp g)) h =
      tim_tp-QErrSmall s g g.is_whole (tai_offset s.context g) h
  on_input-QErrSmall s (message (mon_rf g)) h = ground arith
  on_input-QErrSmall s (message (nav_timels g)) h = ground arith
  on_input-QErrSmall s (message (tim_svin g)) h = ground arith
  on_input-QErrSmall s (message other_message) h = h
  on_input-QErrSmall s timeout h = ground arith

  -- From a session whose two quantization errors are within 5 ns or INT32_MIN, as a new one's are,
  -- whatever is received, the quantization error that the main loop reads is within 5 ns, or it is
  -- INT32_MIN, which passes the test as `abs` leaves it negative.
  pub q_err_bounded :
      (s : Session) (is : List Input)
      → QErrSmall s
      → IsSmall (get_epoch_data (run fix_time power_off s is)).2
  unfolding run get_epoch_data
  q_err_bounded s [] h = h.last
  q_err_bounded s (i ∷ is) h =
      q_err_bounded (on_input fix_time power_off s i).0 is (on_input-QErrSmall s i h)

  on_input-LeapIsSound :
      (s : Session) (i : Input)
      → OneSecond i
      → LeapIsSound s
      → LeapIsSound (on_input fix_time power_off s i).0
  unfolding on_input parse_tim_tp get_antenna_data parse_nav_timels
  on_input-LeapIsSound s (epoch e) o h = ground arith
  on_input-LeapIsSound s (message (mon_rf g)) o h = ground arith
  on_input-LeapIsSound s (message (nav_timels g)) o h = ground arith
  on_input-LeapIsSound s (message (tim_tp g)) o h = ground arith
  on_input-LeapIsSound s (message (tim_svin g)) o h = ground arith
  on_input-LeapIsSound s (message other_message) o h = h
  on_input-LeapIsSound s timeout o h = ground arith

  -- Where the receiver announces one leap second at a time, and the warning agrees with the
  -- announced change at the start, it does so after any inputs: a warning is given only for a change
  -- of its own sign that is less than 23 hours away.
  pub run-LeapIsSound :
      (s : Session) (is : List Input)
      → AllOneSecond is
      → LeapIsSound s
      → LeapIsSound (run fix_time power_off s is)
  unfolding run
  run-LeapIsSound s [] o h = h
  run-LeapIsSound s (i ∷ is) o h =
      run-LeapIsSound (on_input fix_time power_off s i).0 is o.1 (on_input-LeapIsSound s i o.0 h)
