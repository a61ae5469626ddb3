-- ===== src/Gnss/Tests.antt =====
-- The receiver's theorems at concrete sessions and messages.
use oscillatord.Base.{◌≤◌, ◌≡◌, refl, ◌↔◌, inl, inr, true, false, none, some, [], ◌∷◌, arith}
use oscillatord.Base.Int.{pos, negsuc, ◌+ℤ◌, ◌≤ℤ◌}
use oscillatord.Gnss.Session.{
  no_warning, add_second, Context, Session, gnss_base, utc_base, gps, gal, other_ref, AntennaBlock,
  nav_timels, tim_tp, tim_svin, Epoch,
}
use oscillatord.Gnss.Messages.{
  parse_nav_timels, int32_min, filter_q_err, gps_epoch_to_tai, gal_epoch_to_tai, gnss_offset,
  tai_offset, tai_exact, tai_seconds, parse_tim_tp, get_antenna_data,
}
use oscillatord.Gnss.Thread.{
  no_fix, on_epoch, Input, epoch, message, timeout, on_input, run, get_epoch_data,
}
use oscillatord.Gnss.Time.{
  tim, constellations_agree, utc_agrees, unknown_leap_ignored, gps_time_fits, IsSmall, LeapIsSound,
  q_err_bounded, run-LeapIsSound,
}
use oscillatord.Gnss.Validity.{
  wakes, no_fix-keeps_valid, Surveyed, on_input-survey, run-survey_stays, antenna_worst,
}
use oscillatord.Gnss.PtpClock.{
  Round, done, set_ptp_clock_time, CheckedOrStopped, set_ptp_clock_time-checked, Good,
  two_rounds_suffice, invalid_waits,
}
use oscillatord.Base.Words.{to_int32}

abbrev known : Context
known = record {
  q_err = pos 12;
  q_err_last_epoch = negsuc 3;
  leap_seconds = pos 18;
  lsset = true;
  ls_change = pos 0;
  time_to_ls_event = pos 0;
  leap_notify = no_warning;
}

abbrev locked : Session
locked = record {
  context = known;
  last_fix_utc_time = pos 1700000000;
  fix = 5;
  fix_ok = true;
  antenna_status = 2;
  antenna_power = 1;
  valid = true;
  tai_time_set = true;
  tai_time = pos 1700000037;
  satellites_count = 9;
  bypass_survey = false;
  survey_completed = false;
  survey_in_mean_v = none;
  position_accuracy = pos 1;
  time_accuracy = pos 5;
}

abbrev lost : Epoch
lost = record {
  num_sv = none;
  have_fix = false;
  utc_time = pos 0;
  fix = 0;
  fix_ok = false;
  pos_acc = none;
  time_acc = none;
}

abbrev fixed : Epoch
fixed = record lost { num_sv = some 9; have_fix = true; fix = 5; fix_ok = true }

-- A pulse of GPS week 2300: Galileo's week is 1024 less.
constellations_agree_example :
    (tai_seconds 5000 2300 (pos gps_epoch_to_tai) ≡ pos 1707004823)
    × (tai_seconds 5000 1276 (pos gal_epoch_to_tai) ≡ pos 1707004823)
constellations_agree_example =
    constellations_agree known 2300 5000 1276 5000 (pos gps_epoch_to_tai) (pos gal_epoch_to_tai) gal
      619315200 (inl (refl, refl)) (omega arith) (omega arith) (omega arith)
      (unfold tai_offset gnss_offset in refl) (unfold tai_offset gnss_offset in refl)

utc_agrees_test :
    tai_exact 50000 2300 (pos gps_epoch_to_tai)
    ≡ tai_exact 32000 2300 (pos gps_epoch_to_tai +ℤ pos 18)
utc_agrees_test =
    utc_agrees known 18 2300 50000 2300 32000 (pos gps_epoch_to_tai)
      (pos gps_epoch_to_tai +ℤ pos 18) utc_base other_ref 0 (refl, refl, omega arith)
      (inl (refl, refl)) (omega arith) (unfold tai_offset gnss_offset in refl)
      (unfold tai_offset to_int32 ◌+ℤ◌ in refl)

abbrev unsure : Session
unsure = record locked { context = record known { lsset = false } }

unknown_leap_ignored_test : parse_tim_tp unsure (tim utc_base other_ref 2300 1000) ≡ unsure
unknown_leap_ignored_test =
    unknown_leap_ignored unsure (tim utc_base other_ref 2300 1000) refl (inl refl)

gps_time_fits_test : (tai_exact 0 3100 (pos gps_epoch_to_tai) ≤ℤ pos 2147483647) ↔ (3100 ≤ 3027)
gps_time_fits_test =
    gps_time_fits known 3100 0 (pos gps_epoch_to_tai) (omega arith) (omega arith)
      (unfold tai_offset gnss_offset in refl)

abbrev aberrant : Input
aberrant = message (tim_tp (record (tim gnss_base gps 2300 1000) { q_err = pos 90000 }))

-- INT32_MIN is not ignored.
smallest_test : filter_q_err int32_min ≡ int32_min
unfolding filter_q_err
smallest_test = refl

q_err_bounded_example :
    IsSmall (get_epoch_data (run 3 0 locked (aberrant ∷ epoch fixed ∷ aberrant ∷ []))).2
q_err_bounded_example =
    q_err_bounded 3 0 locked (aberrant ∷ epoch fixed ∷ aberrant ∷ [])
      (record { current = inl (omega arith); last = inl (omega arith) })

abbrev announced : Input
announced = message (
    nav_timels (record {
      is_whole = true;
      curr_ls_valid = true;
      curr_ls = pos 18;
      event_valid = true;
      time_to_ls_event = pos 3600;
      ls_change = pos 1;
    }))

run-LeapIsSound_example : LeapIsSound (run 3 0 locked (announced ∷ timeout ∷ []))
run-LeapIsSound_example =
    run-LeapIsSound 3 0 locked (announced ∷ timeout ∷ []) (omega arith, (tt, tt)) tt

warned : (run 3 0 locked (announced ∷ timeout ∷ [])).context.leap_notify ≡ add_second
unfolding run on_input parse_nav_timels
warned = refl

no_fix-keeps_valid_test :
    let (t, signals) = on_epoch 3 locked lost in
    ((get_epoch_data t).0 ≡ true) × (t.fix ≡ no_fix) × (t.fix_ok ≡ false) × (wakes signals ≡ true)
no_fix-keeps_valid_test = no_fix-keeps_valid 3 locked lost refl

abbrev survey_over : Input
survey_over = message (
    tim_svin
      (record { is_whole = true; dur = 1200; mean_v = 4; is_valid = true; is_active = false }))

on_input-survey_test :
    ((on_input 3 0 locked survey_over).0.survey_completed ≡ true) ↔ Surveyed survey_over
on_input-survey_test = on_input-survey 3 0 locked survey_over refl refl

run-survey_stays_test :
    (get_epoch_data
      (run 3 0 (record locked { survey_completed = true }) (timeout ∷ epoch lost ∷ []))).1
    ≡ true
run-survey_stays_test =
    run-survey_stays 3 0 (record locked { survey_completed = true }) (timeout ∷ epoch lost ∷ [])
      refl

abbrev fine_block : AntennaBlock
fine_block = record { ant_status = 2; ant_power = 1 }

abbrev open_block : AntennaBlock
open_block = record { ant_status = 4; ant_power = 1 }

antenna_worst_test :
    (get_antenna_data locked (record {
      is_whole = true;
      blocks = fine_block ∷ open_block ∷ fine_block ∷ [];
    })).antenna_status
    ≡ 4
antenna_worst_test = antenna_worst locked fine_block (open_block ∷ fine_block ∷ []) (omega arith)

-- The PHC is a second late, then right.
abbrev late : Round
late = record {
  is_running = true;
  look = record { valid = true; gnss_time = pos 100; phc_time = some (pos 99) };
  check = record { valid = true; gnss_time = pos 101; phc_time = some (pos 101) };
  settime_ok = true;
}

abbrev blind : Round
blind = record late { look = record { valid = false; gnss_time = pos 0; phc_time = none } }

late-Good : Good late
late-Good = (refl, refl, (λ e. cc), refl, refl, refl)

two_rounds_suffice_example : set_ptp_clock_time true (late ∷ blind ∷ late ∷ late ∷ []) ≡ done
two_rounds_suffice_example =
    two_rounds_suffice (late ∷ blind ∷ []) late late []
      ((refl, inr (λ e. cc)), ((refl, inl refl), tt)) late-Good late-Good

late-done : set_ptp_clock_time true (late ∷ late ∷ []) ≡ done
late-done = two_rounds_suffice [] late late [] tt late-Good late-Good

set_ptp_clock_time-checked_example : (true ≡ true) × CheckedOrStopped (late ∷ late ∷ [])
set_ptp_clock_time-checked_example = set_ptp_clock_time-checked true (late ∷ late ∷ []) late-done

invalid_waits_test :
    set_ptp_clock_time true (blind ∷ late ∷ late ∷ []) ≡ set_ptp_clock_time true (late ∷ late ∷ [])
invalid_waits_test = invalid_waits blind (late ∷ late ∷ []) refl refl
