-- ===== src/Phasemeter/Tests.antt =====
-- The phasemeter's theorems at concrete seconds, and runs of the thread.
use oscillatord.Base.{◌+◌, ◌≤◌, ◌≡◌, refl, inl, inr, true, false, [], ◌∷◌, ◌++◌, map, arith}
use oscillatord.Base.Int.{pos, negsuc, ◌+ℤ◌, ◌-ℤ◌, ◌*ℤ◌, neg, abs}
use oscillatord.Structs.{init, both_timestamps}
use oscillatord.Base.Words.{to_int32, to_int64}
use oscillatord.Phasemeter.{
  internal_pps, gnss_pps, milliseconds_500, Phasemeter, read_extts, first, second, closed, publish,
  timestamp_diff, pair, reading, request_stop, on_reading, run, start, get_phase_error,
}
use oscillatord.Phasemeter.Pairing.{stamp, extts, read_extts-extts}
use oscillatord.Phasemeter.Runs.{
  phase_error_bounded, Pulse, readings, error_of, all_readings, pulses_tracked,
}
use oscillatord.Phasemeter.Stop.{
  publication-closes, far-resynchronises, is_closed, drift_ignores_stop,
}

-- GNSS at 10.000000100 s, internal at 10.000000000 s.
abbrev ahead : Pulse
ahead = record {
  gnss_sec = 10;
  gnss_nsec = 100;
  internal_sec = 10;
  internal_nsec = 0;
  gnss_first = false;
}

-- GNSS at 10.999999900 s, internal at 11.000000000 s.
abbrev behind : Pulse
behind = record {
  gnss_sec = 10;
  gnss_nsec = 999999900;
  internal_sec = 11;
  internal_nsec = 0;
  gnss_first = true;
}

abbrev idle : Phasemeter
idle = record { phase_error = pos 77; status = init; stop = false; published = 0 }

phase_error_bounded_example :
    abs (get_phase_error (run (start true true (pos 77) (pos 0)) (all_readings (ahead ∷ []))).0).1
    ≤ milliseconds_500
phase_error_bounded_example =
    phase_error_bounded true true (pos 77) (pos 0) (all_readings (ahead ∷ [])) (
      unfold start run get_phase_error read_extts timestamp_diff ◌-ℤ◌ neg ◌+ℤ◌ ◌*ℤ◌ to_int32
        to_int64 in
      refl)

pulses_tracked_example :
    let p' = (run (idle, first false (pos 0)) (all_readings (ahead ∷ []) ++ readings behind)).0 in
    (get_phase_error p' ≡ (both_timestamps, error_of behind)) × (p'.published ≡ 0 + 1 + 1)
pulses_tracked_example =
    pulses_tracked (ahead ∷ []) behind idle (pos 0) refl (omega arith) (omega arith)

behind_error : error_of behind ≡ negsuc 99
unfolding ◌-ℤ◌
behind_error = refl

-- The internal PPS of second 9 is stale when the GNSS PPS of second 10 comes.
far-resynchronises_test :
    run
      (idle, second (stamp (pos 9000000000) internal_pps) (pos 0))
      (reading (extts 10 100 0) ∷ reading (extts 10 0 5) ∷ [])
    ≡ (
      publish idle both_timestamps (pos 10000000100 -ℤ pos 10000000000),
      first false (pos 10000000100),
    )
far-resynchronises_test =
    far-resynchronises idle (pos 0) (pos 9000000000) (pos 10000000100) (pos 10000000000)
      (extts 10 100 0) (extts 10 0 5) (unfold timestamp_diff ◌-ℤ◌ neg to_int64 in refl)
      (omega arith) (λ x. read_extts-extts 10 100 0 x (omega arith) (omega arith) (omega arith))
      (λ x. read_extts-extts 10 0 5 x (omega arith) (omega arith) (omega arith))

publication-closes_test :
    (on_reading
      (pair (record idle { stop = true }) (stamp (pos 1) gnss_pps) (stamp (pos 2) gnss_pps)).0
      (pair (record idle { stop = true }) (stamp (pos 1) gnss_pps) (stamp (pos 2) gnss_pps)).1
      (extts 10 0 0)).1
    ≡ closed
publication-closes_test =
    publication-closes (record idle { stop = true }) (stamp (pos 1) gnss_pps)
      (stamp (pos 2) gnss_pps) (extts 10 0 0) refl (unfold pair publish in omega arith)
      (unfold pair read_extts ◌+ℤ◌ ◌*ℤ◌ to_int32 to_int64 in refl)

-- PPS that alternate 600 ms apart.
drift_ignores_stop_test :
    let (p', q) =
      run
        (idle, second (stamp (pos 10000000000) internal_pps) (pos 10000000000))
        (request_stop ∷ map reading (extts 10 600000000 0 ∷ extts 11 200000000 5 ∷ [])) in
    (p' ≡ record idle { stop = true }) × (is_closed q ≡ false)
drift_ignores_stop_test =
    drift_ignores_stop idle (stamp (pos 10000000000) internal_pps)
      (extts 10 600000000 0 ∷ extts 11 200000000 5 ∷ [])
      (unfold read_extts timestamp_diff ◌-ℤ◌ neg ◌+ℤ◌ ◌*ℤ◌ to_int32 to_int64 in
        (inl (refl, refl), refl, (inr (refl, refl), refl, tt)))
