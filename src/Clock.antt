-- ===== src/Clock.antt =====
-- src/oscillatord.c: the phase offset that is applied to the PHC, and the split of a phase error
-- into seconds and nanoseconds for the disciplining algorithm.
pub mod Offset
mod Tests
use oscillatord.Base.{ℕ, Bool, ◌||◌, if◌then◌else◌}
use oscillatord.Base.Int.{ℤ, pos, ◌+ℤ◌, ◌-ℤ◌, ◌*ℤ◌, div, rem, ltb_ℤ, eqb_ℤ}
use oscillatord.Structs.{TimeSpec}

-- NS_IN_SECOND
abbrev pub ns_in_second : ℕ
ns_in_second = 1000000000

-- `phase_error > 0 || phase_error % NS_IN_SECOND == 0`
abbrev pub is_whole_or_positive : ℤ → Bool
is_whole_or_positive e = ltb_ℤ (pos 0) e || eqb_ℤ (rem e ns_in_second) (pos 0)

-- The `time` of the `struct timex` that `apply_phase_offset` hands to `clock_adjtime`, in
-- nanoseconds (ADJ_NANO). Both divisions are of `long`, so `floor` changes nothing.
pub phase_offset : ℤ → TimeSpec
phase_offset e = record {
  tv_sec = if is_whole_or_positive e then div e ns_in_second else div e ns_in_second -ℤ pos 1;
  tv_nsec =
      if is_whole_or_positive e then rem e ns_in_second else rem e ns_in_second +ℤ pos ns_in_second;
}

-- `input.phase_error` of the main loop: `/` and `%` of `sign * phase_error`.
pub split_phase_error : ℤ → ℤ → TimeSpec
split_phase_error sign e = record {
  tv_sec = div (sign *ℤ e) ns_in_second;
  tv_nsec = rem (sign *ℤ e) ns_in_second;
}
