-- ===== src/Clock/Offset.antt =====
-- The two ways of src/oscillatord.c to write nanoseconds as seconds and nanoseconds.
use oscillatord.Base.{◌+◌, ◌*◌, ◌<◌, ◌≡◌, arith}
use oscillatord.Base.Int.{ℤ, pos, negsuc, ◌+ℤ◌, ◌-ℤ◌, ◌*ℤ◌, abs, div, rem, ◌≤ℤ◌, ◌<ℤ◌}
use oscillatord.Structs.{TimeSpec}
use oscillatord.Clock.{ns_in_second, phase_offset, split_phase_error}

-- The nanoseconds that a `struct timespec` stands for.
abbrev pub total_ns : TimeSpec → ℤ
total_ns t = t.tv_sec *ℤ pos ns_in_second +ℤ t.tv_nsec

-- The offset for `clock_adjtime` is the phase error exactly, and its nanoseconds are in the range
-- that the kernel wants, whatever the sign.
pub phase_offset_exact :
    (e : ℤ)
    → (total_ns (phase_offset e) ≡ e)
      × (pos 0 ≤ℤ (phase_offset e).tv_nsec)
      × ((phase_offset e).tv_nsec <ℤ pos ns_in_second)
unfolding phase_offset div rem ◌+ℤ◌ ◌-ℤ◌ ◌*ℤ◌
phase_offset_exact (pos n) = ground arith
phase_offset_exact (negsuc n) = ground arith

division :
    (n : ℤ)
    → (div n ns_in_second *ℤ pos ns_in_second +ℤ rem n ns_in_second ≡ n)
      × (abs (rem n ns_in_second) < ns_in_second)
      × (abs (div n ns_in_second) * ns_in_second + abs (rem n ns_in_second) ≡ abs n)
unfolding div rem ◌+ℤ◌ ◌*ℤ◌
division (pos n) = ground arith
division (negsuc n) = ground arith

-- The parts of `input.phase_error` make up the signed phase error, the nanoseconds are less than a
-- second, and the absolute values add up too, so that neither part has the wrong sign.
pub split_phase_error_exact :
    (sign e : ℤ)
    → let t = split_phase_error sign e in
      (total_ns t ≡ sign *ℤ e)
      × (abs t.tv_nsec < ns_in_second)
      × (abs t.tv_sec * ns_in_second + abs t.tv_nsec ≡ abs (sign *ℤ e))
unfolding split_phase_error
split_phase_error_exact sign e = division (sign *ℤ e)
