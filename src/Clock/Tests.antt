-- ===== src/Clock/Tests.antt =====
-- The splits of nanoseconds at concrete values.
use oscillatord.Base.{◌+◌, ◌*◌, ◌<◌, ◌≡◌, refl}
use oscillatord.Base.Int.{pos, negsuc, ◌+ℤ◌, ◌-ℤ◌, ◌*ℤ◌, abs, div, rem, ◌≤ℤ◌, ◌<ℤ◌}
use oscillatord.Clock.{ns_in_second, phase_offset, split_phase_error}
use oscillatord.Clock.Offset.{total_ns, phase_offset_exact, split_phase_error_exact}

phase_offset_exact_test :
    (total_ns (phase_offset (negsuc 0)) ≡ negsuc 0)
    × (pos 0 ≤ℤ (phase_offset (negsuc 0)).tv_nsec)
    × ((phase_offset (negsuc 0)).tv_nsec <ℤ pos ns_in_second)
phase_offset_exact_test = phase_offset_exact (negsuc 0)

one_before : phase_offset (negsuc 0) ≡ record { tv_sec = negsuc 0; tv_nsec = pos 999999999 }
unfolding phase_offset div rem ◌+ℤ◌ ◌-ℤ◌
one_before = refl

split_phase_error_exact_test :
    let t = split_phase_error (negsuc 0) (pos 1500000000) in
    (total_ns t ≡ negsuc 0 *ℤ pos 1500000000)
    × (abs t.tv_nsec < ns_in_second)
    × (abs t.tv_sec * ns_in_second + abs t.tv_nsec ≡ abs (negsuc 0 *ℤ pos 1500000000))
split_phase_error_exact_test = split_phase_error_exact (negsuc 0) (pos 1500000000)
