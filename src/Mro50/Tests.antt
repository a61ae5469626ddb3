-- ===== src/Mro50/Tests.antt =====
-- Runs of the model of src/oscillators/mRo50_oscillator.c, and its theorems at concrete inputs.
use oscillatord.Base.{
  ℕ, ◌+◌, ◌*◌, ◌≡◌, refl, Bool, true, false, none, some, List, [], ◌∷◌, ◌++◌, map, arith, length,
  set, replicate,
}
use oscillatord.Base.Int.{pos}
use oscillatord.Base.Text.{zeros}
use oscillatord.Structs.{both_timestamps, OscillatorCtrl}
use oscillatord.Mro50.Hex.{print_hex, digit_value, scan_hex}
use oscillatord.Mro50.HexRoundTrip.{scan_hex-print_hex}
use oscillatord.Mro50.Serial.{
  mro_answer_len, timed_out, arrived, gives, cleared, receive, cmd, Reopening,
}
use oscillatord.Mro50.Control.{get_ctrl}
use oscillatord.Mro50.Exchange.{concat, receive-full, answer, answering}
use oscillatord.Mro50.Commands.{get_ctrl-print_hex}
use oscillatord.Mro50.Reset.{Round, contains, round, rounds, reset}
use oscillatord.Mro50.Reset.Bounds.{KeepsRoom, round-KeepsRoom, rounds_end}
use oscillatord.Mro50.Reset.Started.{reset-started}
use oscillatord.Mro50.Calibration.{Site, point, write_at, run_calibration}
use oscillatord.Mro50.Calibration.Measures.{blocks}
use oscillatord.Mro50.Calibration.Blocks.{run_calibration-blocks}

abbrev empty_buffer : List ℕ
empty_buffer = zeros (mro_answer_len + 1)

-- "00400000", "12C0" and the line feeds after them, in pieces.
abbrev coarse_pieces : List (List ℕ)
coarse_pieces =
    (b'0' ∷ b'0' ∷ b'4' ∷ []) ∷ (b'0' ∷ b'0' ∷ b'0' ∷ b'0' ∷ b'0' ∷ 10 ∷ []) ∷ (10 ∷ []) ∷ []

abbrev fine_pieces : List (List ℕ)
fine_pieces = (b'1' ∷ b'2' ∷ b'C' ∷ b'0' ∷ 10 ∷ 10 ∷ []) ∷ []

coarse_pieces_test : concat coarse_pieces ≡ answer (print_hex 8 4194304)
unfolding print_hex
coarse_pieces_test = refl

fine_pieces_test : concat fine_pieces ≡ answer (print_hex 4 4800)
unfolding print_hex
fine_pieces_test = refl

lower_case_test : scan_hex (b' ' ∷ b'0' ∷ b'x' ∷ b'f' ∷ b'F' ∷ 13 ∷ []) ≡ some 255
unfolding scan_hex
lower_case_test = refl

scan_hex-print_hex_test : scan_hex (print_hex 4 4800 ++ 10 ∷ 10 ∷ []) ≡ some 4800
unfolding digit_value
scan_hex-print_hex_test =
    scan_hex-print_hex 4 4800 (10 ∷ 10 ∷ []) (omega arith)
      (refl, (λ e. omega (arith, e)), (λ e. omega (arith, e)))

abbrev a_reopening : Reopening
a_reopening = record {
  opens = true;
  is_set_up = true;
  exchange = record { is_written = true; polls = [] };
}

abbrev no_ctrl : OscillatorCtrl
no_ctrl = record { fine_ctrl = 0; coarse_ctrl = 0 }

-- The end of what the reset has read is in the buffer.
abbrev used_buffer : List ℕ
used_buffer = b'd' ∷ b'o' ∷ b'n' ∷ b'e' ∷ replicate 125 b'>'

get_ctrl-print_hex_example :
    get_ctrl
      (answering coarse_pieces)
      a_reopening
      (answering fine_pieces)
      a_reopening
      no_ctrl
      used_buffer
    ≡ gives
        (true, record { fine_ctrl = 4800; coarse_ctrl = 4194304 })
        (cleared
          (length (answer (print_hex 4 4800)))
          (cleared (length (answer (print_hex 8 4194304))) used_buffer))
get_ctrl-print_hex_example =
    get_ctrl-print_hex coarse_pieces fine_pieces a_reopening a_reopening no_ctrl 8 4 4194304 4800
      used_buffer (omega arith) (omega arith) (omega arith) (omega arith) coarse_pieces_test
      fine_pieces_test

-- The answer is a question mark.
refused_test : cmd (answering ((b'?' ∷ 10 ∷ 10 ∷ []) ∷ [])) empty_buffer ≡ gives none empty_buffer
unfolding cmd
refused_test = refl

receive-full_test :
    receive
      (map arrived ((b'a' ∷ []) ∷ (b'a' ∷ b'b' ∷ []) ∷ []) ++ timed_out ∷ [])
      mro_answer_len
      empty_buffer
    ≡ receive (timed_out ∷ []) mro_answer_len empty_buffer
receive-full_test =
    receive-full ((b'a' ∷ []) ∷ (b'a' ∷ b'b' ∷ []) ∷ []) (timed_out ∷ []) empty_buffer

-- "Start d" and "one>", after a round in which nothing comes.
abbrev first_round : Round
first_round = record {
  now = 1001;
  event = arrived (b'S' ∷ b't' ∷ b'a' ∷ b'r' ∷ b't' ∷ b' ' ∷ b'd' ∷ []);
  is_rewritten = true;
}

abbrev second_round : Round
second_round = record {
  now = 1002;
  event = arrived (b'o' ∷ b'n' ∷ b'e' ∷ b'>' ∷ []);
  is_rewritten = true;
}

abbrev late_round : Round
late_round = record { now = 1300; event = timed_out; is_rewritten = true }

empty_buffer_test : length empty_buffer ≡ mro_answer_len + 1
unfolding zeros
empty_buffer_test = refl

round-KeepsRoom_test : KeepsRoom (round 1000 first_round 0 empty_buffer)
round-KeepsRoom_test =
    round-KeepsRoom 1000 first_round 0 empty_buffer (omega arith, empty_buffer_test)

rounds_end_example :
    (ok : Bool) × (t : List ℕ) × (rounds 1000 ((first_round ∷ []) ++ late_round ∷ []) 0 empty_buffer
      ≡ gives ok t)
rounds_end_example = rounds_end 1000 (first_round ∷ []) late_round [] 0 empty_buffer (omega arith)

reset-started_example :
    (t : List ℕ) × (reset true 1000 (first_round ∷ second_round ∷ []) empty_buffer ≡ gives true t)
unfolding contains
reset-started_example =
    reset-started 1000 (first_round ∷ second_round ∷ [])
      ((b'S' ∷ b't' ∷ b'a' ∷ b'r' ∷ b't' ∷ b' ' ∷ b'd' ∷ [])
        ∷ (b'o' ∷ b'n' ∷ b'e' ∷ b'>' ∷ [])
        ∷ [])
      empty_buffer (omega arith, refl, (omega arith, refl, tt)) ground arith (omega arith)
      (empty_buffer_test) refl

-- A command of the reset that is refused, and cannot be written again.
reset_refused_test :
    (t : List ℕ) × (reset true 1000
        (record { now = 1000; event = arrived (b'?' ∷ 10 ∷ []); is_rewritten = false } ∷ [])
        empty_buffer
      ≡ gives false t)
unfolding reset zeros
reset_refused_test = (set (b'?' ∷ zeros 128) 1 0, refl)

-- Every command is answered with two line feeds, and every read with a number.
abbrev a_site : ℕ → Site
a_site i = record {
  is_running = true;
  device = λ text. answering ((10 ∷ 10 ∷ []) ∷ []);
  coarse = answering coarse_pieces;
  coarse_reset = a_reopening;
  fine = answering fine_pieces;
  fine_reset = a_reopening;
  sample = λ j. record {
    is_running = true;
    status = both_timestamps;
    phase_error = pos (10 * i + j);
    q_err = some (pos 0);
  };
}

run_calibration_test :
    run_calibration
      (λ p q. p)
      true
      (replicate 4 (pos 99))
      a_site
      2
      no_ctrl
      (4700 ∷ 4800 ∷ [])
      empty_buffer
    ≡ gives (some (pos 0 ∷ pos 1 ∷ pos 10 ∷ pos 11 ∷ [])) empty_buffer
unfolding run_calibration write_at
run_calibration_test = refl

run_calibration-blocks_example :
    run_calibration
      (λ p q. p)
      true
      (replicate 4 (pos 99))
      a_site
      2
      no_ctrl
      (4700 ∷ 4800 ∷ [])
      empty_buffer
    ≡ blocks
        (λ p q. p)
        (λ i p. point (a_site i) p no_ctrl)
        (λ i. (a_site i).sample)
        2
        (4700 ∷ 4800 ∷ [])
        0
        empty_buffer
run_calibration-blocks_example =
    run_calibration-blocks (λ p q. p) (replicate 4 (pos 99)) a_site 2 no_ctrl (4700 ∷ 4800 ∷ [])
      empty_buffer refl
