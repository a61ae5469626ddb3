-- ===== src/Gnss/Start/Tests.antt =====
-- The start and the end of a GNSS session of src/gnss.c at concrete inputs.
use oscillatord.Base.{◌≡◌, refl, true, false, none, some, List, [], ◌∷◌, ◌++◌, ◌==◌}
use oscillatord.Base.Int.{pos}
use oscillatord.Config.{true_text, get_bool_default}
use oscillatord.Mro50.Hex.{digit_value}
use oscillatord.Gnss.Receiver.{connect_from, connect, set_configuration}
use oscillatord.Gnss.Version.{
  skip_spaces, skip_letters, skip_word, digit_in, scan_rest, scan_number, scan_based, positive,
  scan_integer, scan_int, parse_minor, parse_numbers, parse_receiver_version,
}
use oscillatord.Gnss.Start.{
  Boot, Effect, open_socket, close_socket, unlink_socket, start_accept, init_mutex, start_thread,
  Gnss, rtcm_sock_create, start_accepting, start_rtcm, read_version, new_gnss, started,
  start_threads, init, stop,
}
use oscillatord.Gnss.Start.Socket.{opened, closed, accepts, joins, total}
use oscillatord.Gnss.Start.Joined.{session_balance}
use oscillatord.Base.Words.{to_int32}

-- The second attempt opens the link. The version reads `H 1.32`, and RTCM is configured.
abbrev boot : Boot
boot = record {
  has_session = true;
  allocated = true;
  rx_made = true;
  opens = λ k. k == 1;
  version = some (b'H' ∷ b' ' ∷ b'1' ∷ b'.' ∷ b'3' ∷ b'2' ∷ []);
  configured = true;
  sets = λ k. false;
  resets = false;
  rtcm_key = some true_text;
  rtcm_set = true;
  socket = true;
  binds = true;
  listens = true;
  accept_thread = true;
  bypass_key = none;
  starts = true;
  thread = true;
}

abbrev session : Gnss
session = record {
  version_major = pos 1;
  version_minor = pos 32;
  rtcm_enabled = true;
  is_listening = true;
  accept_running = true;
  bypass_survey = false;
}

boot_test :
    init boot
    ≡ started session (open_socket ∷ unlink_socket ∷ start_accept ∷ init_mutex ∷ start_thread ∷ [])
unfolding init start_threads start_rtcm new_gnss read_version start_accepting rtcm_sock_create
    connect connect_from set_configuration get_bool_default parse_receiver_version parse_numbers
    parse_minor skip_word skip_spaces skip_letters scan_int scan_integer positive to_int32
    scan_based scan_number scan_rest digit_in digit_value
boot_test = refl

-- The socket cannot be bound.
abbrev unbound : Boot
unbound = record boot { binds = false }

abbrev deaf : Gnss
deaf = record session { is_listening = false; accept_running = false }

abbrev made : List Effect
made = open_socket ∷ unlink_socket ∷ close_socket ∷ init_mutex ∷ start_thread ∷ []

unbound_test : init unbound ≡ started deaf made
unfolding init start_threads start_rtcm new_gnss read_version start_accepting rtcm_sock_create
    connect connect_from set_configuration get_bool_default parse_receiver_version parse_numbers
    parse_minor skip_word skip_spaces skip_letters scan_int scan_integer positive to_int32
    scan_based scan_number scan_rest digit_in digit_value
unbound_test = refl

-- If the freed memory reads as another session, the socket stays open.
stale_test : total closed (stop (record session { rtcm_enabled = false })) ≡ 0
unfolding stop
stale_test = refl

-- A thread is joined that was never made.
session_balance_example :
    (total opened (made ++ stop deaf) ≡ total closed (made ++ stop deaf))
    × (total accepts (made ++ stop deaf) ≡ 0)
    × (total joins (made ++ stop deaf) ≡ 1)
unfolding get_bool_default
session_balance_example = session_balance unbound deaf deaf made unbound_test refl
