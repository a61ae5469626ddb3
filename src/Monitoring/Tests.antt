-- ===== src/Monitoring/Tests.antt =====
-- Runs of the protocol of src/monitoring.c on concrete messages. The parser here accepts a text that
-- ends in a closing brace, and reads the digit before it.
use oscillatord.Base.{
  ℕ, ◌-◌, ◌≡◌, refl, ◌≢◌, Bool, true, false, Option, none, some, List, [], ◌∷◌, arith, ◌==◌,
  if◌then◌else◌,
}
use oscillatord.Base.Text.{zeros, IsText}
use oscillatord.Base.Int.{ℤ, pos, negsuc}
use oscillatord.Structs.{Request, none_requested, calibration, fake_holdover_start}
use oscillatord.Monitoring.Peer.{
  in_msg, fd_status_r, on_peer_connected, received, disconnected, would_block,
}
use oscillatord.Monitoring.Requests.{number, request_of_int, handle}
use oscillatord.Monitoring.Link.{connected, PollEvent, poll_in, poll_out, run}
use oscillatord.Monitoring.Buffer.{IsSound, Goes, run-Goes}
use oscillatord.Monitoring.Stuck.{receive, fragment_unanswered}
use oscillatord.Monitoring.Protocol.{
  holding, Exchange, events, posted, exchanges_answered, request_of_int-number,
}

abbrev ends : List ℕ → Bool
ends [] = false
ends (b ∷ []) = b == b'}'
ends (b ∷ bs) = ends bs

abbrev digit : List ℕ → Option ℤ
digit [] = none
digit (a ∷ b ∷ []) = if b == b'}' then some (pos (a - 48)) else none
digit (a ∷ bs) = digit bs

nine-IsText : IsText (b'9' ∷ b'}' ∷ [])
nine-IsText = ((λ e. ground arith), ((λ e. ground arith), tt))

seven-IsText : IsText (b'7' ∷ b'}' ∷ [])
seven-IsText = ((λ e. ground arith), ((λ e. ground arith), tt))

-- `{9}`, which starts the fake holdover, and `{7}`, which reads the EEPROM.
abbrev start_holdover : Exchange ends digit
start_holdover = record {
  bytes = b'9' ∷ b'}' ∷ [];
  code = pos 9;
  readable = true;
  message = record {
    text = nine-IsText;
    refused = (refl, (refl, tt));
    accepted = refl;
    size = omega arith;
  };
  meaning = refl;
}

abbrev look : Exchange ends digit
look = record {
  bytes = b'7' ∷ b'}' ∷ [];
  code = pos 7;
  readable = false;
  message = record {
    text = seven-IsText;
    refused = (refl, (refl, tt));
    accepted = refl;
    size = omega arith;
  };
  meaning = refl;
}

exchanges_answered_example :
    run ends digit
      (connected on_peer_connected.0 fd_status_r)
      none_requested
      (events ends digit (start_holdover ∷ look ∷ []))
    ≡ some (
      connected on_peer_connected.0 fd_status_r,
      posted ends digit none_requested (start_holdover ∷ look ∷ []),
    )
exchanges_answered_example =
    exchanges_answered ends digit none_requested (start_holdover ∷ look ∷ [])

posted_test : posted ends digit none_requested (start_holdover ∷ look ∷ []) ≡ fake_holdover_start
unfolding handle request_of_int
posted_test = refl

-- A client that has sent `{9`.
fragment_unanswered_example :
    run ends digit (connected on_peer_connected.0 fd_status_r) none_requested (
      poll_in (received (b'{' ∷ b'9' ∷ []))
      ∷ receive ends digit (received (b'}' ∷ []) ∷ disconnected ∷ []))
    ≡ some (connected (holding ends in_msg (b'{' ∷ b'9' ∷ [])) fd_status_r, none_requested)
fragment_unanswered_example =
    fragment_unanswered ends digit (b'9' ∷ []) none_requested
      (received (b'}' ∷ []) ∷ disconnected ∷ []) ((λ e. ground arith), tt) (refl, tt) refl
      (omega arith)

abbrev chatter : List PollEvent
chatter =
    poll_in (received (b'x' ∷ b'{' ∷ b'9' ∷ b'}' ∷ b'{' ∷ []))
    ∷ poll_out true false
    ∷ poll_in would_block
    ∷ poll_in disconnected
    ∷ []

on_peer_connected-IsSound : IsSound on_peer_connected.0
unfolding on_peer_connected zeros
on_peer_connected-IsSound = record {
  state = λ e. ground arith;
  size = refl;
  buf_end = omega arith;
  buf_ptr = refl;
}

run-Goes_test :
    Goes (run ends digit (connected on_peer_connected.0 fd_status_r) calibration chatter)
run-Goes_test =
    run-Goes ends digit (connected on_peer_connected.0 fd_status_r) calibration chatter
      on_peer_connected-IsSound (omega arith, (tt, (tt, (tt, tt))))

request_of_int-number_test :
    ((r : Request) → negsuc 0 ≡ pos (number r) → request_of_int (negsuc 0) ≡ r)
    × (((r : Request) → negsuc 0 ≢ pos (number r)) → request_of_int (negsuc 0) ≡ none_requested)
request_of_int-number_test = request_of_int-number (negsuc 0)
