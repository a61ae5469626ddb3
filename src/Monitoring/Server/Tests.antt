-- ===== src/Monitoring/Server/Tests.antt =====
-- Two clients of src/monitoring.c at once. The parser here accepts a text that ends in a closing
-- brace, and reads no request from it.
use oscillatord.Base.{
  ℕ, ◌≡◌, refl, ◌≢◌, Bool, true, false, Option, none, some, List, [], ◌∷◌, arith, ◌==◌,
  if◌then◌else◌,
}
use oscillatord.Base.Int.{ℤ, pos}
use oscillatord.Base.Text.{zeros, c_string}
use oscillatord.Structs.{none_requested, fake_holdover_start}
use oscillatord.Monitoring.Peer.{
  initial_ack, sendbuf_size, fd_status_r, fd_status_w, received, would_block, feed_byte,
}
use oscillatord.Monitoring.Requests.{request_of_int, handle}
use oscillatord.Monitoring.Link.{run}
use oscillatord.Monitoring.Server.{
  Server, accepted, no_connection, Ready, goes_on, returned, aborted, on_ready, on_events,
}
use oscillatord.Monitoring.Server.Isolated.{view, poll_events, fate}
use oscillatord.Monitoring.Server.Runs.{Steps, done, step, client_alone, never_aborts}

abbrev ends : List ℕ → Bool
ends [] = false
ends (b ∷ []) = b == b'}'
ends (b ∷ bs) = ends bs

abbrev nine : List ℕ → Option ℤ
nine bs = some (pos 9)

-- The listening socket is 3.
abbrev idle : Server
idle = record {
  peers =
      λ fd. record { state = initial_ack; recv_buf = zeros sendbuf_size; buf_end = 0; buf_ptr = 0 };
  watched = λ fd. if fd == 3 then some fd_status_r else none;
  request = none_requested;
}

abbrev quiet : Ready
quiet = record {
  fd = 3;
  has_error = false;
  has_input = true;
  has_output = false;
  accept = no_connection;
  recv = would_block;
  readable = true;
  sent = true;
  is_set = true;
}

-- Sockets 4 and 5 connect.
abbrev connecting : List Ready
connecting = record quiet { accept = accepted 4 } ∷ record quiet { accept = accepted 5 } ∷ []

-- 5 sends half a request, 4 a whole one, 5 fails, and 4 is answered.
abbrev talking : List Ready
talking =
    record quiet { fd = 5; recv = received (b'{' ∷ b'1' ∷ []) }
    ∷ record quiet { fd = 4; recv = received (b'{' ∷ b'9' ∷ b'}' ∷ []) }
    ∷ record quiet { fd = 5; has_error = true }
    ∷ record quiet { fd = 4; has_input = false; has_output = true }
    ∷ []

abbrev after : List Ready → Server → Server
after es s = elim (on_events 3 ends nine es s) [ goes_on t ↦ t | returned ↦ s | aborted ↦ s ]

abbrev two_clients : Server
two_clients = after connecting idle

posted_test : (after talking two_clients).request ≡ fake_holdover_start
unfolding on_events handle request_of_int feed_byte c_string zeros
posted_test = refl

left_test : (after talking two_clients).watched 5 ≡ none
unfolding on_events handle request_of_int feed_byte c_string zeros
left_test = refl

connecting_test : Steps 3 ends nine idle connecting two_clients
unfolding on_events
connecting_test = step fd_status_r refl refl (step fd_status_r refl refl done)

talking_test : Steps 3 ends nine two_clients talking (after talking two_clients)
unfolding on_events handle request_of_int feed_byte c_string zeros
talking_test =
    step fd_status_r refl refl
      (step fd_status_r refl refl (step fd_status_r refl refl (step fd_status_w refl refl done)))

client_alone_example :
    fate (run ends nine (view 4 two_clients) none_requested (poll_events 4 talking))
    ≡ some (view 4 (after talking two_clients))
client_alone_example =
    client_alone 3 ends nine 4 none_requested (λ e. omega (arith, e))
      ((λ e. cc), ((λ e. cc), ((λ e. cc), ((λ e. cc), tt)))) talking_test

never_aborts_example :
    on_ready 3 ends nine (record quiet { fd = 4; recv = received (b'{' ∷ []) }) two_clients
    ≢ aborted
unfolding on_events
never_aborts_example =
    never_aborts 3 ends nine idle two_clients connecting
      (record quiet { fd = 4; recv = received (b'{' ∷ []) }) fd_status_r (λ fd n. ground arith)
      ((tt, tt), ((tt, tt), tt)) (omega arith, tt) connecting_test refl
