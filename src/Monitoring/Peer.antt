-- ===== src/Monitoring/Peer.antt =====
-- The receive side of one client of src/monitoring.c. The JSON parser is a parameter: `parses s`
-- says that `json_tokener_parse` accepts the text `s`. The assertions of the callbacks on the number of
-- the socket are in Monitoring/Server.antt, as `asserted`.
use oscillatord.Base.{
  ℕ, ◌+◌, Bool, true, false, not, ◌||◌, Option, none, some, List, [], ◌∷◌, ltb, ◌==◌, if◌then◌else◌,
  set,
}
use oscillatord.Base.Text.{zeros, c_string}

-- `ProcessingState`
pub data State : Type 0 where
  initial_ack wait_for_msg in_msg : State

-- SENDBUF_SIZE
abbrev pub sendbuf_size : ℕ
sendbuf_size = 1024

-- `peer_state_t`; the buffer has `sendbuf_size` bytes.
pub record Peer : Type 0 where
  pub state : State
  pub recv_buf : List ℕ
  pub buf_end : ℕ
  pub buf_ptr : ℕ

-- `fd_status_t`: what the thread wants of the socket next.
pub record FdStatus : Type 0 where
  pub want_read : Bool
  pub want_write : Bool

abbrev pub fd_status_r : FdStatus
fd_status_r = record { want_read = true; want_write = false }

abbrev pub fd_status_w : FdStatus
fd_status_w = record { want_read = false; want_write = true }

abbrev pub fd_status_norw : FdStatus
fd_status_norw = record { want_read = false; want_write = false }

-- `on_peer_connected`
unfoldable pub on_peer_connected : Peer × FdStatus
on_peer_connected = (
  record { state = wait_for_msg; recv_buf = zeros sendbuf_size; buf_end = 0; buf_ptr = 0 },
  fd_status_r,
)

-- The answer of `recv`, of at most 1024 bytes.
pub data Recv : Type 0 where
  received : List ℕ → Recv
  disconnected would_block recv_error : Recv

module _ (parses : List ℕ → Bool) where
  -- One byte of the loop, with `ready_to_send`; `none` is a failed assertion, which aborts.
  unfoldable pub feed_byte : Peer → Bool → ℕ → Option (Peer × Bool)
  feed_byte p ready b = elim p.state [
    | initial_ack ↦ none
    | wait_for_msg ↦ some (
        if b == b'{'
        then (
          record p { state = in_msg; recv_buf = set p.recv_buf 0 b; buf_end = p.buf_end + 1 },
          ready,
        )
        else (p, ready))
    | in_msg ↦
        if parses (c_string p.recv_buf)
        then some (record p { state = wait_for_msg }, true)
        else if ltb p.buf_end sendbuf_size
        then some
            (record p { recv_buf = set p.recv_buf p.buf_end b; buf_end = p.buf_end + 1 }, ready)
        else none
  ]

  unfoldable pub feed : Peer → Bool → List ℕ → Option (Peer × Bool)
  feed p ready [] = some (p, ready)
  feed p ready (b ∷ bs) = elim (feed_byte p ready b) [ none ↦ none | some (q, r) ↦ feed q r bs ]

  -- The last look at the buffer, and the status.
  unfoldable pub finish : Peer → Bool → Peer × FdStatus
  finish p ready =
      if parses (c_string p.recv_buf)
      then (record p { state = wait_for_msg }, fd_status_w)
      else (p, record { want_read = not ready; want_write = ready })

  abbrev is_initial : State → Bool
  is_initial initial_ack = true
  is_initial _ = false

  -- `on_peer_ready_recv`. Its first test returns before anything is received.
  unfoldable pub on_peer_ready_recv : Peer → Recv → Option (Peer × FdStatus)
  unfolding feed finish
  on_peer_ready_recv p r =
      if is_initial p.state || ltb p.buf_ptr p.buf_end then some (p, fd_status_r) else elim r [
        | disconnected ↦ some (p, fd_status_norw)
        | would_block ↦ some (p, fd_status_r)
        | recv_error ↦ some (p, fd_status_norw)
        | received bs ↦ elim (feed p false bs) [
          | none ↦ none
          | some (q, ready) ↦ some (finish q ready)
        ]
      ]
