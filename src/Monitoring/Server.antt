-- ===== src/Monitoring/Server.antt =====
-- The thread of src/monitoring.c with all its clients: the table of peers and the set of `epoll`.
pub mod Isolated
pub mod Low
pub mod Runs
mod Tests
use oscillatord.Base.{
  ℕ, ◌*◌, Bool, ◌||◌, Option, none, some, List, [], ◌∷◌, ltb, leb, ◌==◌, if◌then◌else◌,
}
use oscillatord.Base.Int.{ℤ}
use oscillatord.Structs.{Request}
use oscillatord.Monitoring.Peer.{Peer, FdStatus, on_peer_connected, Recv, on_peer_ready_recv}
use oscillatord.Monitoring.Requests.{on_peer_ready_send}

-- MAXFDS
abbrev pub max_fds : ℕ
max_fds = 16 * 1024

-- `global_state`, what each socket is watched for (none where it is not in the set), and
-- `monitoring->request`.
pub record Server : Type 0 where
  pub peers : ℕ → Peer
  pub watched : ℕ → Option FdStatus
  pub request : Request

-- What comes of `accept`.
pub data Accept : Type 0 where
  accepted : ℕ → Accept
  no_connection accept_error : Accept

-- An entry of `events`: the socket and its flags; and what comes of the calls that it leads to, of
-- which `is_set` is that of `epoll_ctl`.
pub record Ready : Type 0 where
  pub fd : ℕ
  pub has_error : Bool
  pub has_input : Bool
  pub has_output : Bool
  pub accept : Accept
  pub recv : Recv
  pub readable : Bool
  pub sent : Bool
  pub is_set : Bool

-- How an entry leaves the thread: in the loop, returned, or in a failed assertion.
pub data Outcome : Type 0 where
  goes_on : Server → Outcome
  returned aborted : Outcome

-- A table with another value at a socket.
abbrev pub at_fd : {A : Type 0} → ℕ → A → (ℕ → A) → ℕ → A
at_fd fd a f n = if n == fd then a else f n

-- The end of a callback: the set of `epoll` is updated, and a socket with no interest left is taken
-- from it and closed.
unfoldable pub settle : Bool → ℕ → Peer × FdStatus → Server → Outcome
settle is_set fd (p, st) s =
    if is_set
    then goes_on (record s {
      peers = at_fd fd p s.peers;
      watched = at_fd fd (if st.want_read || st.want_write then some st else none) s.watched;
    })
    else returned

-- `assert(sockfd < MAXFDS)`, with which each callback begins, and what it does after it.
abbrev pub asserted : ℕ → Outcome → Outcome
asserted fd o = if ltb fd max_fds then o else aborted

-- A connection on the listening socket.
unfoldable pub on_accept : Bool → Accept → Server → Outcome
unfolding on_peer_connected
on_accept is_set (accepted fd) s =
    if leb max_fds fd
    then returned
    else asserted fd (
        if is_set
        then goes_on (record s {
          peers = at_fd fd on_peer_connected.0 s.peers;
          watched = at_fd fd (some on_peer_connected.1) s.watched;
        })
        else returned)
on_accept is_set no_connection s = goes_on s
on_accept is_set accept_error s = returned

module _ (listener : ℕ) (parses : List ℕ → Bool) (request_number : List ℕ → Option ℤ) where
  -- After the assertion on the socket.
  unfoldable pub on_input : Ready → Server → Outcome
  unfolding settle on_peer_ready_recv
  on_input r s = elim (on_peer_ready_recv parses (s.peers r.fd) r.recv) [
    | none ↦ aborted
    | some out ↦ settle r.is_set r.fd out s
  ]

  -- After the assertion on the socket.
  unfoldable pub on_output : Ready → Server → Outcome
  unfolding settle on_peer_ready_send
  on_output r s =
      let (out, reply, new) =
        on_peer_ready_send request_number r.readable r.sent (s.peers r.fd) s.request in
      settle r.is_set r.fd out (record s { request = new })

  -- The body of the loop over `events`.
  unfoldable pub on_ready : Ready → Server → Outcome
  unfolding on_accept on_input on_output
  on_ready r s =
      if r.has_error
      then (if r.is_set
          then goes_on (record s { watched = at_fd r.fd none s.watched })
          else returned)
      else if r.fd == listener
      then on_accept r.is_set r.accept s
      else if r.has_input
      then asserted r.fd (on_input r s)
      else if r.has_output
      then asserted r.fd (on_output r s)
      else goes_on s

  unfoldable pub on_events : List Ready → Server → Outcome
  unfolding on_ready
  on_events [] s = goes_on s
  on_events (r ∷ rs) s = elim (on_ready r s) [
    | goes_on t ↦ on_events rs t
    | returned ↦ returned
    | aborted ↦ aborted
  ]

  -- `monitoring_thread` from its loop on: what each `epoll_wait` gives, and `stop` after it.
  unfoldable pub serve : Bool → List (List Ready × Bool) → Server → Outcome
  unfolding on_events
  serve stop [] s = if stop then returned else goes_on s
  serve stop ((events, next) ∷ rounds) s = if stop then returned else elim (on_events events s) [
    | goes_on t ↦ serve next rounds t
    | returned ↦ returned
    | aborted ↦ aborted
  ]
