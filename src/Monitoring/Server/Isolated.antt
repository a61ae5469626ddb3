-- ===== src/Monitoring/Server/Isolated.antt =====
-- One client among the others in the thread of src/monitoring.c.
use oscillatord.Base.{
  ℕ, ◌<◌, ◌≡◌, refl, sym, ap, ◌∙◌, ◌≢◌, ◌⊎◌, inl, inr, Bool, Option, none, some, List, [], ◌∷◌,
  ◌++◌, arith, ◌==◌, if◌then◌else◌, Bool-cases, Option-cases,
}
use oscillatord.Base.Int.{ℤ}
use oscillatord.Structs.{Request}
use oscillatord.Monitoring.Peer.{Peer, FdStatus, on_peer_connected, on_peer_ready_recv}
use oscillatord.Monitoring.Requests.{on_peer_ready_send}
use oscillatord.Monitoring.Link.{
  Link, closed, connected, PollEvent, poll_error, poll_in, poll_out, update, on_event, run,
  on_event-recv,
}
use oscillatord.Monitoring.Server.{
  max_fds, Server, Accept, accepted, no_connection, accept_error, Ready, Outcome, goes_on, returned,
  aborted, at_fd, settle, on_accept, on_input, on_output, on_ready,
}

-- A client as the thread keeps it.
abbrev pub view : ℕ → Server → Link
view fd s = elim (s.watched fd) [ none ↦ closed | some st ↦ connected (s.peers fd) st ]

-- What an entry is to the client of its socket.
abbrev pub poll_event : Ready → List PollEvent
poll_event r =
    if r.has_error
    then poll_error ∷ []
    else if r.has_input
    then poll_in r.recv ∷ []
    else if r.has_output
    then poll_out r.readable r.sent ∷ []
    else []

abbrev pub poll_events : ℕ → List Ready → List PollEvent
poll_events fd [] = []
poll_events fd (r ∷ rs) = (if r.fd == fd then poll_event r else []) ++ poll_events fd rs

-- The system does not hand the number of an open socket to a new connection.
abbrev pub KeepsFd : ℕ → Ready → Type 0
KeepsFd fd r = r.accept ≢ accepted fd

-- The client in what a run leads to.
abbrev pub fate : Option (Link × Request) → Option Link
fate none = none
fate (some (l, r)) = some l

settle-view :
    (is_set : Bool) (fd : ℕ) (out : Peer × FdStatus) (s t : Server)
    → settle is_set fd out s ≡ goes_on t
    → view fd t ≡ update out
unfolding settle
settle-view is_set fd (p, st) s t h = ground arith

settle_other :
    (is_set : Bool) (fd other : ℕ) (out : Peer × FdStatus) (s t : Server)
    → other ≢ fd
    → settle is_set fd out s ≡ goes_on t
    → view other t ≡ view other s
unfolding settle
settle_other is_set fd other (p, st) s t n h = ground arith

on_accept_other :
    (is_set : Bool) (a : Accept) (other : ℕ) (s t : Server)
    → a ≢ accepted other
    → on_accept is_set a s ≡ goes_on t
    → view other t ≡ view other s
unfolding on_accept
on_accept_other is_set (accepted fd) other s t n h =
    let m : other ≢ fd = λ e. n (ap accepted (sym e)) in ground arith
on_accept_other is_set no_connection other s t n h = ground arith
on_accept_other is_set accept_error other s t n h = ground arith

module _ (listener : ℕ) (parses : List ℕ → Bool) (request_number : List ℕ → Option ℤ) where
  -- A reading whose outcome is known.
  pub input-settle :
      (r : Ready) (s : Server) (out : Peer × FdStatus)
      → on_peer_ready_recv parses (s.peers r.fd) r.recv ≡ some out
      → on_input listener parses request_number r s ≡ settle r.is_set r.fd out s
  unfolding on_input
  input-settle r s out e =
      ap (λ o. elim o as (λ x. Outcome) [ none ↦ aborted | some out ↦ settle r.is_set r.fd out s ])
        e

  pub input-aborted :
      (r : Ready) (s : Server)
      → on_peer_ready_recv parses (s.peers r.fd) r.recv ≡ none
      → on_input listener parses request_number r s ≡ aborted
  unfolding on_input
  input-aborted r s e =
      ap (λ o. elim o as (λ x. Outcome) [ none ↦ aborted | some out ↦ settle r.is_set r.fd out s ])
        e

  input_other :
      (r : Ready) (other : ℕ) (s t : Server)
      → other ≢ r.fd
      → on_input listener parses request_number r s ≡ goes_on t
      → view other t ≡ view other s
  input_other r other s t n h =
      elim (Option-cases (on_peer_ready_recv parses (s.peers r.fd) r.recv)) [
        | inl e ↦ let k = input-aborted r s e in cc
        | inr (out, e) ↦
            settle_other r.is_set r.fd other out s t n (sym (input-settle r s out e) ∙ h)
      ]

  output_other :
      (r : Ready) (other : ℕ) (s t : Server)
      → other ≢ r.fd
      → on_output listener parses request_number r s ≡ goes_on t
      → view other t ≡ view other s
  unfolding on_output
  output_other r other s t n h =
      let (out, reply, new) =
        on_peer_ready_send request_number r.readable r.sent (s.peers r.fd) s.request in
      settle_other r.is_set r.fd other out (record s { request = new }) t n h

  error_other :
      (is_set : Bool) (fd other : ℕ) (s t : Server)
      → other ≢ fd
      → (if is_set then goes_on (record s { watched = at_fd fd none s.watched }) else returned)
        ≡ goes_on t
      → view other t ≡ view other s
  error_other is_set fd other s t n h = ground arith

  -- An entry of another socket leaves a client alone.
  pub other_client :
      (r : Ready) (other : ℕ) (s t : Server)
      → other ≢ r.fd
      → KeepsFd other r
      → on_ready listener parses request_number r s ≡ goes_on t
      → view other t ≡ view other s
  unfolding on_ready
  other_client r other s t n k h = ground (
    arith,
    error_other r.is_set r.fd other s t n,
    on_accept_other r.is_set r.accept other s t k,
    input_other r other s t n,
    output_other r other s t n,
  )

  pub connected-view :
      (fd : ℕ) (st : FdStatus) (s : Server)
      → s.watched fd ≡ some st
      → view fd s ≡ connected (s.peers fd) st
  connected-view fd st s h = ground (arith, h)

  input_own :
      (r : Ready) (st : FdStatus) (s t : Server) (old : Request)
      → on_input listener parses request_number r s ≡ goes_on t
      → fate (on_event parses request_number (connected (s.peers r.fd) st) old (poll_in r.recv))
        ≡ some (view r.fd t)
  input_own r st s t old h = elim (Option-cases (on_peer_ready_recv parses (s.peers r.fd) r.recv)) [
    | inl e ↦ let k = input-aborted r s e in cc
    | inr ((p, w), e) ↦
        ap fate (on_event-recv parses request_number (s.peers r.fd) p st w old r.recv e)
        ∙ ap some (sym (settle-view r.is_set r.fd (p, w) s t (sym (input-settle r s (p, w) e) ∙ h)))
  ]

  send-any_request :
      (readable sent : Bool) (p : Peer) (a b : Request)
      → (on_peer_ready_send request_number readable sent p a).0
        ≡ (on_peer_ready_send request_number readable sent p b).0
  unfolding on_peer_ready_send
  send-any_request readable sent p a b = ground arith

  output_own :
      (r : Ready) (st : FdStatus) (s t : Server) (old : Request)
      → on_output listener parses request_number r s ≡ goes_on t
      → fate (
          on_event parses request_number
            (connected (s.peers r.fd) st)
            old
            (poll_out r.readable r.sent))
        ≡ some (view r.fd t)
  unfolding on_output on_event
  output_own r st s t old h =
      let (out, reply, new) =
        on_peer_ready_send request_number r.readable r.sent (s.peers r.fd) s.request in
      ap (λ o. some (update o)) (send-any_request r.readable r.sent (s.peers r.fd) old s.request)
      ∙ ap some (sym (settle-view r.is_set r.fd out (record s { request = new }) t h))

  error_own :
      (r : Ready) (st : FdStatus) (s t : Server) (old : Request)
      → (if r.is_set then goes_on (record s { watched = at_fd r.fd none s.watched }) else returned)
        ≡ goes_on t
      → fate (on_event parses request_number (connected (s.peers r.fd) st) old poll_error)
        ≡ some (view r.fd t)
  unfolding on_event
  error_own r st s t old h = ground arith

  run_one :
      (l : Link) (old : Request) (e : PollEvent)
      → fate (run parses request_number l old (e ∷ []))
        ≡ fate (on_event parses request_number l old e)
  unfolding run
  run_one l old e = elim (Option-cases (on_event parses request_number l old e)) [
    | inl h ↦
        ap (λ o. fate (elim o [ none ↦ none | some (m, new) ↦ some (m, new) ])) h ∙ sym (ap fate h)
    | inr ((m, new), h) ↦
        ap (λ o. fate (elim o [ none ↦ none | some (m, new) ↦ some (m, new) ])) h ∙ sym (ap fate h)
  ]

  run_none : (l : Link) (old : Request) → fate (run parses request_number l old []) ≡ some l
  unfolding run
  run_none l old = refl

  same_own :
      (fd : ℕ) (st : FdStatus) (s t : Server)
      → s.watched fd ≡ some st
      → goes_on s ≡ goes_on t
      → some (connected (s.peers fd) st) ≡ some (view fd t)
  same_own fd st s t w h = ground (arith, w, h)

  pub own_client :
      (r : Ready) (st : FdStatus) (s t : Server) (old : Request)
      → r.fd ≢ listener
      → s.watched r.fd ≡ some st
      → on_ready listener parses request_number r s ≡ goes_on t
      → fate (run parses request_number (view r.fd s) old (poll_event r)) ≡ some (view r.fd t)
  unfolding on_ready
  own_client r st s t old n w h =
      let l = connected (s.peers r.fd) st in
      ap (λ v. fate (run parses request_number v old (poll_event r))) (connected-view r.fd st s w)
      ∙ ground (
        arith,
        run_one l old poll_error,
        run_one l old (poll_in r.recv),
        run_one l old (poll_out r.readable r.sent),
        run_none l old,
        error_own r st s t old,
        input_own r st s t old,
        output_own r st s t old,
        same_own r.fd st s t w,
      )

  -- A new client.
  abbrev pub fresh : Link
  fresh = connected on_peer_connected.0 on_peer_connected.1

  on_accept_any :
      (is_set : Bool) (a : Accept) (other : ℕ) (s t : Server)
      → on_accept is_set a s ≡ goes_on t
      → (view other t ≡ view other s) ⊎ (view other t ≡ fresh)
  unfolding on_accept
  on_accept_any is_set (accepted fd) other s t h = elim (Bool-cases (other == fd)) [
    | inl e ↦ inr (ground (arith, h, e))
    | inr e ↦ inl (ground (arith, h, e))
  ]
  on_accept_any is_set no_connection other s t h = inl (ground arith)
  on_accept_any is_set accept_error other s t h = inl (ground arith)

  -- An entry of another socket leaves a client alone, or makes it new.
  pub any_client :
      (r : Ready) (other : ℕ) (s t : Server)
      → other ≢ r.fd
      → on_ready listener parses request_number r s ≡ goes_on t
      → (view other t ≡ view other s) ⊎ (view other t ≡ fresh)
  unfolding on_ready
  any_client r other s t n h = ground (
    arith,
    error_other r.is_set r.fd other s t n,
    on_accept_any r.is_set r.accept other s t,
    input_other r other s t n,
    output_other r other s t n,
  )

  settle-goes :
      (is_set : Bool) (fd : ℕ) (out : Peer × FdStatus) (s : Server)
      → settle is_set fd out s ≢ aborted
  unfolding settle
  settle-goes is_set fd (p, st) s h = ground arith

  input_aborts :
      (r : Ready) (s : Server) (st : FdStatus) (old : Request)
      → on_input listener parses request_number r s ≡ aborted
      → on_event parses request_number (connected (s.peers r.fd) st) old (poll_in r.recv) ≡ none
  unfolding on_event
  input_aborts r s st old h =
      elim (Option-cases (on_peer_ready_recv parses (s.peers r.fd) r.recv)) [
        | inl e ↦
            ap
              (λ o. elim o as (λ x. Option (Link × Request)) [
                | none ↦ none
                | some out ↦ some (update out, old)
              ])
              e
        | inr (out, e) ↦ absurd (settle-goes r.is_set r.fd out s (sym (input-settle r s out e) ∙ h))
      ]

  output-goes : (r : Ready) (s : Server) → on_output listener parses request_number r s ≢ aborted
  unfolding on_output
  output-goes r s h =
      let (out, reply, new) =
        on_peer_ready_send request_number r.readable r.sent (s.peers r.fd) s.request in
      settle-goes r.is_set r.fd out (record s { request = new }) h

  accept-goes : (is_set : Bool) (a : Accept) (s : Server) → on_accept is_set a s ≢ aborted
  unfolding on_accept
  accept-goes is_set (accepted fd) s h = ground arith
  accept-goes is_set no_connection s h = ground arith
  accept-goes is_set accept_error s h = ground arith

  -- Only a failed assertion aborts the thread: the one on the socket, or one of the protocol.
  pub ready_aborts :
      (r : Ready) (s : Server) (st : FdStatus) (old : Request)
      → (r.fd ≢ listener → r.fd < max_fds)
      → on_ready listener parses request_number r s ≡ aborted
      → (r.fd ≢ listener)
        × (fate (run parses request_number (connected (s.peers r.fd) st) old (poll_event r)) ≡ none)
  unfolding on_ready
  ready_aborts r s st old low h =
      let one = run_one (connected (s.peers r.fd) st) old (poll_in r.recv) in
      ground
        (arith, low, one, input_aborts r s st old, output-goes r s, accept-goes r.is_set r.accept s)
