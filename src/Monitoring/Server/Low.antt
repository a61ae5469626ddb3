-- ===== src/Monitoring/Server/Low.antt =====
-- The sockets that the thread of src/monitoring.c watches are below MAXFDS.
use oscillatord.Base.{
  ℕ, ◌<◌, ◌≡◌, sym, ap, ◌∙◌, ◌≢◌, ◌⊎◌, inl, inr, Bool, Option, none, some, List, arith, ◌==◌,
  if◌then◌else◌, ==_iff, Bool-cases, Option-cases,
}
use oscillatord.Base.Int.{ℤ}
use oscillatord.Monitoring.Peer.{Peer, FdStatus, on_peer_ready_recv}
use oscillatord.Monitoring.Requests.{on_peer_ready_send}
use oscillatord.Monitoring.Server.{
  max_fds, Server, Accept, accepted, no_connection, accept_error, Ready, goes_on, returned, at_fd,
  settle, on_accept, on_input, on_output, on_ready,
}
use oscillatord.Monitoring.Server.Isolated.{input-settle, input-aborted}

module _ (listener : ℕ) (parses : List ℕ → Bool) (request_number : List ℕ → Option ℤ) where
  -- A socket other than the listening one is watched only if it is below MAXFDS.
  abbrev pub IsLow : Server → Type 0
  IsLow s = (fd : ℕ) (st : FdStatus) → fd ≢ listener → s.watched fd ≡ some st → fd < max_fds

  settle_watched :
      (is_set : Bool) (fd other : ℕ) (out : Peer × FdStatus) (s t : Server)
      → other ≢ fd
      → settle is_set fd out s ≡ goes_on t
      → t.watched other ≡ s.watched other
  unfolding settle
  settle_watched is_set fd other (p, st) s t n h = ground arith

  error_watched :
      (is_set : Bool) (fd other : ℕ) (s t : Server)
      → other ≢ fd
      → (if is_set then goes_on (record s { watched = at_fd fd none s.watched }) else returned)
        ≡ goes_on t
      → t.watched other ≡ s.watched other
  error_watched is_set fd other s t n h = ground arith

  input_watched :
      (r : Ready) (other : ℕ) (s t : Server)
      → other ≢ r.fd
      → on_input listener parses request_number r s ≡ goes_on t
      → t.watched other ≡ s.watched other
  input_watched r other s t n h =
      elim (Option-cases (on_peer_ready_recv parses (s.peers r.fd) r.recv)) [
        | inl e ↦ let k = input-aborted listener parses request_number r s e in cc
        | inr (out, e) ↦
            settle_watched r.is_set r.fd other out s t n
              (sym (input-settle listener parses request_number r s out e) ∙ h)
      ]

  output_watched :
      (r : Ready) (other : ℕ) (s t : Server)
      → other ≢ r.fd
      → on_output listener parses request_number r s ≡ goes_on t
      → t.watched other ≡ s.watched other
  unfolding on_output
  output_watched r other s t n h =
      let (out, reply, new) =
        on_peer_ready_send request_number r.readable r.sent (s.peers r.fd) s.request in
      settle_watched r.is_set r.fd other out (record s { request = new }) t n h

  accept_watched :
      (is_set : Bool) (a : Accept) (other : ℕ) (s t : Server)
      → on_accept is_set a s ≡ goes_on t
      → (t.watched other ≡ s.watched other) ⊎ (other < max_fds)
  unfolding on_accept
  accept_watched is_set (accepted fd) other s t h = elim (Bool-cases (other == fd)) [
    | inl e ↦ inr (let same : other ≡ fd = (==_iff other fd).0 e in ground (arith, h, same))
    | inr e ↦ inl (ground (arith, h, e))
  ]
  accept_watched is_set no_connection other s t h = inl (ground arith)
  accept_watched is_set accept_error other s t h = inl (ground arith)

  -- An entry of another socket leaves a socket watched as it was, or it is below MAXFDS.
  ready_watched :
      (r : Ready) (other : ℕ) (s t : Server)
      → other ≢ r.fd
      → on_ready listener parses request_number r s ≡ goes_on t
      → (t.watched other ≡ s.watched other) ⊎ (other < max_fds)
  unfolding on_ready
  ready_watched r other s t n h = ground (
    arith,
    error_watched r.is_set r.fd other s t n,
    accept_watched r.is_set r.accept other s t,
    input_watched r other s t n,
    output_watched r other s t n,
  )

  -- The guard of the loop on the number of a new socket keeps the set below MAXFDS.
  pub ready-IsLow :
      (r : Ready) (w : FdStatus) (s t : Server)
      → IsLow s
      → s.watched r.fd ≡ some w
      → on_ready listener parses request_number r s ≡ goes_on t
      → IsLow t
  ready-IsLow r w s t low k h fd st n e = elim (Bool-cases (fd == r.fd)) [
    | inl b ↦ let same : fd ≡ r.fd = (==_iff fd r.fd).0 b in low fd w n (ap s.watched same ∙ k)
    | inr b ↦
        let other : fd ≢ r.fd = λ p. let q = (==_iff fd r.fd).1 p in cc in
        elim (ready_watched r fd s t other h) [ inl q ↦ low fd st n (sym q ∙ e) | inr l ↦ l ]
  ]
