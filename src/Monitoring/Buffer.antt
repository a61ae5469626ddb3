-- ===== src/Monitoring/Buffer.antt =====
-- The buffer of a client of src/monitoring.c stays in bounds.
use oscillatord.Base.{
  ℕ, ◌+◌, ◌≤◌, ◌<◌, ◌≡◌, refl, ◌≢◌, Bool, true, false, Option, none, some, List, [], ◌∷◌, arith,
  ltb, length, length-set, length-replicate,
}
use oscillatord.Base.Text.{zeros}
use oscillatord.Base.Int.{ℤ}
use oscillatord.Structs.{Request}
use oscillatord.Monitoring.Peer.{
  initial_ack, sendbuf_size, Peer, FdStatus, Recv, received, disconnected, would_block, recv_error,
  feed_byte, feed, finish, on_peer_ready_recv,
}
use oscillatord.Monitoring.Requests.{after_send, on_peer_ready_send}
use oscillatord.Monitoring.Link.{
  Link, closed, connected, PollEvent, poll_error, poll_in, poll_out, update, on_event, run,
}

-- What holds of a client between two events.
pub record IsSound (p : Peer) : Type 0 where
  pub state : p.state ≢ initial_ack
  pub size : length p.recv_buf ≡ sendbuf_size
  pub buf_end : p.buf_end ≤ sendbuf_size
  pub buf_ptr : p.buf_ptr ≡ 0

abbrev pub IsSoundLink : Link → Type 0
IsSoundLink closed = Unit
IsSoundLink (connected p s) = IsSound p

-- `recv` returns no more bytes than it is asked for.
abbrev pub Fits : PollEvent → Type 0
Fits (poll_in (received bs)) = length bs ≤ sendbuf_size
Fits _ = Unit

abbrev pub Fit : List PollEvent → Type 0
Fit [] = Unit
Fit (e ∷ es) = Fits e × Fit es

-- No assertion fails, and the client is sound.
abbrev pub Goes : Option (Link × Request) → Type 0
Goes none = ⊥
Goes (some (l, r)) = IsSoundLink l

abbrev Feeds : Option (Peer × Bool) → Type 0
Feeds none = ⊥
Feeds (some (p, ready)) = IsSound p

module _ (parses : List ℕ → Bool) where
  -- One byte, where the buffer has room for it.
  abbrev Room : Option (Peer × Bool) → ℕ → Type 0
  Room none n = ⊥
  Room (some (p, ready)) n = IsSound p × (p.buf_end ≤ n)

  feed_byte-Room :
      (p : Peer) (ready : Bool) (b : ℕ)
      → IsSound p
      → p.buf_end < sendbuf_size
      → Room (feed_byte parses p ready b) (p.buf_end + 1)
  unfolding feed_byte
  feed_byte-Room p ready b h l =
      ground (arith, length-set p.recv_buf 0 b, length-set p.recv_buf p.buf_end b)

  -- The rest of a loop after one byte.
  Feeds-continued :
      (o : Option (Peer × Bool)) (n : ℕ) (k : Peer → Bool → Option (Peer × Bool))
      → Room o n
      → ((q : Peer) (r : Bool) → IsSound q → q.buf_end ≤ n → Feeds (k q r))
      → Feeds (elim o [ none ↦ none | some (q, r) ↦ k q r ])
  Feeds-continued none n k h next = h
  Feeds-continued (some (q, r)) n k h next = next q r h.0 h.1

  feed-IsSound :
      (p : Peer) (ready : Bool) (bs : List ℕ)
      → IsSound p
      → p.buf_end + length bs ≤ sendbuf_size
      → Feeds (feed parses p ready bs)
  unfolding feed
  feed-IsSound p ready [] h l = h
  feed-IsSound p ready (b ∷ bs) h l =
      Feeds-continued (feed_byte parses p ready b) (p.buf_end + 1) (λ q r. feed parses q r bs)
        (feed_byte-Room p ready b h (omega (arith, l)))
        (λ q r g m. feed-IsSound q r bs g (omega (arith, l, m)))

  abbrev Received : Option (Peer × FdStatus) → Type 0
  Received none = ⊥
  Received (some (p, s)) = IsSound p

  Received-finished :
      (o : Option (Peer × Bool))
      → Feeds o
      → Received (elim o [ none ↦ none | some (q, ready) ↦ some (finish parses q ready) ])
  unfolding finish
  Received-finished none h = h
  Received-finished (some (q, r)) h = ground arith

  received-Received :
      (p : Peer) (bs : List ℕ) (b : Bool)
      → ltb p.buf_ptr p.buf_end ≡ b
      → IsSound p
      → length bs ≤ sendbuf_size
      → Received (on_peer_ready_recv parses p (received bs))
  unfolding on_peer_ready_recv
  received-Received p bs true e h l = ground arith
  received-Received p bs false e h l =
      ground (
        arith,
        Received-finished (feed parses p false bs) (feed-IsSound p false bs h (ground arith)),
      )

  recv-Received :
      (p : Peer) (r : Recv)
      → IsSound p
      → Fits (poll_in r)
      → Received (on_peer_ready_recv parses p r)
  unfolding on_peer_ready_recv
  recv-Received p (received bs) h l = received-Received p bs (ltb p.buf_ptr p.buf_end) refl h l
  recv-Received p disconnected h l = ground arith
  recv-Received p would_block h l = ground arith
  recv-Received p recv_error h l = ground arith

  Goes-Received :
      (o : Option (Peer × FdStatus)) (old : Request)
      → Received o
      → Goes (elim o [ none ↦ none | some out ↦ some (update out, old) ])
  Goes-Received none old h = h
  Goes-Received (some (p, s)) old h = ground arith

  module _ (request_number : List ℕ → Option ℤ) where
    after_send-Goes :
        (sent : Bool) (p : Peer)
        → IsSound p
        → IsSoundLink (update (after_send request_number sent p))
    after_send-Goes true p h = ground arith
    after_send-Goes false p h = h

    cleared-IsSound : (p : Peer) → IsSound p → IsSound (record p { recv_buf = zeros sendbuf_size })
    unfolding zeros
    cleared-IsSound p h = record {
      state = h.state;
      size = length-replicate {A = ℕ} sendbuf_size 0;
      buf_end = h.buf_end;
      buf_ptr = h.buf_ptr;
    }

    send-Goes :
        (readable sent : Bool) (p : Peer) (old : Request)
        → IsSound p
        → IsSoundLink (update (on_peer_ready_send request_number readable sent p old).0)
    unfolding on_peer_ready_send
    send-Goes readable true p old h = ground (arith, cleared-IsSound p h)
    send-Goes readable false p old h = ground (arith, cleared-IsSound p h)

    pub on_event-Goes :
        (l : Link) (old : Request) (e : PollEvent)
        → IsSoundLink l
        → Fits e
        → Goes (on_event parses request_number l old e)
    unfolding on_event
    on_event-Goes closed old e h f = h
    on_event-Goes (connected p s) old poll_error h f = tt
    on_event-Goes (connected p s) old (poll_in r) h f =
        Goes-Received (on_peer_ready_recv parses p r) old (recv-Received p r h f)
    on_event-Goes (connected p s) old (poll_out readable sent) h f = send-Goes readable sent p old h

    Goes-continued :
        (o : Option (Link × Request)) (k : Link → Request → Option (Link × Request))
        → Goes o
        → ((l : Link) (r : Request) → IsSoundLink l → Goes (k l r))
        → Goes (elim o [ none ↦ none | some (l, r) ↦ k l r ])
    Goes-continued none k h next = h
    Goes-continued (some (l, r)) k h next = next l r h

    -- From a client that is closed or sound, whatever the parser accepts and whatever the client
    -- sends, in segments of at most 1024 bytes, no assertion of the protocol fails, and the client
    -- is closed or sound: not in the initial state, its buffer of 1024 bytes filled in bounds.
    pub run-Goes :
        (l : Link) (old : Request) (es : List PollEvent)
        → IsSoundLink l
        → Fit es
        → Goes (run parses request_number l old es)
    unfolding run
    run-Goes l old [] h f = h
    run-Goes l old (e ∷ es) h f =
        Goes-continued (on_event parses request_number l old e)
          (λ l' r. run parses request_number l' r es) (on_event-Goes l old e h f.0)
          (λ l' r g. run-Goes l' r es g f.1)
