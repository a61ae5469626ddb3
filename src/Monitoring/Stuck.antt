-- ===== src/Monitoring/Stuck.antt =====
-- What src/monitoring.c makes of a request that arrives in two segments.
use oscillatord.Base.{
  ℕ, ◌-◌, ◌<◌, ◌≡◌, refl, ap, ◌∙◌, Bool, true, false, Option, none, some, List, [], ◌∷◌, arith, ltb,
  lt→ltb, length,
}
use oscillatord.Base.Int.{ℤ}
use oscillatord.Base.Text.{zeros, IsText, c_string-text}
use oscillatord.Structs.{Request}
use oscillatord.Monitoring.Peer.{
  in_msg, sendbuf_size, Peer, FdStatus, fd_status_r, on_peer_connected, Recv, received, feed_byte,
  finish, on_peer_ready_recv,
}
use oscillatord.Monitoring.Link.{
  connected, PollEvent, poll_in, on_event, run, run-on_event, on_event-recv,
}
use oscillatord.Monitoring.Protocol.{IsRefused, holding, feed-holding}

module _ (parses : List ℕ → Bool) (request_number : List ℕ → Option ℤ) where
  -- While the buffer holds unanswered bytes, nothing more is received.
  holds-on_peer_ready_recv :
      (p : Peer) (r : Recv)
      → ltb p.buf_ptr p.buf_end ≡ true
      → on_peer_ready_recv parses p r ≡ some (p, fd_status_r)
  unfolding on_peer_ready_recv
  holds-on_peer_ready_recv p r h = ground arith

  holds-on_event :
      (p : Peer) (s : FdStatus) (old : Request) (r : Recv)
      → ltb p.buf_ptr p.buf_end ≡ true
      → on_event parses request_number (connected p s) old (poll_in r)
        ≡ some (connected p fd_status_r, old)
  holds-on_event p s old r h =
      on_event-recv parses request_number p p s fd_status_r old r (holds-on_peer_ready_recv p r h)

  -- What the socket is ready for.
  abbrev pub receive : List Recv → List PollEvent
  receive [] = []
  receive (r ∷ rs) = poll_in r ∷ receive rs

  held_unanswered :
      (p : Peer) (old : Request) (rs : List Recv)
      → p.buf_ptr < p.buf_end
      → run parses request_number (connected p fd_status_r) old (receive rs)
        ≡ some (connected p fd_status_r, old)
  unfolding run
  held_unanswered p old [] h = refl
  held_unanswered p old (r ∷ rs) h =
      run-on_event parses request_number (connected p fd_status_r) (connected p fd_status_r) old old
        (poll_in r) (receive rs) (holds-on_event p fd_status_r old r (lt→ltb p.buf_ptr p.buf_end h))
      ∙ held_unanswered p old rs h

  finish-fragment :
      (xs : List ℕ)
      → IsText xs
      → parses xs ≡ false
      → finish parses (holding parses in_msg xs) false ≡ (holding parses in_msg xs, fd_status_r)
  unfolding finish
  finish-fragment xs t a = rw (c_string-text xs (sendbuf_size - length xs) t, a) refl

  fragment-on_peer_ready_recv :
      (bs : List ℕ)
      → IsText bs
      → IsRefused parses (b'{' ∷ []) bs
      → parses (b'{' ∷ bs) ≡ false
      → length bs < sendbuf_size
      → on_peer_ready_recv parses on_peer_connected.0 (received (b'{' ∷ bs))
        ≡ some (holding parses in_msg (b'{' ∷ bs), fd_status_r)
  unfolding on_peer_ready_recv feed_byte on_peer_connected zeros
  fragment-on_peer_ready_recv bs t r a l =
      ap
        (λ o. elim o as (λ x. Option (Peer × FdStatus)) [
          | none ↦ none
          | some (q, w) ↦ some (finish parses q w)
        ])
        (feed-holding parses (b'{' ∷ []) bs false ((λ e. ground arith), tt) t r (omega (arith, l)))
      ∙ ap some (finish-fragment (b'{' ∷ bs) ((λ e. ground arith), t) a)

  -- A new client sends an opening brace and text that fits the buffer, none of whose beginnings the
  -- parser accepts, nor the whole: then it is watched for reading with these bytes in its buffer, and
  -- stays so. Whatever the socket has to read after that, the rest of the request or the end of the
  -- connection, is left there, no answer is prepared and the request before stands.
  pub fragment_unanswered :
      (bs : List ℕ) (old : Request) (rs : List Recv)
      → IsText bs
      → IsRefused parses (b'{' ∷ []) bs
      → parses (b'{' ∷ bs) ≡ false
      → length bs < sendbuf_size
      → run parses request_number
          (connected on_peer_connected.0 fd_status_r)
          old
          (poll_in (received (b'{' ∷ bs)) ∷ receive rs)
        ≡ some (connected (holding parses in_msg (b'{' ∷ bs)) fd_status_r, old)
  fragment_unanswered bs old rs t r a l =
      let p = holding parses in_msg (b'{' ∷ bs) in
      run-on_event parses request_number (connected on_peer_connected.0 fd_status_r)
        (connected p fd_status_r) old old (poll_in (received (b'{' ∷ bs))) (receive rs)
        (on_event-recv parses request_number on_peer_connected.0 p fd_status_r fd_status_r old
          (received (b'{' ∷ bs)) (fragment-on_peer_ready_recv bs t r a l))
      ∙ held_unanswered p old rs (omega arith)
