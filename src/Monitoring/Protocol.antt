-- ===== src/Monitoring/Protocol.antt =====
-- A request that arrives whole in the protocol of src/monitoring.c.
use oscillatord.Base.{
  ℕ, suc, ◌+◌, ◌-◌, ◌≤◌, ◌<◌, ◌≡◌, refl, sym, ap, ◌∙◌, ◌≢◌, Bool, true, false, Option, none, some,
  List, [], ◌∷◌, ◌++◌, arith, lt→ltb, length, set, length-append,
}
use oscillatord.Base.Text.{zeros, c_string, IsText, c_string-text}
use oscillatord.Base.Int.{ℤ, pos}
use oscillatord.Structs.{Request, none_requested}
use oscillatord.Monitoring.Peer.{
  State, wait_for_msg, in_msg, sendbuf_size, Peer, FdStatus, fd_status_r, fd_status_w,
  on_peer_connected, received, feed_byte, feed, finish, on_peer_ready_recv,
}
use oscillatord.Monitoring.Requests.{
  number, all_requests, find_request, request_of_int, Reply, handle, after_send, on_peer_ready_send,
}
use oscillatord.Monitoring.Link.{
  connected, PollEvent, poll_in, poll_out, update, on_event, run, run-on_event, on_event-recv,
}
use mathlib.Core.Path.{subst}
use mathlib.Core.List.{append_assoc, append-nil}

set-end :
    (xs : List ℕ) (n b : ℕ) → set (xs ++ zeros (suc n)) (length xs) b ≡ (xs ++ b ∷ []) ++ zeros n
unfolding zeros
set-end [] n b = refl
set-end (x ∷ xs) n b = ap (λ l. x ∷ l) (set-end xs n b)

module _ (parses : List ℕ → Bool) where
  -- The parser accepts no text from `xs` on before `xs ++ bs`.
  abbrev pub IsRefused : List ℕ → List ℕ → Type 0
  IsRefused xs [] = Unit
  IsRefused xs (b ∷ bs) = (parses xs ≡ false) × IsRefused (xs ++ b ∷ []) bs

  -- A client that has received `xs`.
  abbrev pub holding : State → List ℕ → Peer
  holding s xs = record {
    state = s;
    recv_buf = xs ++ zeros (sendbuf_size - length xs);
    buf_end = length xs;
    buf_ptr = 0;
  }

  set-room :
      (xs : List ℕ) (b : ℕ)
      → length xs < sendbuf_size
      → set (xs ++ zeros (sendbuf_size - length xs)) (length xs) b
        ≡ (xs ++ b ∷ []) ++ zeros (sendbuf_size - length (xs ++ b ∷ []))
  set-room xs b l =
      subst
        (λ n.
          set (xs ++ zeros n) (length xs) b
          ≡ (xs ++ b ∷ []) ++ zeros (sendbuf_size - length (xs ++ b ∷ [])))
        (omega (arith, length-append xs (b ∷ []), l))
        (set-end xs (sendbuf_size - length (xs ++ b ∷ [])) b)

  feed_byte-holding :
      (xs : List ℕ) (b : ℕ) (ready : Bool)
      → IsText xs
      → parses xs ≡ false
      → length xs < sendbuf_size
      → feed_byte parses (holding in_msg xs) ready b ≡ some (holding in_msg (xs ++ b ∷ []), ready)
  unfolding feed_byte
  feed_byte-holding xs b ready t r l =
      rw
        (
          c_string-text xs (sendbuf_size - length xs) t,
          r,
          lt→ltb (length xs) sendbuf_size l,
          set-room xs b l,
        )
        (ground (arith, length-append xs (b ∷ [])))

  IsText-snoc : (xs : List ℕ) (b : ℕ) → IsText xs → b ≢ 0 → IsText (xs ++ b ∷ [])
  IsText-snoc [] b t h = (h, tt)
  IsText-snoc (x ∷ xs) b t h = (t.0, IsText-snoc xs b t.1 h)

  feed-feed_byte :
      (p q : Peer) (ready r : Bool) (b : ℕ) (bs : List ℕ)
      → feed_byte parses p ready b ≡ some (q, r)
      → feed parses p ready (b ∷ bs) ≡ feed parses q r bs
  unfolding feed
  feed-feed_byte p q ready r b bs h =
      ap
        (λ o. elim o as (λ x. Option (Peer × Bool)) [
          | none ↦ none
          | some (m, s) ↦ feed parses m s bs
        ])
        h

  pub feed-holding :
      (xs bs : List ℕ) (ready : Bool)
      → IsText xs
      → IsText bs
      → IsRefused xs bs
      → length xs + length bs ≤ sendbuf_size
      → feed parses (holding in_msg xs) ready bs ≡ some (holding in_msg (xs ++ bs), ready)
  unfolding feed
  feed-holding xs [] ready t u r l = rw (append-nil xs) refl
  feed-holding xs (b ∷ bs) ready t u r l =
      feed-feed_byte (holding in_msg xs) (holding in_msg (xs ++ b ∷ [])) ready ready b bs
        (feed_byte-holding xs b ready t r.0 (omega (arith, l)))
      ∙ feed-holding (xs ++ b ∷ []) bs ready (IsText-snoc xs b t u.0) u.1 r.1
          (omega (arith, l, length-append xs (b ∷ [])))
      ∙ ap (λ l. some (holding in_msg l, ready)) (append_assoc xs (b ∷ []) bs)

  -- A message: an opening brace, text, and nothing the parser accepts before its end.
  pub record IsMessage (bs : List ℕ) : Type 0 where
    pub text : IsText bs
    pub refused : IsRefused (b'{' ∷ []) bs
    pub accepted : parses (b'{' ∷ bs) ≡ true
    pub size : length bs < sendbuf_size

  finish-holding :
      (xs : List ℕ)
      → IsText xs
      → parses xs ≡ true
      → finish parses (holding in_msg xs) false ≡ (holding wait_for_msg xs, fd_status_w)
  unfolding finish
  finish-holding xs t a = rw (c_string-text xs (sendbuf_size - length xs) t, a) refl

  whole-on_peer_ready_recv :
      (bs : List ℕ)
      → IsMessage bs
      → on_peer_ready_recv parses on_peer_connected.0 (received (b'{' ∷ bs))
        ≡ some (holding wait_for_msg (b'{' ∷ bs), fd_status_w)
  unfolding on_peer_ready_recv feed_byte on_peer_connected zeros
  whole-on_peer_ready_recv bs m =
      ap
        (λ o. elim o as (λ x. Option (Peer × FdStatus)) [
          | none ↦ none
          | some (q, r) ↦ some (finish parses q r)
        ])
        (feed-holding (b'{' ∷ []) bs false ((λ e. ground arith), tt) m.text m.refused
          (omega (arith, m.size)))
      ∙ ap some (finish-holding (b'{' ∷ bs) ((λ e. ground arith), m.text) m.accepted)

  module _ (request_number : List ℕ → Option ℤ) where
    -- One request: the bytes after the brace, the number in it, and whether the EEPROM can be read.
    pub record Exchange : Type 0 where
      pub bytes : List ℕ
      pub code : ℤ
      pub readable : Bool
      pub message : IsMessage bytes
      pub meaning : request_number (b'{' ∷ bytes) ≡ some code

    abbrev pub events : List Exchange → List PollEvent
    events [] = []
    events (x ∷ xs) = poll_in (received (b'{' ∷ x.bytes)) ∷ poll_out x.readable true ∷ events xs

    -- `monitoring->request` after the requests: each that posts one replaces the one before.
    abbrev pub posted : Request → List Exchange → Request
    posted old [] = old
    posted old (x ∷ xs) = posted (handle x.readable (request_of_int x.code) old).1 xs

    on_peer_ready_send-handle :
        (p : Peer) (readable : Bool) (old : Request) (n : ℤ)
        → request_number (c_string p.recv_buf) ≡ some n
        → on_peer_ready_send request_number readable true p old ≡ (
            let (reply, new) = handle readable (request_of_int n) old in
            (
              after_send request_number true (record p { recv_buf = zeros sendbuf_size }),
              some reply,
              new,
            ))
    unfolding on_peer_ready_send
    on_peer_ready_send-handle p readable old n h =
        let q = record p { recv_buf = zeros sendbuf_size } in
        ap
          (λ o. elim o as (λ x. (Peer × FdStatus) × Option Reply × Request) [
            | none ↦ ((q, fd_status_w), none, old)
            | some m ↦
                (let (reply, new) = handle readable (request_of_int m) old in
                  (after_send request_number true q, some reply, new))
          ])
          h

    holding-on_event :
        (old : Request) (x : Exchange)
        → on_event parses request_number
            (connected (holding wait_for_msg (b'{' ∷ x.bytes)) fd_status_w)
            old
            (poll_out x.readable true)
          ≡ some (
            connected on_peer_connected.0 fd_status_r,
            (handle x.readable (request_of_int x.code) old).1,
          )
    unfolding on_event on_peer_ready_send on_peer_connected
    holding-on_event old x =
        let p = holding wait_for_msg (b'{' ∷ x.bytes) in
        ap (λ o. some (update o.0, o.2))
          (on_peer_ready_send-handle p x.readable old x.code (
            ap request_number (
              c_string-text (b'{' ∷ x.bytes) (sendbuf_size - length (b'{' ∷ x.bytes))
                ((λ e. ground arith), x.message.text))
            ∙ x.meaning))

    -- A client sends each request whole in one segment, as text that starts with a brace, that the
    -- parser accepts at its end and not before, and that fits the buffer, and each answer is sent at
    -- once: then after any number of requests the client is watched for reading with an empty
    -- buffer, and the main loop finds the last request that was posted.
    pub exchanges_answered :
        (old : Request) (xs : List Exchange)
        → run parses request_number (connected on_peer_connected.0 fd_status_r) old (events xs)
          ≡ some (connected on_peer_connected.0 fd_status_r, posted old xs)
    unfolding run
    exchanges_answered old [] = refl
    exchanges_answered old (x ∷ xs) =
        let p = holding wait_for_msg (b'{' ∷ x.bytes) in
        run-on_event parses request_number (connected on_peer_connected.0 fd_status_r)
          (connected p fd_status_w) old old (poll_in (received (b'{' ∷ x.bytes)))
          (poll_out x.readable true ∷ events xs)
          (on_event-recv parses request_number on_peer_connected.0 p fd_status_r fd_status_w old
            (received (b'{' ∷ x.bytes)) (whole-on_peer_ready_recv x.bytes x.message))
        ∙ run-on_event parses request_number (connected p fd_status_w)
            (connected on_peer_connected.0 fd_status_r) old
            (handle x.readable (request_of_int x.code) old).1 (poll_out x.readable true) (events xs)
            (holding-on_event old x)
        ∙ exchanges_answered (handle x.readable (request_of_int x.code) old).1 xs

number-request_of_int : (r : Request) → request_of_int (pos (number r)) ≡ r
unfolding request_of_int
number-request_of_int r = ground arith

request_of_int-named : (n : ℤ) (r : Request) → n ≡ pos (number r) → request_of_int n ≡ r
request_of_int-named n r e = subst (λ m. request_of_int m ≡ r) (sym e) (number-request_of_int r)

find_request-unnamed :
    (n : ℤ) (rs : List Request)
    → ((r : Request) → n ≢ pos (number r))
    → find_request n rs ≡ none_requested
find_request-unnamed n [] h = refl
find_request-unnamed n (r ∷ rs) h = ground (arith, h r, find_request-unnamed n rs h)

-- The cast to `enum monitoring_request` inverts its numbering, and a number that is no request's is
-- handled as no request.
pub request_of_int-number :
    (n : ℤ)
    → ((r : Request) → n ≡ pos (number r) → request_of_int n ≡ r)
      × (((r : Request) → n ≢ pos (number r)) → request_of_int n ≡ none_requested)
unfolding request_of_int
request_of_int-number n = (request_of_int-named n, find_request-unnamed n all_requests)
