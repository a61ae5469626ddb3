-- ===== src/Monitoring/Link.antt =====
-- The events of the thread of src/monitoring.c for one connected client.
use oscillatord.Base.{
  ℕ, ◌≡◌, ap, Bool, true, ◌||◌, Option, none, some, List, [], ◌∷◌, if◌then◌else◌,
}
use oscillatord.Base.Int.{ℤ}
use oscillatord.Structs.{Request}
use oscillatord.Monitoring.Peer.{Peer, FdStatus, Recv, on_peer_ready_recv}
use oscillatord.Monitoring.Requests.{on_peer_ready_send}

-- A client: closed, or with its state and what `epoll` watches the socket for.
pub data Link : Type 0 where
  closed : Link
  connected : Peer → FdStatus → Link

-- EPOLLERR, EPOLLIN with the answer of `recv`, EPOLLOUT with those of the EEPROM and of `send`.
pub data PollEvent : Type 0 where
  poll_error : PollEvent
  poll_in : Recv → PollEvent
  poll_out : Bool → Bool → PollEvent

-- With no interest left, the socket is taken from the set and closed; else the set is updated.
abbrev pub update : Peer × FdStatus → Link
update (p, s) = if s.want_read || s.want_write then connected p s else closed

module _ (parses : List ℕ → Bool) (request_number : List ℕ → Option ℤ) where
  -- `none` is a failed assertion. The request is `monitoring->request`.
  unfoldable pub on_event : Link → Request → PollEvent → Option (Link × Request)
  unfolding on_peer_ready_recv on_peer_ready_send
  on_event closed old e = some (closed, old)
  on_event (connected p s) old poll_error = some (closed, old)
  on_event (connected p s) old (poll_in r) = elim (on_peer_ready_recv parses p r) [
    | none ↦ none
    | some out ↦ some (update out, old)
  ]
  on_event (connected p s) old (poll_out readable sent) =
      let (out, reply, new) = on_peer_ready_send request_number readable sent p old in
      some (update out, new)

  -- `epoll` reports reading and writing only where they are watched for.
  abbrev pub Watched : FdStatus → PollEvent → Type 0
  Watched s poll_error = Unit {0}
  Watched s (poll_in r) = s.want_read ≡ true
  Watched s (poll_out readable sent) = s.want_write ≡ true

  unfoldable pub run : Link → Request → List PollEvent → Option (Link × Request)
  run l old [] = some (l, old)
  run l old (e ∷ es) = elim (on_event l old e) [ none ↦ none | some (l', new) ↦ run l' new es ]

  -- An event whose outcome is known.
  pub run-on_event :
      (l l' : Link) (old new : Request) (e : PollEvent) (es : List PollEvent)
      → on_event l old e ≡ some (l', new)
      → run l old (e ∷ es) ≡ run l' new es
  unfolding run
  run-on_event l l' old new e es h =
      ap (λ o. elim o as (λ x. Option (Link × Request)) [ none ↦ none | some (m, r) ↦ run m r es ])
        h

  -- A reading whose outcome is known.
  pub on_event-recv :
      (p q : Peer) (s t : FdStatus) (old : Request) (r : Recv)
      → on_peer_ready_recv parses p r ≡ some (q, t)
      → on_event (connected p s) old (poll_in r) ≡ some (update (q, t), old)
  unfolding on_event
  on_event-recv p q s t old r h =
      ap
        (λ o. elim o as (λ x. Option (Link × Request)) [
          | none ↦ none
          | some out ↦ some (update out, old)
        ])
        h
