-- ===== src/Monitoring/Server/Runs.antt =====
-- Runs of the thread of src/monitoring.c with several clients.
use oscillatord.Base.{
  ℕ, ◌≡◌, refl, sym, ap, ◌∙◌, ◌≢◌, inl, inr, Bool, Option, none, some, List, [], ◌∷◌, ◌++◌, arith,
  ◌==◌, ==_iff, Bool-cases, Option-cases, length-replicate,
}
use oscillatord.Base.Int.{ℤ}
use oscillatord.Base.Text.{zeros}
use oscillatord.Structs.{Request}
use oscillatord.Monitoring.Peer.{sendbuf_size, FdStatus, on_peer_connected}
use oscillatord.Monitoring.Link.{Link, closed, connected, PollEvent, on_event, run}
use oscillatord.Monitoring.Buffer.{IsSoundLink, Fit, Goes, run-Goes}
use oscillatord.Monitoring.Server.{Server, Ready, goes_on, aborted, on_ready}
use oscillatord.Monitoring.Server.Isolated.{
  view, poll_event, poll_events, KeepsFd, fate, other_client, connected-view, own_client, fresh,
  any_client, ready_aborts,
}
use oscillatord.Monitoring.Server.Low.{IsLow, ready-IsLow}
use mathlib.Core.Path.{subst}

-- The thread goes through these entries: `epoll` reports only sockets of its set.
pub data Steps (listener : ℕ) (parses : List ℕ → Bool) (request_number : List ℕ → Option ℤ)
    : Server → List Ready → Server → Type 0 where
  done : {s : Server} → Steps listener parses request_number s [] s
  step :
      {s t u : Server} {r : Ready} {rs : List Ready} (st : FdStatus)
      → s.watched r.fd ≡ some st
      → on_ready listener parses request_number r s ≡ goes_on t
      → Steps listener parses request_number t rs u
      → Steps listener parses request_number s (r ∷ rs) u

abbrev pub AllKeepFd : ℕ → List Ready → Type 0
AllKeepFd fd [] = Unit
AllKeepFd fd (r ∷ rs) = KeepsFd fd r × AllKeepFd fd rs

module _ (listener : ℕ) (parses : List ℕ → Bool) (request_number : List ℕ → Option ℤ) where
  fate-run :
      (l m : Link) (old : Request) (es : List PollEvent)
      → fate (run parses request_number l old es) ≡ some m
      → (new : Request) × (run parses request_number l old es ≡ some (m, new))
  fate-run l m old es h = elim (Option-cases (run parses request_number l old es)) [
    | inl e ↦ let k = ap fate e in cc
    | inr ((n, new), e) ↦ let k = ap fate e in (new, cc)
  ]

  run-append :
      (l : Link) (old : Request) (es fs : List PollEvent)
      → run parses request_number l old (es ++ fs)
        ≡ elim (run parses request_number l old es) as (λ x. Option (Link × Request)) [
          | none ↦ none
          | some (m, new) ↦ run parses request_number m new fs
        ]
  unfolding run
  run-append l old [] fs = refl
  run-append l old (e ∷ es) fs =
      elim (on_event parses request_number l old e)
        as (λ o.
          (elim o as (λ x. Option (Link × Request)) [
            | none ↦ none
            | some (m, new) ↦ run parses request_number m new (es ++ fs)
          ])
          ≡ (elim (elim o as (λ x. Option (Link × Request)) [
            | none ↦ none
            | some (m, new) ↦ run parses request_number m new es
          ])
              as (λ x. Option (Link × Request)) [
                | none ↦ none
                | some (m, new) ↦ run parses request_number m new fs
              ])) [ none ↦ refl | some (m, new) ↦ run-append m new es fs ]

  -- A run in two parts.
  fate-append :
      (l m : Link) (old : Request) (es fs : List PollEvent) (k : Option Link)
      → fate (run parses request_number l old es) ≡ some m
      → ((new : Request) → fate (run parses request_number m new fs) ≡ k)
      → fate (run parses request_number l old (es ++ fs)) ≡ k
  fate-append l m old es fs k h next =
      let (new, e) = fate-run l m old es h in
      ap fate (run-append l old es fs)
      ∙ ap
          (λ o. fate (elim o as (λ x. Option (Link × Request)) [
            | none ↦ none
            | some (m, new) ↦ run parses request_number m new fs
          ]))
          e
      ∙ next new

  -- Through any run of the thread, with any other clients connecting, talking, failing and leaving in
  -- between, a connection to a socket other than the listening one is what the protocol of one client
  -- alone makes of its own events, whatever request stood before; its number is not given to another
  -- connection meanwhile.
  pub client_alone :
      (fd : ℕ) (old : Request) {s u : Server} {rs : List Ready}
      → fd ≢ listener
      → AllKeepFd fd rs
      → Steps listener parses request_number s rs u
      → fate (run parses request_number (view fd s) old (poll_events fd rs)) ≡ some (view fd u)
  unfolding run
  client_alone fd old n k done = refl
  client_alone fd old {s} {u} n k (step {t = t} {r = r} {rs = rs} st w h steps) =
      elim (Bool-cases (r.fd == fd)) [
        | inl e ↦
            let same : r.fd ≡ fd = (==_iff r.fd fd).0 e in
            rw e (
              fate-append (view fd s) (view fd t) old (poll_event r) (poll_events fd rs)
                (some (view fd u))
                (subst
                  (λ x.
                    fate (run parses request_number (view x s) old (poll_event r))
                    ≡ some (view x t))
                  same
                  (own_client listener parses request_number r st s t old (λ p. n (sym same ∙ p)) w
                    h))
                (λ new. client_alone fd new n k.1 steps))
        | inr e ↦
            let other : fd ≢ r.fd = λ p. let q = (==_iff r.fd fd).1 (sym p) in cc in
            rw (e, sym (other_client listener parses request_number r fd s t other k.0 h))
              (client_alone fd old n k.1 steps)
      ]

  -- Every client is closed or sound.
  abbrev pub IsSafe : Server → Type 0
  IsSafe s = (fd : ℕ) → fd ≢ listener → IsSoundLink (view fd s)

  abbrev pub AllFit : List Ready → Type 0
  AllFit [] = Unit
  AllFit (r ∷ rs) = Fit (poll_event r) × AllFit rs

  Goes-fate : (o : Option (Link × Request)) (l : Link) → Goes o → fate o ≡ some l → IsSoundLink l
  Goes-fate none l g h = absurd g
  Goes-fate (some (m, new)) l g h = let e : m ≡ l = cc in subst IsSoundLink e g

  fresh-IsSound : IsSoundLink (fresh listener parses request_number)
  unfolding on_peer_connected zeros
  fresh-IsSound = record {
    state = λ e. ground arith;
    size = length-replicate {A = ℕ} sendbuf_size 0;
    buf_end = omega arith;
    buf_ptr = refl;
  }

  step-IsSafe :
      (s t : Server) (r : Ready) (st : FdStatus)
      → IsSafe s
      → Fit (poll_event r)
      → s.watched r.fd ≡ some st
      → on_ready listener parses request_number r s ≡ goes_on t
      → IsSafe t
  step-IsSafe s t r st safe fits w h fd n = elim (Bool-cases (r.fd == fd)) [
    | inl e ↦
        let same : r.fd ≡ fd = (==_iff r.fd fd).0 e in
        let far : r.fd ≢ listener = λ p. n (sym same ∙ p) in
        subst (λ x. IsSoundLink (view x t)) same
          (Goes-fate (run parses request_number (view r.fd s) s.request (poll_event r))
            (view r.fd t)
            (run-Goes parses request_number (view r.fd s) s.request (poll_event r) (safe r.fd far)
              fits)
            (own_client listener parses request_number r st s t s.request far w h))
    | inr e ↦
        let other : fd ≢ r.fd = λ p. let q = (==_iff r.fd fd).1 (sym p) in cc in
        elim (any_client listener parses request_number r fd s t other h) [
          | inl k ↦ subst IsSoundLink (sym k) (safe fd n)
          | inr k ↦ subst IsSoundLink (sym k) fresh-IsSound
        ]
  ]

  Steps-IsLow :
      {s u : Server} {rs : List Ready}
      → IsLow listener parses request_number s
      → Steps listener parses request_number s rs u
      → IsLow listener parses request_number u
  Steps-IsLow low done = low
  Steps-IsLow {s} low (step {t = t} {r = r} st w h steps) =
      Steps-IsLow (ready-IsLow listener parses request_number r st s t low w h) steps

  alone-IsLow :
      (s : Server)
      → ((fd : ℕ) → fd ≢ listener → s.watched fd ≡ none)
      → IsLow listener parses request_number s
  alone-IsLow s alone fd st n e = let k = alone fd n in cc

  pub Steps-IsSafe :
      {s u : Server} {rs : List Ready}
      → IsSafe s
      → AllFit rs
      → Steps listener parses request_number s rs u
      → IsSafe u
  Steps-IsSafe safe fits done = safe
  Steps-IsSafe {s} safe fits (step {t = t} {r = r} st w h steps) =
      Steps-IsSafe (step-IsSafe s t r st safe fits.0 w h) fits.1 steps

  Goes-ne-none : (o : Option (Link × Request)) → Goes o → fate o ≢ none
  Goes-ne-none none g h = g
  Goes-ne-none (some (m, new)) g h = cc

  alone-IsSafe : (s : Server) → ((fd : ℕ) → fd ≢ listener → s.watched fd ≡ none) → IsSafe s
  alone-IsSafe s h fd n =
      subst IsSoundLink
        (sym (
          ap (λ o. elim o as (λ x. Link) [ none ↦ closed | some st ↦ connected (s.peers fd) st ])
            (h fd n)))
        tt

  -- From the listening socket alone, after any run of the thread with any clients, whatever they send
  -- in segments of at most 1024 bytes and whatever the parser accepts, no entry that `epoll` reports
  -- next fails an assertion: neither one of the protocol, nor one of the callbacks on the number of
  -- the socket, which any `accept` may give.
  pub never_aborts :
      (s u : Server) (rs : List Ready) (r : Ready) (st : FdStatus)
      → ((fd : ℕ) → fd ≢ listener → s.watched fd ≡ none)
      → AllFit rs
      → Fit (poll_event r)
      → Steps listener parses request_number s rs u
      → u.watched r.fd ≡ some st
      → on_ready listener parses request_number r u ≢ aborted
  never_aborts s u rs r st alone fits fit steps w h =
      let low = Steps-IsLow (alone-IsLow s alone) steps in
      let (far, gone) =
        ready_aborts listener parses request_number r u st u.request (λ n. low r.fd st n w) h in
      let safe = Steps-IsSafe (alone-IsSafe s alone) fits steps r.fd far in
      let sound : IsSoundLink (connected (u.peers r.fd) st) =
        subst IsSoundLink (connected-view listener parses request_number r.fd st u w) safe in
      Goes-ne-none
        (run parses request_number (connected (u.peers r.fd) st) u.request (poll_event r))
        (run-Goes parses request_number (connected (u.peers r.fd) st) u.request (poll_event r) sound
          fit)
        gone
