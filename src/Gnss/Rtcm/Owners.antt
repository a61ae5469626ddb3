-- ===== src/Gnss/Rtcm/Owners.antt =====
-- Who closes a client of the RTCM output of src/gnss.c: each open descriptor has one owner.
use oscillatord.Base.{
  ℕ, ◌+◌, ◌-◌, ◌≤◌, ◌≡◌, refl, sym, ap, ◌∙◌, ◌≢◌, inl, inr, Bool, true, false, ◌||◌, Option, none,
  some, List, [], ◌∷◌, arith, ◌==◌, if◌then◌else◌, ==_iff, Bool-cases,
}
use oscillatord.Gnss.Rtcm.{
  Acceptor, waiting, has_new, has_old, ended, undefined, Sender, unmade, idle, gone, holds, failed,
  drops, Rtcm, count, remove, close, Answer, accepts, refuses, again, accept_from, accept_step,
  send_from, send_step, stop_accepting, drop_client, start_receiver, free_gnss, reuse, started,
  IsFresh, Reach, here, accepting, sending, stopping, starting, freeing, reusing, KeepsClient,
}
use mathlib.Core.Path.{subst}

abbrev cell : ℕ → ℕ → ℕ
cell x y = if x == y then 1 else 0

abbrev pub by_client : ℕ → Option ℕ → ℕ
by_client x none = 0
by_client x (some fd) = cell x fd

-- The client that a thread alone knows and still has to hand over or to close.
abbrev by_acceptor : ℕ → Acceptor → ℕ
by_acceptor x waiting = 0
by_acceptor x (has_new fd) = cell x fd
by_acceptor x (has_old old) = by_client x old
by_acceptor x ended = 0
by_acceptor x (undefined fd) = cell x fd

abbrev by_sender : ℕ → Sender → ℕ
by_sender x unmade = 0
by_sender x gone = 0
by_sender x idle = 0
by_sender x (holds cfd) = 0
by_sender x (failed cfd) = 0
by_sender x (drops cfd) = cell x cfd

-- How many owners a descriptor has.
unfoldable pub owners : ℕ → Rtcm → ℕ
owners x s = by_client x s.client + (by_acceptor x s.acceptor + by_sender x s.sender)

-- `opened` holds each descriptor as often as `w` says, and at most once.
pub record Fits (opened : List ℕ) (w : ℕ → ℕ) : Type 0 where
  pub same : (x : ℕ) → count x opened ≡ w x
  pub once : (x : ℕ) → count x opened ≤ 1

-- Each open descriptor has exactly one owner, and no other was closed.
unfoldable pub IsOwned : Rtcm → Type 0
IsOwned s = Fits s.opened (λ x. owners x s) × (s.bad_close ≡ false)

count-remove :
    (x fd : ℕ) (xs : List ℕ)
    → count x (remove fd xs) ≡ (if x == fd then count x xs - 1 else count x xs)
unfolding count remove
count-remove x fd [] = ground arith
count-remove x fd (y ∷ xs) = let ih = count-remove x fd xs in ground arith

cell_self : (fd : ℕ) → cell fd fd ≡ 1
cell_self fd = ground arith

Fits-same : {o : List ℕ} {v w : ℕ → ℕ} → ((x : ℕ) → v x ≡ w x) → Fits o v → Fits o w
Fits-same e f = record { same = λ x. f.same x ∙ e x; once = f.once }

-- What is closed has an owner, which loses it.
Fits-close :
    {o : List ℕ} {v w : ℕ → ℕ} (fd : ℕ)
    → ((x : ℕ) → v x ≡ cell x fd + w x)
    → Fits o v
    → Fits (remove fd o) w
Fits-close {o} {v} {w} fd e f = record {
  same = λ x. ground (arith, count-remove x fd o, f.same x, f.once x, e x);
  once = λ x. ground (arith, count-remove x fd o, f.once x);
}

Fits-nonzero : {o : List ℕ} {v : ℕ → ℕ} (fd : ℕ) → 1 ≤ v fd → Fits o v → count fd o ≢ 0
Fits-nonzero fd l f z = omega (arith, f.same fd, l, z)

at_most_one : (x fd : ℕ) (o : List ℕ) → count fd o ≡ 0 → count x o ≤ 1 → cell x fd + count x o ≤ 1
at_most_one x fd o z l = elim (Bool-cases (x == fd)) [
  | inl e ↦ (let q = (==_iff x fd).0 e in ground (arith, ap (λ y. count y o) q))
  | inr e ↦ ground arith
]

Fits-open :
    {o : List ℕ} {v w : ℕ → ℕ} (fd : ℕ)
    → count fd o ≡ 0
    → ((x : ℕ) → w x ≡ cell x fd + v x)
    → Fits o v
    → Fits (fd ∷ o) w
unfolding count
Fits-open {o} {v} {w} fd z e f = record {
  same = λ x. omega (arith, f.same x, e x);
  once = λ x. at_most_one x fd o z (f.once x);
}

again_owns : (x : ℕ) (running : Bool) → by_acceptor x (again running) ≡ 0
again_owns x true = refl
again_owns x false = refl

not_zero : (b : Bool) (n : ℕ) → b ≡ false → n ≢ 0 → (b || n == 0) ≡ false
not_zero b n e h = ground arith

if-IsOwned :
    (s t : Rtcm) (b : Bool)
    → (b ≡ true → IsOwned s)
    → (b ≡ false → IsOwned t)
    → IsOwned (if b then s else t)
if-IsOwned s t true h k = h refl
if-IsOwned s t false h k = k refl

accept_from-IsOwned :
    (a : Answer) (p : Acceptor) (c : Option ℕ) (s : Rtcm)
    → (let t = record s { acceptor = p; client = c } in
        IsFresh a t → IsOwned t → IsOwned (accept_from p a t))
unfolding IsFresh IsOwned owners accept_from close
accept_from-IsOwned (accepts fd) waiting c s f (h, b) = (Fits-open fd f (λ x. omega arith) h, b)
accept_from-IsOwned (refuses true) waiting c s f h = h
accept_from-IsOwned (refuses false) waiting c s f (h, b) =
    (Fits-same (λ x. omega (arith, again_owns x s.running)) h, b)
accept_from-IsOwned a (has_new fd) c s f (h, b) =
    if-IsOwned _ _ s.mutex_ready (λ e. (Fits-same (λ x. omega arith) h, b)) (λ e. (h, b))
accept_from-IsOwned a (has_old none) c s f (h, b) =
    (Fits-same (λ x. omega (arith, again_owns x s.running)) h, b)
accept_from-IsOwned a (has_old (some old)) c s f (h, b) =
    let n = Fits-nonzero old (omega (arith, cell_self old)) h in
    (
      Fits-close old (λ x. omega (arith, again_owns x s.running)) h,
      not_zero s.bad_close (count old s.opened) b n,
    )
accept_from-IsOwned a ended c s f h = h
accept_from-IsOwned a (undefined fd) c s f h = h

send_from-IsOwned :
    (sent : Bool) (q : Sender) (c : Option ℕ) (s : Rtcm)
    → (let t = record s { sender = q; client = c } in IsOwned t → IsOwned (send_from q sent t))
unfolding IsOwned owners send_from close
send_from-IsOwned sent unmade c s h = h
send_from-IsOwned sent gone c s h = h
send_from-IsOwned sent idle none s h = h
send_from-IsOwned sent idle (some cfd) s h = h
send_from-IsOwned true (holds cfd) c s h = h
send_from-IsOwned false (holds cfd) c s h = h
send_from-IsOwned sent (failed cfd) none s h = h
send_from-IsOwned sent (failed cfd) (some other) s (h, b) =
    if-IsOwned _ _ (other == cfd)
      (λ e. (Fits-same (λ x. omega (arith, ap (λ y. cell x y) ((==_iff other cfd).0 e))) h, b))
      (λ e. (h, b))
send_from-IsOwned sent (drops cfd) c s (h, b) =
    let n = Fits-nonzero cfd (omega (arith, cell_self cfd)) h in
    (Fits-close cfd (λ x. omega arith) h, not_zero s.bad_close (count cfd s.opened) b n)

sender-IsOwned :
    (q : Sender) (t : Rtcm)
    → ((x : ℕ) → by_sender x q ≡ by_sender x t.sender)
    → IsOwned t
    → IsOwned (record t { sender = q })
unfolding IsOwned owners
sender-IsOwned q t e (h, b) = (Fits-same (λ x. omega (arith, e x)) h, b)

reuse-IsOwned :
    (running : Bool) (client : Option ℕ) (mutex_ready : Bool) (t : Rtcm)
    → client ≡ t.client
    → IsOwned t
    → IsOwned (reuse running client mutex_ready t)
unfolding IsOwned owners reuse
reuse-IsOwned running client mutex_ready t e (h, b) =
    (Fits-same (λ x. omega (arith, ap (λ c. by_client x c) e)) h, b)

Reach-IsOwned : {t : Rtcm} (r : Reach started t) → KeepsClient r → IsOwned t
unfolding IsOwned owners started accept_step send_step stop_accepting start_receiver free_gnss count
Reach-IsOwned here k = (record { same = λ x. refl; once = λ x. omega arith }, refl)
Reach-IsOwned (accepting {t} r a f) k =
    accept_from-IsOwned a t.acceptor t.client t f (Reach-IsOwned r k)
Reach-IsOwned (sending {t} r sent) k =
    send_from-IsOwned sent t.sender t.client t (Reach-IsOwned r k)
Reach-IsOwned (stopping r) k = Reach-IsOwned r k
Reach-IsOwned (starting {t} r e) k =
    sender-IsOwned idle t (λ x. sym (ap (λ q. by_sender x q) e)) (Reach-IsOwned r k)
Reach-IsOwned (freeing {t} r e) k =
    sender-IsOwned gone t (λ x. sym (ap (λ q. by_sender x q) e)) (Reach-IsOwned r k)
Reach-IsOwned (reusing {t} r running client mutex_ready e) k =
    reuse-IsOwned running client mutex_ready t k.1 (Reach-IsOwned r k.0)

none_open : (o : List ℕ) → ((x : ℕ) → count x o ≡ 0) → o ≡ []
unfolding count
none_open [] z = refl
none_open (y ∷ o) z = absurd (omega (arith, z y, cell_self y))

-- The clean-up gets to its end, with no client open and no descriptor closed that was not open.
abbrev pub IsClean : Option Rtcm → Type 0
IsClean none = ⊥
IsClean (some s) = (s.opened ≡ []) × (s.bad_close ≡ false)

drop_client-IsClean :
    (c : Option ℕ) (s : Rtcm)
    → (let t = record s { acceptor = ended; sender = gone; client = c; mutex_ready = true } in
        IsOwned t → IsClean (drop_client t))
unfolding IsOwned owners drop_client close
drop_client-IsClean none s (h, b) = (none_open s.opened (λ x. omega (arith, h.same x)), b)
drop_client-IsClean (some fd) s (h, b) =
    let g = Fits-close {w = λ x. 0} fd (λ x. omega arith) h in
    let n = Fits-nonzero fd (omega (arith, cell_self fd)) h in
    (none_open (remove fd s.opened) g.same, not_zero s.bad_close (count fd s.opened) b n)

-- However the steps interleave of the thread that accepts clients, which may start before the mutex is
-- initialised, of the thread of the receiver, which frees `gnss` at its end, and of the clean-up: if
-- no other use of the freed memory changes the client that it holds, both threads are over and the
-- memory still holds a mutex that is initialised, then `rtcm_sock_cleanup` leaves no client open, and
-- no descriptor was ever closed that was not open. A thread that locks the mutex before it is
-- initialised is never over.
pub all_closed :
    (t : Rtcm) (r : Reach started t)
    → KeepsClient r
    → t.acceptor ≡ ended
    → t.sender ≡ gone
    → t.mutex_ready ≡ true
    → IsClean (drop_client t)
all_closed t r k e i m =
    let same =
      ap (λ p. record t { acceptor = p }) e
      ∙ ap (λ q. record t { acceptor = ended; sender = q }) i
      ∙ ap (λ b. record t { acceptor = ended; sender = gone; mutex_ready = b }) m in
    subst (λ v. IsClean (drop_client v)) (sym same)
      (drop_client-IsClean t.client t (subst IsOwned same (Reach-IsOwned r k)))
