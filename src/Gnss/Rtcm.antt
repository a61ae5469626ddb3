-- ===== src/Gnss/Rtcm.antt =====
-- The RTCM output of src/gnss.c: the thread that accepts a client, the part of the thread of the
-- receiver that sends it frames, and the clean-up. A step is what one thread does up to the next
-- point where the other may run: a call that can block, or a section under `mutex_data`.
pub mod Ends
pub mod Owners
mod Tests
use oscillatord.Base.{
  ℕ, ◌+◌, ◌≡◌, Bool, true, false, ◌||◌, Option, none, some, List, [], ◌∷◌, ◌==◌, if◌then◌else◌,
}

-- Where the thread of `rtcm_accept_thread_fn` is: in `accept`, with a new client, with the client
-- that it replaced (none for -1), or over; or at the lock of a mutex that is not initialised, of
-- which nothing is defined.
pub data Acceptor : Type 0 where
  waiting : Acceptor
  has_new : ℕ → Acceptor
  has_old : Option ℕ → Acceptor
  ended : Acceptor
  undefined : ℕ → Acceptor

-- Where the thread of the receiver is: not made yet, before a frame, about to `send` to `cfd`, after
-- a `send` that failed, about to close the client that it took out, or over: `gnss` is freed.
pub data Sender : Type 0 where
  unmade idle gone : Sender
  holds failed drops : ℕ → Sender

-- `running` and `client` are what the memory of `gnss` reads as, also after it is freed, and
-- `mutex_ready` says if it holds a mutex that is initialised. `opened` lists the descriptors of
-- clients that are open; `bad_close` says if one was closed that is not.
pub record Rtcm : Type 0 where
  pub running : Bool
  pub client : Option ℕ
  pub mutex_ready : Bool
  pub opened : List ℕ
  pub bad_close : Bool
  pub acceptor : Acceptor
  pub sender : Sender

unfoldable pub count : ℕ → List ℕ → ℕ
count x [] = 0
count x (y ∷ ys) = (if x == y then 1 else 0) + count x ys

unfoldable pub remove : ℕ → List ℕ → List ℕ
remove x [] = []
remove x (y ∷ ys) = let rest = remove x ys in if x == y then ys else y ∷ rest

-- `close`
unfoldable pub close : ℕ → Rtcm → Rtcm
close fd s = record s {
  opened = remove fd s.opened;
  bad_close = s.bad_close || count fd s.opened == 0;
}

-- `if (fd >= 0) close(fd)`
abbrev pub close_some : Option ℕ → Rtcm → Rtcm
close_some none s = s
close_some (some fd) s = close fd s

-- What `accept` returns: a descriptor, or -1, with the error EINVAL or EBADF or with another.
pub data Answer : Type 0 where
  accepts : ℕ → Answer
  refuses : Bool → Answer

-- `while (gnss->rtcm_accept_running)`
abbrev pub again : Bool → Acceptor
again running = if running then waiting else ended

-- The steps of `rtcm_accept_thread_fn`.
unfoldable pub accept_from : Acceptor → Answer → Rtcm → Rtcm
accept_from waiting (accepts fd) s = record s { opened = fd ∷ s.opened; acceptor = has_new fd }
accept_from waiting (refuses is_closed) s = record s {
  acceptor = if is_closed then ended else again s.running;
}
accept_from (has_new fd) a s =
    if s.mutex_ready
    then record s { client = some fd; acceptor = has_old s.client }
    else record s { acceptor = undefined fd }
accept_from (has_old old) a s = record (close_some old s) { acceptor = again s.running }
accept_from ended a s = s
accept_from (undefined fd) a s = s

unfoldable pub accept_step : Answer → Rtcm → Rtcm
accept_step a s = accept_from s.acceptor a s

abbrev pub is_client : ℕ → Option ℕ → Bool
is_client fd none = false
is_client fd (some other) = other == fd

-- The steps of `gnss_thread` for a frame of RTCM; `sent` is whether `send` succeeds.
unfoldable pub send_from : Sender → Bool → Rtcm → Rtcm
send_from unmade sent s = s
send_from gone sent s = s
send_from idle sent s = elim s.client [ none ↦ s | some cfd ↦ record s { sender = holds cfd } ]
send_from (holds cfd) sent s = record s { sender = if sent then idle else failed cfd }
send_from (failed cfd) sent s =
    if is_client cfd s.client
    then record s { client = none; sender = drops cfd }
    else record s { sender = idle }
send_from (drops cfd) sent s = record (close cfd s) { sender = idle }

unfoldable pub send_step : Bool → Rtcm → Rtcm
send_step sent s = send_from s.sender sent s

-- The first lines of `rtcm_sock_cleanup`.
unfoldable pub stop_accepting : Rtcm → Rtcm
stop_accepting s = record s { running = false }

-- Its last lines, once the thread is joined: none at the lock of a mutex that is not initialised.
unfoldable pub drop_client : Rtcm → Option Rtcm
unfolding close
drop_client s =
    if s.mutex_ready then some (close_some s.client (record s { client = none })) else none

-- `gnss_init` from its `pthread_mutex_init` on: the thread of the receiver is made.
unfoldable pub start_receiver : Rtcm → Rtcm
start_receiver s = record s { mutex_ready = true; sender = idle }

-- The end of `gnss_thread`: `gnss` is freed.
unfoldable pub free_gnss : Rtcm → Rtcm
free_gnss s = record s { sender = gone }

-- Memory that is freed may be used again: its bytes become others.
unfoldable pub reuse : Bool → Option ℕ → Bool → Rtcm → Rtcm
reuse running client mutex_ready s = record s {
  running = running;
  client = client;
  mutex_ready = mutex_ready;
}

-- The fields as `gnss_init` sets them, when the thread that accepts clients is created: the mutex is
-- not initialised yet.
unfoldable pub started : Rtcm
started = record {
  running = true;
  client = none;
  mutex_ready = false;
  opened = [];
  bad_close = false;
  acceptor = waiting;
  sender = unmade;
}

-- The system gives `accept` no descriptor that is open.
unfoldable pub IsFresh : Answer → Rtcm → Type 0
unfolding count
IsFresh (accepts fd) s = count fd s.opened ≡ 0
IsFresh (refuses is_closed) s = Unit

-- Any interleaving of the two threads, of the start of the second one, of its end, of the first lines of
-- the clean-up, and of other uses of the memory once it is freed.
pub data Reach (s : Rtcm) : Rtcm → Type 0 where
  here : Reach s s
  accepting : {t : Rtcm} → Reach s t → (a : Answer) → IsFresh a t → Reach s (accept_step a t)
  sending : {t : Rtcm} → Reach s t → (sent : Bool) → Reach s (send_step sent t)
  stopping : {t : Rtcm} → Reach s t → Reach s (stop_accepting t)
  starting : {t : Rtcm} → Reach s t → t.sender ≡ unmade → Reach s (start_receiver t)
  freeing : {t : Rtcm} → Reach s t → t.sender ≡ idle → Reach s (free_gnss t)
  reusing :
      {t : Rtcm}
      → Reach s t
      → (running : Bool) (client : Option ℕ) (mutex_ready : Bool) → t.sender ≡ gone
      → Reach s (reuse running client mutex_ready t)

-- No other use of the freed memory writes another client there.
abbrev pub KeepsClient : {s t : Rtcm} → Reach s t → Type 0
KeepsClient here = Unit
KeepsClient (accepting r a f) = KeepsClient r
KeepsClient (sending r sent) = KeepsClient r
KeepsClient (stopping r) = KeepsClient r
KeepsClient (starting r e) = KeepsClient r
KeepsClient (freeing r e) = KeepsClient r
KeepsClient (reusing {t} r running client mutex_ready e) = KeepsClient r × (client ≡ t.client)
