-- ===== src/Gnss/Start/Joined.antt =====
-- How the sockets and threads of `gnss_init` and `gnss_stop` of src/gnss.c balance.
use oscillatord.Base.{
  ◌+◌, ◌≡◌, refl, sym, ap, Bool, true, false, not, ◌&&◌, ◌||◌, List, [], ◌∷◌, ◌++◌, arith,
  if◌then◌else◌,
}
use oscillatord.Config.{get_bool_default}
use oscillatord.Gnss.Receiver.{connect, set_configuration}
use oscillatord.Gnss.Start.{
  Boot, Effect, init_mutex, start_thread, Gnss, start_accepting, start_rtcm, new_gnss, Init, null,
  exits, started, start_threads, init, rtcm_sock_cleanup, stop,
}
use oscillatord.Gnss.Start.Socket.{
  opened, closed, accepts, joins, total, total-append, socket_works, one_if, Left,
  start_accepting-from,
}
use mathlib.Core.Path.{subst}

-- RTCM is configured, and the receiver takes it.
abbrev pub wants_rtcm : Boot → Bool
wants_rtcm a = get_bool_default a.rtcm_key false && a.rtcm_set

-- What a session that starts leaves for `gnss_stop`.
record Fits (wants works : Bool) (g : Gnss) (made : List Effect) : Type 0 where
  enabled : g.rtcm_enabled ≡ wants
  listening : g.is_listening ≡ wants && works
  sockets : total opened made ≡ total closed made + one_if (wants && works)
  threads : total accepts made ≡ one_if (wants && works)
  joined : total joins made ≡ 0

Left-Fits :
    (wants works : Bool) (g : Gnss) (r : Bool × Bool × List Effect)
    → g.rtcm_enabled ≡ false
    → g.is_listening ≡ false
    → Left works r
    → (let (listening, running, made) = r in
        let u = record g {
          rtcm_enabled = true;
          is_listening = listening;
          accept_running = running;
        } in
        let t : Gnss × List Effect = if wants then (u, made) else (g, []) in
        Fits wants works t.0 t.1)
Left-Fits true works g r e l h = record {
  enabled = refl;
  listening = h.listening;
  sockets = h.sockets;
  threads = h.threads;
  joined = h.joined;
}
Left-Fits false works g r e l h = record {
  enabled = e;
  listening = l;
  sockets = refl;
  threads = refl;
  joined = refl;
}

start_rtcm-Fits :
    (a : Boot)
    → Fits
        (wants_rtcm a)
        (socket_works a)
        (start_rtcm a (new_gnss a)).0
        (start_rtcm a (new_gnss a)).1
unfolding start_rtcm new_gnss
start_rtcm-Fits a =
    Left-Fits (wants_rtcm a) (socket_works a) (new_gnss a) (start_accepting a) refl refl
      (start_accepting-from a.socket a.binds a.listens a.accept_thread a)

-- A statement about the session and the calls, if one is started.
abbrev OnStarted : (Gnss → List Effect → Type 0) → Init → Type 0
OnStarted P null = Unit
OnStarted P (exits made) = Unit
OnStarted P (started g made) = P g made

if-OnStarted :
    (P : Gnss → List Effect → Type 0) (b : Bool) (x y : Init)
    → OnStarted P x
    → OnStarted P y
    → OnStarted P (if b then x else y)
if-OnStarted P true x y h k = h
if-OnStarted P false x y h k = k

Fits-append :
    {w k : Bool} {g : Gnss} {made : List Effect} (more : List Effect)
    → total opened more ≡ total closed more
    → total accepts more ≡ 0
    → total joins more ≡ 0
    → Fits w k g made
    → Fits w k g (made ++ more)
Fits-append {w} {k} {g} {made} more o a j h = record {
  enabled = h.enabled;
  listening = h.listening;
  sockets =
      omega (arith, total-append opened made more, total-append closed made more, h.sockets, o);
  threads = omega (arith, total-append accepts made more, h.threads, a);
  joined = omega (arith, total-append joins made more, h.joined, j);
}

init-Fits : (a : Boot) → OnStarted (Fits (wants_rtcm a) (socket_works a)) (init a)
unfolding init start_threads
init-Fits a =
    let P = Fits (wants_rtcm a) (socket_works a) in
    let (g, made) = start_rtcm a (new_gnss a) in
    if-OnStarted P (not a.has_session || not a.allocated) _ _ tt (
      if-OnStarted P (not a.rx_made) _ _ tt (
        if-OnStarted P
          (not (connect a.opens).0 || not (set_configuration a.configured a.sets a.resets).0) _ _ tt
          (if-OnStarted P (not a.starts) _ _ tt (
            if-OnStarted P a.thread (started g (made ++ init_mutex ∷ start_thread ∷ [])) _
              (Fits-append (init_mutex ∷ start_thread ∷ []) refl refl refl (start_rtcm-Fits a))
              tt))))

record Stops (g : Gnss) : Type 0 where
  opens_none : total opened (stop g) ≡ 0
  accepts_none : total accepts (stop g) ≡ 0
  closes : total closed (stop g) ≡ one_if (g.rtcm_enabled && g.is_listening)
  joins_once : total joins (stop g) ≡ one_if g.rtcm_enabled

stop_from : (e l : Bool) (g : Gnss) → Stops (record g { rtcm_enabled = e; is_listening = l })
unfolding stop rtcm_sock_cleanup
stop_from false l g = record {
  opens_none = refl;
  accepts_none = refl;
  closes = refl;
  joins_once = refl;
}
stop_from true false g = record {
  opens_none = refl;
  accepts_none = refl;
  closes = refl;
  joins_once = refl;
}
stop_from true true g = record {
  opens_none = refl;
  accepts_none = refl;
  closes = refl;
  joins_once = refl;
}

both : (e l w k : Bool) → e ≡ w → l ≡ w && k → one_if (e && l) ≡ one_if (w && k)
both e l w k p q = ground arith

stop_total :
    (w k : Bool) (g : Gnss) (made : List Effect)
    → Fits w k g made
    → (total opened (made ++ stop g) ≡ total closed (made ++ stop g))
      × (total accepts (made ++ stop g) ≡ one_if (w && k))
      × (total joins (made ++ stop g) ≡ one_if w)
stop_total w k g made h =
    let s = stop_from g.rtcm_enabled g.is_listening g in
    (
      omega (
        arith,
        total-append opened made (stop g),
        total-append closed made (stop g),
        h.sockets,
        s.opens_none,
        s.closes,
        both g.rtcm_enabled g.is_listening w k h.enabled h.listening,
      ),
      omega (arith, total-append accepts made (stop g), h.threads, s.accepts_none),
      omega (arith, total-append joins made (stop g), h.joined, s.joins_once, ap one_if h.enabled),
    )

-- A session that starts and is stopped, where `gnss_stop` and `rtcm_sock_cleanup`, which read the
-- fields after the thread of the receiver has freed them, still read them as `gnss_init` left them: each
-- socket that was opened is closed, and only those. The thread that accepts clients is started exactly
-- if RTCM is configured, the receiver takes it, and the socket and the thread can be made; it is
-- joined already if RTCM is configured and the receiver takes it. So without a socket a thread is
-- joined that was never made.
pub session_balance :
    (a : Boot) (g left : Gnss) (made : List Effect)
    → init a ≡ started g made
    → left ≡ g
    → (total opened (made ++ stop left) ≡ total closed (made ++ stop left))
      × (total accepts (made ++ stop left) ≡ (if wants_rtcm a && socket_works a then 1 else 0))
      × (total joins (made ++ stop left) ≡ (if wants_rtcm a then 1 else 0))
session_balance a g left made e same = stop_total (wants_rtcm a) (socket_works a) left made (
    subst (λ x. Fits (wants_rtcm a) (socket_works a) x made) (sym same)
      (subst (OnStarted (Fits (wants_rtcm a) (socket_works a))) e (init-Fits a)))
