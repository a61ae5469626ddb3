-- ===== src/Gnss/Start/Socket.antt =====
-- The calls by which `gnss_init` of src/gnss.c makes the socket and the thread of the RTCM output.
use oscillatord.Base.{
  ℕ, ◌+◌, ◌≡◌, refl, Bool, true, false, ◌&&◌, List, [], ◌∷◌, ◌++◌, arith, if◌then◌else◌,
}
use oscillatord.Gnss.Start.{
  Boot, Effect, open_socket, close_socket, start_accept, join_accept, rtcm_sock_create,
  start_accepting,
}

abbrev pub opened : Effect → ℕ
opened open_socket = 1
opened _ = 0

abbrev pub closed : Effect → ℕ
closed close_socket = 1
closed _ = 0

-- How often a thread that accepts clients is started, and joined.
abbrev pub accepts : Effect → ℕ
accepts start_accept = 1
accepts _ = 0

abbrev pub joins : Effect → ℕ
joins join_accept = 1
joins _ = 0

abbrev pub total : (Effect → ℕ) → List Effect → ℕ
total w [] = 0
total w (e ∷ es) = w e + total w es

pub total-append :
    (w : Effect → ℕ) (xs ys : List Effect) → total w (xs ++ ys) ≡ total w xs + total w ys
total-append w [] ys = omega arith
total-append w (x ∷ xs) ys = omega (arith, total-append w xs ys)

-- The socket listens and its thread runs.
abbrev pub socket_works : Boot → Bool
socket_works a = a.socket && (a.binds && (a.listens && a.accept_thread))

abbrev pub one_if : Bool → ℕ
one_if b = if b then 1 else 0

-- The socket and the thread that are left after `start_accepting`.
pub record Left (works : Bool) (r : Bool × Bool × List Effect) : Type 0 where
  pub listening : r.0 ≡ works
  pub running : r.1 ≡ works
  pub sockets : total opened r.2 ≡ total closed r.2 + one_if works
  pub threads : total accepts r.2 ≡ one_if works
  pub joined : total joins r.2 ≡ 0

pub start_accepting-from :
    (s b l t : Bool) (a : Boot)
    → (let c = record a { socket = s; binds = b; listens = l; accept_thread = t } in
        Left (socket_works c) (start_accepting c))
unfolding start_accepting rtcm_sock_create
start_accepting-from false b l t a = record {
  listening = refl;
  running = refl;
  sockets = refl;
  threads = refl;
  joined = refl;
}
start_accepting-from true false l t a = record {
  listening = refl;
  running = refl;
  sockets = refl;
  threads = refl;
  joined = refl;
}
start_accepting-from true true false t a = record {
  listening = refl;
  running = refl;
  sockets = refl;
  threads = refl;
  joined = refl;
}
start_accepting-from true true true false a = record {
  listening = refl;
  running = refl;
  sockets = refl;
  threads = refl;
  joined = refl;
}
start_accepting-from true true true true a = record {
  listening = refl;
  running = refl;
  sockets = refl;
  threads = refl;
  joined = refl;
}
