-- ===== src/Gnss/Rtcm/Ends.antt =====
-- The end of the thread that accepts clients of the RTCM output of src/gnss.c.
use oscillatord.Base.{◌≡◌, refl, ap, ◌∙◌, true, false}
use oscillatord.Gnss.Rtcm.{
  Acceptor, waiting, has_new, has_old, ended, undefined, Rtcm, Answer, accepts, refuses, again,
  accept_from, accept_step,
}

stays_ended : (a : Answer) (s : Rtcm) → s.acceptor ≡ ended → (accept_step a s).acceptor ≡ ended
unfolding accept_step accept_from
stays_ended a s e = ap (λ p. (accept_from p a s).acceptor) e ∙ e

abbrev Defined : Acceptor → Type 0
Defined waiting = Unit
Defined (has_new fd) = Unit
Defined (has_old old) = Unit
Defined ended = Unit
Defined (undefined fd) = ⊥

ends_from :
    (a b c : Answer) (p : Acceptor) (s : Rtcm)
    → Defined p
    → s.running ≡ false
    → (let t = record s { acceptor = p; mutex_ready = true } in
        (accept_step c (accept_step b (accept_step a t))).acceptor ≡ ended)
unfolding accept_step accept_from
ends_from (accepts fd) b c waiting s d h = ap again h
ends_from (refuses true) b c waiting s d h = refl
ends_from (refuses false) b c waiting s d h =
    stays_ended c _
      (stays_ended b (record s { acceptor = again s.running; mutex_ready = true }) (ap again h))
ends_from a b c (has_new fd) s d h = stays_ended c _ (ap again h)
ends_from a b c (has_old old) s d h = stays_ended c _ (stays_ended b _ (ap again h))
ends_from a b c ended s d h = refl
ends_from a b c (undefined fd) s d h = absurd d

-- Once `rtcm_accept_running` is false and the mutex is initialised, three steps end the thread of
-- `rtcm_accept_thread_fn`, whatever `accept` returns.
pub accept_thread_ends :
    (s : Rtcm) (a b c : Answer)
    → Defined s.acceptor
    → s.mutex_ready ≡ true
    → s.running ≡ false
    → (accept_step c (accept_step b (accept_step a s))).acceptor ≡ ended
accept_thread_ends s a b c d m h =
    ap
      (λ r. (accept_step c (accept_step b (accept_step a (record s { mutex_ready = r })))).acceptor)
      m
    ∙ ends_from a b c s.acceptor s d h
