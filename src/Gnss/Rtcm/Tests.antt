-- ===== src/Gnss/Rtcm/Tests.antt =====
-- The RTCM output of src/gnss.c at concrete inputs.
-- Client 5 is replaced by client 6 while a frame goes to it, and the send fails. Descriptor 5 is
-- then given to the next client: the sender takes that one for its own, and closes it.
use oscillatord.Base.{◌≡◌, refl, true, false, none, some, [], ◌∷◌}
use oscillatord.Gnss.Rtcm.{
  ended, undefined, Rtcm, count, remove, close, accepts, refuses, accept_from, accept_step,
  send_from, send_step, stop_accepting, drop_client, start_receiver, free_gnss, reuse, started,
  IsFresh, Reach, here, accepting, sending, stopping, starting, freeing, reusing, KeepsClient,
}
use oscillatord.Gnss.Rtcm.Owners.{IsClean, all_closed}
use oscillatord.Gnss.Rtcm.Ends.{accept_thread_ends}

abbrev first : Rtcm
first =
    accept_step (refuses false)
      (accept_step (refuses false) (accept_step (accepts 5) (start_receiver started)))

-- A client that comes before the mutex is initialised.
early_test : (accept_step (refuses false) (accept_step (accepts 5) started)).acceptor ≡ undefined 5
unfolding started accept_step accept_from
early_test = refl

abbrev second : Rtcm
second = accept_step (refuses false) (accept_step (accepts 6) (send_step true first))

abbrev third : Rtcm
third =
    accept_step (refuses false)
      (accept_step (accepts 5) (accept_step (refuses false) (send_step false second)))

abbrev dropped : Rtcm
dropped = send_step true (send_step true third)

reused_test : (third.client ≡ some 5) × (dropped.client ≡ none) × (dropped.opened ≡ 6 ∷ [])
unfolding started start_receiver accept_step accept_from send_step send_from count remove close
reused_test = (refl, refl, refl)

-- The memory is freed, and then reads as if the clean-up had not begun.
abbrev over : Rtcm
over =
    accept_step (refuses true)
      (accept_step (refuses false) (stop_accepting (reuse true none true (free_gnss dropped))))

dropped-Reach : (r : Reach started dropped) × KeepsClient r
unfolding started start_receiver accept_step accept_from send_step send_from count remove close
    IsFresh
dropped-Reach =
    let s1 =
      accepting (accepting (accepting (starting here refl) (accepts 5) refl) (refuses false) tt)
        (refuses false) tt in
    let s2 = accepting (accepting (sending s1 true) (accepts 6) refl) (refuses false) tt in
    let s3 = accepting (accepting (sending s2 false) (refuses false) tt) (accepts 5) refl in
    (sending (sending (accepting s3 (refuses false) tt) true) true, tt)

over-Reach : (r : Reach started over) × KeepsClient r
unfolding IsFresh started start_receiver accept_step accept_from send_step send_from count remove
    close free_gnss
over-Reach =
    let freed = freeing dropped-Reach.0 refl in
    let left = reusing freed true none true refl in
    (
      accepting (accepting (stopping left) (refuses false) tt) (refuses true) tt,
      (dropped-Reach.1, refl),
    )

all_closed_example : IsClean (drop_client over)
unfolding started start_receiver accept_step accept_from send_step send_from count remove close
    stop_accepting free_gnss reuse
all_closed_example = all_closed over over-Reach.0 over-Reach.1 refl refl refl

-- A client that comes with the request to stop.
abbrev stopped : Rtcm
stopped = stop_accepting first

abbrev thrice : Rtcm
thrice = accept_step (refuses true) (accept_step (refuses true) (accept_step (accepts 7) stopped))

accept_thread_ends_test : thrice.acceptor ≡ ended
unfolding stop_accepting accept_step accept_from start_receiver started
accept_thread_ends_test =
    accept_thread_ends stopped (accepts 7) (refuses true) (refuses true) tt refl refl
