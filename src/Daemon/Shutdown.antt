-- ===== src/Daemon/Shutdown.antt =====
-- `main` of src/oscillatord.c after its loop.
use oscillatord.Base.{Bool, true, false, ◌||◌, List, [], ◌∷◌, ◌++◌, if◌then◌else◌}
use oscillatord.Daemon.{Modes}
use oscillatord.Daemon.Startup.{Effect, open_clock, start_pps}

pub data Undo : Type 0 where
  disable_pps stop_pps stop_gnss join_save stop_phasemeter get_parameters : Undo
  save_parameters destroy_od stop_monitoring close_clock destroy_oscillator : Undo
  cleanup_config : Undo

-- `return EXIT_SUCCESS`, or `pthread_join` of a thread that was never created, which is undefined.
pub data End : Type 0 where
  returned joins_nothing : List Undo → End

abbrev pub any {ℓ} : {A : Type ℓ} → (A → Bool) → List A → Bool
any p [] = false
any p (x ∷ xs) = p x || any p xs

abbrev pub is_pps : Effect → Bool
is_pps start_pps = true
is_pps _ = false

abbrev pub is_clock : Effect → Bool
is_clock open_clock = true
is_clock _ = false

abbrev pub only : Undo → Bool → List Undo
only u true = u ∷ []
only u false = []

-- From the end of the loop to the end of the `if (disciplining_mode)` up to `pthread_join`.
unfoldable pub stop_inputs : List Effect → List Undo
stop_inputs es = disable_pps ∷ only stop_pps (any is_pps es) ++ stop_gnss ∷ []

-- The rest of the `if (disciplining_mode)`; `got` is whether `od_get_disciplining_parameters`
-- succeeds.
unfoldable pub stop_disciplining : Bool → List Undo
stop_disciplining got =
    join_save ∷ stop_phasemeter ∷ get_parameters ∷ only save_parameters got ++ destroy_od ∷ []

-- What is left, with the `close` of `fd_cleanup` as `main` returns.
unfoldable pub stop_rest : Modes → List Effect → List Undo
stop_rest m es =
    only stop_monitoring m.monitoring
    ++ (only close_clock (any is_clock es)
        ++ destroy_oscillator ∷ cleanup_config ∷ close_clock ∷ [])

-- After a start-up with these effects; `has_thread` is whether a saving thread was ever created.
unfoldable pub shut_down : Modes → List Effect → Bool → Bool → End
unfolding stop_inputs stop_disciplining stop_rest
shut_down m es has_thread got =
    if m.disciplining
    then (if has_thread
        then returned (stop_inputs es ++ (stop_disciplining got ++ stop_rest m es))
        else joins_nothing (stop_inputs es))
    else returned (stop_inputs es ++ stop_rest m es)
