-- ===== src/Daemon/Unsaved.antt =====
-- The end of src/oscillatord.c before any parameters were saved.
use oscillatord.Base.{
  ℕ, ◌+◌, ◌<◌, ◌≡◌, refl, sym, ap, ◌∙◌, ◌≢◌, Bool, true, false, List, [], ◌∷◌, ◌++◌, arith,
  if◌then◌else◌,
}
use oscillatord.Structs.{Action, Request, save_eeprom}
use oscillatord.Daemon.{
  Loop, Modes, Answers, Call, spawn_save, Flow, falls, continues, breaks, exits, ◌>>=◌,
}
use oscillatord.Daemon.Discipline.{
  apply_action, run_process, update_sec, save_periodically, prepare, finish, discipline,
}
use oscillatord.Daemon.Requests.{handle_request, monitored_attributes, exchange}
use oscillatord.Daemon.Iterate.{monitor_only, iterate, Run, follow, run}
use oscillatord.Daemon.Process.{state_of}
use oscillatord.Daemon.Startup.{Effect}
use oscillatord.Daemon.Shutdown.{joins_nothing, any, stop_inputs, shut_down}
use mathlib.Core.Path.{subst}

abbrev pub is_spawn : Call → Bool
is_spawn spawn_save = true
is_spawn _ = false

-- Whether a saving thread was created in any of the iterations.
abbrev pub has_thread : List (List Call) → Bool
has_thread calls = any (any is_spawn) calls

-- Nothing asks for the parameters to be saved: less than an hour has passed, and no client did.
abbrev pub Unasked : ℕ → Answers → Type 0
Unasked start_save a = (a.now < start_save + update_sec) × (a.request ≢ save_eeprom)

abbrev pub AllUnasked : ℕ → List Answers → Type 0
AllUnasked start_save [] = Unit
AllUnasked start_save (a ∷ rest) = Unasked start_save a × AllUnasked start_save rest

-- A part of an iteration that starts no thread, and leaves the time of the last save alone.
abbrev Quiet : ℕ → Flow × List Call → Type 0
Quiet k (w, cs) = ((state_of w).start_save ≡ k) × (any is_spawn cs ≡ false)

any-append-false {ℓ} :
    {A : Type ℓ} (p : A → Bool) (xs ys : List A)
    → any p xs ≡ false
    → any p ys ≡ false
    → any p (xs ++ ys) ≡ false
any-append-false p [] ys h k = k
any-append-false p (x ∷ xs) ys h k = ground (arith, h, any-append-false p xs ys)

bind-Quiet :
    (k : ℕ) (x : Flow × List Call) (f : Loop → Flow × List Call)
    → Quiet k x
    → ((t : Loop) → t.start_save ≡ k → Quiet k (f t))
    → Quiet k (x >>= f)
bind-Quiet k (falls t, cs) f h g =
    ((g t h.0).0, any-append-false is_spawn cs (f t).1 h.1 (g t h.0).1)
bind-Quiet k (continues t, cs) f h g = h
bind-Quiet k (breaks t, cs) f h g = h
bind-Quiet k (exits t, cs) f h g = h

module _ (m : Modes) (a : Answers) (k : ℕ) (early : a.now < k + update_sec) where
  prepare-Quiet : (s : Loop) → s.start_save ≡ k → Quiet k (prepare a s)
  unfolding prepare
  prepare-Quiet s h = ground arith

  run_process-Quiet : (s : Loop) → s.start_save ≡ k → Quiet k (run_process m a s)
  unfolding run_process
  run_process-Quiet s h = ground arith

  apply_action-Quiet :
      (action : Action) (s : Loop) → s.start_save ≡ k → Quiet k (apply_action a action s)
  unfolding apply_action
  apply_action-Quiet action s h = ground arith

  save_periodically-Quiet : (s : Loop) → s.start_save ≡ k → Quiet k (save_periodically a s)
  unfolding save_periodically
  save_periodically-Quiet s h = ground arith

  finish-Quiet : (s : Loop) → s.start_save ≡ k → Quiet k (finish a s)
  unfolding finish
  finish-Quiet s h =
      bind-Quiet k (apply_action a s.output.action s) (save_periodically a)
        (apply_action-Quiet s.output.action s h) save_periodically-Quiet

  discipline-Quiet : (s : Loop) → s.start_save ≡ k → Quiet k (discipline m a s)
  unfolding discipline
  discipline-Quiet s h =
      bind-Quiet k (prepare a s >>= run_process m a) (finish a)
        (bind-Quiet k (prepare a s) (run_process m a) (prepare-Quiet s h) run_process-Quiet)
        finish-Quiet

  handle_request-Quiet :
      (r : Request) (s : Loop)
      → r ≢ save_eeprom
      → s.start_save ≡ k
      → ((handle_request r s).0.start_save ≡ k) × (any is_spawn (handle_request r s).1 ≡ false)
  unfolding handle_request
  handle_request-Quiet r s n h = ground arith

  exchange-Quiet :
      a.request ≢ save_eeprom → (s : Loop) → s.start_save ≡ k → Quiet k (exchange m a s)
  unfolding exchange
  exchange-Quiet n s h =
      let o = monitored_attributes m a s.attributes in
      ground (arith, handle_request-Quiet a.request (record s { attributes = o }) n h)

  iterate-Quiet :
      a.request ≢ save_eeprom
      → m.disciplining ≡ true
      → (s : Loop) → s.start_save ≡ k
      → Quiet k (iterate m a s)
  unfolding iterate
  iterate-Quiet n d s h =
      bind-Quiet k (if m.disciplining then discipline m a s else monitor_only m a s) (exchange m a)
        (subst (λ b. Quiet k (if b then discipline m a s else monitor_only m a s)) (sym d)
          (discipline-Quiet s h))
        (exchange-Quiet n)

follow-unspawned :
    (k : ℕ) (x : Flow × List Call) (g : Loop → Run)
    → Quiet k x
    → ((t : Loop) → t.start_save ≡ k → has_thread (g t).calls ≡ false)
    → has_thread (follow x g).calls ≡ false
follow-unspawned k (falls t, cs) g h f = ground (arith, h.1, f t h.0)
follow-unspawned k (continues t, cs) g h f = ground (arith, h.1, f t h.0)
follow-unspawned k (breaks t, cs) g h f = ground (arith, h.1)
follow-unspawned k (exits t, cs) g h f = ground (arith, h.1)

run-unspawned :
    (m : Modes) (k : ℕ) (answers : List Answers) (s : Loop)
    → m.disciplining ≡ true
    → s.start_save ≡ k
    → AllUnasked k answers
    → has_thread (run m answers s).calls ≡ false
unfolding run
run-unspawned m k [] s d h u = refl
run-unspawned m k (a ∷ rest) s d h u =
    follow-unspawned k (iterate m a s) (run m rest) (iterate-Quiet m a k u.0.0 u.0.1 d s h)
      (λ t e. run-unspawned m k rest t d e u.1)

unthreaded :
    (m : Modes) (es : List Effect) (got : Bool)
    → m.disciplining ≡ true
    → shut_down m es false got ≡ joins_nothing (stop_inputs es)
unfolding shut_down
unthreaded m es got d = ground (arith, d)

-- In disciplining mode, when the loop is left within an hour of the start and no client has asked for
-- a save, however often and with whatever outcome it ran, the program joins a thread that was never
-- created, before it has read and saved the parameters and stopped the phasemeter.
pub early_end :
    (m : Modes) (answers : List Answers) (s : Loop) (es : List Effect) (got : Bool)
    → m.disciplining ≡ true
    → AllUnasked s.start_save answers
    → shut_down m es (has_thread (run m answers s).calls) got ≡ joins_nothing (stop_inputs es)
early_end m answers s es got d u =
    ap (λ t. shut_down m es t got) (run-unspawned m s.start_save answers s d refl u)
    ∙ unthreaded m es got d
