-- ===== src/Daemon/Iterate.antt =====
-- One iteration, and runs, of the main loop of src/oscillatord.c.
use oscillatord.Base.{Bool, true, false, List, [], ◌∷◌, if◌then◌else◌}
use oscillatord.Daemon.{
  Loop, Modes, Answers, Call, push_gnss_info, Flow, falls, continues, breaks, exits, ◌>>=◌,
}
use oscillatord.Daemon.Discipline.{read_attributes, read_ctrl, discipline}
use oscillatord.Daemon.Requests.{exchange}

-- `gnss_get_fix_info` and `oscillator_push_gnss_info`, for an oscillator that disciplines itself.
abbrev pub push_fix : Modes → Loop → Flow × List Call
push_fix m s = (falls s, if m.phase_error_supported then push_gnss_info ∷ [] else [])

-- The half of the body for monitoring only, where a failed read ends the program.
unfoldable pub monitor_only : Modes → Answers → Loop → Flow × List Call
unfolding read_attributes read_ctrl
monitor_only m a s = read_attributes exits a s >>= push_fix m >>= read_ctrl a

unfoldable pub iterate : Modes → Answers → Loop → Flow × List Call
unfolding discipline monitor_only exchange
iterate m a s = (if m.disciplining then discipline m a s else monitor_only m a s) >>= exchange m a

-- `while (loop)` over what each iteration is told. The state where the loop was left, if it was
-- left before the answers ran out, and the calls of each iteration.
pub record Run : Type 0 where
  pub last : Loop
  pub left : Bool
  pub calls : List (List Call)

abbrev pub add_calls : List Call → Run → Run
add_calls cs r = record r { calls = cs ∷ r.calls }

abbrev pub left_at : Loop → Run
left_at s = record { last = s; left = true; calls = [] }

abbrev pub follow : Flow × List Call → (Loop → Run) → Run
follow (falls s, cs) k = add_calls cs (k s)
follow (continues s, cs) k = add_calls cs (k s)
follow (breaks s, cs) k = add_calls cs (left_at s)
follow (exits s, cs) k = add_calls cs (left_at s)

unfoldable pub run : Modes → List Answers → Loop → Run
run m [] s = record { last = s; left = false; calls = [] }
run m (a ∷ rest) s = follow (iterate m a s) (run m rest)
