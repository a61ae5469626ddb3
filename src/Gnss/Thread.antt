-- ===== src/Gnss/Thread.antt =====
-- One round of the thread of src/gnss.c: an epoch, another message or a timeout of the serial link.
-- The library's EPOCH_FIX_TIME and UBX_MON_RF_V0_ANTPOWER_OFF are parameters.
use oscillatord.Base.{
  ℕ, Bool, false, ◌&&◌, Option, none, some, List, [], ◌∷◌, ◌++◌, ltb, leb, ◌==◌, if◌then◌else◌,
}
use oscillatord.Base.Int.{ℤ, pos, negsuc, ltb_ℤ}
use oscillatord.Gnss.Session.{
  Session, Message, mon_rf, nav_timels, tim_tp, tim_svin, other_message, Epoch,
}
use oscillatord.Gnss.Messages.{parse_nav_timels, parse_tim_tp, on_tim_svin, get_antenna_data}

-- The signals of the two conditions, the latch of a fix for the PPS thread, and the serial link.
pub data Signal : Type 0 where
  cond_data cond_time : Signal
  latch_fix : ℤ → Signal
  reset_link : Signal

-- NO_FIX
abbrev pub no_fix : ℕ
no_fix = 1

unfoldable pub reset_navigation : Session → Session
reset_navigation s = record s { valid = false; satellites_count = 0; fix = no_fix; fix_ok = false }

-- NUM_SAT_MIN
abbrev pub num_sat_min : ℕ
num_sat_min = 3

abbrev pub get_satellites : Epoch → ℕ
get_satellites e = elim e.num_sv [ none ↦ 0 | some n ↦ n ]

abbrev pub accuracy : Option ℤ → ℤ
accuracy none = negsuc 0
accuracy (some a) = a

module _ (fix_time : ℕ) where
  -- The fix of an epoch. Without one, `valid` is left as it was.
  unfoldable pub set_fix : Session → Epoch → Session
  set_fix s e =
      if e.have_fix
      then (let ok = e.fix_ok && ltb num_sat_min s.satellites_count in
          record s {
            last_fix_utc_time = e.utc_time;
            fix = e.fix;
            fix_ok = ok;
            valid = leb fix_time e.fix && ok;
          })
      else record s { fix = no_fix; fix_ok = false }

  -- `ntp_latch`
  unfoldable pub latch : Session → Epoch → List Signal
  latch s e =
      if e.have_fix && ltb_ℤ (pos 0) s.last_fix_utc_time
      then latch_fix s.last_fix_utc_time ∷ []
      else []

  unfoldable pub on_epoch : Session → Epoch → Session × List Signal
  unfolding set_fix latch
  on_epoch s e =
      let t = set_fix (record s { satellites_count = get_satellites e }) e in
      let u = record t {
        position_accuracy = accuracy e.pos_acc;
        time_accuracy = accuracy e.time_acc;
      } in
      (u, latch u e ++ (cond_data ∷ (if u.tai_time_set then cond_time ∷ [] else [])))

module _ (power_off : ℕ) where
  unfoldable pub on_message : Session → Message → Session × List Signal
  unfolding reset_navigation on_tim_svin
  on_message s (mon_rf g) =
      let t = get_antenna_data s g in
      if t.antenna_power == power_off then (reset_navigation t, cond_data ∷ []) else (t, [])
  on_message s (nav_timels g) = (record s { context = parse_nav_timels s.context g }, [])
  on_message s (tim_tp g) = (parse_tim_tp s g, [])
  on_message s (tim_svin g) = (on_tim_svin s g, [])
  on_message s other_message = (s, [])

unfoldable pub on_timeout : Session → Session × List Signal
unfolding reset_navigation
on_timeout s = (reset_navigation s, reset_link ∷ cond_data ∷ [])

-- What a round of the thread finds on the serial link.
pub data Input : Type 0 where
  epoch : Epoch → Input
  message : Message → Input
  timeout : Input

module _ (fix_time power_off : ℕ) where
  unfoldable pub on_input : Session → Input → Session × List Signal
  unfolding on_epoch on_message on_timeout
  on_input s (epoch e) = on_epoch fix_time s e
  on_input s (message g) = on_message power_off s g
  on_input s timeout = on_timeout s

  -- The session after any number of rounds.
  unfoldable pub run : Session → List Input → Session
  run s [] = s
  run s (i ∷ is) = run (on_input s i).0 is

-- `gnss_get_epoch_data`, once woken: the flags of validity and of the survey, and the quantization
-- error of the epoch before.
unfoldable pub get_epoch_data : Session → Bool × Bool × ℤ
get_epoch_data s = (s.valid, s.survey_completed, s.context.q_err_last_epoch)
