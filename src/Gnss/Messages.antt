-- ===== src/Gnss/Messages.antt =====
-- The parsers of src/gnss.c: what each message of the receiver writes into the session.
use oscillatord.Base.{
  ℕ, ◌+◌, ◌-◌, ◌*◌, ◌/◌, ◌^◌, true, not, ◌&&◌, ◌||◌, Option, none, some, List, [], ◌∷◌, ltb, leb,
  ◌==◌, if◌then◌else◌,
}
use oscillatord.Base.Int.{ℤ, pos, negsuc, ◌+ℤ◌, ◌-ℤ◌, abs, ltb_ℤ, eqb_ℤ}
use oscillatord.Gnss.Session.{
  no_warning, add_second, del_second, Context, Session, NavTimels, gnss_base, utc_base, other_base,
  TimeRef, gps, bds, gal, glo, other_ref, TimTp, TimSvin, AntennaBlock, MonRf,
}
use oscillatord.Base.Words.{to_int32}

-- Leap seconds. A change of more than one second is announced by no warning of its own.
unfoldable pub parse_nav_timels : Context → NavTimels → Context
parse_nav_timels c g =
    if g.is_whole
    then (let known = record c {
      leap_seconds = if g.curr_ls_valid then g.curr_ls else pos 0;
      lsset = g.curr_ls_valid;
    } in
        if g.event_valid
        then record known {
          time_to_ls_event = g.time_to_ls_event;
          ls_change = g.ls_change;
          leap_notify =
              if not (eqb_ℤ g.ls_change (pos 0))
                && (ltb_ℤ (pos 0) g.time_to_ls_event && ltb_ℤ g.time_to_ls_event (pos 82800))
              then (if eqb_ℤ g.ls_change (pos 1)
                  then add_second
                  else if eqb_ℤ g.ls_change (negsuc 0)
                  then del_second
                  else c.leap_notify)
              else no_warning;
        }
        else record known { time_to_ls_event = pos 0; ls_change = pos 0; leap_notify = no_warning })
    else record c { time_to_ls_event = pos 0; ls_change = pos 0; leap_notify = no_warning }

-- QERR_ABS_THRESHOLD_PS
abbrev pub q_err_threshold_ps : ℕ
q_err_threshold_ps = 5000

-- INT32_MIN, which has no absolute value in an `int`.
abbrev pub int32_min : ℤ
int32_min = negsuc (2 ^ 31 - 1)

-- `abs` of an `int32_t`.
abbrev pub abs32 : ℤ → ℤ
abs32 q = if eqb_ℤ q int32_min then q else pos (abs q)

-- An aberrant quantization error is ignored.
unfoldable pub filter_q_err : ℤ → ℤ
filter_q_err q = if ltb_ℤ (pos q_err_threshold_ps) (abs32 q) then pos 0 else q

-- The epochs of the constellations, in seconds of TAI.
abbrev pub gps_epoch_to_tai : ℕ
gps_epoch_to_tai = 315964819

abbrev pub gal_epoch_to_tai : ℕ
gal_epoch_to_tai = 619315200 + gps_epoch_to_tai

abbrev pub bds_epoch_to_tai : ℕ
bds_epoch_to_tai = 820108814 + gps_epoch_to_tai

abbrev pub glo_epoch_to_tai : ℕ
glo_epoch_to_tai = 315954019

abbrev pub sec_in_week : ℕ
sec_in_week = 604800

-- The `switch` on the constellation; `none` is an early return.
unfoldable pub gnss_offset : Context → TimeRef → Option ℤ
gnss_offset c gps = some (pos gps_epoch_to_tai)
gnss_offset c bds = some (pos bds_epoch_to_tai)
gnss_offset c gal = some (pos gal_epoch_to_tai)
gnss_offset c glo =
    if c.lsset then some (to_int32 (pos glo_epoch_to_tai +ℤ c.leap_seconds)) else none
gnss_offset c other_ref = none

unfoldable pub tai_offset : Context → TimTp → Option ℤ
tai_offset c g = elim g.time_base [
  | gnss_base ↦ gnss_offset c g.time_ref
  | utc_base ↦ if c.lsset then some (to_int32 (pos gps_epoch_to_tai +ℤ c.leap_seconds)) else none
  | other_base ↦ some (pos 0)
]

-- The conversion of a `double` to an `int`, which C leaves undefined out of its range: there it gives
-- INT32_MIN, as the instruction of x86 does.
abbrev pub to_int : ℤ → ℤ
to_int a = if ltb_ℤ a int32_min || ltb_ℤ (pos (2 ^ 31 - 1)) a then int32_min else a

-- The time of the pulse before the one that the message announces. The source rounds a `double`:
-- its error stays below a microsecond and the time of week is in whole milliseconds, so that the
-- rounding is the exact one. Negative times of week do not exist.
unfoldable pub tai_exact : ℕ → ℕ → ℤ → ℤ
tai_exact tow_ms week offset = pos ((tow_ms + 500) / 1000 + week * sec_in_week) +ℤ offset -ℤ pos 1

unfoldable pub tai_seconds : ℕ → ℕ → ℤ → ℤ
tai_seconds tow_ms week offset = to_int (tai_exact tow_ms week offset)

unfoldable pub set_tai : Session → TimTp → ℤ → Session
unfolding filter_q_err
set_tai s g offset = record s {
  tai_time = tai_seconds g.tow_ms g.week offset;
  tai_time_set = true;
  context = record (s.context) { q_err_last_epoch = s.context.q_err; q_err = filter_q_err g.q_err };
}

unfoldable pub parse_tim_tp : Session → TimTp → Session
unfolding set_tai
parse_tim_tp s g =
    if g.is_whole
    then elim (tai_offset s.context g) [ none ↦ s | some offset ↦ set_tai s g offset ]
    else s

-- `enum SurveyInState`
pub data SurveyInState : Type 0 where
  survey_in_ko survey_in_unknown survey_in_in_progress survey_in_completed : SurveyInState

-- SVIN_MIN_DUR and SVIN_MAX_DUR
abbrev pub svin_min_dur : ℕ
svin_min_dur = 1200

abbrev pub svin_max_dur : ℕ
svin_max_dur = svin_min_dur + 600

unfoldable pub parse_tim_svin : TimSvin → SurveyInState
parse_tim_svin g =
    if g.is_whole
    then (if not g.is_active && leb svin_min_dur g.dur
        then (if g.is_valid then survey_in_completed else survey_in_ko)
        else if ltb g.dur svin_max_dur
        then survey_in_in_progress
        else survey_in_ko)
    else survey_in_unknown

-- The `switch` of the thread on the survey, which latches its completion.
unfoldable pub on_tim_svin : Session → TimSvin → Session
unfolding parse_tim_svin
on_tim_svin s g =
    let t = if g.is_whole then record s { survey_in_mean_v = some g.mean_v } else s in
    if not t.survey_completed && not t.bypass_survey
    then elim (parse_tim_svin g) [
      | survey_in_completed ↦ record t { survey_completed = true }
      | _ ↦ t
    ]
    else t

-- The two updates of the loop over the antenna blocks: 5 is undefined, 2 is OK (or, of the power,
-- not known), and any other value replaces it.
abbrev pub worse : ℕ → ℕ → ℕ
worse old new = if old == 5 || (old == 2 && not (new == 2)) then new else old

unfoldable pub scan_blocks : ℕ → ℕ → List AntennaBlock → ℕ × ℕ
scan_blocks status power [] = (status, power)
scan_blocks status power (b ∷ bs) =
    scan_blocks (worse status b.ant_status) (worse power b.ant_power) bs

unfoldable pub get_antenna_data : Session → MonRf → Session
get_antenna_data s g =
    if g.is_whole
    then (let (status, power) = scan_blocks 5 5 g.blocks in
        record s { antenna_status = status; antenna_power = power })
    else s
