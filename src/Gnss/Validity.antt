-- ===== src/Gnss/Validity.antt =====
-- What the flags that src/gnss.c hands out mean.
use oscillatord.Base.{
  ℕ, ◌≤◌, ◌≡◌, refl, ◌≢◌, ◌↔◌, ◌⊎◌, Bool, true, false, Option, none, some, List, [], ◌∷◌, arith,
  ◌==◌, if◌then◌else◌,
}
use oscillatord.Gnss.Session.{
  Session, AntennaBlock, mon_rf, nav_timels, tim_tp, tim_svin, other_message, Epoch,
}
use oscillatord.Gnss.Messages.{parse_tim_tp, svin_min_dur, worse, scan_blocks, get_antenna_data}
use oscillatord.Gnss.Thread.{
  Signal, cond_data, no_fix, on_epoch, Input, epoch, message, timeout, on_input, run,
  get_epoch_data,
}

-- `cond_data` is signalled.
abbrev pub wakes : List Signal → Bool
wakes [] = false
wakes (cond_data ∷ ss) = true
wakes (_ ∷ ss) = wakes ss

module _ (fix_time : ℕ) where
  -- An epoch without a fix leaves the validity of the one before: the main loop is told that GNSS
  -- is valid, and is woken, though the session has no fix.
  pub no_fix-keeps_valid :
      (s : Session) (e : Epoch)
      → e.have_fix ≡ false
      → let (t, signals) = on_epoch fix_time s e in
        ((get_epoch_data t).0 ≡ s.valid)
        × (t.fix ≡ no_fix)
        × (t.fix_ok ≡ false)
        × (wakes signals ≡ true)
  unfolding get_epoch_data on_epoch
  no_fix-keeps_valid s e h = ground arith

-- The survey is only ever completed, and stays so.
abbrev pub SurveyOf : Session → Session → Type 0
SurveyOf s t =
    (t.bypass_survey ≡ s.bypass_survey)
    × ((s.survey_completed ≡ false) ⊎ (t.survey_completed ≡ true))
    × ((t.survey_completed ≡ s.survey_completed) ⊎ (s.bypass_survey ≡ false))

-- A survey that is over: not active, long enough and valid.
abbrev pub Surveyed : Input → Type 0
Surveyed (message (tim_svin g)) =
    (g.is_whole ≡ true) × (g.is_active ≡ false) × (svin_min_dur ≤ g.dur) × (g.is_valid ≡ true)
Surveyed _ = ⊥

module _ (fix_time power_off : ℕ) where
  on_input-SurveyOf : (s : Session) (i : Input) → SurveyOf s (on_input fix_time power_off s i).0
  unfolding on_input parse_tim_tp get_antenna_data
  on_input-SurveyOf s (epoch e) = ground arith
  on_input-SurveyOf s (message g) = ground arith
  on_input-SurveyOf s timeout = ground arith

  -- The survey becomes completed only by a message that says so.
  pub on_input-survey :
      (s : Session) (i : Input)
      → s.survey_completed ≡ false
      → s.bypass_survey ≡ false
      → ((on_input fix_time power_off s i).0.survey_completed ≡ true) ↔ Surveyed i
  unfolding on_input parse_tim_tp get_antenna_data
  on_input-survey s (epoch e) h b = ground arith
  on_input-survey s (message (mon_rf g)) h b = ground arith
  on_input-survey s (message (nav_timels g)) h b = ground arith
  on_input-survey s (message (tim_tp g)) h b = ground arith
  on_input-survey s (message (tim_svin g)) h b = ground arith
  on_input-survey s (message other_message) h b = ground arith
  on_input-survey s timeout h b = ground arith

  -- A completed survey stays completed, through timeouts and lost fixes too.
  pub run-survey_stays :
      (s : Session) (is : List Input)
      → s.survey_completed ≡ true
      → (get_epoch_data (run fix_time power_off s is)).1 ≡ true
  unfolding run get_epoch_data
  run-survey_stays s [] h = h
  run-survey_stays s (i ∷ is) h =
      run-survey_stays (on_input fix_time power_off s i).0 is
        (ground (arith, on_input-SurveyOf s i))

-- The first value that is not 2 (OK), if any.
abbrev pub first_not_ok : List ℕ → Option ℕ
first_not_ok [] = none
first_not_ok (n ∷ ns) = if n == 2 then first_not_ok ns else some n

abbrev pub statuses : List AntennaBlock → List ℕ
statuses [] = []
statuses (b ∷ bs) = b.ant_status ∷ statuses bs

abbrev pub Defined : List AntennaBlock → Type 0
Defined [] = Unit {0}
Defined (b ∷ bs) = (b.ant_status ≢ 5) × Defined bs

abbrev or_ok : Option ℕ → ℕ
or_ok none = 2
or_ok (some n) = n

worse_stays : (n m : ℕ) → n ≢ 2 → n ≢ 5 → worse n m ≡ n
worse_stays n m h k = ground arith

scan_stays : (n p : ℕ) (bs : List AntennaBlock) → n ≢ 2 → n ≢ 5 → (scan_blocks n p bs).0 ≡ n
unfolding scan_blocks
scan_stays n p [] h k = refl
scan_stays n p (b ∷ bs) h k =
    ground (arith, worse_stays n b.ant_status h k, scan_stays n (worse p b.ant_power) bs h k)

scan_ok :
    (p : ℕ) (bs : List AntennaBlock)
    → Defined bs
    → (scan_blocks 2 p bs).0 ≡ or_ok (first_not_ok (statuses bs))
unfolding scan_blocks
scan_ok p [] d = refl
scan_ok p (b ∷ bs) d =
    ground (
      arith,
      scan_ok (worse p b.ant_power) bs d.1,
      scan_stays b.ant_status (worse p b.ant_power) bs,
    )

-- The antenna is reported OK exactly where every block is; else the first block that is not OK is
-- reported. The message is whole and has a block, and no block has the undefined status 5.
pub antenna_worst :
    (s : Session) (b : AntennaBlock) (bs : List AntennaBlock)
    → Defined (b ∷ bs)
    → (get_antenna_data s (record { is_whole = true; blocks = b ∷ bs })).antenna_status
      ≡ or_ok (first_not_ok (statuses (b ∷ bs)))
unfolding get_antenna_data scan_blocks
antenna_worst s b bs d =
    ground (
      arith,
      scan_ok (worse 5 b.ant_power) bs d.1,
      scan_stays b.ant_status (worse 5 b.ant_power) bs,
    )
