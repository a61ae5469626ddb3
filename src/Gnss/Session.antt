-- ===== src/Gnss/Session.antt =====
-- src/gnss.h and src/gnss.c: the data of the GNSS receiver's session, and the messages and epochs
-- as the `ubloxcfg` library decodes them. `is_whole` of a message is the source's test of its size.
use oscillatord.Base.{ℕ, Bool, Option, List}
use oscillatord.Base.Int.{ℤ}

-- LEAP_NOWARNING, LEAP_ADDSECOND, LEAP_DELSECOND
pub data Leap : Type 0 where
  no_warning add_second del_second : Leap

-- The part of `struct gps_context_t` that the thread writes.
pub record Context : Type 0 where
  pub q_err : ℤ
  pub q_err_last_epoch : ℤ
  pub leap_seconds : ℤ
  pub lsset : Bool
  pub ls_change : ℤ
  pub time_to_ls_event : ℤ
  pub leap_notify : Leap

-- `struct gps_device_t`. `survey_in_mean_v` is the variance that `survey_in_position_error`, a
-- float, is computed from: `none` is its first value, -1.0.
pub record Session : Type 0 where
  pub context : Context
  pub last_fix_utc_time : ℤ
  pub fix : ℕ
  pub fix_ok : Bool
  pub antenna_status : ℕ
  pub antenna_power : ℕ
  pub valid : Bool
  pub tai_time_set : Bool
  pub tai_time : ℤ
  pub satellites_count : ℕ
  pub bypass_survey : Bool
  pub survey_completed : Bool
  pub survey_in_mean_v : Option ℕ
  pub position_accuracy : ℤ
  pub time_accuracy : ℤ

-- UBX-NAV-TIMELS, with the two flags of `valid` that are read.
pub record NavTimels : Type 0 where
  pub is_whole : Bool
  pub curr_ls_valid : Bool
  pub curr_ls : ℤ
  pub event_valid : Bool
  pub time_to_ls_event : ℤ
  pub ls_change : ℤ

-- UBX-TIM-TP: the time base of `flags`, and the constellation of `refInfo`.
pub data TimeBase : Type 0 where
  gnss_base utc_base other_base : TimeBase

pub data TimeRef : Type 0 where
  gps bds gal glo other_ref : TimeRef

pub record TimTp : Type 0 where
  pub is_whole : Bool
  pub tow_ms : ℕ
  pub week : ℕ
  pub q_err : ℤ
  pub time_base : TimeBase
  pub time_ref : TimeRef

-- UBX-TIM-SVIN
pub record TimSvin : Type 0 where
  pub is_whole : Bool
  pub dur : ℕ
  pub mean_v : ℕ
  pub is_valid : Bool
  pub is_active : Bool

-- UBX-MON-RF: the antenna blocks that lie whole in the message.
pub record AntennaBlock : Type 0 where
  pub ant_status : ℕ
  pub ant_power : ℕ

pub record MonRf : Type 0 where
  pub is_whole : Bool
  pub blocks : List AntennaBlock

-- A message that completes no epoch, by its class and identifier.
pub data Message : Type 0 where
  mon_rf : MonRf → Message
  nav_timels : NavTimels → Message
  tim_tp : TimTp → Message
  tim_svin : TimSvin → Message
  other_message : Message

-- `EPOCH_t`: a `have` flag of the library and what it guards are an option. `utc_time` is what
-- `mktime` makes of the date, and the accuracies are in their units.
pub record Epoch : Type 0 where
  pub num_sv : Option ℕ
  pub have_fix : Bool
  pub utc_time : ℤ
  pub fix : ℕ
  pub fix_ok : Bool
  pub pos_acc : Option ℤ
  pub time_acc : Option ℤ
