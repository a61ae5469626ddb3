-- ===== src/Sa3x/Locked.antt =====
-- The lock that src/oscillators/sa3x_oscillator.c reports.
use oscillatord.Base.{ℕ, ◌≤◌, ◌<◌, ◌≡◌, ◌≢◌, true, false, List, [], ◌∷◌, arith}
use oscillatord.Base.Int.{ℤ, pos, ltb_ℤ}
use oscillatord.Structs.{OscillatorAttributes}
use oscillatord.Sa3x.{Sa3x, new_sa3x, timediff, Scan, Telemetry, line, parse_attributes}
use mathlib.Core.Path.{subst}

-- A call of `parse_attributes`: the times, and what comes of the command.
pub record Reading : Type 0 where
  pub now : ℕ
  pub later : ℕ
  pub telemetry : Telemetry

-- `sscanf` reads a text, so that the character is not NUL.
abbrev pub GivesText : Telemetry → Type 0
GivesText (line l) = l.first ≢ 0
GivesText _ = Unit

abbrev pub AllGiveText : List Reading → Type 0
AllGiveText [] = Unit
AllGiveText (r ∷ rs) = GivesText r.telemetry × AllGiveText rs

module _ (settling_time : ℕ) (degrees : ℤ → ℕ) (minus_400 : ℕ) where
  -- The driver after the calls, and what the last one says.
  abbrev pub read_all : List Reading → Sa3x → OscillatorAttributes → OscillatorAttributes × Sa3x
  read_all [] s out = (out, s)
  read_all (r ∷ rs) s out =
      let (a, t) =
        parse_attributes settling_time degrees minus_400 r.now r.later r.telemetry s out in
      read_all rs t a

  bite_stays :
      (r : Reading) (s : Sa3x) (out : OscillatorAttributes)
      → GivesText r.telemetry
      → s.bite ≢ 0
      → ((parse_attributes settling_time degrees minus_400 r.now r.later r.telemetry s out).1.bite
          ≢ 0)
        × ((parse_attributes settling_time degrees minus_400 r.now r.later r.telemetry s
              out).0.locked
            ≡ false)
  unfolding parse_attributes
  bite_stays r s out h b = ground (arith, h, b)

  bite_read :
      (r : Reading) (l : Scan) (s : Sa3x) (out : OscillatorAttributes)
      → r.telemetry ≡ line l
      → l.first ≢ 0
      → ltb_ℤ l.scanned (pos 1) ≡ false
      → settling_time ≤ timediff r.now s.attr_time
      → ((parse_attributes settling_time degrees minus_400 r.now r.later r.telemetry s out).1.bite
          ≢ 0)
        × ((parse_attributes settling_time degrees minus_400 r.now r.later r.telemetry s
              out).0.locked
            ≡ false)
  unfolding parse_attributes
  bite_read r l s out e h k t = ground (arith, e, h, k, t)

  stays_unlocked :
      (rs : List Reading) (s : Sa3x) (out : OscillatorAttributes)
      → AllGiveText rs
      → s.bite ≢ 0
      → out.locked ≡ false
      → (read_all rs s out).0.locked ≡ false
  stays_unlocked [] s out h b l = l
  stays_unlocked (r ∷ rs) s out h b l =
      let (c, k) = bite_stays r s out h.0 b in
      let (a, t) =
        parse_attributes settling_time degrees minus_400 r.now r.later r.telemetry s out in
      stays_unlocked rs t a h.1 c k

  -- After a call that is made SETTLING_TIME or more after the last telemetry, and of whose line `sscanf`
  -- reads a value at least, the clock is never reported locked any more, whatever text it answers and
  -- whenever it is asked: the first character of a text, '0' where all is well, is not the number 0.
  pub never_locked :
      (r : Reading) (rs : List Reading) (l : Scan) (s : Sa3x) (out : OscillatorAttributes)
      → r.telemetry ≡ line l
      → AllGiveText (r ∷ rs)
      → ltb_ℤ l.scanned (pos 1) ≡ false
      → settling_time ≤ timediff r.now s.attr_time
      → (read_all (r ∷ rs) s out).0.locked ≡ false
  never_locked r rs l s out e h k t =
      let (b, c) = bite_read r l s out e (subst GivesText e h.0) k t in
      let (a, u) =
        parse_attributes settling_time degrees minus_400 r.now r.later r.telemetry s out in
      stays_unlocked rs u a h.1 b c

  -- Before that, a new driver that is asked within SETTLING_TIME of the start of the system's clock
  -- reports a locked clock without asking it.
  boot_locked :
      (r : Reading) (out : OscillatorAttributes)
      → r.now < settling_time
      → (read_all (r ∷ []) new_sa3x out).0.locked ≡ true
  unfolding parse_attributes
  boot_locked r out h = ground (arith, h)
