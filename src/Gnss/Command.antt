-- ===== src/Gnss/Command.antt =====
-- The commands of the main thread to the thread of src/gnss.c.
use oscillatord.Base.{Bool, true, false, Option, none, some, List, [], ◌∷◌, if◌then◌else◌}

-- `enum gnss_action`
pub data GnssAction : Type 0 where
  no_action start stop soft hard cold reset_serial : GnssAction

-- The actions that `gnss_set_action` accepts.
abbrev pub is_settable : GnssAction → Bool
is_settable start = true
is_settable stop = true
is_settable soft = true
is_settable hard = true
is_settable cold = true
is_settable _ = false

-- `gnss->action` before and after; `none` is a NULL `gnss`.
unfoldable pub set_action : Option GnssAction → GnssAction → Option GnssAction
set_action none a = none
set_action (some old) a = if is_settable a then some a else some old

-- The resets of the receiver that the thread may ask of the `ubloxcfg` library.
pub data Reset : Type 0 where
  rx_gnss_start rx_gnss_stop rx_soft rx_hard rx_cold : Reset

pub data Command : Type 0 where
  rx_reset : Reset → Command
  reopen_serial : Command

-- The end of one round of the thread: it takes the action and resets it, then performs it.
abbrev pub perform : GnssAction → List Command
perform no_action = []
perform start = rx_reset rx_gnss_start ∷ []
perform stop = rx_reset rx_gnss_stop ∷ []
perform soft = rx_reset rx_soft ∷ []
perform hard = rx_reset rx_hard ∷ []
perform cold = rx_reset rx_cold ∷ []
perform reset_serial = reopen_serial ∷ []

unfoldable pub take_action : GnssAction → GnssAction × List Command
take_action a = (no_action, perform a)
