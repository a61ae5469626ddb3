-- ===== src/Gnss/Start.antt =====
-- `gnss_init` and `gnss_stop` of src/gnss.c, and the calls they make on sockets, threads and the
-- memory, in their order.
pub mod Joined
pub mod Socket
mod Tests
use oscillatord.Base.{
  ℕ, Bool, true, false, not, ◌&&◌, ◌||◌, Option, none, some, List, [], ◌∷◌, ◌++◌, if◌then◌else◌,
}
use oscillatord.Base.Int.{ℤ, negsuc}
use oscillatord.Config.{get_bool_default}
use oscillatord.Gnss.Receiver.{connect, set_configuration}
use oscillatord.Gnss.Version.{parse_receiver_version}

-- The answers of the system and of the receiver to `gnss_init`. `version` is the text of
-- `rxGetVerStr`, none if it fails; `rtcm_key` what is configured as `gnss-rtcm-enabled`.
pub record Boot : Type 0 where
  pub has_session : Bool
  pub allocated : Bool
  pub rx_made : Bool
  pub opens : ℕ → Bool
  pub version : Option (List ℕ)
  pub configured : Bool
  pub sets : ℕ → Bool
  pub resets : Bool
  pub rtcm_key : Option (List ℕ)
  pub rtcm_set : Bool
  pub socket : Bool
  pub binds : Bool
  pub listens : Bool
  pub accept_thread : Bool
  pub bypass_key : Option (List ℕ)
  pub starts : Bool
  pub thread : Bool

pub data Effect : Type 0 where
  open_socket close_socket shut_socket unlink_socket : Effect
  start_accept join_accept : Effect
  init_mutex start_thread join_thread : Effect
  close_rx free_rx free_gnss exit : Effect

-- The fields that `gnss_init` sets for the rest of the program.
pub record Gnss : Type 0 where
  pub version_major : ℤ
  pub version_minor : ℤ
  pub rtcm_enabled : Bool
  pub is_listening : Bool
  pub accept_running : Bool
  pub bypass_survey : Bool

-- `rtcm_sock_create`: whether it gives a descriptor.
unfoldable pub rtcm_sock_create : Boot → Bool × List Effect
rtcm_sock_create a =
    if not a.socket
    then (false, [])
    else if not a.binds
    then (false, open_socket ∷ unlink_socket ∷ close_socket ∷ [])
    else if not a.listens
    then (false, open_socket ∷ unlink_socket ∷ close_socket ∷ unlink_socket ∷ [])
    else (true, open_socket ∷ unlink_socket ∷ [])

-- The listening socket and its thread: the descriptor, `rtcm_accept_running`.
unfoldable pub start_accepting : Boot → Bool × Bool × List Effect
start_accepting a =
    let (fd, made) = rtcm_sock_create a in
    if not fd
    then (false, false, made)
    else if a.accept_thread
    then (true, true, made ++ start_accept ∷ [])
    else (false, false, made ++ close_socket ∷ unlink_socket ∷ [])

-- The RTCM output, if configured.
unfoldable pub start_rtcm : Boot → Gnss → Gnss × List Effect
start_rtcm a g =
    if get_bool_default a.rtcm_key false && a.rtcm_set
    then (let (listening, running, made) = start_accepting a in
        (
          record g { rtcm_enabled = true; is_listening = listening; accept_running = running },
          made,
        ))
    else (g, [])

-- The version of the receiver: -1 as long as none was read.
unfoldable pub read_version : Option (List ℕ) → ℤ × ℤ
read_version none = (negsuc 0, negsuc 0)
read_version (some text) =
    let (ok, major, minor) = parse_receiver_version (some text) (negsuc 0) (negsuc 0) in
    (major, minor)

unfoldable pub new_gnss : Boot → Gnss
new_gnss a =
    let (major, minor) = read_version a.version in
    record {
      version_major = major;
      version_minor = minor;
      rtcm_enabled = false;
      is_listening = false;
      accept_running = false;
      bypass_survey = get_bool_default a.bypass_key false;
    }

-- What `gnss_init` returns: NULL, nothing as it ends the program, or a session.
pub data Init : Type 0 where
  null : Init
  exits : List Effect → Init
  started : Gnss → List Effect → Init

-- The label `err_gnss_connect`.
abbrev fails_after : List Effect → Init
fails_after made = exits (made ++ free_rx ∷ free_gnss ∷ exit ∷ [])

-- From the start of the receiver on.
unfoldable pub start_threads : Boot → Gnss → List Effect → Init
start_threads a g made =
    if not a.starts
    then fails_after made
    else if a.thread
    then started g (made ++ init_mutex ∷ start_thread ∷ [])
    else fails_after (made ++ init_mutex ∷ close_rx ∷ [])

unfoldable pub init : Boot → Init
init a =
    if not a.has_session || not a.allocated
    then null
    else if not a.rx_made
    then exits (free_gnss ∷ exit ∷ [])
    else if not (connect a.opens).0 || not (set_configuration a.configured a.sets a.resets).0
    then fails_after []
    else (let (g, made) = start_rtcm a (new_gnss a) in start_threads a g made)

-- `rtcm_sock_cleanup`, without the client.
unfoldable pub rtcm_sock_cleanup : Gnss → List Effect
rtcm_sock_cleanup g =
    (if g.is_listening then shut_socket ∷ close_socket ∷ [] else [])
    ++ join_accept ∷ unlink_socket ∷ []

-- `gnss_stop`, with what the thread of the receiver does at its end. That thread frees `gnss`, and
-- the lines after the join read its fields all the same: `left` is what they then read.
unfoldable pub stop : Gnss → List Effect
stop left =
    close_rx
    ∷ free_rx
    ∷ free_gnss
    ∷ join_thread
    ∷ (if left.rtcm_enabled then rtcm_sock_cleanup left else [])
