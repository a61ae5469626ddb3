-- ===== src/Monitoring/Requests.antt =====
-- The requests of the clients of src/monitoring.c, and the answer to one. The assertion of
-- `on_peer_ready_send` on the number of the socket is in Monitoring/Server.antt, as `asserted`.
use oscillatord.Base.{ℕ, Bool, true, false, Option, none, some, List, [], ◌∷◌, if◌then◌else◌}
use oscillatord.Base.Text.{zeros, c_string}
use oscillatord.Base.Int.{ℤ, pos, eqb_ℤ}
use oscillatord.Structs.{
  Request, none_requested, calibration, gnss_start, gnss_stop, gnss_soft, gnss_hard, gnss_cold,
  read_eeprom, save_eeprom, fake_holdover_start, fake_holdover_stop, mro_coarse_inc, mro_coarse_dec,
  reset_ublox_serial,
}
use oscillatord.Monitoring.Peer.{
  initial_ack, wait_for_msg, sendbuf_size, Peer, FdStatus, fd_status_r, fd_status_w,
}
use Prim.Native.String.{String}

-- The number of a request in `enum monitoring_request`.
abbrev pub number : Request → ℕ
number none_requested = 0
number calibration = 1
number gnss_start = 2
number gnss_stop = 3
number gnss_soft = 4
number gnss_hard = 5
number gnss_cold = 6
number read_eeprom = 7
number save_eeprom = 8
number fake_holdover_start = 9
number fake_holdover_stop = 10
number mro_coarse_inc = 11
number mro_coarse_dec = 12
number reset_ublox_serial = 13

abbrev pub all_requests : List Request
all_requests =
    none_requested ∷ calibration ∷ gnss_start ∷ gnss_stop ∷ gnss_soft ∷ gnss_hard ∷ gnss_cold
    ∷ read_eeprom ∷ save_eeprom ∷ fake_holdover_start ∷ fake_holdover_stop ∷ mro_coarse_inc
    ∷ mro_coarse_dec ∷ reset_ublox_serial ∷ []

abbrev pub find_request : ℤ → List Request → Request
find_request n [] = none_requested
find_request n (r ∷ rs) = if eqb_ℤ n (pos (number r)) then r else find_request n rs

-- The cast of the client's number to the enumeration; a number with no name falls to `default`.
unfoldable pub request_of_int : ℤ → Request
request_of_int n = find_request n all_requests

-- What `json_handle_request` adds to the answer: the text under "Action requested", or the
-- parameters in the EEPROM (`none` if they cannot be read).
pub data Reply : Type 0 where
  action_requested : String → Reply
  disciplining_parameters : Bool → Reply

-- `json_handle_request`: the reply, and `monitoring->request` after it. `readable` says that
-- `read_disciplining_parameters_from_eeprom` succeeds.
unfoldable pub handle : Bool → Request → Request → Reply × Request
handle readable calibration old = (action_requested "calibration", calibration)
handle readable gnss_start old = (action_requested "GNSS start", gnss_start)
handle readable gnss_stop old = (action_requested "GNSS stop", gnss_stop)
handle readable gnss_soft old = (action_requested "GNSS soft", gnss_soft)
handle readable gnss_hard old = (action_requested "GNSS hard", gnss_hard)
handle readable gnss_cold old = (action_requested "GNSS cold", gnss_cold)
handle readable read_eeprom old = (disciplining_parameters readable, old)
handle readable save_eeprom old = (action_requested "Save EEPROM", save_eeprom)
handle readable fake_holdover_start old =
    (action_requested "Start fake holdover", fake_holdover_start)
handle readable fake_holdover_stop old = (action_requested "Stop fake holdover", fake_holdover_stop)
handle readable mro_coarse_inc old = (action_requested "MRO coarse inc", mro_coarse_inc)
handle readable mro_coarse_dec old = (action_requested "MRO coarse dec", mro_coarse_dec)
handle readable reset_ublox_serial old = (action_requested "Ublox Serial reset", reset_ublox_serial)
handle readable none_requested old = (action_requested "None", old)

-- `on_peer_ready_send`. `request_number s` is what the parser makes of the text: none if it is
-- refused, else the number under "request". `sent` says that `send` succeeds. The results are the
-- peer, its status, the reply if one was made, and `monitoring->request`.
module _ (request_number : List ℕ → Option ℤ) where
  abbrev pub after_send : Bool → Peer → Peer × FdStatus
  after_send true p = (
    record p {
      buf_ptr = 0;
      buf_end = 0;
      state = elim p.state [ initial_ack ↦ wait_for_msg | s ↦ s ];
    },
    fd_status_r,
  )
  after_send false p = (p, fd_status_w)

  unfoldable pub on_peer_ready_send :
      Bool → Bool → Peer → Request → (Peer × FdStatus) × Option Reply × Request
  unfolding handle request_of_int
  on_peer_ready_send readable sent p old =
      let q = record p { recv_buf = zeros sendbuf_size } in
      elim (request_number (c_string p.recv_buf)) [
        | none ↦ ((q, fd_status_w), none, old)
        | some n ↦
            (let (reply, new) = handle readable (request_of_int n) old in
              (after_send sent q, some reply, new))
      ]
