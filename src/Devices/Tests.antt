-- ===== src/Devices/Tests.antt =====
-- The search for devices of common/config.c at concrete inputs.
use oscillatord.Base.{ℕ, ◌≡◌, refl, ◌↔◌, none, some, List, [], ◌∷◌, ◌++◌}
use oscillatord.Base.Int.{ℤ, negsuc}
use oscillatord.Base.CError.{e_inval, success}
use oscillatord.Base.Text.{c_string}
use oscillatord.Devices.{
  link, content, Entry, dir, node, Listing, no_more, entry, slash, join_path, last_token, dev_slash,
  find_dev_path, find_in, find_file, DevicesPath, mro50_name, ptp_name, pps_name, tty_name,
  tty_gnss_name, tty_mac_name, temperature_table_name, is_device, one_device, fill_from,
  fill_tty_devices, set_path, discover_from, opens, refuses, discover,
}
use oscillatord.Devices.Located.{Finds, find_file-Finds}
use oscillatord.Devices.Discovered.{
  last_named, path_or, Discoverable, discover-result, discover-paths,
}
use oscillatord.Devices.RealPath.{find_dev_path-name}

-- A card: a real path /x/ttyS4 behind the name of the receiver, and the PTP clock.
abbrev tty_s4 : List ℕ
tty_s4 = b't' ∷ b't' ∷ b'y' ∷ b'S' ∷ b'4' ∷ []

abbrev receiver : Entry
receiver = node tty_gnss_name (link ((slash ∷ b'x' ∷ []) ++ slash ∷ tty_s4))

abbrev mac : Entry
mac = node tty_mac_name (content (b'm' ∷ 0 ∷ []))

abbrev ttys : Listing
ttys = entry (dir (b'.' ∷ []) no_more) (entry receiver (entry mac no_more))

abbrev table : Entry
table = node temperature_table_name (content [])

abbrev card : Listing
card =
    entry (node ptp_name (link (slash ∷ b'p' ∷ [])))
      (entry (dir tty_name ttys) (entry table no_more))

abbrev no_paths : DevicesPath
no_paths = record {
  mro_path = [];
  ptp_path = [];
  pps_path = [];
  gnss_path = [];
  mac_path = [];
  disciplining_config_path = [];
  temperature_table_path = [];
}

abbrev root : List ℕ
root = slash ∷ b's' ∷ []

card_test : discover (some root) (opens card) (some card) no_paths ≡ (
  success,
  record no_paths {
    ptp_path = dev_slash ++ b'p' ∷ [];
    gnss_path = dev_slash ++ tty_s4;
    mac_path = dev_slash ++ b'm' ∷ [];
    temperature_table_path = join_path root temperature_table_name;
  },
)
unfolding discover discover_from set_path fill_tty_devices fill_from one_device is_device
    find_dev_path last_token c_string find_file find_in
card_test = refl

-- Without the other device, the search ends at the directory `tty`.
deaf_test :
    (discover (some root) (opens (entry (dir tty_name (entry mac no_more)) card)) none no_paths).0
    ≡ e_inval
unfolding discover discover_from set_path fill_tty_devices fill_from one_device is_device
    find_dev_path last_token c_string find_file find_in
deaf_test = refl

-- Without a directory, or with one that is locked.
unset_test : (discover none (opens card) none no_paths).0 ≡ e_inval
unfolding discover
unset_test = refl

locked_test : (discover (some root) (refuses 12) none no_paths).0 ≡ negsuc 12
unfolding discover
locked_test = refl

abbrev out : ℤ × DevicesPath
out = discover (some root) (opens card) (some card) no_paths

discover-result_example : (out.0 ≡ success) ↔ Discoverable (some root) (opens card)
discover-result_example = discover-result (some root) (opens card) (some card) no_paths

discover-paths_example :
    (out.1.mro_path ≡ path_or [] (last_named mro50_name card))
    × (out.1.ptp_path ≡ path_or [] (last_named ptp_name card))
    × (out.1.pps_path ≡ path_or [] (last_named pps_name card))
unfolding discover discover_from set_path fill_tty_devices fill_from one_device is_device
    find_dev_path last_token c_string find_file find_in
discover-paths_example = discover-paths root card (some card) no_paths refl

find_file-Finds_example :
    Finds tty_mac_name root (some card) (find_file root (some card) tty_mac_name)
find_file-Finds_example = find_file-Finds root tty_mac_name (some card)

find_dev_path-name_example : find_dev_path receiver ≡ dev_slash ++ tty_s4
find_dev_path-name_example =
    find_dev_path-name tty_gnss_name (slash ∷ b'x' ∷ []) b't' (b't' ∷ b'y' ∷ b'S' ∷ b'4' ∷ [])
      (refl, (refl, (refl, (refl, (refl, tt)))))
