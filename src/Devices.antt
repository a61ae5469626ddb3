-- ===== src/Devices.antt =====
-- The search for the devices of the card in sysfs: `find_dev_path` and `find_file` of common/utils.c,
-- `fill_tty_devices` and `config_discover_devices` of common/config.c. The buffers for paths are
-- taken to be long enough.
pub mod Located
pub mod Filled
pub mod Discovered
pub mod RealPath
mod Tests
use oscillatord.Base.{
  ℕ, ◌+◌, Bool, not, ◌&&◌, ◌||◌, Option, none, some, List, [], ◌∷◌, ◌++◌, ltb, ◌==◌, if◌then◌else◌,
  take,
}
use oscillatord.Base.Int.{ℤ, negsuc}
use oscillatord.Base.CError.{e_inval, success}
use oscillatord.Base.Text.{c_string}
use oscillatord.Config.{same_text, is_empty}

-- What a name in a directory stands for: a symbolic link with its real path, or a file with the
-- bytes that `fread` gives of it.
pub data Node : Type 0 where
  link : List ℕ → Node
  content : List ℕ → Node

-- What `readdir` gives: a directory with its entries, one that `opendir` refuses, or another entry.
mutual
  pub data Entry : Type 0 where
    dir : List ℕ → Listing → Entry
    locked : List ℕ → Entry
    node : List ℕ → Node → Entry

  pub data Listing : Type 0 where
    no_more : Listing
    entry : Entry → Listing → Listing

-- `d_name`
abbrev pub d_name : Entry → List ℕ
d_name (dir n sub) = n
d_name (locked n) = n
d_name (node n x) = n

abbrev pub slash : ℕ
slash = b'/'

-- `"%s/%s"`
abbrev pub join_path : List ℕ → List ℕ → List ℕ
join_path path name = path ++ slash ∷ name

-- The last token that `strtok(dev_realpath, "/")` gives: none of them is empty. The first argument
-- is the token so far, the second the last one that ended.
unfoldable pub last_token : List ℕ → List ℕ → List ℕ → List ℕ
last_token now last [] = if is_empty now then last else now
last_token now last (c ∷ cs) =
    let ends = c == slash in
    last_token (if ends then [] else now ++ c ∷ [])
      (if ends && not (is_empty now) then now else last) cs

-- The size of `dev_name`.
abbrev pub dev_name_size : ℕ
dev_name_size = 100

-- `/dev/`
abbrev pub dev_slash : List ℕ
dev_slash = slash ∷ b'd' ∷ b'e' ∷ b'v' ∷ slash ∷ []

-- `find_dev_path`. A directory has no bytes to read.
unfoldable pub find_dev_path : Entry → List ℕ
find_dev_path (node n (link real_path)) =
    dev_slash ++ take dev_name_size (last_token [] [] real_path)
find_dev_path (node n (content bytes)) = dev_slash ++ c_string (take dev_name_size bytes)
find_dev_path (dir n sub) = dev_slash
find_dev_path (locked n) = dev_slash

-- `.` and `..`
abbrev pub is_dots : List ℕ → Bool
is_dots n = same_text n (b'.' ∷ []) || same_text n (b'.' ∷ b'.' ∷ [])

-- The loop of `find_file` over a directory that is open: the path found.
unfoldable pub find_in : List ℕ → Listing → List ℕ → Option (List ℕ)
find_in path no_more name = none
find_in path (entry (dir n sub) rest) name =
    let more = find_in path rest name in
    let below = find_in (join_path path n) sub name in
    if is_dots n then more else elim below [ none ↦ more | some p ↦ some p ]
find_in path (entry (locked n) rest) name = find_in path rest name
find_in path (entry (node n x) rest) name =
    let more = find_in path rest name in
    if is_dots n then more else if same_text n name then some (join_path path n) else more

-- `find_file`, where `opendir` gives the directory or refuses it.
unfoldable pub find_file : List ℕ → Option Listing → List ℕ → Option (List ℕ)
unfolding find_in
find_file path none name = none
find_file path (some l) name = find_in path l name

-- `struct devices_path`: the paths that a search sets, empty at first.
pub record DevicesPath : Type 0 where
  pub mro_path : List ℕ
  pub ptp_path : List ℕ
  pub pps_path : List ℕ
  pub gnss_path : List ℕ
  pub mac_path : List ℕ
  pub disciplining_config_path : List ℕ
  pub temperature_table_path : List ℕ

abbrev pub mro50_name : List ℕ
mro50_name = b'm' ∷ b'r' ∷ b'o' ∷ b'5' ∷ b'0' ∷ []

abbrev pub ptp_name : List ℕ
ptp_name = b'p' ∷ b't' ∷ b'p' ∷ []

abbrev pub pps_name : List ℕ
pps_name = b'p' ∷ b'p' ∷ b's' ∷ []

abbrev pub tty_name : List ℕ
tty_name = b't' ∷ b't' ∷ b'y' ∷ []

abbrev pub tty_gnss_name : List ℕ
tty_gnss_name = tty_name ++ b'G' ∷ b'N' ∷ b'S' ∷ b'S' ∷ []

abbrev pub tty_mac_name : List ℕ
tty_mac_name = tty_name ++ b'M' ∷ b'A' ∷ b'C' ∷ []

abbrev pub disciplining_config_name : List ℕ
disciplining_config_name =
    b'd' ∷ b'i' ∷ b's' ∷ b'c' ∷ b'i' ∷ b'p' ∷ b'l' ∷ b'i' ∷ b'n' ∷ b'i' ∷ b'n' ∷ b'g' ∷ b'_' ∷ b'c'
    ∷ b'o' ∷ b'n' ∷ b'f' ∷ b'i' ∷ b'g' ∷ []

abbrev pub temperature_table_name : List ℕ
temperature_table_name =
    b't' ∷ b'e' ∷ b'm' ∷ b'p' ∷ b'e' ∷ b'r' ∷ b'a' ∷ b't' ∷ b'u' ∷ b'r' ∷ b'e' ∷ b'_' ∷ b't' ∷ b'a'
    ∷ b'b' ∷ b'l' ∷ b'e' ∷ []

unfoldable pub is_device : Entry → Bool
is_device e = same_text (d_name e) tty_gnss_name || same_text (d_name e) tty_mac_name

unfoldable pub one_device : Entry → DevicesPath → DevicesPath
one_device e dp =
    if same_text (d_name e) tty_gnss_name
    then record dp { gnss_path = find_dev_path e }
    else if same_text (d_name e) tty_mac_name
    then record dp { mac_path = find_dev_path e }
    else dp

-- The loop of `fill_tty_devices` with `ret` devices found: it stops at two.
unfoldable pub fill_from : ℕ → Listing → DevicesPath → ℕ × DevicesPath
fill_from ret no_more dp = (ret, dp)
fill_from ret (entry e rest) dp =
    let next = fill_from (if is_device e then ret + 1 else ret) rest (one_device e dp) in
    if ltb ret 2 then next else (ret, dp)

unfoldable pub fill_tty_devices : Listing → DevicesPath → ℕ × DevicesPath
fill_tty_devices sub dp = fill_from 0 sub dp

abbrev or_kept : List ℕ → Option (List ℕ) → List ℕ
or_kept kept none = kept
or_kept kept (some p) = p

-- The directory `tty`: what it lists, nothing if it cannot be opened.
abbrev pub tty_dir : Entry → Option Listing
tty_dir (dir n sub) = if same_text n tty_name then some sub else none
tty_dir (locked n) = if same_text n tty_name then some no_more else none
tty_dir (node n x) = none

-- What `find_file` finds of the directory `sysfs_path` when it opens it again is `top`.
module _ (sysfs_path : List ℕ) (top : Option Listing) where
  -- The names that only set a path.
  unfoldable pub set_path : Entry → DevicesPath → DevicesPath
  set_path e dp =
      if same_text (d_name e) mro50_name
      then record dp { mro_path = find_dev_path e }
      else if same_text (d_name e) ptp_name
      then record dp { ptp_path = find_dev_path e }
      else if same_text (d_name e) pps_name
      then record dp { pps_path = find_dev_path e }
      else if same_text (d_name e) tty_gnss_name
      then record dp { gnss_path = find_dev_path e }
      else if same_text (d_name e) tty_mac_name
      then record dp { mac_path = find_dev_path e }
      else if same_text (d_name e) disciplining_config_name
      then record dp {
        disciplining_config_path =
            or_kept dp.disciplining_config_path (find_file sysfs_path top disciplining_config_name);
      }
      else if same_text (d_name e) temperature_table_name
      then record dp {
        temperature_table_path =
            or_kept dp.temperature_table_path (find_file sysfs_path top temperature_table_name);
      }
      else dp

  -- The loop of `config_discover_devices`: its result and `*devices_path`.
  unfoldable pub discover_from : Listing → DevicesPath → ℤ × DevicesPath
  discover_from no_more dp = (success, dp)
  discover_from (entry e rest) dp = elim (tty_dir e) [
    | none ↦ discover_from rest (set_path e dp)
    | some sub ↦
        (let filled = fill_tty_devices sub dp in
          let next = discover_from rest filled.1 in
          if filled.0 == 2 then next else (e_inval, filled.1))
  ]

-- What `opendir` gives: the entries, or the error of which it leaves the number less one.
pub data Opening : Type 0 where
  opens : Listing → Opening
  refuses : ℕ → Opening

-- `config_discover_devices`: `sysfs-path` as it is configured, what `opendir` gives of it, and what
-- it gives when `find_file` opens it again.
unfoldable pub discover : Option (List ℕ) → Opening → Option Listing → DevicesPath → ℤ × DevicesPath
unfolding discover_from
discover none o again dp = (e_inval, dp)
discover (some sysfs_path) (refuses n) again dp = (negsuc n, dp)
discover (some sysfs_path) (opens top) again dp = discover_from sysfs_path again top dp
