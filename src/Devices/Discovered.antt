-- ===== src/Devices/Discovered.antt =====
-- What `config_discover_devices` of common/config.c finds.
-- The last entry of a name in a directory.
use oscillatord.Base.{
  ℕ, ◌+◌, ◌≤◌, ◌≡◌, refl, sym, ap, ◌∙◌, ◌≢◌, ◌↔◌, Bool, true, false, Option, none, some, List,
  arith, ◌==◌, if◌then◌else◌, ==_iff,
}
use oscillatord.Base.Int.{ℤ, negsuc}
use oscillatord.Base.CError.{e_inval, success}
use oscillatord.Config.{same_text}
use oscillatord.Devices.{
  Entry, Listing, no_more, entry, d_name, find_dev_path, DevicesPath, mro50_name, ptp_name,
  pps_name, tty_name, one_device, fill_tty_devices, tty_dir, set_path, discover_from, Opening,
  opens, refuses, discover,
}
use oscillatord.Devices.Filled.{
  devices_in, TwoDevices, AllTwoDevices, fill_from-count, fill_from-keeps, same_text_apart,
  tty_dir-name,
}

abbrev pub last_named : List ℕ → Listing → Option Entry
last_named name no_more = none
last_named name (entry e rest) = elim (last_named name rest) [
  | some f ↦ some f
  | none ↦ if same_text (d_name e) name then some e else none
]

abbrev pub path_or : List ℕ → Option Entry → List ℕ
path_or kept none = kept
path_or kept (some e) = find_dev_path e

path_or-last :
    (b : Bool) (e : Entry) (kept : List ℕ) (o : Option Entry)
    → path_or (if b then find_dev_path e else kept) o
      ≡ path_or kept (elim o [ some f ↦ some f | none ↦ if b then some e else none ])
path_or-last b e kept (some f) = refl
path_or-last true e kept none = refl
path_or-last false e kept none = refl

if_success :
    (b : Bool) (u v : ℤ × DevicesPath)
    → v.0 ≢ success
    → (if b then u else v).0 ≡ success
    → (b ≡ true) × (u.0 ≡ success)
if_success true u v n h = (refl, h)
if_success false u v n h = absurd (n h)

if_both {ℓ} :
    {P : Type ℓ} (n k : ℕ) (u v : ℤ × DevicesPath)
    → ((n ≡ 2) ↔ (2 ≤ 0 + k))
    → ((u.0 ≡ success) ↔ P)
    → v.0 ≢ success
    → ((if n == 2 then u else v).0 ≡ success) ↔ ((2 ≤ k) × P)
if_both n k u v c i d = (
  (λ h.
      (let (b, g) = if_success (n == 2) u v d h in (omega (arith, c.0 ((==_iff n 2).0 b)), i.0 g))),
  (λ h. ap (λ b. (if b then u else v).0) ((==_iff n 2).1 (c.1 (omega (arith, h.0)))) ∙ i.1 h.1),
)

e_inval_fails : e_inval ≢ success
e_inval_fails h = ground (arith, h)

module _ (sysfs_path : List ℕ) (top : Option Listing) where
  -- A round of the loop, by what `tty_dir` says.
  abbrev round_of : Entry → Listing → DevicesPath → Option Listing → ℤ × DevicesPath
  round_of e rest dp t = elim t [
    | none ↦ discover_from sysfs_path top rest (set_path sysfs_path top e dp)
    | some sub ↦
        (let filled = fill_tty_devices sub dp in
          let next = discover_from sysfs_path top rest filled.1 in
          if filled.0 == 2 then next else (e_inval, filled.1))
  ]

  module _ (name : List ℕ) (get : DevicesPath → List ℕ) (is_apart : same_text tty_name name ≡ false)
      (sets : (e : Entry) (dp : DevicesPath)
        → get (set_path sysfs_path top e dp)
          ≡ (if same_text (d_name e) name then find_dev_path e else get dp))
      (keeps : (e : Entry) (dp : DevicesPath) → get (one_device e dp) ≡ get dp) where
    round_of-path :
        (e : Entry) (rest : Listing) (dp : DevicesPath)
        → ((dq : DevicesPath)
            → (discover_from sysfs_path top rest dq).0 ≡ success
            → get (discover_from sysfs_path top rest dq).1
              ≡ path_or (get dq) (last_named name rest))
        → (t : Option Listing) → tty_dir e ≡ t
        → (round_of e rest dp t).0 ≡ success
        → get (round_of e rest dp t).1 ≡ path_or (get dp) (last_named name (entry e rest))
    unfolding fill_tty_devices
    round_of-path e rest dp ih none q h =
        ih (set_path sysfs_path top e dp) h
        ∙ ap (λ k. path_or k (last_named name rest)) (sets e dp)
        ∙ path_or-last (same_text (d_name e) name) e (get dp) (last_named name rest)
    round_of-path e rest dp ih (some sub) q h =
        let filled = fill_tty_devices sub dp in
        let next = discover_from sysfs_path top rest filled.1 in
        let (b, g) = if_success (filled.0 == 2) next (e_inval, filled.1) e_inval_fails h in
        let last = last_named name rest in
        let other = same_text_apart (d_name e) tty_name name (tty_dir-name e sub q) is_apart in
        ap (λ c. get (if c then next else (e_inval, filled.1)).1) b
        ∙ ih filled.1 g
        ∙ ap (λ k. path_or k last) (fill_from-keeps get keeps 0 sub dp)
        ∙ path_or-last false e (get dp) last
        ∙ ap
            (λ c.
              path_or (get dp) (elim last [ some f ↦ some f | none ↦ if c then some e else none ]))
            (sym other)

    -- A path that is set for one name, by an entry that is not the directory `tty`.
    discover_from-path :
        (l : Listing) (dp : DevicesPath)
        → (discover_from sysfs_path top l dp).0 ≡ success
        → get (discover_from sysfs_path top l dp).1 ≡ path_or (get dp) (last_named name l)
    unfolding discover_from
    discover_from-path no_more dp h = refl
    discover_from-path (entry e rest) dp h =
        round_of-path e rest dp (discover_from-path rest) (tty_dir e) refl h

  discover_from-result :
      (l : Listing) (dp : DevicesPath)
      → ((discover_from sysfs_path top l dp).0 ≡ success) ↔ AllTwoDevices l
  unfolding discover_from fill_tty_devices
  discover_from-result no_more dp = ((λ h. tt), (λ h. refl))
  discover_from-result (entry e rest) dp =
      elim (tty_dir e)
        as (λ t. ((round_of e rest dp t).0 ≡ success) ↔ (TwoDevices t × AllTwoDevices rest)) [
          | none ↦
              (let ih = discover_from-result rest (set_path sysfs_path top e dp) in
                ((λ h. (tt, ih.0 h)), (λ h. ih.1 h.1)))
          | some sub ↦
              (let ih = discover_from-result rest (fill_tty_devices sub dp).1 in
                if_both _ (devices_in sub) _ _ (fill_from-count 0 sub dp (omega arith)) ih
                  e_inval_fails)
        ]

module _ (sysfs_path : List ℕ) (top : Option Listing) (e : Entry) (dp : DevicesPath) where
  set_path-mro :
      (set_path sysfs_path top e dp).mro_path
      ≡ (if same_text (d_name e) mro50_name then find_dev_path e else dp.mro_path)
  unfolding set_path
  set_path-mro = ground arith

  set_path-ptp :
      (set_path sysfs_path top e dp).ptp_path
      ≡ (if same_text (d_name e) ptp_name then find_dev_path e else dp.ptp_path)
  unfolding set_path
  set_path-ptp =
      let m = λ (h : same_text (d_name e) mro50_name ≡ true).
        same_text_apart (d_name e) mro50_name ptp_name h refl in
      ground (arith, m)

  set_path-pps :
      (set_path sysfs_path top e dp).pps_path
      ≡ (if same_text (d_name e) pps_name then find_dev_path e else dp.pps_path)
  unfolding set_path
  set_path-pps =
      let m = λ (h : same_text (d_name e) mro50_name ≡ true).
        same_text_apart (d_name e) mro50_name pps_name h refl in
      let p = λ (h : same_text (d_name e) ptp_name ≡ true).
        same_text_apart (d_name e) ptp_name pps_name h refl in
      ground (arith, m, p)

one_device-others :
    (e : Entry) (dp : DevicesPath)
    → ((one_device e dp).mro_path ≡ dp.mro_path)
      × ((one_device e dp).ptp_path ≡ dp.ptp_path)
      × ((one_device e dp).pps_path ≡ dp.pps_path)
unfolding one_device
one_device-others e dp = ground arith

-- The directory of the card is configured and opens, and each directory `tty` in it has two entries
-- named `ttyGNSS` or `ttyMAC`.
abbrev pub Discoverable : Option (List ℕ) → Opening → Type 0
Discoverable none o = ⊥
Discoverable (some sysfs_path) (refuses n) = ⊥
Discoverable (some sysfs_path) (opens top) = AllTwoDevices top

negsuc_fails : (n : ℕ) → negsuc n ≢ success
negsuc_fails n h = ground (arith, h)

-- `config_discover_devices` succeeds exactly if `sysfs-path` is configured, `opendir` opens it, and
-- each directory `tty` has two entries named `ttyGNSS` or `ttyMAC`, as a card without such a directory
-- does.
pub discover-result :
    (path : Option (List ℕ)) (o : Opening) (again : Option Listing) (dp : DevicesPath)
    → ((discover path o again dp).0 ≡ success) ↔ Discoverable path o
unfolding discover
discover-result none o again dp = ((λ h. absurd (e_inval_fails h)), (λ h. absurd h))
discover-result (some p) (refuses n) again dp = ((λ h. absurd (negsuc_fails n h)), (λ h. absurd h))
discover-result (some p) (opens top) again dp = discover_from-result p again top dp

-- When `config_discover_devices` succeeds on a directory, the paths of the oscillator, of the PTP
-- clock and of the PPS are those of the last entries of their names, or as they were if there is
-- none.
pub discover-paths :
    (p : List ℕ) (top : Listing) (again : Option Listing) (dp : DevicesPath)
    → (discover (some p) (opens top) again dp).0 ≡ success
    → (let found = (discover (some p) (opens top) again dp).1 in
        (found.mro_path ≡ path_or dp.mro_path (last_named mro50_name top))
        × (found.ptp_path ≡ path_or dp.ptp_path (last_named ptp_name top))
        × (found.pps_path ≡ path_or dp.pps_path (last_named pps_name top)))
unfolding discover
discover-paths p top again dp h = (
  discover_from-path p again mro50_name (λ d. d.mro_path) refl (set_path-mro p again)
      (λ e d. (one_device-others e d).0) top dp h,
  discover_from-path p again ptp_name (λ d. d.ptp_path) refl (set_path-ptp p again)
      (λ e d. (one_device-others e d).1) top dp h,
  discover_from-path p again pps_name (λ d. d.pps_path) refl (set_path-pps p again)
      (λ e d. (one_device-others e d).2) top dp h,
)
