-- ===== src/Devices/Filled.antt =====
-- What `fill_tty_devices` of common/config.c counts and leaves alone.
use oscillatord.Base.{
  ℕ, ◌+◌, ◌≤◌, ◌<◌, ◌≡◌, refl, sym, ◌∙◌, ◌↔◌, inl, inr, Bool, true, false, Option, none, some, List,
  [], ◌∷◌, arith, ltb, if◌then◌else◌, ltb→lt, Bool-cases,
}
use oscillatord.Config.{same_text}
use oscillatord.Devices.{
  Entry, dir, locked, node, Listing, no_more, entry, d_name, DevicesPath, tty_name, is_device,
  one_device, fill_from, tty_dir,
}
use mathlib.Core.Path.{subst}

-- How many entries are named `ttyGNSS` or `ttyMAC`.
abbrev pub devices_in : Listing → ℕ
devices_in no_more = 0
devices_in (entry e rest) = (if is_device e then 1 else 0) + devices_in rest

-- Each directory `tty` has two of them.
abbrev pub TwoDevices : Option Listing → Type 0
TwoDevices none = Unit
TwoDevices (some sub) = 2 ≤ devices_in sub

abbrev pub AllTwoDevices : Listing → Type 0
AllTwoDevices no_more = Unit
AllTwoDevices (entry e rest) = TwoDevices (tty_dir e) × AllTwoDevices rest

bounded :
    (ret w : ℕ) (next : ℕ × DevicesPath) (dp : DevicesPath)
    → ret ≤ 2
    → (ret < 2 → (next.0 ≡ 2) ↔ (2 ≤ ret + w))
    → ((if ltb ret 2 then next else (ret, dp)).0 ≡ 2) ↔ (2 ≤ ret + w)
bounded ret w next dp h f = elim (Bool-cases (ltb ret 2)) [
  | inl e ↦ rw e (f (ltb→lt ret 2 e))
  | inr e ↦ rw e ((λ p. omega (arith, p)), (λ p. ground arith))
]

added : (b : Bool) (ret w : ℕ) → (if b then ret + 1 else ret) + w ≡ ret + ((if b then 1 else 0) + w)
added b ret w = ground arith

added_bound : (b : Bool) (ret : ℕ) → ret < 2 → (if b then ret + 1 else ret) ≤ 2
added_bound b ret h = ground arith

same_text_eq : (n m : List ℕ) → same_text n m ≡ true → n ≡ m
same_text_eq [] [] h = refl
same_text_eq [] (b ∷ m) h = absurd (ground (arith, h))
same_text_eq (a ∷ n) [] h = absurd (ground (arith, h))
same_text_eq (a ∷ n) (b ∷ m) h = ground (arith, same_text_eq n m)

pub fill_from-count :
    (ret : ℕ) (sub : Listing) (dp : DevicesPath)
    → ret ≤ 2
    → ((fill_from ret sub dp).0 ≡ 2) ↔ (2 ≤ ret + devices_in sub)
unfolding fill_from
fill_from-count ret no_more dp h = ground arith
fill_from-count ret (entry e rest) dp h =
    let r = if is_device e then ret + 1 else ret in
    let same = added (is_device e) ret (devices_in rest) in
    bounded ret (devices_in (entry e rest)) _ dp h (λ l.
      (let ih = fill_from-count r rest (one_device e dp) (added_bound (is_device e) ret l) in
        ((λ q. omega (arith, ih.0 q, same)), (λ q. ih.1 (omega (arith, q, same))))))

-- A search of the directory `tty` sets two paths only.
pub fill_from-keeps :
    (get : DevicesPath → List ℕ)
    → ((e : Entry) (dp : DevicesPath) → get (one_device e dp) ≡ get dp)
    → (ret : ℕ) (sub : Listing) (dp : DevicesPath) → get (fill_from ret sub dp).1 ≡ get dp
unfolding fill_from
fill_from-keeps get k ret no_more dp = refl
fill_from-keeps get k ret (entry e rest) dp =
    let ih =
      fill_from-keeps get k (if is_device e then ret + 1 else ret) rest (one_device e dp)
      ∙ k e dp in
    elim (ltb ret 2)
      as (λ b.
        get
          (if b
            then fill_from (if is_device e then ret + 1 else ret) rest (one_device e dp)
            else (ret, dp)).1
        ≡ get dp) [ true ↦ ih | false ↦ refl ]

pub same_text_apart :
    (n a b : List ℕ) → same_text n a ≡ true → same_text a b ≡ false → same_text n b ≡ false
same_text_apart n a b h k = subst (λ m. same_text m b ≡ false) (sym (same_text_eq n a h)) k

pub tty_dir-name :
    (e : Entry) (sub : Listing) → tty_dir e ≡ some sub → same_text (d_name e) tty_name ≡ true
tty_dir-name (dir n sub) t h = ground arith
tty_dir-name (locked n) t h = ground arith
tty_dir-name (node n x) t h = absurd (ground (arith, h))
