-- ===== src/Devices/Located.antt =====
-- What `find_file` of common/utils.c finds.
use oscillatord.Base.{
  ℕ, ◌≡◌, refl, sym, ap, ◌≢◌, ◌⊎◌, inl, inr, Bool, true, false, Option, none, some, List, arith,
  if◌then◌else◌, Option-cases,
}
use oscillatord.Config.{same_text}
use oscillatord.Devices.{
  Node, Entry, dir, locked, node, Listing, no_more, entry, join_path, is_dots, find_in, find_file,
}
use mathlib.Core.Path.{subst}

-- A file of that name, with its path, somewhere below a directory. Entries `.` and `..` and directories
-- that cannot be opened are not looked into.
pub data Located (name : List ℕ) : List ℕ → Listing → List ℕ → Type 0 where
  here :
      {path n : List ℕ} {x : Node} {rest : Listing}
      → is_dots n ≡ false
      → same_text n name ≡ true
      → Located name path (entry (node n x) rest) (join_path path n)
  below :
      {path n p : List ℕ} {sub rest : Listing}
      → is_dots n ≡ false
      → Located name (join_path path n) sub p
      → Located name path (entry (dir n sub) rest) p
  later :
      {path p : List ℕ} {e : Entry} {rest : Listing}
      → Located name path rest p
      → Located name path (entry e rest) p

if-some :
    {u v : Option (List ℕ)} {p : List ℕ} (b : Bool)
    → (if b then u else v) ≡ some p
    → ((b ≡ true) × (u ≡ some p)) ⊎ ((b ≡ false) × (v ≡ some p))
if-some true h = inl (refl, h)
if-some false h = inr (refl, h)

abbrev first : Option (List ℕ) → Option (List ℕ) → Option (List ℕ)
first o more = elim o [ none ↦ more | some p ↦ some p ]

first-some :
    {more : Option (List ℕ)} {p : List ℕ} (o : Option (List ℕ))
    → first o more ≡ some p
    → (o ≡ some p) ⊎ (more ≡ some p)
first-some none h = inr h
first-some (some q) h = inl h

first-left : (o more : Option (List ℕ)) → o ≢ none → first o more ≢ none
first-left none more n h = n refl
first-left (some q) more n h = n h

first-right : (o more : Option (List ℕ)) → more ≢ none → first o more ≢ none
first-right none more n h = n h
first-right (some q) more n h = ground arith

module _ (name : List ℕ) where
  find_in-Located :
      (path : List ℕ) (l : Listing) (p : List ℕ)
      → find_in path l name ≡ some p
      → Located name path l p
  unfolding find_in
  find_in-Located path no_more p h = absurd (ground (arith, h))
  find_in-Located path (entry (dir n sub) rest) p h = elim (if-some (is_dots n) h) [
    | inl (d, g) ↦ later (find_in-Located path rest p g)
    | inr (d, g) ↦ elim (first-some (find_in (join_path path n) sub name) g) [
      | inl q ↦ below d (find_in-Located (join_path path n) sub p q)
      | inr q ↦ later (find_in-Located path rest p q)
    ]
  ]
  find_in-Located path (entry (locked n) rest) p h = later (find_in-Located path rest p h)
  find_in-Located path (entry (node n x) rest) p h = elim (if-some (is_dots n) h) [
    | inl (d, g) ↦ later (find_in-Located path rest p g)
    | inr (d, g) ↦ elim (if-some (same_text n name) g) [
      | inl (s, q) ↦
          subst (λ t. Located name path (entry (node n x) rest) t)
            (ap (λ o. elim o [ none ↦ path | some t ↦ t ]) q) (here d s)
      | inr (s, q) ↦ later (find_in-Located path rest p q)
    ]
  ]

  later_found :
      (path : List ℕ) (e : Entry) (rest : Listing)
      → find_in path rest name ≢ none
      → find_in path (entry e rest) name ≢ none
  unfolding find_in
  later_found path (dir n sub) rest h =
      elim (is_dots n)
        as (λ b.
          (if b
            then find_in path rest name
            else first (find_in (join_path path n) sub name) (find_in path rest name))
          ≢ none) [
            | true ↦ h
            | false ↦ first-right (find_in (join_path path n) sub name) (find_in path rest name) h
          ]
  later_found path (locked n) rest h = h
  later_found path (node n x) rest h = ground arith

  Located-found :
      {path p : List ℕ} {l : Listing} → Located name path l p → find_in path l name ≢ none
  unfolding find_in
  Located-found (here {path} {n} {x} {rest} d s) = ground arith
  Located-found (below {path} {n} {p} {sub} {rest} d q) =
      let g = Located-found q in
      rw d (first-left (find_in (join_path path n) sub name) (find_in path rest name) g)
  Located-found (later {path} {p} {e} {rest} q) = later_found path e rest (Located-found q)

-- What a result says of what `opendir` gave: a file of the name is there, or none that can be
-- reached is.
abbrev pub Finds : List ℕ → List ℕ → Option Listing → Option (List ℕ) → Type 0
Finds name path none none = Unit
Finds name path none (some p) = ⊥
Finds name path (some l) none = (p : List ℕ) → ¬ Located name path l p
Finds name path (some l) (some p) = Located name path l p

-- A path that `find_file` gives is that of a file of the name below the directory, reached through
-- directories that `opendir` opens; if it gives none, either the directory itself cannot be opened,
-- or there is no such file that can be reached so.
pub find_file-Finds :
    (path name : List ℕ) (d : Option Listing) → Finds name path d (find_file path d name)
unfolding find_file
find_file-Finds path name none = tt
find_file-Finds path name (some l) = elim (Option-cases (find_in path l name)) [
  | inl e ↦ subst (Finds name path (some l)) (sym e) (λ p q. Located-found name q e)
  | inr (p, e) ↦ subst (Finds name path (some l)) (sym e) (find_in-Located name path l p e)
]
