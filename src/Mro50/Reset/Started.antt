-- ===== src/Mro50/Reset/Started.antt =====
-- A device that says that it has started, and the reset in src/oscillators/mRo50_oscillator.c.
use oscillatord.Base.{
  ℕ, ◌+◌, ◌-◌, ◌<◌, ◌≡◌, refl, sym, ap, ◌∙◌, ◌≢◌, ◌⊎◌, inl, inr, Bool, true, false, List, [], ◌∷◌,
  ◌++◌, arith, Bool-cases, length, set, drop, length-append, length-set, set-append, length-drop,
}
use oscillatord.Base.Text.{c_string}
use oscillatord.Mro50.Serial.{mro_answer_len, arrived, gives, overwrite, byte}
use oscillatord.Mro50.Exchange.{take-all, overwrite-text, concat}
use oscillatord.Mro50.Reset.{
  Round, reset_timeout, started, contains, Next, goes_on, ends, examine, hear, round, rounds, reset,
  rounds-goes_on, rounds-ends, round-in_time,
}
use mathlib.Core.List.{append_assoc, append-nil}
use mathlib.Core.Path.{subst}

-- Text on one line: no byte of it is NUL or a line feed.
abbrev pub IsPlain : List ℕ → Type 0
IsPlain [] = Unit
IsPlain (c ∷ cs) = (c ≢ 0) × (c ≢ 10) × IsPlain cs

IsPlain-left : (xs ys : List ℕ) → IsPlain (xs ++ ys) → IsPlain xs
IsPlain-left [] ys h = tt
IsPlain-left (x ∷ xs) ys h = (h.0, h.1, IsPlain-left xs ys h.2)

-- Rounds in time in which these pieces arrive.
abbrev pub Arrives : ℕ → List Round → List (List ℕ) → Type 0
Arrives start [] [] = Unit
Arrives start [] (c ∷ cs) = ⊥
Arrives start (r ∷ rs) [] = ⊥
Arrives start (r ∷ rs) (c ∷ cs) =
    (r.now < start + reset_timeout) × (r.event ≡ arrived c) × Arrives start rs cs

c_string-plain : (ys r : List ℕ) → IsPlain ys → c_string (ys ++ 0 ∷ r) ≡ ys
unfolding c_string
c_string-plain [] r h = refl
c_string-plain (y ∷ ys) r h = ground (arith, h.0, c_string-plain ys r h.2)

byte-plain : (y : ℕ) (ys r : List ℕ) → IsPlain (y ∷ ys) → byte (y ∷ ys ++ r) (length ys) ≢ 10
byte-plain y [] r h = h.1
byte-plain y (z ∷ ys) r h = byte-plain z ys r h.2

last-plain :
    (y : ℕ) (ys r : List ℕ) → IsPlain (y ∷ ys) → byte (y ∷ ys ++ r) (length (y ∷ ys) - 1) ≢ 10
last-plain y ys r h =
    let e : length (y ∷ ys) - 1 ≡ length ys = omega arith in
    λ k. byte-plain y ys r h (sym (ap (byte (y ∷ ys ++ r)) e) ∙ k)

examine-goes_on :
    (w : Bool) (n : ℕ) (s t : List ℕ)
    → set s n 0 ≡ t
    → 0 < n
    → n < mro_answer_len
    → contains started (c_string t) ≡ false
    → byte t (n - 1) ≢ 10
    → examine w n s ≡ goes_on n t
unfolding examine
examine-goes_on w n s t e p q h l = ground (arith, e, p, q, h, l)

examine-ends :
    (w : Bool) (n : ℕ) (s t : List ℕ)
    → set s n 0 ≡ t
    → 0 < n
    → contains started (c_string t) ≡ true
    → examine w n s ≡ ends true (set t (n - 1) 0)
unfolding examine
examine-ends w n s t e p h = ground (arith, e, p, h)

-- What comes of a line so far: the end, or the same line in the buffer.
abbrev pub Follows : List ℕ → Next → Type 0
Follows ys o =
    ((t : List ℕ) × (o ≡ ends true t))
    ⊎ ((contains started ys ≡ false)
        × ((r : List ℕ) × (length (ys ++ r) ≡ mro_answer_len + 1)
            × (o ≡ goes_on (length ys) (ys ++ r))))

examine-Follows :
    (w : Bool) (ys r : List ℕ)
    → IsPlain ys
    → length ys < mro_answer_len
    → length (ys ++ r) ≡ mro_answer_len + 1
    → Follows ys (examine w (length ys) (ys ++ r))
unfolding examine contains
examine-Follows w [] r h l k = inr (refl, (r, k, refl))
examine-Follows w (y ∷ ys) [] h l k = absurd (omega (arith, l, k, length-append (y ∷ ys) []))
examine-Follows w (y ∷ ys) (b ∷ r) h l k =
    let zs = y ∷ ys in
    let e = set-append zs b r 0 in
    let text = c_string-plain zs r h in
    elim (Bool-cases (contains started zs)) [
      | inl c ↦ inl (
        set (zs ++ 0 ∷ r) (length zs - 1) 0,
        examine-ends w (length zs) (zs ++ b ∷ r) (zs ++ 0 ∷ r) e (omega arith)
            (ap (contains started) text ∙ c),
      )
      | inr c ↦ inr (
        c,
        (
          0 ∷ r,
          sym (ap length e) ∙ length-set (zs ++ b ∷ r) (length zs) 0 ∙ k,
          examine-goes_on w (length zs) (zs ++ b ∷ r) (zs ++ 0 ∷ r) e (omega arith) l
              (ap (contains started) text ∙ c) (last-plain y ys (0 ∷ r) h),
        ),
      )
    ]

-- A piece of the line.
hear-Follows :
    (w : Bool) (xs c r : List ℕ)
    → IsPlain (xs ++ c)
    → length (xs ++ c) < mro_answer_len
    → length (xs ++ r) ≡ mro_answer_len + 1
    → Follows (xs ++ c) (hear w (arrived c) (length xs) (xs ++ r))
unfolding hear overwrite
hear-Follows w xs c r h l k =
    let sum : length (xs ++ c) ≡ length xs + length c = length-append xs c in
    let all = take-all c (mro_answer_len - length xs) (omega (arith, l, sum)) in
    let heard : hear w (arrived c) (length xs) (xs ++ r)
        ≡ examine w (length (xs ++ c)) ((xs ++ c) ++ drop (length c) r) =
      ap (λ g. examine w (length xs + length g) (overwrite (xs ++ r) (length xs) g)) all
      ∙ ap (examine w (length xs + length c)) (overwrite-text xs c r)
      ∙ ap (λ n. examine w n ((xs ++ c) ++ drop (length c) r)) (sym sum) in
    subst (Follows (xs ++ c)) (sym heard) (
      examine-Follows w (xs ++ c) (drop (length c) r) h l (
        omega (
          arith,
          l,
          k,
          sum,
          length-append xs r,
          length-drop (length c) r,
          length-append (xs ++ c) (drop (length c) r),
        )))

rounds-started :
    (start : ℕ) (rs : List Round) (cs : List (List ℕ)) (xs r : List ℕ)
    → Arrives start rs cs
    → IsPlain (xs ++ concat cs)
    → length (xs ++ concat cs) < mro_answer_len
    → length (xs ++ r) ≡ mro_answer_len + 1
    → contains started xs ≡ false
    → contains started (xs ++ concat cs) ≡ true
    → (t : List ℕ) × (rounds start rs (length xs) (xs ++ r) ≡ gives true t)
rounds-started start [] [] xs r a p l k f c = let e = ap (contains started) (append-nil xs) in cc
rounds-started start [] (c ∷ cs) xs r a p l k f g = absurd a
rounds-started start (r ∷ rs) [] xs u a p l k f g = absurd a
rounds-started start (r ∷ rs) (c ∷ cs) xs u a p l k f h =
    let e : (xs ++ c) ++ concat cs ≡ xs ++ (c ++ concat cs) = append_assoc xs c (concat cs) in
    let next : round start r (length xs) (xs ++ u)
        ≡ hear r.is_rewritten (arrived c) (length xs) (xs ++ u) =
      round-in_time start r (length xs) (xs ++ u) a.0
      ∙ ap (λ e. hear r.is_rewritten e (length xs) (xs ++ u)) a.1 in
    let follows : Follows (xs ++ c) (round start r (length xs) (xs ++ u)) =
      subst (Follows (xs ++ c)) (sym next) (
        hear-Follows r.is_rewritten xs c u
          (IsPlain-left (xs ++ c) (concat cs) (subst IsPlain (sym e) p))
          (omega (arith, l, ap length e, length-append (xs ++ c) (concat cs))) k) in
    elim follows [
      | inl (t, o) ↦ (t, rounds-ends start r rs (length xs) (xs ++ u) t true o)
      | inr (g, (v, m, o)) ↦
          (let (t, q) =
              rounds-started start rs cs (xs ++ c) v a.2 (subst IsPlain (sym e) p)
                (omega (arith, l, ap length e)) m g (ap (contains started) e ∙ h) in
            (
              t,
              rounds-goes_on start r rs (length xs) (length (xs ++ c)) (xs ++ u) ((xs ++ c) ++ v) o
                  ∙ q,
            ))
    ]

-- When the device says "Start done>" in a line of up to 127 bytes, without NUL or line feed, that
-- arrives in any pieces within 300 seconds of the start, the reset succeeds, whatever the 129 bytes
-- of the buffer hold before.
pub reset-started :
    (start : ℕ) (rs : List Round) (cs : List (List ℕ)) (s : List ℕ)
    → Arrives start rs cs
    → IsPlain (concat cs)
    → length (concat cs) < mro_answer_len
    → length s ≡ mro_answer_len + 1
    → contains started (concat cs) ≡ true
    → (t : List ℕ) × (reset true start rs s ≡ gives true t)
unfolding reset contains
reset-started start rs cs s a p l k c = rounds-started start rs cs [] s a p l k refl c
