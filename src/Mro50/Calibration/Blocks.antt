-- ===== src/Mro50/Calibration/Blocks.antt =====
-- The array of measures of a calibration of src/oscillators/mRo50_oscillator.c.
use oscillatord.Base.{
  ℕ, zero, suc, ◌+◌, ◌*◌, ◌≡◌, refl, sym, ap, ◌∙◌, ◌⊎◌, inl, inr, Bool, true, false, Option, none,
  some, List, [], ◌∷◌, ◌++◌, arith, Option-cases, length, take, drop, length-append, take-drop,
  length-take, length-drop,
}
use oscillatord.Base.Int.{ℤ}
use oscillatord.Structs.{OscillatorCtrl}
use oscillatord.Mro50.Serial.{Result, waits, gives, Serial, ◌>>=◌, return}
use oscillatord.Mro50.Exchange.{bind-gives}
use oscillatord.Mro50.Calibration.{
  Sample, Site, point, reading, measure, measure_points, run_calibration,
}
use oscillatord.Mro50.Calibration.Measures.{
  readings, blocks, placed, readings-none, readings-some, measure-readings,
}
use mathlib.Core.Path.{subst}
use mathlib.Core.List.{append_assoc}

-- What a calibration gives, with these measures before its own.
abbrev after_measures : {F : Type 0} → List F → Result (Option (List F)) → Result (Option (List F))
after_measures before waits = waits
after_measures before (gives none t) = gives none t
after_measures before (gives (some ms) t) = gives (some (before ++ ms)) t

Result-cases :
    (o : Result Bool)
    → (o ≡ waits) ⊎ ((t : List ℕ) × (o ≡ gives false t)) ⊎ ((t : List ℕ) × (o ≡ gives true t))
Result-cases waits = inl refl
Result-cases (gives false t) = inr (inl (t, refl))
Result-cases (gives true t) = inr (inr (t, refl))

bind-waits :
    {A B : Type 0} (m : Serial A) (f : A → Serial B) (s : List ℕ)
    → m s ≡ waits
    → (m >>= f) s ≡ waits
bind-waits m f s h = ap (λ o. elim o [ waits ↦ waits | gives a t ↦ f a t ]) h

after_measures-nil : {F : Type 0} (o : Result (Option (List F))) → after_measures [] o ≡ o
after_measures-nil waits = refl
after_measures-nil (gives none t) = refl
after_measures-nil (gives (some ms) t) = refl

after_measures-append :
    {F : Type 0} (before ms : List F) (o : Result (Option (List F)))
    → after_measures (before ++ ms) o
      ≡ after_measures before (elim o [
        | waits ↦ waits
        | gives rest t ↦ gives (elim rest [ none ↦ none | some r ↦ some (ms ++ r) ]) t
      ])
after_measures-append before ms waits = refl
after_measures-append before ms (gives none t) = refl
after_measures-append before ms (gives (some r) t) =
    ap (λ l. gives (some l) t) (append_assoc before ms r)

-- A list of `n` measures, where there is one.
abbrev HasLength : {F : Type 0} → ℕ → Option (List F) → Type 0
HasLength n none = Unit
HasLength n (some ms) = length ms ≡ n

cons-HasLength :
    {F : Type 0} (n : ℕ) (m : F) (o : Option (List F))
    → HasLength n o
    → HasLength (suc n) (elim o [ none ↦ none | some ms ↦ some (m ∷ ms) ])
cons-HasLength n m none h = tt
cons-HasLength n m (some ms) h = omega (arith, h)

-- What follows the measures of a point, where they are made.
abbrev measured :
    {F : Type 0} → Option (List F) → (List F → Serial (Option (List F))) → Serial (Option (List F))
measured none f t = gives none t
measured (some m) f t = f m t

elim-measured :
    {F : Type 0} (o : Option (List F)) (f : List F → Serial (Option (List F))) (t : List ℕ)
    → (elim o as (λ x. Serial (Option (List F))) [ none ↦ return none | some m ↦ f m ]) t
      ≡ measured o f t
elim-measured none f t = refl
elim-measured (some m) f t = refl

-- The measures of the points that follow, after those of a point.
abbrev prefixed : {F : Type 0} → List F → Serial (Option (List F)) → Serial (Option (List F))
prefixed ms m = do rest ← m; return (elim rest [ none ↦ none | some r ↦ some (ms ++ r) ])

measured-placed :
    {F : Type 0} (nb : ℕ) (before after : List F) (o : Option (List F))
    (f g : List F → Serial (Option (List F))) (t : List ℕ)
    → HasLength nb o
    → ((ms : List F)
        → length ms ≡ nb
        → f (before ++ (ms ++ after)) t ≡ after_measures before (g ms t))
    → measured (placed before after o) f t ≡ after_measures before (measured o g t)
measured-placed nb before after none f g t h k = refl
measured-placed nb before after (some ms) f g t h k = k ms h

module _ {F : Type 0} (combine : ℤ → ℤ → F) where
  readings-HasLength : (sample : ℕ → Sample) (n j : ℕ) → HasLength n (readings combine sample n j)
  unfolding readings
  readings-HasLength sample zero j = refl
  readings-HasLength sample (suc n) j = elim (Option-cases (reading combine (sample j))) [
    | inl e ↦ subst (HasLength (suc n)) (sym (readings-none combine sample n j e)) tt
    | inr (m, e) ↦ subst (HasLength (suc n)) (sym (readings-some combine sample n j m e)) (
        cons-HasLength n m (readings combine sample n (suc j))
          (readings-HasLength sample n (suc j)))
  ]

  module _ (start : ℕ → ℕ → Serial Bool) (sample : ℕ → ℕ → Sample) (nb : ℕ) where
    points-measured :
        (p : ℕ) (ps : List ℕ) (i : ℕ) (measures : List F) (s t : List ℕ)
        → start i p s ≡ gives true t
        → measure_points combine start sample nb (p ∷ ps) i measures s
          ≡ measured
              (measure combine (sample i) (i * nb) nb 0 measures)
              (measure_points combine start sample nb ps (suc i))
              t
    unfolding measure_points
    points-measured p ps i measures s t e =
        bind-gives (start i p) _ s t true e
        ∙ elim-measured (measure combine (sample i) (i * nb) nb 0 measures) _ t

    blocks-measured :
        (p : ℕ) (ps : List ℕ) (i : ℕ) (s t : List ℕ)
        → start i p s ≡ gives true t
        → blocks combine start sample nb (p ∷ ps) i s
          ≡ measured
              (readings combine (sample i) nb 0)
              (λ ms. prefixed ms (blocks combine start sample nb ps (suc i)))
              t
    unfolding blocks
    blocks-measured p ps i s t e =
        bind-gives (start i p) _ s t true e ∙ elim-measured (readings combine (sample i) nb 0) _ t

    points-blocks :
        (ps : List ℕ) (i : ℕ) (before old : List F) (s : List ℕ)
        → length before ≡ i * nb
        → length old ≡ length ps * nb
        → measure_points combine start sample nb ps i (before ++ old) s
          ≡ after_measures before (blocks combine start sample nb ps i s)
    unfolding measure_points blocks
    points-blocks [] i before [] s h k = refl
    points-blocks [] i before (x ∷ old) s h k = absurd (omega (arith, k))
    points-blocks (p ∷ ps) i before old s h k =
        let next = measure_points combine start sample nb ps (suc i) in
        let times : suc (length ps) * nb ≡ nb + length ps * nb = omega arith in
        let row : suc i * nb ≡ nb + i * nb = omega arith in
        elim (Result-cases (start i p s)) [
          | inl e ↦
              bind-waits (start i p) _ s e
              ∙ sym (ap (after_measures before) (bind-waits (start i p) _ s e))
          | inr (inl (t, e)) ↦
              bind-gives (start i p) _ s t false e
              ∙ sym (ap (after_measures before) (bind-gives (start i p) _ s t false e))
          | inr (inr (t, e)) ↦
              points-measured p ps i (before ++ old) s t e
              ∙ ap (λ l. measured (measure combine (sample i) (i * nb) nb 0 (before ++ l)) next t)
                  (sym (take-drop nb old))
              ∙ ap (λ o. measured o next t)
                  (measure-readings combine (sample i) (i * nb) nb 0 before (take nb old)
                    (drop nb old) (omega (arith, h)) (length-take nb old (omega (arith, k, times))))
              ∙ measured-placed nb before (drop nb old) (readings combine (sample i) nb 0) next
                  (λ ms. prefixed ms (blocks combine start sample nb ps (suc i))) t
                  (readings-HasLength (sample i) nb 0)
                  (λ ms l.
                    ap (λ x. next x t) (sym (append_assoc before ms (drop nb old)))
                    ∙ points-blocks ps (suc i) (before ++ ms) (drop nb old) t
                        (omega (arith, h, l, length-append before ms, row))
                        (omega (arith, k, times, length-drop nb old))
                    ∙ after_measures-append before ms (blocks combine start sample nb ps (suc i) t))
              ∙ sym (ap (after_measures before) (blocks-measured p ps i s t e))
        ]

-- A calibration that has its memory, for as many measures as points times repetitions, gives the
-- measures of the first point in order, then those of the second, and so on, or none: none of the
-- uninitialised content of the array is left, and no place past its end is written, which would make
-- the result longer.
pub run_calibration-blocks :
    {F : Type 0} (combine : ℤ → ℤ → F) (content : List F) (site : ℕ → Site) (nb : ℕ)
    (ctrl : OscillatorCtrl) (ps s : List ℕ)
    → length content ≡ length ps * nb
    → run_calibration combine true content site nb ctrl ps s
      ≡ blocks combine (λ i p. point (site i) p ctrl) (λ i. (site i).sample) nb ps 0 s
unfolding run_calibration
run_calibration-blocks combine content site nb ctrl ps s h =
    points-blocks combine (λ i p. point (site i) p ctrl) (λ i. (site i).sample) nb ps 0 [] content s
      (omega arith) h
    ∙ after_measures-nil
        (blocks combine (λ i p. point (site i) p ctrl) (λ i. (site i).sample) nb ps 0 s)
