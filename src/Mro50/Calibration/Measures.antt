-- ===== src/Mro50/Calibration/Measures.antt =====
-- The measures that a calibration of src/oscillators/mRo50_oscillator.c returns.
use oscillatord.Base.{
  ℕ, zero, suc, ◌+◌, ◌≡◌, refl, sym, ap, ◌∙◌, inl, inr, Bool, true, false, Option, none, some, List,
  [], ◌∷◌, ◌++◌, arith, Option-cases, length, length-append,
}
use oscillatord.Base.Int.{ℤ}
use oscillatord.Mro50.Serial.{Serial, ◌>>=◌, return}
use oscillatord.Mro50.Calibration.{Sample, write_at, reading, measure}
use mathlib.Core.List.{append_assoc}

-- The measures at a control point, in order, none where one of them is given up.
unfoldable pub readings : {F : Type 0} → (ℤ → ℤ → F) → (ℕ → Sample) → ℕ → ℕ → Option (List F)
unfolding reading
readings combine sample zero j = some []
readings combine sample (suc n) j = elim (reading combine (sample j)) [
  | none ↦ none
  | some m ↦ elim (readings combine sample n (suc j)) [ none ↦ none | some ms ↦ some (m ∷ ms) ]
]

-- The measures at all the control points from `i` on, one after the other.
unfoldable pub blocks :
    {F : Type 0}
    → (ℤ → ℤ → F)
    → (ℕ → ℕ → Serial Bool)
    → (ℕ → ℕ → Sample)
    → ℕ
    → List ℕ
    → ℕ
    → Serial (Option (List F))
unfolding readings
blocks combine start sample nb [] i = return (some [])
blocks combine start sample nb (p ∷ ps) i = do
  ok ← start i p
  elim ok [
    | false ↦ return none
    | true ↦ elim (readings combine (sample i) nb 0) [
      | none ↦ return none
      | some ms ↦ (do
        rest ← blocks combine start sample nb ps (suc i)
        return (elim rest [ none ↦ none | some r ↦ some (ms ++ r) ]))
    ]
  ]

-- Measures between what stands before them and after them.
abbrev pub placed : {F : Type 0} → List F → List F → Option (List F) → Option (List F)
placed before after o = elim o [ none ↦ none | some ms ↦ some (before ++ (ms ++ after)) ]

placed-cons :
    {F : Type 0} (before after : List F) (m : F) (o : Option (List F))
    → placed (before ++ m ∷ []) after o
      ≡ placed before after (elim o [ none ↦ none | some ms ↦ some (m ∷ ms) ])
placed-cons before after m none = refl
placed-cons before after m (some ms) = ap some (append_assoc before (m ∷ []) (ms ++ after))

module _ {F : Type 0} (combine : ℤ → ℤ → F) where
  measure-none :
      (sample : ℕ → Sample) (first n j : ℕ) (measures : List F)
      → reading combine (sample j) ≡ none
      → measure combine sample first (suc n) j measures ≡ none
  unfolding measure
  measure-none sample first n j measures h =
      ap
        (λ o. elim o [
          | none ↦ none
          | some m ↦ measure combine sample first n (suc j) (write_at measures (first + j) m)
        ])
        h

  measure-some :
      (sample : ℕ → Sample) (first n j : ℕ) (measures : List F) (m : F)
      → reading combine (sample j) ≡ some m
      → measure combine sample first (suc n) j measures
        ≡ measure combine sample first n (suc j) (write_at measures (first + j) m)
  unfolding measure
  measure-some sample first n j measures m h =
      ap
        (λ o. elim o [
          | none ↦ none
          | some m ↦ measure combine sample first n (suc j) (write_at measures (first + j) m)
        ])
        h

  pub readings-none :
      (sample : ℕ → Sample) (n j : ℕ)
      → reading combine (sample j) ≡ none
      → readings combine sample (suc n) j ≡ none
  unfolding readings
  readings-none sample n j h =
      ap
        (λ o. elim o [
          | none ↦ none
          | some m ↦ elim (readings combine sample n (suc j)) [
            | none ↦ none
            | some ms ↦ some (m ∷ ms)
          ]
        ])
        h

  pub readings-some :
      (sample : ℕ → Sample) (n j : ℕ) (m : F)
      → reading combine (sample j) ≡ some m
      → readings combine sample (suc n) j
        ≡ elim (readings combine sample n (suc j)) [ none ↦ none | some ms ↦ some (m ∷ ms) ]
  unfolding readings
  readings-some sample n j m h =
      ap
        (λ o. elim o [
          | none ↦ none
          | some m ↦ elim (readings combine sample n (suc j)) [
            | none ↦ none
            | some ms ↦ some (m ∷ ms)
          ]
        ])
        h

  write_at-append :
      (xs : List F) (y : F) (ys : List F) (m : F)
      → write_at (xs ++ y ∷ ys) (length xs) m ≡ xs ++ m ∷ ys
  unfolding write_at
  write_at-append [] y ys m = refl
  write_at-append (x ∷ xs) y ys m = ap (λ l. x ∷ l) (write_at-append xs y ys m)

  pub measure-readings :
      (sample : ℕ → Sample) (first n j : ℕ) (before old after : List F)
      → length before ≡ first + j
      → length old ≡ n
      → measure combine sample first n j (before ++ (old ++ after))
        ≡ placed before after (readings combine sample n j)
  unfolding measure readings
  measure-readings sample first zero j before [] after h k = refl
  measure-readings sample first zero j before (x ∷ old) after h k = absurd (omega (arith, k))
  measure-readings sample first (suc n) j before [] after h k = absurd (omega (arith, k))
  measure-readings sample first (suc n) j before (x ∷ old) after h k =
      elim (Option-cases (reading combine (sample j))) [
        | inl e ↦
            measure-none sample first n j (before ++ (x ∷ old ++ after)) e
            ∙ sym (ap (placed before after) (readings-none sample n j e))
        | inr (m, e) ↦
            measure-some sample first n j (before ++ (x ∷ old ++ after)) m e
            ∙ ap (measure combine sample first n (suc j)) (
                ap (λ i. write_at (before ++ (x ∷ old ++ after)) i m) (sym h)
                ∙ write_at-append before x (old ++ after) m
                ∙ sym (append_assoc before (m ∷ []) (old ++ after)))
            ∙ measure-readings sample first n (suc j) (before ++ m ∷ []) old after
                (omega (arith, h, length-append before (m ∷ []))) (omega (arith, k))
            ∙ placed-cons before after m (readings combine sample n (suc j))
            ∙ sym (ap (placed before after) (readings-some sample n j m e))
      ]
