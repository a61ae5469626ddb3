-- ===== src/Oscillator/Registered.antt =====
-- What the table of src/oscillator_factory.c keeps.
use oscillatord.Base.{
  ℕ, zero, suc, ◌+◌, ◌<◌, ◌≡◌, refl, sym, ap, ◌∙◌, Bool, true, false, Option, none, some, List, [],
  ◌∷◌, ◌++◌, arith, if◌then◌else◌, length, take, length-append,
}
use oscillatord.Oscillator.Factory.{
  max_oscillator_factories, OscillatorFactory, is_valid, register, register_all,
}
use mathlib.Core.List.{append_assoc, append-nil}

module _ {D : Type 0} where
  -- The valid factories of a list, in their order.
  abbrev pub valid_ones : List (Option (OscillatorFactory D)) → List (OscillatorFactory D)
  valid_ones [] = []
  valid_ones (none ∷ fs) = valid_ones fs
  valid_ones (some f ∷ fs) = if is_valid (some f) then f ∷ valid_ones fs else valid_ones fs

  register-valid :
      (f : OscillatorFactory D) (table : List (OscillatorFactory D))
      → is_valid (some f) ≡ true
      → length table < max_oscillator_factories
      → (register (some f) table).1 ≡ table ++ f ∷ []
  unfolding register
  register-valid f table v l = rw v (ground arith)

  register-full :
      (f : Option (OscillatorFactory D)) (table : List (OscillatorFactory D))
      → length table ≡ max_oscillator_factories
      → (register f table).1 ≡ table
  unfolding register
  register-full none table l = refl
  register-full (some f) table l = ground arith

  register-invalid :
      (f : OscillatorFactory D) (table : List (OscillatorFactory D))
      → is_valid (some f) ≡ false
      → (register (some f) table).1 ≡ table
  unfolding register
  register-invalid f table v = rw v refl

  full-register_all :
      (fs : List (Option (OscillatorFactory D))) (table : List (OscillatorFactory D))
      → length table ≡ max_oscillator_factories
      → register_all fs table ≡ table
  unfolding register_all
  full-register_all [] table h = refl
  full-register_all (f ∷ fs) table h =
      ap (register_all fs) (register-full f table h) ∙ full-register_all fs table h

  -- A list of factories, registered over a table with room for `n` more.
  abbrev pub Adds : List (Option (OscillatorFactory D)) → Type 0
  Adds fs =
      (n : ℕ) (table : List (OscillatorFactory D))
      → length table + n ≡ max_oscillator_factories
      → register_all fs table ≡ table ++ take n (valid_ones fs)

  register-Adds :
      (n : ℕ) (f : OscillatorFactory D) (fs : List (Option (OscillatorFactory D)))
      (table : List (OscillatorFactory D)) (b : Bool)
      → Adds fs
      → is_valid (some f) ≡ b
      → length table + suc n ≡ max_oscillator_factories
      → register_all fs (register (some f) table).1
        ≡ table ++ take (suc n) (if b then f ∷ valid_ones fs else valid_ones fs)
  register-Adds n f fs table true next v h =
      ap (register_all fs) (register-valid f table v (omega (arith, h)))
      ∙ next n (table ++ f ∷ []) (omega (arith, h, length-append table (f ∷ [])))
      ∙ append_assoc table (f ∷ []) (take n (valid_ones fs))
  register-Adds n f fs table false next v h =
      ap (register_all fs) (register-invalid f table v) ∙ next (suc n) table h

  register_all-Adds : (fs : List (Option (OscillatorFactory D))) → Adds fs
  unfolding register_all register
  register_all-Adds fs zero table h =
      full-register_all fs table (omega (arith, h)) ∙ sym (append-nil table)
  register_all-Adds [] (suc n) table h = sym (append-nil table)
  register_all-Adds (none ∷ fs) (suc n) table h = register_all-Adds fs (suc n) table h
  register_all-Adds (some f ∷ fs) (suc n) table h =
      register-Adds n f fs table (is_valid (some f)) (register_all-Adds fs) refl h

-- Whatever is registered, the table is the first five valid factories, in the order of their
-- registration.
pub register_all-take :
    {D : Type 0} (fs : List (Option (OscillatorFactory D)))
    → register_all fs [] ≡ take max_oscillator_factories (valid_ones fs)
register_all-take fs = register_all-Adds fs max_oscillator_factories [] refl
