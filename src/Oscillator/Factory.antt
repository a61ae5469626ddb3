-- ===== src/Oscillator/Factory.antt =====
-- The table of src/oscillator_factory.c. A name is its bytes; `D` is what a driver makes: the value
-- that `new` returns.
use oscillatord.Base.{
  ℕ, Bool, true, false, not, ◌&&◌, Option, none, some, List, [], ◌∷◌, ◌++◌, ◌==◌, if◌then◌else◌,
  length,
}
use oscillatord.Base.Int.{ℤ}
use oscillatord.Base.CError.{e_inval, e_nomem, success}

-- MAX_OSCILLATOR_FACTORIES
abbrev pub max_oscillator_factories : ℕ
max_oscillator_factories = 5

-- `strcmp(a, b) == 0`
unfoldable pub same_name : List ℕ → List ℕ → Bool
same_name [] [] = true
same_name [] (b ∷ bs) = false
same_name (a ∷ cs) [] = false
same_name (a ∷ cs) (b ∷ bs) = (a == b) && same_name cs bs

module _ (D : Type 0) where
  -- `struct oscillator_factory`: the name of its class (none is NULL), whether it has `destroy`, and
  -- its `new`.
  pub record OscillatorFactory : Type 0 where
    pub name : Option (List ℕ)
    pub destroys : Bool
    pub new : Option D

module _ {D : Type 0} where
  -- `oscillator_factory_is_valid`; `none` is NULL.
  unfoldable pub is_valid : Option (OscillatorFactory D) → Bool
  is_valid none = false
  is_valid (some f) =
      f.destroys
      && elim f.name [ none ↦ false | some n ↦ elim n [ [] ↦ false | c ∷ cs ↦ true ] ]
      && elim f.new [ none ↦ false | some d ↦ true ]

  -- Whether a factory has a name. Those of the table all have one.
  unfoldable pub is_named : List ℕ → OscillatorFactory D → Bool
  unfolding same_name
  is_named name f = elim f.name [ none ↦ false | some n ↦ same_name name n ]

  -- `oscillator_factory_get_by_name`, on the factories of the table in their order.
  unfoldable pub get_by_name : List (OscillatorFactory D) → List ℕ → Option (OscillatorFactory D)
  unfolding is_named
  get_by_name [] name = none
  get_by_name (f ∷ fs) name = if is_named name f then some f else get_by_name fs name

  -- `oscillator_factory_register`: the return code and the table after it.
  unfoldable pub register :
      Option (OscillatorFactory D) → List (OscillatorFactory D) → ℤ × List (OscillatorFactory D)
  unfolding is_valid
  register none fs = (e_inval, fs)
  register (some f) fs =
      if not (is_valid (some f))
      then (e_inval, fs)
      else if length fs == max_oscillator_factories
      then (e_nomem, fs)
      else (success, fs ++ f ∷ [])

  -- The constructors of the drivers register one after the other.
  unfoldable pub register_all :
      List (Option (OscillatorFactory D)) → List (OscillatorFactory D) → List (OscillatorFactory D)
  unfolding register
  register_all [] fs = fs
  register_all (f ∷ more) fs = register_all more (register f fs).1

  -- `oscillator_factory_new` for the name in the configuration, if there is one.
  unfoldable pub new_oscillator : List (OscillatorFactory D) → Option (List ℕ) → Option D
  unfolding get_by_name
  new_oscillator fs none = none
  new_oscillator fs (some name) = elim (get_by_name fs name) [ none ↦ none | some f ↦ f.new ]
