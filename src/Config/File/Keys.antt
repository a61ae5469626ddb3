-- ===== src/Config/File/Keys.antt =====
-- Keys and values of the configuration in common/config.c: what `config_get` finds after `config_set`.
use oscillatord.Base.{
  ℕ, ◌≡◌, refl, sym, ap, ◌∙◌, ◌≢◌, inl, inr, false, Option, none, some, List, [], ◌∷◌, ◌++◌, arith,
  ◌==◌, Option-cases,
}
use oscillatord.Config.{same_text}
use oscillatord.Config.File.{value_of, get, remove_key, config_set}

-- A key: no `=` in it.
abbrev pub IsKey : List ℕ → Type 0
IsKey [] = Unit
IsKey (c ∷ cs) = ((c == b'=') ≡ false) × IsKey cs

-- No entry has the name.
abbrev pub Missing : List ℕ → List (List ℕ) → Type 0
Missing key [] = Unit
Missing key (l ∷ ls) = (value_of key l ≡ none) × Missing key ls

-- An entry has one name only.
one_name :
    (k o l : List ℕ)
    → IsKey k
    → IsKey o
    → same_text k o ≡ false
    → value_of k l ≢ none
    → value_of o l ≡ none
unfolding value_of
one_name [] [] l hk ho s n = absurd (ground (arith, s))
one_name [] (o ∷ os) [] hk ho s n = refl
one_name [] (o ∷ os) (c ∷ cs) hk ho s n = ground arith
one_name (k ∷ ks) [] [] hk ho s n = absurd (n refl)
one_name (k ∷ ks) [] (c ∷ cs) hk ho s n = ground arith
one_name (k ∷ ks) (o ∷ os) [] hk ho s n = refl
one_name (k ∷ ks) (o ∷ os) (c ∷ cs) hk ho s n = ground (arith, one_name ks os cs hk.1 ho.1)

new_entry :
    (key value : List ℕ) → IsKey key → value_of key (key ++ b'=' ∷ value) ≡ some (some value)
unfolding value_of
new_entry [] value h = refl
new_entry (k ∷ ks) value h = ground (arith, new_entry ks value h.1)

get-Missing :
    (key : List ℕ) (ls more : List (List ℕ)) → Missing key ls → get key (ls ++ more) ≡ get key more
unfolding get
get-Missing key [] more h = refl
get-Missing key (l ∷ ls) more h =
    ap (λ q. elim q [ none ↦ get key (ls ++ more) | some v ↦ v ]) h.0 ∙ get-Missing key ls more h.1

get-last :
    (o : List ℕ) (ls : List (List ℕ)) (more : List ℕ)
    → value_of o more ≡ none
    → get o (ls ++ more ∷ []) ≡ get o ls
unfolding get
get-last o [] more n = ap (λ q. elim q [ none ↦ none | some v ↦ v ]) n
get-last o (l ∷ ls) more n =
    ap (λ t. elim (value_of o l) [ none ↦ t | some v ↦ v ]) (get-last o ls more n)

some_not_none : {v : Option (List ℕ)} → some v ≢ none
some_not_none h = ground (arith, h)

get-remove_key :
    (o k : List ℕ) (ls : List (List ℕ)) (more : List ℕ)
    → IsKey o
    → IsKey k
    → same_text k o ≡ false
    → value_of o more ≡ none
    → get o (remove_key k ls ++ more ∷ []) ≡ get o ls
unfolding get remove_key
get-remove_key o k [] more ho hk s n = ap (λ q. elim q [ none ↦ none | some v ↦ v ]) n
get-remove_key o k (l ∷ ls) more ho hk s n = elim (Option-cases (value_of k l)) [
  | inl e ↦
      ap (λ q. get o ((elim q [ none ↦ l ∷ remove_key k ls | some v ↦ ls ]) ++ more ∷ [])) e
      ∙ ap (λ t. elim (value_of o l) [ none ↦ t | some v ↦ v ])
          (get-remove_key o k ls more ho hk s n)
  | inr (v, e) ↦
      ap (λ q. get o ((elim q [ none ↦ l ∷ remove_key k ls | some w ↦ ls ]) ++ more ∷ [])) e
      ∙ get-last o ls more n
      ∙ ap (λ q. elim q [ none ↦ get o ls | some w ↦ w ])
          (sym (one_name k o l hk ho s (λ z. some_not_none (sym e ∙ z))))
]

-- After `config_set`, `config_get` finds the value, if no second entry has the name; and finds under
-- any other key what it found before.
pub get-config_set :
    (key value other : List ℕ) (ls : List (List ℕ))
    → IsKey key
    → IsKey other
    → same_text key other ≡ false
    → Missing key (remove_key key ls)
    → (get key (config_set key value ls) ≡ some value)
      × (get other (config_set key value ls) ≡ get other ls)
unfolding config_set get
get-config_set key value other ls hk ho s m =
    let entry = key ++ b'=' ∷ value in
    let new = new_entry key value hk in
    (
      get-Missing key (remove_key key ls) (entry ∷ []) m
          ∙ ap (λ q. elim q [ none ↦ none | some v ↦ v ]) new,
      get-remove_key other key ls entry ho hk s
          (one_name key other entry hk ho s (λ z. some_not_none (sym new ∙ z))),
    )
