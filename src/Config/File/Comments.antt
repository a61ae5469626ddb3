-- ===== src/Config/File/Comments.antt =====
-- The loop of `read_file` of common/config.c deletes the comments.
use oscillatord.Base.{
  ℕ, zero, suc, ◌+◌, ◌-◌, ◌≤◌, ◌≡◌, refl, sym, ap, ◌∙◌, inl, inr, Bool, true, false, none, some,
  List, [], ◌∷◌, ◌++◌, arith, if◌then◌else◌, Bool-cases, length, get_elem?, length-append,
}
use oscillatord.Config.File.{is_comment, delete_at, delete_comments}
use mathlib.Core.Path.{subst}
use mathlib.Core.List.{append_assoc, append-nil}

-- The lines that are no comments.
abbrev pub without_comments : List (List ℕ) → List (List ℕ)
without_comments [] = []
without_comments (l ∷ ls) = if is_comment l then without_comments ls else l ∷ without_comments ls

-- The rounds that are needed after `n` lines that are no comments: each comment costs a round for
-- itself, and one for each line before it that is passed again.
abbrev pub rounds_needed : ℕ → List (List ℕ) → ℕ
rounds_needed n [] = 1
rounds_needed n (l ∷ ls) =
    if is_comment l then 1 + n + rounds_needed n ls else 1 + rounds_needed (n + 1) ls

abbrev NoComments : List (List ℕ) → Type 0
NoComments [] = Unit
NoComments (l ∷ ls) = (is_comment l ≡ false) × NoComments ls

none_after : (ls : List (List ℕ)) → get_elem? ls (length ls) ≡ none
none_after [] = refl
none_after (l ∷ ls) = none_after ls

elem_at :
    (done : List (List ℕ)) (l : List ℕ) (rest : List (List ℕ))
    → get_elem? (done ++ l ∷ rest) (length done) ≡ some l
elem_at [] l rest = refl
elem_at (d ∷ done) l rest = elem_at done l rest

deleted_at :
    (done : List (List ℕ)) (l : List ℕ) (rest : List (List ℕ))
    → delete_at (length done) (done ++ l ∷ rest) ≡ done ++ rest
unfolding delete_at
deleted_at [] l rest = refl
deleted_at (d ∷ done) l rest = ap (λ t. d ∷ t) (deleted_at done l rest)

-- A round at a line.
round_at :
    (rounds i : ℕ) (ls : List (List ℕ)) (l : List ℕ)
    → get_elem? ls i ≡ some l
    → delete_comments (suc rounds) i ls
      ≡ delete_comments rounds
          (if is_comment l then 0 else i + 1)
          (if is_comment l then delete_at i ls else ls)
unfolding delete_comments
round_at rounds i ls l g =
    ap
      (λ o. elim o [
        | none ↦ some ls
        | some m ↦
            delete_comments rounds (if is_comment m then 0 else i + 1)
              (if is_comment m then delete_at i ls else ls)
      ])
      g

at_end : (rounds : ℕ) (ls : List (List ℕ)) → delete_comments (suc rounds) (length ls) ls ≡ some ls
unfolding delete_comments
at_end rounds ls =
    ap
      (λ o. elim o [
        | none ↦ some ls
        | some m ↦
            delete_comments rounds (if is_comment m then 0 else length ls + 1)
              (if is_comment m then delete_at (length ls) ls else ls)
      ])
      (none_after ls)

pass_line :
    (rounds : ℕ) (done : List (List ℕ)) (l : List ℕ) (rest : List (List ℕ))
    → is_comment l ≡ false
    → delete_comments (suc rounds) (length done) (done ++ l ∷ rest)
      ≡ delete_comments rounds (length (done ++ l ∷ [])) ((done ++ l ∷ []) ++ rest)
pass_line rounds done l rest c =
    let ls = done ++ l ∷ rest in
    round_at rounds (length done) ls l (elem_at done l rest)
    ∙ ap
        (λ b.
          delete_comments rounds (if b then 0 else length done + 1)
            (if b then delete_at (length done) ls else ls))
        c
    ∙ ap (λ i. delete_comments rounds i ls) (sym (length-append done (l ∷ [])))
    ∙ ap (λ t. delete_comments rounds (length (done ++ l ∷ [])) t)
        (sym (append_assoc done (l ∷ []) rest))

delete_line :
    (rounds : ℕ) (done : List (List ℕ)) (l : List ℕ) (rest : List (List ℕ))
    → is_comment l ≡ true
    → delete_comments (suc rounds) (length done) (done ++ l ∷ rest)
      ≡ delete_comments rounds 0 (done ++ rest)
delete_line rounds done l rest c =
    let ls = done ++ l ∷ rest in
    round_at rounds (length done) ls l (elem_at done l rest)
    ∙ ap
        (λ b.
          delete_comments rounds (if b then 0 else length done + 1)
            (if b then delete_at (length done) ls else ls))
        c
    ∙ ap (λ t. delete_comments rounds 0 t) (deleted_at done l rest)

-- Lines that are no comments are passed, a round for each.
pass_lines :
    (more : ℕ) (ls done rest : List (List ℕ))
    → NoComments ls
    → delete_comments (more + length ls) (length done) (done ++ (ls ++ rest))
      ≡ delete_comments more (length (done ++ ls)) ((done ++ ls) ++ rest)
pass_lines more [] done rest h =
    ap (λ n. delete_comments n (length done) (done ++ rest)) (omega arith)
    ∙ ap (λ t. delete_comments more (length t) (t ++ rest)) (sym (append-nil done))
pass_lines more (l ∷ ls) done rest h =
    ap (λ n. delete_comments n (length done) (done ++ l ∷ (ls ++ rest))) (omega arith)
    ∙ pass_line (more + length ls) done l (ls ++ rest) h.0
    ∙ pass_lines more ls (done ++ l ∷ []) rest h.1
    ∙ ap (λ t. delete_comments more (length t) (t ++ rest)) (append_assoc done (l ∷ []) ls)

NoComments-append :
    (ls : List (List ℕ)) (l : List ℕ)
    → NoComments ls
    → is_comment l ≡ false
    → NoComments (ls ++ l ∷ [])
NoComments-append [] l h c = (c, tt)
NoComments-append (m ∷ ls) l h c = (h.0, NoComments-append ls l h.1 c)

rounds_needed-pos : (n : ℕ) (ls : List (List ℕ)) → 1 ≤ rounds_needed n ls
rounds_needed-pos n [] = omega arith
rounds_needed-pos n (l ∷ ls) = ground arith

-- What is left to do after a line, a comment or not.
needs :
    {r : ℕ} (n : ℕ) (rest : List (List ℕ)) (b c : Bool)
    → b ≡ c
    → (if b then 1 + n + rounds_needed n rest else 1 + rounds_needed (n + 1) rest) ≤ suc r
    → (if c then 1 + n + rounds_needed n rest else 1 + rounds_needed (n + 1) rest) ≤ suc r
needs {r} n rest b c q h =
    subst
      (λ t. (if t then 1 + n + rounds_needed n rest else 1 + rounds_needed (n + 1) rest) ≤ suc r) q
      h

clean :
    (rest done : List (List ℕ)) (rounds : ℕ)
    → NoComments done
    → rounds_needed (length done) rest ≤ rounds
    → delete_comments rounds (length done) (done ++ rest) ≡ some (done ++ without_comments rest)
clean rest done zero h e = absurd (omega (arith, rounds_needed-pos (length done) rest, e))
clean [] done (suc r) h e =
    ap (λ t. delete_comments (suc r) (length done) t) (append-nil done)
    ∙ at_end r done
    ∙ ap some (sym (append-nil done))
clean (l ∷ rest) done (suc r) h e = elim (Bool-cases (is_comment l)) [
  | inl c ↦
      (let n = length done in
        let needed = needs n rest (is_comment l) true c e in
        delete_line r done l rest c
        ∙ ap (λ k. delete_comments k 0 (done ++ rest)) (omega (arith, needed))
        ∙ pass_lines (r - n) done [] rest h
        ∙ clean rest done (r - n) h (omega (arith, needed))
        ∙ ap (λ b. some (done ++ (if b then without_comments rest else l ∷ without_comments rest)))
            (sym c))
  | inr c ↦
      (let next = done ++ l ∷ [] in
        let needed = needs (length done) rest (is_comment l) false c e in
        let same = ap (λ k. rounds_needed k rest) (length-append done (l ∷ [])) in
        pass_line r done l rest c
        ∙ clean rest next r (NoComments-append done l h c) (omega (arith, needed, same))
        ∙ ap some (append_assoc done (l ∷ []) (without_comments rest))
        ∙ ap (λ b. some (done ++ (if b then without_comments rest else l ∷ without_comments rest)))
            (sym c))
]

-- The loop of `read_file` ends, and leaves the lines that do not begin with `#`, in their order.
pub delete_comments-without :
    (ls : List (List ℕ)) (rounds : ℕ)
    → rounds_needed 0 ls ≤ rounds
    → delete_comments rounds 0 ls ≡ some (without_comments ls)
delete_comments-without ls rounds e = clean ls [] rounds tt e
