-- ===== src/Config/File/Saved.antt =====
-- What `config_save` of common/config.c writes is read again.
-- A line: not empty, no comment, no line feed and no NUL in it.
use oscillatord.Base.{
  ℕ, zero, suc, ◌+◌, ◌≤◌, ◌<◌, ◌≡◌, refl, sym, ap, ◌∙◌, ◌⊎◌, inl, inr, false, not, ◌&&◌, none, some,
  List, [], ◌∷◌, ◌++◌, arith, ltb, ◌==◌, if◌then◌else◌, length, take, drop, length-append,
  length-replicate,
}
use oscillatord.Base.Text.{zeros, c_string, IsText, c_string-text, c_string-append}
use oscillatord.Base.CError.{e_inval, success}
use oscillatord.Config.{is_empty}
use oscillatord.Config.File.{
  split_lines, entries_of, is_comment, delete_comments, bytes, read_file, stringify, config_dump,
  data_size, Saving, not_opened, takes, config_save,
}
use oscillatord.Config.File.Comments.{without_comments, rounds_needed, delete_comments-without}
use mathlib.Core.List.{append_assoc, append-nil}

abbrev pub NoFeed : List ℕ → Type 0
NoFeed [] = Unit
NoFeed (c ∷ cs) = ((c == b'\n') ≡ false) × NoFeed cs

pub record IsLine (l : List ℕ) : Type 0 where
  pub some_byte : is_empty l ≡ false
  pub not_comment : is_comment l ≡ false
  pub no_feed : NoFeed l
  pub no_nul : IsText l

abbrev pub AllLines : List (List ℕ) → Type 0
AllLines [] = Unit
AllLines (l ∷ ls) = IsLine l × AllLines ls

split_lines-line :
    (l rest now : List ℕ) → NoFeed l → split_lines (l ++ rest) now ≡ split_lines rest (now ++ l)
unfolding split_lines
split_lines-line [] rest now h = ap (λ t. split_lines rest t) (sym (append-nil now))
split_lines-line (c ∷ l) rest now h =
    ap
      (λ b.
        (let next = split_lines (l ++ rest) (if b then [] else now ++ c ∷ []) in
          if b && not (is_empty now) then now ∷ next else next))
      h.0
    ∙ split_lines-line l rest (now ++ c ∷ []) h.1
    ∙ ap (λ t. split_lines rest t) (append_assoc now (c ∷ []) l)

split_lines-feed :
    (l rest : List ℕ) → is_empty l ≡ false → split_lines (b'\n' ∷ rest) l ≡ l ∷ split_lines rest []
unfolding split_lines
split_lines-feed l rest h =
    ap (λ b. if not b then l ∷ split_lines rest [] else split_lines rest []) h

end_of : (l : List ℕ) → split_lines [] l ≡ l ∷ []
unfolding split_lines
end_of l = refl

split_lines-stringify :
    (l : List ℕ) (ls : List (List ℕ))
    → IsLine l
    → AllLines ls
    → split_lines (stringify (l ∷ ls)) [] ≡ l ∷ ls
unfolding stringify
split_lines-stringify l [] h hs =
    ap (λ t. split_lines t []) (sym (append-nil l)) ∙ split_lines-line l [] [] h.no_feed ∙ end_of l
split_lines-stringify l (m ∷ ls) h hs =
    split_lines-line l (b'\n' ∷ stringify (m ∷ ls)) [] h.no_feed
    ∙ split_lines-feed l (stringify (m ∷ ls)) h.some_byte
    ∙ ap (λ t. l ∷ t) (split_lines-stringify m ls hs.0 hs.1)

IsText-append : (xs ys : List ℕ) → IsText xs → IsText ys → IsText (xs ++ ys)
IsText-append [] ys h k = k
IsText-append (x ∷ xs) ys h k = (h.0, IsText-append xs ys h.1 k)

stringify-IsText : (ls : List (List ℕ)) → AllLines ls → IsText (stringify ls)
unfolding stringify
stringify-IsText [] h = tt
stringify-IsText (l ∷ []) h = h.0.no_nul
stringify-IsText (l ∷ m ∷ ls) h =
    IsText-append l (b'\n' ∷ stringify (m ∷ ls)) h.0.no_nul
      (omega arith, stringify-IsText (m ∷ ls) h.1)

take_all : (xs : List ℕ) → take (length xs) xs ≡ xs
take_all [] = refl
take_all (x ∷ xs) = ap (λ t. x ∷ t) (take_all xs)

c_string-whole : (xs : List ℕ) → IsText xs → c_string xs ≡ xs
unfolding zeros
c_string-whole xs h = ap (λ t. c_string t) (sym (append-nil xs)) ∙ c_string-text xs 0 h

-- A text ends at its NUL.
c_string-cut : (xs ys : List ℕ) → IsText xs → c_string (xs ++ 0 ∷ ys) ≡ xs
unfolding c_string
c_string-cut xs ys h = c_string-append xs (0 ∷ ys) h ∙ append-nil xs

not_longer : (n m : ℕ) → n < m → ltb m (n + 1) ≡ false
not_longer n m h = ground arith

-- A text that fits is in the buffer with its NUL.
config_dump-text :
    (ls : List (List ℕ)) (buf : List ℕ)
    → AllLines ls
    → length (stringify ls) < length buf
    → c_string (config_dump ls buf) ≡ stringify ls
unfolding config_dump
config_dump-text ls buf h l =
    let text = stringify ls in
    let is_text = stringify-IsText ls h in
    let whole =
      ap (λ k. take k (text ++ 0 ∷ [])) (sym (length-append text (0 ∷ [])))
      ∙ take_all (text ++ 0 ∷ []) in
    let rest = drop (length text + 1) buf in
    ap
      (λ t.
        (let n = if ltb (length buf) (length t + 1) then length buf else length t + 1 in
          c_string (take n (t ++ 0 ∷ []) ++ drop n buf)))
      (c_string-whole text is_text)
    ∙ ap
        (λ b.
          (let n = if b then length buf else length text + 1 in
            c_string (take n (text ++ 0 ∷ []) ++ drop n buf)))
        (not_longer (length text) (length buf) l)
    ∙ ap (λ t. c_string (t ++ rest)) whole
    ∙ ap (λ t. c_string t) (append_assoc text (0 ∷ []) rest)
    ∙ c_string-cut text rest is_text

without-lines : (ls : List (List ℕ)) → AllLines ls → without_comments ls ≡ ls
without-lines [] h = refl
without-lines (l ∷ ls) h =
    ap (λ b. if b then without_comments ls else l ∷ without_comments ls) h.0.not_comment
    ∙ ap (λ t. l ∷ t) (without-lines ls h.1)

not_empty : (l : List ℕ) (ls : List (List ℕ)) → IsLine l → is_empty (stringify (l ∷ ls)) ≡ false
unfolding stringify
not_empty [] ls h = absurd (ground (arith, h.some_byte))
not_empty (c ∷ l) [] h = refl
not_empty (c ∷ l) (m ∷ ls) h = refl

saved_size : length (zeros data_size) ≡ 1024
unfolding zeros
saved_size = length-replicate {A = ℕ} 1024 0

-- The bytes that are written are read as the entries again.
saved :
    (l : List ℕ) (ls : List (List ℕ)) (rounds : ℕ)
    → AllLines (l ∷ ls)
    → length (stringify (l ∷ ls)) < 1024
    → rounds_needed 0 (l ∷ ls) ≤ rounds
    → read_file rounds (bytes (c_string (config_dump (l ∷ ls) (zeros data_size)) ++ 0 ∷ b'\n' ∷ []))
      ≡ some (success, l ∷ ls)
unfolding read_file
saved l ls rounds h b r =
    let text = stringify (l ∷ ls) in
    let dumped = config_dump-text (l ∷ ls) (zeros data_size) h (omega (arith, b, saved_size)) in
    let cut = c_string-cut text (b'\n' ∷ []) (stringify-IsText (l ∷ ls) h) in
    let entries =
      ap (λ e. if e then [] else split_lines text []) (not_empty l ls h.0)
      ∙ split_lines-stringify l ls h.0 h.1 in
    let cleaned = delete_comments-without (l ∷ ls) rounds r ∙ ap some (without-lines (l ∷ ls) h) in
    ap
      (λ t. elim (delete_comments rounds 0 (entries_of t)) [
        | none ↦ none
        | some es ↦ some (success, es)
      ])
      (ap (λ t. c_string (t ++ 0 ∷ b'\n' ∷ [])) dumped ∙ cut)
    ∙ ap (λ es. elim (delete_comments rounds 0 es) [ none ↦ none | some fs ↦ some (success, fs) ])
        entries
    ∙ ap (λ o. elim o [ none ↦ none | some fs ↦ some (success, fs) ]) cleaned

take_more : (n : ℕ) (xs : List ℕ) → length xs ≤ n → take n xs ≡ xs
take_more zero [] h = refl
take_more zero (x ∷ xs) h = absurd (omega (arith, h))
take_more (suc n) [] h = refl
take_more (suc n) (x ∷ xs) h = ap (λ t. x ∷ t) (take_more n xs (omega (arith, h)))

written_size :
    (l : List ℕ) (ls : List (List ℕ))
    → AllLines (l ∷ ls)
    → length (stringify (l ∷ ls)) < 1024
    → length (c_string (config_dump (l ∷ ls) (zeros data_size)) ++ 0 ∷ b'\n' ∷ [])
      ≡ length (stringify (l ∷ ls)) + 2
written_size l ls h b =
    ap (λ t. length (t ++ 0 ∷ b'\n' ∷ []))
      (config_dump-text (l ∷ ls) (zeros data_size) h (omega (arith, b, saved_size)))
    ∙ length-append (stringify (l ∷ ls)) (0 ∷ b'\n' ∷ [])

-- The whole text, with the NUL and the line feed after it, reaches the file, if it is opened.
abbrev pub TakesText : List (List ℕ) → Saving → Type 0
TakesText ls not_opened = Unit
TakesText ls (takes n) = length (stringify ls) + 2 ≤ n

-- Lines that are not empty, no comments, and without line feed or NUL, their text below 1024 bytes:
-- if the file is opened and the whole text reaches it, `config_save` succeeds, and `read_file` then
-- gives the same entries; if it is not opened, `config_save` fails with -EINVAL and leaves the file
-- alone.
pub read_file-config_save :
    (l : List ℕ) (ls : List (List ℕ)) (rounds : ℕ) (saving : Saving) (file : List ℕ)
    → AllLines (l ∷ ls)
    → length (stringify (l ∷ ls)) < 1024
    → rounds_needed 0 (l ∷ ls) ≤ rounds
    → TakesText (l ∷ ls) saving
    → (((config_save saving (l ∷ ls) file).0 ≡ success)
        × (read_file rounds (bytes (config_save saving (l ∷ ls) file).1) ≡ some (success, l ∷ ls)))
      ⊎ ((saving ≡ not_opened) × (config_save saving (l ∷ ls) file ≡ (e_inval, file)))
unfolding config_save
read_file-config_save l ls rounds not_opened file h b r t = inr (refl, refl)
read_file-config_save l ls rounds (takes n) file h b r t =
    let content = c_string (config_dump (l ∷ ls) (zeros data_size)) ++ 0 ∷ b'\n' ∷ [] in
    let whole = take_more n content (omega (arith, t, written_size l ls h b)) in
    inl (refl, ap (λ c. read_file rounds (bytes c)) whole ∙ saved l ls rounds h b r)
