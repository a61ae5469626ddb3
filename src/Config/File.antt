-- ===== src/Config/File.antt =====
-- The configuration file in common/config.c: `read_file`, `config_get`, `config_get_default`,
-- `config_set`, `config_dump` and `config_save`. The argz vector is the list of its entries.
pub mod Comments
pub mod Keys
pub mod Saved
mod Tests
use oscillatord.Base.{
  ℕ, zero, suc, ◌+◌, Bool, false, not, ◌&&◌, Option, none, some, List, [], ◌∷◌, ◌++◌, ltb, ◌==◌,
  if◌then◌else◌, length, get_elem?, take, drop,
}
use oscillatord.Base.Text.{zeros, c_string}
use oscillatord.Base.Int.{ℤ}
use oscillatord.Base.CError.{e_inval, success}
use oscillatord.Config.{is_empty}

-- `argz_create_sep` of a text that is not empty: the lines, without the empty ones, except that the
-- last may be empty. The second argument is the line so far.
unfoldable pub split_lines : List ℕ → List ℕ → List (List ℕ)
split_lines [] now = now ∷ []
split_lines (c ∷ cs) now =
    let ends = c == b'\n' in
    let rest = split_lines cs (if ends then [] else now ++ c ∷ []) in
    if ends && not (is_empty now) then now ∷ rest else rest

abbrev pub entries_of : List ℕ → List (List ℕ)
entries_of text = if is_empty text then [] else split_lines text []

abbrev pub is_comment : List ℕ → Bool
is_comment [] = false
is_comment (c ∷ cs) = c == b'#'

-- `argz_delete` of the entry at an index.
unfoldable pub delete_at : ℕ → List (List ℕ) → List (List ℕ)
delete_at i [] = []
delete_at zero (l ∷ ls) = ls
delete_at (suc i) (l ∷ ls) = l ∷ delete_at i ls

-- The loop that deletes the comments, at the entry that `argz_next` gives next: after a deletion
-- `entry` is NULL, and it begins again at the first one. None if the rounds do not suffice.
unfoldable pub delete_comments : ℕ → ℕ → List (List ℕ) → Option (List (List ℕ))
delete_comments zero i ls = none
delete_comments (suc rounds) i ls = elim (get_elem? ls i) [
  | none ↦ some ls
  | some l ↦
      (let comment = is_comment l in
        delete_comments rounds (if comment then 0 else i + 1)
          (if comment then delete_at i ls else ls))
]

-- What reading a file gives: an error, which is 0 if `fread` fails, or its bytes.
pub data Reading : Type 0 where
  fails : ℤ → Reading
  bytes : List ℕ → Reading

-- `read_file`: the result, and the entries. The text ends at the first NUL, if there is one.
unfoldable pub read_file : ℕ → Reading → Option (ℤ × List (List ℕ))
read_file rounds (fails e) = some (e, [])
read_file rounds (bytes text) = elim (delete_comments rounds 0 (entries_of (c_string text))) [
  | none ↦ none
  | some ls ↦ some (success, ls)
]

-- An entry of envz: the value behind the first `=` if the name before it is the key. The outer none
-- is another name, the inner one an entry without `=`.
unfoldable pub value_of : List ℕ → List ℕ → Option (Option (List ℕ))
value_of [] [] = some none
value_of [] (c ∷ cs) = if c == b'=' then some (some cs) else none
value_of (k ∷ ks) [] = none
value_of (k ∷ ks) (c ∷ cs) = let rest = value_of ks cs in if k == c then rest else none

-- `config_get`: `envz_get` looks at the first entry of the name only.
unfoldable pub get : List ℕ → List (List ℕ) → Option (List ℕ)
get key [] = none
get key (l ∷ ls) = let rest = get key ls in elim (value_of key l) [ none ↦ rest | some v ↦ v ]

-- `config_get_default`
unfoldable pub get_default : List ℕ → List ℕ → List (List ℕ) → List ℕ
get_default key default ls = elim (get key ls) [ none ↦ default | some v ↦ v ]

-- The removal of the first entry of a name.
unfoldable pub remove_key : List ℕ → List (List ℕ) → List (List ℕ)
remove_key key [] = []
remove_key key (l ∷ ls) =
    let rest = remove_key key ls in elim (value_of key l) [ none ↦ l ∷ rest | some v ↦ ls ]

-- `config_set`: `envz_add` removes the entry of the name and appends the new one.
unfoldable pub config_set : List ℕ → List ℕ → List (List ℕ) → List (List ℕ)
config_set key value ls = remove_key key ls ++ (key ++ b'=' ∷ value) ∷ []

-- `argz_stringify`
unfoldable pub stringify : List (List ℕ) → List ℕ
stringify [] = []
stringify (l ∷ []) = l
stringify (l ∷ m ∷ ls) = l ++ b'\n' ∷ stringify (m ∷ ls)

-- `config_dump` into a buffer.
unfoldable pub config_dump : List (List ℕ) → List ℕ → List ℕ
config_dump ls buf =
    let text = c_string (stringify ls) in
    let slen = length text + 1 in
    let n = if ltb (length buf) slen then length buf else slen in
    take n (text ++ 0 ∷ []) ++ drop n buf

-- The size of `data`.
abbrev pub data_size : ℕ
data_size = 1024

-- What comes of the file: `fopen` fails, or it empties the file and so many of the bytes that are
-- written reach it, which the code does not look at.
pub data Saving : Type 0 where
  not_opened : Saving
  takes : ℕ → Saving

-- `config_save`: the result, and the file after it. A buffer without a NUL would be read past its end.
unfoldable pub config_save : Saving → List (List ℕ) → List ℕ → ℤ × List ℕ
config_save not_opened ls file = (e_inval, file)
config_save (takes n) ls file =
    (success, take n (c_string (config_dump ls (zeros data_size)) ++ 0 ∷ b'\n' ∷ []))
