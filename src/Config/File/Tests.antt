-- ===== src/Config/File/Tests.antt =====
-- The configuration file of common/config.c at concrete inputs.
use oscillatord.Base.{ℕ, ◌≡◌, refl, ◌⊎◌, some, List, [], ◌∷◌, ◌++◌, arith}
use oscillatord.Base.Text.{zeros, c_string}
use oscillatord.Base.CError.{e_inval, success}
use oscillatord.Config.File.{
  split_lines, delete_at, delete_comments, bytes, read_file, value_of, get, get_default, remove_key,
  config_set, stringify, config_dump, not_opened, takes, config_save,
}
use oscillatord.Config.File.Comments.{delete_comments-without}
use oscillatord.Config.File.Keys.{get-config_set}
use oscillatord.Config.File.Saved.{IsLine, read_file-config_save}

abbrev a_1 : List ℕ
a_1 = b'a' ∷ b'=' ∷ b'1' ∷ []

abbrev b_2 : List ℕ
b_2 = b'b' ∷ b'=' ∷ b'2' ∷ []

abbrev comment : List ℕ
comment = b'#' ∷ b'c' ∷ []

abbrev lines : List (List ℕ)
lines = a_1 ∷ comment ∷ b_2 ∷ comment ∷ []

-- The text of those lines, with an empty one.
abbrev text : List ℕ
text = a_1 ++ b'\n' ∷ comment ++ b'\n' ∷ b'\n' ∷ b_2 ++ b'\n' ∷ comment

read_file_test : read_file 20 (bytes text) ≡ some (success, a_1 ∷ b_2 ∷ [])
unfolding read_file split_lines delete_comments delete_at c_string
read_file_test = refl

get_test : get_default (b'c' ∷ []) (b'7' ∷ []) (a_1 ∷ b_2 ∷ []) ≡ b'7' ∷ []
unfolding get_default get value_of
get_test = refl

-- Of two entries of one name only the first is replaced.
double_test :
    get (b'a' ∷ []) (config_set (b'a' ∷ []) (b'3' ∷ []) (a_1 ∷ a_1 ∷ [])) ≡ some (b'1' ∷ [])
unfolding config_set remove_key get value_of
double_test = refl

delete_comments-without_example : delete_comments 8 0 lines ≡ some (a_1 ∷ b_2 ∷ [])
delete_comments-without_example = delete_comments-without lines 8 (omega arith)

abbrev changed : List (List ℕ)
changed = config_set (b'a' ∷ []) (b'3' ∷ []) (a_1 ∷ b_2 ∷ [])

get-config_set_example :
    (get (b'a' ∷ []) changed ≡ some (b'3' ∷ []))
    × (get (b'b' ∷ []) changed ≡ get (b'b' ∷ []) (a_1 ∷ b_2 ∷ []))
unfolding remove_key value_of
get-config_set_example =
    get-config_set (b'a' ∷ []) (b'3' ∷ []) (b'b' ∷ []) (a_1 ∷ b_2 ∷ []) (refl, tt) (refl, tt) refl
      (refl, tt)

-- A line feed at the end leaves an empty entry.
feed_test : read_file 20 (bytes (a_1 ++ b'\n' ∷ [])) ≡ some (success, a_1 ∷ [] ∷ [])
unfolding read_file split_lines delete_comments delete_at c_string
feed_test = refl

a_1-IsLine : IsLine a_1
a_1-IsLine = record {
  some_byte = refl;
  not_comment = refl;
  no_feed = (refl, (refl, (refl, tt)));
  no_nul = (omega arith, (omega arith, (omega arith, tt)));
}

b_2-IsLine : IsLine b_2
b_2-IsLine = record {
  some_byte = refl;
  not_comment = refl;
  no_feed = (refl, (refl, (refl, tt)));
  no_nul = (omega arith, (omega arith, (omega arith, tt)));
}

abbrev two : List (List ℕ)
two = a_1 ∷ b_2 ∷ []

-- The old file is replaced.
read_file-config_save_example :
    (((config_save (takes 9) two comment).0 ≡ success)
      × (read_file 3 (bytes (config_save (takes 9) two comment).1) ≡ some (success, two)))
    ⊎ ((takes 9 ≡ not_opened) × (config_save (takes 9) two comment ≡ (e_inval, comment)))
unfolding stringify
read_file-config_save_example =
    read_file-config_save a_1 (b_2 ∷ []) 3 (takes 9) comment (a_1-IsLine, (b_2-IsLine, tt))
      (omega arith) (omega arith) (omega arith)

-- The disk is full: the result is that of a file that was written.
full_test : config_save (takes 2) two comment ≡ (success, b'a' ∷ b'=' ∷ [])
unfolding config_save config_dump c_string zeros stringify
full_test = refl
