-- ===== src/Devices/RealPath.antt =====
-- The device that `find_dev_path` of common/utils.c takes from the real path of a link.
use oscillatord.Base.{
  ℕ, ◌≡◌, sym, ap, ◌∙◌, true, false, not, ◌&&◌, List, [], ◌∷◌, ◌++◌, ◌==◌, if◌then◌else◌, take,
}
use oscillatord.Config.{is_empty}
use oscillatord.Devices.{link, node, slash, last_token, dev_name_size, dev_slash, find_dev_path}
use mathlib.Core.List.{append-nil, append_assoc}

-- A name in a path: no slash in it.
abbrev pub IsName : List ℕ → Type 0
IsName [] = Unit
IsName (c ∷ cs) = ((c == slash) ≡ false) × IsName cs

last_token-name :
    (a : ℕ) (cs now last : List ℕ) → IsName cs → last_token (a ∷ now) last cs ≡ a ∷ (now ++ cs)
unfolding last_token
last_token-name a [] now last h = ap (λ t. a ∷ t) (sym (append-nil now))
last_token-name a (c ∷ cs) now last h =
    ap
      (λ b.
        last_token (if b then [] else a ∷ (now ++ c ∷ [])) (if b && true then a ∷ now else last) cs)
      h.0
    ∙ last_token-name a cs (now ++ c ∷ []) last h.1
    ∙ ap (λ t. a ∷ t) (append_assoc now (c ∷ []) cs)

-- Whatever comes before a slash, the last token is the name behind it.
last_token-dir :
    (parent now last : List ℕ) (c : ℕ) (cs : List ℕ)
    → IsName (c ∷ cs)
    → last_token now last (parent ++ slash ∷ c ∷ cs) ≡ c ∷ cs
unfolding last_token
last_token-dir [] now last c cs h =
    ap
      (λ b.
        last_token (if b then [] else c ∷ [])
          (if b && false then [] else (if not (is_empty now) then now else last)) cs)
      h.0
    ∙ last_token-name c cs [] _ h.1
last_token-dir (d ∷ parent) now last c cs h = last_token-dir parent _ _ c cs h

-- For a link, `find_dev_path` gives `/dev/` and the last name of the real path, cut at the 100 bytes
-- of `dev_name`.
pub find_dev_path-name :
    (n parent : List ℕ) (c : ℕ) (cs : List ℕ)
    → IsName (c ∷ cs)
    → find_dev_path (node n (link (parent ++ slash ∷ c ∷ cs)))
      ≡ dev_slash ++ take dev_name_size (c ∷ cs)
unfolding find_dev_path
find_dev_path-name n parent c cs h =
    ap (λ t. dev_slash ++ take dev_name_size t) (last_token-dir parent [] [] c cs h)
