-- ===== src/Paths.antt =====
-- Materialised paths of the organisation tree, "/root/rd/gw": how the code cuts them into ids
-- (`ancestorChain` of internal/authz/resolver.go, `ancestorIDs` of internal/control/approvers.go)
-- and how it tests for a subtree (the prefix with a separator).
pub mod Segments
pub mod Subtree
use softmatrix_airlock.Base.{
  ℕ, ◌≡◌, Bool, true, false, ◌&&◌, ◌||◌, List, [], ◌∷◌, ◌++◌, if◌then◌else◌, keep, ◌==◌ as eq_ℕ,
}
use softmatrix_airlock.Base.Text.{Text, ◌==◌, has_prefix}

abbrev pub slash : ℕ
slash = 47

abbrev pub cons_head : ℕ → List Text → List Text
cons_head c [] = (c ∷ []) ∷ []
cons_head c (w ∷ ws) = (c ∷ w) ∷ ws

-- strings.Split(s, "/"): the first part, and the parts behind it.
unfoldable pub split : Text → Text × List Text
split [] = ([], [])
split (c ∷ cs) = let (w, ws) = split cs in if eq_ℕ c slash then ([], w ∷ ws) else (c ∷ w, ws)

abbrev pub is_empty {ℓ} : {A : Type ℓ} → List A → Bool
is_empty [] = true
is_empty (x ∷ xs) = false

abbrev pub non_empty : Text → Bool
non_empty [] = false
non_empty (c ∷ cs) = true

-- strings.Trim(s, "/").
unfoldable pub trim_left : Text → Text
trim_left [] = []
trim_left (c ∷ cs) = let rest = trim_left cs in if eq_ℕ c slash then rest else c ∷ cs

unfoldable pub trim_right : Text → Text
trim_right [] = []
trim_right (c ∷ cs) =
    let rest = trim_right cs in if eq_ℕ c slash && is_empty rest then [] else c ∷ rest

-- `ancestorIDs`: the parts that are not empty.
unfoldable pub ancestor_ids : Text → List Text
ancestor_ids path = let (w, ws) = split path in keep non_empty (w ∷ ws)

-- The loop of `ancestorChain`, which trims first.
unfoldable pub chain_ids : Text → List Text
chain_ids path = ancestor_ids (trim_right (trim_left path))

-- `target == home || HasPrefix(target, home + "/")`.
unfoldable pub in_subtree : Text → Text → Bool
in_subtree home target = target == home || has_prefix target (home ++ slash ∷ [])

-- The path that a chain of ids stands for: a slash before each.
unfoldable pub path_of : List Text → Text
path_of [] = []
path_of (id ∷ ids) = slash ∷ (id ++ path_of ids)

-- An id as the program makes them: not empty, and no slash in it.
abbrev pub slash_free : Text → Bool
slash_free [] = true
slash_free (c ∷ cs) = if eq_ℕ c slash then false else slash_free cs

pub record IsId (id : Text) : Type 0 where
  pub has_text : non_empty id ≡ true
  pub no_slash : slash_free id ≡ true
