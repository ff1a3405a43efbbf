-- ===== src/Sql.antt =====
-- The statements of the Postgres stores: what UPDATE and SELECT do to the rows of a table, ORDER BY,
-- and LIKE with its wildcards. A table is the list of its rows.
pub mod Like
pub mod Rows
pub mod Order
pub mod Ids
use softmatrix_airlock.Base.{
  ℕ, zero, suc, ◌+◌, ◌≡◌, Bool, true, false, ◌&&◌, ◌||◌, Option, none, some, List, [], ◌∷◌, ◌++◌,
  map, ltb, keep, length, if◌then◌else◌, ◌==◌ as eq_ℕ,
}
use softmatrix_airlock.Base.Text.{Text, ◌==◌, has_prefix}
use softmatrix_airlock.Paths.{slash, is_empty}

-- One character of the text, with a test, and the rest of the match behind it.
abbrev pub one : (ℕ → Bool) → (Text → Bool) → Text → Bool
one test next [] = false
one test next (c ∷ t) = test c && next t

-- Any characters, with the rest of the match behind them.
abbrev pub any_suffix : (Text → Bool) → Text → Bool
any_suffix next [] = next []
any_suffix next (c ∷ t) = next (c ∷ t) || any_suffix next t

-- `text LIKE pattern`: '%' (37) stands for any characters, '_' (95) for one, and '\' (92) takes the
-- next one literally (at the end of a pattern Postgres refuses it).
unfoldable pub like : Text → Text → Bool
like [] t = is_empty t
like (p ∷ []) t =
    if eq_ℕ p 37
    then true
    else if eq_ℕ p 95
    then one (λ c. true) is_empty t
    else if eq_ℕ p 92
    then false
    else one (λ c. eq_ℕ c p) is_empty t
like (p ∷ q ∷ ps) t =
    let rest = like (q ∷ ps) in
    let escaped = like ps in
    if eq_ℕ p 37
    then any_suffix rest t
    else if eq_ℕ p 95
    then one (λ c. true) rest t
    else if eq_ℕ p 92
    then one (λ c. eq_ℕ c q) escaped t
    else one (λ c. eq_ℕ c p) rest t

-- `path = $1 OR path LIKE $1 || '/%'`
unfoldable pub below_clause : Text → Text → Bool
below_clause top path = path == top || like (top ++ slash ∷ 37 ∷ []) path

abbrev pub wildcard : ℕ → Bool
wildcard c = eq_ℕ c 37 || (eq_ℕ c 95 || eq_ℕ c 92)

abbrev pub IsPlain : Text → Type 0
IsPlain [] = Unit
IsPlain (c ∷ cs) = (wildcard c ≡ false) × IsPlain cs

module _ {A : Type 0} where
  -- UPDATE ... SET ... WHERE: the rows after it, and how many were affected.
  unfoldable pub update_where : (A → Bool) → (A → A) → List A → List A × ℕ
  update_where test change [] = ([], 0)
  update_where test change (r ∷ rs) =
      let (rest, n) = update_where test change rs in
      if test r then (change r ∷ rest, suc n) else (r ∷ rest, n)

  -- ORDER BY a key, ascending; ties stay in the order of the table.
  unfoldable pub insert_by : (A → ℕ) → A → List A → List A
  insert_by key r [] = r ∷ []
  insert_by key r (s ∷ ss) =
      let rest = insert_by key r ss in if ltb (key s) (key r) then s ∷ rest else r ∷ s ∷ ss

  unfoldable pub order_by : (A → ℕ) → List A → List A
  unfolding insert_by
  order_by key [] = []
  order_by key (r ∷ rs) = insert_by key r (order_by key rs)
