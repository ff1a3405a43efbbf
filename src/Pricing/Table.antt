-- ===== src/Pricing/Table.antt =====
-- internal/pricing/table.go. The providers and models are bytes, since `modelKey` joins them. The
-- library's `sort.Slice` is the parameter `sort`; the map is kept as a list of its entries.
use softmatrix_airlock.Base.{
  ℕ, ◌&&◌, not, Option, none, some, List, [], ◌∷◌, ◌++◌, Result, ok, err, ◌>>=◌, if◌then◌else◌, ltb,
}
use softmatrix_airlock.Base.Int.{leb_ℤ}
use softmatrix_airlock.Base.Text.{Text, ◌==◌}
use softmatrix_airlock.Pricing.Model.{Tier, ModelPrice, is_zero}

pub data TableError : Type 0 where
  unlimited_not_last not_ascending no_record not_yet : TableError

-- The loop of `validateTierOrder` from the second tier, with the tier before it.
unfoldable pub tiers_from : Tier → List Tier → Result TableError (Unit {0})
tiers_from prev [] = ok tt
tiers_from prev (cur ∷ ts) =
    let rest = tiers_from cur ts in
    if is_zero prev.max_input_tokens
    then err unlimited_not_last
    else if not (is_zero cur.max_input_tokens) && leb_ℤ cur.max_input_tokens prev.max_input_tokens
    then err not_ascending
    else rest

unfoldable pub validate_tiers : List Tier → Result TableError (Unit {0})
unfolding tiers_from
validate_tiers [] = ok tt
validate_tiers (t ∷ ts) = tiers_from t ts

unfoldable pub validate_tier_order : ModelPrice → Result TableError (Unit {0})
unfolding validate_tiers
validate_tier_order p = validate_tiers p.tiers

unfoldable pub model_key : Text → Text → Text
model_key provider model = provider ++ 47 ∷ model

abbrev pub Entries : Type 0
Entries = List (Text × List ModelPrice)

-- `byModel[k] = append(byModel[k], p)`
unfoldable pub add_price : Text → ModelPrice → Entries → Entries
add_price k p [] = (k, p ∷ []) ∷ []
add_price k p ((j, vs) ∷ es) =
    let rest = add_price k p es in if j == k then (j, vs ++ p ∷ []) ∷ es else (j, vs) ∷ rest

unfoldable pub add_all : List ModelPrice → Entries → Result TableError Entries
add_all [] es = ok es
add_all (p ∷ ps) es = do
  _ ← validate_tier_order p
  add_all ps (add_price (model_key p.provider p.model) p es)

unfoldable pub get : Text → Entries → Option (List ModelPrice)
get k [] = none
get k ((j, vs) ∷ es) = if j == k then some vs else get k es

-- The last version that is not after `at`, up to the first that is.
unfoldable pub choose : ℕ → Option ModelPrice → List ModelPrice → Option ModelPrice
choose at chosen [] = chosen
choose at chosen (v ∷ vs) =
    let rest = choose at (some v) vs in if ltb at v.effective_from then chosen else rest

unfoldable pub lookup : Entries → Text → Text → ℕ → Result TableError ModelPrice
lookup es provider model at = elim (get (model_key provider model) es) [
  | none ↦ err no_record
  | some vs ↦ elim (choose at none vs) [ none ↦ err not_yet | some v ↦ ok v ]
]

module _ (sort : List ModelPrice → List ModelPrice) where
  unfoldable pub sort_entries : Entries → Entries
  sort_entries [] = []
  sort_entries ((j, vs) ∷ es) = (j, sort vs) ∷ sort_entries es

  unfoldable pub new_memory_table : List ModelPrice → Result TableError Entries
  new_memory_table ps = do es ← add_all ps []; ok (sort_entries es)
