-- ===== src/Pricing/Model.antt =====
-- internal/pricing/model.go. An int64 is an integer, and each operation that can leave the range
-- wraps (`wrap64`).
use softmatrix_airlock.Base.{
  ℕ, String, Bool, ◌||◌, ◌&&◌, List, [], ◌∷◌, Result, ok, err, ◌>>=◌, if◌then◌else◌,
}
use softmatrix_airlock.Base.Text.{Text}
use softmatrix_airlock.Base.Int.{ℤ, pos, ◌+ℤ◌, ◌-ℤ◌, ◌*ℤ◌, leb_ℤ, ltb_ℤ, quot_ℤ, wrap64}

abbrev pub Micro : Type 0
Micro = ℤ

pub record Tier : Type 0 where
  pub max_input_tokens : ℤ
  pub input_per_1m : Micro
  pub cached_input_per_1m : Micro
  pub output_per_1m : Micro
  pub reasoning_per_1m : Micro

-- The provider and the model are bytes, which the price table joins. `effective_from` is an instant, in a unit that does not matter.
pub record ModelPrice : Type 0 where
  pub provider : Text
  pub model : Text
  pub effective_from : ℕ
  pub currency : String
  pub tiers : List Tier

pub record Usage : Type 0 where
  pub input_tokens : ℤ
  pub cached_input_tokens : ℤ
  pub output_tokens : ℤ
  pub reasoning_tokens : ℤ

pub data Error : Type 0 where
  no_tier negative cached_exceeds reasoning_exceeds : Error

abbrev pub is_zero : ℤ → Bool
is_zero a = leb_ℤ a (pos 0) && leb_ℤ (pos 0) a

unfoldable pub first_tier : ℤ → List Tier → Result Error Tier
first_tier n [] = err no_tier
first_tier n (t ∷ ts) =
    let rest = first_tier n ts in
    if is_zero t.max_input_tokens || leb_ℤ n t.max_input_tokens then ok t else rest

unfoldable pub select_tier : ModelPrice → ℤ → Result Error Tier
unfolding first_tier
select_tier p n = first_tier n p.tiers

unfoldable pub validate : Usage → Result Error (Unit {0})
validate u =
    if ltb_ℤ u.input_tokens (pos 0)
      || (ltb_ℤ u.output_tokens (pos 0)
          || (ltb_ℤ u.cached_input_tokens (pos 0) || ltb_ℤ u.reasoning_tokens (pos 0)))
    then err negative
    else if ltb_ℤ u.input_tokens u.cached_input_tokens
    then err cached_exceeds
    else if ltb_ℤ u.output_tokens u.reasoning_tokens
    then err reasoning_exceeds
    else ok tt

unfoldable pub per_million : ℤ → Micro → Micro
unfolding ◌*ℤ◌ quot_ℤ wrap64
per_million tokens price = quot_ℤ (wrap64 (tokens *ℤ price)) 1000000

infixl 65 ◌⊕◌ ◌⊖◌
-- `+` and `-` of int64.
unfoldable pub ◌⊕◌ : ℤ → ℤ → ℤ
unfolding ◌+ℤ◌ wrap64
a ⊕ b = wrap64 (a +ℤ b)

unfoldable pub ◌⊖◌ : ℤ → ℤ → ℤ
unfolding ◌-ℤ◌ wrap64
a ⊖ b = wrap64 (a -ℤ b)

-- The four summands for a tier.
unfoldable pub total_for : Tier → Usage → Micro
total_for tier u =
    per_million (u.input_tokens ⊖ u.cached_input_tokens) tier.input_per_1m
    ⊕ per_million u.cached_input_tokens tier.cached_input_per_1m
    ⊕ per_million (u.output_tokens ⊖ u.reasoning_tokens) tier.output_per_1m
    ⊕ per_million u.reasoning_tokens tier.reasoning_per_1m

unfoldable pub cost : ModelPrice → Usage → Result Error Micro
cost p u = do _ ← validate u; tier ← select_tier p u.input_tokens; ok (total_for tier u)
