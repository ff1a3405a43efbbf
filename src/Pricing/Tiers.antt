-- ===== src/Pricing/Tiers.antt =====
-- In a price whose tiers pass `validateTierOrder`, the selected tier is the smallest that takes the
-- input, and only an input above all the limits has none.
use softmatrix_airlock.Base.{
  ◌≡◌, refl, sym, subst, ◌⊎◌, inl, inr, true, false, ◌||◌, List, [], ◌∷◌, All, Some, ok, err, arith,
  Bool-cases,
}
use softmatrix_airlock.Base.Int.{ℤ, pos, ◌≤ℤ◌, leb_ℤ}
use softmatrix_airlock.Pricing.Model.{Tier, ModelPrice, no_tier, is_zero, first_tier, select_tier}
use softmatrix_airlock.Pricing.Table.{tiers_from, validate_tiers, validate_tier_order}

-- The tier takes an input of `n` tokens: it has no limit, or one that is not below `n`.
abbrev pub Takes : ℤ → Tier → Type 0
Takes n t = (t.max_input_tokens ≡ pos 0) ⊎ (n ≤ℤ t.max_input_tokens)

-- `t` is no larger than `u`: `u` has no limit, or both have one and that of `t` is not above.
abbrev pub NoLarger : Tier → Tier → Type 0
NoLarger t u =
    (u.max_input_tokens ≡ pos 0)
    ⊎ ((is_zero t.max_input_tokens ≡ false) × (t.max_input_tokens ≤ℤ u.max_input_tokens))

zero_eq : (a : ℤ) → is_zero a ≡ true → a ≡ pos 0
zero_eq a h = ground arith

-- No tier follows one without a limit.
none_behind :
    (prev : Tier) (ts : List Tier)
    → is_zero prev.max_input_tokens ≡ true
    → tiers_from prev ts ≡ ok tt
    → ts ≡ []
unfolding tiers_from
none_behind prev [] z h = refl
none_behind prev (t ∷ ts) z h = absurd (ground arith)

tiers_from-tail :
    (prev t : Tier) (ts : List Tier) → tiers_from prev (t ∷ ts) ≡ ok tt → tiers_from t ts ≡ ok tt
unfolding tiers_from
tiers_from-tail prev t ts h = ground arith

NoLarger-next :
    (prev t : Tier) (ts : List Tier)
    → is_zero prev.max_input_tokens ≡ false
    → tiers_from prev (t ∷ ts) ≡ ok tt
    → NoLarger prev t
unfolding tiers_from
NoLarger-next prev t ts z h = elim (Bool-cases (is_zero t.max_input_tokens)) [
  | inl e ↦ inl (zero_eq _ e)
  | inr e ↦ inr (z, ground arith)
]

NoLarger-trans : (t u v : Tier) → NoLarger t u → NoLarger u v → NoLarger t v
NoLarger-trans t u v h (inl e) = inl e
NoLarger-trans t u v (inl e) (inr (z, k)) = absurd (ground arith)
NoLarger-trans t u v (inr (z, h)) (inr (y, k)) = inr (z, omega arith)

All-map : {P Q : Tier → Type 0} (f : (t : Tier) → P t → Q t) (ts : List Tier) → All P ts → All Q ts
All-map f [] h = tt
All-map f (t ∷ ts) h = (f t h.0, All-map f ts h.1)

above_prev :
    (prev : Tier) (ts : List Tier)
    → is_zero prev.max_input_tokens ≡ false
    → tiers_from prev ts ≡ ok tt
    → All (NoLarger prev) ts
above_prev prev [] z h = tt
above_prev prev (t ∷ ts) z h =
    let first = NoLarger-next prev t ts z h in
    let behind = tiers_from-tail prev t ts h in
    (
      first,
      elim (Bool-cases (is_zero t.max_input_tokens)) [
        | inl e ↦ subst (All (NoLarger prev)) (sym (none_behind t ts e behind)) tt
        | inr e ↦ All-map (λ u k. NoLarger-trans prev t u first k) ts (above_prev t ts e behind)
      ],
    )

NoLarger-self : (t : Tier) → NoLarger t t
NoLarger-self t = elim (Bool-cases (is_zero t.max_input_tokens)) [
  | inl e ↦ inl (zero_eq _ e)
  | inr e ↦ inr (e, omega arith)
]

All-above :
    (t : Tier) (ts : List Tier) → validate_tiers (t ∷ ts) ≡ ok tt → All (NoLarger t) (t ∷ ts)
unfolding validate_tiers
All-above t ts h = (
  NoLarger-self t,
  elim (Bool-cases (is_zero t.max_input_tokens)) [
    | inl e ↦ subst (All (NoLarger t)) (sym (none_behind t ts e h)) tt
    | inr e ↦ above_prev t ts e h
  ],
)

validate_tiers-tail :
    (t : Tier) (ts : List Tier) → validate_tiers (t ∷ ts) ≡ ok tt → validate_tiers ts ≡ ok tt
unfolding validate_tiers
validate_tiers-tail t [] h = refl
validate_tiers-tail t (u ∷ ts) h = tiers_from-tail t u ts h

-- The test of the loop.
fits :
    (n : ℤ) (t : Tier)
    → (is_zero t.max_input_tokens || leb_ℤ n t.max_input_tokens) ≡ true
    → Takes n t
fits n t h = elim (Bool-cases (is_zero t.max_input_tokens)) [
  | inl e ↦ inl (zero_eq _ e)
  | inr e ↦ inr (ground arith)
]

Takes-fits :
    (n : ℤ) (t : Tier)
    → Takes n t
    → (is_zero t.max_input_tokens || leb_ℤ n t.max_input_tokens) ≡ true
Takes-fits n t (inl e) = rw e
Takes-fits n t (inr h) = ground arith

pub record IsSmallest (n : ℤ) (t : Tier) (ts : List Tier) : Type 0 where
  pub member : Some (λ u. u ≡ t) ts
  pub takes : Takes n t
  pub least : All (λ u. Takes n u → NoLarger t u) ts

first_tier-IsSmallest :
    (n : ℤ) (ts : List Tier)
    → validate_tiers ts ≡ ok tt
    → ((t : Tier) × (first_tier n ts ≡ ok t) × IsSmallest n t ts)
      ⊎ ((first_tier n ts ≡ err no_tier) × All (λ u. ¬ Takes n u) ts)
unfolding first_tier
first_tier-IsSmallest n [] h = inr (refl, tt)
first_tier-IsSmallest n (t ∷ ts) h =
    elim (Bool-cases (is_zero t.max_input_tokens || leb_ℤ n t.max_input_tokens)) [
      | inl e ↦ inl (
        t,
        rw e refl,
        record {
          member = inl refl;
          takes = fits n t e;
          least = All-map (λ u k _. k) (t ∷ ts) (All-above t ts h);
        },
      )
      | inr e ↦
          let no_fit : ¬ Takes n t = λ k. cc (e, Takes-fits n t k) in
          elim (first_tier-IsSmallest n ts (validate_tiers-tail t ts h)) [
            | inl (u, found, s) ↦ inl (
              u,
              rw e found,
              record {
                member = inr s.member;
                takes = s.takes;
                least = (λ k. absurd (no_fit k), s.least);
              },
            )
            | inr (lost, out) ↦ inr (rw e lost, (no_fit, out))
          ]
    ]

-- Where the tiers pass `validateTierOrder`, the selected tier takes the input and is no larger than
-- any other tier that does; and there is none exactly when no tier takes the input.
pub select_tier-IsSmallest :
    (p : ModelPrice) (n : ℤ)
    → validate_tier_order p ≡ ok tt
    → ((t : Tier) × (select_tier p n ≡ ok t) × IsSmallest n t p.tiers)
      ⊎ ((select_tier p n ≡ err no_tier) × All (λ u. ¬ Takes n u) p.tiers)
unfolding select_tier validate_tier_order
select_tier-IsSmallest p n h = first_tier-IsSmallest n p.tiers h
