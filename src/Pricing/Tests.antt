-- ===== src/Pricing/Tests.antt =====
-- Runs of the price table and of the cost, with an insertion sort for the library's.
use softmatrix_airlock.Base.{
  ℕ, ◌≤◌, ◌<◌, ◌≡◌, refl, ◌⊎◌, ◌↔◌, inl, inr, List, [], ◌∷◌, All, ok, err, arith, Bool-cases, ltb,
  if◌then◌else◌,
}
use softmatrix_airlock.Base.Int.{pos}
use softmatrix_airlock.Base.Text.{bytes, ◌==◌}
use softmatrix_airlock.Pricing.Model.{Tier, ModelPrice, no_tier, select_tier, cost}
use softmatrix_airlock.Pricing.Table.{
  TableError, Entries, validate_tier_order, model_key, add_price, add_all, lookup, sort_entries,
  new_memory_table,
}
use softmatrix_airlock.Pricing.Cost.{
  Tokens, Prices, usage_of, tier_of, exact_price, Rounded, cost-Rounded,
}
use softmatrix_airlock.Pricing.Tiers.{Takes, IsSmallest, select_tier-IsSmallest}
use softmatrix_airlock.Pricing.Versions.{In, IsSorted}
use softmatrix_airlock.Pricing.Lookup.{Sorts, IsOf, IsLatest, lookup-IsLatest}

insert : ModelPrice → List ModelPrice → List ModelPrice
insert p [] = p ∷ []
insert p (v ∷ vs) =
    let rest = insert p vs in if ltb v.effective_from p.effective_from then v ∷ rest else p ∷ v ∷ vs

insertion_sort : List ModelPrice → List ModelPrice
unfolding insert
insertion_sort [] = []
insertion_sort (p ∷ ps) = insert p (insertion_sort ps)

In-insert : (v p : ModelPrice) (vs : List ModelPrice) → In v (insert p vs) ↔ In v (p ∷ vs)
unfolding insert
In-insert v p [] = (λ h. h, λ h. h)
In-insert v p (w ∷ ws) =
    let (to, from) = In-insert v p ws in
    elim (Bool-cases (ltb w.effective_from p.effective_from)) [
      | inl e ↦ rw e (
        elim [ inl q ↦ inr (inl q) | inr m ↦ elim (to m) [ inl q ↦ inl q | inr r ↦ inr (inr r) ] ],
        elim [
          | inl q ↦ inr (from (inl q))
          | inr (inl q) ↦ inl q
          | inr (inr r) ↦ inr (from (inr r))
        ],
      )
      | inr e ↦ rw e (λ h. h, λ h. h)
    ]

insert-IsSorted : (p : ModelPrice) (vs : List ModelPrice) → IsSorted vs → IsSorted (insert p vs)
unfolding insert
insert-IsSorted p [] h = (λ w m. absurd m, tt)
insert-IsSorted p (v ∷ vs) h = elim (Bool-cases (ltb v.effective_from p.effective_from)) [
  | inl e ↦ rw e (
    λ w m. elim ((In-insert w p vs).0 m) [ inl q ↦ rw (← q) (ground arith) | inr r ↦ h.0 w r ],
    insert-IsSorted p vs h.1,
  )
  | inr e ↦ rw e (
    λ w m. elim m [
      | inl q ↦ rw (← q) (ground arith)
      | inr r ↦
          let a = h.0 w r in
          let b : p.effective_from ≤ v.effective_from = ground arith in omega arith
    ],
    h,
  )
]

insertion_sort-Sorts : Sorts insertion_sort
unfolding insertion_sort
insertion_sort-Sorts = record { sorted = sorted; kept = kept }
  where
    sorted : (vs : List ModelPrice) → IsSorted (insertion_sort vs)
    sorted [] = tt
    sorted (v ∷ vs) = insert-IsSorted v (insertion_sort vs) (sorted vs)

    kept : (v : ModelPrice) (vs : List ModelPrice) → In v (insertion_sort vs) ↔ In v vs
    kept v [] = (λ h. h, λ h. h)
    kept v (w ∷ ws) =
        let (to, from) = kept v ws in
        let (a, b) = In-insert v w (insertion_sort ws) in
        (
          λ m. elim (a m) [ inl q ↦ inl q | inr r ↦ inr (to r) ],
          λ m. b (elim m [ inl q ↦ inl q | inr r ↦ inr (from r) ]),
        )

abbrev small : Tier
small =
    tier_of (pos 1000)
      (record { input = 2000000; cached = 500000; output = 8000000; reasoning = 8000000 })

abbrev big : Tier
big =
    tier_of (pos 0)
      (record { input = 4000000; cached = 1000000; output = 9000000; reasoning = 9000000 })

abbrev version : ℕ → ModelPrice
version at = record {
  provider = bytes "ali";
  model = bytes "qwen";
  effective_from = at;
  currency = "CNY";
  tiers = small ∷ big ∷ [];
}

abbrev prices : List ModelPrice
prices = version 20 ∷ version 10 ∷ []

version_accepted : validate_tier_order (version 10) ≡ ok tt
unfolding validate_tier_order
version_accepted = refl

select_tier-IsSmallest_example :
    ((t : Tier) × (select_tier (version 10) (pos 1001) ≡ ok t)
      × IsSmallest (pos 1001) t (small ∷ big ∷ []))
    ⊎ ((select_tier (version 10) (pos 1001) ≡ err no_tier)
        × All (λ u. ¬ Takes (pos 1001) u) (small ∷ big ∷ []))
select_tier-IsSmallest_example = select_tier-IsSmallest (version 10) (pos 1001) version_accepted

abbrev call : Tokens
call = record { fresh = 600; cached = 401; plain = 7; reasoning = 3 }

abbrev big_prices : Prices
big_prices = record { input = 4000000; cached = 1000000; output = 9000000; reasoning = 9000000 }

cost-Rounded_example :
    (c : ℕ) × (cost (version 10) (usage_of call) ≡ ok (pos c))
    × Rounded (exact_price call big_prices) c
unfolding select_tier
cost-Rounded_example =
    cost-Rounded (version 10) call (pos 0) big_prices refl (omega arith) (omega arith) (omega arith)

table : Entries
table = (bytes "ali/qwen", version 10 ∷ version 20 ∷ []) ∷ []

table_built : new_memory_table insertion_sort prices ≡ ok table
unfolding new_memory_table add_all validate_tier_order add_price model_key sort_entries
    insertion_sort table ◌==◌
table_built = refl

lookup-IsLatest_example :
    ((v : ModelPrice) × (lookup table (bytes "ali") (bytes "qwen") 15 ≡ ok v)
      × IsLatest prices (bytes "ali") (bytes "qwen") 15 v)
    ⊎ ((e : TableError) × (lookup table (bytes "ali") (bytes "qwen") 15 ≡ err e)
        × ((w : ModelPrice)
            → In w prices
            → IsOf (bytes "ali") (bytes "qwen") w
            → 15 < w.effective_from))
lookup-IsLatest_example =
    lookup-IsLatest insertion_sort insertion_sort-Sorts prices table (bytes "ali") (bytes "qwen") 15
      table_built refl
      (λ v m. elim m [
        | inl q ↦ rw (← q) refl
        | inr (inl q) ↦ rw (← q) refl
        | inr (inr z) ↦ absurd z
      ])
