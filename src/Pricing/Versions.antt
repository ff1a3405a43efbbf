-- ===== src/Pricing/Versions.antt =====
-- The price table answers with the latest version of the model that is in effect.
use softmatrix_airlock.Base.{
  ℕ, ◌≤◌, ◌<◌, ◌≡◌, refl, sym, ap, ◌∙◌, ◌⊎◌, ◌↔◌, inl, inr, true, Option, none, some, List, [], ◌∷◌,
  ◌++◌, Some, keep, ok, both_ok, arith, Bool-cases, ltb, if◌then◌else◌,
}
use mathlib.Core.List.{append_assoc, append-nil}
use softmatrix_airlock.Base.Text.{Text, ◌==◌, eq_iff, eq→path}
use softmatrix_airlock.Paths.{slash_free}
use softmatrix_airlock.Pricing.Model.{ModelPrice}
use softmatrix_airlock.Pricing.Table.{
  Entries, validate_tier_order, model_key, add_price, add_all, get, choose, sort_entries,
}

abbrev pub In : ModelPrice → List ModelPrice → Type 0
In v vs = Some (λ u. u ≡ v) vs

abbrev pub IsSorted : List ModelPrice → Type 0
IsSorted [] = Unit
IsSorted (v ∷ vs) = ((w : ModelPrice) → In w vs → v.effective_from ≤ w.effective_from) × IsSorted vs

abbrev pub key_of : ModelPrice → Text
key_of p = model_key p.provider p.model

abbrev pub rows : Option (List ModelPrice) → List ModelPrice
rows none = []
rows (some vs) = vs

get-add_price :
    (k j : Text) (p : ModelPrice) (es : Entries)
    → rows (get k (add_price j p es)) ≡ rows (get k es) ++ (if j == k then p ∷ [] else [])
unfolding get add_price
get-add_price k j p [] = ground arith
get-add_price k j p ((i, vs) ∷ es) = elim (Bool-cases (i == j)) [
  | inl e ↦ rw e (ground (arith, eq_iff i j, append-nil vs, append-nil (rows (get k es))))
  | inr e ↦
      rw e
        (ground (arith, eq_iff i j, eq_iff i k, eq_iff j k, append-nil vs, get-add_price k j p es))
]

keep-step :
    (k : Text) (p : ModelPrice) (ps : List ModelPrice)
    → (if key_of p == k then p ∷ [] else []) ++ keep (λ q. key_of q == k) ps
      ≡ keep (λ q. key_of q == k) (p ∷ ps)
keep-step k p ps = ground arith

pub get-add_all :
    (k : Text) (ps : List ModelPrice) (es es' : Entries)
    → add_all ps es ≡ ok es'
    → rows (get k es') ≡ rows (get k es) ++ keep (λ p. key_of p == k) ps
unfolding add_all
get-add_all k [] es es' h = let e : es' ≡ es = cc h in rw e (sym (append-nil (rows (get k es))))
get-add_all k (p ∷ ps) es es' h =
    let (u, a, b) = both_ok (validate_tier_order p) _ h in
    get-add_all k ps (add_price (key_of p) p es) es' b
    ∙ rw (get-add_price k (key_of p) p es)
        (append_assoc (rows (get k es)) _ _ ∙ ap (λ r. rows (get k es) ++ r) (keep-step k p ps))

pub In-keep :
    (k : Text) (v : ModelPrice) (ps : List ModelPrice)
    → In v (keep (λ p. key_of p == k) ps) ↔ (In v ps × (key_of v ≡ k))
In-keep k v [] = (λ h. absurd h, λ h. h.0)
In-keep k v (p ∷ ps) =
    let (to, from) = In-keep k v ps in
    elim (Bool-cases (key_of p == k)) [
      | inl e ↦ rw e (
        elim [
          | inl q ↦ (inl q, ap key_of (sym q) ∙ eq→path (key_of p) k e)
          | inr m ↦ (inr (to m).0, (to m).1)
        ],
        λ h. elim h.0 [ inl q ↦ inl q | inr m ↦ inr (from (m, h.1)) ],
      )
      | inr e ↦ rw e (
        λ m. (inr (to m).0, (to m).1),
        λ h. elim h.0 [
          | inl q ↦ absurd (cc (e, (eq_iff (key_of p) k).1 (ap key_of q ∙ h.1)))
          | inr m ↦ from (m, h.1)
        ],
      )
    ]

pub model_key-injective :
    (a b m n : Text)
    → slash_free a ≡ true
    → slash_free b ≡ true
    → model_key a m ≡ model_key b n
    → (a ≡ b) × (m ≡ n)
unfolding model_key
model_key-injective [] [] m n ha hb h = (refl, cc h)
model_key-injective [] (c ∷ b) m n ha hb h = absurd (ground arith)
model_key-injective (c ∷ a) [] m n ha hb h = absurd (ground arith)
model_key-injective (c ∷ a) (d ∷ b) m n ha hb h =
    let ih = model_key-injective a b m n (ground arith) (ground arith) (ground arith) in
    let e : c ≡ d = ground arith in (ground (arith, ih.0), ih.1)

pub get-sort_entries :
    (sort : List ModelPrice → List ModelPrice) (k : Text) (es : Entries)
    → get k (sort_entries sort es) ≡ elim (get k es) [ none ↦ none | some vs ↦ some (sort vs) ]
unfolding get sort_entries
get-sort_entries sort k [] = refl
get-sort_entries sort k ((j, vs) ∷ es) = ground (arith, get-sort_entries sort k es)

-- The loop of `Lookup` on sorted versions, with one already chosen.
choose-some :
    (at : ℕ) (c : ModelPrice) (vs : List ModelPrice)
    → IsSorted (c ∷ vs)
    → c.effective_from ≤ at
    → (v : ModelPrice) × (choose at (some c) vs ≡ some v)
      × In v (c ∷ vs)
      × (v.effective_from ≤ at)
      × ((w : ModelPrice)
          → In w (c ∷ vs)
          → w.effective_from ≤ at
          → w.effective_from ≤ v.effective_from)
unfolding choose
choose-some at c [] s h =
    (c, refl, inl refl, h, λ w m _. elim m [ inl e ↦ rw e (omega arith) | inr z ↦ absurd z ])
choose-some at c (d ∷ ds) s h = elim (Bool-cases (ltb at d.effective_from)) [
  | inl e ↦ (
    c,
    rw e refl,
    inl refl,
    h,
    λ w m k. elim m [
      | inl q ↦ rw q (omega arith)
      | inr (inl q) ↦
          absurd (let z : at < w.effective_from = rw (← q) (ground arith) in omega arith)
      | inr (inr r) ↦
          absurd (let z = s.1.0 w r in let y : at < d.effective_from = ground arith in omega arith)
    ],
  )
  | inr e ↦
      let (v, f, m, k, best) = choose-some at d ds s.1 (ground arith) in
      (
        v,
        rw e f,
        inr m,
        k,
        λ w n l. elim n [
          | inl q ↦
              let a = best d (inl refl) (ground arith) in
              let b = s.0 d (inl refl) in rw (← q) (omega arith)
          | inr r ↦ best w r l
        ],
      )
]

pub choose-none :
    (at : ℕ) (vs : List ModelPrice)
    → IsSorted vs
    → ((v : ModelPrice) × (choose at none vs ≡ some v)
        × In v vs
        × (v.effective_from ≤ at)
        × ((w : ModelPrice)
            → In w vs
            → w.effective_from ≤ at
            → w.effective_from ≤ v.effective_from))
      ⊎ ((choose at none vs ≡ none) × ((w : ModelPrice) → In w vs → at < w.effective_from))
unfolding choose
choose-none at [] s = inr (refl, λ w m. absurd m)
choose-none at (d ∷ ds) s = elim (Bool-cases (ltb at d.effective_from)) [
  | inl e ↦ inr (
    rw e refl,
    λ w m.
        let z : at < d.effective_from = ground arith in
        elim m [ inl q ↦ rw (← q) z | inr r ↦ let y = s.0 w r in omega arith ],
  )
  | inr e ↦
      let (v, f, m, k, best) = choose-some at d ds s (ground arith) in inl (v, rw e f, m, k, best)
]
