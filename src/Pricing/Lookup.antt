-- ===== src/Pricing/Lookup.antt =====
-- `NewMemoryTable` and `Lookup` together.
use softmatrix_airlock.Base.{
  ℕ, ◌≤◌, ◌<◌, ◌≡◌, refl, sym, ap, ◌∙◌, subst, ◌⊎◌, ◌↔◌, inl, inr, true, none, some, List, [], keep,
  ok, err, both_ok, Option-cases,
}
use softmatrix_airlock.Base.Text.{Text, ◌==◌}
use softmatrix_airlock.Paths.{slash_free}
use softmatrix_airlock.Pricing.Model.{ModelPrice}
use softmatrix_airlock.Pricing.Table.{
  TableError, Entries, no_record, not_yet, model_key, add_all, get, lookup, sort_entries,
  new_memory_table,
}
use softmatrix_airlock.Pricing.Versions.{
  In, IsSorted, rows, key_of, get-add_all, In-keep, get-sort_entries, choose-none,
  model_key-injective,
}

-- What `sort.Slice` by EffectiveFrom promises: an order, and the same elements.
pub record Sorts (sort : List ModelPrice → List ModelPrice) : Type 0 where
  pub sorted : (vs : List ModelPrice) → IsSorted (sort vs)
  pub kept : (v : ModelPrice) (vs : List ModelPrice) → In v (sort vs) ↔ In v vs

-- A version of this model.
pub record IsOf (provider model : Text) (v : ModelPrice) : Type 0 where
  pub same_provider : v.provider ≡ provider
  pub same_model : v.model ≡ model

-- `v` is the latest of the prices for the model that are in effect at the instant.
pub record IsLatest (ps : List ModelPrice) (provider model : Text) (at : ℕ) (v : ModelPrice)
    : Type 0 where
  pub member : In v ps
  pub of : IsOf provider model v
  pub effective : v.effective_from ≤ at
  pub latest :
      (w : ModelPrice)
      → In w ps
      → IsOf provider model w
      → w.effective_from ≤ at
      → w.effective_from ≤ v.effective_from

module _ (sort : List ModelPrice → List ModelPrice) (sorts : Sorts sort) where
  -- The members of the sorted versions under a key.
  In-entry :
      (ps : List ModelPrice) (es : Entries) (k : Text) (vs : List ModelPrice) (v : ModelPrice)
      → add_all ps [] ≡ ok es
      → get k es ≡ some vs
      → In v (sort vs) ↔ (In v ps × (key_of v ≡ k))
  unfolding get
  In-entry ps es k vs v h g =
      let same : vs ≡ keep (λ p. key_of p == k) ps = ap rows (sym g) ∙ get-add_all k ps [] es h in
      let (to, from) = In-keep k v ps in
      let (a, b) = sorts.kept v vs in
      (λ m. to (subst (In v) same (a m)), λ m. b (subst (In v) (sym same) (from m)))

  not-In-missing :
      (ps : List ModelPrice) (es : Entries) (k : Text) (v : ModelPrice)
      → add_all ps [] ≡ ok es
      → get k es ≡ none
      → ¬ (In v ps × (key_of v ≡ k))
  unfolding get
  not-In-missing ps es k v h g m =
      let same : [] ≡ keep (λ p. key_of p == k) ps = ap rows (sym g) ∙ get-add_all k ps [] es h in
      subst (In v) (sym same) ((In-keep k v ps).1 m)

  -- With prices whose table is accepted, and providers without a slash, `Lookup` finds the latest
  -- version of the model in effect; and it fails exactly where every version of the model is later
  -- than the instant (or there is none).
  pub lookup-IsLatest :
      (ps : List ModelPrice) (t : Entries) (provider model : Text) (at : ℕ)
      → new_memory_table sort ps ≡ ok t
      → slash_free provider ≡ true
      → ((v : ModelPrice) → In v ps → slash_free v.provider ≡ true)
      → ((v : ModelPrice) × (lookup t provider model at ≡ ok v) × IsLatest ps provider model at v)
        ⊎ ((e : TableError) × (lookup t provider model at ≡ err e)
            × ((w : ModelPrice) → In w ps → IsOf provider model w → at < w.effective_from))
  unfolding new_memory_table lookup
  lookup-IsLatest ps t provider model at h free frees =
      let (es, a, b) = both_ok (add_all ps []) _ h in
      let k = model_key provider model in
      let of_key = λ (w : ModelPrice) (m : In w ps) (e : key_of w ≡ k).
        let (p, q) = model_key-injective w.provider provider w.model model (frees w m) free e in
        (let r : IsOf provider model w = record { same_provider = p; same_model = q } in r) in
      let at_key = λ (w : ModelPrice) (o : IsOf provider model w).
        (let r : key_of w ≡ k = rw (o.same_provider, o.same_model) in r) in
      let table : sort_entries sort es ≡ t = cc b in
      let at_t = ap (get k) (sym table) ∙ get-sort_entries sort k es in
      elim (Option-cases (get k es)) [
        | inl g ↦
            let gone : get k t ≡ none = at_t ∙ rw g in
            inr (
              no_record,
              rw (gone, lookup) refl,
              λ w m o. absurd (not-In-missing ps es k w a g (m, at_key w o)),
            )
        | inr (vs, g) ↦
            let found : get k t ≡ some (sort vs) = at_t ∙ rw g in
            elim (choose-none at (sort vs) (sorts.sorted vs)) [
              | inl (v, f, m, e, best) ↦
                  let n = (In-entry ps es k vs v a g).0 m in
                  inl (
                    v,
                    rw (found, f, lookup) refl,
                    record {
                      member = n.0;
                      of = of_key v n.0 n.1;
                      effective = e;
                      latest = λ w i o l. best w ((In-entry ps es k vs w a g).1 (i, at_key w o)) l;
                    },
                  )
              | inr (f, late) ↦ inr (
                not_yet,
                rw (found, f, lookup) refl,
                λ w i o. late w ((In-entry ps es k vs w a g).1 (i, at_key w o)),
              )
            ]
      ]
