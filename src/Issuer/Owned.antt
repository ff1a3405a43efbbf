-- ===== src/Issuer/Owned.antt =====
-- What the issuer keeps true: every key that stands upstream belongs to a row that names it, so that
-- it can be seen and revoked. With what is documented of the upstream's endpoints.
use softmatrix_airlock.Base.{
  ℕ, ◌≡◌, refl, sym, ap, subst, ◌∙◌, ◌⊎◌, inl, inr, String, Bool, true, false, not, some, List, [],
  ◌∷◌, ◌++◌, All, Some, any, keep, Result, ok, arith, Bool-cases, Result-cases,
}
use softmatrix_airlock.Sql.{update_where}
use softmatrix_airlock.Sql.Ids.{UniqueIds, UniqueIds-update_where, has_id}
use softmatrix_airlock.Keys.Model.{ApiKey, Table, StoreError}
use softmatrix_airlock.Keys.Store.{has_key_id, delete}
use softmatrix_airlock.Keys.Rows.{key_ids}
use softmatrix_airlock.Effects.{
  UpstreamKey, Upstream, replied, not_found, World, writes, on_keys, drop_fault,
}
use softmatrix_airlock.Effects.Triples.{writes-leaves, writes-ok}
use softmatrix_airlock.Issuer.{Crypto}

-- The documented behaviour of the upstream's server: `has` says which keys stand in a state of it.
-- A response may be lost, so a reply other than 2xx or 404 says nothing of what was done.
pub record Documented {U : Type 0} (up : Upstream U) : Type 0 where
  pub has : String → U → Bool
  pub generate_adds :
      (k : UpstreamKey) (v : String) (u : U)
      → has v (up.generate k u).1 ≡ true
      → (v ≡ k.key) ⊎ (has v u ≡ true)
  pub generate_replied :
      (k : UpstreamKey) (u : U)
      → (up.generate k u).0 ≡ replied
      → has k.key (up.generate k u).1 ≡ true
  pub info_same : (key v : String) (u : U) → has v (up.info key u).1 ≡ has v u
  pub info_not_found : (key : String) (u : U) → (up.info key u).0 ≡ not_found → has key u ≡ false
  pub block_same : (key v : String) (u : U) → has v (up.block key u).1 ≡ has v u
  pub remove_only : (key v : String) (u : U) → has v (up.remove key u).1 ≡ true → has v u ≡ true
  pub remove_replied :
      (key : String) (u : U) → (up.remove key u).0 ≡ replied → has key (up.remove key u).1 ≡ false
  pub update_same :
      (key v : String) (budget : ℕ) (u : U) → has v (up.update key budget u).1 ≡ has v u

-- The cipher opens what it closed.
pub record SoundCrypto (c : Crypto) : Type 0 where
  pub opens : (v e : String) → c.encrypt v ≡ some e → c.decrypt e ≡ some v

module _ {A : Type 0} (P : A → Type 0) where
  pub Some-update_where :
      (test : A → Bool) (change : A → A)
      → ((r : A) → P r → P (change r))
      → (rs : List A) → Some P rs
      → Some P (update_where test change rs).0
  unfolding update_where
  Some-update_where test change f [] h = absurd h
  Some-update_where test change f (r ∷ rs) (inl p) = elim (Bool-cases (test r)) [
    | inl e ↦ rw e (inl (f r p))
    | inr e ↦ rw e (inl p)
  ]
  Some-update_where test change f (r ∷ rs) (inr p) = elim (Bool-cases (test r)) [
    | inl e ↦ rw e (inr (Some-update_where test change f rs p))
    | inr e ↦ rw e (inr (Some-update_where test change f rs p))
  ]

  pub Some-append : (xs ys : List A) → Some P xs → Some P (xs ++ ys)
  Some-append [] ys h = absurd h
  Some-append (x ∷ xs) ys (inl p) = inl p
  Some-append (x ∷ xs) ys (inr p) = inr (Some-append xs ys p)

  pub Some-last : (xs : List A) (y : A) → P y → Some P (xs ++ y ∷ [])
  Some-last [] y p = inl p
  Some-last (x ∷ xs) y p = inr (Some-last xs y p)

  pub All-keep : (test : A → Bool) (rs : List A) → All P rs → All P (keep test rs)
  All-keep test [] h = tt
  All-keep test (r ∷ rs) h = elim (Bool-cases (test r)) [
    | inl e ↦ rw e (h.0, All-keep test rs h.1)
    | inr e ↦ rw e (All-keep test rs h.1)
  ]

  -- A row that the test drops did not have `P`.
  pub Some-keep :
      (test : A → Bool) (rs : List A)
      → All (λ r. test r ≡ false → P r → ⊥) rs
      → Some P rs
      → Some P (keep test rs)
  Some-keep test [] a h = absurd h
  Some-keep test (r ∷ rs) a (inl p) = elim (Bool-cases (test r)) [
    | inl e ↦ rw e (inl p)
    | inr e ↦ absurd (a.0 e p)
  ]
  Some-keep test (r ∷ rs) a (inr p) = elim (Bool-cases (test r)) [
    | inl e ↦ rw e (inr (Some-keep test rs a.1 p))
    | inr e ↦ rw e (Some-keep test rs a.1 p)
  ]

any-keep :
    (id : String) (test : ApiKey → Bool) (rows : Table)
    → any (has_id id) rows ≡ false
    → any (has_id id) (keep test rows) ≡ false
any-keep id test [] h = refl
any-keep id test (r ∷ rows) h = ground (arith, any-keep id test rows)

pub UniqueIds-keep :
    (test : ApiKey → Bool) (rows : Table) → UniqueIds rows → UniqueIds (keep test rows)
UniqueIds-keep test [] u = tt
UniqueIds-keep test (r ∷ rows) u = elim (Bool-cases (test r)) [
  | inl e ↦ rw e (any-keep r.id test rows u.0, UniqueIds-keep test rows u.1)
  | inr e ↦ rw e (UniqueIds-keep test rows u.1)
]

-- A statement on the keys leaves the table or writes it, whatever answer it gives.
module _ {U : Type 0} (f : Table → Result StoreError Table) where
  pub writes_keys-leaves :
      (P : Table → U → Type 0) (w : World U)
      → P w.keys w.upstream
      → ((rows : Table) → f w.keys ≡ ok rows → P rows w.upstream)
      → P (writes (on_keys f) w).1.keys (writes (on_keys f) w).1.upstream
  writes_keys-leaves P w p q =
      writes-leaves (λ w'. P w'.keys w'.upstream) (on_keys f) w p
        (λ w' h. elim (Result-cases (f w.keys)) [
          | inl (rows, e) ↦
              let same : record (drop_fault w) { keys = rows } ≡ w' = ground arith in
              subst (λ x. P x.keys x.upstream) same (q rows e)
          | inr (x, e) ↦ absurd (ground arith)
        ])

  -- Where it answers without an error, it has written.
  pub writes_keys-ok :
      (w : World U) (u : Unit {0})
      → (writes (on_keys f) w).0 ≡ ok u
      → (rows : Table) × (f w.keys ≡ ok rows)
        × ((writes (on_keys f) w).1.keys ≡ rows)
        × ((writes (on_keys f) w).1.upstream ≡ w.upstream)
  writes_keys-ok w u h =
      let z = writes-ok (on_keys f) w u h in
      elim (Result-cases (f w.keys)) [
        | inl (rows, e) ↦
            let same : record (drop_fault w) { keys = rows } ≡ (writes (on_keys f) w).1 =
              ground arith in
            (rows, e, ap (λ x. x.keys) (sym same), ap (λ x. x.upstream) (sym same))
        | inr (x, e) ↦ absurd (ground arith)
      ]

module _ {U : Type 0} {up : Upstream U} (crypto : Crypto) (doc : Documented up) where
  -- The row keeps this key of the upstream.
  abbrev pub Owner : String → ApiKey → Type 0
  Owner v r = crypto.decrypt r.upstream_key_enc ≡ some v

  abbrev pub Owned : Table → U → Type 0
  Owned rows u = (v : String) → doc.has v u ≡ true → Some (Owner v) rows

  abbrev pub Inv : Table → U → Type 0
  Inv rows u = UniqueIds rows × Owned rows u

  -- Every row of the id keeps this key.
  abbrev pub Aim : String → String → Table → Type 0
  Aim id v rows = All (λ r. has_key_id id r ≡ true → Owner v r) rows

  -- A write that keeps the ids and the encrypted keys keeps the invariant.
  pub Inv-update_where :
      (test : ApiKey → Bool) (change : ApiKey → ApiKey)
      → ((r : ApiKey) → (change r).id ≡ r.id)
      → ((r : ApiKey) → (change r).upstream_key_enc ≡ r.upstream_key_enc)
      → (rows : Table) (u : U) → Inv rows u
      → Inv (update_where test change rows).0 u
  Inv-update_where test change same_id same_enc rows u (unique, owned) = (
    UniqueIds-update_where test change same_id rows unique,
    λ v h.
        Some-update_where (Owner v) test change (λ r p. ap crypto.decrypt (same_enc r) ∙ p) rows
          (owned v h),
  )

  -- A row goes whose key does not stand upstream.
  pub Inv-delete :
      (id v : String) (rows rows' : Table) (u : U)
      → Inv rows u
      → Aim id v rows
      → doc.has v u ≡ false
      → delete id rows ≡ ok rows'
      → Inv rows' u
  unfolding delete
  Inv-delete id v rows rows' u (unique, owned) aim gone h =
      let e : keep (λ k. not (has_key_id id k)) rows ≡ rows' = ground arith in
      rw (← e) (
        UniqueIds-keep (λ k. not (has_key_id id k)) rows unique,
        λ x here.
            Some-keep (Owner x) (λ k. not (has_key_id id k)) rows (aimed x here rows aim)
              (owned x here),
      )
    where
      aimed :
          (x : String)
          → doc.has x u ≡ true
          → (rs : Table) → Aim id v rs
          → All (λ r. not (has_key_id id r) ≡ false → Owner x r → ⊥) rs
      aimed x here [] a = tt
      aimed x here (r ∷ rs) a = (
        λ t p.
            let own = a.0 (ground arith) in
            let same : v ≡ x = ground arith in
            let gone' = ap (λ y. doc.has y u) same in ground arith,
        aimed x here rs a.1,
      )
