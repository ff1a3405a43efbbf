-- ===== src/Issuer/Stale.antt =====
-- `CleanupStalePending` of internal/control/keyissue.go: it cleans up after rows of the table, and a
-- row that it deletes is not one of another key.
use softmatrix_airlock.Base.{
  ℕ, ◌≡◌, inl, inr, String, true, false, not, some, List, [], ◌∷◌, All, any, keep, ok, arith,
  Bool-cases, Option-cases, ltb,
}
use softmatrix_airlock.Sql.{order_by, insert_by}
use softmatrix_airlock.Sql.Ids.{UniqueIds, has_id}
use softmatrix_airlock.Keys.Model.{ApiKey, Table}
use softmatrix_airlock.Keys.Rows.{key_ids}
use softmatrix_airlock.Keys.Store.{has_key_id, delete, list_stale_pending}
use softmatrix_airlock.Effects.{Upstream, World, reads, next_fault, drop_fault}
use softmatrix_airlock.Effects.Triples.{Fault-cases}
use softmatrix_airlock.Issuer.{Crypto, cleanup_all, cleanup_stale_pending}
use softmatrix_airlock.Issuer.Owned.{Documented, Inv, All-keep}
use softmatrix_airlock.Issuer.Cleanup.{cleanup-Inv, cleanup-ok}
use text.Mathlib.TextEquality.{eq_iff}

All-insert_by :
    {A : Type 0} (P : A → Type 0) (key : A → ℕ) (r : A) (rs : List A)
    → P r
    → All P rs
    → All P (insert_by key r rs)
unfolding insert_by
All-insert_by P key r [] p h = (p, tt)
All-insert_by P key r (s ∷ ss) p h = elim (Bool-cases (ltb (key s) (key r))) [
  | inl e ↦ rw e (h.0, All-insert_by P key r ss p h.1)
  | inr e ↦ rw e (p, h)
]

All-order_by :
    {A : Type 0} (P : A → Type 0) (key : A → ℕ) (rs : List A) → All P rs → All P (order_by key rs)
unfolding order_by
All-order_by P key [] h = tt
All-order_by P key (r ∷ rs) h =
    All-insert_by P key r (order_by key rs) h.0 (All-order_by P key rs h.1)

module _ (crypto : Crypto) where
  -- The rows of the key's id keep the key that it keeps.
  abbrev pub Aims : Table → ApiKey → Type 0
  Aims rows k =
      (v : String)
      → crypto.decrypt k.upstream_key_enc ≡ some v
      → All (λ r. has_key_id k.id r ≡ true → crypto.decrypt r.upstream_key_enc ≡ some v) rows

  no_row :
      (id v : String) (rows : Table)
      → any (has_id id) rows ≡ false
      → All (λ r. has_key_id id r ≡ true → crypto.decrypt r.upstream_key_enc ≡ some v) rows
  no_row id v [] n = tt
  no_row id v (r ∷ rows) n = (λ t. absurd (ground arith), no_row id v rows (ground arith))

  extended :
      (r : ApiKey) (rows ks : Table)
      → any (has_id r.id) ks ≡ false
      → All (Aims rows) ks
      → All (Aims (r ∷ rows)) ks
  extended r rows [] n h = tt
  extended r rows (k ∷ ks) n (a, rest) = (
    λ v o. (λ t. absurd (ground (arith, eq_iff r.id k.id, eq_iff k.id r.id)), a v o),
    extended r rows ks (ground arith) rest,
  )

  own-Aims : (rows : Table) → UniqueIds rows → All (Aims rows) rows
  own-Aims [] u = tt
  own-Aims (r ∷ rows) (fresh, u) =
      (λ v o. (λ t. o, no_row r.id v rows fresh), extended r rows rows fresh (own-Aims rows u))

  -- The stale rows are rows of the table.
  stale-Aims :
      (older_than now : ℕ) (rows : Table)
      → UniqueIds rows
      → All (Aims rows) (list_stale_pending older_than now rows)
  unfolding list_stale_pending
  stale-Aims older_than now rows u =
      All-order_by (Aims rows) _ _ (All-keep (Aims rows) _ rows (own-Aims rows u))

  kept-Aims :
      (id : String) (rows rows' ks : Table)
      → delete id rows ≡ ok rows'
      → All (Aims rows) ks
      → All (Aims rows') ks
  unfolding delete
  kept-Aims id rows rows' [] h a = tt
  kept-Aims id rows rows' (k ∷ ks) h (a, rest) =
      let e : keep (λ r. not (has_key_id id r)) rows ≡ rows' = ground arith in
      (
        λ v o. rw (← e) (
            All-keep (λ r. has_key_id k.id r ≡ true → crypto.decrypt r.upstream_key_enc ≡ some v)
              (λ r. not (has_key_id id r)) rows (a v o)),
        kept-Aims id rows rows' ks h rest,
      )

module _ {U : Type 0} {up : Upstream U} (crypto : Crypto) (doc : Documented up) where
  Pending : Table → Table → Type 0
  Pending ks rows = All (Aims crypto rows) ks

  cleanup_all-Inv :
      (ks : Table) (n : ℕ) (w : World U)
      → Inv crypto doc w.keys w.upstream
      → Pending ks w.keys
      → Inv crypto doc
          (cleanup_all up crypto ks n w).1.keys
          (cleanup_all up crypto ks n w).1.upstream
  unfolding cleanup_all Pending reads
  cleanup_all-Inv [] n w inv a = inv
  cleanup_all-Inv (k ∷ ks) n w inv (a, rest) =
      elim (Option-cases (crypto.decrypt k.upstream_key_enc)) [
        | inl e ↦ rw (cleanup_all, e) (cleanup_all-Inv ks n w inv rest)
        | inr (v, e) ↦
            let (inv1, rest1) =
              cleanup-Inv crypto doc (Pending ks)
                (λ id rows rows' h x. kept-Aims crypto id rows rows' ks h x) k.id v w inv rest
                (a v e) in
            let done = cleanup-ok crypto doc k.id v w in
            rw (cleanup_all, e, done) (cleanup_all-Inv ks _ _ inv1 rest1)
      ]

  pub cleanup_stale_pending-Keeps :
      (older_than now : ℕ) (w : World U)
      → Inv crypto doc w.keys w.upstream
      → Inv crypto doc
          (cleanup_stale_pending up crypto older_than now w).1.keys
          (cleanup_stale_pending up crypto older_than now w).1.upstream
  unfolding cleanup_stale_pending Pending reads
  cleanup_stale_pending-Keeps older_than now w inv = elim (Fault-cases (next_fault w.faults)) [
    | inl e ↦ rw e (
        cleanup_all-Inv (list_stale_pending older_than now w.keys) 0 (drop_fault w) inv
          (stale-Aims crypto older_than now w.keys inv.0))
    | inr (inl e) ↦ rw e inv
    | inr (inr e) ↦ rw e inv
  ]
