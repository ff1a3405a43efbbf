-- ===== src/Keys/Revocation.antt =====
-- The batch revocations: what the preview shows is what the revocation takes.
use softmatrix_airlock.Base.{
  ℕ, ◌≡◌, refl, sym, ap, ◌∙◌, String, Bool, ◌&&◌, not, some, List, [], ◌∷◌, any, keep, ok, arith,
  if◌then◌else◌,
}
use softmatrix_airlock.Base.Text.{Text, ◌==◌ as text_eq}
use softmatrix_airlock.Sql.{update_where, IsPlain, below_clause}
use softmatrix_airlock.Sql.Like.{below_clause-in_subtree}
use softmatrix_airlock.Sql.Order.{tally, tally-reverse, tally-order_by, tally-keep, keep-ext}
use softmatrix_airlock.Paths.{in_subtree}
use softmatrix_airlock.Keys.Model.{Status, is_live, ApiKey, Table, OrgPath}
use softmatrix_airlock.Keys.Store.{
  has_key_id, in_orgs_below, list_by_org_subtree, revoke_by_org_subtree, revoke_all, mark_active,
  get,
}
use softmatrix_airlock.Sql.Ids.{row_of, row_of-update_where}
use softmatrix_airlock.Keys.Rows.{key_ids, get-row_of, row_of-get, set_status-found}

abbrev live : ApiKey → Bool
live k = is_live k.status

tally-preview :
    (p : ApiKey → Bool) (orgs : List OrgPath) (path : Text) (rows : Table)
    → tally p (list_by_org_subtree orgs path rows)
      ≡ tally (λ k. p k && in_orgs_below orgs path k) rows
unfolding list_by_org_subtree
tally-preview p orgs path rows =
    tally-reverse p _ ∙ tally-order_by p _ _ ∙ tally-keep p (in_orgs_below orgs path) rows

module _ (orgs : List OrgPath) (path : Text) where
  abbrev inside : ApiKey → Bool
  inside k = in_orgs_below orgs path k

  -- The organisations below the path, by the resolver's test.
  abbrev pub lies_below : ApiKey → Bool
  lies_below k = any (λ o. in_subtree path o.path && text_eq o.id k.org_id) orgs

  inside-lies_below : IsPlain path → (k : ApiKey) → inside k ≡ lies_below k
  unfolding in_orgs_below
  inside-lies_below plain k = go orgs
    where
      go :
          (os : List OrgPath)
          → any (λ o. below_clause path o.path && text_eq o.id k.org_id) os
            ≡ any (λ o. in_subtree path o.path && text_eq o.id k.org_id) os
      go [] = refl
      go (o ∷ os) = rw (below_clause-in_subtree path o.path plain, go os)

  -- What a revocation of the subtree did to the rows, and the count that it reports.
  pub record Revoked (rows rows' : Table) (n : ℕ) : Type 0 where
    pub count : n ≡ tally (λ k. is_live k.status) (list_by_org_subtree orgs path rows)
    pub dead : tally (λ k. is_live k.status) (list_by_org_subtree orgs path rows') ≡ 0
    pub same_keys :
        (id : String)
        → tally (has_key_id id) (list_by_org_subtree orgs path rows')
          ≡ tally (has_key_id id) (list_by_org_subtree orgs path rows)
    pub outside : keep (λ k. not (lies_below k)) rows' ≡ keep (λ k. not (lies_below k)) rows

  count-revoked :
      (rows : Table)
      → (revoke_by_org_subtree orgs path rows).1 ≡ tally (λ k. live k && inside k) rows
  unfolding revoke_by_org_subtree update_where
  count-revoked [] = refl
  count-revoked (k ∷ rows) = ground (arith, count-revoked rows)

  dead-revoked :
      (rows : Table) → tally (λ k. live k && inside k) (revoke_by_org_subtree orgs path rows).0 ≡ 0
  unfolding revoke_by_org_subtree update_where
  dead-revoked [] = refl
  dead-revoked (k ∷ rows) = ground (arith, dead-revoked rows)

  outside-revoked :
      (rows : Table)
      → keep (λ k. not (inside k)) (revoke_by_org_subtree orgs path rows).0
        ≡ keep (λ k. not (inside k)) rows
  unfolding revoke_by_org_subtree update_where in_orgs_below
  outside-revoked [] = refl
  outside-revoked (k ∷ rows) = ground (arith, outside-revoked rows)

  same-revoked :
      (id : String) (rows : Table)
      → tally (λ k. has_key_id id k && inside k) (revoke_by_org_subtree orgs path rows).0
        ≡ tally (λ k. has_key_id id k && inside k) rows
  unfolding revoke_by_org_subtree update_where in_orgs_below
  same-revoked id [] = refl
  same-revoked id (k ∷ rows) = ground (arith, same-revoked id rows)

  -- For a path without wildcards, `RevokeByOrgSubtree` reports as many keys as the preview
  -- `ListByOrgSubtree` shows live ones; after it the preview shows the same keys and none that is
  -- live; and the rows of the keys outside the subtree are as they were.
  pub revoke_by_org_subtree-Revoked :
      (rows : Table)
      → IsPlain path
      → Revoked rows
          (revoke_by_org_subtree orgs path rows).0
          (revoke_by_org_subtree orgs path rows).1
  revoke_by_org_subtree-Revoked rows plain = record {
    count = count-revoked rows ∙ sym (tally-preview live orgs path rows);
    dead = tally-preview live orgs path _ ∙ dead-revoked rows;
    same_keys = λ id.
        tally-preview (has_key_id id) orgs path _
        ∙ same-revoked id rows
        ∙ sym (tally-preview (has_key_id id) orgs path rows);
    outside =
        keep-ext _ _ (λ k. ap not (sym (inside-lies_below plain k))) _
        ∙ outside-revoked rows
        ∙ keep-ext _ _ (λ k. ap not (inside-lies_below plain k)) rows;
  }

-- Nothing is live after `RevokeAll`.
revoke_all-dead : (rows : Table) → tally live (revoke_all rows).0 ≡ 0
unfolding revoke_all update_where
revoke_all-dead [] = refl
revoke_all-dead (k ∷ rows) = ground (arith, revoke_all-dead rows)

revoke_all-count : (rows : Table) → (revoke_all rows).1 ≡ tally live rows
unfolding revoke_all update_where
revoke_all-count [] = refl
revoke_all-count (k ∷ rows) = ground (arith, revoke_all-count rows)

-- `MarkActive` has no guard on the status: where it follows a `RevokeAll`, as it does when a key is
-- issued at the same time, it succeeds for every key that is there, and the key is active again.
pub mark_active-after-revoke_all :
    (id : String) (rows : Table) (k : ApiKey)
    → get id rows ≡ ok k
    → (rows' : Table) × (mark_active id (revoke_all rows).0 ≡ ok rows')
      × (get id rows' ≡ ok (record k { status = Status.active }))
unfolding mark_active revoke_all
mark_active-after-revoke_all id rows k h =
    let change = λ (r : ApiKey). record r { status = Status.revoked } in
    let dead = update_where live change rows in
    let mid : row_of id dead.0 ≡ some (if live k then change k else k) =
      row_of-update_where live change (λ r. refl) id rows ∙ rw (get-row_of id rows k h) in
    let (rows', done, here) = set_status-found id Status.active dead.0 _ mid in
    (rows', done, row_of-get id rows' _ (here ∙ ap some (same_key k)))
  where
    same_key :
        (k : ApiKey)
        → record (if live k then record k { status = Status.revoked } else k) {
          status = Status.active;
        }
          ≡ record k { status = Status.active }
    same_key k = ground arith
