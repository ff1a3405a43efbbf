-- ===== src/Issuer/Issue.antt =====
-- `Issue` of internal/control/keyissue.go keeps every upstream key owned by a row, on every branch.
use softmatrix_airlock.Base.{
  ℕ, ◌≡◌, refl, inl, inr, String, true, false, ◌||◌, some, [], ◌∷◌, ◌++◌, Some, any, ok, arith,
  Result-cases,
}
use softmatrix_airlock.Sql.{update_where}
use softmatrix_airlock.Sql.Rows.{update_where-All}
use softmatrix_airlock.Sql.Ids.{UniqueIds-append}
use softmatrix_airlock.Keys.Model.{Status, ApiKey, Table}
use softmatrix_airlock.Keys.Rows.{key_ids}
use softmatrix_airlock.Keys.Store.{has_key_id, pending_row, create_pending, set_status, mark_active}
use softmatrix_airlock.Effects.{Upstream, World, Act, pure, ◌>>=◌, writes, on_keys, calls}
use softmatrix_airlock.Issuer.{
  Crypto, IssueRequest, Generated, new_key_row, upstream_request, or_cleanup, issue_row,
}
use softmatrix_airlock.Issuer.Owned.{
  Documented, Owner, Inv, Aim, Some-append, Some-last, Inv-update_where, writes_keys-leaves,
  writes_keys-ok,
}
use softmatrix_airlock.Issuer.Cleanup.{or_cleanup-Inv}
use text.Mathlib.Text.{◌==◌}

module _ {U : Type 0} {up : Upstream U} (crypto : Crypto) (doc : Documented up) where
  -- The row that is inserted keeps its key, and no other row has its id.
  created :
      (k : ApiKey) (v : String) (now : ℕ) (rows rows' : Table) (u : U)
      → Owner crypto doc v k
      → create_pending k now rows ≡ ok rows'
      → Inv crypto doc rows u
      → Inv crypto doc rows' u × (Aim crypto doc k.id v rows' × Some (Owner crypto doc v) rows')
  unfolding create_pending pending_row
  created k v now rows rows' u own h (unique, owned) =
      let e : rows ++ pending_row k now ∷ [] ≡ rows' = ground arith in
      let fresh = no_such_id rows (ground arith) in
      rw (← e) (
        (
          UniqueIds-append rows (pending_row k now) unique fresh,
          λ x here. Some-append (Owner crypto doc x) rows (pending_row k now ∷ []) (owned x here),
        ),
        (aimed rows fresh, Some-last (Owner crypto doc v) rows (pending_row k now) own),
      )
    where
      no_such_id :
          (rs : Table)
          → any (λ r. r.id == k.id || r.key_hash == k.key_hash) rs ≡ false
          → any (has_key_id k.id) rs ≡ false
      no_such_id [] n = refl
      no_such_id (r ∷ rs) n = ground (arith, no_such_id rs)

      aimed :
          (rs : Table)
          → any (has_key_id k.id) rs ≡ false
          → Aim crypto doc k.id v (rs ++ pending_row k now ∷ [])
      aimed [] n = (λ t. own, tt)
      aimed (r ∷ rs) n = (λ t. absurd (ground arith), aimed rs (ground arith))

  set_status-rows :
      (id : String) (st : Status) (rows rows' : Table)
      → set_status id st rows ≡ ok rows'
      → (update_where (has_key_id id) (λ k. record k { status = st }) rows).0 ≡ rows'
  unfolding set_status
  set_status-rows id st rows rows' h = ground arith

  pub set_status-Inv :
      (id : String) (st : Status) (rows rows' : Table) (u : U)
      → Inv crypto doc rows u
      → set_status id st rows ≡ ok rows'
      → Inv crypto doc rows' u
  set_status-Inv id st rows rows' u inv h = rw (← set_status-rows id st rows rows' h) (
      Inv-update_where crypto doc (has_key_id id) (λ k. record k { status = st }) (λ r. refl)
        (λ r. refl) rows u inv)

  activated :
      (id v : String) (rows rows' : Table) (u : U)
      → Inv crypto doc rows u × Aim crypto doc id v rows
      → mark_active id rows ≡ ok rows'
      → Inv crypto doc rows' u × Aim crypto doc id v rows'
  unfolding mark_active
  activated id v rows rows' u (inv, aim) h = (
    set_status-Inv id Status.active rows rows' u inv h,
    rw (← set_status-rows id Status.active rows rows' h) (
        update_where-All (has_key_id id) (λ k. record k { status = Status.active })
          (λ r. has_key_id id r ≡ true → Owner crypto doc v r) (λ r t f. f) rows aim),
  )

  -- MarkActive, with its cleanup.
  activation-Inv :
      (id v : String) (w : World U)
      → Inv crypto doc w.keys w.upstream
      → Aim crypto doc id v w.keys
      → Inv crypto doc
          (or_cleanup up crypto id v (writes (on_keys (mark_active id))) w).1.keys
          (or_cleanup up crypto id v (writes (on_keys (mark_active id))) w).1.upstream
  activation-Inv id v w inv aim =
      let m : Act U (Unit {0}) = writes (on_keys (mark_active id)) in
      let (inv', aim') =
        writes_keys-leaves (mark_active id)
          (λ rows u. Inv crypto doc rows u × Aim crypto doc id v rows) w (inv, aim)
          (λ rows e. activated id v w.keys rows w.upstream (inv, aim) e) in
      elim (or_cleanup-Inv crypto doc id v m w inv' aim') [
        | inl (e, done) ↦ rw done inv'
        | inr (x, e, kept) ↦ kept
      ]

  -- GenerateKey adds at most the key of the row.
  generated-Inv :
      (req : IssueRequest) (id v : String) (now : ℕ) (w : World U)
      → Inv crypto doc w.keys w.upstream
      → Some (Owner crypto doc v) w.keys
      → Inv crypto doc w.keys (up.generate (upstream_request req id v now) w.upstream).1
  unfolding upstream_request
  generated-Inv req id v now w (unique, owned) here = (
    unique,
    λ x stands. elim (doc.generate_adds (upstream_request req id v now) x w.upstream stands) [
      | inl same ↦ rw same here
      | inr before ↦ owned x before
    ],
  )

  -- A program that only returns something after another.
  then_pure :
      {A B : Type 0} (m : Act U A) (f : A → B) (w : World U)
      → Inv crypto doc (m w).1.keys (m w).1.upstream
      → Inv crypto doc ((m >>= λ a. pure (f a)) w).1.keys ((m >>= λ a. pure (f a)) w).1.upstream
  then_pure m f w inv = elim (Result-cases (m w).0) [
    | inl (a, e) ↦ rw e inv
    | inr (x, e) ↦ rw e inv
  ]

  pub issue_row-Inv :
      (req : IssueRequest) (g : Generated) (id v enc : String) (now : ℕ) (w : World U)
      → crypto.decrypt enc ≡ some v
      → Inv crypto doc w.keys w.upstream
      → Inv crypto doc
          (issue_row up crypto req g id v enc now w).1.keys
          (issue_row up crypto req g id v enc now w).1.upstream
  unfolding issue_row new_key_row calls
  issue_row-Inv req g id v enc now w own inv =
      let k : ApiKey = new_key_row req id g enc in
      let insert : Act U (Unit {0}) = writes (on_keys (create_pending k now)) in
      let call : Act U (Unit {0}) = calls (up.generate (upstream_request req id v now)) in
      elim (Result-cases (insert w).0) [
        | inr (x, e) ↦ rw e (
            writes_keys-leaves (create_pending k now) (λ rows u. Inv crypto doc rows u) w inv
              (λ rows h. (created k v now w.keys rows w.upstream own h inv).0))
        | inl (u, e) ↦
            let (rows, h, same, up_same) = writes_keys-ok (create_pending k now) w u e in
            let (inv1, (aim1, here1)) = created k v now w.keys rows w.upstream own h inv in
            let w1 : World U = (insert w).1 in
            let inv2 : Inv crypto doc w1.keys
                (up.generate (upstream_request req id v now) w1.upstream).1 =
              generated-Inv req id v now w1 (rw (same, up_same) inv1) (rw same here1) in
            let aim2 : Aim crypto doc id v w1.keys = rw same aim1 in
            elim (or_cleanup-Inv crypto doc id v call w1 inv2 aim2) [
              | inr (x, e2, kept) ↦ rw (e, e2) kept
              | inl (e2, done) ↦
                  rw (e, done)
                    (then_pure (or_cleanup up crypto id v (writes (on_keys (mark_active id))))
                      (λ x. (g.plaintext, record k { status = Status.active })) (call w1).1
                      (activation-Inv id v (call w1).1 inv2 aim2))
            ]
      ]
