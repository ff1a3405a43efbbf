-- ===== src/Issuer/NoOrphans.antt =====
-- Every operation of the issuer keeps the invariant of `Issuer.Owned`.
use softmatrix_airlock.Base.{
  ℕ, suc, ◌+◌, ◌≡◌, refl, sym, ◌∙◌, subst, inl, inr, String, Bool, true, false, ◌&&◌, Option, none,
  some, List, [], ◌∷◌, Result, ok, err, arith, Bool-cases, Option-cases, Result-cases,
  if◌then◌else◌, ◌==◌ as eq_ℕ,
}
use softmatrix_airlock.Base.Text.{Text}
use softmatrix_airlock.Base.Int.{ℤ}
use softmatrix_airlock.Sql.{update_where}
use softmatrix_airlock.Keys.Model.{Status, is_active, ApiKey, Table, key_not_active, constraint}
use softmatrix_airlock.Keys.Rows.{key_ids}
use softmatrix_airlock.Keys.Store.{
  has_key_id, revoke, rotated, rotate, breaks_index, get, mark_upstream_blocked,
  record_block_attempt, list_revoked_unblocked,
}
use softmatrix_airlock.Effects.{
  Upstream, World, Error, cipher_failed, pure, lift, ◌>>=◌, reads, writes, on_keys, calls,
}
use softmatrix_airlock.Effects.Triples.{Keeps}
use softmatrix_airlock.Issuer.{
  Org, Crypto, IssueRequest, Draw, issue, issue_row, new_upstream_key, from_option, generate,
  revoke_key, get_key, block_upstream, cleanup_stale_pending, rotate_key, window_of,
  record_block_failure, blocked_or_gone, after_block, block_all, block_pending_upstream,
  max_block_attempts, block_scan_batch_size,
}
use softmatrix_airlock.Issuer.Owned.{
  Documented, SoundCrypto, Inv, Inv-update_where, writes_keys-leaves,
}
use softmatrix_airlock.Issuer.Issue.{set_status-Inv, issue_row-Inv}
use softmatrix_airlock.Issuer.Stale.{cleanup_stale_pending-Keeps}

module _ {U : Type 0} {up : Upstream U} (crypto : Crypto) (doc : Documented up) where
  -- The invariant of a world.
  abbrev pub NoOrphans : World U → Type 0
  NoOrphans w = Inv crypto doc w.keys w.upstream

  reads-Keeps : {A : Type 0} (f : World U → Result Error A) → Keeps NoOrphans (reads f)
  unfolding reads
  reads-Keeps f w inv = inv

  block-Keeps : (key : String) → Keeps NoOrphans (calls (up.block key))
  unfolding calls
  block-Keeps key w (unique, owned) =
      (unique, λ v here. owned v (sym (doc.block_same key v w.upstream) ∙ here))

  mark-Keeps :
      (id : String) (now : ℕ)
      → Keeps NoOrphans (writes (on_keys (λ rows. ok (mark_upstream_blocked id now rows))))
  unfolding mark_upstream_blocked
  mark-Keeps id now w inv =
      writes_keys-leaves (λ rows. ok (mark_upstream_blocked id now rows)) (Inv crypto doc) w inv
        (λ rows e.
          let same : mark_upstream_blocked id now w.keys ≡ rows = ground arith in
          subst (λ x. Inv crypto doc x w.upstream) same
            (Inv-update_where crypto doc (has_key_id id)
              (λ k. record k { upstream_blocked_at = some now }) (λ r. refl) (λ r. refl) w.keys
              w.upstream inv))

  attempt-Keeps :
      (id : String) → Keeps NoOrphans (writes (on_keys (λ rows. ok (record_block_attempt id rows))))
  unfolding record_block_attempt
  attempt-Keeps id w inv =
      writes_keys-leaves (λ rows. ok (record_block_attempt id rows)) (Inv crypto doc) w inv
        (λ rows e.
          let same : record_block_attempt id w.keys ≡ rows = ground arith in
          subst (λ x. Inv crypto doc x w.upstream) same
            (Inv-update_where crypto doc (has_key_id id)
              (λ k. record k { upstream_block_attempts = k.upstream_block_attempts + 1 })
              (λ r. refl) (λ r. refl) w.keys w.upstream inv))

  revoke-Keeps : (id : String) → Keeps NoOrphans (writes (on_keys (revoke id)))
  unfolding revoke
  revoke-Keeps id w inv =
      writes_keys-leaves (revoke id) (Inv crypto doc) w inv
        (λ rows e. set_status-Inv crypto doc id Status.revoked w.keys rows w.upstream inv e)

  rotate-Keeps :
      (id h : String) (p : Text) (until now : ℕ)
      → Keeps NoOrphans (writes (on_keys (rotate id h p until now)))
  unfolding rotate rotated
  rotate-Keeps id h p until now w inv =
      writes_keys-leaves (rotate id h p until now) (Inv crypto doc) w inv (λ rows e.
        let test = λ (k : ApiKey). has_key_id id k && is_active k.status in
        let same : (update_where test (rotated h p until now) w.keys).0 ≡ rows =
          rotated_rows (breaks_index id h w.keys) (update_where test (rotated h p until now) w.keys)
            rows e in
        subst (λ x. Inv crypto doc x w.upstream) same
          (Inv-update_where crypto doc test (rotated h p until now) (λ r. refl) (λ r. refl) w.keys
            w.upstream inv))
    where
      rotated_rows :
          (b : Bool) (r : Table × ℕ) (rows : Table)
          → (if b
              then err constraint
              else if eq_ℕ r.1 0
              then elim (get id r.0) [ err e ↦ err e | ok k ↦ err key_not_active ]
              else ok r.0)
            ≡ ok rows
          → r.0 ≡ rows
      rotated_rows true r rows e = absurd (ground arith)
      rotated_rows false r rows e = elim (Bool-cases (eq_ℕ r.1 0)) [
        | inr f ↦ ground arith
        | inl t ↦ elim (Result-cases (get id r.0)) [
          | inl (k, q) ↦ absurd (ground arith)
          | inr (x, q) ↦ absurd (ground arith)
        ]
      ]

  block_upstream-Keeps :
      (id : String) (key : Option String) (now : ℕ)
      → Keeps NoOrphans (block_upstream up crypto id key now)
  unfolding block_upstream
  block_upstream-Keeps id none now w inv = inv
  block_upstream-Keeps id (some key) now w inv =
      let inv1 = block-Keeps key w inv in
      elim (Result-cases (calls (up.block key) w).0) [
        | inl (u, e) ↦ rw e (mark-Keeps id now (calls (up.block key) w).1 inv1)
        | inr (x, e) ↦ rw e inv1
      ]

  pub revoke_key-Keeps : (id : String) (now : ℕ) → Keeps NoOrphans (revoke_key up crypto id now)
  unfolding revoke_key
  revoke_key-Keeps id now w inv =
      let read = reads (get_key up crypto id) w in
      let write = writes (on_keys (revoke id)) read.1 in
      let inv1 = revoke-Keeps id read.1 (reads-Keeps (get_key up crypto id) w inv) in
      elim (Result-cases read.0) [
        | inr (x, e) ↦ rw e (reads-Keeps (get_key up crypto id) w inv)
        | inl (k, e) ↦ elim (Result-cases write.0) [
          | inr (x, e') ↦ rw (e, e') inv1
          | inl (u, e') ↦
              rw (e, e')
                (block_upstream-Keeps id (crypto.decrypt k.upstream_key_enc) now write.1 inv1)
        ]
      ]

  -- A program that ends with a read.
  then_read :
      {A B : Type 0} (f : World U → Result Error A) (g : A → B)
      → Keeps NoOrphans (reads f >>= λ a. pure (g a))
  then_read f g w inv = elim (Result-cases (reads f w).0) [
    | inl (a, e) ↦ rw e (reads-Keeps f w inv)
    | inr (x, e) ↦ rw e (reads-Keeps f w inv)
  ]

  pub rotate_key-Keeps :
      (id : String) (window : ℤ) (body : Option Text) (now : ℕ)
      → Keeps NoOrphans (rotate_key up crypto id window body now)
  unfolding rotate_key
  rotate_key-Keeps id window body now w inv = elim (Result-cases (window_of up crypto window)) [
    | inr (x, e) ↦ rw e inv
    | inl (win, e) ↦ elim (Result-cases (generate crypto body)) [
      | inr (x, e') ↦ rw (e, e') inv
      | inl (g, e') ↦
          let write = writes (on_keys (rotate id g.key_hash g.prefix (now + win) now)) w in
          let inv1 = rotate-Keeps id g.key_hash g.prefix (now + win) now w inv in
          elim (Result-cases write.0) [
            | inr (x, e'') ↦ rw (e, e', e'') inv1
            | inl (u, e'') ↦
                rw (e, e', e'')
                  (then_read (get_key up crypto id) (λ k. (g.plaintext, k)) write.1 inv1)
          ]
    ]
  ]

  after_block-Keeps :
      (k : ApiKey) (now : ℕ) (b : Bool) → Keeps NoOrphans (after_block up crypto k now b)
  unfolding after_block record_block_failure
  after_block-Keeps k now false w inv = attempt-Keeps k.id w inv
  after_block-Keeps k now true w inv = mark-Keeps k.id now w inv

  block_all-Keeps :
      (ks : List ApiKey) (now done failures : ℕ)
      → Keeps NoOrphans (block_all up crypto ks now done failures)
  unfolding block_all record_block_failure
  block_all-Keeps [] now done failures w inv = inv
  block_all-Keeps (k ∷ ks) now done failures w inv =
      elim (Option-cases (crypto.decrypt k.upstream_key_enc)) [
        | inl e ↦
            rw (block_all, e)
              (block_all-Keeps ks now done (suc failures) _ (attempt-Keeps k.id w inv))
        | inr (key, e) ↦
            let call = calls (up.block key) w in
            let after = after_block up crypto k now (blocked_or_gone up crypto call.0) call.1 in
            let inv1 =
              after_block-Keeps k now (blocked_or_gone up crypto call.0) call.1
                (block-Keeps key w inv) in
            elim (Result-cases after.0) [
              | inl (c, e') ↦ rw (block_all, e, e') (block_all-Keeps ks now _ _ after.1 inv1)
              | inr (x, e') ↦ rw (block_all, e, e') inv1
            ]
      ]

  pub block_pending_upstream-Keeps :
      (now : ℕ) → Keeps NoOrphans (block_pending_upstream up crypto now)
  unfolding block_pending_upstream
  block_pending_upstream-Keeps now w inv =
      let pick = λ (x : World U).
        ok (list_revoked_unblocked max_block_attempts block_scan_batch_size x.keys) in
      let inv1 = reads-Keeps pick w inv in
      elim (Result-cases (reads pick w).0) [
        | inr (x, e) ↦ rw e inv1
        | inl (ks, e) ↦
            let inv2 = block_all-Keeps ks now 0 0 (reads pick w).1 inv1 in
            elim (Result-cases (block_all up crypto ks now 0 0 (reads pick w).1).0) [
              | inl (c, e') ↦ rw (e, e') inv2
              | inr (x, e') ↦ rw (e, e') inv2
            ]
      ]

  -- The part of `Issue` behind the check of the organisation.
  issue_rest :
      (sound : SoundCrypto crypto) (req : IssueRequest) (draw : Draw) (now : ℕ)
      → Keeps NoOrphans (
          lift (generate crypto draw.body) >>= λ g.
          lift (new_upstream_key draw.upstream_body) >>= λ key.
          lift (from_option cipher_failed (crypto.encrypt key)) >>= λ enc.
          issue_row up crypto req g draw.id key enc now)
  issue_rest sound req draw now w inv = elim (Result-cases (generate crypto draw.body)) [
    | inr (x, e) ↦ rw e inv
    | inl (g, e) ↦ elim (Result-cases (new_upstream_key draw.upstream_body)) [
      | inr (x, e') ↦ rw (e, e') inv
      | inl (key, e') ↦ elim (Option-cases (crypto.encrypt key)) [
        | inl e'' ↦ rw (e, e', e'') inv
        | inr (enc, e'') ↦
            rw (e, e', e'')
              (issue_row-Inv crypto doc req g draw.id key enc now w (sound.opens key enc e'') inv)
      ]
    ]
  ]

  issue-Keeps :
      (sound : SoundCrypto crypto) (get_org : Text → Result Error Org) (req : IssueRequest)
      (draw : Draw) (now : ℕ)
      → Keeps NoOrphans (issue up crypto get_org req draw now)
  unfolding issue
  issue-Keeps sound get_org req draw now w inv =
      let ask = reads (λ x. get_org req.org_id) w in
      let inv1 = reads-Keeps (λ x. get_org req.org_id) w inv in
      elim (Result-cases ask.0) [
        | inr (x, e) ↦ rw e inv1
        | inl (org, e) ↦ elim (Bool-cases org.is_key_holder) [
          | inr f ↦ rw (e, f) inv1
          | inl t ↦ rw (e, t) (issue_rest sound req draw now ask.1 inv1)
        ]
      ]

-- The operations of the issuer, each with what it is called with.
pub data Action : Type 0 where
  issues : (Text → Result Error Org) → IssueRequest → Draw → ℕ → Action
  revokes : String → ℕ → Action
  cleans : ℕ → ℕ → Action
  blocks : ℕ → Action
  rotates : String → ℤ → Option Text → ℕ → Action

module _ {U : Type 0} (up : Upstream U) (crypto : Crypto) where
  abbrev pub perform : World U → Action → World U
  perform w (issues get_org req draw now) = (issue up crypto get_org req draw now w).1
  perform w (revokes id now) = (revoke_key up crypto id now w).1
  perform w (cleans older_than now) = (cleanup_stale_pending up crypto older_than now w).1
  perform w (blocks now) = (block_pending_upstream up crypto now w).1
  perform w (rotates id window body now) = (rotate_key up crypto id window body now w).1

  abbrev pub perform_all : World U → List Action → World U
  perform_all w [] = w
  perform_all w (a ∷ rest) = perform_all (perform w a) rest

-- Whatever the issuer does, in whatever order, whichever statements of SQL fail (before or after they
-- take effect), and whatever the upstream replies (lost replies included): if the ids of the table are
-- unique and every key that stands upstream is kept, encrypted, by a row, then so it is afterwards.
-- The upstream is one that does what is documented of it, and the cipher opens what it closed.
pub no_orphans :
    {U : Type 0} {up : Upstream U} (crypto : Crypto) (doc : Documented up)
    (sound : SoundCrypto crypto) (actions : List Action) (w : World U)
    → Inv crypto doc w.keys w.upstream
    → Inv crypto doc
        (perform_all up crypto w actions).keys
        (perform_all up crypto w actions).upstream
no_orphans crypto doc sound [] w inv = inv
no_orphans {up = up} crypto doc sound (a ∷ actions) w inv =
    no_orphans crypto doc sound actions (perform up crypto w a) (one a)
  where
    one :
        (b : Action) → Inv crypto doc (perform up crypto w b).keys (perform up crypto w b).upstream
    one (issues get_org req draw now) = issue-Keeps crypto doc sound get_org req draw now w inv
    one (revokes id now) = revoke_key-Keeps crypto doc id now w inv
    one (cleans older_than now) = cleanup_stale_pending-Keeps crypto doc older_than now w inv
    one (blocks now) = block_pending_upstream-Keeps crypto doc now w inv
    one (rotates id window body now) = rotate_key-Keeps crypto doc id window body now w inv
