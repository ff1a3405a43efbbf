-- ===== src/Issuer/Issued.antt =====
-- What a successful `Issue` of internal/control/keyissue.go leaves behind.
use softmatrix_airlock.Base.{
  Option, subst, any, [], ◌∷◌, ◌++◌, some, none, false, err, Bool-cases, Option-cases, ℕ, ◌≡◌, refl,
  sym, ap, ◌∙◌, inl, inr, String, true, Result, ok, arith, Result-cases,
}
use softmatrix_airlock.Base.Text.{Text}
use softmatrix_airlock.Keys.Model.{Status, is_active, ApiKey, Table}
use softmatrix_airlock.Keys.Pending.{pending-active}
use softmatrix_airlock.Keys.Store.{has_key_id, pending_row, create_pending, mark_active}
use softmatrix_airlock.Effects.{
  Fault, fine, lost_before, lost_after, answer, next_fault, cipher_failed, org_not_key_holder,
  Upstream, Reply, replied, not_found, failed, reply_result, World, Error, Act, reads, drop_fault,
  writes, on_keys, calls,
}
use softmatrix_airlock.Issuer.{
  Crypto, IssueRequest, Generated, new_key_row, upstream_request, or_cleanup, issue_row,
  new_upstream_key, Org, Draw, issue, generate,
}
use softmatrix_airlock.Issuer.Owned.{Documented, SoundCrypto, writes_keys-ok}
use softmatrix_airlock.Issuer.Cleanup.{cleanup-ok}

module _ {U : Type 0} {up : Upstream U} (crypto : Crypto) (doc : Documented up) where
  -- A step with a cleanup behind it answers well only if the step did, and then nothing is cleaned up.
  or_cleanup-ok :
      (id v : String) (m : Act U (Unit {0})) (w : World U)
      → (or_cleanup up crypto id v m w).0 ≡ ok tt
      → ((m w).0 ≡ ok tt) × ((or_cleanup up crypto id v m w).1 ≡ (m w).1)
  unfolding or_cleanup
  or_cleanup-ok id v m w h = elim (Result-cases (m w).0) [
    | inl (u, e) ↦ (e, rw e refl)
    | inr (x, e) ↦ let done = cleanup-ok crypto doc id v (m w).1 in absurd (ground arith)
  ]

  replied-ok : (r : Reply) → reply_result r ≡ ok tt → r ≡ replied
  replied-ok replied h = refl
  replied-ok not_found h = absurd (ground arith)
  replied-ok failed h = absurd (ground arith)

  -- The steps of an issue that reports success, from its first write on.
  issue_row-steps :
      (req : IssueRequest) (g : Generated) (id v enc : String) (now : ℕ) (w : World U)
      (plaintext : Text) (k : ApiKey)
      → (issue_row up crypto req g id v enc now w).0 ≡ ok (plaintext, k)
      → (rows : Table) × (create_pending (new_key_row req id g enc) now w.keys ≡ ok rows)
        × (mark_active id rows ≡ ok (issue_row up crypto req g id v enc now w).1.keys)
        × (doc.has v (issue_row up crypto req g id v enc now w).1.upstream ≡ true)
        × (g.plaintext ≡ plaintext)
        × (record (new_key_row req id g enc) { status = Status.active } ≡ k)
  unfolding issue_row calls upstream_request
  issue_row-steps req g id v enc now w plaintext k h =
      let insert : Act U (Unit {0}) =
        writes (on_keys (create_pending (new_key_row req id g enc) now)) in
      let call : Act U (Unit {0}) = calls (up.generate (upstream_request req id v now)) in
      let mark : Act U (Unit {0}) = writes (on_keys (mark_active id)) in
      let w1 : World U = (insert w).1 in
      let w2 : World U = (or_cleanup up crypto id v call w1).1 in
      elim (Result-cases (insert w).0) [
        | inr (x, e) ↦ absurd (ground arith)
        | inl (u, e) ↦ elim (Result-cases (or_cleanup up crypto id v call w1).0) [
          | inr (x, e1) ↦ absurd (ground arith)
          | inl (u1, e1) ↦ elim (Result-cases (or_cleanup up crypto id v mark w2).0) [
            | inr (x, e2) ↦ absurd (ground arith)
            | inl (u2, e2) ↦
                let (rows, made, k1, s1) =
                  writes_keys-ok (create_pending (new_key_row req id g enc) now) w u e in
                let (c0, cw) = or_cleanup-ok id v call w1 e1 in
                let (m0, mw) = or_cleanup-ok id v mark w2 e2 in
                let (rows', active, k2, s2) = writes_keys-ok (mark_active id) w2 tt m0 in
                let stands =
                  doc.generate_replied (upstream_request req id v now) w1.upstream
                    (replied-ok _ c0) in
                let active_row : ApiKey = record (new_key_row req id g enc) {
                  status = Status.active;
                } in
                let good : Result Error (Text × ApiKey) = ok (g.plaintext, active_row) in
                let answer : good ≡ ok (plaintext, k) = ground arith in
                (
                  rows,
                  made,
                  rw (e, e1, e2)
                      (ap (mark_active id) (sym (ap (λ x. x.keys) cw ∙ k1))
                        ∙ active
                        ∙ ap ok (sym (ap (λ x. x.keys) mw ∙ k2))),
                  rw (e, e1, e2)
                      (ap (doc.has v) (ap (λ x. x.upstream) mw ∙ s2 ∙ ap (λ x. x.upstream) cw)
                        ∙ stands),
                  ground arith,
                  ground arith,
                )
          ]
        ]
      ]

  generate-hash :
      (body : Option Text) (g : Generated)
      → generate crypto body ≡ ok g
      → g.key_hash ≡ crypto.hash g.plaintext
  unfolding generate
  generate-hash none g h = absurd (ground arith)
  generate-hash (some body) g h = cc h

  -- What comes before the first write.
  issue-starts :
      (get_org : Text → Result Error Org) (req : IssueRequest) (draw : Draw) (now : ℕ) (w : World U)
      (a : Text × ApiKey)
      → (issue up crypto get_org req draw now w).0 ≡ ok a
      → (o : Org) × (get_org req.org_id ≡ ok o)
        × (o.is_key_holder ≡ true)
        × ((g : Generated) × (generate crypto draw.body ≡ ok g)
            × ((v : String) × ((enc : String) × (crypto.encrypt v ≡ some enc)
                  × (issue up crypto get_org req draw now w
                      ≡ issue_row up crypto req g draw.id v enc now (drop_fault w)))))
  unfolding issue reads
  issue-starts get_org req draw now w a h =
      let ask = reads (λ x. get_org req.org_id) w in
      elim (Result-cases ask.0) [
        | inr (x, e) ↦ absurd (no_answer x (rw e refl))
        | inl (o, e) ↦ elim (Bool-cases o.is_key_holder) [
          | inr f ↦ absurd (no_answer org_not_key_holder (rw (e, f) refl))
          | inl t ↦ elim (Result-cases (generate crypto draw.body)) [
            | inr (x, e1) ↦ absurd (no_answer x (rw (e, t, e1) refl))
            | inl (g, e1) ↦ elim (Result-cases (new_upstream_key draw.upstream_body)) [
              | inr (x, e2) ↦ absurd (no_answer x (rw (e, t, e1, e2) refl))
              | inl (v, e2) ↦ elim (Option-cases (crypto.encrypt v)) [
                | inl e3 ↦ absurd (no_answer cipher_failed (rw (e, t, e1, e2, e3) refl))
                | inr (enc, e3) ↦ (
                  o,
                  answer-ok (next_fault w.faults) (get_org req.org_id) o e,
                  t,
                  (g, e1, (v, (enc, e3, rw (e, t, e1, e2, e3) refl))),
                )
              ]
            ]
          ]
        ]
      ]
    where
      no_answer : (x : Error) → (issue up crypto get_org req draw now w).0 ≡ err x → ⊥
      no_answer x e = absurd (cc (e, h))

      answer-ok : (f : Fault) (r : Result Error Org) (o : Org) → answer f r ≡ ok o → r ≡ ok o
      answer-ok fine r o e = e
      answer-ok lost_before r o e = absurd (ground arith)
      answer-ok lost_after r o e = absurd (ground arith)

  -- An issue that reports success has put exactly one row behind the rows of the table, under an id that
  -- none of them had, and changed none of them. It is the key that is returned, but for the time that
  -- the database writes: active, for the node, the user and the budget of the request, with the hash of
  -- the plaintext that is returned. What its ciphertext opens to is a key that stands upstream. The node
  -- holds keys. (The cipher opens what it closed, and the upstream does what is documented of it.)
  pub issued_row :
      (sound : SoundCrypto crypto) (get_org : Text → Result Error Org) (req : IssueRequest)
      (draw : Draw) (now : ℕ) (w : World U) (plaintext : Text) (k : ApiKey)
      → (issue up crypto get_org req draw now w).0 ≡ ok (plaintext, k)
      → ((issue up crypto get_org req draw now w).1.keys
          ≡ w.keys ++ record k { created_at = now } ∷ [])
        × (any (has_key_id k.id) w.keys ≡ false)
        × (is_active k.status ≡ true)
        × (k.key_hash ≡ crypto.hash plaintext)
        × ((v : String) × (crypto.decrypt k.upstream_key_enc ≡ some v)
            × (doc.has v (issue up crypto get_org req draw now w).1.upstream ≡ true))
        × (k.org_id ≡ req.org_id)
        × (k.user_id ≡ req.user_id)
        × (k.max_budget ≡ req.max_budget)
        × ((o : Org) × (get_org req.org_id ≡ ok o) × (o.is_key_holder ≡ true))
  unfolding new_key_row pending_row
  issued_row sound get_org req draw now w plaintext k h =
      let (o, eo, holder, start) = issue-starts get_org req draw now w (plaintext, k) h in
      let (g, eg, (v, (enc, ev, same))) = start in
      let (rows, made, active, stands, ep, ek) =
        issue_row-steps req g draw.id v enc now (drop_fault w) plaintext k
          (sym (ap (λ x. x.0) same) ∙ h) in
      let row = new_key_row req draw.id g enc in
      let (free, put) =
        pending-active row now w.keys rows
          (issue_row up crypto req g draw.id v enc now (drop_fault w)).1.keys made active in
      (
        ap (λ x. x.1.keys) same
            ∙ put
            ∙ ap (λ (x : ApiKey). w.keys ++ record x { created_at = now } ∷ []) ek,
        subst (λ (x : ApiKey). any (has_key_id x.id) w.keys ≡ false) ek free,
        ap (λ (x : ApiKey). is_active x.status) (sym ek),
        ap (λ (x : ApiKey). x.key_hash) (sym ek) ∙ generate-hash draw.body g eg ∙ ap crypto.hash ep,
        (
          v,
          ap (λ (x : ApiKey). crypto.decrypt x.upstream_key_enc) (sym ek) ∙ sound.opens v enc ev,
          ap (λ x. doc.has v x.1.upstream) same ∙ stands,
        ),
        ap (λ (x : ApiKey). x.org_id) (sym ek),
        ap (λ (x : ApiKey). x.user_id) (sym ek),
        ap (λ (x : ApiKey). x.max_budget) (sym ek),
        (o, eo, holder),
      )
