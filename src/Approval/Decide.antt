-- ===== src/Approval/Decide.antt =====
-- Who may decide a request, and what a decision writes.
use softmatrix_airlock.Base.{
  ℕ, ◌≡◌, refl, sym, ap, ◌∙◌, inl, inr, String, true, some, Result, ok, arith, Bool-cases,
  Result-cases,
}
use softmatrix_airlock.Base.Text.{Text}
use softmatrix_airlock.Authz.Permission.{perm_key_write}
use softmatrix_airlock.Requests.Model.{Status, Request, Event}
use softmatrix_airlock.Requests.Store.{get, decide}
use softmatrix_airlock.Requests.Outbox.{enqueue}
use softmatrix_airlock.Effects.{
  Upstream, World, Error, reads, writes, on_requests, on_outbox, answer, next_fault, Fault, fine,
  lost_before, lost_after, drop_fault,
}
use softmatrix_airlock.Effects.Triples.{writes-ok, writes-leaves}
use softmatrix_airlock.Issuer.{Crypto}
use softmatrix_airlock.Approval.{
  Deps, User, subject_of, require_key_write, get_request, decide_request, enqueue_for, notification,
  outcome_body,
}
use text.Mathlib.Text.{◌==◌}

-- A read that answers, answers what is there.
reads-ok :
    {U A : Type 0} (f : World U → Result Error A) (w : World U) (a : A)
    → (reads f w).0 ≡ ok a
    → f w ≡ ok a
unfolding reads
reads-ok {A = A} f w a h = answered (next_fault w.faults) (f w) h
  where
    answered : (flt : Fault) (r : Result Error A) → answer flt r ≡ ok a → r ≡ ok a
    answered fine r e = e
    answered lost_before r e = absurd (ground arith)
    answered lost_after r e = absurd (ground arith)

reads-requests :
    {U A : Type 0} (f : World U → Result Error A) (w : World U)
    → (reads f w).1.requests ≡ w.requests
unfolding reads
reads-requests f w = refl

module _ {U : Type 0} (up : Upstream U) (crypto : Crypto) (deps : Deps) where
  -- The decider is known and may write keys on the node.
  abbrev pub MayWriteKeys : String → Text → Type 0
  MayWriteKeys user org =
      (u : User) × (deps.user_by_id user ≡ ok u)
      × (deps.can (subject_of u) perm_key_write (some org) ≡ ok true)

  require_key_write-ok :
      (user : String) (org : Text) (w : World U)
      → ((require_key_write up crypto deps user org w).0 ≡ ok tt)
      → MayWriteKeys user org
  unfolding require_key_write
  require_key_write-ok user org w h = elim (Result-cases (deps.user_by_id user)) [
    | inr (x, e) ↦ absurd (ground arith)
    | inl (u, e) ↦ elim (Result-cases (deps.can (subject_of u) perm_key_write (some org))) [
      | inr (x, e') ↦ absurd (ground arith)
      | inl (b, e') ↦ elim (Bool-cases b) [
        | inl t ↦ (u, e, e' ∙ ap ok t)
        | inr f ↦ absurd (ground arith)
      ]
    ]
  ]

  require_key_write-world :
      (user : String) (org : Text) (w : World U)
      → (require_key_write up crypto deps user org w).1 ≡ w
  unfolding require_key_write
  require_key_write-world user org w = elim (Result-cases (deps.user_by_id user)) [
    | inr (x, e) ↦ rw e refl
    | inl (u, e) ↦ elim (Result-cases (deps.can (subject_of u) perm_key_write (some org))) [
      | inr (x, e') ↦ rw (e, e') refl
      | inl (b, e') ↦ elim (Bool-cases b) [
        | inl t ↦ rw (e, e', t) refl
        | inr f ↦ rw (e, e', f) refl
      ]
    ]
  ]

  enqueue_for-requests :
      (n : ℕ) (r : Request) (event : Event) (recipient subject body : String) (now : ℕ)
      (w : World U)
      → (enqueue_for up crypto deps n r event recipient subject body now w).1.requests ≡ w.requests
  unfolding enqueue_for
  enqueue_for-requests n r event recipient subject body now w =
      elim (Bool-cases (recipient == "")) [
        | inl t ↦ rw t refl
        | inr f ↦ rw f (
            writes-leaves (λ x. x.requests ≡ w.requests)
              (on_outbox
                (enqueue (notification (deps.new_id n) r event recipient subject body) now))
              w refl (λ w' h. queued (drop_fault w) w' (deps.new_id n) h))
      ]
    where
      queued :
          (x x' : World U) (id : String)
          → on_outbox (enqueue (notification id r event recipient subject body) now) x ≡ ok x'
          → x'.requests ≡ x.requests
      queued x x' id h =
          elim (Result-cases
            (enqueue (notification id r event recipient subject body) now x.outbox)) [
              | inl (rows, e) ↦
                  ap (λ y. y.requests)
                    (sym (let z : record x { outbox = rows } ≡ x' = ground arith in z))
              | inr (er, e) ↦ absurd (ground arith)
            ]

  decided_rows :
      (id decider : String) (status : Status) (now : ℕ) (w : World U)
      → (writes (on_requests (decide id status decider now)) w).0 ≡ ok tt
      → decide id status decider now w.requests
        ≡ ok (writes (on_requests (decide id status decider now)) w).1.requests
  decided_rows id decider status now w h =
      let z = writes-ok (on_requests (decide id status decider now)) w tt h in
      elim (Result-cases (decide id status decider now w.requests)) [
        | inl (rows, e) ↦
            let same : record (drop_fault w) { requests = rows }
                ≡ (writes (on_requests (decide id status decider now)) w).1 =
              ground arith in
            e ∙ ap (λ x. ok x.requests) same
        | inr (x, e) ↦ absurd (ground arith)
      ]

  get_request-found :
      (id : String) (w : World U) (r : Request)
      → (reads (get_request up crypto deps id) w).0 ≡ ok r
      → get id w.requests ≡ ok r
  get_request-found id w r h =
      let z = reads-ok (get_request up crypto deps id) w r h in
      elim (Result-cases (get id w.requests)) [
        | inl (r', e) ↦ ground arith
        | inr (x, e) ↦ absurd (ground arith)
      ]

  -- A decision that reports success was taken on a request that is there, by somebody who may write
  -- keys on the request's own node, and the table afterwards is that of the guarded UPDATE: no other
  -- statement on requests, and no failure to queue the notification, changes that.
  pub decided_by_approver :
      (id decider : String) (status : Status) (event : Event) (subject : String) (now : ℕ)
      (w : World U)
      → (decide_request up crypto deps id decider status event subject now w).0 ≡ ok tt
      → (r : Request) × (get id w.requests ≡ ok r)
        × MayWriteKeys decider r.org_id
        × (decide id status decider now w.requests
            ≡ ok (decide_request up crypto deps id decider status event subject now w).1.requests)
  unfolding decide_request
  decided_by_approver id decider status event subject now w h =
      let read = reads (get_request up crypto deps id) w in
      elim (Result-cases read.0) [
        | inr (x, e) ↦ absurd (ground arith)
        | inl (r, e) ↦
            let asked = require_key_write up crypto deps decider r.org_id read.1 in
            elim (Result-cases asked.0) [
              | inr (x, e') ↦ absurd (ground arith)
              | inl (u, e') ↦
                  let write = writes (on_requests (decide id status decider now)) asked.1 in
                  elim (Result-cases write.0) [
                    | inr (x, e'') ↦ absurd (ground arith)
                    | inl (u', e'') ↦
                        let kept : decide id status decider now w.requests ≡ ok write.1.requests =
                          ap (λ x. decide id status decider now x)
                            (sym (
                              ap (λ x. x.requests) (require_key_write-world decider r.org_id read.1)
                              ∙ reads-requests (get_request up crypto deps id) w))
                          ∙ decided_rows id decider status now asked.1 e'' in
                        (
                          r,
                          get_request-found id w r e,
                          require_key_write-ok decider r.org_id read.1 e',
                          elim (Result-cases (deps.user_by_id r.requester_id)) [
                            | inr (x, q) ↦ rw (e, e', e'', q) kept
                            | inl (v, q) ↦
                                rw (e, e', e'', q)
                                  (kept
                                    ∙ ap ok (
                                        sym (
                                          enqueue_for-requests 0 r event v.email subject
                                            (outcome_body r subject) now write.1)))
                          ],
                        )
                  ]
            ]
      ]
