-- ===== src/Effects.antt =====
-- The world of the control plane's services: the tables they write, the upstream they call
-- (internal/litellm/keys.go) and how a statement of SQL may fail. The upstream's server is a
-- parameter: what its endpoints reply, and the state that they leave.
pub mod Triples
use softmatrix_airlock.Base.{ℕ, String, Bool, true, false, Option, List, [], ◌∷◌, Result, ok, err}
use softmatrix_airlock.Keys.Model.{StoreError as KeysError}
use softmatrix_airlock.Requests.Model.{StoreError as RequestsError}
use softmatrix_airlock.Keys.Model as Keys
use softmatrix_airlock.Requests.Model as Requests
use softmatrix_airlock.Requests.Outbox.{Outbox}

-- `litellm.Key`
pub record UpstreamKey : Type 0 where
  pub key : String
  pub key_alias : String
  pub team_id : Option (List ℕ)
  pub models : List String
  pub max_budget : Option ℕ
  pub budget_duration : Option String
  pub rpm_limit : Option ℕ
  pub tpm_limit : Option ℕ
  pub duration : Option ℕ

-- The status of a response: 2xx, 404, or anything else, a response that is lost included.
pub data Reply : Type 0 where
  replied not_found failed : Reply

-- The endpoints under /key.
pub record Upstream (U : Type 0) : Type 0 where
  pub generate : UpstreamKey → U → Reply × U
  pub info : String → U → Reply × U
  pub block : String → U → Reply × U
  pub remove : String → U → Reply × U
  pub update : String → ℕ → U → Reply × U

-- What may happen to a statement: it runs, it does not, or it runs and its answer is lost.
pub data Fault : Type 0 where
  fine lost_before lost_after : Fault

pub data Error : Type 0 where
  keys_error : KeysError → Error
  requests_error : RequestsError → Error
  unavailable upstream_not_found upstream_failed no_random cipher_failed : Error
  org_not_found org_not_key_holder window_too_long : Error
  user_not_found permission_denied not_requester not_claimable request_not_approved : Error
  incomplete_bump some_failed send_failed permission_check_failed : Error

-- `faults` is what happens to the next statements, and all is fine when it is used up.
pub record World (U : Type 0) : Type 0 where
  pub keys : Keys.Table
  pub requests : Requests.Table
  pub outbox : Outbox
  pub upstream : U
  pub faults : List Fault

abbrev pub Act : Type 0 → Type 0 → Type 0
Act U A = World U → Result Error A × World U

abbrev pub next_fault : List Fault → Fault
next_fault [] = fine
next_fault (f ∷ fs) = f

abbrev pub later_faults : List Fault → List Fault
later_faults [] = []
later_faults (f ∷ fs) = fs

abbrev pub reply_result : Reply → Result Error (Unit {0})
reply_result replied = ok tt
reply_result not_found = err upstream_not_found
reply_result failed = err upstream_failed

abbrev pub exists_result : Reply → Result Error Bool
exists_result replied = ok true
exists_result not_found = ok false
exists_result failed = err upstream_failed

abbrev pub drop_fault : {U : Type 0} → World U → World U
drop_fault w = record w { faults = later_faults w.faults }

abbrev pub answer : {A : Type 0} → Fault → Result Error A → Result Error A
answer fine r = r
answer lost_before r = err unavailable
answer lost_after r = err unavailable

infixl 5 ◌>>=◌
module _ {U A : Type 0} where
  abbrev pub pure : A → Act U A
  pure a w = (ok a, w)

  abbrev pub throw : Error → Act U A
  throw e w = (err e, w)

  abbrev pub lift : Result Error A → Act U A
  lift r w = (r, w)

  -- The result, the error included, as a value.
  abbrev pub try : Act U A → Act U (Result Error A)
  try m w = (ok (m w).0, (m w).1)

  -- A statement that reads.
  unfoldable pub reads : (World U → Result Error A) → Act U A
  reads f w = (answer (next_fault w.faults) (f w), drop_fault w)

module _ {U A B : Type 0} where
  abbrev pub on_ok : (A → Act U B) → Result Error A → Act U B
  on_ok f (ok a) = f a
  on_ok f (err e) = throw e

  abbrev pub ◌>>=◌ : Act U A → (A → Act U B) → Act U B
  ◌>>=◌ m f w = on_ok f (m w).0 (m w).1

module _ {U : Type 0} where
  -- How a write ends, from the tables before it and what it computes.
  abbrev pub settle : Fault → World U → Result Error (World U) → Result Error (Unit {0}) × World U
  settle fine w (ok w') = (ok tt, w')
  settle fine w (err e) = (err e, w)
  settle lost_before w r = (err unavailable, w)
  settle lost_after w (ok w') = (err unavailable, w')
  settle lost_after w (err e) = (err unavailable, w)

  -- A statement that writes, from the tables to the tables.
  unfoldable pub writes : (World U → Result Error (World U)) → Act U (Unit {0})
  writes f w = settle (next_fault w.faults) (drop_fault w) (f (drop_fault w))

  abbrev pub on_keys : (Keys.Table → Result KeysError Keys.Table) → World U → Result Error (World U)
  on_keys f w = elim (f w.keys) [
    | ok rows ↦ ok (record w { keys = rows })
    | err e ↦ err (keys_error e)
  ]

  abbrev pub on_requests :
      (Requests.Table → Result RequestsError Requests.Table) → World U → Result Error (World U)
  on_requests f w = elim (f w.requests) [
    | ok rows ↦ ok (record w { requests = rows })
    | err e ↦ err (requests_error e)
  ]

  abbrev pub on_outbox : (Outbox → Result RequestsError Outbox) → World U → Result Error (World U)
  on_outbox f w = elim (f w.outbox) [
    | ok rows ↦ ok (record w { outbox = rows })
    | err e ↦ err (requests_error e)
  ]

  -- A call of the upstream that fails on anything but 2xx.
  unfoldable pub calls : (U → Reply × U) → Act U (Unit {0})
  calls f w = (reply_result (f w.upstream).0, record w { upstream = (f w.upstream).1 })

  -- `Client.KeyExists`: a 404 is an answer.
  unfoldable pub key_exists : Upstream U → String → Act U Bool
  key_exists up key w =
      (exists_result (up.info key w.upstream).0, record w { upstream = (up.info key w.upstream).1 })
