-- ===== src/Requests/Model.antt =====
-- `Request` and `Notification` of internal/control/model.go, which are also the rows of their tables.
use softmatrix_airlock.Base.{ℕ, String, Bool, true, false, Option, List}
use softmatrix_airlock.Base.Text.{Text}

pub data Kind : Type 0 where
  new_key quota_bump : Kind

pub data Status : Type 0 where
  pending rejected approved executed failed : Status

abbrev pub is_pending : Status → Bool
is_pending Status.pending = true
is_pending _ = false

abbrev pub is_approved : Status → Bool
is_approved Status.approved = true
is_approved _ = false

abbrev pub is_executed : Status → Bool
is_executed Status.executed = true
is_executed _ = false

abbrev pub is_bump : Kind → Bool
is_bump Kind.new_key = false
is_bump Kind.quota_bump = true

pub record Request : Type 0 where
  pub id : String
  pub kind : Kind
  pub status : Status
  pub requester_id : String
  pub org_id : Text
  pub reason : String
  pub key_name : Option String
  pub models : Option (List String)
  pub target_key_id : Option String
  pub bump_to_budget : Option ℕ
  pub bump_expires_at : Option ℕ
  pub prev_budget : Option ℕ
  pub reclaimed_at : Option ℕ
  pub decided_by : Option String
  pub decided_at : Option ℕ
  pub executed_at : Option ℕ
  pub issued_key_id : Option String
  pub last_error : Option String
  pub attempts : ℕ
  pub created_at : ℕ

abbrev pub Table : Type 0
Table = List Request

pub data StoreError : Type 0 where
  request_not_found request_not_pending request_not_approved constraint : StoreError

pub data Event : Type 0 where
  submitted approved rejected executed reclaimed : Event

pub data Delivery : Type 0 where
  pending sent failed : Delivery

pub record Notification : Type 0 where
  pub id : String
  pub request_id : String
  pub event : Event
  pub channel : String
  pub recipient : String
  pub subject : String
  pub body : String
  pub status : Delivery
  pub attempts : ℕ
  pub last_error : Option String
  pub sent_at : Option ℕ
  pub created_at : ℕ
