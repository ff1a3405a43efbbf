-- ===== src/Users/Model.antt =====
-- `User`, `Session` and `LoginState` of internal/control/model.go, which are also the rows of their
-- tables (a user's row has its time of creation besides).
use softmatrix_airlock.Base.{ℕ, String, Bool, true, false, Option, List}
use softmatrix_airlock.Base.Text.{Text}

pub data UserStatus : Type 0 where
  active disabled : UserStatus

abbrev pub is_enabled : UserStatus → Bool
is_enabled UserStatus.active = true
is_enabled UserStatus.disabled = false

pub record User : Type 0 where
  pub id : String
  pub external_id : String
  pub email : String
  pub display_name : String
  pub status : UserStatus
  pub primary_org_id : Option Text
  pub last_login_at : Option ℕ
  pub reconciled_at : Option ℕ
  pub created_at : ℕ

abbrev pub Table : Type 0
Table = List User

pub record Session : Type 0 where
  pub id : String
  pub user_id : String
  pub expires_at : ℕ
  pub last_seen_at : ℕ
  pub ip : String
  pub user_agent : String

pub record LoginState : Type 0 where
  pub id : String
  pub state : String
  pub pkce_verifier : String
  pub redirect_to : String
  pub expires_at : ℕ

pub data StoreError : Type 0 where
  user_not_found session_not_found login_state_not_found constraint : StoreError
