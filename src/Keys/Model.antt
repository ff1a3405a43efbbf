-- ===== src/Keys/Model.antt =====
-- `APIKey` of internal/control/model.go, which is also the row of `api_keys`, and the two columns of
-- `organizations` that the key store reads. A time is a number in an unspecified unit; a budget is a
-- number that the program only copies; org ids are bytes, as in paths.
use softmatrix_airlock.Base.{ℕ, String, Bool, true, false, Option, List}
use softmatrix_airlock.Base.Text.{Text}

pub data Status : Type 0 where
  pending active revoked : Status

abbrev pub is_active : Status → Bool
is_active Status.pending = false
is_active Status.active = true
is_active Status.revoked = false

abbrev pub is_pending : Status → Bool
is_pending Status.pending = true
is_pending Status.active = false
is_pending Status.revoked = false

abbrev pub is_revoked : Status → Bool
is_revoked Status.pending = false
is_revoked Status.active = false
is_revoked Status.revoked = true

-- status IN ('active','pending')
abbrev pub is_live : Status → Bool
is_live Status.pending = true
is_live Status.active = true
is_live Status.revoked = false

pub record ApiKey : Type 0 where
  pub id : String
  pub key_hash : String
  pub key_prefix : Text
  pub org_id : Text
  pub user_id : String
  pub name : String
  pub upstream_key_enc : String
  pub status : Status
  pub models : List String
  pub max_budget : Option ℕ
  pub budget_duration : Option String
  pub rpm_limit : Option ℕ
  pub tpm_limit : Option ℕ
  pub expires_at : Option ℕ
  pub prev_key_hash : Option String
  pub prev_key_expires_at : Option ℕ
  pub rotated_at : Option ℕ
  pub upstream_blocked_at : Option ℕ
  pub upstream_block_attempts : ℕ
  pub created_at : ℕ

abbrev pub Table : Type 0
Table = List ApiKey

-- The id and the path of an organisation.
pub record OrgPath : Type 0 where
  pub id : Text
  pub path : Text

pub data StoreError : Type 0 where
  api_key_not_found key_not_active constraint : StoreError
