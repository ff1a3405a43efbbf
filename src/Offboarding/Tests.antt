-- ===== src/Offboarding/Tests.antt =====
-- Two users, one of whom the directory no longer has, and the witness.
use softmatrix_airlock.Base.{ℕ, String, true, Option, none, some, [], ◌∷◌}
use softmatrix_airlock.Users.Model.{UserStatus, User, Session}
use softmatrix_airlock.Offboarding.{Answers, ReconcileResult, State}

abbrev user : String → UserStatus → Option ℕ → User
user id status at = record {
  id = id;
  external_id = id;
  email = "";
  display_name = "";
  status = status;
  primary_org_id = none;
  last_login_at = none;
  reconciled_at = at;
  created_at = 1;
}

abbrev session : String → String → Session
session id who = record {
  id = id;
  user_id = who;
  expires_at = 100;
  last_seen_at = 1;
  ip = "";
  user_agent = "";
}

abbrev before : State
before = record {
  users = user "ada" UserStatus.active none ∷ user "bob" UserStatus.active none ∷ [];
  keys = [];
  sessions = session "s1" "ada" ∷ session "s2" "bob" ∷ [];
}

abbrev after : State
after = record {
  users = user "ada" UserStatus.active none ∷ user "bob" UserStatus.disabled (some 9) ∷ [];
  keys = [];
  sessions = session "s1" "ada" ∷ [];
}

abbrev answers : Answers
answers = record {
  active_external_ids = some (("ada", true) ∷ []);
  lists = true;
  mark_runs = true;
  select_runs = true;
  update_runs = true;
  delete_runs = λ id. true;
  decrypt = λ c. none;
  block_key = λ k. true;
  stamp_runs = λ id. true;
}

abbrev result : ReconcileResult
result = record { checked = 2; disabled = 1; keys_revoked = 0; sessions_gone = 1 }
