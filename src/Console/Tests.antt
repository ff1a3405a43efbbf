-- ===== src/Console/Tests.antt =====
-- A signed-in user renames a node on which she administers, and the witness.
use softmatrix_airlock.Base.{
  if◌then◌else◌, ℕ, ◌≡◌, refl, ◌⊎◌, String, true, Option, none, some, [], ◌∷◌, Result, ok,
}
use softmatrix_airlock.Authz.Permission.{perm_org_write, lookup}
use softmatrix_airlock.Authz.Resolver.{
  Store, can, effective_permissions, wrap, ancestors_of, ancestor_chain, apply_grants, apply_grant,
  grant_applies, apply_implicit_baseline, contains, add_permissions,
}
use softmatrix_airlock.Sql.{update_where}
use softmatrix_airlock.Users.Model.{UserStatus, User, Session}
use softmatrix_airlock.Users.Sessions.{Sessions, get_session, touch_session}
use softmatrix_airlock.Users.Store.{by_id}
use softmatrix_airlock.License.{Gate, allow_write}
use softmatrix_airlock.Console.{Refusal}
use softmatrix_airlock.Console.Routes.{
  access_permission, license_requires_valid, target_from_path, Route, Request, is_public, serve,
}
use softmatrix_airlock.Console.Enforced.{SignedIn, MayRun, serve-guarded}

-- A global grant of the one role, which may write.
abbrev store : Store
store = record {
  grants_for_user = λ user. ok (record { role_id = "admin"; org_id = none } ∷ []);
  permissions_for_role = λ role. ok (perm_org_write ∷ []);
  org_path = λ org. ok (47 ∷ org);
}

abbrev gate : Gate
gate = none

abbrev ada : User
ada = record {
  id = "u1";
  external_id = "e1";
  email = "ada@x";
  display_name = "Ada";
  status = UserStatus.active;
  primary_org_id = none;
  last_login_at = none;
  reconciled_at = none;
  created_at = 1;
}

abbrev session : Session
session = record {
  id = "s1";
  user_id = "u1";
  expires_at = 100;
  last_seen_at = 5;
  ip = "";
  user_agent = "";
}

abbrev touched : Sessions
touched = record session { last_seen_at = 10 } ∷ []

abbrev rt : Route
rt = record {
  pattern = "PATCH /api/orgs/{id}/name";
  access = access_permission;
  permission = perm_org_write;
  target = target_from_path "id";
  license = license_requires_valid;
}

abbrev req : Request
req = record { path_value = λ name. 114 ∷ []; body = none; cookie = some "s1" }

abbrev handler : Option User → Result Refusal ℕ
handler user = ok 200

abbrev hash : String → String
hash token = token

served : serve store gate 10 hash true (ada ∷ []) (session ∷ []) rt req handler ≡ (ok 200, touched)
unfolding serve get_session by_id allow_write touch_session can update_where lookup
    effective_permissions wrap ancestors_of ancestor_chain apply_grants apply_grant grant_applies
    apply_implicit_baseline contains add_permissions
served = refl

serve-guarded_example :
    ((is_public rt.access ≡ true)
      × (touched ≡ session ∷ [])
      × MayRun store gate 10 rt req none
      × (handler none ≡ ok 200))
    ⊎ ((u : User) × (w : SignedIn hash (ada ∷ []) (session ∷ []) 10 req u) × (touched
          ≡ (if true then touch_session w.session.id 10 (session ∷ []) else session ∷ []))
        × MayRun store gate 10 rt req (some u)
        × (handler (some u) ≡ ok 200))
serve-guarded_example =
    serve-guarded store gate 10 hash true (ada ∷ []) (session ∷ []) touched rt req handler 200
      served
