-- ===== src/Approval/Tests.antt =====
-- An approval of a pending request by the administrator of its organisation.
use softmatrix_airlock.Base.{◌≡◌, refl, String, true, false, none, List, [], ok, err}
use softmatrix_airlock.Sql.{update_where}
use softmatrix_airlock.Requests.Model.{Status, Request, Event}
use softmatrix_airlock.Requests.Store.{get, decide, guard_outcome}
use softmatrix_airlock.Requests.Tests.{rows}
use softmatrix_airlock.Effects.{user_not_found, org_not_found, World, reads, writes}
use softmatrix_airlock.Issuer.Tests.{listed, crypto}
use softmatrix_airlock.Approval.{
  Deps, User, subject_of, require_key_write, decide_request, enqueue_for,
}
use softmatrix_airlock.Approval.Decide.{MayWriteKeys, decided_by_approver}
use text.Mathlib.Text.{◌==◌}

abbrev admin : User
admin = record { id = "admin"; email = "admin@example.com"; active = true; primary_org_id = none }

abbrev deps : Deps
deps = record {
  get_org = λ o. err org_not_found;
  user_by_id = λ u. elim (u == "admin") [ true ↦ ok admin | false ↦ err user_not_found ];
  grants_for_org = λ o. ok [];
  global_grants = ok [];
  can = λ s p o. ok (s.user_id == "admin");
  scopes = λ s p. ok (true, []);
  new_id = λ n. "n1";
}

abbrev start : World (List String)
start = record { keys = []; requests = rows; outbox = []; upstream = []; faults = [] }

approved :
    (decide_request listed crypto deps "r2" "admin" Status.approved Event.approved "ok" 6 start).0
    ≡ ok tt
unfolding decide_request require_key_write enqueue_for reads writes decide guard_outcome get
    update_where subject_of
approved = refl

decided_by_approver_example :
    (r : Request) × (get "r2" rows ≡ ok r)
    × MayWriteKeys listed crypto deps "admin" r.org_id
    × (decide "r2" Status.approved "admin" 6 rows
        ≡ ok
            (decide_request listed crypto deps "r2" "admin" Status.approved Event.approved "ok" 6
              start).1.requests)
decided_by_approver_example =
    decided_by_approver listed crypto deps "r2" "admin" Status.approved Event.approved "ok" 6 start
      approved
