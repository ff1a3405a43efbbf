-- ===== src/Sync/Tests.antt =====
-- A round in which one of two missing organisations cannot be created, and the witness.
use softmatrix_airlock.Base.{◌≡◌, refl, Bool, true, false, some, List, [], ◌∷◌}
use softmatrix_airlock.Base.Text.{Text, ◌==◌ as text_eq}
use softmatrix_airlock.Sync.{
  Organization, Team, Call, create_org, update_org, create_team, update_team, Answers, SyncPlan,
  plan_of, run_plan, make_orgs, rename_orgs, apply_teams, last_of, same_org_ptr, sort_ids,
  insert_id, text_lt,
}
use softmatrix_airlock.Sync.Ordered.{Ordered, run_plan-Ordered}

abbrev alpha : Organization
alpha = record { id = 1 ∷ []; alias = "alpha" }

abbrev beta : Organization
beta = record { id = 2 ∷ []; alias = "beta" }

abbrev gamma : Organization
gamma = record { id = 3 ∷ []; alias = "gamma" }

abbrev team : Text → Organization → Team
team id o = record { id = id; alias = "team"; organization_id = some o.id }

abbrev plan : SyncPlan
plan =
    plan_of
      (record {
        orgs = alpha ∷ beta ∷ gamma ∷ [];
        teams = team (4 ∷ []) alpha ∷ team (5 ∷ []) beta ∷ team (6 ∷ []) gamma ∷ [];
      })
      (record { id = 3 ∷ []; alias = "old" } ∷ []) (team (6 ∷ []) alpha ∷ team (9 ∷ []) gamma ∷ [])

-- The upstream refuses to create beta.
abbrev answers : Answers
answers (create_org o) = text_eq o.id (1 ∷ [])
answers (update_org o) = true
answers (create_team t) = true
answers (update_team t) = true

abbrev expected_calls : List (Call × Bool)
expected_calls =
    (create_org alpha, true)
    ∷ (create_org beta, false)
    ∷ (update_org gamma, true)
    ∷ (create_team (team (4 ∷ []) alpha), true)
    ∷ (update_team (team (6 ∷ []) gamma), true)
    ∷ []

round : (run_plan answers plan).calls ≡ expected_calls
unfolding run_plan make_orgs rename_orgs apply_teams plan_of last_of same_org_ptr sort_ids insert_id
    text_lt text_eq
round = refl

skips_beta : (run_plan answers plan).skipped ≡ 1
unfolding run_plan make_orgs rename_orgs apply_teams plan_of last_of same_org_ptr sort_ids insert_id
    text_lt text_eq
skips_beta = refl

extra : plan.extra_teams ≡ (9 ∷ []) ∷ []
unfolding plan_of last_of same_org_ptr sort_ids insert_id text_lt text_eq
extra = refl

run_plan-Ordered_example : Ordered plan.existing_orgs (run_plan answers plan).calls
run_plan-Ordered_example = run_plan-Ordered answers plan
