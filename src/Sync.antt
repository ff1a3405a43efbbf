-- ===== src/Sync.antt =====
-- internal/control/litellmsync.go: the organisations and teams that the upstream should have, the plan of a
-- round, and the calls that a round makes. Each call succeeds or not, as `Answers` says; what the upstream
-- has is what it lists. Go's `<` on ids is by bytes.
pub mod Ordered
pub mod Tests
use softmatrix_airlock.Base.{
  ℕ, suc, ◌+◌, String, Bool, true, false, ◌&&◌, ◌||◌, not, Option, none, some, List, [], ◌∷◌, ◌++◌,
  any, keep, find, map, length, Result, ok, err, ltb, if◌then◌else◌, ◌==◌ as eq_ℕ,
}
use softmatrix_airlock.Base.Text.{Text, ◌==◌ as text_eq}
use softmatrix_airlock.Paths.{split, trim_left, trim_right, is_empty}
use softmatrix_airlock.Orgs.Model.{Org}
use softmatrix_airlock.Orgs.Model as Orgs
use text.Mathlib.Text.{◌==◌}

pub record Organization : Type 0 where
  pub id : Text
  pub alias : String

pub record Team : Type 0 where
  pub id : Text
  pub alias : String
  pub organization_id : Option Text

pub record DesiredState : Type 0 where
  pub orgs : List Organization
  pub teams : List Team

unfoldable pub path_segments : Text → List Text
path_segments path =
    let trimmed = trim_right (trim_left path) in
    if is_empty trimmed then [] else (let (w, ws) = split trimmed in w ∷ ws)

unfoldable pub text_lt : Text → Text → Bool
text_lt [] [] = false
text_lt [] (d ∷ t) = true
text_lt (c ∷ s) [] = false
text_lt (c ∷ s) (d ∷ t) = let rest = text_lt s t in if eq_ℕ c d then rest else ltb c d

module _ {A : Type 0} (id : A → Text) where
  unfoldable pub insert_id : A → List A → List A
  unfolding text_lt
  insert_id a [] = a ∷ []
  insert_id a (b ∷ bs) =
      let rest = insert_id a bs in if text_lt (id b) (id a) then b ∷ rest else a ∷ b ∷ bs

  unfoldable pub sort_ids : List A → List A
  unfolding insert_id
  sort_ids [] = []
  sort_ids (a ∷ as_) = insert_id a (sort_ids as_)

-- The organisation of a team is the second segment of its path.
abbrev pub second : List Text → Option Text
second [] = none
second (a ∷ []) = none
second (a ∷ b ∷ rest) = some b

unfoldable pub wanted_orgs : Orgs.Table → List Organization
unfolding path_segments
wanted_orgs [] = []
wanted_orgs (o ∷ rest) =
    let orgs = wanted_orgs rest in
    if eq_ℕ (length (path_segments o.path)) 2
    then record { id = o.id; alias = o.name } ∷ orgs
    else orgs

unfoldable pub wanted_teams : Orgs.Table → List Team
unfolding path_segments
wanted_teams [] = []
wanted_teams (o ∷ rest) =
    let teams = wanted_teams rest in
    if o.is_key_holder
    then record { id = o.id; alias = o.name; organization_id = second (path_segments o.path) }
      ∷ teams
    else teams

unfoldable pub desired_state_from : Orgs.Table → DesiredState
unfolding wanted_orgs wanted_teams sort_ids
desired_state_from orgs = record {
  orgs = sort_ids (λ o. o.id) (wanted_orgs orgs);
  teams = sort_ids (λ t. t.id) (wanted_teams orgs);
}

-- A map by id, in which the last entry of an id stands.
unfoldable pub last_of : {A : Type 0} → (A → Text) → Text → List A → Option A
last_of id want [] = none
last_of id want (a ∷ rest) = elim (last_of id want rest) [
  | some b ↦ some b
  | none ↦ if text_eq (id a) want then some a else none
]

abbrev pub org_of : Text → List Organization → Option Organization
org_of want have = last_of (λ (o : Organization). o.id) want have

abbrev pub team_of : Text → List Team → Option Team
team_of want have = last_of (λ (t : Team). t.id) want have

unfoldable pub same_org_ptr : Option Text → Option Text → Bool
same_org_ptr none none = true
same_org_ptr none (some b) = false
same_org_ptr (some a) none = false
same_org_ptr (some a) (some b) = text_eq a b

abbrev pub absent {ℓ} : {A : Type ℓ} → Option A → Bool
absent none = true
absent (some a) = false

abbrev pub org_differs : List Organization → Organization → Bool
org_differs have w = elim (org_of w.id have) [
  | none ↦ false
  | some cur ↦ not (cur.alias == w.alias)
]

abbrev pub team_differs : List Team → Team → Bool
team_differs have w = elim (team_of w.id have) [
  | none ↦ false
  | some cur ↦
      not (cur.alias == w.alias) || not (same_org_ptr cur.organization_id w.organization_id)
]

pub record SyncPlan : Type 0 where
  pub missing_orgs : List Organization
  pub mismatched_orgs : List Organization
  pub missing_teams : List Team
  pub mismatched_teams : List Team
  pub extra_orgs : List Text
  pub extra_teams : List Text
  pub existing_orgs : List Text

unfoldable pub plan_of : DesiredState → List Organization → List Team → SyncPlan
unfolding same_org_ptr last_of
plan_of want have_orgs have_teams = record {
  missing_orgs = keep (λ w. absent (org_of w.id have_orgs)) want.orgs;
  mismatched_orgs = keep (org_differs have_orgs) want.orgs;
  missing_teams = keep (λ w. absent (team_of w.id have_teams)) want.teams;
  mismatched_teams = keep (team_differs have_teams) want.teams;
  extra_orgs =
      sort_ids (λ i. i)
        (map (λ o. o.id) (keep (λ o. not (any (λ w. text_eq w.id o.id) want.orgs)) have_orgs));
  extra_teams =
      sort_ids (λ i. i)
        (map (λ t. t.id) (keep (λ t. not (any (λ w. text_eq w.id t.id) want.teams)) have_teams));
  existing_orgs = map (λ w. w.id) (keep (λ w. not (absent (org_of w.id have_orgs))) want.orgs);
}

unfoldable pub in_sync : SyncPlan → Bool
in_sync p =
    is_empty p.missing_orgs
    && (is_empty p.mismatched_orgs && (is_empty p.missing_teams && is_empty p.mismatched_teams))

pub data Call : Type 0 where
  create_org update_org : Organization → Call
  create_team update_team : Team → Call

abbrev pub Answers : Type 0
Answers = Call → Bool

-- The calls of a round so far, each with its success, the organisations that are live, and the teams that
-- were skipped.
pub record Round : Type 0 where
  pub calls : List (Call × Bool)
  pub live_orgs : List Text
  pub skipped : ℕ

module _ (ans : Answers) where
  unfoldable pub make_orgs : List Organization → Round → Round
  make_orgs [] r = r
  make_orgs (o ∷ os) r =
      let done = ans (create_org o) in
      make_orgs os (record r {
        calls = r.calls ++ (create_org o, done) ∷ [];
        live_orgs = if done then o.id ∷ r.live_orgs else r.live_orgs;
      })

  unfoldable pub rename_orgs : List Organization → Round → Round
  rename_orgs [] r = r
  rename_orgs (o ∷ os) r =
      rename_orgs os (record r { calls = r.calls ++ (update_org o, ans (update_org o)) ∷ [] })

  abbrev pub may_hang : List Text → Option Text → Bool
  may_hang live none = true
  may_hang live (some o) = any (λ i. text_eq i o) live

  -- The function `apply`, for one of the two calls on teams.
  unfoldable pub apply_teams : (Team → Call) → List Team → Round → Round
  apply_teams act [] r = r
  apply_teams act (t ∷ ts) r = apply_teams act ts (
      if may_hang r.live_orgs t.organization_id
      then record r { calls = r.calls ++ (act t, ans (act t)) ∷ [] }
      else record r { skipped = suc r.skipped })

  unfoldable pub run_plan : SyncPlan → Round
  unfolding make_orgs rename_orgs apply_teams
  run_plan p = apply_teams update_team p.mismatched_teams (
      apply_teams create_team p.missing_teams (
        rename_orgs p.mismatched_orgs (
          make_orgs p.missing_orgs
            (record { calls = []; live_orgs = p.existing_orgs; skipped = 0 }))))

  -- A listing that fails ends the round before it begins.
  unfoldable pub reconcile_once :
      Option Orgs.Table
      → Option (List Organization)
      → Option (List Team)
      → Option (SyncPlan × Round)
  unfolding run_plan plan_of desired_state_from
  reconcile_once (some local) (some orgs) (some teams) =
      let plan = plan_of (desired_state_from local) orgs teams in some (plan, run_plan plan)
  reconcile_once none orgs teams = none
  reconcile_once (some local) none teams = none
  reconcile_once (some local) (some orgs) none = none
