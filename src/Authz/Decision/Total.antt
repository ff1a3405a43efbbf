-- ===== src/Authz/Decision/Total.antt =====
-- `Can` answers whenever the store does, and a home node that is gone is no error.
use softmatrix_airlock.Base.{
  String, ◌≡◌, refl, ◌⊎◌, ◌↔◌, inl, inr, Bool, true, false, Option, none, some, List, [], ◌∷◌, ok,
  err, arith, Bool-cases, Option-cases,
}
use softmatrix_airlock.Base.Text.{Text}
use softmatrix_airlock.Paths.{chain_ids, in_subtree}
use softmatrix_airlock.Authz.Permission.{Scope, Permission, lookup}
use softmatrix_airlock.Authz.Role.{role_developer}
use softmatrix_airlock.Authz.Resolver.{
  Error, Grant, Subject, Store, wrap, contains, is_org_not_found, grant_applies, add_permissions,
  ancestor_chain, ancestors_of, apply_grant, apply_grants, baseline_at, apply_implicit_baseline,
  effective_permissions, can,
}
use softmatrix_airlock.Authz.Spec.{Allowed}
use softmatrix_airlock.Authz.Decision.Can.{can-decides}

-- The queries that a decision may make have answers. A role that does not exist has no permissions,
-- which is an answer; the home node may be gone.
pub record Answers (store : Store) (s : Subject) (target : Option Text) : Type 0 where
  pub grants : List Grant
  pub has_grants : store.grants_for_user s.user_id ≡ ok grants
  pub roles : (r : String) → (ps : List String) × (store.permissions_for_role r ≡ ok ps)
  pub paths : (t : Text) → target ≡ some t → (path : Text) × (store.org_path t ≡ ok path)
  pub home :
      (h : Text)
      → s.primary_org_id ≡ some h
      → ((path : Text) × (store.org_path h ≡ ok path))
        ⊎ ((e : Error) × (store.org_path h ≡ err e) × (is_org_not_found e ≡ true))

module _ (store : Store) where
  ancestors_of-total :
      (scope : Scope) (target : Option Text)
      → ((t : Text) → target ≡ some t → (path : Text) × (store.org_path t ≡ ok path))
      → (ids : List Text) × (ancestors_of store scope target ≡ ok ids)
  unfolding ancestors_of ancestor_chain wrap
  ancestors_of-total scope none h = ([], refl)
  ancestors_of-total Scope.global (some t) h = ([], refl)
  ancestors_of-total Scope.org (some t) h =
      let (path, e) = h t refl in (chain_ids path, ground arith)

  apply_grant-total :
      (scope : Scope) (ids : List Text) (g : Grant) (held : List String)
      → ((r : String) → (ps : List String) × (store.permissions_for_role r ≡ ok ps))
      → (held' : List String) × (apply_grant store scope ids g held ≡ ok held')
  unfolding apply_grant wrap
  apply_grant-total scope ids g held roles =
      let (ps, e) = roles g.role_id in
      elim (Bool-cases (grant_applies g scope ids)) [
        | inl on ↦ (add_permissions g.org_id ps held, ground arith)
        | inr off ↦ (held, ground arith)
      ]

  apply_grants-total :
      (scope : Scope) (ids : List Text) (gs : List Grant) (held : List String)
      → ((r : String) → (ps : List String) × (store.permissions_for_role r ≡ ok ps))
      → (held' : List String) × (apply_grants store scope ids gs held ≡ ok held')
  unfolding apply_grants
  apply_grants-total scope ids [] held roles = (held, refl)
  apply_grants-total scope ids (g ∷ gs) held roles =
      let (mid, e) = apply_grant-total scope ids g held roles in
      let (out, f) = apply_grants-total scope ids gs mid roles in (out, rw e f)

  baseline_at-total :
      (home target goal_path : Text) (held : List String)
      → ((r : String) → (ps : List String) × (store.permissions_for_role r ≡ ok ps))
      → store.org_path target ≡ ok goal_path
      → ((path : Text) × (store.org_path home ≡ ok path))
        ⊎ ((e : Error) × (store.org_path home ≡ err e) × (is_org_not_found e ≡ true))
      → (held' : List String) × (baseline_at store home target held ≡ ok held')
  unfolding baseline_at wrap
  baseline_at-total home target goal_path held roles pt (inr (e, gone, not_found)) =
      (held, ground arith)
  baseline_at-total home target goal_path held roles pt (inl (path, known)) =
      let (ps, e) = roles role_developer in
      elim (Bool-cases (in_subtree path goal_path)) [
        | inl on ↦ (add_permissions (some home) ps held, ground arith)
        | inr off ↦ (held, ground arith)
      ]

  apply_implicit_baseline-total :
      (s : Subject) (scope : Scope) (target : Option Text) (held : List String)
      → Answers store s target
      → (held' : List String) × (apply_implicit_baseline store s scope target held ≡ ok held')
  unfolding apply_implicit_baseline
  apply_implicit_baseline-total s scope none held a = (held, refl)
  apply_implicit_baseline-total s Scope.global (some t) held a = (held, ground arith)
  apply_implicit_baseline-total s Scope.org (some t) held a = elim (Option-cases s.primary_org_id) [
    | inl away ↦ (held, ground arith)
    | inr (home, at) ↦
        let (path, known) = a.paths t refl in
        let (out, e) = baseline_at-total home t path held a.roles known (a.home home at) in
        (out, ground arith)
  ]

  -- With a registered permission and a store that answers, `Can` answers too, and its answer is
  -- true exactly when the specification allows the permission. A home node that is gone is allowed.
  pub can-total :
      (s : Subject) (p : String) (target : Option Text) (def : Permission)
      → lookup p ≡ some def
      → Answers store s target
      → (b : Bool) × (can store s p target ≡ ok b) × ((b ≡ true) ↔ Allowed store s p target)
  can-total s p target def lk a =
      let (ids, e₁) = ancestors_of-total def.scope target a.paths in
      let (mid, e₂) = apply_grants-total def.scope ids a.grants [] a.roles in
      let (held, e₃) = apply_implicit_baseline-total s def.scope target mid a in
      let whole : effective_permissions store s def.scope target ≡ ok held =
        unfold effective_permissions wrap in rw (a.has_grants, e₁, e₂, e₃) in
      elim (Bool-cases s.active) [
        | inl on ↦ answer (contains held p) (unfold can in ground arith)
        | inr off ↦ answer false (unfold can in ground arith)
      ]
    where
      answer :
          (b : Bool)
          → can store s p target ≡ ok b
          → (b : Bool) × (can store s p target ≡ ok b) × ((b ≡ true) ↔ Allowed store s p target)
      answer b e = (b, e, can-decides store s p target b e)
