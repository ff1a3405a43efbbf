-- ===== src/Grants/Guard.antt =====
-- What the handlers of internal/control/grantapi.go let through.
use softmatrix_airlock.Base.{
  ◌≡◌, ◌≢◌, refl, sym, ap, ◌∙◌, inl, inr, String, true, ◌||◌, Option, none, some, List, [], All, ok,
  arith, Bool-cases, Option-cases, Result-cases,
}
use softmatrix_airlock.Base.Text.{Text}
use softmatrix_airlock.Authz.Permission.{perm_grant_write}
use softmatrix_airlock.Authz.Resolver.{can, can_grant, Store, Subject, wrap}
use softmatrix_airlock.Authz.Spec.{Allowed}
use softmatrix_airlock.Authz.Decision.Can.{can-decides}
use softmatrix_airlock.Authz.Delegation.{can_grant-decides}
use softmatrix_airlock.Users.Model.{User}
use softmatrix_airlock.Console.{refuse, subject_of, user_of}
use softmatrix_airlock.Grants.Model.{Role, RoleGrant, Tables}
use softmatrix_airlock.Grants.Api.{
  Deps, GrantBody, check_failed, is_known_role, write_grant, handle_create_grant,
  handle_delete_grant,
}
use text.Mathlib.Text.{◌==◌}

can_grant-perms :
    (store : Store) (s : Subject) (role : String) (target : Option Text)
    → can_grant store s role target ≡ ok true
    → (perms : List String) × (store.permissions_for_role role ≡ ok perms)
      × (perms ≢ [])
      × All (λ p. Allowed store s p target) perms
unfolding can_grant wrap
can_grant-perms store s role target h = elim (Result-cases (store.permissions_for_role role)) [
  | inr (e, f) ↦ absurd (ground arith)
  | inl (perms, f) ↦
      let both = (can_grant-decides store s role target perms true f h).0 refl in
      (perms, f, both.0, both.1)
]

module _ (deps : Deps) where
  -- What stands when a grant was created.
  pub record Created (granter : User) (body : GrantBody) (t : Tables) (g : RoleGrant) (t' : Tables)
      : Type 0 where
    pub roles : List Role
    pub listed : deps.list_roles t ≡ ok roles
    pub known : is_known_role body.role_id roles ≡ true
    pub perms : List String
    pub has_perms : (deps.resolver t).permissions_for_role body.role_id ≡ ok perms
    pub nonempty : perms ≢ []
    pub allowed : All (λ p. Allowed (deps.resolver t) (subject_of granter) p body.org_id) perms
    pub user : User
    pub has_user : deps.by_id body.user_id ≡ ok user
    pub written : deps.create_grant g t ≡ ok t'
    pub row : (g.user_id ≡ body.user_id) × (g.role_id ≡ body.role_id) × (g.org_id ≡ body.org_id)
    pub signed : g.granted_by ≡ some granter.id

  write-Created :
      (granter : User) (body : GrantBody) (fresh : String) (t : Tables) (g : RoleGrant)
      (t' : Tables) (roles : List Role)
      → deps.list_roles t ≡ ok roles
      → is_known_role body.role_id roles ≡ true
      → can_grant (deps.resolver t) (subject_of granter) body.role_id body.org_id ≡ ok true
      → write_grant deps granter body fresh t ≡ ok (g, t')
      → Created granter body t g t'
  unfolding write_grant refuse
  write-Created granter body fresh t g t' roles listed known may h =
      elim (Result-cases (deps.by_id body.user_id)) [
        | inr (e, f) ↦ absurd (ground arith)
        | inl (u, f) ↦
            let made : RoleGrant = record {
              id = fresh;
              user_id = body.user_id;
              role_id = body.role_id;
              org_id = body.org_id;
              granted_by = some granter.id;
              created_at = 0;
            } in
            elim (Result-cases (deps.create_grant made t)) [
              | inr (e, x) ↦ absurd (ground arith)
              | inl (t'', x) ↦
                  let same : made ≡ g = ground arith in
                  let (perms, has, some_perm, all) =
                    can_grant-perms (deps.resolver t) (subject_of granter) body.role_id body.org_id
                      may in
                  record {
                    roles = roles;
                    listed = listed;
                    known = known;
                    perms = perms;
                    has_perms = has;
                    nonempty = some_perm;
                    allowed = all;
                    user = u;
                    has_user = f;
                    written = rw (← same) (x ∙ ground arith);
                    row = (
                      ap (λ r. r.user_id) (sym same),
                      ap (λ r. r.role_id) (sym same),
                      ap (λ r. r.org_id) (sym same),
                    );
                    signed = ap (λ r. r.granted_by) (sym same);
                  }
            ]
      ]

  -- Nobody hands out more than they hold: a creation that succeeds was asked by a user who is allowed
  -- every permission of the role on the very node (or globally, where the grant is global), the role has a
  -- permission and is listed, the user it goes to is there, and what was written is the asked grant, signed
  -- by the granter.
  pub create_grant_within :
      (user : Option User) (body : Option GrantBody) (fresh : String) (t : Tables) (g : RoleGrant)
      (t' : Tables)
      → handle_create_grant deps user body fresh t ≡ ok (g, t')
      → (granter : User) × (asked : GrantBody) × (user ≡ some granter)
        × (body ≡ some asked)
        × Created granter asked t g t'
  unfolding handle_create_grant user_of refuse check_failed
  create_grant_within user none fresh t g t' h = absurd (ground arith)
  create_grant_within none (some body) fresh t g t' h = absurd (ground arith)
  create_grant_within (some granter) (some body) fresh t g t' h =
      elim (Bool-cases (body.user_id == "" || body.role_id == "")) [
        | inl b ↦ absurd (ground arith)
        | inr b ↦ elim (Result-cases (deps.list_roles t)) [
          | inr (e, f) ↦ absurd (ground arith)
          | inl (roles, f) ↦ elim (Bool-cases (is_known_role body.role_id roles)) [
            | inr k ↦ absurd (ground arith)
            | inl k ↦
                elim (Result-cases
                  (can_grant (deps.resolver t) (subject_of granter) body.role_id body.org_id)) [
                    | inr (e, c) ↦ absurd (ground arith)
                    | inl (allowed, c) ↦ elim (Bool-cases allowed) [
                      | inr a ↦ absurd (ground arith)
                      | inl a ↦ (
                        granter,
                        body,
                        refl,
                        refl,
                        write-Created granter body fresh t g t' roles f k (c ∙ ap ok a)
                            (ground arith),
                      )
                    ]
                  ]
          ]
        ]
      ]

  -- A deletion that succeeds was asked by a user who is allowed to write grants on the node of the grant
  -- (globally, where it is a global one), and deletes that grant.
  pub delete_grant_within :
      (user : Option User) (id : String) (t t' : Tables)
      → handle_delete_grant deps user id t ≡ ok t'
      → (u : User) × (g : RoleGrant) × (user ≡ some u)
        × (deps.get_grant id t ≡ ok g)
        × Allowed (deps.resolver t) (subject_of u) perm_grant_write g.org_id
        × (deps.delete_grant g.id t ≡ ok t')
  unfolding handle_delete_grant user_of refuse
  delete_grant_within user id t t' h = elim (Result-cases (deps.get_grant id t)) [
    | inr (e, f) ↦ absurd (ground arith)
    | inl (g, f) ↦ elim (Option-cases user) [
      | inl n ↦ absurd (ground arith)
      | inr (u, n) ↦
          elim (Result-cases (can (deps.resolver t) (subject_of u) perm_grant_write g.org_id)) [
            | inr (e, c) ↦ absurd (ground arith)
            | inl (allowed, c) ↦ elim (Bool-cases allowed) [
              | inr a ↦ absurd (ground arith)
              | inl a ↦ elim (Result-cases (deps.delete_grant g.id t)) [
                | inr (e, x) ↦ absurd (ground arith)
                | inl (t'', x) ↦ (
                  u,
                  g,
                  n,
                  f,
                  (can-decides (deps.resolver t) (subject_of u) perm_grant_write g.org_id true
                        (c ∙ ap ok a)).0
                      refl,
                  x ∙ ground arith,
                )
              ]
            ]
          ]
    ]
  ]
