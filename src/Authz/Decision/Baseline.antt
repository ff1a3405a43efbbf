-- ===== src/Authz/Decision/Baseline.antt =====
-- What the implicit developer baseline adds to the map.
use softmatrix_airlock.Base.{
  String, ◌≡◌, refl, ap, ◌∙◌, ◌⊎◌, ◌↔◌, inl, inr, true, ◌||◌, Option, none, some, List, ok, arith,
  Bool-cases, Option-cases, Result-cases,
}
use softmatrix_airlock.Base.Text.{Text}
use softmatrix_airlock.Paths.{in_subtree}
use softmatrix_airlock.Authz.Permission.{Scope, Permission, lookup}
use softmatrix_airlock.Authz.Role.{role_developer}
use softmatrix_airlock.Authz.Resolver.{
  Subject, Store, wrap, contains, add_permissions, baseline_at, apply_implicit_baseline,
}
use softmatrix_airlock.Authz.Spec.{BaselineGives}
use softmatrix_airlock.Authz.Decision.Held.{contains-add_permissions}

module _ (store : Store) where
  -- The baseline found the target below the home node.
  record Below (home goal : Text) : Type 0 where
    home_path : Text
    has_home_path : store.org_path home ≡ ok home_path
    goal_path : Text
    has_goal_path : store.org_path goal ≡ ok goal_path
    below : in_subtree home_path goal_path ≡ true
    perms : List String
    has_perms : store.permissions_for_role role_developer ≡ ok perms

  baseline_at-ok :
      (home goal : Text) (held held' : List String)
      → baseline_at store home goal held ≡ ok held'
      → ((held' ≡ held) × ¬ Below home goal)
        ⊎ ((b : Below home goal) × (held' ≡ add_permissions (some home) b.perms held))
  unfolding baseline_at wrap
  baseline_at-ok home goal held held' h = elim (Result-cases (store.org_path home)) [
    | inr (x, e) ↦ inl (ground arith, λ b. cc (e, b.has_home_path))
    | inl (hp, e) ↦ elim (Result-cases (store.org_path goal)) [
      | inr (y, f) ↦ absurd (ground arith)
      | inl (gp, f) ↦ elim (Bool-cases (in_subtree hp gp)) [
        | inr out ↦ inl (
          ground arith,
          λ b.
              let a : b.home_path ≡ hp = cc (e, b.has_home_path) in
              let c : b.goal_path ≡ gp = cc (f, b.has_goal_path) in
              let d : in_subtree hp gp ≡ true = rw (← a, ← c) b.below in cc (d, out),
        )
        | inl inside ↦ elim (Result-cases (store.permissions_for_role role_developer)) [
          | inr (z, k) ↦ absurd (ground arith)
          | inl (ps, k) ↦ inr (
            record {
              home_path = hp;
              has_home_path = e;
              goal_path = gp;
              has_goal_path = f;
              below = inside;
              perms = ps;
              has_perms = k;
            },
            ground arith,
          )
        ]
      ]
    ]
  ]

  gives→below :
      {s : Subject} {p : String} {scope : Scope} {home goal : Text}
      → s.primary_org_id ≡ some home
      → BaselineGives store s p scope (some goal)
      → (b : Below home goal) × (contains b.perms p ≡ true)
  gives→below {home = home} {goal = goal} e v =
      let a : v.home ≡ home = cc (e, v.has_home) in
      let c : v.goal ≡ goal = cc (v.has_goal) in
      (
        record {
          home_path = v.home_path;
          has_home_path = rw a at v.has_home_path;
          goal_path = v.goal_path;
          has_goal_path = rw c at v.has_goal_path;
          below = v.below;
          perms = v.perms;
          has_perms = v.has_perms;
        },
        v.member,
      )

  -- The baseline adds the developer's permissions, exactly below the home node.
  pub baseline-contains :
      (s : Subject) (scope : Scope) (target : Option Text) (p : String) (def : Permission)
      → (held held' : List String) → lookup p ≡ some def
      → def.scope ≡ scope
      → apply_implicit_baseline store s scope target held ≡ ok held'
      → (contains held' p ≡ true)
        ↔ ((contains held p ≡ true) ⊎ BaselineGives store s p scope target)
  unfolding apply_implicit_baseline
  baseline-contains s scope none p def held held' lk sc h =
      let e : held ≡ held' = ground arith in
      (λ c. inl (rw e c), elim [ inl c ↦ rw (← e) c | inr v ↦ absurd (cc (v.has_goal)) ])
  baseline-contains s Scope.global (some goal) p def held held' lk sc h =
      let e : held ≡ held' = ground arith in
      (λ c. inl (rw e c), elim [ inl c ↦ rw (← e) c | inr v ↦ absurd (cc (v.org_scope)) ])
  baseline-contains s Scope.org (some goal) p def held held' lk sc h =
      elim (Option-cases s.primary_org_id) [
        | inl away ↦
            let e : held ≡ held' = ground arith in
            (
              λ c. inl (rw e c),
              elim [ inl c ↦ rw (← e) c | inr v ↦ absurd (cc (away, v.has_home)) ],
            )
        | inr (home, at) ↦ elim (baseline_at-ok home goal held held' (ground arith)) [
          | inl (same, out) ↦ (
            λ c. inl (rw same at c),
            elim [ inl c ↦ rw same c | inr v ↦ absurd (out (gives→below at v).0) ],
          )
          | inr (b, same) ↦
              let e : contains held' p ≡ (contains held p || contains b.perms p) =
                ap (λ l. contains l p) same
                ∙ contains-add_permissions (some home) b.perms held p
                ∙ rw lk (ground arith) in
              (
                λ c. elim (Bool-cases (contains held p)) [
                  | inl old ↦ inl old
                  | inr new ↦ inr (record {
                    org_scope = refl;
                    home = home;
                    has_home = at;
                    goal = goal;
                    has_goal = refl;
                    home_path = b.home_path;
                    has_home_path = b.has_home_path;
                    goal_path = b.goal_path;
                    has_goal_path = b.has_goal_path;
                    below = b.below;
                    perms = b.perms;
                    has_perms = b.has_perms;
                    member = ground arith;
                  })
                ],
                elim [
                  | inl c ↦ ground arith
                  | inr v ↦
                      let w = gives→below at v in
                      let same_perms : w.0.perms ≡ b.perms = cc (w.0.has_perms, b.has_perms) in
                      let m : contains b.perms p ≡ true = rw same_perms at w.1 in ground arith
                ],
              )
        ]
      ]
