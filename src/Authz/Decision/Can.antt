-- ===== src/Authz/Decision/Can.antt =====
-- `Can` and `Permissions` decide the specification, and answer whenever the store does.
use softmatrix_airlock.Base.{
  String, ◌≡◌, refl, sym, ◌∙◌, ◌⊎◌, ◌↔◌, inl, inr, Bool, true, false, Option, some, List, [], Some,
  ok, both_ok, subst, arith, Bool-cases, Option-cases, Result-cases,
}
use softmatrix_airlock.Base.Text.{Text}
use softmatrix_airlock.Authz.Permission.{Scope, Permission, lookup}
use softmatrix_airlock.Authz.Resolver.{
  Grant, Subject, Store, wrap, wrap-ok, contains, ancestors_of, apply_grants,
  apply_implicit_baseline, effective_permissions, can,
}
use softmatrix_airlock.Authz.Spec.{GrantGives, BaselineGives, Allowed}
use softmatrix_airlock.Authz.Decision.Held.{apply_grants-contains}
use softmatrix_airlock.Authz.Decision.Baseline.{baseline-contains}

module _ (store : Store) where
  -- The stages of a successful `effectivePermissions`.
  record Stages (s : Subject) (scope : Scope) (target : Option Text) (held : List String)
      : Type 0 where
    grants : List Grant
    has_grants : store.grants_for_user s.user_id ≡ ok grants
    ids : List Text
    has_ids : ancestors_of store scope target ≡ ok ids
    mid : List String
    has_mid : apply_grants store scope ids grants [] ≡ ok mid
    has_held : apply_implicit_baseline store s scope target mid ≡ ok held

  effective-Stages :
      (s : Subject) (scope : Scope) (target : Option Text) (held : List String)
      → effective_permissions store s scope target ≡ ok held
      → Stages s scope target held
  unfolding effective_permissions
  effective-Stages s scope target held h =
      let (grants, a, h₁) = both_ok (wrap "查询用户授予失败" (store.grants_for_user s.user_id)) _ h in
      let (ids, b, h₂) = both_ok (ancestors_of store scope target) _ h₁ in
      let (mid, c, d) = both_ok (apply_grants store scope ids grants []) _ h₂ in
      record {
        grants = grants;
        has_grants = wrap-ok "查询用户授予失败" (store.grants_for_user s.user_id) a;
        ids = ids;
        has_ids = b;
        mid = mid;
        has_mid = c;
        has_held = d;
      }

  Gives : Subject → String → Scope → Option Text → List Grant → Type 0
  Gives s p scope target gs =
      Some (GrantGives store p scope target) gs ⊎ BaselineGives store s p scope target

  effective-contains :
      (s : Subject) (scope : Scope) (target : Option Text) (p : String) (def : Permission)
      → (held : List String) (gs : List Grant) → lookup p ≡ some def
      → def.scope ≡ scope
      → effective_permissions store s scope target ≡ ok held
      → store.grants_for_user s.user_id ≡ ok gs
      → (contains held p ≡ true) ↔ Gives s p scope target gs
  unfolding Gives
  effective-contains s scope target p def held gs lk sc h hg =
      let t = effective-Stages s scope target held h in
      let g : t.grants ≡ gs = cc (hg, t.has_grants) in
      let a =
        apply_grants-contains store scope target t.ids t.has_ids p def t.grants [] t.mid lk sc
          t.has_mid in
      let b = baseline-contains store s scope target p def t.mid held lk sc t.has_held in
      (
        λ c. elim (b.0 c) [
          | inr v ↦ inr v
          | inl m ↦ elim (a.0 m) [
            | inl z ↦ absurd (unfold contains in ground arith)
            | inr v ↦ inl (subst (λ l. Some (GrantGives store p scope target) l) g v)
          ]
        ],
        elim [
          | inl v ↦
              b.1
                (inl (a.1 (inr (subst (λ l. Some (GrantGives store p scope target) l) (sym g) v))))
          | inr v ↦ b.1 (inr v)
        ],
      )

  can-ok :
      (s : Subject) (p : String) (target : Option Text) (b : Bool) (def : Permission)
      → lookup p ≡ some def
      → s.active ≡ true
      → can store s p target ≡ ok b
      → (held : List String) × (effective_permissions store s def.scope target ≡ ok held)
        × (b ≡ contains held p)
  unfolding can
  can-ok s p target b def lk on h =
      elim (Result-cases (effective_permissions store s def.scope target)) [
        | inl (held, e) ↦ (held, e, ground arith)
        | inr (x, e) ↦ absurd (ground arith)
      ]

  can-registered :
      (s : Subject) (p : String) (target : Option Text) (b : Bool)
      → can store s p target ≡ ok b
      → (def : Permission) × (lookup p ≡ some def)
  unfolding can
  can-registered s p target b h = elim (Option-cases (lookup p)) [
    | inl e ↦ absurd (ground arith)
    | inr (def, e) ↦ (def, e)
  ]

  can-disabled :
      (s : Subject) (p : String) (target : Option Text) (b : Bool) (def : Permission)
      → lookup p ≡ some def
      → s.active ≡ false
      → can store s p target ≡ ok b
      → b ≡ false
  unfolding can
  can-disabled s p target b def lk off h = ground arith

  -- Where `Can` answers, it answers true exactly when a grant that reaches the target, or the
  -- developer baseline, gives the permission to an active subject.
  pub can-decides :
      (s : Subject) (p : String) (target : Option Text) (b : Bool)
      → can store s p target ≡ ok b
      → (b ≡ true) ↔ Allowed store s p target
  can-decides s p target b h =
      let (def, lk) = can-registered s p target b h in
      elim (Bool-cases s.active) [
        | inr off ↦
            let z = can-disabled s p target b def lk off h in
            (λ t. absurd (ground arith), λ a. absurd (cc (off, a.active)))
        | inl on ↦
            let (held, e, same) = can-ok s p target b def lk on h in
            let t = effective-Stages s def.scope target held e in
            let dec =
              effective-contains s def.scope target p def held t.grants lk refl e t.has_grants in
            (
              λ bt. record {
                def = def;
                registered = lk;
                active = on;
                grants = t.grants;
                has_grants = t.has_grants;
                given = unfold Gives in dec.0 (sym same ∙ bt);
              },
              λ a.
                  let d : a.def ≡ def = cc (lk, a.registered) in
                  let g : a.grants ≡ t.grants = cc (a.has_grants, t.has_grants) in
                  same
                  ∙ dec.1 (
                      unfold Gives in
                      subst (λ l. Gives s p def.scope target l) g
                        (subst (λ (x : Permission). Gives s p x.scope target a.grants) d a.given)),
            )
      ]
