-- ===== src/Authz/Decision/Held.antt =====
-- What the loops of `effectivePermissions` put into the map.
use softmatrix_airlock.Base.{
  String, ◌≡◌, refl, ap, ◌∙◌, ◌⊎◌, ◌↔◌, inl, inr, true, false, ◌&&◌, ◌||◌, not, Option, none, some,
  List, [], ◌∷◌, Some, ok, err, arith, Bool-cases, Option-cases, Result-cases,
}
use softmatrix_airlock.Base.Text.{Text}
use softmatrix_airlock.Paths.{chain_ids}
use softmatrix_airlock.Authz.Permission.{Scope, Permission, lookup}
use softmatrix_airlock.Authz.Resolver.{
  Error, Grant, Store, wrap, ancestors_of, ancestor_chain, contains, has_id, is_global, is_some,
  grant_applies, add_permissions, apply_grant, apply_grants,
}
use softmatrix_airlock.Authz.Spec.{ReachesNode, GrantGives}
use text.Mathlib.TextEquality.{eq_iff}

-- The inner loop adds what the role has, but for global permissions of a grant on a node.
pub contains-add_permissions :
    (org_id : Option Text) (perms held : List String) (p : String)
    → contains (add_permissions org_id perms held) p
      ≡ (contains held p || (contains perms p && not (is_global (lookup p) && is_some org_id)))
unfolding add_permissions contains
contains-add_permissions org_id [] held p = ground arith
contains-add_permissions org_id (q ∷ qs) held p =
    elim (Bool-cases (is_global (lookup q) && is_some org_id)) [
      | inl e ↦ rw e (ground (arith, contains-add_permissions org_id qs held p, eq_iff q p))
      | inr e ↦ rw e (ground (arith, contains-add_permissions org_id qs (q ∷ held) p, eq_iff q p))
    ]

-- The answer of `ancestorChain`, where the code asks for it.
data ChainView (store : Store) (target : Option Text) : Scope → List Text → Type 0 where
  no_chain : {scope : Scope} {ids : List Text} → ids ≡ [] → ChainView store target scope ids
  chain :
      {scope : Scope} {ids : List Text} (goal path : Text)
      → scope ≡ Scope.org
      → target ≡ some goal
      → store.org_path goal ≡ ok path
      → ids ≡ chain_ids path
      → ChainView store target scope ids

ancestors-ChainView :
    (store : Store) (scope : Scope) (target : Option Text) (ids : List Text)
    → ancestors_of store scope target ≡ ok ids
    → ChainView store target scope ids
unfolding ancestors_of ancestor_chain wrap
ancestors-ChainView store scope none ids h = no_chain (ground arith)
ancestors-ChainView store Scope.global (some goal) ids h = no_chain (ground arith)
ancestors-ChainView store Scope.org (some goal) ids h = elim (Result-cases (store.org_path goal)) [
  | inl (path, e) ↦ chain goal path refl refl e (ground arith)
  | inr (x, e) ↦ absurd (ground arith)
]

module _ (store : Store) (scope : Scope) (target : Option Text) (ids : List Text)
    (asked : ancestors_of store scope target ≡ ok ids) where
  -- A grant counts exactly when it is global, or its node stands above the target.
  applies→reaches :
      (g : Grant)
      → grant_applies g scope ids ≡ true
      → (g.org_id ≡ none) ⊎ ReachesNode store g scope target
  unfolding grant_applies
  applies→reaches g h = elim (Option-cases g.org_id) [
    | inl e ↦ inl e
    | inr (o, e) ↦ inr (from (ancestors-ChainView store scope target ids asked) o e (ground arith))
  ]
    where
      from :
          ChainView store target scope ids
          → (o : Text) → g.org_id ≡ some o
          → has_id ids o ≡ true
          → ReachesNode store g scope target
      from (no_chain z) o e m = absurd (unfold has_id in ground arith)
      from (chain goal path so tg pa z) o e m = record {
        node = o;
        on_node = e;
        org_scope = so;
        goal = goal;
        has_goal = tg;
        path = path;
        has_path = pa;
        above = rw z at m;
      }

  reaches→applies :
      (g : Grant)
      → (g.org_id ≡ none) ⊎ ReachesNode store g scope target
      → grant_applies g scope ids ≡ true
  unfolding grant_applies ancestors_of ancestor_chain wrap
  reaches→applies g (inl e) = ground arith
  reaches→applies g (inr r) = let a = r.above in ground arith

  abbrev GivenBy : String → Grant → Type 0
  GivenBy p g = GrantGives store p scope target g

  not_skipped :
      (p : String) (def : Permission) (g : Grant)
      → lookup p ≡ some def
      → def.scope ≡ scope
      → grant_applies g scope ids ≡ true
      → (is_global (lookup p) && is_some g.org_id) ≡ false
  unfolding grant_applies
  not_skipped p def g lk sc h = rw lk (ground arith)

  -- One round of the loop over the grants: a grant that counts.
  applied-contains :
      (p : String) (def : Permission) (g : Grant) (perms held : List String)
      → lookup p ≡ some def
      → def.scope ≡ scope
      → grant_applies g scope ids ≡ true
      → contains (add_permissions g.org_id perms held) p ≡ (contains held p || contains perms p)
  applied-contains p def g perms held lk sc h =
      contains-add_permissions g.org_id perms held p
      ∙ rw (not_skipped p def g lk sc h) (ground arith)

  -- What one round does, as an inversion of its success.
  apply_grant-ok :
      (g : Grant) (held held' : List String)
      → apply_grant store scope ids g held ≡ ok held'
      → ((grant_applies g scope ids ≡ false) × (held' ≡ held))
        ⊎ ((grant_applies g scope ids ≡ true)
            × ((perms : List String) × (store.permissions_for_role g.role_id ≡ ok perms)
                × (held' ≡ add_permissions g.org_id perms held)))
  unfolding apply_grant wrap
  apply_grant-ok g held held' h = elim (Bool-cases (grant_applies g scope ids)) [
    | inr e ↦ inl (e, ground arith)
    | inl e ↦ inr (e, go e (Result-cases (store.permissions_for_role g.role_id)))
  ]
    where
      go :
          grant_applies g scope ids ≡ true
          → ((perms : List String) × (store.permissions_for_role g.role_id ≡ ok perms))
            ⊎ ((x : Error) × (store.permissions_for_role g.role_id ≡ err x))
          → (perms : List String) × (store.permissions_for_role g.role_id ≡ ok perms)
            × (held' ≡ add_permissions g.org_id perms held)
      go e (inl (perms, a)) = (perms, a, cc)
      go e (inr (x, a)) = absurd (ground arith)

  abbrev Gives : String → Grant → Type 0
  Gives p g = GrantGives store p scope target g

  apply_grant-contains :
      (p : String) (def : Permission) (g : Grant) (held held' : List String)
      → lookup p ≡ some def
      → def.scope ≡ scope
      → apply_grant store scope ids g held ≡ ok held'
      → (contains held' p ≡ true) ↔ ((contains held p ≡ true) ⊎ Gives p g)
  apply_grant-contains p def g held held' lk sc h = elim (apply_grant-ok g held held' h) [
    | inl (off, same) ↦ (
      λ c. inl (rw same at c),
      elim [
        | inl c ↦ rw same c
        | inr v ↦ absurd (let on = reaches→applies g v.reaches in ground arith)
      ],
    )
    | inr (on, (perms, answer, same)) ↦
        let e = ap (λ l. contains l p) same ∙ applied-contains p def g perms held lk sc on in
        (
          λ c. elim (Bool-cases (contains held p)) [
            | inl old ↦ inl old
            | inr new ↦ inr (record {
              perms = perms;
              has_perms = answer;
              member = ground arith;
              reaches = applies→reaches g on;
            })
          ],
          elim [
            | inl c ↦ ground arith
            | inr v ↦
                let same_perms : v.perms ≡ perms = cc (v.has_perms, answer) in
                let m : contains perms p ≡ true = rw same_perms at v.member in ground arith
          ],
        )
  ]

  -- The whole loop over the grants.
  pub apply_grants-contains :
      (p : String) (def : Permission) (gs : List Grant) (held held' : List String)
      → lookup p ≡ some def
      → def.scope ≡ scope
      → apply_grants store scope ids gs held ≡ ok held'
      → (contains held' p ≡ true) ↔ ((contains held p ≡ true) ⊎ Some (Gives p) gs)
  unfolding apply_grants
  apply_grants-contains p def [] held held' lk sc h =
      let e : held ≡ held' = ground arith in
      (λ c. inl (rw e c), elim [ inl c ↦ rw (← e) c | inr v ↦ absurd v ])
  apply_grants-contains p def (g ∷ gs) held held' lk sc h =
      elim (Result-cases (apply_grant store scope ids g held)) [
        | inr (x, e) ↦ absurd (ground arith)
        | inl (mid, e) ↦
            let first = apply_grant-contains p def g held mid lk sc e in
            let others = apply_grants-contains p def gs mid held' lk sc (ground arith) in
            (
              λ c. elim (others.0 c) [
                | inl m ↦ elim (first.0 m) [ inl o ↦ inl o | inr v ↦ inr (inl v) ]
                | inr v ↦ inr (inr v)
              ],
              elim [
                | inl o ↦ others.1 (inl (first.1 (inl o)))
                | inr (inl v) ↦ others.1 (inl (first.1 (inr v)))
                | inr (inr v) ↦ others.1 (inr v)
              ],
            )
      ]
