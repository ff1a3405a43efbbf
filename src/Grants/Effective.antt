-- ===== src/Grants/Effective.antt =====
-- `ListEffectiveGrantsForOrg` of internal/control/grantstore.go against `grantApplies` of
-- internal/authz/resolver.go.
use softmatrix_airlock.Base.{
  ◌≡◌, refl, sym, ap, inl, inr, Bool, true, ◌||◌, Option, none, some, List, [], ◌∷◌, All, keep, map,
  ok, arith, Bool-cases,
}
use softmatrix_airlock.Base.Text.{Text, ◌==◌ as text_eq, eq→path}
use softmatrix_airlock.Paths.{non_empty, ancestor_ids, chain_ids}
use softmatrix_airlock.Authz.Permission.{Scope}
use softmatrix_airlock.Authz.Resolver.{wrap, has_id, grant_applies, ancestor_chain}
use softmatrix_airlock.Orgs.Model as Orgs
use softmatrix_airlock.Orgs.Store.{find_org}
use softmatrix_airlock.Grants.Model.{RoleGrant, Tables}
use softmatrix_airlock.Grants.Store.{
  by_creation, raw_chain, reaches, source_of, list_effective_grants_for_org, resolver_grant,
  rbac_store,
}

abbrev HasNode : Option Text → Type 0
HasNode none = Unit
HasNode (some o) = non_empty o ≡ true

-- A grant stands on a node with an id, as the foreign key has it.
abbrev pub OnNode : RoleGrant → Type 0
OnNode g = HasNode g.org_id

has_id-keep :
    (ids : List Text) (o : Text) → non_empty o ≡ true → has_id (keep non_empty ids) o ≡ has_id ids o
unfolding has_id
has_id-keep [] o h = refl
has_id-keep (i ∷ ids) o h = elim (Bool-cases (non_empty i)) [
  | inl t ↦ rw t (ap (λ x. text_eq i o || x) (has_id-keep ids o h))
  | inr f ↦ elim (Bool-cases (text_eq i o)) [
    | inl same ↦ absurd (let e = eq→path i o same in ground (arith, ap non_empty e))
    | inr other ↦ rw (f, other) (has_id-keep ids o h)
  ]
]

reaches-applies :
    (path : Text) (g : RoleGrant)
    → OnNode g
    → reaches (raw_chain path) g ≡ grant_applies (resolver_grant g) Scope.org (chain_ids path)
unfolding reaches raw_chain grant_applies chain_ids ancestor_ids
reaches-applies path g h = at g.org_id h
  where
    at :
        (place : Option Text)
        → HasNode place
        → elim place as (λ x. Bool) [ none ↦ true | some o ↦ has_id (raw_chain path) o ]
          ≡ elim place as (λ x. Bool) [ none ↦ true | some o ↦ has_id (chain_ids path) o ]
    at none k = refl
    at (some o) k = sym (has_id-keep (raw_chain path) o k)

keep-same :
    (p q : RoleGrant → Bool) (gs : List RoleGrant)
    → ((g : RoleGrant) → OnNode g → p g ≡ q g)
    → All OnNode gs
    → keep p gs ≡ keep q gs
keep-same p q [] same h = refl
keep-same p q (g ∷ gs) same h =
    let e = same g h.0 in let rest = keep-same p q gs same h.1 in ground arith

-- The list of who has a grant on a node is right: for a node that is there, and grants that stand on
-- nodes, `ListEffectiveGrantsForOrg` answers exactly the grants that the resolver counts for the node
-- (with the chain of ids that the resolver reads off the same tables), in the order of creation, each with
-- its source. The listing cuts the path with `Split` alone and the resolver drops empty parts; that makes
-- no difference.
pub effective_grants-applies :
    (org : Text) (orgs : Orgs.Table) (t : Tables) (o : Orgs.Org)
    → find_org org orgs ≡ some o
    → All OnNode t.role_grants
    → (ids : List Text) × (ancestor_chain (rbac_store orgs t) org ≡ ok ids)
      × (list_effective_grants_for_org org orgs t
          ≡ ok (
              map
                (λ g. record { grant = g; source = source_of org g })
                (by_creation
                  (keep (λ g. grant_applies (resolver_grant g) Scope.org ids) t.role_grants))))
unfolding ancestor_chain rbac_store wrap list_effective_grants_for_org
effective_grants-applies org orgs t o found h =
    let same =
      keep-same (reaches (raw_chain o.path))
        (λ g. grant_applies (resolver_grant g) Scope.org (chain_ids o.path)) t.role_grants
        (λ g k. reaches-applies o.path g k) h in
    (
      chain_ids o.path,
      rw (found, rbac_store, ancestor_chain) refl,
      rw (list_effective_grants_for_org, found)
          (ap (λ x. ok (map (λ g. record { grant = g; source = source_of org g }) (by_creation x)))
            same),
    )
