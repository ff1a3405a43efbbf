-- ===== src/Authz/Delegation.antt =====
-- What follows for the people who hold grants: global permissions, inheritance down the tree, and
-- who may grant a role.
use softmatrix_airlock.Base.{
  String, ◌≡◌, ◌≢◌, refl, ap, ◌∙◌, ◌↔◌, inl, inr, Bool, true, false, Option, none, some, List, [],
  ◌∷◌, All, Some, ok, arith, Result-cases,
}
use softmatrix_airlock.Base.Text.{Text, eq_iff}
use softmatrix_airlock.Paths.{path_of, IsId}
use softmatrix_airlock.Paths.Segments.{chain_ids-path_of}
use softmatrix_airlock.Paths.Subtree.{is_prefix, in_subtree-path_of, in_subtree_trans}
use softmatrix_airlock.Authz.Permission.{Scope, Permission, lookup}
use softmatrix_airlock.Authz.Resolver.{
  Grant, Subject, Store, wrap, contains, has_id, can, holds_all, can_grant,
}
use softmatrix_airlock.Authz.Spec.{GrantGives, Allowed}
use softmatrix_airlock.Authz.Decision.Can.{can-decides}
use softmatrix_airlock.Authz.Decision.Total.{Answers, can-total}

Some-map :
    {A : Type 0} {P Q : A → Type 0} (f : (a : A) → P a → Q a) (xs : List A) → Some P xs → Some Q xs
Some-map f [] h = h
Some-map f (x ∷ xs) (inl p) = inl (f x p)
Some-map f (x ∷ xs) (inr h) = inr (Some-map f xs h)

-- A prefix keeps its ids.
has_id-is_prefix :
    (hs ds : List Text) (o : Text)
    → is_prefix hs ds ≡ true
    → has_id hs o ≡ true
    → has_id ds o ≡ true
unfolding is_prefix has_id
has_id-is_prefix [] ds o pre m = ground arith
has_id-is_prefix (a ∷ hs) [] o pre m = ground arith
has_id-is_prefix (a ∷ hs) (d ∷ ds) o pre m = ground (arith, has_id-is_prefix hs ds o, eq_iff d a)

module _ (store : Store) where
  -- A permission of global scope is held only through a grant that stands on no node, whatever the
  -- target and whatever node grants and home node the subject has.
  pub can_global_only :
      (s : Subject) (p : String) (target : Option Text) (def : Permission)
      → lookup p ≡ some def
      → def.scope ≡ Scope.global
      → can store s p target ≡ ok true
      → (gs : List Grant) × (store.grants_for_user s.user_id ≡ ok gs)
        × Some
            (λ (g : Grant).
              (g.org_id ≡ none)
              × ((perms : List String) × (store.permissions_for_role g.role_id ≡ ok perms)
                  × (contains perms p ≡ true)))
            gs
  can_global_only s p target def lk glob h =
      let a = (can-decides store s p target true h).0 refl in
      let d : a.def ≡ def = cc (lk, a.registered) in
      let sc : a.def.scope ≡ Scope.global = ap (λ (x : Permission). x.scope) d ∙ glob in
      (
        a.grants,
        a.has_grants,
        elim a.given [
          | inr b ↦ absurd (cc (sc, b.org_scope))
          | inl v ↦
              Some-map
                (λ g w. (
                  elim w.reaches [ inl e ↦ e | inr r ↦ absurd (cc (sc, r.org_scope)) ],
                  (w.perms, w.has_perms, w.member),
                ))
                a.grants v
        ],
      )

  -- What the specification allows on a node it allows on a target whose chain of ids begins with that
  -- of the node.
  Allowed-below :
      (s : Subject) (p : String) (top goal : Text) (hs ds : List Text)
      → All IsId hs
      → All IsId ds
      → store.org_path top ≡ ok (path_of hs)
      → store.org_path goal ≡ ok (path_of ds)
      → is_prefix hs ds ≡ true
      → Allowed store s p (some top)
      → Allowed store s p (some goal)
  Allowed-below s p top goal hs ds ih id ph pd pre a = record {
    def = a.def;
    registered = a.registered;
    active = a.active;
    grants = a.grants;
    has_grants = a.has_grants;
    given = elim a.given [
      | inl v ↦ inl (Some-map grant a.grants v)
      | inr b ↦ inr (record {
        org_scope = b.org_scope;
        home = b.home;
        has_home = b.has_home;
        home_path = b.home_path;
        has_home_path = b.has_home_path;
        perms = b.perms;
        has_perms = b.has_perms;
        member = b.member;
        goal = goal;
        has_goal = refl;
        goal_path = path_of ds;
        has_goal_path = pd;
        below =
            in_subtree_trans b.home_path (path_of hs) (path_of ds)
              (let same : b.goal_path ≡ path_of hs =
                  let g : b.goal ≡ top = cc (b.has_goal) in
                  cc (ph, b.has_goal_path, ap store.org_path g) in
                rw same at b.below)
              (in_subtree-path_of hs ds ih id ∙ pre);
      })
    ];
  }
    where
      grant :
          (g : Grant)
          → GrantGives store p a.def.scope (some top) g
          → GrantGives store p a.def.scope (some goal) g
      grant g v = record {
        perms = v.perms;
        has_perms = v.has_perms;
        member = v.member;
        reaches = elim v.reaches [
          | inl e ↦ inl e
          | inr r ↦ inr (record {
            node = r.node;
            on_node = r.on_node;
            org_scope = r.org_scope;
            goal = goal;
            has_goal = refl;
            path = path_of ds;
            has_path = pd;
            above =
                let e : r.goal ≡ top = cc (r.has_goal) in
                let same : r.path ≡ path_of hs = cc (ph, r.has_path, ap store.org_path e) in
                let m : has_id hs r.node ≡ true =
                  rw (chain_ids-path_of hs ih) at (rw same at r.above) in
                rw (chain_ids-path_of ds id) (has_id-is_prefix hs ds r.node pre m);
          })
        ];
      }

  -- `Can` inherits down the tree: where it answers yes on a node, it answers yes, and not with an
  -- error, on every node below, which is one whose chain of ids begins with that of the first. The
  -- store answers for the target below.
  pub can-below :
      (s : Subject) (p : String) (top goal : Text) (hs ds : List Text)
      → All IsId hs
      → All IsId ds
      → store.org_path top ≡ ok (path_of hs)
      → store.org_path goal ≡ ok (path_of ds)
      → is_prefix hs ds ≡ true
      → Answers store s (some goal)
      → can store s p (some top) ≡ ok true
      → can store s p (some goal) ≡ ok true
  can-below s p top goal hs ds ih id ph pd pre answers h =
      let a = (can-decides store s p (some top) true h).0 refl in
      let (b, e, dec) = can-total store s p (some goal) a.def a.registered answers in
      e ∙ ap ok (dec.1 (Allowed-below s p top goal hs ds ih id ph pd pre a))

  holds_all-decides :
      (s : Subject) (ps : List String) (target : Option Text) (b : Bool)
      → holds_all store s ps target ≡ ok b
      → (b ≡ true) ↔ All (λ p. Allowed store s p target) ps
  unfolding holds_all
  holds_all-decides s [] target b h = (λ e. tt, λ a. ground arith)
  holds_all-decides s (p ∷ ps) target b h = elim (Result-cases (can store s p target)) [
    | inr (x, e) ↦ absurd (ground arith)
    | inl (false, e) ↦
        let z : b ≡ false = ground arith in
        let dec = can-decides store s p target false e in
        (λ t. absurd (cc (t, z)), λ a. absurd (cc (dec.1 a.0)))
    | inl (true, e) ↦
        let dec = can-decides store s p target true e in
        let others = holds_all-decides s ps target b (ground arith) in
        (λ t. (dec.0 refl, others.0 t), λ a. others.1 a.1)
  ]

  -- Where `CanGrant` answers, it answers true exactly when the role has a permission, and the
  -- granter is allowed every permission of the role on the target.
  pub can_grant-decides :
      (granter : Subject) (role_id : String) (target : Option Text) (perms : List String) (b : Bool)
      → store.permissions_for_role role_id ≡ ok perms
      → can_grant store granter role_id target ≡ ok b
      → (b ≡ true) ↔ ((perms ≢ []) × All (λ p. Allowed store granter p target) perms)
  unfolding can_grant wrap
  can_grant-decides granter role_id target [] b e h =
      let z : b ≡ false = ground arith in (λ t. absurd (cc (t, z)), λ a. absurd (a.0 refl))
  can_grant-decides granter role_id target (p ∷ ps) b e h =
      let dec = holds_all-decides granter (p ∷ ps) target b (ground arith) in
      (λ t. (λ z. cc z, dec.0 t), λ a. dec.1 a.1)
