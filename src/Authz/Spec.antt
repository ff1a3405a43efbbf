-- ===== src/Authz/Spec.antt =====
-- What a subject may do, with no reference to the loops of the resolver: a permission comes from a
-- grant that reaches the target, or from the developer baseline below the home node.
use softmatrix_airlock.Base.{String, ◌≡◌, ◌⊎◌, true, Option, none, some, List, Some, ok}
use softmatrix_airlock.Base.Text.{Text}
use softmatrix_airlock.Paths.{chain_ids, in_subtree}
use softmatrix_airlock.Authz.Permission.{Scope, Permission, lookup}
use softmatrix_airlock.Authz.Role.{role_developer}
use softmatrix_airlock.Authz.Resolver.{Grant, Subject, Store, contains, has_id}

module _ (store : Store) where
  -- A grant on a node reaches the targets below that node.
  pub record ReachesNode (g : Grant) (scope : Scope) (target : Option Text) : Type 0 where
    pub node : Text
    pub on_node : g.org_id ≡ some node
    pub org_scope : scope ≡ Scope.org
    pub goal : Text
    pub has_goal : target ≡ some goal
    pub path : Text
    pub has_path : store.org_path goal ≡ ok path
    pub above : has_id (chain_ids path) node ≡ true

  pub record GrantGives (p : String) (scope : Scope) (target : Option Text) (g : Grant)
      : Type 0 where
    pub perms : List String
    pub has_perms : store.permissions_for_role g.role_id ≡ ok perms
    pub member : contains perms p ≡ true
    pub reaches : (g.org_id ≡ none) ⊎ ReachesNode g scope target

  pub record BaselineGives (s : Subject) (p : String) (scope : Scope) (target : Option Text)
      : Type 0 where
    pub org_scope : scope ≡ Scope.org
    pub home : Text
    pub has_home : s.primary_org_id ≡ some home
    pub goal : Text
    pub has_goal : target ≡ some goal
    pub home_path : Text
    pub has_home_path : store.org_path home ≡ ok home_path
    pub goal_path : Text
    pub has_goal_path : store.org_path goal ≡ ok goal_path
    pub below : in_subtree home_path goal_path ≡ true
    pub perms : List String
    pub has_perms : store.permissions_for_role role_developer ≡ ok perms
    pub member : contains perms p ≡ true

  pub record Allowed (s : Subject) (p : String) (target : Option Text) : Type 0 where
    pub def : Permission
    pub registered : lookup p ≡ some def
    pub active : s.active ≡ true
    pub grants : List Grant
    pub has_grants : store.grants_for_user s.user_id ≡ ok grants
    pub given : Some (GrantGives p def.scope target) grants ⊎ BaselineGives s p def.scope target
