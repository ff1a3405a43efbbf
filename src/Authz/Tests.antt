-- ===== src/Authz/Tests.antt =====
-- A small company, and runs of the resolver on it. "rd" lies below "root", and "rd2" beside "rd".
use softmatrix_airlock.Base.{
  String, ◌≡◌, ◌≢◌, refl, ◌↔◌, inr, Bool, true, false, none, some, List, [], ◌∷◌, All, Some, ok,
  err, Result, find, if◌then◌else◌,
}
use softmatrix_airlock.Base.Text.{Text, bytes, ◌==◌ as text_eq}
use softmatrix_airlock.Paths.{
  split, trim_left, trim_right, ancestor_ids, chain_ids, in_subtree, path_of, IsId,
}
use softmatrix_airlock.Paths.Segments.{chain_ids-path_of}
use softmatrix_airlock.Paths.Subtree.{is_prefix, in_subtree-path_of}
use softmatrix_airlock.Authz.Permission.{Scope, Permission, lookup}
use softmatrix_airlock.Authz.Role.{builtin_roles}
use softmatrix_airlock.Authz.Resolver.{
  Error, org_not_found, Grant, Subject, Store, wrap, contains, has_id, grant_applies,
  add_permissions, ancestor_chain, apply_grant, apply_grants, baseline_at, apply_implicit_baseline,
  ancestors_of, effective_permissions, can, holds_all, can_grant, is_org_not_found,
}
use softmatrix_airlock.Authz.Spec.{Allowed}
use softmatrix_airlock.Authz.Decision.Total.{Answers, can-total}
use softmatrix_airlock.Authz.Delegation.{can_global_only, can-below, can_grant-decides}
use text.Mathlib.Text.{◌==◌}

abbrev root : Text
root = bytes "root"

abbrev rd : Text
rd = bytes "rd"

abbrev rd2 : Text
rd2 = bytes "rd2"

abbrev gw : Text
gw = bytes "gw"

path_of_org : Text → Result Error Text
path_of_org id =
    if text_eq id root
    then ok (path_of (root ∷ []))
    else if text_eq id rd
    then ok (path_of (root ∷ rd ∷ []))
    else if text_eq id rd2
    then ok (path_of (root ∷ rd2 ∷ []))
    else if text_eq id gw
    then ok (path_of (root ∷ rd ∷ gw ∷ []))
    else err org_not_found

role_perms : String → List String
role_perms r = elim (find (λ x. x.id == r) builtin_roles) [ none ↦ [] | some x ↦ x.permissions ]

grants_of : String → List Grant
grants_of u =
    if u == "ann"
    then record { role_id = "org_admin"; org_id = some rd } ∷ []
    else if u == "pia"
    then record { role_id = "platform_admin"; org_id = none } ∷ []
    else []

abbrev company : Store
company = record {
  grants_for_user = λ u. ok (grants_of u);
  permissions_for_role = λ r. ok (role_perms r);
  org_path = path_of_org;
}

abbrev ann : Subject
ann = record { user_id = "ann"; active = true; primary_org_id = some (bytes "gone") }

abbrev pia : Subject
pia = record { user_id = "pia"; active = true; primary_org_id = none }

ann_writes_gw : can company ann "key:write" (some gw) ≡ ok true
unfolding can effective_permissions wrap ancestors_of ancestor_chain chain_ids ancestor_ids split
    trim_left trim_right path_of path_of_org grants_of role_perms apply_grants apply_grant
    grant_applies has_id add_permissions apply_implicit_baseline baseline_at is_org_not_found
    contains lookup builtin_roles text_eq
ann_writes_gw = refl

ann_not_rd2 : can company ann "key:write" (some rd2) ≡ ok false
unfolding can effective_permissions wrap ancestors_of ancestor_chain chain_ids ancestor_ids split
    trim_left trim_right path_of path_of_org grants_of role_perms apply_grants apply_grant
    grant_applies has_id add_permissions apply_implicit_baseline baseline_at is_org_not_found
    contains lookup builtin_roles text_eq
ann_not_rd2 = refl

pia_revokes : can company pia "key:revoke_all" none ≡ ok true
unfolding can effective_permissions wrap ancestors_of apply_grants apply_grant grant_applies
    grants_of role_perms add_permissions apply_implicit_baseline contains lookup builtin_roles
pia_revokes = refl

root-rd-IsId : All IsId (root ∷ rd ∷ [])
root-rd-IsId =
    (record { has_text = refl; no_slash = refl }, (record { has_text = refl; no_slash = refl }, tt))

root-rd-gw-IsId : All IsId (root ∷ rd ∷ gw ∷ [])
root-rd-gw-IsId = (
  record { has_text = refl; no_slash = refl },
  (record { has_text = refl; no_slash = refl }, (record { has_text = refl; no_slash = refl }, tt)),
)

ann-Answers : Answers company ann (some gw)
unfolding path_of path_of_org text_eq is_org_not_found
ann-Answers = record {
  grants = grants_of "ann";
  has_grants = refl;
  roles = λ r. (role_perms r, refl);
  paths = λ t e. (path_of (root ∷ rd ∷ gw ∷ []), let p : t ≡ gw = cc (e) in rw p);
  home = λ h e. inr (org_not_found, (let p : h ≡ bytes "gone" = cc (e) in rw p), refl);
}

key_write : Permission
key_write = record { key = "key:write"; scope = Scope.org; desc = "签发与吊销密钥" }

key_write_registered : lookup "key:write" ≡ some key_write
unfolding lookup key_write
key_write_registered = refl

can-total_example :
    (b : Bool) × (can company ann "key:write" (some gw) ≡ ok b)
    × ((b ≡ true) ↔ Allowed company ann "key:write" (some gw))
can-total_example =
    can-total company ann "key:write" (some gw) key_write key_write_registered ann-Answers

revoke_all : Permission
revoke_all = record { key = "key:revoke_all"; scope = Scope.global; desc = "紧急吊销全系统密钥" }

revoke_all_registered : lookup "key:revoke_all" ≡ some revoke_all
unfolding lookup revoke_all
revoke_all_registered = refl

can_global_only_example :
    (gs : List Grant) × (company.grants_for_user "pia" ≡ ok gs)
    × Some
        (λ (g : Grant).
          (g.org_id ≡ none)
          × ((perms : List String) × (company.permissions_for_role g.role_id ≡ ok perms)
              × (contains perms "key:revoke_all" ≡ true)))
        gs
can_global_only_example =
    can_global_only company pia "key:revoke_all" none revoke_all revoke_all_registered
      (unfold revoke_all in refl) pia_revokes

ann_writes_rd : can company ann "key:write" (some rd) ≡ ok true
unfolding can effective_permissions wrap ancestors_of ancestor_chain chain_ids ancestor_ids split
    trim_left trim_right path_of path_of_org grants_of role_perms apply_grants apply_grant
    grant_applies has_id add_permissions apply_implicit_baseline baseline_at is_org_not_found
    contains lookup builtin_roles text_eq
ann_writes_rd = refl

can-below_example : can company ann "key:write" (some gw) ≡ ok true
unfolding path_of_org text_eq is_prefix
can-below_example =
    can-below company ann "key:write" rd gw (root ∷ rd ∷ []) (root ∷ rd ∷ gw ∷ []) root-rd-IsId
      root-rd-gw-IsId refl refl refl ann-Answers ann_writes_rd

abbrev developer_perms : List String
developer_perms = "key:request" ∷ "org:read" ∷ []

developer_role : company.permissions_for_role "developer" ≡ ok developer_perms
unfolding role_perms builtin_roles
developer_role = refl

ann_grants : can_grant company ann "developer" (some gw) ≡ ok true
unfolding can effective_permissions wrap ancestors_of ancestor_chain chain_ids ancestor_ids split
    trim_left trim_right path_of path_of_org grants_of role_perms apply_grants apply_grant
    grant_applies has_id add_permissions apply_implicit_baseline baseline_at is_org_not_found
    contains lookup builtin_roles text_eq can_grant holds_all
ann_grants = refl

can_grant-decides_example :
    (true ≡ true)
    ↔ ((developer_perms ≢ []) × All (λ p. Allowed company ann p (some gw)) developer_perms)
can_grant-decides_example =
    can_grant-decides company ann "developer" (some gw) developer_perms true developer_role
      ann_grants

in_subtree-path_of_example :
    in_subtree (path_of (root ∷ rd ∷ [])) (path_of (root ∷ rd ∷ gw ∷ []))
    ≡ is_prefix (root ∷ rd ∷ []) (root ∷ rd ∷ gw ∷ [])
in_subtree-path_of_example =
    in_subtree-path_of (root ∷ rd ∷ []) (root ∷ rd ∷ gw ∷ []) root-rd-IsId root-rd-gw-IsId

chain_ids-path_of_example : chain_ids (path_of (root ∷ rd ∷ gw ∷ [])) ≡ root ∷ rd ∷ gw ∷ []
chain_ids-path_of_example = chain_ids-path_of (root ∷ rd ∷ gw ∷ []) root-rd-gw-IsId
