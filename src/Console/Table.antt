-- ===== src/Console/Table.antt =====
-- The routes of `DefaultRoutes` in internal/control/routes.go; the handler of a route is found by its pattern.
use softmatrix_airlock.Base.{String, List, [], ◌∷◌}
use softmatrix_airlock.Authz.Permission.{
  perm_audit_read, perm_grant_read, perm_grant_write, perm_key_read, perm_key_request,
  perm_key_revoke_all, perm_key_write, perm_member_assign, perm_org_delete, perm_org_import,
  perm_org_write, perm_platform_configure,
}
use softmatrix_airlock.Console.Routes.{
  AccessMode, access_public, access_authenticated, access_permission, LicenseMode, license_always,
  license_requires_valid, TargetExtractor, target_from_path, target_from_body, target_global,
  no_target, Route,
}

abbrev route : String → AccessMode → String → TargetExtractor → LicenseMode → Route
route p a perm t l = record { pattern = p; access = a; permission = perm; target = t; license = l }

unfoldable pub default_routes : List Route
default_routes =
    route "GET /healthz" access_public "" no_target license_always
    ∷ route "GET /auth/login" access_public "" no_target license_always
    ∷ route "GET /auth/callback" access_public "" no_target license_always
    ∷ route "POST /auth/logout" access_public "" no_target license_always
    ∷ route "GET /api/whoami" access_authenticated "" no_target license_always
    ∷ route "GET /api/license" access_authenticated "" no_target license_always
    ∷ route "GET /api/orgs" access_authenticated "" no_target license_always
    ∷ route "POST /api/orgs" access_permission perm_org_write (target_from_body "parent_id")
        license_requires_valid
    ∷ route "PATCH /api/orgs/{id}/name" access_permission perm_org_write (target_from_path "id")
        license_requires_valid
    ∷ route "PATCH /api/orgs/{id}/parent" access_permission perm_org_write (target_from_path "id")
        license_requires_valid
    ∷ route "DELETE /api/orgs/{id}" access_permission perm_org_delete (target_from_path "id")
        license_requires_valid
    ∷ route "PUT /api/orgs/{id}/key-holder" access_permission perm_org_write (target_from_path "id")
        license_requires_valid
    ∷ route "GET /api/orgs/import/preview" access_permission perm_org_import target_global
        license_always
    ∷ route "POST /api/orgs/import/apply" access_permission perm_org_import target_global
        license_requires_valid
    ∷ route "GET /api/roles" access_authenticated "" no_target license_always
    ∷ route "GET /api/orgs/{id}/grants" access_permission perm_grant_read (target_from_path "id")
        license_always
    ∷ route "GET /api/orgs/{id}/effective-grants" access_permission perm_grant_read
        (target_from_path "id") license_always
    ∷ route "POST /api/grants" access_permission perm_grant_write (target_from_body "org_id")
        license_requires_valid
    ∷ route "DELETE /api/grants/{id}" access_authenticated "" no_target license_requires_valid
    ∷ route "GET /api/users" access_authenticated "" no_target license_always
    ∷ route "PUT /api/users/{id}/primary-org" access_permission perm_member_assign
        (target_from_body "org_id") license_requires_valid
    ∷ route "GET /api/litellm/sync/status" access_permission perm_platform_configure target_global
        license_always
    ∷ route "POST /api/litellm/sync" access_permission perm_platform_configure target_global
        license_requires_valid
    ∷ route "POST /api/keys" access_permission perm_key_write (target_from_body "org_id")
        license_requires_valid
    ∷ route "GET /api/orgs/{id}/keys" access_permission perm_key_read (target_from_path "id")
        license_always
    ∷ route "DELETE /api/keys/{id}" access_authenticated "" no_target license_always
    ∷ route "GET /api/keys/mine" access_authenticated "" no_target license_always
    ∷ route "POST /api/requests" access_permission perm_key_request (target_from_body "org_id")
        license_requires_valid
    ∷ route "GET /api/requests" access_authenticated "" no_target license_always
    ∷ route "GET /api/requests/to-approve" access_authenticated "" no_target license_always
    ∷ route "POST /api/requests/{id}/approve" access_authenticated "" no_target
        license_requires_valid
    ∷ route "POST /api/requests/{id}/reject" access_authenticated "" no_target
        license_requires_valid
    ∷ route "POST /api/requests/{id}/claim" access_authenticated "" no_target license_requires_valid
    ∷ route "POST /api/keys/{id}/rotate" access_authenticated "" no_target license_requires_valid
    ∷ route "POST /api/orgs/{id}/keys/revoke" access_permission perm_key_write
        (target_from_path "id") license_always
    ∷ route "POST /api/keys/revoke-all" access_permission perm_key_revoke_all target_global
        license_always
    ∷ route "GET /api/usage/summary" access_authenticated "" no_target license_always
    ∷ route "GET /api/audit/records" access_permission perm_audit_read target_global license_always
    ∷ route "/api/" access_authenticated "" no_target license_always
    ∷ route "/" access_public "" no_target license_always
    ∷ []
