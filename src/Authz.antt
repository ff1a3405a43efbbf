-- ===== src/Authz.antt =====
-- internal/authz: the permissions, the built-in roles and the resolver that decides whether a
-- subject holds a permission on a node. `Spec` says what a subject may do with no reference to the
-- loops of the resolver.
pub mod Permission
pub mod Role
pub mod Resolver
pub mod Spec
pub mod Catalogue
pub mod Decision
pub mod Delegation
mod Tests
