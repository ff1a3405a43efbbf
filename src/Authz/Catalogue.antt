-- ===== src/Authz/Catalogue.antt =====
-- The permissions that exist, and what the platform administrator holds.
use softmatrix_airlock.Base.{
  String, ◌≡◌, refl, sym, ◌∙◌, Bool, ◌||◌, List, [], ◌∷◌, map, any, find, arith,
}
use softmatrix_airlock.Authz.Permission.{
  Permission, registry, is_some, is_known, insert, sort, all_permissions,
}
use softmatrix_airlock.Authz.Role.{all_permission_keys}
use softmatrix_airlock.Authz.Resolver.{contains}
use text.Mathlib.Text.{◌==◌}

has_key : String → List Permission → Bool
has_key p qs = any (λ q. q.key == p) qs

has_key-insert :
    (p : String) (q : Permission) (qs : List Permission)
    → has_key p (insert q qs) ≡ (q.key == p || has_key p qs)
unfolding has_key insert
has_key-insert p q [] = refl
has_key-insert p q (r ∷ qs) = ground (arith, has_key-insert p q qs)

has_key-sort : (p : String) (qs : List Permission) → has_key p (sort qs) ≡ has_key p qs
unfolding has_key sort
has_key-sort p [] = refl
has_key-sort p (q ∷ qs) =
    unfold has_key in ground (arith, has_key-insert p q (sort qs), has_key-sort p qs)

contains-keys :
    (p : String) (qs : List Permission) → contains (map (λ q. q.key) qs) p ≡ has_key p qs
unfolding contains has_key
contains-keys p [] = refl
contains-keys p (q ∷ qs) = ground (arith, contains-keys p qs)

is_some-find :
    (p : String) (qs : List Permission) → is_some (find (λ q. q.key == p) qs) ≡ has_key p qs
unfolding has_key
is_some-find p [] = refl
is_some-find p (q ∷ qs) = ground (arith, is_some-find p qs)

-- The platform administrator's role, which is filled from the sorted list, has a permission exactly
-- when the permission is registered.
pub platform_admin-is_known : (p : String) → contains all_permission_keys p ≡ is_known p
unfolding all_permission_keys is_known all_permissions
platform_admin-is_known p =
    contains-keys p (sort registry) ∙ has_key-sort p registry ∙ sym (is_some-find p registry)
