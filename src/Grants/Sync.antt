-- ===== src/Grants/Sync.antt =====
-- `SyncBuiltinRoles` of internal/control/grantstore.go: afterwards the rows are the code's catalogue.
use softmatrix_airlock.Base.{
  ◌≡◌, refl, sym, ap, ◌∙◌, inl, inr, String, Bool, true, false, ◌&&◌, ◌||◌, not, List, [], ◌∷◌,
  ◌++◌, All, any, keep, ok, arith, Bool-cases,
}
use mathlib.Core.List.{append_assoc, append-nil}
use softmatrix_airlock.Authz.Role.{builtin_roles, all_permission_keys}
use softmatrix_airlock.Authz.Permission.{all_permissions, sort, insert, registry, str_lt}
use softmatrix_airlock.Authz.Role as Authz
use softmatrix_airlock.Grants.Model.{RolePermission, Tables}
use softmatrix_airlock.Grants.Store.{
  upsert_role, insert_permissions, sync_role, sync_roles, sync_builtin_roles, permissions_of,
}
use text.Mathlib.Text.{◌==◌}
use text.Mathlib.TextEquality.{eq_iff}

abbrev holds : List String → String → Bool
holds ps p = any (λ q. q == p) ps

abbrev is_distinct : List String → Bool
is_distinct [] = true
is_distinct (p ∷ ps) = not (holds ps p) && is_distinct ps

holds-append : (ps : List String) (q p : String) → holds (ps ++ q ∷ []) p ≡ (holds ps p || q == p)
holds-append [] q p = ground arith
holds-append (r ∷ ps) q p = ground (arith, holds-append ps q p)

swap : (a b : String) → (a == b) ≡ (b == a)
swap a b = ground (arith, eq_iff a b, eq_iff b a)

-- The primary key of `role_permissions`, for a row of the role.
taken :
    (role p : String) (rows : List RolePermission)
    → any (λ r. r.role_id == role && r.permission == p) rows ≡ holds (permissions_of role rows) p
taken role p [] = refl
taken role p (r ∷ rows) = ground (arith, taken role p rows)

permissions_of-same :
    (role p : String) (rows : List RolePermission)
    → permissions_of role (rows ++ record { role_id = role; permission = p } ∷ [])
      ≡ permissions_of role rows ++ p ∷ []
permissions_of-same role p [] = let z = (eq_iff role role).1 refl in ground arith
permissions_of-same role p (r ∷ rows) = ground (arith, permissions_of-same role p rows)

permissions_of-other :
    (role q p : String) (rows : List RolePermission)
    → (role == q) ≡ false
    → permissions_of q (rows ++ record { role_id = role; permission = p } ∷ [])
      ≡ permissions_of q rows
permissions_of-other role q p [] f = ground arith
permissions_of-other role q p (r ∷ rows) f = ground (arith, permissions_of-other role q p rows f)

cleared :
    (role : String) (rows : List RolePermission)
    → permissions_of role (keep (λ x. not (x.role_id == role)) rows) ≡ []
cleared role [] = refl
cleared role (r ∷ rows) = ground (arith, cleared role rows)

others_left :
    (role q : String) (rows : List RolePermission)
    → (role == q) ≡ false
    → permissions_of q (keep (λ x. not (x.role_id == role)) rows) ≡ permissions_of q rows
others_left role q [] f = refl
others_left role q (r ∷ rows) f = elim (Bool-cases (r.role_id == role)) [
  | inr g ↦ let ih = others_left role q rows f in ground arith
  | inl t ↦
      let e : r.role_id ≡ role = (eq_iff r.role_id role).0 t in
      let g : (r.role_id == q) ≡ false = rw e f in
      let ih = others_left role q rows f in ground arith
]

-- The inserts of one role's permissions succeed, and those of the other roles stay.
record Inserted (role : String) (ps : List String) (rows : List RolePermission) : Type 0 where
  rows' : List RolePermission
  done : insert_permissions role ps rows ≡ ok rows'
  own : permissions_of role rows' ≡ permissions_of role rows ++ ps
  other : (q : String) → (role == q) ≡ false → permissions_of q rows' ≡ permissions_of q rows

inserts :
    (role : String) (ps : List String) (rows : List RolePermission)
    → is_distinct ps ≡ true
    → any (λ p. holds (permissions_of role rows) p) ps ≡ false
    → Inserted role ps rows
unfolding insert_permissions
inserts role [] rows d f = record {
  rows' = rows;
  done = refl;
  own = sym (append-nil (permissions_of role rows));
  other = λ q k. refl;
}
inserts role (p ∷ ps) rows d f =
    let grown = rows ++ record { role_id = role; permission = p } ∷ [] in
    let more = permissions_of-same role p rows in
    let ih = inserts role ps grown (ground arith) (still ps (ground arith) (ground arith)) in
    record {
      rows' = ih.rows';
      done = let z = taken role p rows in let y = ih.done in ground arith;
      own = ih.own ∙ ap (λ x. x ++ ps) more ∙ append_assoc (permissions_of role rows) (p ∷ []) ps;
      other = λ q k. ih.other q k ∙ permissions_of-other role q p rows k;
    }
  where
    still :
        (qs : List String)
        → any (λ q. holds (permissions_of role rows) q) qs ≡ false
        → holds qs p ≡ false
        → any
            (λ q.
              holds
                (permissions_of role (rows ++ record { role_id = role; permission = p } ∷ []))
                q)
            qs
          ≡ false
    still [] h k = refl
    still (q ∷ qs) h k =
        let head : holds
              (permissions_of role (rows ++ record { role_id = role; permission = p } ∷ [])) q
            ≡ false =
          ap (λ x. holds x q) (permissions_of-same role p rows)
          ∙ holds-append (permissions_of role rows) p q
          ∙ (let s = swap p q in ground arith) in
        let ih = still qs (ground arith) (ground arith) in ground arith

-- One role: its permissions are those of the code, and those of the others stay.
record Synced (r : Authz.Role) (t : Tables) : Type 0 where
  after : Tables
  done : sync_role r t ≡ ok after
  own : permissions_of r.id after.role_permissions ≡ r.permissions
  other :
      (q : String)
      → (r.id == q) ≡ false
      → permissions_of q after.role_permissions ≡ permissions_of q t.role_permissions
  grants : after.role_grants ≡ t.role_grants

none_held : (ps : List String) → any (λ p. holds [] p) ps ≡ false
none_held [] = refl
none_held (p ∷ ps) = none_held ps

syncs : (r : Authz.Role) (t : Tables) → is_distinct r.permissions ≡ true → Synced r t
unfolding sync_role
syncs r t d =
    let rest = keep (λ x. not (x.role_id == r.id)) t.role_permissions in
    let empty = cleared r.id t.role_permissions in
    let i =
      inserts r.id r.permissions rest d
        (ap (λ x. any (λ p. holds x p) r.permissions) empty ∙ none_held r.permissions) in
    record {
      after = record t { roles = upsert_role r t.roles; role_permissions = i.rows' };
      done = rw (i.done) refl;
      own = i.own ∙ ap (λ x. x ++ r.permissions) empty;
      other = λ q f. i.other q f ∙ others_left r.id q t.role_permissions f;
      grants = refl;
    }

abbrev are_distinct : List Authz.Role → Bool
are_distinct [] = true
are_distinct (r ∷ rs) =
    not (any (λ s. s.id == r.id) rs) && (is_distinct r.permissions && are_distinct rs)

record AllSynced (rs : List Authz.Role) (t : Tables) : Type 0 where
  after : Tables
  done : sync_roles rs t ≡ ok after
  own : All (λ r. permissions_of r.id after.role_permissions ≡ r.permissions) rs
  other :
      (q : String)
      → any (λ r. r.id == q) rs ≡ false
      → permissions_of q after.role_permissions ≡ permissions_of q t.role_permissions
  grants : after.role_grants ≡ t.role_grants

all_sync : (rs : List Authz.Role) (t : Tables) → are_distinct rs ≡ true → AllSynced rs t
unfolding sync_roles
all_sync [] t d = record { after = t; done = refl; own = tt; other = λ q f. refl; grants = refl }
all_sync (r ∷ rs) t d =
    let one = syncs r t (ground arith) in
    let rest = all_sync rs one.after (ground arith) in
    record {
      after = rest.after;
      done = rw one.done rest.done;
      own = (rest.other r.id (ground arith) ∙ one.own, rest.own);
      other = λ q f. rest.other q (ground arith) ∙ one.other q (ground arith);
      grants = rest.grants ∙ one.grants;
    }

distinct_catalogue : are_distinct builtin_roles ≡ true
unfolding builtin_roles all_permission_keys all_permissions sort insert registry str_lt
distinct_catalogue = refl

-- The start-up sync succeeds on every table, whatever was left in it. Afterwards the permissions of each
-- built-in role are those of the code's catalogue and no others, the permissions of every other role are
-- what they were, and so are the grants.
pub sync_builtin_roles-catalogue :
    (t : Tables)
    → (t' : Tables) × (sync_builtin_roles t ≡ ok t')
      × All (λ r. permissions_of r.id t'.role_permissions ≡ r.permissions) builtin_roles
      × ((q : String)
          → any (λ r. r.id == q) builtin_roles ≡ false
          → permissions_of q t'.role_permissions ≡ permissions_of q t.role_permissions)
      × (t'.role_grants ≡ t.role_grants)
unfolding sync_builtin_roles
sync_builtin_roles-catalogue t =
    let all = all_sync builtin_roles t distinct_catalogue in
    (all.after, all.done, all.own, all.other, all.grants)
