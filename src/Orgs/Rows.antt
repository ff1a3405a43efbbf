-- ===== src/Orgs/Rows.antt =====
-- Rows of `organizations` that come and go: a row that is appended, rows that are kept, and rows whose
-- name or flag changes.
use softmatrix_airlock.Base.{
  ◌≡◌, refl, sym, ap, ◌∙◌, subst, inl, inr, Bool, true, false, ◌||◌, not, Option, none, some, [],
  ◌∷◌, ◌++◌, All, any, keep, map, length, arith, ltb, Bool-cases,
}
use softmatrix_airlock.Base.Text.{Text, ◌==◌ as text_eq, eq→path, eq_refl}
use softmatrix_airlock.Paths.{slash}
use softmatrix_airlock.Sql.{IsPlain}
use softmatrix_airlock.Orgs.Model.{Org, Table}
use softmatrix_airlock.Orgs.Store.{has_org_id, find_org, is_child_of}
use softmatrix_airlock.Orgs.Tree.{
  IsOrgId, PlacedUnder, Placed, UniqueOrgs, IsTree, map-All, both-All, find_org-map, UniqueOrgs-map,
}

weaken-All : (P Q : Org → Type 0) (rows : Table) → ((o : Org) → P o → Q o) → All P rows → All Q rows
weaken-All P Q [] k h = tt
weaken-All P Q (o ∷ rows) k h = (k o h.0, weaken-All P Q rows k h.1)

append-All : (P : Org → Type 0) (rows : Table) (o : Org) → All P rows → P o → All P (rows ++ o ∷ [])
append-All P [] o h p = (p, tt)
append-All P (r ∷ rows) o h p = (h.0, append-All P rows o h.1 p)

keep-All :
    (P : Org → Type 0) (test : Org → Bool) (rows : Table)
    → All P rows
    → All (λ o. P o × (test o ≡ true)) (keep test rows)
keep-All P test [] h = tt
keep-All P test (r ∷ rows) h = elim (Bool-cases (test r)) [
  | inl t ↦ rw t ((h.0, t), keep-All P test rows h.1)
  | inr f ↦ rw f (keep-All P test rows h.1)
]

find_org-append :
    (id : Text) (rows : Table) (o q : Org)
    → find_org id rows ≡ some q
    → find_org id (rows ++ o ∷ []) ≡ some q
find_org-append id [] o q e = absurd (ground arith)
find_org-append id (r ∷ rows) o q e = ground (arith, find_org-append id rows o q)

pub any-append :
    (id : Text) (rows : Table) (o : Org)
    → any (has_org_id id) (rows ++ o ∷ []) ≡ (any (has_org_id id) rows || has_org_id id o)
any-append id [] o = ground arith
any-append id (r ∷ rows) o = ground (arith, any-append id rows o)

has_org_id_sym : (a b : Org) → has_org_id a.id b ≡ false → has_org_id b.id a ≡ false
has_org_id_sym a b f = elim (Bool-cases (has_org_id b.id a)) [
  | inr g ↦ g
  | inl t ↦
      let same = eq→path a.id b.id t in
      let z : has_org_id a.id b ≡ true = rw same (eq_refl b.id) in absurd (ground arith)
]

UniqueOrgs-append :
    (rows : Table) (o : Org)
    → UniqueOrgs rows
    → any (has_org_id o.id) rows ≡ false
    → UniqueOrgs (rows ++ o ∷ [])
UniqueOrgs-append [] o u h = (refl, tt)
UniqueOrgs-append (r ∷ rows) o u h =
    let z = has_org_id_sym o r (ground arith) in
    let both = any-append r.id rows o in
    let here = u.0 in (ground arith, UniqueOrgs-append rows o u.1 (ground arith))

PlacedUnder-append :
    (rows : Table) (o r : Org) (p : Option Text)
    → PlacedUnder rows p r
    → PlacedUnder (rows ++ o ∷ []) p r
PlacedUnder-append rows o r none h = h
PlacedUnder-append rows o r (some p) (q, f, e) = (q, find_org-append p rows o q f, e)

pub append-IsTree :
    (rows : Table) (o : Org)
    → IsTree rows
    → IsOrgId o.id
    → IsPlain o.path
    → any (has_org_id o.id) rows ≡ false
    → Placed rows o
    → IsTree (rows ++ o ∷ [])
append-IsTree rows o tree id plain fresh placed = record {
  unique = UniqueOrgs-append rows o tree.unique fresh;
  ids = append-All (λ r. IsOrgId r.id) rows o tree.ids id;
  plain = append-All (λ r. IsPlain r.path) rows o tree.plain plain;
  placed =
      append-All (Placed (rows ++ o ∷ [])) rows o
        (weaken-All (Placed rows) (Placed (rows ++ o ∷ [])) rows
          (λ r h. PlacedUnder-append rows o r r.parent_id h) tree.placed)
        (PlacedUnder-append rows o o o.parent_id placed);
}

-- A change of the other columns.
pub same-IsTree :
    (f : Org → Org) (rows : Table)
    → ((o : Org) → ((f o).id ≡ o.id) × ((f o).parent_id ≡ o.parent_id) × ((f o).path ≡ o.path))
    → IsTree rows
    → IsTree (map f rows)
same-IsTree f rows same tree = record {
  unique = UniqueOrgs-map f (λ o. (same o).0) rows tree.unique;
  ids =
      map-All (λ o. IsOrgId o.id) (λ o. IsOrgId o.id) f rows
        (λ o h. subst IsOrgId (sym (same o).0) h) tree.ids;
  plain =
      map-All (λ o. IsPlain o.path) (λ o. IsPlain o.path) f rows
        (λ o h. subst IsPlain (sym (same o).2) h) tree.plain;
  placed =
      map-All (Placed rows) (Placed (map f rows)) f rows
        (λ o h. subst (λ p. PlacedUnder (map f rows) p (f o)) (sym (same o).1) (at o o.parent_id h))
        tree.placed;
}
  where
    at : (o : Org) (p : Option Text) → PlacedUnder rows p o → PlacedUnder (map f rows) p (f o)
    at o none e = (same o).2 ∙ e ∙ ap (λ x. slash ∷ x) (sym (same o).0)
    at o (some p) (q, found, e) = (
      f q,
      find_org-map f (λ r. (same r).0) p rows q found,
      (same o).2 ∙ e ∙ (λ i. sym (same q).2 i ++ slash ∷ sym (same o).0 i),
    )

-- A node without children goes.
find_org-keep :
    (id p : Text) (rows : Table) (q : Org)
    → text_eq p id ≡ false
    → find_org p rows ≡ some q
    → find_org p (keep (λ o. not (has_org_id id o)) rows) ≡ some q
find_org-keep id p [] q f e = absurd (ground arith)
find_org-keep id p (r ∷ rows) q f e = elim (Bool-cases (has_org_id p r)) [
  | inl t ↦
      let same = eq→path r.id p t in let z : has_org_id id r ≡ false = rw same f in ground arith
  | inr g ↦ let ih = find_org-keep id p rows q f (ground arith) in ground arith
]

any-keep :
    (id : Text) (test : Org → Bool) (rows : Table)
    → any (has_org_id id) rows ≡ false
    → any (has_org_id id) (keep test rows) ≡ false
any-keep id test [] h = refl
any-keep id test (r ∷ rows) h = ground (arith, any-keep id test rows)

UniqueOrgs-keep : (test : Org → Bool) (rows : Table) → UniqueOrgs rows → UniqueOrgs (keep test rows)
UniqueOrgs-keep test [] u = tt
UniqueOrgs-keep test (r ∷ rows) u = elim (Bool-cases (test r)) [
  | inl t ↦ rw t (any-keep r.id test rows u.0, UniqueOrgs-keep test rows u.1)
  | inr f ↦ rw f (UniqueOrgs-keep test rows u.1)
]

-- No row names the node as its parent.
abbrev IsChildless : Text → Table → Type 0
IsChildless id rows = All (λ o. is_child_of (some id) o ≡ false) rows

pub counted_none :
    (id : Text) (rows : Table)
    → ltb 0 (length (keep (is_child_of (some id)) rows)) ≡ false
    → IsChildless id rows
counted_none id [] h = tt
counted_none id (r ∷ rows) h = elim (Bool-cases (is_child_of (some id) r)) [
  | inl t ↦ absurd (ground arith)
  | inr f ↦ (f, counted_none id rows (ground arith))
]

PlacedUnder-keep :
    (id : Text) (rows : Table) (o : Org) (p : Option Text)
    → o.parent_id ≡ p
    → is_child_of (some id) o ≡ false
    → PlacedUnder rows p o
    → PlacedUnder (keep (λ r. not (has_org_id id r)) rows) p o
PlacedUnder-keep id rows o none e f h = h
PlacedUnder-keep id rows o (some p) e f (q, found, at) =
    (q, find_org-keep id p rows q (ground arith) found, at)

pub keep-IsTree :
    (id : Text) (rows : Table)
    → IsTree rows
    → IsChildless id rows
    → IsTree (keep (λ r. not (has_org_id id r)) rows)
keep-IsTree id rows tree childless = record {
  unique = UniqueOrgs-keep rest rows tree.unique;
  ids =
      weaken (λ o. IsOrgId o.id) (λ o. IsOrgId o.id) (λ o h. h.0)
        (keep-All (λ o. IsOrgId o.id) rest rows tree.ids);
  plain =
      weaken (λ o. IsPlain o.path) (λ o. IsPlain o.path) (λ o h. h.0)
        (keep-All (λ o. IsPlain o.path) rest rows tree.plain);
  placed =
      weaken (λ o. (is_child_of (some id) o ≡ false) × Placed rows o) (Placed (keep rest rows))
        (λ o h. PlacedUnder-keep id rows o o.parent_id refl h.0.0 h.0.1)
        (keep-All (λ o. (is_child_of (some id) o ≡ false) × Placed rows o) rest rows
          (both-All (λ o. is_child_of (some id) o ≡ false) (Placed rows) rows childless
            tree.placed));
}
  where
    rest : Org → Bool
    rest r = not (has_org_id id r)

    weaken :
        (P Q : Org → Type 0)
        → ((o : Org) → P o × (rest o ≡ true) → Q o)
        → All (λ o. P o × (rest o ≡ true)) (keep rest rows)
        → All Q (keep rest rows)
    weaken P Q k h = weaken-All (λ o. P o × (rest o ≡ true)) Q (keep rest rows) k h
