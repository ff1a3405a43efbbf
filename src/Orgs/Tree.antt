-- ===== src/Orgs/Tree.antt =====
-- What makes the rows of `organizations` a tree, and rows found by their id.
use softmatrix_airlock.Base.{
  ◌≡◌, refl, sym, ap, ◌∙◌, inl, inr, false, Option, none, some, [], ◌∷◌, ◌++◌, All, any, map, arith,
  Bool-cases,
}
use softmatrix_airlock.Base.Text.{Text, eq→path}
use softmatrix_airlock.Paths.{slash, IsId}
use softmatrix_airlock.Sql.{IsPlain}
use softmatrix_airlock.Orgs.Model.{Org, Table}
use softmatrix_airlock.Orgs.Store.{has_org_id, find_org}

-- An id as the program makes them (a uuid, or a word), with no wildcard of LIKE in it.
pub record IsOrgId (id : Text) : Type 0 where
  pub is_id : IsId id
  pub plain : IsPlain id

-- The path of a root is its id, and that of another node the path of its parent, which is there, with
-- the id behind it.
abbrev pub PlacedUnder : Table → Option Text → Org → Type 0
PlacedUnder rows none o = o.path ≡ slash ∷ o.id
PlacedUnder rows (some p) o =
    (q : Org) × (find_org p rows ≡ some q) × (o.path ≡ q.path ++ slash ∷ o.id)

abbrev pub Placed : Table → Org → Type 0
Placed rows o = PlacedUnder rows o.parent_id o

abbrev pub UniqueOrgs : Table → Type 0
UniqueOrgs [] = Unit
UniqueOrgs (o ∷ rows) = (any (has_org_id o.id) rows ≡ false) × UniqueOrgs rows

pub record IsTree (rows : Table) : Type 0 where
  pub unique : UniqueOrgs rows
  pub ids : All (λ o. IsOrgId o.id) rows
  pub plain : All (λ o. IsPlain o.path) rows
  pub placed : All (Placed rows) rows

pub find_org-id : (id : Text) (rows : Table) (o : Org) → find_org id rows ≡ some o → o.id ≡ id
find_org-id id [] o e = absurd (ground arith)
find_org-id id (r ∷ rows) o e = elim (Bool-cases (has_org_id id r)) [
  | inl t ↦ let q : r ≡ o = ground arith in ap (λ x. x.id) (sym q) ∙ eq→path r.id id t
  | inr f ↦ find_org-id id rows o (ground arith)
]

-- What all rows have, a row that is found has.
pub found-All :
    (P : Org → Type 0) (id : Text) (rows : Table) (o : Org)
    → find_org id rows ≡ some o
    → All P rows
    → P o
found-All P id [] o e h = absurd (ground arith)
found-All P id (r ∷ rows) o e h = elim (Bool-cases (has_org_id id r)) [
  | inl t ↦ let q : r ≡ o = ground arith in rw (← q) h.0
  | inr f ↦ found-All P id rows o (ground arith) h.1
]

pub map-All :
    (P Q : Org → Type 0) (f : Org → Org) (rows : Table)
    → ((o : Org) → P o → Q (f o))
    → All P rows
    → All Q (map f rows)
map-All P Q f [] k h = tt
map-All P Q f (o ∷ rows) k h = (k o h.0, map-All P Q f rows k h.1)

pub both-All :
    (P Q : Org → Type 0) (rows : Table) → All P rows → All Q rows → All (λ o. P o × Q o) rows
both-All P Q [] h k = tt
both-All P Q (o ∷ rows) h k = ((h.0, k.0), both-All P Q rows h.1 k.1)

-- A change that keeps the ids.
module _ (f : Org → Org) (same_id : (o : Org) → (f o).id ≡ o.id) where
  pub find_org-map :
      (id : Text) (rows : Table) (o : Org)
      → find_org id rows ≡ some o
      → find_org id (map f rows) ≡ some (f o)
  find_org-map id [] o e = absurd (ground arith)
  find_org-map id (r ∷ rows) o e = ground (arith, same_id r, find_org-map id rows o)

  pub any-map :
      (id : Text) (rows : Table) → any (has_org_id id) (map f rows) ≡ any (has_org_id id) rows
  any-map id [] = refl
  any-map id (r ∷ rows) = ground (arith, same_id r, any-map id rows)

  pub UniqueOrgs-map : (rows : Table) → UniqueOrgs rows → UniqueOrgs (map f rows)
  UniqueOrgs-map [] u = tt
  UniqueOrgs-map (o ∷ rows) u = (rw (same_id o, any-map o.id rows) u.0, UniqueOrgs-map rows u.1)
