-- ===== src/Orgs/Chain.antt =====
-- The materialised path of internal/control/orgstore.go against the tree that the pointers to the
-- parents make: what `ancestorIDs` of internal/authz/resolver.go reads off it.
use softmatrix_airlock.Base.{
  ℕ, zero, suc, ◌+◌, ◌≤◌, ◌<◌, ◌≡◌, refl, sym, ap, ◌∙◌, subst, Option, none, some, List, [], ◌∷◌,
  ◌++◌, All, length, length-append, arith,
}
use mathlib.Core.List.{append_assoc, append-nil}
use softmatrix_airlock.Base.Text.{Text}
use softmatrix_airlock.Paths.{slash, IsId, path_of, ancestor_ids}
use softmatrix_airlock.Paths.Segments.{ancestor_ids-path_of}
use softmatrix_airlock.Orgs.Model.{Org, Table}
use softmatrix_airlock.Orgs.Store.{find_org}
use softmatrix_airlock.Orgs.Tree.{IsOrgId, PlacedUnder, Placed, IsTree, found-All}

-- The ids from the root to a node, along the pointers to the parents. A chain is finite.
pub data Chain (rows : Table) : Org → List Text → Type 0 where
  root : (o : Org) → o.parent_id ≡ none → Chain rows o (o.id ∷ [])
  child :
      (o q : Org) (p : Text) (ids : List Text)
      → o.parent_id ≡ some p
      → find_org p rows ≡ some q
      → Chain rows q ids
      → Chain rows o (ids ++ o.id ∷ [])

path_of-append :
    (ids : List Text) (id : Text) → path_of (ids ++ id ∷ []) ≡ path_of ids ++ slash ∷ id
unfolding path_of
path_of-append [] id = ap (λ x. slash ∷ x) (append-nil id)
path_of-append (i ∷ ids) id =
    ap (λ x. slash ∷ x)
      (ap (λ x. i ++ x) (path_of-append ids id) ∙ sym (append_assoc i (path_of ids) (slash ∷ id)))

All-append : (ids : List Text) (id : Text) → All IsId ids → IsId id → All IsId (ids ++ id ∷ [])
All-append [] id h k = (k, tt)
All-append (i ∷ ids) id h k = (h.0, All-append ids id h.1 k)

record Told (rows : Table) (o : Org) : Type 0 where
  ids : List Text
  chain : Chain rows o ids
  each : All IsId ids
  spells : path_of ids ≡ o.path

module _ (rows : Table) (tree : IsTree rows) where
  told_at :
      (o : Org) (p : Option Text)
      → ((q : Org) (r : Text)
          → length q.path < length o.path
          → find_org r rows ≡ some q
          → Told rows q)
      → IsId o.id
      → o.parent_id ≡ p
      → PlacedUnder rows p o
      → Told rows o
  unfolding path_of
  told_at o none up k e at = record {
    ids = o.id ∷ [];
    chain = Chain.root o e;
    each = (k, tt);
    spells = ap (λ x. slash ∷ x) (append-nil o.id) ∙ sym at;
  }
  told_at o (some p) up k e (q, found, at) =
      let longer : length o.path ≡ length q.path + length (slash ∷ o.id) =
        ap length at ∙ length-append q.path (slash ∷ o.id) in
      let above = up q p (ground arith) found in
      record {
        ids = above.ids ++ o.id ∷ [];
        chain = Chain.child o q p above.ids e found above.chain;
        each = All-append above.ids o.id above.each k;
        spells = path_of-append above.ids o.id ∙ ap (λ x. x ++ slash ∷ o.id) above.spells ∙ sym at;
      }

  told_row :
      (id : Text) (o : Org)
      → find_org id rows ≡ some o
      → ((q : Org) (r : Text)
          → length q.path < length o.path
          → find_org r rows ≡ some q
          → Told rows q)
      → Told rows o
  told_row id o found up =
      told_at o o.parent_id up (found-All (λ r. IsOrgId r.id) id rows o found tree.ids).is_id refl
        (found-All (Placed rows) id rows o found tree.placed)

  -- A path is longer than that of the parent, so its length bounds the way up.
  told : (n : ℕ) (id : Text) (o : Org) → length o.path ≤ n → find_org id rows ≡ some o → Told rows o
  told zero id o h found = told_row id o found (λ q r l f. absurd (ground arith))
  told (suc n) id o h found = told_row id o found (λ q r l f. told n r q (ground arith) f)

-- The rows that the statements keep implement the tree that the pointers make: where the rows are a
-- tree, the pointers of every node lead up to a root in finitely many steps, and the ids that the
-- resolver cuts out of the node's path are those of the nodes on the way, the root first.
pub ancestor_ids-Chain :
    (rows : Table) (id : Text) (o : Org)
    → IsTree rows
    → find_org id rows ≡ some o
    → Chain rows o (ancestor_ids o.path)
ancestor_ids-Chain rows id o tree found =
    let t = told rows tree (length o.path) id o (ground arith) found in
    subst (Chain rows o) (sym (ancestor_ids-path_of t.ids t.each) ∙ ap ancestor_ids t.spells)
      t.chain
