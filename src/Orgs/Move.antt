-- ===== src/Orgs/Move.antt =====
-- `Move` of internal/control/orgstore.go keeps the tree: the paths that it computes by text are those of
-- the new tree.
use softmatrix_airlock.Base.{
  ◌≡◌, refl, sym, ap, ◌∙◌, subst, inl, inr, Bool, true, false, Option, none, some, [], ◌∷◌, ◌++◌,
  map, ok, arith, Bool-cases, Option-cases, if◌then◌else◌,
}
use mathlib.Core.List.{append_assoc}
use softmatrix_airlock.Base.Text.{Text, ◌==◌ as text_eq, has_prefix, eq→path, has_prefix-append}
use softmatrix_airlock.Paths.{slash, in_subtree}
use softmatrix_airlock.Sql.{update_where, like, IsPlain}
use softmatrix_airlock.Sql.Like.{like-has_prefix}
use softmatrix_airlock.Sql.Rows.{update_where-map}
use softmatrix_airlock.Orgs.Model.{Org, Table}
use softmatrix_airlock.Orgs.Store.{has_org_id, find_org, get, target_path, rebase, reparent}
use softmatrix_airlock.Orgs.Texts.{drop-append}
use softmatrix_airlock.Orgs.Tree.{PlacedUnder, Placed, IsTree, find_org-id, find_org-map}

-- A path ends in the id of its row.
unfoldable pub EndsInId : Org → Type 0
EndsInId o = (front : Text) × (o.path ≡ front ++ slash ∷ o.id)

pub placed-EndsInId :
    (rows : Table) (parent : Option Text) (o : Org) → PlacedUnder rows parent o → EndsInId o
unfolding EndsInId
placed-EndsInId rows none o h = ([], h)
placed-EndsInId rows (some p) o (q, f, e) = (q.path, e)

-- What the two UPDATEs do to one row.
module _ (id : Text) (parent : Option Text) (old new : Text) where
  unfoldable pub below : Org → Bool
  below o = has_prefix o.path (old ++ slash ∷ [])

  unfoldable pub lifted : Org → Org
  lifted o = if below o then rebase old new o else o

  unfoldable pub moved : Org → Org
  moved o =
      if has_org_id id (lifted o)
      then record (lifted o) { parent_id = parent; path = new }
      else lifted o

  pub lifted-id : (o : Org) → ((lifted o).id ≡ o.id) × ((lifted o).parent_id ≡ o.parent_id)
  unfolding lifted rebase
  lifted-id o = ground arith

  pub moved-id : (o : Org) → (moved o).id ≡ o.id
  unfolding moved
  moved-id o = let z = lifted-id o in ground arith

  pub lifted-out : (o : Org) → below o ≡ false → lifted o ≡ o
  unfolding lifted
  lifted-out o f = rw f refl

  pub lifted-path :
      (o : Org) (rest : Text) → o.path ≡ old ++ slash ∷ rest → (lifted o).path ≡ new ++ slash ∷ rest
  unfolding lifted rebase below
  lifted-path o rest e =
      let t : has_prefix o.path (old ++ slash ∷ []) ≡ true =
        rw (e, sym (append_assoc old (slash ∷ []) rest))
          (has_prefix-append (old ++ slash ∷ []) rest) in
      rw t (rw e (ap (λ x. new ++ x) (drop-append old (slash ∷ rest))))

  -- The row itself, and another row.
  pub moved_self :
      (o : Org) → has_org_id id o ≡ true → ((moved o).parent_id ≡ parent) × ((moved o).path ≡ new)
  unfolding moved
  moved_self o t = let z = lifted-id o in ground arith

  pub moved_other : (o : Org) → has_org_id id o ≡ false → moved o ≡ lifted o
  unfolding moved
  moved_other o f = let z = lifted-id o in ground arith

  pub reparent-map : (rows : Table) → IsPlain old → reparent id parent old new rows ≡ map moved rows
  unfolding reparent moved lifted below
  reparent-map rows plain =
      update_where-map (has_org_id id) (λ o. record o { parent_id = parent; path = new })
        (update_where (λ o. like (old ++ slash ∷ 37 ∷ []) o.path) (rebase old new) rows).0
      ∙ rw (update_where-map (λ o. like (old ++ slash ∷ 37 ∷ []) o.path) (rebase old new) rows)
          (each rows)
    where
      each :
          (rs : Table)
          → map
              (λ o. if has_org_id id o then record o { parent_id = parent; path = new } else o)
              (map (λ o. if like (old ++ slash ∷ 37 ∷ []) o.path then rebase old new o else o) rs)
            ≡ map moved rs
      each [] = refl
      each (o ∷ rs) = let z = like-has_prefix old o.path plain in ground (arith, each rs)

-- What `Move` knows before it writes: the node, and the parent that it will have.
abbrev pub Goal : Table → Org → Option Text → Text → Type 0
Goal rows node none new = new ≡ slash ∷ node.id
Goal rows node (some p) new =
    (q : Org) × (find_org p rows ≡ some q)
    × (text_eq p node.id ≡ false)
    × (in_subtree node.path q.path ≡ false)
    × (new ≡ q.path ++ slash ∷ node.id)

pub target_path-Goal :
    (rows : Table) (node : Org) (parent : Option Text) (new : Text)
    → target_path node parent rows ≡ ok new
    → Goal rows node parent new
unfolding target_path get
target_path-Goal rows node none new h = ground arith
target_path-Goal rows node (some p) new h = elim (Bool-cases (text_eq p node.id)) [
  | inl t ↦ absurd (ground arith)
  | inr f ↦ elim (Option-cases (find_org p rows)) [
    | inl e ↦ absurd (ground arith)
    | inr (q, e) ↦ elim (Bool-cases (in_subtree node.path q.path)) [
      | inl t ↦ absurd (ground arith)
      | inr g ↦ (q, e, f, g, ground arith)
    ]
  ]
]

module _ (rows : Table) (tree : IsTree rows) (node : Org) (here : find_org node.id rows ≡ some node)
    (parent : Option Text) (new : Text) (goal : Goal rows node parent new) where
  unfoldable pub move_row : Org → Org
  move_row o = moved node.id parent node.path new o

  pub move_row-find :
      (p : Text) (q : Org)
      → find_org p rows ≡ some q
      → find_org p (map move_row rows) ≡ some (move_row q)
  unfolding move_row
  move_row-find p q e = find_org-map move_row (moved-id node.id parent node.path new) p rows q e

  pub not_below :
      (o : Org) → in_subtree node.path o.path ≡ false → below node.id parent node.path new o ≡ false
  unfolding below in_subtree
  not_below o h = ground arith

  -- The node at its new place.
  pub self-Placed :
      (o : Org) → has_org_id node.id o ≡ true → Placed (map move_row rows) (move_row o)
  unfolding move_row
  self-Placed o t =
      let (par, path) = moved_self node.id parent node.path new o t in
      let same : o.id ≡ node.id = eq→path o.id node.id t in
      let same_id = moved-id node.id parent node.path new o in
      subst (λ x. PlacedUnder (map move_row rows) x (move_row o)) (sym par)
        (at_goal parent goal (move_row o) (same_id ∙ same) path)
    where
      at_goal :
          (p : Option Text)
          → Goal rows node p new
          → (o' : Org) → o'.id ≡ node.id
          → o'.path ≡ new
          → PlacedUnder (map move_row rows) p o'
      at_goal none g o' i e = rw (e, i) g
      at_goal (some p) (q, f, other, outside, g) o' i e =
          let q_id = find_org-id p rows q f in
          let stays : move_row q ≡ q =
            moved_other node.id parent node.path new q (rw q_id other)
            ∙ lifted-out node.id parent node.path new q (not_below q outside) in
          (q, move_row-find p q f ∙ ap some stays, rw (e, i) g)
