-- ===== src/Orgs/Moving.antt =====
-- A row that `Move` does not name: it goes where its parent goes, or stays where its parent stays.
use softmatrix_airlock.Base.{
  ◌≡◌, refl, sym, ap, ◌∙◌, subst, inl, inr, true, false, Option, none, some, [], ◌∷◌, ◌++◌, map,
  length, arith, Bool-cases,
}
use mathlib.Core.List.{append_assoc}
use softmatrix_airlock.Base.Text.{Text, has_prefix, eq→path, eq_refl, has_prefix→append}
use softmatrix_airlock.Paths.{slash, slash_free}
use softmatrix_airlock.Sql.{IsPlain}
use softmatrix_airlock.Orgs.Model.{Org, Table}
use softmatrix_airlock.Orgs.Store.{has_org_id, find_org, drop, rebase}
use softmatrix_airlock.Orgs.Texts.{
  has_prefix-slash_free, has_prefix-parent, last_id, IsPlain-append, IsPlain-drop,
}
use softmatrix_airlock.Orgs.Tree.{
  IsOrgId, PlacedUnder, Placed, IsTree, find_org-id, found-All, map-All, both-All, UniqueOrgs-map,
}
use softmatrix_airlock.Orgs.Move.{
  EndsInId, placed-EndsInId, below, lifted, moved, lifted-id, moved-id, lifted-out, lifted-path,
  moved_self, moved_other, Goal, move_row, move_row-find, self-Placed,
}

-- A root is below nothing that has a path.
root_not_below :
    (id front nid : Text)
    → slash_free id ≡ true
    → has_prefix (slash ∷ id) ((front ++ slash ∷ nid) ++ slash ∷ []) ≡ false
unfolding has_prefix
root_not_below id [] nid h = has_prefix-slash_free id nid h
root_not_below id (c ∷ front) nid h =
    let z = has_prefix-slash_free id (front ++ slash ∷ nid) h in ground arith

module _ (rows : Table) (tree : IsTree rows) (node : Org) (here : find_org node.id rows ≡ some node)
    (parent : Option Text) (new : Text) (goal : Goal rows node parent new) where
  abbrev pub step : Org → Org
  step o = move_row rows tree node here parent new goal o

  found-EndsInId : (p : Text) (q : Org) → find_org p rows ≡ some q → EndsInId q
  found-EndsInId p q f =
      placed-EndsInId rows q.parent_id q (found-All (Placed rows) p rows q f tree.placed)

  found-slash_free : (p : Text) (q : Org) → find_org p rows ≡ some q → slash_free q.id ≡ true
  found-slash_free p q f = (found-All (λ o. IsOrgId o.id) p rows q f tree.ids).is_id.no_slash

  step-lifted :
      (o : Org) → has_org_id node.id o ≡ false → step o ≡ lifted node.id parent node.path new o
  unfolding move_row
  step-lifted o f = moved_other node.id parent node.path new o f

  step-id : (o : Org) → (step o).id ≡ o.id
  unfolding move_row
  step-id o = moved-id node.id parent node.path new o

  -- Under a parent that goes with the node, the child goes too.
  under_moved :
      (o q : Org) (rest : Text)
      → has_org_id node.id o ≡ false
      → o.path ≡ q.path ++ slash ∷ o.id
      → q.path ≡ node.path ++ slash ∷ rest
      → (step o).path ≡ (new ++ slash ∷ rest) ++ slash ∷ (step o).id
  under_moved o q rest f e below_q =
      let whole : o.path ≡ node.path ++ slash ∷ (rest ++ slash ∷ o.id) =
        e
        ∙ ap (λ x. x ++ slash ∷ o.id) below_q
        ∙ append_assoc node.path (slash ∷ rest) (slash ∷ o.id) in
      ap (λ x. x.path) (step-lifted o f)
      ∙ lifted-path node.id parent node.path new o (rest ++ slash ∷ o.id) whole
      ∙ sym (append_assoc new (slash ∷ rest) (slash ∷ o.id))
      ∙ ap (λ x. (new ++ slash ∷ rest) ++ slash ∷ x) (sym (step-id o))

  -- Under the node itself.
  under_node :
      (o q : Org)
      → has_org_id node.id o ≡ false
      → o.path ≡ q.path ++ slash ∷ o.id
      → q ≡ node
      → (step o).path ≡ new ++ slash ∷ (step o).id
  under_node o q f e same =
      ap (λ x. x.path) (step-lifted o f)
      ∙ lifted-path node.id parent node.path new o o.id (rw (← same) e)
      ∙ ap (λ x. new ++ slash ∷ x) (sym (step-id o))

  -- Where the parent stays, the child stays.
  stays_out :
      (o q : Org) (p : Text)
      → find_org p rows ≡ some q
      → has_org_id node.id q ≡ false
      → slash_free o.id ≡ true
      → o.path ≡ q.path ++ slash ∷ o.id
      → below node.id parent node.path new q ≡ false
      → below node.id parent node.path new o ≡ false
  unfolding below EndsInId move_row
  stays_out o q p found f free e out =
      elim (Bool-cases (has_prefix o.path (node.path ++ slash ∷ []))) [
        | inr g ↦ g
        | inl t ↦
            let t' : has_prefix (q.path ++ slash ∷ o.id) (node.path ++ slash ∷ []) ≡ true =
              rw (← e) t in
            elim (has_prefix-parent q.path o.id node.path free t') [
              | inr b ↦ absurd (ground arith)
              | inl same ↦
                  absurd (clash (found-EndsInId p q found) (found-EndsInId node.id node here) same)
            ]
      ]
    where
      clash : EndsInId q → EndsInId node → q.path ≡ node.path → ⊥
      clash (a, ea) (b, eb) same =
          let ids : q.id ≡ node.id =
            last_id a b q.id node.id (found-slash_free p q found)
              (found-slash_free node.id node here) (sym ea ∙ same ∙ eb) in
          let z : has_org_id node.id q ≡ true = rw ids (eq_refl node.id) in ground arith

  other-PlacedUnder :
      (o : Org) (p : Option Text)
      → has_org_id node.id o ≡ false
      → slash_free o.id ≡ true
      → PlacedUnder rows p o
      → PlacedUnder (map step rows) p (step o)
  unfolding below EndsInId move_row
  other-PlacedUnder o none f free e = root (found-EndsInId node.id node here)
    where
      root : EndsInId node → (step o).path ≡ slash ∷ (step o).id
      root (front, at) =
          let out : below node.id parent node.path new o ≡ false =
            rw (e, at) (root_not_below o.id front node.id free) in
          ap (λ x. x.path) (step-lifted o f ∙ lifted-out node.id parent node.path new o out)
          ∙ e
          ∙ ap (λ x. slash ∷ x) (sym (step-id o))
  other-PlacedUnder o (some p) f free (q, found, e) =
      let moves = move_row-find rows tree node here parent new goal p q found in
      elim (Bool-cases (has_org_id node.id q)) [
        | inl t ↦
            let ids : p ≡ node.id = sym (find_org-id p rows q found) ∙ eq→path q.id node.id t in
            let at_node : find_org node.id rows ≡ some q =
              subst (λ x. find_org x rows ≡ some q) ids found in
            let same : q ≡ node = ground arith in
            let (par, path) = moved_self node.id parent node.path new q t in
            (step q, moves, rw path (under_node o q f e same))
        | inr g ↦ elim (Bool-cases (below node.id parent node.path new q)) [
          | inl b ↦
              let (rest, at) = has_prefix→append q.path (node.path ++ slash ∷ []) b in
              let at' : q.path ≡ node.path ++ slash ∷ rest =
                at ∙ append_assoc node.path (slash ∷ []) rest in
              let path : (step q).path ≡ new ++ slash ∷ rest =
                ap (λ x. x.path) (step-lifted q g)
                ∙ lifted-path node.id parent node.path new q rest at' in
              (
                step q,
                moves,
                under_moved o q rest f e at' ∙ ap (λ x. x ++ slash ∷ (step o).id) (sym path),
              )
          | inr out ↦
              let out_o = stays_out o q p found g free e out in
              let path : (step q).path ≡ q.path =
                ap (λ x. x.path)
                  (step-lifted q g ∙ lifted-out node.id parent node.path new q out) in
              (
                step q,
                moves,
                ap (λ x. x.path) (step-lifted o f ∙ lifted-out node.id parent node.path new o out_o)
                    ∙ e
                    ∙ (λ i. sym path i ++ slash ∷ sym (step-id o) i),
              )
        ]
      ]

  step-Placed : (o : Org) → IsOrgId o.id → Placed rows o → Placed (map step rows) (step o)
  step-Placed o ok_id h = elim (Bool-cases (has_org_id node.id o)) [
    | inl t ↦ self-Placed rows tree node here parent new goal o t
    | inr f ↦
        let par : (step o).parent_id ≡ o.parent_id =
          ap (λ x. x.parent_id) (step-lifted o f) ∙ (lifted-id node.id parent node.path new o).1 in
        subst (λ x. PlacedUnder (map step rows) x (step o)) (sym par)
          (other-PlacedUnder o o.parent_id f ok_id.is_id.no_slash h)
  ]

  new-IsPlain : IsPlain new
  new-IsPlain = at parent goal
    where
      id_plain : IsPlain (slash ∷ node.id)
      id_plain = (refl, (found-All (λ o. IsOrgId o.id) node.id rows node here tree.ids).plain)

      at : (p : Option Text) → Goal rows node p new → IsPlain new
      at none g = subst IsPlain (sym g) id_plain
      at (some p) (q, found, f, g, e) = subst IsPlain (sym e) (
          IsPlain-append q.path (slash ∷ node.id)
            (found-All (λ o. IsPlain o.path) p rows q found tree.plain) id_plain)

  step-IsPlain : (o : Org) → IsPlain o.path → IsPlain (step o).path
  unfolding move_row moved lifted rebase below
  step-IsPlain o h =
      let drops = IsPlain-drop (length node.path) o.path h in
      let rebased = IsPlain-append new (drop (length node.path) o.path) new-IsPlain drops in
      elim (Bool-cases (has_org_id node.id o)) [
        | inl t ↦ subst IsPlain (sym (moved_self node.id parent node.path new o t).1) new-IsPlain
        | inr f ↦ elim (Bool-cases (below node.id parent node.path new o)) [
          | inl b ↦ subst IsPlain (sym (ap (λ x. x.path) (step-lifted o f) ∙ rw b refl)) rebased
          | inr b ↦ subst IsPlain (sym (ap (λ x. x.path) (step-lifted o f) ∙ rw b refl)) h
        ]
      ]

  pub steps-IsTree : IsTree (map step rows)
  steps-IsTree = record {
    unique = UniqueOrgs-map step step-id rows tree.unique;
    ids =
        map-All (λ o. IsOrgId o.id) (λ o. IsOrgId o.id) step rows
          (λ o h. subst IsOrgId (sym (step-id o)) h) tree.ids;
    plain = map-All (λ o. IsPlain o.path) (λ o. IsPlain o.path) step rows step-IsPlain tree.plain;
    placed =
        map-All (λ o. IsOrgId o.id × Placed rows o) (Placed (map step rows)) step rows
          (λ o h. step-Placed o h.0 h.1)
          (both-All (λ o. IsOrgId o.id) (Placed rows) rows tree.ids tree.placed);
  }
