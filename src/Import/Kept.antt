-- ===== src/Import/Kept.antt =====
-- `ApplyImport` of internal/control/importapply.go keeps the tree, and every node of it.
use softmatrix_airlock.Base.{
  refl, ◌⊎◌, Result, Option, ℕ, suc, ◌≡◌, sym, ap, ◌∙◌, subst, inl, inr, String, true, false, ◌||◌,
  some, List, [], ◌∷◌, ◌++◌, any, ok, err, arith, Bool-cases, Option-cases, Result-cases,
  if◌then◌else◌,
}
use softmatrix_airlock.Base.Text.{Text, ◌==◌ as text_eq}
use softmatrix_airlock.Sql.{update_where}
use softmatrix_airlock.Sql.Rows.{update_where-map}
use softmatrix_airlock.Orgs.Model.{Org, Table, OrgError}
use softmatrix_airlock.Orgs.Store.{
  has_org_id, same_external, path_below, create, update_org, rename, by_external,
}
use softmatrix_airlock.Orgs.Tree.{IsOrgId, IsTree, any-map}
use softmatrix_airlock.Orgs.Rows.{any-append}
use softmatrix_airlock.Orgs.Ops.{Op, run_op}
use softmatrix_airlock.Orgs.Invariant.{run_op-IsTree}
use softmatrix_airlock.Import.Diff.{DiffKind, added, renamed, missing, DiffItem}
use softmatrix_airlock.Import.Apply.{
  ImportError, create_failed, rename_failed, Lookup, found, absent, failed, looked_up, settled,
  parent_of, new_org, create_item, add_item, add_items, change_item, change_items, nothing_done,
  Import, apply_import,
}
use softmatrix_airlock.Import.Sorted.{additions, distinct_ids, sort_added_by_depth-ends}
use softmatrix_airlock.Effects.{Fault, fine, lost_before, lost_after, next_fault, later_faults}

-- A tree that has lost no node.
pub record KeepsTree (rows rows' : Table) : Type 0 where
  pub tree : IsTree rows'
  pub nodes : (id : Text) → any (has_org_id id) rows ≡ true → any (has_org_id id) rows' ≡ true

same-KeepsTree : (rows : Table) → IsTree rows → KeepsTree rows rows
same-KeepsTree rows tree = record { tree = tree; nodes = λ id h. h }

then-KeepsTree : (a b c : Table) → KeepsTree a b → KeepsTree b c → KeepsTree a c
then-KeepsTree a b c h k = record { tree = k.tree; nodes = λ id t. k.nodes id (h.nodes id t) }

create-KeepsTree :
    (o : Org) (rows rows' : Table)
    → IsTree rows
    → IsOrgId o.id
    → create o rows ≡ ok rows'
    → KeepsTree rows rows'
unfolding create
create-KeepsTree o rows rows' tree id h = record {
  tree = run_op-IsTree (Op.creates o) rows rows' tree id (unfold run_op in h);
  nodes = nodes;
}
  where
    nodes : (i : Text) → any (has_org_id i) rows ≡ true → any (has_org_id i) rows' ≡ true
    nodes i t = elim (Result-cases (path_below o.parent_id o.id rows)) [
      | inr (e, f) ↦ absurd (ground arith)
      | inl (path, f) ↦ elim (Bool-cases (any (λ r. text_eq r.id o.id || same_external r o) rows)) [
        | inl g ↦ absurd (ground arith)
        | inr g ↦
            let row : Org = record o { path = path; is_key_holder = false } in
            let same : rows ++ row ∷ [] ≡ rows' = ground arith in
            subst (λ x. any (has_org_id i) x ≡ true) same
              (any-append i rows row ∙ ap (λ x. x || has_org_id i row) t)
      ]
    ]

rename-KeepsTree :
    (id : Text) (name : String) (rows rows' : Table)
    → IsTree rows
    → rename id name rows ≡ ok rows'
    → KeepsTree rows rows'
unfolding rename update_org
rename-KeepsTree id name rows rows' tree h = record {
  tree = run_op-IsTree (Op.renames id name) rows rows' tree tt (unfold run_op in h);
  nodes = λ i t.
      let e : (update_where (has_org_id id) (λ o. record o { name = name }) rows).0 ≡ rows' =
        ground arith in
      subst (λ x. any (has_org_id i) x ≡ true)
        (sym (update_where-map (has_org_id id) (λ o. record o { name = name }) rows) ∙ e)
        (any-map (λ o. if has_org_id id o then record o { name = name } else o) (λ o. ground arith)
            i rows
          ∙ t);
}

-- However a write ends, the tree is kept if the write keeps it.
settled-KeepsTree :
    (e : ImportError) (f : Fault) (rows : Table) (r : Result OrgError Table)
    → IsTree rows
    → ((rows' : Table) → r ≡ ok rows' → KeepsTree rows rows')
    → KeepsTree rows (settled e f rows r).1
settled-KeepsTree e fine rows (ok rows') tree h = h rows' refl
settled-KeepsTree e fine rows (err x) tree h = same-KeepsTree rows tree
settled-KeepsTree e lost_before rows r tree h = same-KeepsTree rows tree
settled-KeepsTree e lost_after rows (ok rows') tree h = h rows' refl
settled-KeepsTree e lost_after rows (err x) tree h = same-KeepsTree rows tree

module _ (source : String) where
  create_item-KeepsTree :
      (id : Text) (parent : Option Text) (faults : List Fault) (it : DiffItem) (s : Import)
      → IsOrgId id
      → IsTree s.rows
      → KeepsTree s.rows (create_item source id parent faults it s).rows
  unfolding create_item
  create_item-KeepsTree id parent faults it s known tree =
      let made = create (new_org source id parent it) s.rows in
      let end = settled create_failed (next_fault faults) s.rows made in
      let one =
        settled-KeepsTree create_failed (next_fault faults) s.rows made tree
          (λ rows e. create-KeepsTree (new_org source id parent it) s.rows rows tree known e) in
      elim (Option-cases end.0) [
        | inl e ↦ rw (create_item, e) one
        | inr (x, e) ↦ rw (create_item, e) one
      ]

  add_item-KeepsTree :
      (id : Text) (it : DiffItem) (s : Import)
      → IsOrgId id
      → IsTree s.rows
      → KeepsTree s.rows (add_item source id it s).rows
  unfolding add_item
  add_item-KeepsTree id it s known tree =
      elim (Lookup-cases
        (looked_up (next_fault s.faults) (by_external source it.external_id s.rows))) [
          | inl (o, e) ↦ rw (add_item, e) (same-KeepsTree s.rows tree)
          | inr (inl e) ↦ rw (add_item, e) (same-KeepsTree s.rows tree)
          | inr (inr e) ↦
              let s' : Import = record s { faults = later_faults s.faults } in
              elim (Result-cases (parent_of source it s')) [
                | inr (y, f) ↦ rw (add_item, e, f) (same-KeepsTree s.rows tree)
                | inl (p, f) ↦
                    rw (add_item, e, f) (create_item-KeepsTree id p.0 p.1 it s' known tree)
              ]
        ]
    where
      Lookup-cases : (l : Lookup) → ((o : Org) × (l ≡ found o)) ⊎ ((l ≡ failed) ⊎ (l ≡ absent))
      Lookup-cases (found o) = inl (o, refl)
      Lookup-cases failed = inr (inl refl)
      Lookup-cases absent = inr (inr refl)

  add_items-KeepsTree :
      (fresh : ℕ → Text) (n : ℕ) (its : List DiffItem) (s : Import)
      → ((k : ℕ) → IsOrgId (fresh k))
      → IsTree s.rows
      → KeepsTree s.rows (add_items source fresh n its s).rows
  unfolding add_items
  add_items-KeepsTree fresh n [] s known tree = same-KeepsTree s.rows tree
  add_items-KeepsTree fresh n (it ∷ its) s known tree =
      let one = add_item-KeepsTree (fresh n) it s (known n) tree in
      elim (Option-cases (add_item source (fresh n) it s).failure) [
        | inr (e, f) ↦ rw (add_items, f) one
        | inl f ↦
            rw (add_items, f)
              (then-KeepsTree _ _ _ one (
                add_items-KeepsTree fresh (suc n) its (add_item source (fresh n) it s) known
                  one.tree))
      ]

change_item-KeepsTree :
    (it : DiffItem) (s : Import) → IsTree s.rows → KeepsTree s.rows (change_item it s).rows
unfolding change_item
change_item-KeepsTree it s tree = at it.kind refl
  where
    at : (k : DiffKind) → it.kind ≡ k → KeepsTree s.rows (change_item it s).rows
    at added q = rw (change_item, q) (same-KeepsTree s.rows tree)
    at missing q = rw (change_item, q) (same-KeepsTree s.rows tree)
    at renamed q =
        let done = rename it.org_id it.name s.rows in
        let end = settled rename_failed (next_fault s.faults) s.rows done in
        let one =
          settled-KeepsTree rename_failed (next_fault s.faults) s.rows done tree
            (λ rows e. rename-KeepsTree it.org_id it.name s.rows rows tree e) in
        elim (Option-cases end.0) [
          | inl e ↦ rw (change_item, q, e) one
          | inr (x, e) ↦ rw (change_item, q, e) one
        ]

change_items-KeepsTree :
    (its : List DiffItem) (s : Import) → IsTree s.rows → KeepsTree s.rows (change_items its s).rows
unfolding change_items
change_items-KeepsTree [] s tree = same-KeepsTree s.rows tree
change_items-KeepsTree (it ∷ its) s tree =
    let one = change_item-KeepsTree it s tree in
    elim (Option-cases (change_item it s).failure) [
      | inr (e, f) ↦ rw (change_items, f) one
      | inl f ↦
          rw (change_items, f)
            (then-KeepsTree _ _ _ one (change_items-KeepsTree its (change_item it s) one.tree))
    ]

-- An import into a tree never breaks it and never takes a node away, provided that no external id is
-- added twice and that the ids that are drawn have the form of ids. Whatever items are applied, however
-- each call of the store ends (it works, it fails, or it works and its answer is lost), and whether the
-- import succeeds or stops on the way: it returns, and then the rows are a tree and every node that was
-- there is there; nodes that the directory no longer has are counted only.
pub apply_import-KeepsTree :
    (source : String) (fresh : ℕ → Text) (items : List DiffItem) (rows : Table)
    (faults : List Fault)
    → distinct_ids (additions items) ≡ true
    → IsTree rows
    → ((k : ℕ) → IsOrgId (fresh k))
    → (s : Import) × (apply_import source fresh items rows faults ≡ some s) × KeepsTree rows s.rows
unfolding apply_import
apply_import-KeepsTree source fresh items rows faults distinct tree known =
    let (sorted, e, n, members) = sort_added_by_depth-ends items distinct in
    let begin = nothing_done rows faults in
    let made = add_items source fresh 0 sorted begin in
    let one = add_items-KeepsTree source fresh 0 sorted begin known tree in
    elim (Option-cases made.failure) [
      | inr (x, f) ↦ (made, rw (apply_import, e, f) refl, one)
      | inl f ↦ (
        change_items items made,
        rw (apply_import, e, f) refl,
        then-KeepsTree _ _ _ one (change_items-KeepsTree items made one.tree),
      )
    ]
