-- ===== src/Import/Apply.antt =====
-- internal/control/importapply.go on the rows of `organizations`. The uuids are drawn by their number. An
-- import that fails keeps the rows that it has written by then. `faults` says how the calls of the store end.
use softmatrix_airlock.Base.{
  ℕ, zero, suc, String, Bool, true, false, ◌&&◌, ◌||◌, not, Option, none, some, List, [], ◌∷◌, ◌++◌,
  any, keep, find, length, Result, ok, err, ltb, if◌then◌else◌,
}
use softmatrix_airlock.Base.Text.{Text}
use softmatrix_airlock.Orgs.Model.{Org, Table, OrgError, org_not_found}
use softmatrix_airlock.Effects.{Fault, fine, lost_before, lost_after, next_fault, later_faults}
use softmatrix_airlock.Orgs.Store.{by_external, create, rename}
use softmatrix_airlock.Import.Diff.{DiffKind, added, renamed, missing, DiffItem}
use text.Mathlib.Text.{◌==◌}

abbrev pub is_added : DiffKind → Bool
is_added added = true
is_added renamed = false
is_added missing = false

-- `placed` holds the external ids of `out`.
abbrev pub is_in : List DiffItem → String → Bool
is_in items ext = any (λ i. i.external_id == ext) items

module _ (batch : List DiffItem) where
  unfoldable pub parent_pending : List DiffItem → DiffItem → Bool
  parent_pending out it =
      not (it.parent_external_id == "")
      && (is_in batch it.parent_external_id && not (is_in out it.parent_external_id))

  -- One pass over the batch: the items whose parent is not pending are placed.
  unfoldable pub place_ready : List DiffItem → List DiffItem → List DiffItem
  unfolding parent_pending
  place_ready [] out = out
  place_ready (it ∷ its) out =
      place_ready its
        (if is_in out it.external_id || parent_pending out it then out else out ++ it ∷ [])

  -- The pass behind a pass without progress: the rest is placed as it is.
  unfoldable pub place_rest : List DiffItem → List DiffItem → List DiffItem
  place_rest [] out = out
  place_rest (it ∷ its) out =
      place_rest its (if is_in out it.external_id then out else out ++ it ∷ [])

  -- The passes, with fuel.
  unfoldable pub passes : ℕ → List DiffItem → Option (List DiffItem)
  unfolding place_ready place_rest
  passes zero out = none
  passes (suc n) out =
      let out' = place_ready batch out in
      let next =
        passes n (if ltb (length out) (length out') then out' else place_rest batch out') in
      if ltb (length out) (length batch) then next else some out

-- There is a pass for each item, and the test behind the last.
unfoldable pub sort_added_by_depth : List DiffItem → Option (List DiffItem)
unfolding passes
sort_added_by_depth items =
    let batch = keep (λ i. is_added i.kind) items in passes batch (suc (length batch)) []

pub record ImportResult : Type 0 where
  pub created : ℕ
  pub renamed : ℕ
  pub marked_orphan : ℕ
  pub skipped : ℕ

pub data ImportError : Type 0 where
  lookup_failed no_parent create_failed rename_failed : ImportError

pub record Import : Type 0 where
  pub rows : Table
  pub ext_to_id : List (String × Text)
  pub result : ImportResult
  pub failure : Option ImportError
  pub faults : List Fault

-- How a lookup ends: any error but "not found" is a failure.
pub data Lookup : Type 0 where
  found : Org → Lookup
  absent failed : Lookup

abbrev pub looked_up : Fault → Result OrgError Org → Lookup
looked_up fine (ok o) = found o
looked_up fine (err org_not_found) = absent
looked_up fine (err e) = failed
looked_up lost_before r = failed
looked_up lost_after r = failed

-- How a write ends: the error that is returned, and the rows.
abbrev pub settled :
    ImportError → Fault → Table → Result OrgError Table → Option ImportError × Table
settled e fine rows (ok rows') = (none, rows')
settled e fine rows (err x) = (some e, rows)
settled e lost_before rows r = (some e, rows)
settled e lost_after rows (ok rows') = (some e, rows')
settled e lost_after rows (err x) = (some e, rows)

abbrev pub id_of : String → List (String × Text) → Option Text
id_of ext ids = elim (find (λ e. e.0 == ext) ids) [ none ↦ none | some e ↦ some e.1 ]

module _ (source : String) where
  -- The parent of a new node, none for a root, and the faults behind its lookup.
  unfoldable pub parent_of : DiffItem → Import → Result ImportError (Option Text × List Fault)
  parent_of it s =
      if it.parent_external_id == ""
      then ok (none, s.faults)
      else elim (id_of it.parent_external_id s.ext_to_id) [
        | some id ↦ ok (some id, s.faults)
        | none ↦
            elim (looked_up (next_fault s.faults)
              (by_external source it.parent_external_id s.rows)) [
                | absent ↦ err no_parent
                | failed ↦ err no_parent
                | found o ↦ ok (some o.id, later_faults s.faults)
              ]
      ]

  abbrev pub new_org : Text → Option Text → DiffItem → Org
  new_org id parent it = record {
    id = id;
    parent_id = parent;
    name = it.name;
    path = [];
    external_source = some source;
    external_id = some it.external_id;
    is_key_holder = false;
  }

  -- The INSERT of a new node, and what is kept of it.
  unfoldable pub create_item : Text → Option Text → List Fault → DiffItem → Import → Import
  create_item id parent faults it s =
      let (failure, rows) =
        settled create_failed (next_fault faults) s.rows (create (new_org id parent it) s.rows) in
      let s' : Import = record s { rows = rows; failure = failure; faults = later_faults faults } in
      elim failure [
        | some e ↦ s'
        | none ↦ record s' {
          ext_to_id = (it.external_id, id) ∷ s.ext_to_id;
          result = record s.result { created = suc s.result.created };
        }
      ]

  -- One addition, with the id that is drawn for it.
  unfoldable pub add_item : Text → DiffItem → Import → Import
  unfolding parent_of create_item
  add_item id it s =
      let s' : Import = record s { faults = later_faults s.faults } in
      elim (looked_up (next_fault s.faults) (by_external source it.external_id s.rows)) [
        | failed ↦ record s' { failure = some lookup_failed }
        | found o ↦ record s' {
          ext_to_id = (it.external_id, o.id) ∷ s.ext_to_id;
          result = record s.result { skipped = suc s.result.skipped };
        }
        | absent ↦ elim (parent_of it s') [
          | err e ↦ record s' { failure = some e }
          | ok p ↦ create_item id p.0 p.1 it s'
        ]
      ]

  unfoldable pub add_items : (ℕ → Text) → ℕ → List DiffItem → Import → Import
  unfolding add_item
  add_items fresh n [] s = s
  add_items fresh n (it ∷ its) s =
      let s' = add_item (fresh n) it s in
      let rest = add_items fresh (suc n) its s' in elim s'.failure [ none ↦ rest | some e ↦ s' ]

-- The second loop: nodes are renamed, and those that are missing are only counted.
unfoldable pub change_item : DiffItem → Import → Import
change_item it s = elim it.kind [
  | added ↦ s
  | renamed ↦
      let (failure, rows) =
        settled rename_failed (next_fault s.faults) s.rows (rename it.org_id it.name s.rows) in
      let s' : Import = record s {
        rows = rows;
        failure = failure;
        faults = later_faults s.faults;
      } in
      elim failure [
        | some e ↦ s'
        | none ↦ record s' { result = record s.result { renamed = suc s.result.renamed } }
      ]
  | missing ↦ record s { result = record s.result { marked_orphan = suc s.result.marked_orphan } }
]

unfoldable pub change_items : List DiffItem → Import → Import
unfolding change_item
change_items [] s = s
change_items (it ∷ its) s =
    let s' = change_item it s in
    let rest = change_items its s' in elim s'.failure [ none ↦ rest | some e ↦ s' ]

abbrev pub nothing_done : Table → List Fault → Import
nothing_done rows faults = record {
  rows = rows;
  ext_to_id = [];
  result = record { created = 0; renamed = 0; marked_orphan = 0; skipped = 0 };
  failure = none;
  faults = faults;
}

-- `none` where the sorting does not come to an end.
unfoldable pub apply_import :
    String → (ℕ → Text) → List DiffItem → Table → List Fault → Option Import
unfolding sort_added_by_depth add_items change_items
apply_import source fresh items rows faults = elim (sort_added_by_depth items) [
  | none ↦ none
  | some sorted ↦
      let s = add_items source fresh 0 sorted (nothing_done rows faults) in
      let rest = change_items items s in some (elim s.failure [ none ↦ rest | some e ↦ s ])
]
