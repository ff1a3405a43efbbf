-- ===== src/Import/Diff.antt =====
-- internal/control/importdiff.go. The map from external ids to nodes is a list with one entry for each id,
-- the last node with it; the items are sorted at the end, so that its order does not matter.
use softmatrix_airlock.Base.{
  ℕ, String, Bool, true, false, ◌&&◌, ◌||◌, not, Option, none, some, List, [], ◌∷◌, ◌++◌, any, keep,
  find, ltb, if◌then◌else◌, ◌==◌ as eq_ℕ,
}
use softmatrix_airlock.Base.Text.{Text}
use softmatrix_airlock.Authz.Permission.{str_lt}
use softmatrix_airlock.Orgs.Model.{Org}
use softmatrix_airlock.Orgs.Model as Orgs
use text.Mathlib.Text.{◌==◌}

pub record ExternalOrgNode : Type 0 where
  pub external_id : String
  pub parent_external_id : String
  pub name : String

pub data DiffKind : Type 0 where
  added renamed missing : DiffKind

pub record DiffItem : Type 0 where
  pub kind : DiffKind
  pub external_id : String
  pub parent_external_id : String
  pub name : String
  pub current_name : String
  pub org_id : Text
  pub default_selected : Bool

abbrev pub ByExt : Type 0
ByExt = List (String × Org)

abbrev pub is_text : Option String → String → Bool
is_text none s = false
is_text (some t) s = t == s

-- An assignment to the map.
abbrev pub put : String → Org → ByExt → ByExt
put ext o entries = keep (λ e. not (e.0 == ext)) entries ++ (ext, o) ∷ []

unfoldable pub local_by_ext : String → Orgs.Table → ByExt → ByExt
local_by_ext source [] entries = entries
local_by_ext source (o ∷ rest) entries = local_by_ext source rest (elim o.external_id [
  | none ↦ entries
  | some ext ↦ if is_text o.external_source source then put ext o entries else entries
])

-- The items of one node of the directory: none, or one.
unfoldable pub remote_items : ByExt → ExternalOrgNode → List DiffItem
remote_items entries rn = elim (find (λ e. e.0 == rn.external_id) entries) [
  | none ↦
      record {
        kind = added;
        external_id = rn.external_id;
        parent_external_id = rn.parent_external_id;
        name = rn.name;
        current_name = "";
        org_id = [];
        default_selected = true;
      }
      ∷ []
  | some e ↦
      if e.1.name == rn.name
      then []
      else record {
        kind = renamed;
        external_id = rn.external_id;
        parent_external_id = rn.parent_external_id;
        name = rn.name;
        current_name = e.1.name;
        org_id = e.1.id;
        default_selected = false;
      }
        ∷ []
]

unfoldable pub all_remote_items : ByExt → List ExternalOrgNode → List DiffItem
unfolding remote_items
all_remote_items entries [] = []
all_remote_items entries (rn ∷ rns) = remote_items entries rn ++ all_remote_items entries rns

unfoldable pub missing_items : List ExternalOrgNode → ByExt → List DiffItem
missing_items remote [] = []
missing_items remote ((ext, o) ∷ entries) =
    let rest = missing_items remote entries in
    if any (λ rn. rn.external_id == ext) remote
    then rest
    else record {
      kind = missing;
      external_id = ext;
      parent_external_id = "";
      name = "";
      current_name = o.name;
      org_id = o.id;
      default_selected = false;
    }
      ∷ rest

-- "added" < "missing" < "renamed"
abbrev rank : DiffKind → ℕ
rank added = 0
rank missing = 1
rank renamed = 2

unfoldable pub item_before : DiffItem → DiffItem → Bool
item_before a b =
    ltb (rank a.kind) (rank b.kind)
    || (eq_ℕ (rank a.kind) (rank b.kind) && str_lt a.external_id b.external_id)

unfoldable pub insert_item : DiffItem → List DiffItem → List DiffItem
unfolding item_before
insert_item i [] = i ∷ []
insert_item i (j ∷ js) =
    let rest = insert_item i js in if item_before j i then j ∷ rest else i ∷ j ∷ js

unfoldable pub sort_items : List DiffItem → List DiffItem
unfolding insert_item
sort_items [] = []
sort_items (i ∷ is) = insert_item i (sort_items is)

unfoldable pub compute_diff : List ExternalOrgNode → Orgs.Table → String → List DiffItem
unfolding local_by_ext all_remote_items missing_items sort_items
compute_diff remote local source =
    let entries = local_by_ext source local [] in
    sort_items (all_remote_items entries remote ++ missing_items remote entries)
