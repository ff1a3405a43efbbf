-- ===== src/Import/Tests.antt =====
-- A directory that lists a child before its parent, applied to one root, and the witnesses.
use softmatrix_airlock.Base.{
  ℕ, zero, suc, ◌≡◌, refl, String, true, false, Option, none, some, List, [], ◌∷◌, All, length,
}
use softmatrix_airlock.Base.Text.{Text, ◌==◌ as text_eq}
use softmatrix_airlock.Paths.{IsId, slash_free}
use softmatrix_airlock.Sql.{IsPlain}
use softmatrix_airlock.Authz.Permission.{str_lt}
use softmatrix_airlock.Orgs.Model.{Org}
use softmatrix_airlock.Orgs.Store.{by_external, create, path_below, get, same_external}
use softmatrix_airlock.Orgs.Tree.{IsOrgId, IsTree}
use softmatrix_airlock.Import.Diff.{added, DiffItem, compute_diff}
use softmatrix_airlock.Import.Apply.{
  is_in, parent_pending, place_ready, place_rest, passes, sort_added_by_depth, parent_of, add_item,
  add_items, change_item, change_items, Import, ImportError, create_failed, create_item,
  apply_import,
}
use softmatrix_airlock.Import.Sorted.{additions, sort_added_by_depth-ends}
use softmatrix_airlock.Effects.{Fault, fine, lost_after}
use softmatrix_airlock.Import.Kept.{KeepsTree, apply_import-KeepsTree}

abbrev addition : String → String → DiffItem
addition ext parent = record {
  kind = added;
  external_id = ext;
  parent_external_id = parent;
  name = ext;
  current_name = "";
  org_id = [];
  default_selected = true;
}

abbrev items : List DiffItem
items = addition "child" "top" ∷ addition "top" "" ∷ []

computed :
    compute_diff
      (record { external_id = "child"; parent_external_id = "top"; name = "child" }
        ∷ record { external_id = "top"; parent_external_id = ""; name = "top" }
        ∷ [])
      []
      "ldap"
    ≡ items
unfolding compute_diff str_lt
computed = refl

sort_added_by_depth-ends_example :
    (out : List DiffItem) × (sort_added_by_depth items ≡ some out)
    × (length out ≡ length (additions items))
    × All (λ i. is_in out i.external_id ≡ true) (additions items)
sort_added_by_depth-ends_example = sort_added_by_depth-ends items refl

-- The ids 1, 11, 111, ...
abbrev fresh : ℕ → Text
fresh zero = 49 ∷ []
fresh (suc n) = 49 ∷ fresh n

fresh-free : (k : ℕ) → slash_free (fresh k) ≡ true
fresh-free zero = refl
fresh-free (suc n) = fresh-free n

fresh-IsPlain : (k : ℕ) → IsPlain (fresh k)
fresh-IsPlain zero = (refl, tt)
fresh-IsPlain (suc n) = (refl, fresh-IsPlain n)

fresh-IsId : (k : ℕ) → IsId (fresh k)
fresh-IsId zero = record { has_text = refl; no_slash = refl }
fresh-IsId (suc n) = record { has_text = refl; no_slash = fresh-free n }

fresh-IsOrgId : (k : ℕ) → IsOrgId (fresh k)
fresh-IsOrgId k = record { is_id = fresh-IsId k; plain = fresh-IsPlain k }

empty-IsTree : IsTree []
empty-IsTree = record { unique = tt; ids = tt; plain = tt; placed = tt }

abbrev imported : String → Text → Option Text → Text → Org
imported ext id parent path = record {
  id = id;
  parent_id = parent;
  name = ext;
  path = path;
  external_source = some "ldap";
  external_id = some ext;
  is_key_holder = false;
}

abbrev done : Import
done = record {
  rows =
      imported "top" (49 ∷ []) none (47 ∷ 49 ∷ [])
      ∷ imported "child" (49 ∷ 49 ∷ []) (some (49 ∷ [])) (47 ∷ 49 ∷ 47 ∷ 49 ∷ 49 ∷ [])
      ∷ [];
  ext_to_id = ("child", 49 ∷ 49 ∷ []) ∷ ("top", 49 ∷ []) ∷ [];
  result = record { created = 2; renamed = 0; marked_orphan = 0; skipped = 0 };
  failure = none;
  faults = [];
}

applied : apply_import "ldap" fresh items [] [] ≡ some done
unfolding apply_import create_item sort_added_by_depth passes place_ready place_rest parent_pending
    add_items add_item parent_of by_external create path_below get same_external change_items
    change_item text_eq
applied = refl

-- The answer to the second INSERT is lost.
abbrev faults : List Fault
faults = fine ∷ fine ∷ fine ∷ lost_after ∷ []

abbrev ap_failure : Option Import → Option ImportError
ap_failure none = none
ap_failure (some s) = s.failure

stopped : ap_failure (apply_import "ldap" fresh items [] faults) ≡ some create_failed
unfolding apply_import create_item sort_added_by_depth passes place_ready place_rest parent_pending
    add_items add_item parent_of by_external create path_below get same_external change_items
    change_item text_eq
stopped = refl

apply_import-KeepsTree_example :
    (s : Import) × (apply_import "ldap" fresh items [] faults ≡ some s) × KeepsTree [] s.rows
apply_import-KeepsTree_example =
    apply_import-KeepsTree "ldap" fresh items [] faults refl empty-IsTree fresh-IsOrgId
