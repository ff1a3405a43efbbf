-- ===== src/Orgs/Tests.antt =====
-- A small tree, a move that takes a child along, a refused cycle, and the witnesses.
use softmatrix_airlock.Base.{ℕ, ◌≡◌, refl, true, false, Option, none, some, [], ◌∷◌, ok, err}
use softmatrix_airlock.Base.Text.{Text, ◌==◌ as text_eq, has_prefix}
use softmatrix_airlock.Paths.{ancestor_ids, slash_free, non_empty, in_subtree}
use softmatrix_airlock.Sql.{wildcard, update_where, like}
use softmatrix_airlock.Orgs.Model.{Org, Table, org_cycle}
use softmatrix_airlock.Orgs.Store.{get, target_path, rebase, reparent, move}
use softmatrix_airlock.Orgs.Tree.{IsOrgId, IsTree}
use softmatrix_airlock.Orgs.Ops.{Op, run_op}
use softmatrix_airlock.Orgs.Invariant.{run_op-IsTree}
use softmatrix_airlock.Orgs.Chain.{Chain, ancestor_ids-Chain}

abbrev org : Text → Option Text → Text → Org
org id parent path = record {
  id = id;
  parent_id = parent;
  name = "";
  path = path;
  external_source = none;
  external_id = none;
  is_key_holder = false;
}

-- Nodes r, a and b below r, and x below a.
abbrev r : Text
r = 114 ∷ []

abbrev a : Text
a = 97 ∷ []

abbrev b : Text
b = 98 ∷ []

abbrev x : Text
x = 120 ∷ []

abbrev rows : Table
rows =
    org r none (47 ∷ 114 ∷ [])
    ∷ org a (some r) (47 ∷ 114 ∷ 47 ∷ 97 ∷ [])
    ∷ org b (some r) (47 ∷ 114 ∷ 47 ∷ 98 ∷ [])
    ∷ org x (some a) (47 ∷ 114 ∷ 47 ∷ 97 ∷ 47 ∷ 120 ∷ [])
    ∷ []

-- Node a goes below b, and x with it.
abbrev rows' : Table
rows' =
    org r none (47 ∷ 114 ∷ [])
    ∷ org a (some b) (47 ∷ 114 ∷ 47 ∷ 98 ∷ 47 ∷ 97 ∷ [])
    ∷ org b (some r) (47 ∷ 114 ∷ 47 ∷ 98 ∷ [])
    ∷ org x (some a) (47 ∷ 114 ∷ 47 ∷ 98 ∷ 47 ∷ 97 ∷ 47 ∷ 120 ∷ [])
    ∷ []

is_letter :
    (c : ℕ)
    → slash_free (c ∷ []) ≡ true
    → non_empty (c ∷ []) ≡ true
    → wildcard c ≡ false
    → IsOrgId (c ∷ [])
is_letter c free text plain = record {
  is_id = record { has_text = text; no_slash = free };
  plain = (plain, tt);
}

rows-IsTree : IsTree rows
unfolding text_eq
rows-IsTree = record {
  unique = (refl, (refl, (refl, (refl, tt))));
  ids = (
    is_letter 114 refl refl refl,
    (
      is_letter 97 refl refl refl,
      (is_letter 98 refl refl refl, (is_letter 120 refl refl refl, tt)),
    ),
  );
  plain = (
    (refl, (refl, tt)),
    (
      (refl, (refl, (refl, (refl, tt)))),
      (
        (refl, (refl, (refl, (refl, tt)))),
        ((refl, (refl, (refl, (refl, (refl, (refl, tt)))))), tt),
      ),
    ),
  );
  placed = (
    refl,
    (
      (org r none (47 ∷ 114 ∷ []), refl, refl),
      (
        (org r none (47 ∷ 114 ∷ []), refl, refl),
        ((org a (some r) (47 ∷ 114 ∷ 47 ∷ 97 ∷ []), refl, refl), tt),
      ),
    ),
  );
}

moves_a : move a (some b) rows ≡ ok rows'
unfolding move get target_path reparent rebase text_eq in_subtree has_prefix update_where like
moves_a = refl

-- Not below its own child.
refuses_x : move a (some x) rows ≡ err org_cycle
unfolding move get target_path text_eq in_subtree has_prefix
refuses_x = refl

runs_a : run_op (Op.moves a (some b)) rows ≡ ok rows'
unfolding run_op
runs_a = moves_a

run_op-IsTree_example : IsTree rows'
run_op-IsTree_example = run_op-IsTree (Op.moves a (some b)) rows rows' rows-IsTree tt runs_a

ancestor_ids-Chain_example :
    Chain rows
      (org x (some a) (47 ∷ 114 ∷ 47 ∷ 97 ∷ 47 ∷ 120 ∷ []))
      (ancestor_ids (47 ∷ 114 ∷ 47 ∷ 97 ∷ 47 ∷ 120 ∷ []))
unfolding text_eq
ancestor_ids-Chain_example =
    ancestor_ids-Chain rows x (org x (some a) (47 ∷ 114 ∷ 47 ∷ 97 ∷ 47 ∷ 120 ∷ [])) rows-IsTree refl
