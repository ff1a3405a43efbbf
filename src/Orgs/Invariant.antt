-- ===== src/Orgs/Invariant.antt =====
-- Every write of internal/control/orgstore.go keeps the rows of `organizations` a tree.
use softmatrix_airlock.Base.{
  ◌≡◌, refl, sym, ◌∙◌, subst, inl, inr, Bool, false, ◌||◌, not, Option, none, some, [], ◌∷◌, ◌++◌,
  any, keep, length, ok, arith, ltb, Bool-cases, Option-cases, Result-cases, if◌then◌else◌,
}
use softmatrix_airlock.Base.Text.{Text, ◌==◌ as text_eq}
use softmatrix_airlock.Paths.{slash}
use softmatrix_airlock.Sql.{update_where, IsPlain}
use softmatrix_airlock.Sql.Rows.{update_where-map}
use softmatrix_airlock.Keys.Model as Keys
use softmatrix_airlock.Users.Model as Users
use softmatrix_airlock.Requests.Model as Requests
use softmatrix_airlock.Orgs.Model.{Org, Table}
use softmatrix_airlock.Orgs.Store.{
  has_org_id, find_org, get, same_external, path_below, create, update_org, rename, set_key_holder,
  is_child_of, target_path, reparent, move, delete,
}
use softmatrix_airlock.Orgs.Texts.{IsPlain-append}
use softmatrix_airlock.Orgs.Tree.{IsOrgId, PlacedUnder, IsTree, find_org-id, found-All}
use softmatrix_airlock.Orgs.Rows.{append-IsTree, same-IsTree, counted_none, keep-IsTree}
use softmatrix_airlock.Orgs.Move.{reparent-map, Goal, move_row, target_path-Goal}
use softmatrix_airlock.Orgs.Moving.{steps-IsTree}
use softmatrix_airlock.Orgs.Ops.{Op, run_op, HasOrgId}

-- What `Create` inserts.
created : Org → Text → Org
created o path = record o { path = path; is_key_holder = false }

-- The row's own path is not looked at.
path_below-Placed :
    (rows : Table) (o : Org) (p : Option Text) (path : Text)
    → IsTree rows
    → IsOrgId o.id
    → path_below p o.id rows ≡ ok path
    → PlacedUnder rows p (created o path) × IsPlain path
unfolding path_below get created
path_below-Placed rows o none path tree id h =
    let e : slash ∷ o.id ≡ path = ground arith in (sym e, subst IsPlain e (refl, id.plain))
path_below-Placed rows o (some p) path tree id h = elim (Option-cases (find_org p rows)) [
  | inl f ↦ absurd (ground arith)
  | inr (q, f) ↦
      let e : q.path ++ slash ∷ o.id ≡ path = ground arith in
      let plain : IsPlain (slash ∷ o.id) = (refl, id.plain) in
      (
        (q, f, sym e),
        subst IsPlain e (
            IsPlain-append q.path (slash ∷ o.id)
              (found-All (λ r. IsPlain r.path) p rows q f tree.plain) plain),
      )
]

any-either :
    (id : Text) (test : Org → Bool) (rows : Table)
    → any (λ r. text_eq r.id id || test r) rows ≡ false
    → any (has_org_id id) rows ≡ false
any-either id test [] h = refl
any-either id test (r ∷ rows) h = ground (arith, any-either id test rows)

create-IsTree :
    (o : Org) (rows rows' : Table)
    → IsTree rows
    → IsOrgId o.id
    → create o rows ≡ ok rows'
    → IsTree rows'
unfolding create created
create-IsTree o rows rows' tree id h = elim (Result-cases (path_below o.parent_id o.id rows)) [
  | inr (e, f) ↦ absurd (ground arith)
  | inl (path, f) ↦ elim (Bool-cases (any (λ r. text_eq r.id o.id || same_external r o) rows)) [
    | inl t ↦ absurd (ground arith)
    | inr g ↦
        let same : rows ++ created o path ∷ [] ≡ rows' = ground arith in
        let (placed, plain) = path_below-Placed rows o o.parent_id path tree id f in
        subst IsTree same (
          append-IsTree rows (created o path) tree id plain
            (any-either o.id (λ r. same_external r o) rows g) placed)
  ]
]

update_org-IsTree :
    (id : Text) (change : Org → Org) (rows rows' : Table)
    → ((o : Org)
        → ((change o).id ≡ o.id)
          × ((change o).parent_id ≡ o.parent_id)
          × ((change o).path ≡ o.path))
    → IsTree rows
    → update_org id change rows ≡ ok rows'
    → IsTree rows'
unfolding update_org
update_org-IsTree id change rows rows' same tree h =
    let e : (update_where (has_org_id id) change rows).0 ≡ rows' = ground arith in
    subst IsTree (sym (update_where-map (has_org_id id) change rows) ∙ e) (
      same-IsTree (λ o. if has_org_id id o then change o else o) rows
        (λ o. let z = same o in ground arith) tree)

delete-IsTree :
    (id : Text) (keys : Keys.Table) (users : Users.Table) (requests : Requests.Table)
    (rows rows' : Table)
    → IsTree rows
    → delete id keys users requests rows ≡ ok rows'
    → IsTree rows'
unfolding delete
delete-IsTree id keys users requests rows rows' tree h = elim (Result-cases (get id rows)) [
  | inr (e, f) ↦ absurd (ground arith)
  | inl (node, f) ↦ elim (Bool-cases (ltb 0 (length (keep (is_child_of (some id)) rows)))) [
    | inl t ↦ absurd (ground arith)
    | inr g ↦
        let e : keep (λ o. not (has_org_id id o)) rows ≡ rows' = ground arith in
        subst IsTree e (keep-IsTree id rows tree (counted_none id rows g))
  ]
]

get-found : (id : Text) (rows : Table) (o : Org) → get id rows ≡ ok o → find_org id rows ≡ some o
unfolding get
get-found id rows o h = ground arith

moved-IsTree :
    (node : Org) (parent : Option Text) (new : Text) (rows rows' : Table) (tree : IsTree rows)
    → find_org node.id rows ≡ some node
    → Goal rows node parent new
    → reparent node.id parent node.path new rows ≡ rows'
    → IsTree rows'
unfolding move_row
moved-IsTree node parent new rows rows' tree here goal wrote =
    let plain = found-All (λ o. IsPlain o.path) node.id rows node here tree.plain in
    subst IsTree (sym (reparent-map node.id parent node.path new rows plain) ∙ wrote)
      (steps-IsTree rows tree node here parent new goal)

-- `Move` writes the paths by text, with LIKE and with substring; where it succeeds they are those of the
-- new tree.
pub move-IsTree :
    (id : Text) (parent : Option Text) (rows rows' : Table)
    → IsTree rows
    → move id parent rows ≡ ok rows'
    → IsTree rows'
unfolding move
move-IsTree id parent rows rows' tree h = elim (Result-cases (get id rows)) [
  | inr (e, f) ↦ absurd (ground arith)
  | inl (node, f) ↦ elim (Result-cases (target_path node parent rows)) [
    | inr (e, g) ↦ absurd (ground arith)
    | inl (new, g) ↦ elim (Bool-cases (text_eq new node.path)) [
      | inl t ↦ let same : rows ≡ rows' = ground arith in subst IsTree same tree
      | inr t ↦
          let found = get-found id rows node f in
          let ids : id ≡ node.id = sym (find_org-id id rows node found) in
          let wrote : reparent id parent node.path new rows ≡ rows' = ground arith in
          moved-IsTree node parent new rows rows' tree
            (subst (λ x. find_org x rows ≡ some node) ids found)
            (target_path-Goal rows node parent new g)
            (subst (λ x. reparent x parent node.path new rows ≡ rows') ids wrote)
    ]
  ]
]

-- Whatever `OrgStore` writes, and wherever it succeeds: if the rows of `organizations` are a tree (ids
-- that are unique, slash-free and without wildcards, every parent there, every path that of the parent
-- with the row's own id behind it), then so they are afterwards. A new node has an id of that form.
-- `Move` included, which recomputes the paths of a whole subtree by text.
pub run_op-IsTree :
    (op : Op) (rows rows' : Table)
    → IsTree rows
    → HasOrgId op
    → run_op op rows ≡ ok rows'
    → IsTree rows'
unfolding run_op rename set_key_holder
run_op-IsTree (Op.creates o) rows rows' tree id h = create-IsTree o rows rows' tree id h
run_op-IsTree (Op.renames id name) rows rows' tree k h =
    update_org-IsTree id (λ o. record o { name = name }) rows rows' (λ o. (refl, refl, refl)) tree h
run_op-IsTree (Op.flags id v) rows rows' tree k h =
    update_org-IsTree id (λ o. record o { is_key_holder = v }) rows rows' (λ o. (refl, refl, refl))
      tree h
run_op-IsTree (Op.moves id parent) rows rows' tree k h = move-IsTree id parent rows rows' tree h
run_op-IsTree (Op.deletes id keys users requests) rows rows' tree k h =
    delete-IsTree id keys users requests rows rows' tree h
