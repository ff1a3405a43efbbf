-- ===== src/Orgs/Ops.antt =====
-- The writes of internal/control/orgstore.go as steps. A deletion sees the tables that point to
-- organisations, of keys, of users and of requests.
use softmatrix_airlock.Base.{String, Bool, Option, Result}
use softmatrix_airlock.Base.Text.{Text}
use softmatrix_airlock.Keys.Model as Keys
use softmatrix_airlock.Users.Model as Users
use softmatrix_airlock.Requests.Model as Requests
use softmatrix_airlock.Orgs.Model.{Org, Table, OrgError}
use softmatrix_airlock.Orgs.Store.{create, rename, set_key_holder, move, delete}
use softmatrix_airlock.Orgs.Tree.{IsOrgId}

pub data Op : Type 0 where
  creates : Org → Op
  renames : Text → String → Op
  flags : Text → Bool → Op
  moves : Text → Option Text → Op
  deletes : Text → Keys.Table → Users.Table → Requests.Table → Op

unfoldable pub run_op : Op → Table → Result OrgError Table
run_op (Op.creates o) rows = create o rows
run_op (Op.renames id name) rows = rename id name rows
run_op (Op.flags id v) rows = set_key_holder id v rows
run_op (Op.moves id parent) rows = move id parent rows
run_op (Op.deletes id keys users requests) rows = delete id keys users requests rows

-- A node is created with an id that the program draws.
abbrev pub HasOrgId : Op → Type 0
HasOrgId (Op.creates o) = IsOrgId o.id
HasOrgId (Op.renames id name) = Unit
HasOrgId (Op.flags id v) = Unit
HasOrgId (Op.moves id parent) = Unit
HasOrgId (Op.deletes id keys users requests) = Unit
