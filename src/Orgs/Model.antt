-- ===== src/Orgs/Model.antt =====
-- `Org` of internal/control/model.go, which is also the row of `organizations`. Ids and paths are bytes.
use softmatrix_airlock.Base.{String, Bool, Option, List}
use softmatrix_airlock.Base.Text.{Text}

pub record Org : Type 0 where
  pub id : Text
  pub parent_id : Option Text
  pub name : String
  pub path : Text
  pub external_source : Option String
  pub external_id : Option String
  pub is_key_holder : Bool

abbrev pub Table : Type 0
Table = List Org

pub data OrgError : Type 0 where
  org_not_found org_cycle org_has_children org_has_keys org_has_users constraint : OrgError
