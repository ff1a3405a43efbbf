-- ===== src/Keys/Rows.antt =====
-- The keys by their id.
use softmatrix_airlock.Base.{◌≡◌, refl, String, none, some, ok, err, arith}
use softmatrix_airlock.Sql.{update_where}
use softmatrix_airlock.Sql.Ids.{HasId, row_of, row_of-update_self, update_count}
use softmatrix_airlock.Keys.Model.{Status, ApiKey, Table, api_key_not_found}
use softmatrix_airlock.Keys.Store.{has_key_id, get, set_status}

instance abbrev pub key_ids : HasId ApiKey
key_ids = record { id_of = λ k. k.id }

pub get-row_of :
    (id : String) (rows : Table) (k : ApiKey) → get id rows ≡ ok k → row_of id rows ≡ some k
unfolding get
get-row_of id rows k h = ground arith

pub row_of-get :
    (id : String) (rows : Table) (k : ApiKey) → row_of id rows ≡ some k → get id rows ≡ ok k
unfolding get
row_of-get id rows k h = ground arith

pub get-none :
    (id : String) (rows : Table) → row_of id rows ≡ none → get id rows ≡ err api_key_not_found
unfolding get
get-none id rows h = ground arith

pub set_status-found :
    (id : String) (st : Status) (rows : Table) (k : ApiKey)
    → row_of id rows ≡ some k
    → (rows' : Table) × (set_status id st rows ≡ ok rows')
      × (row_of id rows' ≡ some (record k { status = st }))
unfolding set_status
set_status-found id st rows k h = (
  (update_where (has_key_id id) (λ r. record r { status = st }) rows).0,
  rw (update_count id (λ (r : ApiKey). record r { status = st }) (λ r. refl) rows k h) refl,
  row_of-update_self id (λ (r : ApiKey). record r { status = st }) (λ r. refl) rows k h,
)
