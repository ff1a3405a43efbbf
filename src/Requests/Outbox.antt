-- ===== src/Requests/Outbox.antt =====
-- internal/control/requeststore.go, the outbox of notifications.
use softmatrix_airlock.Base.{
  ℕ, zero, suc, ◌+◌, String, Bool, true, false, none, some, List, [], ◌∷◌, ◌++◌, any, keep, Result,
  ok, err, if◌then◌else◌,
}
use softmatrix_airlock.Sql.{update_where, order_by}
use softmatrix_airlock.Requests.Model.{Delivery, Notification, StoreError, constraint}
use text.Mathlib.Text.{◌==◌}

abbrev pub Outbox : Type 0
Outbox = List Notification

abbrev pub is_waiting : Delivery → Bool
is_waiting Delivery.pending = true
is_waiting Delivery.sent = false
is_waiting Delivery.failed = false

-- The row of the INSERT, with the defaults of the other columns. The channel check admits "email".
unfoldable pub enqueue : Notification → ℕ → Outbox → Result StoreError Outbox
enqueue n now rows =
    if any (λ m. m.id == n.id) rows
    then err constraint
    else if n.channel == "email"
    then ok (
        rows
        ++ record n {
          status = Delivery.pending;
          attempts = 0;
          last_error = none;
          sent_at = none;
          created_at = now;
        }
          ∷ [])
    else err constraint

abbrev take_rows : ℕ → Outbox → Outbox
take_rows zero rows = []
take_rows (suc n) [] = []
take_rows (suc n) (m ∷ rows) = m ∷ take_rows n rows

unfoldable pub list_pending : ℕ → Outbox → Outbox
list_pending limit rows =
    take_rows limit (order_by (λ n. n.created_at) (keep (λ n. is_waiting n.status) rows))

-- These three are plain updates: a row that is not there is no error.
unfoldable pub mark_sent : String → ℕ → Outbox → Outbox
mark_sent id now rows =
    (update_where (λ n. n.id == id)
      (λ n. record n { status = Delivery.sent; sent_at = some now; attempts = n.attempts + 1 })
      rows).0

unfoldable pub record_failure : String → String → Outbox → Outbox
record_failure id last_err rows =
    (update_where (λ n. n.id == id)
      (λ n. record n { attempts = n.attempts + 1; last_error = some last_err }) rows).0

unfoldable pub mark_delivery_failed : String → String → Outbox → Outbox
mark_delivery_failed id last_err rows =
    (update_where (λ n. n.id == id)
      (λ n. record n {
        status = Delivery.failed;
        attempts = n.attempts + 1;
        last_error = some last_err;
      })
      rows).0
