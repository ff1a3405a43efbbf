-- ===== src/Approval/Worker.antt =====
-- internal/control/approvalworker.go: one round of the worker. It executes the approved bumps, takes
-- the expired ones back and delivers what waits in the outbox. Each loop counts what is done and what
-- has failed. How a budget and a time are printed, and the mail server, are parameters.
use Prim.Native.String.{◌++◌ as str_append}
use softmatrix_airlock.Base.{
  ℕ, suc, ◌+◌, String, Option, none, some, List, [], ◌∷◌, Result, ok, err, leb, if◌then◌else◌,
}
use softmatrix_airlock.Requests.Model.{Request, Event, Notification}
use softmatrix_airlock.Requests.Store.{
  mark_executed, mark_failed, record_attempt, mark_reclaimed, list_approved_bumps,
  list_expired_bumps,
}
use softmatrix_airlock.Requests.Outbox.{
  list_pending, mark_sent, record_failure, mark_delivery_failed,
}
use softmatrix_airlock.Effects.{
  Upstream, Error, incomplete_bump, cipher_failed, Act, pure, throw, lift, try, ◌>>=◌, reads,
  writes, on_requests, on_outbox, calls,
}
use softmatrix_airlock.Issuer.{Crypto, get_key, from_option}
use softmatrix_airlock.Approval.{Deps, enqueue_for}

abbrev pub max_execute_attempts : ℕ
max_execute_attempts = 5

abbrev pub max_deliver_attempts : ℕ
max_deliver_attempts = 5

abbrev pub deliver_batch_size : ℕ
deliver_batch_size = 50

pub record Printer : Type 0 where
  pub budget : ℕ → String
  pub time : Option ℕ → String
  pub error : Error → String

abbrev or_zero : Option ℕ → ℕ
or_zero none = 0
or_zero (some n) = n

-- The results of a loop: done, and failed.
abbrev pub Counts : Type 0
Counts = ℕ × ℕ

abbrev count : Result Error (Unit {0}) → Counts → Counts
count (ok u) (done, failures) = (suc done, failures)
count (err e) (done, failures) = (done, suc failures)

unfoldable pub executed_body : Printer → Request → ℕ → String
executed_body p r budget = str_append "申请单 " (
    str_append r.id (
      str_append " 的临时提额已生效，额度 " (
        str_append (p.budget budget)
          (str_append "，到期时间 " (str_append (p.time r.bump_expires_at) "。")))))

unfoldable pub reclaimed_body : Printer → Request → ℕ → String
reclaimed_body p r budget =
    str_append "申请单 "
      (str_append r.id (str_append " 的临时提额已到期，额度已恢复为 " (str_append (p.budget budget) "。")))

module _ {U : Type 0} (up : Upstream U) (crypto : Crypto) (deps : Deps) (print : Printer) where
  unfoldable pub notify_requester : Request → Event → String → String → ℕ → Act U (Unit {0})
  notify_requester r event subject body now = elim (deps.user_by_id r.requester_id) [
    | err e ↦ pure tt
    | ok u ↦ enqueue_for up crypto deps 0 r event u.email subject body now
  ]

  -- The bump of one key: the upstream's budget first, then the mark with the budget before.
  unfoldable pub execute_bump : Request → String → ℕ → ℕ → Act U (Unit {0})
  execute_bump r target budget now = do
    k ← reads (get_key up crypto target)
    key ← lift (from_option cipher_failed (crypto.decrypt k.upstream_key_enc))
    raised ← calls (up.update key budget)
    marked ← writes (on_requests (mark_executed r.id none (some (or_zero k.max_budget)) now))
    notify_requester r Event.executed "临时提额已生效" (executed_body print r budget) now

  unfoldable pub execute_one : Request → ℕ → Act U (Unit {0})
  execute_one r now = elim r.target_key_id [
    | none ↦ throw incomplete_bump
    | some target ↦ elim r.bump_to_budget [
      | none ↦ throw incomplete_bump
      | some budget ↦ execute_bump r target budget now
    ]
  ]

  unfoldable pub record_bump_failure : Request → Error → Act U (Unit {0})
  record_bump_failure r cause = do
    noted ← try (writes (on_requests (record_attempt r.id (print.error cause))))
    elim noted [
      | err e ↦ pure tt
      | ok u ↦
          if leb max_execute_attempts (r.attempts + 1)
          then (do
            gone ← try (writes (on_requests (mark_failed r.id (print.error cause))))
            pure tt)
          else pure tt
    ]

  abbrev after_execution : Request → Result Error (Unit {0}) → Act U (Unit {0})
  after_execution r (ok u) = pure tt
  after_execution r (err e) = record_bump_failure r e

  unfoldable pub execute_all : List Request → ℕ → Counts → Act U Counts
  execute_all [] now c = pure c
  execute_all (r ∷ rs) now c = do
    result ← try (execute_one r now)
    noted ← after_execution r result
    execute_all rs now (count result c)

  -- The source's error is that of a count of failures above 0.
  unfoldable pub execute_approved_bumps : ℕ → Act U Counts
  execute_approved_bumps now = do
    list ← reads (λ w. ok (list_approved_bumps w.requests))
    execute_all list now (0, 0)

  unfoldable pub reclaim_bump : Request → String → ℕ → ℕ → Act U (Unit {0})
  reclaim_bump r target budget now = do
    k ← reads (get_key up crypto target)
    key ← lift (from_option cipher_failed (crypto.decrypt k.upstream_key_enc))
    lowered ← calls (up.update key budget)
    marked ← writes (on_requests (mark_reclaimed r.id now))
    notify_requester r Event.reclaimed "临时提额已到期回收" (reclaimed_body print r budget) now

  unfoldable pub reclaim_one : Request → ℕ → Act U (Unit {0})
  reclaim_one r now = elim r.target_key_id [
    | none ↦ throw incomplete_bump
    | some target ↦ elim r.prev_budget [
      | none ↦ throw incomplete_bump
      | some budget ↦ reclaim_bump r target budget now
    ]
  ]

  unfoldable pub reclaim_all : List Request → ℕ → Counts → Act U Counts
  reclaim_all [] now c = pure c
  reclaim_all (r ∷ rs) now c = do
    result ← try (reclaim_one r now)
    reclaim_all rs now (count result c)

  unfoldable pub reclaim_expired_bumps : ℕ → Act U Counts
  reclaim_expired_bumps now = do
    list ← reads (λ w. ok (list_expired_bumps now w.requests))
    reclaim_all list now (0, 0)

  -- What is written after the mail server's answer; a failing statement is only logged.
  unfoldable pub after_send : Notification → ℕ → Result Error (Unit {0}) → Act U (Unit {0})
  after_send n now (ok u) = do
    marked ← try (writes (on_outbox (λ rows. ok (mark_sent n.id now rows))))
    pure tt
  after_send n now (err e) =
      if leb max_deliver_attempts (n.attempts + 1)
      then (do
        marked ←
            try (writes (on_outbox (λ rows. ok (mark_delivery_failed n.id (print.error e) rows))))
        pure tt)
      else (do
        marked ← try (writes (on_outbox (λ rows. ok (record_failure n.id (print.error e) rows))))
        pure tt)

  -- `send` is the mail server's answer to one message.
  unfoldable pub deliver_all :
      (Notification → Result Error (Unit {0})) → List Notification → ℕ → Counts → Act U Counts
  deliver_all send [] now c = pure c
  deliver_all send (n ∷ ns) now c = do
    noted ← after_send n now (send n)
    deliver_all send ns now (count (send n) c)

  unfoldable pub deliver_pending : (Notification → Result Error (Unit {0})) → ℕ → Act U Counts
  deliver_pending send now = do
    list ← reads (λ w. ok (list_pending deliver_batch_size w.outbox))
    deliver_all send list now (0, 0)
