-- ===== src/Issuer.antt =====
-- internal/control/keyissue.go: issue, clean up, revoke, rotate, and the scan that blocks revoked keys
-- upstream. Time is in nanoseconds, as in Go; `now` is the clock of the call. Random bytes and ids
-- are drawn by the caller, and the cipher, the hash and the upstream's server are parameters.
pub mod Owned
pub mod Cleanup
pub mod Stale
pub mod NoOrphans
pub mod Issue
pub mod Issued
pub mod Tests
use Prim.Native.String.{◌++◌ as str_append}
use softmatrix_airlock.Base.{
  ℕ, zero, suc, ◌+◌, ◌-◌, ◌*◌, ◌/◌, String, Bool, true, false, ◌&&◌, ◌||◌, not, Option, none, some,
  List, [], ◌∷◌, ◌++◌, Result, ok, err, ltb, leb, if◌then◌else◌, ◌==◌ as eq_ℕ,
}
use softmatrix_airlock.Base.Text.{Text, bytes}
use softmatrix_airlock.Base.Int.{ℤ, pos, negsuc}
use softmatrix_airlock.Keys.Model.{Status, ApiKey, Table}
use softmatrix_airlock.Keys.Store.{
  create_pending, mark_active, revoke, get, list_stale_pending, delete, rotate,
  list_revoked_unblocked, mark_upstream_blocked, record_block_attempt,
}
use softmatrix_airlock.Keys.Edge.{key_prefix}
use softmatrix_airlock.Effects.{
  UpstreamKey, Upstream, Error, keys_error, upstream_not_found, no_random, cipher_failed,
  org_not_key_holder, window_too_long, some_failed, World, Act, pure, throw, lift, try, ◌>>=◌,
  reads, writes, on_keys, calls, key_exists,
}

-- What the issuer reads of an organisation.
pub record Org : Type 0 where
  pub id : Text
  pub path : Text
  pub is_key_holder : Bool

pub record IssueRequest : Type 0 where
  pub org_id : Text
  pub user_id : String
  pub name : String
  pub models : List String
  pub max_budget : Option ℕ
  pub budget_duration : Option String
  pub rpm_limit : Option ℕ
  pub tpm_limit : Option ℕ
  pub expires_at : Option ℕ

-- What one issue draws: the base64 of random bytes, twice, and a uuid. No bytes: the source failed.
pub record Draw : Type 0 where
  pub body : Option Text
  pub upstream_body : Option String
  pub id : String

pub record Crypto : Type 0 where
  pub hash : Text → String
  pub encrypt : String → Option String
  pub decrypt : String → Option String

abbrev pub second : ℕ
second = 1000000000

abbrev pub hour : ℕ
hour = 3600 * second

abbrev pub default_rotation_window : ℕ
default_rotation_window = 24 * hour

abbrev pub max_rotation_window : ℕ
max_rotation_window = 30 * (24 * hour)

abbrev pub max_block_attempts : ℕ
max_block_attempts = 5

abbrev pub block_scan_batch_size : ℕ
block_scan_batch_size = 100

abbrev pub prefix_display_len : ℕ
prefix_display_len = 12

abbrev first : ℕ → Text → Text
first zero t = []
first (suc n) [] = []
first (suc n) (c ∷ t) = c ∷ first n t

pub record Generated : Type 0 where
  pub plaintext : Text
  pub key_hash : String
  pub prefix : Text

-- `apikey.Generate`
unfoldable pub generate : Crypto → Option Text → Result Error Generated
generate c none = err no_random
generate c (some body) =
    let plain : Text = key_prefix ++ body in
    ok (record {
      plaintext = plain;
      key_hash = c.hash plain;
      prefix = first prefix_display_len plain;
    })

abbrev pub new_upstream_key : Option String → Result Error String
new_upstream_key none = err no_random
new_upstream_key (some body) = ok (str_append "sk-airlock-" body)

abbrev pub from_option {ℓ} : {A : Type ℓ} → Error → Option A → Result Error A
from_option e none = err e
from_option e (some a) = ok a

-- The seconds until a time, at least one; the source adds the unit "s".
unfoldable pub relative_duration : Option ℕ → ℕ → Option ℕ
relative_duration none now = none
relative_duration (some t) now =
    let secs : ℕ = (t - now) / second in some (if ltb secs 1 then 1 else secs)

abbrev pub is_upstream_not_found : Error → Bool
is_upstream_not_found upstream_not_found = true
is_upstream_not_found _ = false

unfoldable pub new_key_row : IssueRequest → String → Generated → String → ApiKey
new_key_row req id g enc = record {
  id = id;
  key_hash = g.key_hash;
  key_prefix = g.prefix;
  org_id = req.org_id;
  user_id = req.user_id;
  name = req.name;
  upstream_key_enc = enc;
  status = Status.pending;
  models = req.models;
  max_budget = req.max_budget;
  budget_duration = req.budget_duration;
  rpm_limit = req.rpm_limit;
  tpm_limit = req.tpm_limit;
  expires_at = req.expires_at;
  prev_key_hash = none;
  prev_key_expires_at = none;
  rotated_at = none;
  upstream_blocked_at = none;
  upstream_block_attempts = 0;
  created_at = 0;
}

unfoldable pub upstream_request : IssueRequest → String → String → ℕ → UpstreamKey
upstream_request req id key now = record {
  key = key;
  key_alias = id;
  team_id = some req.org_id;
  models = req.models;
  max_budget = req.max_budget;
  budget_duration = req.budget_duration;
  rpm_limit = req.rpm_limit;
  tpm_limit = req.tpm_limit;
  duration = relative_duration req.expires_at now;
}

module _ {U : Type 0} (up : Upstream U) (crypto : Crypto) where
  -- What `cleanup` does once it knows whether the key stands upstream.
  unfoldable pub remove_known : String → String → Bool → Act U (Unit {0})
  remove_known id key exists = do
    deleted ← try (if exists then calls (up.remove key) else pure tt)
    elim deleted [
      | err e ↦ pure tt
      | ok u ↦ do dropped ← try (writes (on_keys (delete id))); pure tt
    ]

  unfoldable pub cleanup : String → String → Act U (Unit {0})
  cleanup id key = do
    found ← try (key_exists up key)
    elim found [ err e ↦ pure tt | ok exists ↦ remove_known id key exists ]

  -- A step of `issue` whose failure is cleaned up after.
  unfoldable pub or_cleanup : String → String → Act U (Unit {0}) → Act U (Unit {0})
  or_cleanup id key m = do
    r ← try m
    elim r [ ok u ↦ pure tt | err e ↦ do cleaned ← cleanup id key; throw e ]

  -- The part of `Issue` from its first write on.
  unfoldable pub issue_row :
      IssueRequest → Generated → String → String → String → ℕ → Act U (Text × ApiKey)
  issue_row req g id key enc now = do
    created ← writes (on_keys (create_pending (new_key_row req id g enc) now))
    generated ← or_cleanup id key (calls (up.generate (upstream_request req id key now)))
    marked ← or_cleanup id key (writes (on_keys (mark_active id)))
    pure (g.plaintext, record (new_key_row req id g enc) { status = Status.active })

  unfoldable pub issue : (Text → Result Error Org) → IssueRequest → Draw → ℕ → Act U (Text × ApiKey)
  issue get_org req draw now = do
    org ← reads (λ w. get_org req.org_id)
    if not org.is_key_holder then throw org_not_key_holder else (do
      g ← lift (generate crypto draw.body)
      key ← lift (new_upstream_key draw.upstream_body)
      enc ← lift (from_option cipher_failed (crypto.encrypt key))
      issue_row req g draw.id key enc now)

  abbrev pub get_key : String → World U → Result Error ApiKey
  get_key id w = elim (get id w.keys) [ ok k ↦ ok k | err e ↦ err (keys_error e) ]

  -- The part of `Revoke` that no failure reaches the caller from.
  unfoldable pub block_upstream : String → Option String → ℕ → Act U (Unit {0})
  block_upstream id none now = pure tt
  block_upstream id (some key) now = do
    blocked ← try (calls (up.block key))
    elim blocked [
      | err e ↦ pure tt
      | ok u ↦ do
        marked ← try (writes (on_keys (λ rows. ok (mark_upstream_blocked id now rows))))
        pure tt
    ]

  unfoldable pub revoke_key : String → ℕ → Act U (Unit {0})
  revoke_key id now = do
    k ← reads (get_key id)
    revoked ← writes (on_keys (revoke id))
    block_upstream id (crypto.decrypt k.upstream_key_enc) now

  -- The loop of `CleanupStalePending`, with `n` rows counted so far.
  unfoldable pub cleanup_all : List ApiKey → ℕ → Act U ℕ
  cleanup_all [] n = pure n
  cleanup_all (k ∷ ks) n = elim (crypto.decrypt k.upstream_key_enc) [
    | none ↦ cleanup_all ks n
    | some key ↦ do
      cleaned ← cleanup k.id key
      still ← try (reads (get_key k.id))
      cleanup_all ks (elim still [ ok k' ↦ n | err e ↦ suc n ])
  ]

  unfoldable pub cleanup_stale_pending : ℕ → ℕ → Act U ℕ
  cleanup_stale_pending older_than now = do
    stale ← reads (λ w. ok (list_stale_pending older_than now w.keys))
    cleanup_all stale 0

  -- The window of a rotation: 0 asks for the default.
  unfoldable pub window_of : ℤ → Result Error ℕ
  window_of (negsuc n) = err window_too_long
  window_of (pos n) =
      let w : ℕ = if eq_ℕ n 0 then default_rotation_window else n in
      if ltb max_rotation_window w then err window_too_long else ok w

  unfoldable pub rotate_key : String → ℤ → Option Text → ℕ → Act U (Text × ApiKey)
  rotate_key id window body now = do
    w ← lift (window_of window)
    g ← lift (generate crypto body)
    done ← writes (on_keys (rotate id g.key_hash g.prefix (now + w) now))
    k ← reads (get_key id)
    pure (g.plaintext, k)

  -- The log of an attempt that was the last is left out.
  unfoldable pub record_block_failure : ApiKey → Act U (Unit {0})
  record_block_failure k = do
    noted ← try (writes (on_keys (λ rows. ok (record_block_attempt k.id rows))))
    pure tt

  abbrev pub blocked_or_gone : Result Error (Unit {0}) → Bool
  blocked_or_gone (ok u) = true
  blocked_or_gone (err e) = is_upstream_not_found e

  -- What follows the call that blocks a key: what it adds to the count of the keys done and of the
  -- failures.
  unfoldable pub after_block : ApiKey → ℕ → Bool → Act U (ℕ × ℕ)
  after_block k now false = do noted ← record_block_failure k; pure (0, 1)
  after_block k now true = do
    marked ← try (writes (on_keys (λ rows. ok (mark_upstream_blocked k.id now rows))))
    pure (elim marked [ ok u ↦ 1 | err e ↦ 0 ], 0)

  -- The loop of `BlockPendingUpstream`, with what is done and what has failed so far.
  unfoldable pub block_all : List ApiKey → ℕ → ℕ → ℕ → Act U (ℕ × ℕ)
  block_all [] now done failures = pure (done, failures)
  block_all (k ∷ ks) now done failures = elim (crypto.decrypt k.upstream_key_enc) [
    | none ↦ do noted ← record_block_failure k; block_all ks now done (suc failures)
    | some key ↦ do
      blocked ← try (calls (up.block key))
      counts ← after_block k now (blocked_or_gone blocked)
      block_all ks now (done + counts.0) (failures + counts.1)
  ]

  -- The number that the source returns beside its error is kept with it here.
  unfoldable pub block_pending_upstream : ℕ → Act U (ℕ × Option Error)
  block_pending_upstream now = do
    list ← reads (λ w. ok (list_revoked_unblocked max_block_attempts block_scan_batch_size w.keys))
    counts ← block_all list now 0 0
    pure (counts.0, if ltb 0 counts.1 then some some_failed else none)
