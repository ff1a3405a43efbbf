-- ===== src/Issuer/Tests.antt =====
-- An upstream that is a list of keys, a cipher that writes a key as it is, and runs of the issuer.
use softmatrix_airlock.Keys.Store.{has_key_id}
use softmatrix_airlock.Effects.{reads}
use softmatrix_airlock.Base.{
  ◌≡◌, refl, sym, ap, ◌⊎◌, inl, inr, String, Bool, true, false, not, none, some, List, [], ◌∷◌, any,
  keep, Result, ok, arith, Bool-cases, if◌then◌else◌,
}
use softmatrix_airlock.Base.Text.{Text, bytes}
use softmatrix_airlock.Effects.{
  Upstream, replied, not_found, fine, lost_after, Error, World, writes, calls,
}
use softmatrix_airlock.Sql.{update_where}
use softmatrix_airlock.Keys.Model.{Status, is_active, ApiKey}
use softmatrix_airlock.Keys.Store.{create_pending, pending_row, mark_active, set_status}
use softmatrix_airlock.Issuer.{
  Org, Crypto, IssueRequest, Draw, Generated, new_key_row, issue, generate, issue_row, or_cleanup,
  upstream_request,
}
use softmatrix_airlock.Issuer.Issued.{issued_row}
use softmatrix_airlock.Issuer.Owned.{Documented, SoundCrypto, Inv}
use softmatrix_airlock.Issuer.NoOrphans.{
  Action, issues, revokes, cleans, blocks, perform_all, no_orphans,
}
use text.Mathlib.Text.{◌==◌}
use text.Mathlib.TextEquality.{eq_iff}

abbrev has : String → List String → Bool
has v u = any (λ x. x == v) u

abbrev pub listed : Upstream (List String)
listed = record {
  generate = λ k u. (replied, k.key ∷ u);
  info = λ key u. (if has key u then replied else not_found, u);
  block = λ key u. (if has key u then replied else not_found, u);
  remove = λ key u. (replied, keep (λ x. not (x == key)) u);
  update = λ key budget u. (if has key u then replied else not_found, u);
}

has-keep :
    (key v : String) (u : List String)
    → has v (keep (λ x. not (x == key)) u) ≡ true
    → has v u ≡ true
has-keep key v [] h = h
has-keep key v (x ∷ u) h = ground (arith, has-keep key v u)

has-removed : (key : String) (u : List String) → has key (keep (λ x. not (x == key)) u) ≡ false
has-removed key [] = refl
has-removed key (x ∷ u) = ground (arith, has-removed key u)

adds : (key v : String) (u : List String) → has v (key ∷ u) ≡ true → (v ≡ key) ⊎ (has v u ≡ true)
adds key v u h = elim (Bool-cases (key == v)) [
  | inl e ↦ inl (sym ((eq_iff key v).0 e))
  | inr e ↦ inr (ground arith)
]

found :
    (key : String) (u : List String)
    → (if has key u then replied else not_found) ≡ not_found
    → has key u ≡ false
found key u h = ground arith

abbrev doc : Documented listed
doc = record {
  has = has;
  generate_adds = λ k v u h. adds k.key v u h;
  generate_replied = λ k u h. first k.key u;
  info_same = λ key v u. refl;
  info_not_found = λ key u h. found key u h;
  block_same = λ key v u. refl;
  remove_only = has-keep;
  remove_replied = λ key u h. has-removed key u;
  update_same = λ key v b u. refl;
}
  where
    first : (key : String) (u : List String) → has key (key ∷ u) ≡ true
    first key u = let e = (eq_iff key key).1 refl in ground arith

abbrev pub crypto : Crypto
crypto = record { hash = λ t. "h"; encrypt = λ v. some v; decrypt = λ e. some e }

sound : SoundCrypto crypto
sound = record {
  opens = λ v e h. ap (λ o. crypto.decrypt (elim o [ none ↦ v | some x ↦ x ])) (sym h);
}

abbrev get_org : Text → Result Error Org
get_org o = ok (record { id = o; path = bytes "/rd"; is_key_holder = true })

abbrev request : IssueRequest
request = record {
  org_id = bytes "rd";
  user_id = "u";
  name = "ci";
  models = [];
  max_budget = none;
  budget_duration = none;
  rpm_limit = none;
  tpm_limit = none;
  expires_at = none;
}

abbrev draw : Draw
draw = record { body = some (bytes "abcdefghijklmnop"); upstream_body = some "XYZ"; id = "k1" }

-- The answer of MarkActive is lost.
abbrev start : World (List String)
start = record {
  keys = [];
  requests = [];
  outbox = [];
  upstream = [];
  faults = fine ∷ fine ∷ lost_after ∷ [];
}

abbrev actions : List Action
actions =
    issues get_org request draw 5
    ∷ cleans 1 9
    ∷ issues get_org request draw 9
    ∷ revokes "k1" 10
    ∷ blocks 11
    ∷ []

empty_Inv : Inv crypto doc [] []
empty_Inv = (tt, λ v h. absurd (no_key v h))
  where
    no_key : (v : String) → doc.has v [] ≡ true → ⊥
    no_key v h = ground arith

no_orphans_example :
    Inv crypto doc
      (perform_all listed crypto start actions).keys
      (perform_all listed crypto start actions).upstream
no_orphans_example = no_orphans crypto doc sound actions start empty_Inv

-- Every statement goes well.
abbrev calm : World (List String)
calm = record { keys = []; requests = []; outbox = []; upstream = []; faults = [] }

abbrev plain : Text
plain = bytes "ak-abcdefghijklmnop"

abbrev drawn : Generated
drawn = record { plaintext = plain; key_hash = crypto.hash plain; prefix = bytes "ak-abcdefghi" }

abbrev issued_key : ApiKey
issued_key = record (new_key_row request "k1" drawn "sk-airlock-XYZ") { status = Status.active }

issues_key : (issue listed crypto get_org request draw 5 calm).0 ≡ ok (plain, issued_key)
unfolding issue generate issue_row or_cleanup reads writes calls create_pending pending_row
    mark_active set_status update_where new_key_row upstream_request
issues_key = refl

issued_row_example :
    ((issue listed crypto get_org request draw 5 calm).1.keys
      ≡ record issued_key { created_at = 5 } ∷ [])
    × (any (has_key_id issued_key.id) [] ≡ false)
    × (is_active issued_key.status ≡ true)
    × (issued_key.key_hash ≡ crypto.hash plain)
    × ((v : String) × (crypto.decrypt issued_key.upstream_key_enc ≡ some v)
        × (doc.has v (issue listed crypto get_org request draw 5 calm).1.upstream ≡ true))
    × (issued_key.org_id ≡ request.org_id)
    × (issued_key.user_id ≡ request.user_id)
    × (issued_key.max_budget ≡ request.max_budget)
    × ((o : Org) × (get_org request.org_id ≡ ok o) × (o.is_key_holder ≡ true))
issued_row_example =
    issued_row crypto doc sound get_org request draw 5 calm plain issued_key issues_key
