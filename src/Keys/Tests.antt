-- ===== src/Keys/Tests.antt =====
-- A table with two keys, and runs on it. The hash of a text is the text's first byte as a name.
use softmatrix_airlock.Base.{
  keep, not, ◌≡◌, ◌≢◌, refl, ◌⊎◌, String, Bool, true, false, Option, none, some, List, [], ◌∷◌, All,
  find, ok, err, arith, ltb, if◌then◌else◌,
}
use softmatrix_airlock.Base.Text.{Text, bytes, has_prefix, ◌==◌ as text_eq}
use softmatrix_airlock.Sql.{update_where, like, below_clause, IsPlain}
use softmatrix_airlock.Sql.Like.{below_clause-in_subtree}
use softmatrix_airlock.Paths.{in_subtree}
use softmatrix_airlock.Keys.Model.{
  constraint, Status, is_active, ApiKey, Table, OrgPath, key_not_active, api_key_not_found,
}
use softmatrix_airlock.Keys.Store.{
  has_key_id, get, set_status, revoke, mark_active, revoke_all, rotated, hash_taken, breaks_index,
  rotate, revoke_by_org_subtree,
}
use softmatrix_airlock.Keys.Edge.{
  Key, bad_key, trim_prefix, validate, answers_to, validate_format, by_hash, admit, authenticate,
}
use softmatrix_airlock.Sql.Ids.{UniqueIds}
use softmatrix_airlock.Keys.Rows.{key_ids}
use softmatrix_airlock.Keys.Revocation.{
  Revoked, revoke_by_org_subtree-Revoked, mark_active-after-revoke_all,
}
use softmatrix_airlock.Keys.Rotation.{rotate-guarded}
use softmatrix_airlock.Keys.Window.{rotation_window}
use softmatrix_airlock.Keys.Admission.{Admitted, authenticate-Admitted, revoked-not-admitted}
use text.Mathlib.TextEquality.{eq_iff}

abbrev key : String → String → Status → Text → ApiKey
key i h s o = record {
  id = i;
  key_hash = h;
  key_prefix = bytes "ak-";
  org_id = o;
  user_id = "u";
  name = "";
  upstream_key_enc = "enc";
  status = s;
  models = [];
  max_budget = none;
  budget_duration = none;
  rpm_limit = none;
  tpm_limit = none;
  expires_at = none;
  prev_key_hash = none;
  prev_key_expires_at = none;
  rotated_at = none;
  upstream_blocked_at = none;
  upstream_block_attempts = 0;
  created_at = 0;
}

abbrev rd : Text
rd = bytes "rd"

abbrev k1 : ApiKey
k1 = key "k1" "h1" Status.active rd

abbrev k2 : ApiKey
k2 = key "k2" "h2" Status.pending (bytes "rd2")

abbrev rows : Table
rows = k1 ∷ k2 ∷ []

abbrev orgs : List OrgPath
orgs =
    record { id = rd; path = bytes "/root/rd" }
    ∷ record { id = bytes "rd2"; path = bytes "/root/rd2" }
    ∷ []

IsPlain-path : IsPlain (bytes "/root/rd")
IsPlain-path = (refl, (refl, (refl, (refl, (refl, (refl, (refl, (refl, tt))))))))

below_clause-in_subtree_example :
    below_clause (bytes "/root/rd") (bytes "/root/rd2")
    ≡ in_subtree (bytes "/root/rd") (bytes "/root/rd2")
below_clause-in_subtree_example =
    below_clause-in_subtree (bytes "/root/rd") (bytes "/root/rd2") IsPlain-path

revoke_by_org_subtree-Revoked_example :
    Revoked orgs
      (bytes "/root/rd")
      rows
      (revoke_by_org_subtree orgs (bytes "/root/rd") rows).0
      (revoke_by_org_subtree orgs (bytes "/root/rd") rows).1
revoke_by_org_subtree-Revoked_example =
    revoke_by_org_subtree-Revoked orgs (bytes "/root/rd") rows IsPlain-path

one_revoked : (revoke_by_org_subtree orgs (bytes "/root/rd") rows).1 ≡ 1
unfolding revoke_by_org_subtree update_where below_clause like text_eq
one_revoked = refl

k2_here : get "k2" rows ≡ ok k2
unfolding get
k2_here = refl

mark_active-after-revoke_all_example :
    (rows' : Table) × (mark_active "k2" (revoke_all rows).0 ≡ ok rows')
    × (get "k2" rows' ≡ ok (record k2 { status = Status.active }))
mark_active-after-revoke_all_example = mark_active-after-revoke_all "k2" rows k2 k2_here

unique : UniqueIds rows
unique = (refl, (refl, tt))

rotate-guarded_example :
    ((k : ApiKey) × (get "k1" rows ≡ ok k)
      × (is_active k.status ≡ true)
      × (((hash_taken "k1" "h3" k.key_hash rows ≡ false)
            × ((rows' : Table) × (rotate "k1" "h3" (bytes "ak-") 50 20 rows ≡ ok rows')
                × (get "k1" rows' ≡ ok (rotated "h3" (bytes "ak-") 50 20 k))
                × (keep (λ r. not (has_key_id "k1" r)) rows'
                    ≡ keep (λ r. not (has_key_id "k1" r)) rows)))
          ⊎ ((hash_taken "k1" "h3" k.key_hash rows ≡ true)
              × (rotate "k1" "h3" (bytes "ak-") 50 20 rows ≡ err constraint))))
    ⊎ (((k : ApiKey) × (get "k1" rows ≡ ok k)
          × (is_active k.status ≡ false)
          × (rotate "k1" "h3" (bytes "ak-") 50 20 rows ≡ err key_not_active))
        ⊎ ((get "k1" rows ≡ err api_key_not_found)
            × (rotate "k1" "h3" (bytes "ak-") 50 20 rows ≡ err api_key_not_found)))
rotate-guarded_example = rotate-guarded "k1" "h3" (bytes "ak-") 50 20 rows unique

abbrev k1_rotated : ApiKey
k1_rotated = record k1 {
  key_hash = "h3";
  prev_key_hash = some "h1";
  prev_key_expires_at = some 50;
  rotated_at = some 20;
}

k1_here : get "k1" rows ≡ ok k1
unfolding get
k1_here = refl

k1_rotates : rotate "k1" "h3" (bytes "ak-") 50 20 rows ≡ ok (k1_rotated ∷ k2 ∷ [])
unfolding rotate breaks_index hash_taken update_where
k1_rotates = refl

-- The hash of another key.
k1_clashes : rotate "k1" "h2" (bytes "ak-") 50 20 rows ≡ err constraint
unfolding rotate breaks_index hash_taken update_where
k1_clashes = refl

rotation_window_example :
    (find (answers_to "h3" 60) (k1_rotated ∷ k2 ∷ []) ≡ some (rotated "h3" (bytes "ak-") 50 20 k1))
    × (find (answers_to "h1" 60) (k1_rotated ∷ k2 ∷ [])
        ≡ (if ltb 60 50 then some (rotated "h3" (bytes "ak-") 50 20 k1) else none))
    × ((older : String)
        → older ≢ "h3"
        → older ≢ "h1"
        → All (λ r. has_key_id "k1" r ≡ false → answers_to older 60 r ≡ false) rows
        → find (answers_to older 60) (k1_rotated ∷ k2 ∷ []) ≡ none)
unfolding answers_to
rotation_window_example =
    rotation_window "k1" "h3" (bytes "ak-") 50 20 rows (k1_rotated ∷ k2 ∷ []) k1 unique k1_here refl
      k1_rotates 60 (ground (arith, eq_iff "h1" "h3")) ((λ e. cc e), ((λ _. refl), tt))
      ((λ e. cc e), ((λ _. refl), tt))

abbrev hash : Text → String
hash t = "h1"

abbrev decrypt : String → Option String
decrypt s = some "sk"

abbrev decodes : Text → Bool
decodes t = true

abbrev trim_space : Text → Text
trim_space t = t

abbrev header : Text
header = bytes "Bearer ak-0123456789012345678901234567890123456789012"

abbrev k1_key : Key
k1_key = record {
  id = "k1";
  prefix = bytes "ak-";
  org_id = rd;
  user_id = "u";
  upstream_key = "sk";
  status = Status.active;
  expires_at = none;
  via_prev_key = false;
  prev_key_expires_at = none;
}

k1_admitted : authenticate hash decrypt decodes trim_space header 5 rows ≡ ok k1_key
unfolding authenticate text_eq has_prefix trim_prefix validate_format by_hash answers_to admit
    validate
k1_admitted = refl

authenticate-Admitted_example : Admitted hash decrypt decodes trim_space header 5 rows k1_key
authenticate-Admitted_example =
    authenticate-Admitted hash decrypt decodes trim_space header 5 rows k1_key k1_admitted

unknown_refused :
    authenticate hash decrypt decodes trim_space (bytes "Bearer x") 5 rows ≡ err bad_key
unfolding authenticate text_eq has_prefix trim_prefix validate_format
unknown_refused = refl

k2_revoked : revoke "k2" rows ≡ ok (k1 ∷ key "k2" "h2" Status.revoked (bytes "rd2") ∷ [])
unfolding revoke set_status update_where
k2_revoked = refl

k1_still :
    authenticate hash decrypt decodes trim_space header 5
      (k1 ∷ key "k2" "h2" Status.revoked (bytes "rd2") ∷ [])
    ≡ ok k1_key
unfolding authenticate text_eq has_prefix trim_prefix validate_format by_hash answers_to admit
    validate
k1_still = refl

revoked-not-admitted_example : k1_key.id ≢ "k2"
revoked-not-admitted_example =
    revoked-not-admitted hash decrypt decodes trim_space "k2" rows
      (k1 ∷ key "k2" "h2" Status.revoked (bytes "rd2") ∷ []) header 5 k1_key k2_revoked k1_still
