-- ===== src/License.antt =====
-- internal/license/{license,sign}.go and internal/control/license.go: the signed licence, and the gate that
-- it is at run time. The signature, base64url and JSON are parameters; times are instants, with 0 for Go's
-- zero time.
pub mod Window
pub mod Signed
pub mod Tests
use softmatrix_airlock.Base.{
  ℕ, suc, String, Bool, true, false, ◌&&◌, ◌||◌, not, Option, none, some, List, [], ◌∷◌, ◌++◌,
  Result, ok, err, ◌>>=◌, ltb, leb, if◌then◌else◌, ◌==◌ as eq_ℕ,
}
use softmatrix_airlock.Base.Int.{ℤ, pos, leb_ℤ}
use softmatrix_airlock.Base.Text.{Text}
use softmatrix_airlock.Paths.{non_empty}
use text.Mathlib.Text.{◌==◌}

pub data Status : Type 0 where
  valid expired trial : Status

pub data LicenseError : Type 0 where
  malformed bad_signature invalid_json : LicenseError
  unsupported_version : ℤ → LicenseError
  invalid_seats : ℤ → LicenseError
  no_customer no_license_id no_expiry : LicenseError

pub record Payload : Type 0 where
  pub v : ℤ
  pub license_id : String
  pub customer : String
  pub issued_at : ℕ
  pub expires_at : ℕ
  pub seats : ℤ

pub record License : Type 0 where
  pub status : Status
  pub customer : String
  pub license_id : String
  pub issued_at : ℕ
  pub expires_at : ℕ
  pub seats : ℤ

unfoldable pub trial_license : License
trial_license = record {
  status = Status.trial;
  customer = "";
  license_id = "";
  issued_at = 0;
  expires_at = 0;
  seats = pos 5;
}

unfoldable pub validate : Payload → Result LicenseError (Unit {0})
validate p =
    if leb_ℤ p.seats (pos 0)
    then err (invalid_seats p.seats)
    else if p.customer == ""
    then err no_customer
    else if p.license_id == ""
    then err no_license_id
    else if eq_ℕ p.expires_at 0
    then err no_expiry
    else ok tt

abbrev pub dot : ℕ
dot = 46

-- strings.Split(s, "."): the first part, and the parts behind it.
unfoldable pub split_dots : Text → Text × List Text
split_dots [] = ([], [])
split_dots (c ∷ cs) =
    let (w, ws) = split_dots cs in if eq_ℕ c dot then ([], w ∷ ws) else (c ∷ w, ws)

abbrev pub is_version : ℤ → Bool
is_version v = leb_ℤ v (pos 1) && leb_ℤ (pos 1) v

abbrev pub is_zero : ℤ → Bool
is_zero v = leb_ℤ v (pos 0) && leb_ℤ (pos 0) v

module _ (decode : Text → Option Text) where
  unfoldable pub two_parts : Text × List Text → Result LicenseError (Text × Text)
  two_parts (a, []) = err malformed
  two_parts (a, b ∷ c ∷ rest) = err malformed
  two_parts (a, b ∷ []) =
      if not (non_empty a) || not (non_empty b) then err malformed else elim (decode a) [
        | none ↦ err malformed
        | some body ↦ elim (decode b) [ none ↦ err malformed | some sig ↦ ok (body, sig) ]
      ]

  unfoldable pub split : Text → Result LicenseError (Text × Text)
  unfolding two_parts
  split raw = two_parts (split_dots raw)

-- Before the instant the licence is valid.
unfoldable pub license_of : Payload → ℕ → License
license_of p now = record {
  status = if ltb now p.expires_at then Status.valid else Status.expired;
  customer = p.customer;
  license_id = p.license_id;
  issued_at = p.issued_at;
  expires_at = p.expires_at;
  seats = p.seats;
}

module _ (decode : Text → Option Text) (verify : Text → Text → Bool)
    (parse : Text → Option Payload) where
  -- The signature is checked before the payload is parsed.
  unfoldable pub verify_with : Text → ℕ → Result LicenseError License
  unfolding split license_of
  verify_with raw now = do
    (body, sig) ← split decode raw
    if not (verify body sig) then err bad_signature else elim (parse body) [
      | none ↦ err invalid_json
      | some p ↦
          if not (is_version p.v)
          then err (unsupported_version p.v)
          else (do tt ← validate p; ok (license_of p now))
    ]

-- A blank version is the current one.
unfoldable pub with_version : Payload → Payload
with_version p = if is_zero p.v then record p { v = pos 1 } else p

-- internal/license/sign.go
module _ (encode : Text → Text) (print : Payload → Text) (sign_bytes : Text → Text) where
  unfoldable pub sign : Payload → Result LicenseError Text
  unfolding with_version
  sign given =
      let p = with_version given in
      if not (is_version p.v)
      then err (unsupported_version p.v)
      else (do tt ← validate p; ok (encode (print p) ++ dot ∷ encode (sign_bytes (print p))))

-- `LicenseGate`; a nil gate is `none`.
abbrev pub Gate : Type 0
Gate = Option License

unfoldable pub gate_license : Gate → License
unfolding trial_license
gate_license none = trial_license
gate_license (some lic) = lic

unfoldable pub gate_status : Gate → ℕ → Status
gate_status none now = Status.trial
gate_status (some lic) now = elim lic.status [
  | valid ↦ if ltb now lic.expires_at then Status.valid else Status.expired
  | expired ↦ Status.expired
  | trial ↦ Status.trial
]

abbrev pub is_expired : Status → Bool
is_expired Status.valid = false
is_expired Status.expired = true
is_expired Status.trial = false

-- True where `AllowWrite` has no error.
unfoldable pub allow_write : Gate → ℕ → Bool
unfolding gate_status
allow_write none now = true
allow_write (some lic) now = not (is_expired (gate_status (some lic) now))

pub data Admission : Type 0 where
  admitted license_is_expired : Admission
  seats_full : ℕ → ℤ → Admission

-- The count of active users may fail.
unfoldable pub admit_new_user : {E : Type 0} → Gate → ℕ → Result E ℕ → Result E Admission
unfolding gate_status
admit_new_user none now count = ok admitted
admit_new_user (some lic) now count =
    if is_expired (gate_status (some lic) now) then ok license_is_expired else (do
      used ← count
      ok (if leb_ℤ lic.seats (pos used) then seats_full used lic.seats else admitted))
