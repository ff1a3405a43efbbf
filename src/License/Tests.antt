-- ===== src/License/Tests.antt =====
-- A toy codec and signature, a licence that is signed and read back, and the witnesses.
use softmatrix_airlock.Base.{
  ◌+◌, ◌-◌, ◌≡◌, refl, ap, Bool, true, Option, some, [], ◌∷◌, map, ok, arith,
}
use softmatrix_airlock.Base.Int.{pos}
use softmatrix_airlock.Base.Text.{Text, ◌==◌ as text_eq, eq_refl}
use softmatrix_airlock.Paths.{non_empty}
use softmatrix_airlock.License.{
  Status, Payload, License, validate, with_version, sign, split_dots, two_parts, split, license_of,
  verify_with,
}
use softmatrix_airlock.License.Window.{Verified, Windowed, license_window}
use softmatrix_airlock.License.Signed.{dot_free, IsBase64, IsSignature, verify_with-sign}

-- Each byte moves up by 47, past the dot.
abbrev encode : Text → Text
encode b = map (λ c. c + 47) b

abbrev decode : Text → Option Text
decode t = some (map (λ c. c - 47) t)

encode-decode : (b : Text) → map (λ c. c - 47) (encode b) ≡ b
encode-decode [] = refl
encode-decode (c ∷ b) = let e : (c + 47) - 47 ≡ c = omega arith in (λ i. e i ∷ encode-decode b i)

encode-dot_free : (b : Text) → dot_free (encode b) ≡ true
encode-dot_free [] = refl
encode-dot_free (c ∷ b) = ground (arith, encode-dot_free b)

encode-text : (b : Text) → non_empty b ≡ true → non_empty (encode b) ≡ true
encode-text [] h = h
encode-text (c ∷ b) h = refl

codec : IsBase64 encode decode
codec = record {
  back = λ b. ap some (encode-decode b);
  no_dot = encode-dot_free;
  has_text = encode-text;
}

abbrev sign_bytes : Text → Text
sign_bytes b = 9 ∷ b

abbrev verify : Text → Text → Bool
verify b s = text_eq s (9 ∷ b)

key : IsSignature sign_bytes verify
key = record { accepted = λ b. eq_refl (9 ∷ b); has_text = λ b. refl }

abbrev given : Payload
given = record {
  v = pos 0;
  license_id = "L-1";
  customer = "ACME";
  issued_at = 10;
  expires_at = 100;
  seats = pos 3;
}

abbrev print : Payload → Text
print p = 1 ∷ 2 ∷ []

abbrev parse : Text → Option Payload
parse t = some (record given { v = pos 1 })

abbrev raw : Text
raw = 48 ∷ 49 ∷ 46 ∷ 56 ∷ 48 ∷ 49 ∷ []

signed : sign encode print sign_bytes given ≡ ok raw
unfolding sign with_version validate
signed = refl

parsed : parse (print (with_version given)) ≡ some (with_version given)
unfolding with_version
parsed = refl

verify_with-sign_example :
    verify_with decode verify parse raw 50 ≡ ok (license_of (with_version given) 50)
verify_with-sign_example =
    verify_with-sign encode decode codec sign_bytes verify key print parse given raw 50 refl parsed
      signed

abbrev lic : License
lic = record {
  status = Status.valid;
  customer = "ACME";
  license_id = "L-1";
  issued_at = 10;
  expires_at = 100;
  seats = pos 3;
}

verified : verify_with decode verify parse raw 50 ≡ ok lic
unfolding verify_with split two_parts split_dots validate license_of text_eq
verified = refl

license_window_example : Verified decode verify parse raw 50 lic × Windowed 70 lic
license_window_example = license_window decode verify parse raw 50 70 lic (omega arith) verified
