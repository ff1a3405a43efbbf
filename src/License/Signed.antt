-- ===== src/License/Signed.antt =====
-- internal/license/sign.go against license.go: what is signed is what is verified.
use softmatrix_airlock.Base.{
  ℕ, ◌≡◌, refl, inl, inr, Bool, true, false, Option, some, [], ◌∷◌, ◌++◌, ok, arith, Bool-cases,
  Result-cases, if◌then◌else◌, ◌==◌ as eq_ℕ,
}
use softmatrix_airlock.Base.Text.{Text}
use softmatrix_airlock.Paths.{non_empty}
use softmatrix_airlock.License.{
  Payload, validate, dot, split_dots, is_version, two_parts, split, license_of, verify_with,
  with_version, sign,
}

abbrev pub dot_free : Text → Bool
dot_free [] = true
dot_free (c ∷ cs) = if eq_ℕ c dot then false else dot_free cs

-- base64url: it is decoded back, has no dot, and is empty for nothing only.
pub record IsBase64 (encode : Text → Text) (decode : Text → Option Text) : Type 0 where
  pub back : (b : Text) → decode (encode b) ≡ some b
  pub no_dot : (b : Text) → dot_free (encode b) ≡ true
  pub has_text : (b : Text) → non_empty b ≡ true → non_empty (encode b) ≡ true

-- ed25519 with a key and its public half: a signature is not empty, and is accepted.
pub record IsSignature (sign_bytes : Text → Text) (verify : Text → Text → Bool) : Type 0 where
  pub accepted : (b : Text) → verify b (sign_bytes b) ≡ true
  pub has_text : (b : Text) → non_empty (sign_bytes b) ≡ true

split_dots-free : (b : Text) → dot_free b ≡ true → split_dots b ≡ (b, [])
unfolding split_dots
split_dots-free [] h = refl
split_dots-free (c ∷ b) h = elim (Bool-cases (eq_ℕ c dot)) [
  | inl t ↦ absurd (ground arith)
  | inr f ↦ rw (split_dots-free b (ground arith), f) refl
]

split_dots-two :
    (a b : Text) → dot_free a ≡ true → dot_free b ≡ true → split_dots (a ++ dot ∷ b) ≡ (a, b ∷ [])
unfolding split_dots
split_dots-two [] b h k = rw (split_dots-free b k) refl
split_dots-two (c ∷ a) b h k = elim (Bool-cases (eq_ℕ c dot)) [
  | inl t ↦ absurd (ground arith)
  | inr f ↦ rw (split_dots-two a b (ground arith) k, f) refl
]

module _ (encode : Text → Text) (decode : Text → Option Text) (codec : IsBase64 encode decode) where
  split-encoded :
      (body sig : Text)
      → non_empty body ≡ true
      → non_empty sig ≡ true
      → split decode (encode body ++ dot ∷ encode sig) ≡ ok (body, sig)
  unfolding split two_parts
  split-encoded body sig h k =
      rw (split_dots-two (encode body) (encode sig) (codec.no_dot body) (codec.no_dot sig))
        (rw (codec.has_text body h, codec.has_text sig k, codec.back body, codec.back sig) refl)

  -- What `Sign` writes, `Verify` reads: the licence that comes back has the fields of the payload that was
  -- signed (with the version filled in where it was blank), and is valid or expired by its last instant.
  -- The codecs and the signature do what is documented of them, and the JSON of this payload is not empty
  -- and parses back.
  pub verify_with-sign :
      (sign_bytes : Text → Text) (verify : Text → Text → Bool)
      → IsSignature sign_bytes verify
      → (print : Payload → Text) (parse : Text → Option Payload) (given : Payload) (raw : Text)
        (now : ℕ)
      → non_empty (print (with_version given)) ≡ true
      → parse (print (with_version given)) ≡ some (with_version given)
      → sign encode print sign_bytes given ≡ ok raw
      → verify_with decode verify parse raw now ≡ ok (license_of (with_version given) now)
  unfolding sign verify_with
  verify_with-sign sign_bytes verify key print parse given raw now text reads h =
      let p = with_version given in
      elim (Bool-cases (is_version p.v)) [
        | inr f ↦ absurd (ground arith)
        | inl v ↦ elim (Result-cases (validate p)) [
          | inr (e, f) ↦ absurd (ground arith)
          | inl (tt, f) ↦
              let e : encode (print p) ++ dot ∷ encode (sign_bytes (print p)) ≡ raw =
                ground arith in
              rw (← e, split-encoded (print p) (sign_bytes (print p)) text (key.has_text (print p)))
                (rw (key.accepted (print p), reads, v, f) refl)
        ]
      ]
