-- ===== src/License/Window.antt =====
-- A licence that was verified at start-up, and the gate's answers afterwards.
use softmatrix_airlock.Base.{
  ℕ, ◌≤◌, ◌<◌, ◌≡◌, refl, sym, subst, ◌>>=◌, inl, inr, Bool, true, false, Option, some, Result, ok,
  err, arith, ltb, Bool-cases, Option-cases, Result-cases, if◌then◌else◌,
}
use softmatrix_airlock.Base.Int.{pos, leb_ℤ}
use softmatrix_airlock.Base.Text.{Text}
use softmatrix_airlock.License.{
  Payload, License, validate, is_version, split, license_of, verify_with, gate_status, allow_write,
  admitted, seats_full, admit_new_user,
}

seats_positive : (p : Payload) → validate p ≡ ok tt → leb_ℤ p.seats (pos 0) ≡ false
unfolding validate
seats_positive p h = ground arith

abbrev pub Windowed : ℕ → License → Type 1
Windowed now lic =
    (leb_ℤ lic.seats (pos 0) ≡ false)
    × (allow_write (some lic) now ≡ ltb now lic.expires_at)
    × ((E : Type 0) (count : Result E ℕ)
        → admit_new_user (some lic) now count ≡ ok admitted
        → (now < lic.expires_at)
          × ((used : ℕ) × (count ≡ ok used) × (leb_ℤ lic.seats (pos used) ≡ false)))

windowed :
    (p : Payload) (start now : ℕ)
    → start ≤ now
    → leb_ℤ p.seats (pos 0) ≡ false
    → Windowed now (license_of p start)
unfolding allow_write gate_status license_of admit_new_user
windowed p start now later seats = elim (Bool-cases (ltb start p.expires_at)) [
  | inl t ↦ elim (Bool-cases (ltb now p.expires_at)) [
    | inl u ↦ (seats, ground arith, λ E count h. (ground arith, used E count (rw (t, u) at h)))
    | inr u ↦ (seats, ground arith, λ E count h. absurd (ground arith))
  ]
  | inr t ↦ (seats, ground arith, λ E count h. absurd (ground arith))
]
  where
    used :
        (E : Type 0) (count : Result E ℕ)
        → (count >>= λ n. ok (if leb_ℤ p.seats (pos n) then seats_full n p.seats else admitted))
          ≡ ok admitted
        → (n : ℕ) × (count ≡ ok n) × (leb_ℤ p.seats (pos n) ≡ false)
    used E (err e) h = absurd (ground arith)
    used E (ok n) h = elim (Bool-cases (leb_ℤ p.seats (pos n))) [
      | inl f ↦ absurd (ground arith)
      | inr f ↦ (n, refl, f)
    ]

module _ (decode : Text → Option Text) (verify : Text → Text → Bool)
    (parse : Text → Option Payload) where
  -- What a licence that is accepted stands on.
  pub record Verified (raw : Text) (now : ℕ) (lic : License) : Type 0 where
    pub body : Text
    pub sig : Text
    pub parts : split decode raw ≡ ok (body, sig)
    pub signed : verify body sig ≡ true
    pub payload : Payload
    pub parsed : parse body ≡ some payload
    pub version : is_version payload.v ≡ true
    pub sound : validate payload ≡ ok tt
    pub made : lic ≡ license_of payload now

  verify_with-Verified :
      (raw : Text) (now : ℕ) (lic : License)
      → verify_with decode verify parse raw now ≡ ok lic
      → Verified raw now lic
  unfolding verify_with
  verify_with-Verified raw now lic h = elim (Result-cases (split decode raw)) [
    | inr (e, f) ↦ absurd (ground arith)
    | inl ((body, sig), f) ↦ elim (Bool-cases (verify body sig)) [
      | inr v ↦ absurd (ground arith)
      | inl v ↦ elim (Option-cases (parse body)) [
        | inl j ↦ absurd (ground arith)
        | inr (p, j) ↦ elim (Bool-cases (is_version p.v)) [
          | inr k ↦ absurd (ground arith)
          | inl k ↦ elim (Result-cases (validate p)) [
            | inr (e, w) ↦ absurd (ground arith)
            | inl (tt, w) ↦ record {
              body = body;
              sig = sig;
              parts = f;
              signed = v;
              payload = p;
              parsed = j;
              version = k;
              sound = w;
              made = ground arith;
            }
          ]
        ]
      ]
    ]
  ]

  -- A licence that is accepted at some instant was signed over the very bytes it was read from, and has
  -- seats. From then on the gate lets writes through exactly until the instant at which it ends, the
  -- instant itself not included; and a new user is admitted only before it, and while the active users are
  -- fewer than the seats.
  pub license_window :
      (raw : Text) (start now : ℕ) (lic : License)
      → start ≤ now
      → verify_with decode verify parse raw start ≡ ok lic
      → Verified raw start lic × Windowed now lic
  license_window raw start now lic later h =
      let v = verify_with-Verified raw start lic h in
      (
        v,
        subst (Windowed now) (sym v.made)
            (windowed v.payload start now later (seats_positive v.payload v.sound)),
      )
