-- ===== src/Keys/Admission.antt =====
-- Who gets past `Authenticate`, and what a refusal tells.
use softmatrix_airlock.Base.{
  ℕ, ◌≡◌, ◌≢◌, refl, sym, ap, subst, ◌∙◌, inl, inr, String, Bool, true, false, Option, some, [],
  ◌∷◌, All, Some, find, ok, err, arith, Bool-cases, Option-cases, Result-cases,
}
use softmatrix_airlock.Base.Text.{Text, has_prefix, ◌==◌ as text_eq}
use softmatrix_airlock.Keys.Model.{Status, is_active, ApiKey, Table}
use text.Mathlib.TextEquality.{eq_iff}
use softmatrix_airlock.Sql.{update_where}
use softmatrix_airlock.Keys.Store.{has_key_id, set_status, revoke}
use softmatrix_airlock.Keys.Edge.{
  Key, bearer_prefix, trim_prefix, not_after, answers_to, AuthError, bad_key, validate_format,
  by_hash, admit, authenticate,
}

find-Some :
    (test : ApiKey → Bool) (rows : Table) (k : ApiKey)
    → find test rows ≡ some k
    → Some (λ r. r ≡ k) rows × (test k ≡ true)
find-Some test [] k h = absurd (ground arith)
find-Some test (r ∷ rows) k h = elim (Bool-cases (test r)) [
  | inl e ↦ let q : r ≡ k = ground arith in (inl q, ap test (sym q) ∙ e)
  | inr e ↦ let (m, t) = find-Some test rows k (ground arith) in (inr m, t)
]

All-revoked :
    (id : String) (rs : Table)
    → All
        (λ r. has_key_id id r ≡ true → is_active r.status ≡ false)
        (update_where (has_key_id id) (λ k. record k { status = Status.revoked }) rs).0
unfolding update_where
All-revoked id [] = tt
All-revoked id (r ∷ rs) = elim (Bool-cases (has_key_id id r)) [
  | inl e ↦ rw e (λ _. refl, All-revoked id rs)
  | inr e ↦ rw e (λ t. absurd (cc (t, e)), All-revoked id rs)
]

revoked-All :
    (id : String) (rows rows' : Table)
    → revoke id rows ≡ ok rows'
    → All (λ r. has_key_id id r ≡ true → is_active r.status ≡ false) rows'
unfolding revoke set_status
revoked-All id rows rows' h =
    let e : (update_where (has_key_id id) (λ k. record k { status = Status.revoked }) rows).0
        ≡ rows' =
      ground arith in
    subst (All (λ r. has_key_id id r ≡ true → is_active r.status ≡ false)) e (All-revoked id rows)

All-Some :
    (P : ApiKey → Type 0) (rows : Table) (k : ApiKey) → All P rows → Some (λ r. r ≡ k) rows → P k
All-Some P [] k a m = absurd m
All-Some P (r ∷ rows) k a (inl e) = subst P e a.0
All-Some P (r ∷ rows) k a (inr m) = All-Some P rows k a.1 m

not_empty : (raw : Text) → has_prefix raw bearer_prefix ≡ true → text_eq raw [] ≡ false
unfolding has_prefix text_eq
not_empty [] h = ground arith
not_empty (c ∷ raw) h = refl

module _ (hash : Text → String) (decrypt : String → Option String) (decodes : Text → Bool)
    (trim_space : Text → Text) where
  -- The credential of a header.
  abbrev pub plain_of : Text → Text
  plain_of raw = trim_space (trim_prefix raw bearer_prefix)

  -- A request is admitted on the strength of a row of the table.
  pub record Admitted (raw : Text) (now : ℕ) (rows : Table) (key : Key) : Type 0 where
    pub bearer : has_prefix raw bearer_prefix ≡ true
    pub well_formed : validate_format hash decrypt decodes trim_space (plain_of raw) ≡ ok tt
    pub row : ApiKey
    pub member : Some (λ r. r ≡ row) rows
    pub credential : answers_to (hash (plain_of raw)) now row ≡ true
    pub active : is_active row.status ≡ true
    pub unexpired : not_after now row.expires_at ≡ false
    pub same_key : key.id ≡ row.id
    pub upstream : decrypt row.upstream_key_enc ≡ some key.upstream_key

  admit-ok :
      (k key : Key) (now : ℕ)
      → admit hash decrypt decodes trim_space k now ≡ ok key
      → (key ≡ k) × (is_active k.status ≡ true) × (not_after now k.expires_at ≡ false)
  unfolding admit
  admit-ok k key now h = ground arith

  admit-403 :
      (k : Key) (now : ℕ) (e : AuthError)
      → admit hash decrypt decodes trim_space k now ≡ err e
      → e.status ≡ 403
  unfolding admit
  admit-403 k now e h = ground arith

  by_hash-ok :
      (h : String) (now : ℕ) (rows : Table) (key : Key)
      → by_hash hash decrypt decodes trim_space h now rows ≡ ok key
      → (row : ApiKey) × (find (answers_to h now) rows ≡ some row)
        × (key.id ≡ row.id)
        × (key.status ≡ row.status)
        × (key.expires_at ≡ row.expires_at)
        × (decrypt row.upstream_key_enc ≡ some key.upstream_key)
  unfolding by_hash
  by_hash-ok h now rows key e = elim (Option-cases (find (answers_to h now) rows)) [
    | inl lost ↦ absurd (ground arith)
    | inr (row, here) ↦ elim (Option-cases (decrypt row.upstream_key_enc)) [
      | inl z ↦ absurd (ground arith)
      | inr (u, d) ↦ (row, here, ground arith, ground arith, ground arith, ground arith)
    ]
  ]

  -- What `Authenticate` lets through stands on a row of the table that answers to the credential, is
  -- active and has not expired; and the request gets the upstream key of that row.
  pub authenticate-Admitted :
      (raw : Text) (now : ℕ) (rows : Table) (key : Key)
      → authenticate hash decrypt decodes trim_space raw now rows ≡ ok key
      → Admitted raw now rows key
  unfolding authenticate
  authenticate-Admitted raw now rows key h =
      elim (Result-cases (validate_format hash decrypt decodes trim_space (plain_of raw))) [
        | inr (e, bad) ↦ absurd (ground arith)
        | inl (u, good) ↦
            elim (Result-cases
              (by_hash hash decrypt decodes trim_space (hash (plain_of raw)) now rows)) [
                | inr (e, lost) ↦ absurd (ground arith)
                | inl (k, got) ↦
                    let (same, on, fresh) = admit-ok k key now (ground arith) in
                    let (row, here, i, s, x, d) = by_hash-ok (hash (plain_of raw)) now rows k got in
                    let (m, t) = find-Some _ rows row here in
                    record {
                      bearer = ground arith;
                      well_formed = ground arith;
                      row = row;
                      member = m;
                      credential = t;
                      active = ap is_active (sym s) ∙ on;
                      unexpired = ap (not_after now) (sym x) ∙ fresh;
                      same_key = ap (λ (z : Key). z.id) same ∙ i;
                      upstream = d ∙ ap (λ (z : Key). some z.upstream_key) (sym same);
                    }
              ]
      ]

  -- A request with the Bearer scheme that is refused with 401 gets the same answer, byte for byte,
  -- whether its key is malformed or unknown.
  pub authenticate-uniform :
      (raw : Text) (now : ℕ) (rows : Table) (e : AuthError)
      → has_prefix raw bearer_prefix ≡ true
      → authenticate hash decrypt decodes trim_space raw now rows ≡ err e
      → e.status ≡ 401
      → e ≡ bad_key
  unfolding authenticate
  authenticate-uniform raw now rows e b h s =
      let ne = not_empty raw b in
      elim (Result-cases (validate_format hash decrypt decodes trim_space (plain_of raw))) [
        | inr (x, bad) ↦ ground arith
        | inl (u, good) ↦
            elim (Result-cases
              (by_hash hash decrypt decodes trim_space (hash (plain_of raw)) now rows)) [
                | inr (x, lost) ↦ ground arith
                | inl (k, got) ↦
                    let z : admit hash decrypt decodes trim_space k now ≡ err e = ground arith in
                    let f = admit-403 k now e z in absurd (omega arith)
              ]
      ]

  -- After `Revoke` of an id no credential admits a key of that id, at any instant.
  pub revoked-not-admitted :
      (id : String) (rows rows' : Table) (raw : Text) (now : ℕ) (key : Key)
      → revoke id rows ≡ ok rows'
      → authenticate hash decrypt decodes trim_space raw now rows' ≡ ok key
      → key.id ≢ id
  revoked-not-admitted id rows rows' raw now key r h e =
      let a = authenticate-Admitted raw now rows' key h in
      let off = revoked-All id rows rows' r in
      let quiet =
        All-Some (λ r. has_key_id id r ≡ true → is_active r.status ≡ false) rows' a.row off
          a.member in
      let same : a.row.id ≡ id = sym a.same_key ∙ e in
      absurd (cc (a.active, quiet ((eq_iff a.row.id id).1 same)))
