-- ===== src/Offboarding/Left.antt =====
-- Whom a round of internal/control/reconciler.go disables.
use softmatrix_airlock.Base.{
  ℕ, ◌≡◌, refl, ap, ◌∙◌, inl, inr, String, Bool, true, false, ◌&&◌, ◌||◌, some, List, [], ◌∷◌, All,
  any, keep, map, arith, Bool-cases,
}
use softmatrix_airlock.Sql.{update_where, insert_by, order_by}
use softmatrix_airlock.Users.Model.{UserStatus, User, Session, is_enabled}
use softmatrix_airlock.Users.Model as Users
use softmatrix_airlock.Users.Store.{is_one_of, list_active, mark_disabled}
use softmatrix_airlock.Offboarding.{Remote, has_left, to_disable}
use text.Mathlib.Text.{◌==◌}
use text.Mathlib.TextEquality.{eq_iff}

-- The order of the listing loses nobody.
any-insert_by :
    (p : User → Bool) (key : User → ℕ) (u : User) (us : List User)
    → any p (insert_by key u us) ≡ (p u || any p us)
unfolding insert_by
any-insert_by p key u [] = refl
any-insert_by p key u (v ∷ us) = ground (arith, any-insert_by p key u us)

any-order_by :
    (p : User → Bool) (key : User → ℕ) (us : List User) → any p (order_by key us) ≡ any p us
unfolding order_by
any-order_by p key [] = refl
any-order_by p key (u ∷ us) =
    any-insert_by p key u (order_by key us) ∙ ap (λ b. p u || b) (any-order_by p key us)

listed :
    (q : User → Bool) (id : String) (us : List User)
    → is_one_of (map (λ u. u.id) (keep q us)) id ≡ any (λ u. q u && u.id == id) us
listed q id [] = refl
listed q id (u ∷ us) = ground (arith, listed q id us)

any-keep : (p q : User → Bool) (us : List User) → any p (keep q us) ≡ any (λ u. q u && p u) us
any-keep p q [] = refl
any-keep p q (u ∷ us) = ground (arith, any-keep p q us)

-- Who is active and has left is disabled.
is_one_of-to_disable :
    (remote : Remote) (users : Users.Table) (id : String)
    → is_one_of (to_disable remote users) id
      ≡ any (λ u. is_enabled u.status && (has_left remote u && u.id == id)) users
unfolding to_disable list_active
is_one_of-to_disable remote users id =
    listed (has_left remote) id
      (order_by (λ u. u.created_at) (keep (λ u. is_enabled u.status) users))
    ∙ any-order_by (λ u. has_left remote u && u.id == id) (λ u. u.created_at)
        (keep (λ u. is_enabled u.status) users)
    ∙ any-keep (λ u. has_left remote u && u.id == id) (λ u. is_enabled u.status) users

-- Nobody who is enabled here has left.
abbrev pub Stays : Remote → User → Type 0
Stays remote u = is_enabled u.status ≡ true → has_left remote u ≡ false

disabled-Stays :
    (remote : Remote) (ids : List String) (now : ℕ) (users : Users.Table)
    → All
        (λ u. is_enabled u.status ≡ true → has_left remote u ≡ true → is_one_of ids u.id ≡ true)
        users
    → All
        (Stays remote)
        (update_where
          (λ u. is_one_of ids u.id)
          (λ u. record u { status = UserStatus.disabled; reconciled_at = some now })
          users).0
unfolding update_where
disabled-Stays remote ids now [] h = tt
disabled-Stays remote ids now (u ∷ us) h = elim (Bool-cases (is_one_of ids u.id)) [
  | inl t ↦ rw t ((λ e. absurd (ground arith)), disabled-Stays remote ids now us h.1)
  | inr f ↦ rw f (stays h.0 f, disabled-Stays remote ids now us h.1)
]
  where
    stays :
        (is_enabled u.status ≡ true → has_left remote u ≡ true → is_one_of ids u.id ≡ true)
        → is_one_of ids u.id ≡ false
        → is_enabled u.status ≡ true
        → has_left remote u ≡ false
    stays k f e = elim (Bool-cases (has_left remote u)) [
      | inl l ↦ absurd (let z = k e l in ground arith)
      | inr l ↦ l
    ]

pub mark_disabled-Stays :
    (remote : Remote) (now : ℕ) (users : Users.Table)
    → All
        (λ u.
          is_enabled u.status ≡ true
          → has_left remote u ≡ true
          → is_one_of (to_disable remote users) u.id ≡ true)
        users
    → All (Stays remote) (mark_disabled (to_disable remote users) now users)
unfolding mark_disabled
mark_disabled-Stays remote now users h = disabled-Stays remote (to_disable remote users) now users h

is_named :
    (remote : Remote) (all us : Users.Table)
    → ((u : User)
        → any (λ v. is_enabled v.status && (has_left remote v && v.id == u.id)) us ≡ true
        → any (λ v. is_enabled v.status && (has_left remote v && v.id == u.id)) all ≡ true)
    → All
        (λ u.
          is_enabled u.status ≡ true
          → has_left remote u ≡ true
          → is_one_of (to_disable remote all) u.id ≡ true)
        us
is_named remote all [] sub = tt
is_named remote all (u ∷ us) sub = (
  λ e l.
      is_one_of-to_disable remote all u.id
      ∙ sub u (let s = (eq_iff u.id u.id).1 refl in ground arith),
  is_named remote all us (λ v t. sub v (ground arith)),
)

pub all_named :
    (remote : Remote) (users : Users.Table)
    → All
        (λ u.
          is_enabled u.status ≡ true
          → has_left remote u ≡ true
          → is_one_of (to_disable remote users) u.id ≡ true)
        users
all_named remote users = is_named remote users users (λ u t. t)

pub nobody-Stays :
    (remote : Remote) (us : Users.Table)
    → All (λ u. is_enabled u.status ≡ true → has_left remote u ≡ true → is_one_of [] u.id ≡ true) us
    → All (Stays remote) us
nobody-Stays remote [] h = tt
nobody-Stays remote (u ∷ us) h = (
  λ e. elim (Bool-cases (has_left remote u)) [
    | inl l ↦ absurd (let z = h.0 e l in ground arith)
    | inr l ↦ l
  ],
  nobody-Stays remote us h.1,
)
