-- ===== src/Offboarding/Revoked.antt =====
-- What a round of internal/control/reconciler.go leaves of the keys and the sessions of the users that it
-- disables.
use softmatrix_airlock.Base.{
  ℕ, ◌+◌, ◌≡◌, refl, inl, inr, String, true, false, ◌&&◌, some, List, [], ◌∷◌, All, keep, arith,
  Bool-cases, Option-cases,
}
use softmatrix_airlock.Sql.{update_where}
use softmatrix_airlock.Sql.Rows.{update_where-All}
use softmatrix_airlock.Keys.Model.{ApiKey, is_live, Status}
use softmatrix_airlock.Keys.Model as Keys
use softmatrix_airlock.Keys.Store.{has_key_id, mark_upstream_blocked}
use softmatrix_airlock.Users.Model.{Session}
use softmatrix_airlock.Users.Store.{is_one_of}
use softmatrix_airlock.Users.Sessions.{Sessions, delete_by_user}
use softmatrix_airlock.Offboarding.{
  Answers, block_targets, is_target, revoke_by_users, delete_sessions,
}
use text.Mathlib.Text.{◌==◌}
use text.Mathlib.TextEquality.{eq_iff}

-- The keys.
abbrev pub Dead : List String → ApiKey → Type 0
Dead ids k = is_one_of ids k.user_id ≡ true → is_live k.status ≡ false

revoked-Dead :
    (ids : List String) (keys : Keys.Table)
    → All
        (Dead ids)
        (update_where
          (λ k. is_one_of ids k.user_id && is_live k.status)
          (λ k. record k { status = Status.revoked })
          keys).0
unfolding update_where
revoked-Dead ids [] = tt
revoked-Dead ids (k ∷ ks) = elim (Bool-cases (is_one_of ids k.user_id && is_live k.status)) [
  | inl t ↦ rw t ((λ e. refl), revoked-Dead ids ks)
  | inr f ↦ rw f ((λ e. ground arith), revoked-Dead ids ks)
]

block_targets-Dead :
    (now : ℕ) (ans : Answers) (ids : List String) (ks : List ApiKey) (keys : Keys.Table)
    → All (Dead ids) keys
    → All (Dead ids) (block_targets now ans ks keys)
unfolding block_targets mark_upstream_blocked
block_targets-Dead now ans ids [] keys h = h
block_targets-Dead now ans ids (k ∷ ks) keys h =
    elim (Option-cases (ans.decrypt k.upstream_key_enc)) [
      | inl e ↦ rw (block_targets, e) (block_targets-Dead now ans ids ks keys h)
      | inr (upstream, e) ↦ elim (Bool-cases (ans.block_key upstream && ans.stamp_runs k.id)) [
        | inr f ↦ rw (block_targets, e, f) (block_targets-Dead now ans ids ks keys h)
        | inl t ↦
            rw (block_targets, e, t)
              (block_targets-Dead now ans ids ks (mark_upstream_blocked k.id now keys) (
                update_where-All (has_key_id k.id)
                  (λ r. record r { upstream_blocked_at = some now }) (Dead ids) (λ r t d. d) keys
                  h))
      ]
    ]

-- The sessions.
abbrev pub Out : List String → Session → Type 0
Out ids x = is_one_of ids x.user_id ≡ false

delete_by_user-Out :
    (id : String) (ids : List String) (xs : Sessions)
    → All (Out ids) xs
    → All (Out (id ∷ ids)) (delete_by_user id xs).0
unfolding delete_by_user
delete_by_user-Out id ids [] h = tt
delete_by_user-Out id ids (x ∷ xs) h = elim (Bool-cases (x.user_id == id)) [
  | inl t ↦ rw t (delete_by_user-Out id ids xs h.1)
  | inr f ↦
      let other : (id == x.user_id) ≡ false =
        ground (arith, eq_iff id x.user_id, eq_iff x.user_id id) in
      let z = h.0 in rw f (ground arith, delete_by_user-Out id ids xs h.1)
]

both-Out :
    (id : String) (gone ids : List String) (xs : Sessions)
    → All (λ x. Out (id ∷ gone) x × Out ids x) xs
    → All (λ x. Out gone x × Out (id ∷ ids) x) xs
both-Out id gone ids [] h = tt
both-Out id gone ids (x ∷ xs) h =
    let a = h.0.0 in let b = h.0.1 in ((ground arith, ground arith), both-Out id gone ids xs h.1)

pub none-Out : (xs : Sessions) → All (Out []) xs
none-Out [] = tt
none-Out (x ∷ xs) = (refl, none-Out xs)

end-Out :
    (gone : List String) (xs : Sessions) → All (Out gone) xs → All (λ x. Out gone x × Out [] x) xs
end-Out gone [] h = tt
end-Out gone (x ∷ xs) h = ((h.0, refl), end-Out gone xs h.1)

pub delete_sessions-Out :
    (now : ℕ) (ans : Answers) (gone ids : List String) (xs xs' : Sessions) (n m : ℕ)
    → All (Out gone) xs
    → delete_sessions now ans ids xs n ≡ (xs', some m)
    → All (λ x. Out gone x × Out ids x) xs'
unfolding delete_sessions
delete_sessions-Out now ans gone [] xs xs' n m h e =
    let same : xs ≡ xs' = ground arith in rw (← same) (end-Out gone xs h)
delete_sessions-Out now ans gone (id ∷ ids) xs xs' n m h e =
    elim (Bool-cases (ans.delete_runs id)) [
      | inr f ↦ absurd (ground arith)
      | inl t ↦ both-Out id gone ids xs' (
          delete_sessions-Out now ans (id ∷ gone) ids (delete_by_user id xs).0 xs'
            (n + (delete_by_user id xs).1) m (delete_by_user-Out id gone xs h) (ground arith))
    ]

pub none-Dead : (keys : Keys.Table) → All (Dead []) keys
none-Dead [] = tt
none-Dead (k ∷ ks) = ((λ e. absurd (ground arith)), none-Dead ks)

-- The keys behind a revocation that reports how many went.
pub revoke_by_users-Dead :
    (now : ℕ) (ans : Answers) (ids : List String) (keys keys' : Keys.Table) (n : ℕ)
    → revoke_by_users now ans ids keys ≡ (keys', some n)
    → All (Dead ids) keys'
unfolding revoke_by_users
revoke_by_users-Dead now ans [] keys keys' n h =
    let same : keys ≡ keys' = ground arith in rw (← same) (none-Dead keys)
revoke_by_users-Dead now ans (id ∷ ids) keys keys' n h = elim (Bool-cases ans.select_runs) [
  | inr f ↦ absurd (ground arith)
  | inl t ↦ elim (Bool-cases ans.update_runs) [
    | inr f ↦ absurd (ground arith)
    | inl u ↦
        let test = is_target now ans (id ∷ ids) in
        let rows = (update_where test (λ k. record k { status = Status.revoked }) keys).0 in
        let same : block_targets now ans (keep test keys) rows ≡ keys' = ground arith in
        rw (← same) (
          block_targets-Dead now ans (id ∷ ids) (keep test keys) rows
            (revoked-Dead (id ∷ ids) keys))
  ]
]
