-- ===== src/Users/Once.antt =====
-- A login state is good for one callback.
use softmatrix_airlock.Base.{
  ℕ, ◌≤◌, ◌≡◌, refl, inl, inr, String, Bool, true, ◌&&◌, not, none, List, [], ◌∷◌, ◌++◌, All, any,
  keep, find, ok, err, arith, ltb, leb, Option-cases,
}
use softmatrix_airlock.Users.Model.{LoginState, login_state_not_found}
use softmatrix_airlock.Users.Sessions.{
  LoginStates, create_login_state, take_login_state, delete_expired_states,
}
use text.Mathlib.Text.{◌==◌}

-- The statements on login states, each with the clock of its call: a login begins, a callback takes its
-- state, and the sweep of the ones that have expired.
pub data Op : Type 0 where
  creates : LoginState → Op
  takes : String → ℕ → Op
  sweeps : ℕ → Op

-- The table afterwards; a statement that is refused leaves it as it was.
unfoldable pub run_op : Op → LoginStates → LoginStates
unfolding create_login_state take_login_state delete_expired_states
run_op (creates s) rows = elim (create_login_state s rows) [ ok rows' ↦ rows' | err e ↦ rows ]
run_op (takes id now) rows = elim (take_login_state id now rows) [ ok r ↦ r.1 | err e ↦ rows ]
run_op (sweeps before) rows = (delete_expired_states before rows).0

unfoldable pub run_ops : List Op → LoginStates → LoginStates
unfolding run_op
run_ops [] rows = rows
run_ops (op ∷ ops) rows = run_ops ops (run_op op rows)

-- The statement begins no login under this id, which is drawn at random.
abbrev pub is_other : String → Op → Bool
is_other id (creates s) = not (s.id == id)
is_other id (takes i now) = true
is_other id (sweeps before) = true

module _ (id : String) (now : ℕ) where
  -- No state under the id is good any more.
  abbrev is_spent : LoginStates → Bool
  is_spent rows = not (any (λ s. s.id == id && ltb now s.expires_at) rows)

  keep-is_spent :
      (test : LoginState → Bool) (rows : LoginStates)
      → is_spent rows ≡ true
      → is_spent (keep test rows) ≡ true
  keep-is_spent test [] h = refl
  keep-is_spent test (s ∷ rows) h = ground (arith, keep-is_spent test rows)

  append-is_spent :
      (s : LoginState) (rows : LoginStates)
      → not (s.id == id) ≡ true
      → is_spent rows ≡ true
      → is_spent (rows ++ s ∷ []) ≡ true
  append-is_spent s [] n h = ground arith
  append-is_spent s (r ∷ rows) n h = ground (arith, append-is_spent s rows)

  taken-is_spent :
      (rows : LoginStates)
      → is_spent (keep (λ s. not (s.id == id && ltb now s.expires_at)) rows) ≡ true
  taken-is_spent [] = refl
  taken-is_spent (s ∷ rows) = ground (arith, taken-is_spent rows)

  run_op-is_spent :
      (op : Op) (rows : LoginStates)
      → is_other id op ≡ true
      → is_spent rows ≡ true
      → is_spent (run_op op rows) ≡ true
  unfolding run_op create_login_state take_login_state delete_expired_states
  run_op-is_spent (creates s) rows o h = ground (arith, append-is_spent s rows)
  run_op-is_spent (takes i t) rows o h =
      elim (Option-cases (find (λ s. s.id == i && ltb t s.expires_at) rows)) [
        | inl e ↦ rw (run_op, take_login_state, e) h
        | inr (s, e) ↦
            rw (run_op, take_login_state, e)
              (keep-is_spent (λ s. not (s.id == i && ltb t s.expires_at)) rows h)
      ]
  run_op-is_spent (sweeps t) rows o h = keep-is_spent (λ s. not (leb s.expires_at t)) rows h

  run_ops-is_spent :
      (ops : List Op) (rows : LoginStates)
      → All (λ op. is_other id op ≡ true) ops
      → is_spent rows ≡ true
      → is_spent (run_ops ops rows) ≡ true
  unfolding run_ops
  run_ops-is_spent [] rows o h = h
  run_ops-is_spent (op ∷ ops) rows o h =
      run_ops-is_spent ops (run_op op rows) o.1 (run_op-is_spent op rows o.0 h)

  spent-refused :
      (later : ℕ) (rows : LoginStates)
      → now ≤ later
      → is_spent rows ≡ true
      → find (λ s. s.id == id && ltb later s.expires_at) rows ≡ none
  spent-refused later [] l h = refl
  spent-refused later (s ∷ rows) l h = ground (arith, spent-refused later rows)

-- A login state that was taken once cannot be taken again: after any statements on the table, in any
-- order and with any clocks (logins that begin under other ids, callbacks of any id, sweeps), taking
-- its id at a time that is not before the first is refused.
pub taken_once :
    (id : String) (now later : ℕ) (rows rows' : LoginStates) (s : LoginState) (ops : List Op)
    → take_login_state id now rows ≡ ok (s, rows')
    → All (λ op. is_other id op ≡ true) ops
    → now ≤ later
    → take_login_state id later (run_ops ops rows') ≡ err login_state_not_found
unfolding take_login_state
taken_once id now later rows rows' s ops t others l =
    elim (Option-cases (find (λ s. s.id == id && ltb now s.expires_at) rows)) [
      | inl e ↦ absurd (ground arith)
      | inr (s', e) ↦
          let same : keep (λ r. not (r.id == id && ltb now r.expires_at)) rows ≡ rows' =
            ground arith in
          let spent : is_spent id now rows' ≡ true = rw (← same) (taken-is_spent id now rows) in
          rw
            (
              take_login_state,
              spent-refused id now later (run_ops ops rows') l
                  (run_ops-is_spent id now ops rows' others spent),
            )
            refl
    ]
