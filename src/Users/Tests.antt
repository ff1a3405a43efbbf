-- ===== src/Users/Tests.antt =====
-- Two login states, one of them taken by its callback, and the witness.
use softmatrix_airlock.Base.{ℕ, ◌≡◌, refl, ok, err, List, [], ◌∷◌, String, arith}
use softmatrix_airlock.Users.Model.{LoginState, login_state_not_found}
use softmatrix_airlock.Users.Sessions.{LoginStates, take_login_state}
use softmatrix_airlock.Users.Once.{Op, creates, takes, sweeps, run_ops, taken_once}

abbrev login : String → ℕ → LoginState
login id expires = record {
  id = id;
  state = "s";
  pkce_verifier = "v";
  redirect_to = "/";
  expires_at = expires;
}

abbrev logins : LoginStates
logins = login "l1" 100 ∷ login "l2" 100 ∷ []

takes_l1 : take_login_state "l1" 50 logins ≡ ok (login "l1" 100, login "l2" 100 ∷ [])
unfolding take_login_state
takes_l1 = refl

-- The callback is replayed in the middle of other logins.
abbrev meanwhile : List Op
meanwhile =
    creates (login "l3" 200) ∷ takes "l1" 55 ∷ takes "l2" 56 ∷ sweeps 57 ∷ takes "l1" 58 ∷ []

taken_once_example :
    take_login_state "l1" 60 (run_ops meanwhile (login "l2" 100 ∷ [])) ≡ err login_state_not_found
taken_once_example =
    taken_once "l1" 50 60 logins (login "l2" 100 ∷ []) (login "l1" 100) meanwhile takes_l1
      (refl, (refl, (refl, (refl, (refl, tt))))) (omega arith)
