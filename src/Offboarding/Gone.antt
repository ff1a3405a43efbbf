-- ===== src/Offboarding/Gone.antt =====
-- What a round of internal/control/reconciler.go that reports success leaves.
use softmatrix_airlock.Base.{String, List, All}
use softmatrix_airlock.Users.Sessions.{Sessions}
use softmatrix_airlock.Offboarding.{Remote, State}
use softmatrix_airlock.Offboarding.Left.{Stays}
use softmatrix_airlock.Offboarding.Revoked.{Dead, Out}

-- What a round that reports success leaves.
pub record Offboarded (remote : Remote) (ids : List String) (s : State) : Type 0 where
  pub users : All (Stays remote) s.users
  pub keys : All (Dead ids) s.keys
  pub sessions : All (Out ids) s.sessions
