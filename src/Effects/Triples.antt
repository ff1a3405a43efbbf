-- ===== src/Effects/Triples.antt =====
-- Reasoning about the services' programs: what holds of the world before, and of the result and the
-- world after.
use softmatrix_airlock.Base.{Result, ok, err, ◌≡◌, ◌⊎◌, inl, inr, refl, arith}
use softmatrix_airlock.Effects.{
  Fault, fine, lost_before, lost_after, World, Error, Act, settle, drop_fault, next_fault, writes,
}

module _ {U A : Type 0} where
  -- `P` is an invariant of the program, whatever its result.
  abbrev pub Keeps : (World U → Type 0) → Act U A → Type 0
  Keeps P m = (w : World U) → P w → P (m w).1

module _ {U : Type 0} where
  -- A write leaves the tables or writes them, whatever answer it gives.
  settle-leaves :
      (Q : World U → Type 0) (f : Fault) (w : World U) (r : Result Error (World U))
      → Q w
      → ((w' : World U) → r ≡ ok w' → Q w')
      → Q (settle f w r).1
  settle-leaves Q fine w (ok w') q h = h w' refl
  settle-leaves Q fine w (err e) q h = q
  settle-leaves Q lost_before w r q h = q
  settle-leaves Q lost_after w (ok w') q h = h w' refl
  settle-leaves Q lost_after w (err e) q h = q

  pub writes-leaves :
      (Q : World U → Type 0) (f : World U → Result Error (World U)) (w : World U)
      → Q (drop_fault w)
      → ((w' : World U) → f (drop_fault w) ≡ ok w' → Q w')
      → Q (writes f w).1
  unfolding writes
  writes-leaves Q f w q h =
      settle-leaves Q (next_fault w.faults) (drop_fault w) (f (drop_fault w)) q h

  -- Where it answers without an error, it has written.
  settle-ok :
      (f : Fault) (w : World U) (r : Result Error (World U)) (u : Unit {0})
      → (settle f w r).0 ≡ ok u
      → r ≡ ok (settle f w r).1
  settle-ok fine w (ok w') u h = refl
  settle-ok fine w (err e) u h = absurd (ground arith)
  settle-ok lost_before w r u h = absurd (ground arith)
  settle-ok lost_after w (ok w') u h = absurd (ground arith)
  settle-ok lost_after w (err e) u h = absurd (ground arith)

  pub writes-ok :
      (f : World U → Result Error (World U)) (w : World U) (u : Unit {0})
      → (writes f w).0 ≡ ok u
      → f (drop_fault w) ≡ ok (writes f w).1
  unfolding writes
  writes-ok f w u h = settle-ok (next_fault w.faults) (drop_fault w) (f (drop_fault w)) u h

pub Fault-cases : (f : Fault) → (f ≡ fine) ⊎ ((f ≡ lost_before) ⊎ (f ≡ lost_after))
Fault-cases fine = inl refl
Fault-cases lost_before = inr (inl refl)
Fault-cases lost_after = inr (inr refl)
