-- ===== src/Issuer/Cleanup.antt =====
-- `cleanup` of internal/control/keyissue.go: it removes the key upstream before the row, and leaves
-- the row where it cannot tell.
use softmatrix_airlock.Base.{
  ◌≡◌, refl, sym, ap, ◌∙◌, ◌⊎◌, inl, inr, String, Bool, true, false, ok, err, arith, Result-cases,
}
use softmatrix_airlock.Keys.Model.{Table}
use softmatrix_airlock.Keys.Store.{delete}
use softmatrix_airlock.Effects.{
  Upstream, Reply, replied, not_found, failed, reply_result, exists_result, World, Error, Act,
  writes, on_keys, calls, key_exists,
}
use softmatrix_airlock.Issuer.{Crypto, remove_known, cleanup, or_cleanup}
use softmatrix_airlock.Issuer.Owned.{Documented, Inv, Aim, Inv-delete, writes_keys-leaves}

-- A predicate on the rows that a DELETE keeps.
abbrev pub Stable : (Table → Type 0) → Type 0
Stable X = (id : String) (rows rows' : Table) → delete id rows ≡ ok rows' → X rows → X rows'

replied-ok : (r : Reply) (u : Unit {0}) → reply_result r ≡ ok u → r ≡ replied
replied-ok replied u h = refl
replied-ok not_found u h = absurd (ground arith)
replied-ok failed u h = absurd (ground arith)

exists-false : (r : Reply) → exists_result r ≡ ok false → r ≡ not_found
exists-false replied h = absurd (ground arith)
exists-false not_found h = refl
exists-false failed h = absurd (ground arith)

module _ {U : Type 0} {up : Upstream U} (crypto : Crypto) (doc : Documented up) (X : Table → Type 0)
    (stable : Stable X) where
  -- The DELETE of the row, when its key does not stand upstream.
  delete-Inv :
      (id v : String) (w : World U)
      → Inv crypto doc w.keys w.upstream
      → X w.keys
      → Aim crypto doc id v w.keys
      → doc.has v w.upstream ≡ false
      → Inv crypto doc
          (writes (on_keys (delete id)) w).1.keys
          (writes (on_keys (delete id)) w).1.upstream
        × X (writes (on_keys (delete id)) w).1.keys
  delete-Inv id v w inv x aim gone =
      writes_keys-leaves (delete id) (λ rows u. Inv crypto doc rows u × X rows) w (inv, x)
        (λ rows e. (
          Inv-delete crypto doc id v w.keys rows w.upstream inv aim gone e,
          stable id w.keys rows e x,
        ))

  remove_known-Inv :
      (id v : String) (exists : Bool) (w : World U)
      → Inv crypto doc w.keys w.upstream
      → X w.keys
      → Aim crypto doc id v w.keys
      → (exists ≡ false → doc.has v w.upstream ≡ false)
      → Inv crypto doc
          (remove_known up crypto id v exists w).1.keys
          (remove_known up crypto id v exists w).1.upstream
        × X (remove_known up crypto id v exists w).1.keys
  unfolding remove_known calls
  remove_known-Inv id v false w inv x aim gone = delete-Inv id v w inv x aim (gone refl)
  remove_known-Inv id v true w (unique, owned) x aim gone =
      let w' : World U = record w { upstream = (up.remove v w.upstream).1 } in
      let inv' : Inv crypto doc w'.keys w'.upstream =
        (unique, λ y here. owned y (doc.remove_only v y w.upstream here)) in
      elim (Result-cases (reply_result (up.remove v w.upstream).0)) [
        | inl (u, e) ↦
            rw e
              (delete-Inv id v w' inv' x aim (doc.remove_replied v w.upstream (replied-ok _ u e)))
        | inr (er, e) ↦ rw e (inv', x)
      ]

  -- Whatever the upstream replies and however the DELETE ends.
  pub cleanup-Inv :
      (id v : String) (w : World U)
      → Inv crypto doc w.keys w.upstream
      → X w.keys
      → Aim crypto doc id v w.keys
      → Inv crypto doc (cleanup up crypto id v w).1.keys (cleanup up crypto id v w).1.upstream
        × X (cleanup up crypto id v w).1.keys
  unfolding cleanup key_exists
  cleanup-Inv id v w (unique, owned) x aim =
      let w' : World U = record w { upstream = (up.info v w.upstream).1 } in
      let inv' : Inv crypto doc w'.keys w'.upstream =
        (unique, λ y here. owned y (sym (doc.info_same v y w.upstream) ∙ here)) in
      elim (Result-cases (exists_result (up.info v w.upstream).0)) [
        | inl (b, e) ↦ rw e (
            remove_known-Inv id v b w' inv' x aim (λ f.
              doc.info_same v v w.upstream
              ∙ doc.info_not_found v w.upstream (exists-false _ (e ∙ ap ok f))))
        | inr (er, e) ↦ rw e (inv', x)
      ]

module _ {U : Type 0} {up : Upstream U} (crypto : Crypto) (doc : Documented up) where
  Any : Table → Type 0
  Any rows = Unit {0}

  pub cleanup-Keeps :
      (id v : String) (w : World U)
      → Inv crypto doc w.keys w.upstream
      → Aim crypto doc id v w.keys
      → Inv crypto doc (cleanup up crypto id v w).1.keys (cleanup up crypto id v w).1.upstream
  unfolding Any
  cleanup-Keeps id v w inv aim =
      (cleanup-Inv crypto doc Any (λ i rows rows' e t. tt) id v w inv tt aim).0

  remove_known-ok :
      (id v : String) (b : Bool) (w : World U) → (remove_known up crypto id v b w).0 ≡ ok tt
  unfolding remove_known
  remove_known-ok id v false w = refl
  remove_known-ok id v true w = elim (Result-cases (calls (up.remove v) w).0) [
    | inl (u, e) ↦ rw e refl
    | inr (x, e) ↦ rw e refl
  ]

  pub cleanup-ok : (id v : String) (w : World U) → (cleanup up crypto id v w).0 ≡ ok tt
  unfolding cleanup
  cleanup-ok id v w = elim (Result-cases (key_exists up v w).0) [
    | inl (b, e) ↦ rw e (remove_known-ok id v b (key_exists up v w).1)
    | inr (x, e) ↦ rw e refl
  ]

  -- A step that may fail, with the cleanup behind it: either it went well, or the invariant holds
  -- after the cleanup.
  pub or_cleanup-Inv :
      (id v : String) (m : Act U (Unit {0})) (w : World U)
      → Inv crypto doc (m w).1.keys (m w).1.upstream
      → Aim crypto doc id v (m w).1.keys
      → (((m w).0 ≡ ok tt) × ((or_cleanup up crypto id v m w) ≡ (ok tt, (m w).1)))
        ⊎ ((e : Error) × ((or_cleanup up crypto id v m w).0 ≡ err e)
            × Inv crypto doc
                (or_cleanup up crypto id v m w).1.keys
                (or_cleanup up crypto id v m w).1.upstream)
  unfolding or_cleanup
  or_cleanup-Inv id v m w inv aim = elim (Result-cases (m w).0) [
    | inl (u, e) ↦ inl (e, rw e refl)
    | inr (x, e) ↦
        let kept = cleanup-Keeps id v (m w).1 inv aim in
        let done = cleanup-ok id v (m w).1 in inr (x, rw (e, done) refl, rw (e, done) kept)
  ]
