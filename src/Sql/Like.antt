-- ===== src/Sql/Like.antt =====
-- On paths without wildcards the LIKE clause of the stores is the subtree test of the resolver.
use softmatrix_airlock.Base.{
  ℕ, ◌≡◌, refl, ap, ◌∙◌, Bool, false, ◌&&◌, ◌||◌, [], ◌∷◌, ◌++◌, arith, ◌==◌ as eq_ℕ,
}
use softmatrix_airlock.Base.Text.{Text, ◌==◌, has_prefix}
use softmatrix_airlock.Paths.{slash, in_subtree}
use softmatrix_airlock.Sql.{like, below_clause, wildcard, IsPlain, one}

like_step :
    (p q : ℕ) (ps t : Text)
    → wildcard p ≡ false
    → like (p ∷ q ∷ ps) t ≡ one (λ c. eq_ℕ c p) (like (q ∷ ps)) t
unfolding like
like_step p q ps t h = ground arith

like_end : (t : Text) → like (slash ∷ 37 ∷ []) t ≡ has_prefix t (slash ∷ [])
unfolding like has_prefix
like_end [] = refl
like_end (c ∷ t) = ground arith

-- One character of the prefix, on both sides.
has_prefix_step :
    (c d : ℕ) (ps t : Text) (b : Bool)
    → b ≡ has_prefix t ps
    → (eq_ℕ d c && b) ≡ has_prefix (d ∷ t) (c ∷ ps)
unfolding has_prefix
has_prefix_step c d ps t b h = ap (λ r. eq_ℕ d c && r) h

pub like-has_prefix :
    (top t : Text)
    → IsPlain top
    → like (top ++ slash ∷ 37 ∷ []) t ≡ has_prefix t (top ++ slash ∷ [])
like-has_prefix [] t h = like_end t
like-has_prefix (c ∷ []) [] h = like_step c slash (37 ∷ []) [] h.0 ∙ (unfold has_prefix in refl)
like-has_prefix (c ∷ []) (d ∷ t) h =
    like_step c slash (37 ∷ []) (d ∷ t) h.0 ∙ has_prefix_step c d (slash ∷ []) t _ (like_end t)
like-has_prefix (c ∷ e ∷ top) [] h =
    like_step c e (top ++ slash ∷ 37 ∷ []) [] h.0 ∙ (unfold has_prefix in refl)
like-has_prefix (c ∷ e ∷ top) (d ∷ t) h =
    like_step c e (top ++ slash ∷ 37 ∷ []) (d ∷ t) h.0
    ∙ has_prefix_step c d (e ∷ (top ++ slash ∷ [])) t _ (like-has_prefix (e ∷ top) t h.1)

-- For a path without '%', '_' and '\', `path = $1 OR path LIKE $1 || '/%'` selects exactly the paths
-- that the resolver's test puts into the subtree: the node itself and what lies below it.
pub below_clause-in_subtree :
    (top path : Text) → IsPlain top → below_clause top path ≡ in_subtree top path
unfolding below_clause in_subtree
below_clause-in_subtree top path h = ap (λ b. path == top || b) (like-has_prefix top path h)
