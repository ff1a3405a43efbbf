-- ===== src/Paths/Segments.antt =====
-- Cutting a path gives back the ids that it was made of, trimmed or not.
use softmatrix_airlock.Base.{
  ◌≡◌, refl, sym, ap, ◌∙◌, true, List, [], ◌∷◌, ◌++◌, arith, Bool-cases, inl, inr, keep, All,
  ◌==◌ as eq_ℕ,
}
use mathlib.Core.List.{append-nil}
use softmatrix_airlock.Base.Text.{Text}
use softmatrix_airlock.Paths.{
  slash, split, trim_left, trim_right, non_empty, ancestor_ids, chain_ids, path_of, slash_free,
  IsId,
}

-- A part without a slash, in front of a slash and in front of the end.
split-append :
    (id t : Text) → slash_free id ≡ true → split (id ++ slash ∷ t) ≡ (id, (split t).0 ∷ (split t).1)
unfolding split
split-append [] t h = refl
split-append (c ∷ cs) t h = ground (arith, split-append cs t)

split-id : (id : Text) → slash_free id ≡ true → split id ≡ (id, [])
unfolding split
split-id [] h = refl
split-id (c ∷ cs) h = ground (arith, split-id cs)

ancestor_ids-slash : (t : Text) → ancestor_ids (slash ∷ t) ≡ ancestor_ids t
unfolding ancestor_ids split
ancestor_ids-slash t = refl

ancestor_ids-append : (id t : Text) → IsId id → ancestor_ids (id ++ slash ∷ t) ≡ id ∷ ancestor_ids t
unfolding ancestor_ids
ancestor_ids-append id t h = rw (split-append id t h.no_slash) (rw h.has_text refl)

ancestor_ids-id : (id : Text) → IsId id → ancestor_ids id ≡ id ∷ []
unfolding ancestor_ids
ancestor_ids-id id h = rw (split-id id h.no_slash) (rw h.has_text refl)

-- `ancestorIDs` of the path of a chain of ids is that chain.
pub ancestor_ids-path_of : (ids : List Text) → All IsId ids → ancestor_ids (path_of ids) ≡ ids
unfolding path_of
ancestor_ids-path_of [] h = unfold ancestor_ids split in refl
ancestor_ids-path_of (id ∷ []) h =
    ancestor_ids-slash _ ∙ ap ancestor_ids (append-nil id) ∙ ancestor_ids-id id h.0
ancestor_ids-path_of (id ∷ j ∷ js) h =
    ancestor_ids-slash _
    ∙ ancestor_ids-append id (j ++ path_of js) h.0
    ∙ ap (λ r. id ∷ r)
        (sym (ancestor_ids-slash (j ++ path_of js)) ∙ ancestor_ids-path_of (j ∷ js) h.1)

-- Trimming slashes changes no part that is kept.
ancestor_ids-trim_left : (t : Text) → ancestor_ids (trim_left t) ≡ ancestor_ids t
unfolding trim_left
ancestor_ids-trim_left [] = refl
ancestor_ids-trim_left (c ∷ cs) = elim (Bool-cases (eq_ℕ c slash)) [
  | inl e ↦
      let p : c ≡ slash = ground arith in
      rw e (ancestor_ids-trim_left cs ∙ sym (rw p (ancestor_ids-slash cs)))
  | inr e ↦ rw e
]

record SameParts (s t : Text) : Type 0 where
  first : (split s).0 ≡ (split t).0
  others : keep non_empty (split s).1 ≡ keep non_empty (split t).1

split-trim_right : (t : Text) → SameParts (trim_right t) t
unfolding split trim_right
split-trim_right [] = record { first = refl; others = refl }
split-trim_right (c ∷ cs) =
    let ih = split-trim_right cs in
    record {
      first = ground (arith, ih.first, ih.others);
      others = ground (arith, ih.first, ih.others);
    }

ancestor_ids-trim_right : (t : Text) → ancestor_ids (trim_right t) ≡ ancestor_ids t
unfolding ancestor_ids
ancestor_ids-trim_right t = let h = split-trim_right t in rw (h.first, h.others)

-- `ancestorChain` trims the path before it cuts it, and `ancestorIDs` does not: on every text the
-- two come to the same ids.
pub chain_ids-eq-ancestor_ids : (path : Text) → chain_ids path ≡ ancestor_ids path
unfolding chain_ids
chain_ids-eq-ancestor_ids path =
    ancestor_ids-trim_right (trim_left path) ∙ ancestor_ids-trim_left path

-- The path made of ids, each of them a text without a slash and not empty, is cut back into the same
-- ids in the same order.
pub chain_ids-path_of : (ids : List Text) → All IsId ids → chain_ids (path_of ids) ≡ ids
chain_ids-path_of ids h = chain_ids-eq-ancestor_ids (path_of ids) ∙ ancestor_ids-path_of ids h
