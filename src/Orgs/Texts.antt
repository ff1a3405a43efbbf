-- ===== src/Orgs/Texts.antt =====
-- Paths that end in a slash and an id: what a prefix test says of them.
use softmatrix_airlock.Base.{
  ℕ, zero, suc, ◌≡◌, refl, ◌⊎◌, inl, inr, true, false, List, [], ◌∷◌, ◌++◌, length, arith,
}
use softmatrix_airlock.Base.Text.{Text, has_prefix}
use softmatrix_airlock.Paths.{slash, slash_free}
use softmatrix_airlock.Sql.{IsPlain}
use softmatrix_airlock.Orgs.Store.{drop}

-- An id does not begin with something that has a slash.
pub has_prefix-slash_free :
    (a t : Text) → slash_free a ≡ true → has_prefix a (t ++ slash ∷ []) ≡ false
unfolding has_prefix
has_prefix-slash_free [] [] h = refl
has_prefix-slash_free [] (c ∷ t) h = refl
has_prefix-slash_free (x ∷ a) [] h = ground arith
has_prefix-slash_free (x ∷ a) (c ∷ t) h = ground (arith, has_prefix-slash_free a t)

-- A path that begins with `c/` without its last id ends at `c` or begins with `c/` too.
pub has_prefix-parent :
    (a b c : Text)
    → slash_free b ≡ true
    → has_prefix (a ++ slash ∷ b) (c ++ slash ∷ []) ≡ true
    → (a ≡ c) ⊎ (has_prefix a (c ++ slash ∷ []) ≡ true)
unfolding has_prefix
has_prefix-parent [] b [] hb h = inl refl
has_prefix-parent [] b (x ∷ c) hb h = absurd (let z = has_prefix-slash_free b c hb in ground arith)
has_prefix-parent (x ∷ a) b [] hb h = inr (ground arith)
has_prefix-parent (x ∷ a) b (y ∷ c) hb h =
    let e : x ≡ y = ground arith in
    elim (has_prefix-parent a b c hb (ground arith)) [
      | inl q ↦ inl (rw (e, q) refl)
      | inr q ↦ inr (ground arith)
    ]

slashed : (b y x : Text) → x ≡ b ++ slash ∷ y → slash_free x ≡ true → ⊥
slashed [] y [] e h = ground arith
slashed [] y (c ∷ x) e h = ground arith
slashed (d ∷ b) y [] e h = ground arith
slashed (d ∷ b) y (c ∷ x) e h =
    let t : x ≡ b ++ slash ∷ y = ground arith in slashed b y x t (ground arith)

-- The last id of a path is one.
pub last_id :
    (a b x y : Text)
    → slash_free x ≡ true
    → slash_free y ≡ true
    → a ++ slash ∷ x ≡ b ++ slash ∷ y
    → x ≡ y
last_id [] [] x y hx hy e = ground arith
last_id [] (c ∷ b) x y hx hy e =
    let t : x ≡ b ++ slash ∷ y = ground arith in absurd (slashed b y x t hx)
last_id (c ∷ a) [] x y hx hy e =
    let t : y ≡ a ++ slash ∷ x = ground arith in absurd (slashed a x y t hy)
last_id (c ∷ a) (d ∷ b) x y hx hy e = last_id a b x y hx hy (ground arith)

pub drop-append {ℓ} : {A : Type ℓ} (xs ys : List A) → drop (length xs) (xs ++ ys) ≡ ys
drop-append [] ys = refl
drop-append (x ∷ xs) ys = drop-append xs ys

pub IsPlain-append : (a b : Text) → IsPlain a → IsPlain b → IsPlain (a ++ b)
IsPlain-append [] b ha hb = hb
IsPlain-append (c ∷ a) b ha hb = (ha.0, IsPlain-append a b ha.1 hb)

pub IsPlain-drop : (n : ℕ) (a : Text) → IsPlain a → IsPlain (drop n a)
IsPlain-drop zero a h = h
IsPlain-drop (suc n) [] h = tt
IsPlain-drop (suc n) (c ∷ a) h = IsPlain-drop n a h.1
