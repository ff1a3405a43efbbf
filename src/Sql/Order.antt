-- ===== src/Sql/Order.antt =====
-- Sorting and reversing a result changes no count and no membership.
use softmatrix_airlock.Base.{
  ℕ, suc, ◌+◌, ◌≡◌, refl, ap, ◌∙◌, Bool, ◌&&◌, List, [], ◌∷◌, ◌++◌, keep, arith, if◌then◌else◌,
}
use mathlib.Core.List.{reverse, reverse-append}
use softmatrix_airlock.Sql.{insert_by, order_by}

module _ {A : Type 0} where
  -- How many rows pass a test.
  abbrev pub tally : (A → Bool) → List A → ℕ
  tally p [] = 0
  tally p (x ∷ xs) = let rest = tally p xs in if p x then suc rest else rest

  pub tally-append : (p : A → Bool) (xs ys : List A) → tally p (xs ++ ys) ≡ tally p xs + tally p ys
  tally-append p [] ys = omega arith
  tally-append p (x ∷ xs) ys = ground (arith, tally-append p xs ys)

  pub tally-reverse : (p : A → Bool) (xs : List A) → tally p (reverse xs) ≡ tally p xs
  tally-reverse p [] = refl
  tally-reverse p (x ∷ xs) =
      ap (tally p) (reverse-append (x ∷ []) xs)
      ∙ tally-append p (reverse xs) (x ∷ [])
      ∙ ground (arith, tally-reverse p xs)

  tally-insert_by :
      (p : A → Bool) (key : A → ℕ) (r : A) (xs : List A)
      → tally p (insert_by key r xs) ≡ tally p (r ∷ xs)
  unfolding insert_by
  tally-insert_by p key r [] = refl
  tally-insert_by p key r (x ∷ xs) = ground (arith, tally-insert_by p key r xs)

  pub tally-order_by :
      (p : A → Bool) (key : A → ℕ) (xs : List A) → tally p (order_by key xs) ≡ tally p xs
  unfolding order_by
  tally-order_by p key [] = refl
  tally-order_by p key (x ∷ xs) =
      tally-insert_by p key x (order_by key xs) ∙ ground (arith, tally-order_by p key xs)

  pub tally-keep : (p q : A → Bool) (xs : List A) → tally p (keep q xs) ≡ tally (λ x. p x && q x) xs
  tally-keep p q [] = refl
  tally-keep p q (x ∷ xs) = ground (arith, tally-keep p q xs)

  pub keep-ext : (p q : A → Bool) → ((x : A) → p x ≡ q x) → (xs : List A) → keep p xs ≡ keep q xs
  keep-ext p q h [] = refl
  keep-ext p q h (x ∷ xs) = ground (arith, h x, keep-ext p q h xs)
