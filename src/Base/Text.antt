-- ===== src/Base/Text.antt =====
-- Go strings as lists of bytes, where the program cuts them: equality, prefixes, `strings.Split`.
use Prim.Native.Nat.{ℕ}
use Prim.Native.Char.{code}
use Prim.Native.String.{String}
use mathlib.Core.Path.{◌≡◌, refl, ap₂}
use mathlib.Core.Logic.{◌↔◌}
use mathlib.Core.Bool.{Bool, true, false, ◌&&◌}
use mathlib.Core.List.{List, [], ◌∷◌, ◌++◌}
use native.Mathlib.Omega.{arith}
use softmatrix_airlock.Base.Logic.{◌==◌ as eq_ℕ}

abbrev pub Text : Type 0
Text = List ℕ

-- The bytes of an ASCII literal.
abbrev pub bytes : String → Text
bytes String.[] = []
bytes (String.◌∷◌ c s) = code c ∷ bytes s

infix 50 ◌==◌
unfoldable pub ◌==◌ : Text → Text → Bool
[] == [] = true
[] == (y ∷ ys) = false
(x ∷ xs) == [] = false
(x ∷ xs) == (y ∷ ys) = eq_ℕ x y && xs == ys

pub eq→path : (s t : Text) → (s == t) ≡ true → s ≡ t
unfolding ◌==◌
eq→path [] [] h = refl
eq→path [] (y ∷ ys) h = ground arith
eq→path (x ∷ xs) [] h = ground arith
eq→path (x ∷ xs) (y ∷ ys) h = ground (arith, eq→path xs ys)

pub eq_refl : (s : Text) → (s == s) ≡ true
unfolding ◌==◌
eq_refl [] = refl
eq_refl (x ∷ xs) = ground (arith, eq_refl xs)

pub eq_iff : (s t : Text) → ((s == t) ≡ true) ↔ (s ≡ t)
eq_iff s t = (eq→path s t, λ p. rw p (eq_refl t))

-- strings.HasPrefix(s, p), with the text first as in Go.
unfoldable pub has_prefix : Text → Text → Bool
has_prefix s [] = true
has_prefix [] (y ∷ ys) = false
has_prefix (x ∷ xs) (y ∷ ys) = eq_ℕ x y && has_prefix xs ys

-- The text that a prefix leaves.
pub has_prefix→append : (s p : Text) → has_prefix s p ≡ true → (rest : Text) × (s ≡ p ++ rest)
unfolding has_prefix
has_prefix→append s [] h = (s, refl)
has_prefix→append [] (y ∷ ys) h = absurd (ground arith)
has_prefix→append (x ∷ xs) (y ∷ ys) h =
    let ih = has_prefix→append xs ys (ground arith) in
    let e : x ≡ y = ground arith in (ih.0, ap₂ ◌∷◌ e ih.1)

pub has_prefix-append : (p rest : Text) → has_prefix (p ++ rest) p ≡ true
unfolding has_prefix
has_prefix-append [] rest = refl
has_prefix-append (y ∷ ys) rest = ground (arith, has_prefix-append ys rest)
