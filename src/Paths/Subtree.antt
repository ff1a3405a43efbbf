-- ===== src/Paths/Subtree.antt =====
-- The subtree test on paths is the prefix order on chains of ids: "/root/rd" does not take in
-- "/root/rd2".
use softmatrix_airlock.Base.{
  ◌≡◌, refl, sym, ap, ◌∙◌, Bool, true, false, ◌&&◌, ◌||◌, List, [], ◌∷◌, ◌++◌, arith, All, ◌⊎◌, inl,
  inr, Bool-cases,
}
use mathlib.Core.List.{append_assoc}
use softmatrix_airlock.Base.Text.{
  Text, ◌==◌, has_prefix, eq_refl, eq→path, has_prefix→append, has_prefix-append,
}
use softmatrix_airlock.Paths.{slash, in_subtree, path_of, slash_free, IsId}

-- One chain of ids begins another.
unfoldable pub is_prefix : List Text → List Text → Bool
is_prefix [] ts = true
is_prefix (h ∷ hs) [] = false
is_prefix (h ∷ hs) (t ∷ ts) = t == h && is_prefix hs ts

-- What stands behind an id: the end, or a slash.
abbrev IsRest : Text → Type 0
IsRest [] = Unit
IsRest (c ∷ cs) = c ≡ slash

path_of-IsRest : (ids : List Text) → IsRest (path_of ids)
unfolding path_of
path_of-IsRest [] = tt
path_of-IsRest (id ∷ ids) = refl

has_prefix-split :
    (a b s t : Text)
    → slash_free a ≡ true
    → slash_free b ≡ true
    → IsRest s
    → has_prefix (b ++ s) (a ++ slash ∷ t) ≡ (b == a && has_prefix s (slash ∷ t))
unfolding has_prefix ◌==◌
has_prefix-split [] [] s t ha hb hs = refl
has_prefix-split [] (c ∷ b) s t ha hb hs = ground arith
has_prefix-split (c ∷ a) [] [] t ha hb hs = refl
has_prefix-split (c ∷ a) [] (d ∷ s) t ha hb hs = ground arith
has_prefix-split (c ∷ a) (d ∷ b) s t ha hb hs = ground (arith, has_prefix-split a b s t)

eq-split :
    (a b s t : Text)
    → slash_free a ≡ true
    → slash_free b ≡ true
    → IsRest s
    → IsRest t
    → ((b ++ s) == (a ++ t)) ≡ (b == a && s == t)
unfolding ◌==◌
eq-split [] [] s t ha hb hs ht = refl
eq-split [] (c ∷ b) s [] ha hb hs ht = refl
eq-split [] (c ∷ b) s (d ∷ t) ha hb hs ht = ground arith
eq-split (c ∷ a) [] [] t ha hb hs ht = refl
eq-split (c ∷ a) [] (d ∷ s) t ha hb hs ht = ground arith
eq-split (c ∷ a) (d ∷ b) s t ha hb hs ht = ground (arith, eq-split a b s t)

-- The path of a chain with the separator behind it begins with a slash.
tail_of : List Text → Text
tail_of [] = []
tail_of (id ∷ ids) = id ++ (path_of ids ++ slash ∷ [])

path_of-slash : (ids : List Text) → path_of ids ++ slash ∷ [] ≡ slash ∷ tail_of ids
unfolding path_of tail_of
path_of-slash [] = refl
path_of-slash (id ∷ ids) = ap (λ r. slash ∷ r) (append_assoc id (path_of ids) (slash ∷ []))

has_prefix-below :
    (h t : Text) (hs ts : List Text)
    → slash_free h ≡ true
    → slash_free t ≡ true
    → has_prefix (t ++ path_of ts) ((h ++ path_of hs) ++ slash ∷ [])
      ≡ (t == h && has_prefix (path_of ts) (path_of hs ++ slash ∷ []))
has_prefix-below h t hs ts fh ft =
    rw (append_assoc h (path_of hs) (slash ∷ []), path_of-slash hs)
      (has_prefix-split h t (path_of ts) (tail_of hs) fh ft (path_of-IsRest ts))

distribute : (e p q : Bool) → ((e && p) || (e && q)) ≡ (e && (p || q))
distribute e p q = ground arith

in_subtree-slash :
    (s t : Text) → in_subtree (slash ∷ s) (slash ∷ t) ≡ (t == s || has_prefix t (s ++ slash ∷ []))
unfolding in_subtree ◌==◌ has_prefix
in_subtree-slash s t = refl

in_subtree-below :
    (h t : Text) (hs ts : List Text)
    → slash_free h ≡ true
    → slash_free t ≡ true
    → in_subtree (path_of (h ∷ hs)) (path_of (t ∷ ts))
      ≡ (t == h && in_subtree (path_of hs) (path_of ts))
unfolding path_of
in_subtree-below h t hs ts fh ft =
    in_subtree-slash (h ++ path_of hs) (t ++ path_of ts)
    ∙ rw
        (
          eq-split h t (path_of ts) (path_of hs) fh ft (path_of-IsRest ts) (path_of-IsRest hs),
          has_prefix-below h t hs ts fh ft,
        )
        (unfold in_subtree in distribute (t == h) _ _)

-- The program's subtree test, on the paths of two chains of ids, is the prefix order on the chains.
pub in_subtree-path_of :
    (home target : List Text)
    → All IsId home
    → All IsId target
    → in_subtree (path_of home) (path_of target) ≡ is_prefix home target
in_subtree-path_of [] [] hh ht = unfold in_subtree path_of is_prefix ◌==◌ in refl
in_subtree-path_of [] (t ∷ ts) hh ht = unfold in_subtree path_of is_prefix ◌==◌ has_prefix in refl
in_subtree-path_of (h ∷ hs) [] hh ht = unfold in_subtree path_of is_prefix ◌==◌ has_prefix in refl
in_subtree-path_of (h ∷ hs) (t ∷ ts) hh ht =
    in_subtree-below h t hs ts hh.0.no_slash ht.0.no_slash
    ∙ rw (in_subtree-path_of hs ts hh.1 ht.1) (unfold is_prefix in refl)

-- The two ways to lie in a subtree, on any texts.
pub in_subtree-cases :
    (home target : Text)
    → in_subtree home target ≡ true
    → (target ≡ home) ⊎ ((rest : Text) × (target ≡ (home ++ slash ∷ []) ++ rest))
in_subtree-cases home target h = elim (Bool-cases (target == home)) [
  | inl e ↦ inl (eq→path target home e)
  | inr e ↦ inr (has_prefix→append target (home ++ slash ∷ []) (unfold in_subtree in ground arith))
]

pub in_subtree-append : (home rest : Text) → in_subtree home (home ++ slash ∷ rest) ≡ true
unfolding in_subtree
in_subtree-append home rest =
    let e : has_prefix (home ++ slash ∷ rest) (home ++ slash ∷ []) ≡ true =
      rw (sym (append_assoc home (slash ∷ []) rest))
        (has_prefix-append (home ++ slash ∷ []) rest) in
    ground arith

pub in_subtree_self : (home : Text) → in_subtree home home ≡ true
unfolding in_subtree
in_subtree_self home = rw (eq_refl home)

-- The subtree of a node holds the subtrees of its members.
pub in_subtree_trans :
    (home a d : Text) → in_subtree home a ≡ true → in_subtree a d ≡ true → in_subtree home d ≡ true
in_subtree_trans home a d p q = elim (in_subtree-cases home a p) [
  | inl e ↦ rw (← e) q
  | inr (r, e) ↦ elim (in_subtree-cases a d q) [
    | inl f ↦ rw f p
    | inr (t, f) ↦
        rw
          (
            f,
            e,
            append_assoc home (slash ∷ []) r,
            append_assoc home (slash ∷ r) (slash ∷ []),
            append_assoc home ((slash ∷ r) ++ slash ∷ []) t,
          )
          (in_subtree-append home ((r ++ slash ∷ []) ++ t))
  ]
]
