-- ===== src/Sync/Ordered.antt =====
-- The order of the calls that a round of internal/control/litellmsync.go makes.
use softmatrix_airlock.Base.{
  suc, ◌≡◌, refl, if◌then◌else◌, inl, inr, Bool, true, false, ◌||◌, Option, none, some, List, [],
  ◌∷◌, ◌++◌, any, arith, Bool-cases,
}
use softmatrix_airlock.Base.Text.{Text, ◌==◌ as text_eq}
use softmatrix_airlock.Sync.{
  Organization, Team, Call, create_org, update_org, create_team, update_team, Answers, SyncPlan,
  Round, may_hang, make_orgs, rename_orgs, apply_teams, run_plan,
}

abbrev pub Calls : Type 0
Calls = List (Call × Bool)

-- A call that has brought an organisation into being.
unfoldable pub has_made : Text → Call × Bool → Bool
has_made o (create_org x, done) = if done then text_eq x.id o else false
has_made o (update_org x, done) = false
has_made o (create_team t, done) = false
has_made o (update_team t, done) = false

-- An organisation that was upstream before the round, or that one of the calls has made.
unfoldable pub is_upstream : List Text → Calls → Text → Bool
is_upstream existing calls o = any (λ i. text_eq i o) existing || any (has_made o) calls

unfoldable pub has_home : List Text → Calls → Option Text → Bool
has_home existing calls none = true
has_home existing calls (some o) = is_upstream existing calls o

-- A call on a team may only follow calls after which the team's organisation is upstream.
unfoldable pub may_follow : List Text → Calls → Call → Bool
may_follow existing calls (create_org o) = true
may_follow existing calls (update_org o) = true
may_follow existing calls (create_team t) = has_home existing calls t.organization_id
may_follow existing calls (update_team t) = has_home existing calls t.organization_id

pub data Ordered (existing : List Text) : Calls → Type 0 where
  start : Ordered existing []
  next :
      {calls : Calls}
      → (c : Call) (done : Bool) → Ordered existing calls
      → may_follow existing calls c ≡ true
      → Ordered existing (calls ++ (c, done) ∷ [])

abbrev Backed : List Text → Round → Type 0
Backed existing r =
    (o : Text) → any (λ i. text_eq i o) r.live_orgs ≡ true → is_upstream existing r.calls o ≡ true

any-snoc :
    {A : Type 0} (p : A → Bool) (xs : List A) (x : A) → any p (xs ++ x ∷ []) ≡ any p xs || p x
any-snoc p [] x = ground arith
any-snoc p (y ∷ ys) x = ground (arith, any-snoc p ys x)

is_upstream-later :
    (existing : List Text) (calls : Calls) (c : Call × Bool) (o : Text)
    → is_upstream existing calls o ≡ true
    → is_upstream existing (calls ++ c ∷ []) o ≡ true
unfolding is_upstream
is_upstream-later existing calls c o h = ground (arith, any-snoc (has_made o) calls c)

module _ (ans : Answers) (existing : List Text) where
  abbrev Good : Round → Type 0
  Good r = Ordered existing r.calls × Backed existing r

  Backed-later :
      (r : Round) (c : Call × Bool)
      → Backed existing r
      → Backed existing (record r { calls = r.calls ++ c ∷ [] })
  Backed-later r c b o h = is_upstream-later existing r.calls c o (b o h)

  has_home-live :
      (r : Round) (o : Option Text)
      → Backed existing r
      → may_hang ans r.live_orgs o ≡ true
      → has_home existing r.calls o ≡ true
  unfolding has_home
  has_home-live r none b h = refl
  has_home-live r (some o) b h = b o h

  -- An organisation becomes live with the call that makes it.
  create_org-Backed :
      (o : Organization) (done : Bool) (r : Round)
      → Backed existing r
      → Backed existing (record r {
        calls = r.calls ++ (create_org o, done) ∷ [];
        live_orgs = if done then o.id ∷ r.live_orgs else r.live_orgs;
      })
  unfolding is_upstream has_made
  create_org-Backed o false r b i h =
      is_upstream-later existing r.calls (create_org o, false) i (b i h)
  create_org-Backed o true r b i h = elim (Bool-cases (any (λ x. text_eq x i) r.live_orgs)) [
    | inl t ↦ is_upstream-later existing r.calls (create_org o, true) i (b i t)
    | inr f ↦ ground (arith, any-snoc (has_made i) r.calls (create_org o, true))
  ]

  make_orgs-Good : (os : List Organization) (r : Round) → Good r → Good (make_orgs ans os r)
  unfolding make_orgs may_follow
  make_orgs-Good [] r g = g
  make_orgs-Good (o ∷ os) r (t, b) = make_orgs-Good os _ (
    next (create_org o) (ans (create_org o)) t refl,
    create_org-Backed o (ans (create_org o)) r b,
  )

  rename_orgs-Good : (os : List Organization) (r : Round) → Good r → Good (rename_orgs ans os r)
  unfolding rename_orgs may_follow
  rename_orgs-Good [] r g = g
  rename_orgs-Good (o ∷ os) r (t, b) =
      rename_orgs-Good os _ (next (update_org o) (ans (update_org o)) t refl, Backed-later r _ b)

  if-Good :
      (b : Bool) (x y : Round)
      → (b ≡ true → Good x)
      → (b ≡ false → Good y)
      → Good (if b then x else y)
  if-Good true x y f g = f refl
  if-Good false x y f g = g refl

  apply_teams-Good :
      (act : Team → Call)
      → ((calls : Calls) (t : Team)
          → has_home existing calls t.organization_id ≡ true
          → may_follow existing calls (act t) ≡ true)
      → (ts : List Team) (r : Round) → Good r
      → Good (apply_teams ans act ts r)
  unfolding apply_teams
  apply_teams-Good act may [] r g = g
  apply_teams-Good act may (t ∷ ts) r (o, b) = apply_teams-Good act may ts _ (
      if-Good (may_hang ans r.live_orgs t.organization_id)
        (record r { calls = r.calls ++ (act t, ans (act t)) ∷ [] })
        (record r { skipped = suc r.skipped })
        (λ e. (
          next (act t) (ans (act t)) o (may r.calls t (has_home-live r t.organization_id b e)),
          Backed-later r _ b,
        ))
        (λ e. (o, b)))

  first-Good : Good (record { calls = []; live_orgs = existing; skipped = 0 })
  unfolding is_upstream
  first-Good = (start, λ o h. ground arith)

-- Through a whole round, every call that creates or changes a team of an organisation comes when the
-- organisation is upstream: it was before the round, or an earlier call of the round has created it with
-- success. This holds for every plan, whichever of the calls fail.
pub run_plan-Ordered :
    (ans : Answers) (p : SyncPlan) → Ordered p.existing_orgs (run_plan ans p).calls
unfolding run_plan may_follow is_upstream
run_plan-Ordered ans p =
    (apply_teams-Good ans p.existing_orgs update_team (λ calls t h. h) p.mismatched_teams _
      (apply_teams-Good ans p.existing_orgs create_team (λ calls t h. h) p.missing_teams _
        (rename_orgs-Good ans p.existing_orgs p.mismatched_orgs _ (
          make_orgs-Good ans p.existing_orgs p.missing_orgs _ (first-Good ans p.existing_orgs))))).0
