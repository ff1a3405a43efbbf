-- ===== src/Console/Enforced.antt =====
-- What a request has passed when the handler of its route succeeds (internal/control/{server,routes,auth}.go).
use softmatrix_airlock.Base.{
  Bool, if◌then◌else◌, ℕ, ◌≡◌, refl, ap, ◌∙◌, ◌⊎◌, inl, inr, String, true, ◌&&◌, not, Option, none,
  some, Result, ok, arith, Bool-cases, Option-cases, Result-cases,
}
use softmatrix_airlock.Base.Text.{Text}
use softmatrix_airlock.Authz.Resolver.{Store, can, is_org_not_found}
use softmatrix_airlock.Authz.Spec.{Allowed}
use softmatrix_airlock.Authz.Decision.Can.{can-decides}
use softmatrix_airlock.Users.Model.{User, Session, is_enabled}
use softmatrix_airlock.Users.Model as Users
use softmatrix_airlock.Users.Sessions.{Sessions, get_session, touch_session}
use softmatrix_airlock.Users.Store.{by_id}
use softmatrix_airlock.License.{Gate, allow_write}
use softmatrix_airlock.Console.{Refusal, refuse, subject_of, user_of}
use softmatrix_airlock.Console.Routes.{
  Route, Request, target_of, needs_license, needs_permission, is_public, check_permission, enforce,
  require_session, serve,
}

-- A live session, of a user who is there and enabled.
pub record SignedIn (hash : String → String) (users : Users.Table) (sessions : Sessions) (now : ℕ)
    (r : Request) (u : User) : Type 0 where
  pub token : String
  pub cookie : r.cookie ≡ some token
  pub session : Session
  pub live : get_session (hash token) now sessions ≡ ok session
  pub owner : by_id session.user_id users ≡ ok u
  pub enabled : is_enabled u.status ≡ true

module _ (store : Store) (gate : Gate) (now : ℕ) where
  pub record MayRun (rt : Route) (r : Request) (user : Option User) : Type 0 where
    pub licensed : needs_license rt.license ≡ true → allow_write gate now ≡ true
    pub permitted :
        needs_permission rt.access ≡ true
        → (u : User) × (target : Option Text) × (user ≡ some u)
          × (target_of rt.target r ≡ some target)
          × Allowed store (subject_of u) rt.permission target

module _ {A : Type 0} (store : Store) (gate : Gate) (now : ℕ) where
  check_permission-Allowed :
      (rt : Route) (r : Request) (user : Option User) (handler : Option User → Result Refusal A)
      (a : A)
      → check_permission store gate now rt r user handler ≡ ok a
      → ((u : User) × (target : Option Text) × (user ≡ some u)
          × (target_of rt.target r ≡ some target)
          × Allowed store (subject_of u) rt.permission target)
        × (handler user ≡ ok a)
  unfolding check_permission user_of refuse
  check_permission-Allowed rt r none handler a h = absurd (ground arith)
  check_permission-Allowed rt r (some u) handler a h = elim (Option-cases (target_of rt.target r)) [
    | inl e ↦ absurd (ground arith)
    | inr (target, e) ↦ elim (Result-cases (can store (subject_of u) rt.permission target)) [
      | inr (x, f) ↦ elim (Bool-cases (is_org_not_found x)) [
        | inl y ↦ absurd (ground arith)
        | inr y ↦ absurd (ground arith)
      ]
      | inl (allowed, f) ↦ elim (Bool-cases allowed) [
        | inr g ↦ absurd (ground arith)
        | inl g ↦ (
          (
            u,
            target,
            refl,
            e,
            (can-decides store (subject_of u) rt.permission target true (f ∙ ap ok g)).0 refl,
          ),
          ground arith,
        )
      ]
    ]
  ]

  enforce-MayRun :
      (rt : Route) (r : Request) (user : Option User) (handler : Option User → Result Refusal A)
      (a : A)
      → enforce store gate now rt r user handler ≡ ok a
      → MayRun store gate now rt r user × (handler user ≡ ok a)
  unfolding enforce refuse
  enforce-MayRun rt r user handler a h =
      elim (Bool-cases (needs_license rt.license && not (allow_write gate now))) [
        | inl l ↦ absurd (ground arith)
        | inr l ↦ elim (Bool-cases (needs_permission rt.access)) [
          | inr p ↦ (
            record { licensed = λ n. ground arith; permitted = λ n. absurd (ground arith) },
            ground arith,
          )
          | inl p ↦
              let (given, runs) = check_permission-Allowed rt r user handler a (ground arith) in
              (record { licensed = λ n. ground arith; permitted = λ n. given }, runs)
        ]
      ]

  -- No handler behind a guard answers without it: where a request succeeds on any route, the route is
  -- public, or the request's cookie names a session that has not expired, of a user who is there and
  -- enabled, and that session alone was touched, or none where that UPDATE fails; a route that needs a
  -- valid licence was within it; and on a route that declares a permission the specification allows that
  -- user that permission on the target that the route extracts (no public route declares one).
  pub serve-guarded :
      (hash : String → String) (touches : Bool) (users : Users.Table)
      (sessions sessions' : Sessions) (rt : Route) (r : Request)
      (handler : Option User → Result Refusal A) (a : A)
      → serve store gate now hash touches users sessions rt r handler ≡ (ok a, sessions')
      → ((is_public rt.access ≡ true)
          × (sessions' ≡ sessions)
          × MayRun store gate now rt r none
          × (handler none ≡ ok a))
        ⊎ ((u : User) × (w : SignedIn hash users sessions now r u) × (sessions'
              ≡ (if touches then touch_session w.session.id now sessions else sessions))
            × MayRun store gate now rt r (some u)
            × (handler (some u) ≡ ok a))
  unfolding serve require_session refuse
  serve-guarded hash touches users sessions sessions' rt r handler a h =
      elim (Bool-cases (is_public rt.access)) [
        | inl p ↦
            let (may, runs) = enforce-MayRun rt r none handler a (ground arith) in
            inl (p, ground arith, may, runs)
        | inr p ↦ elim (Option-cases r.cookie) [
          | inl c ↦ absurd (ground arith)
          | inr (token, c) ↦ elim (Result-cases (get_session (hash token) now sessions)) [
            | inr (e, l) ↦ absurd (ground arith)
            | inl (sess, l) ↦ elim (Result-cases (by_id sess.user_id users)) [
              | inr (e, o) ↦ absurd (ground arith)
              | inl (u, o) ↦ elim (Bool-cases (is_enabled u.status)) [
                | inr d ↦ absurd (ground arith)
                | inl d ↦
                    let (may, runs) = enforce-MayRun rt r (some u) handler a (ground arith) in
                    let w : SignedIn hash users sessions now r u = record {
                      token = token;
                      cookie = c;
                      session = sess;
                      live = l;
                      owner = o;
                      enabled = d;
                    } in
                    inr (u, w, ground arith, may, runs)
              ]
            ]
          ]
        ]
      ]
