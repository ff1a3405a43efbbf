-- ===== src/Edge/Headers.antt =====
-- What internal/edge/proxy.go sends upstream of the headers of a call.
use Prim.Native.String.{◌++◌ as str_append}
use softmatrix_airlock.Base.{◌≡◌, refl, ◌∙◌, String, Bool, not, [], ◌∷◌, ◌++◌, keep, arith}
use softmatrix_airlock.Keys.Edge.{Key}
use softmatrix_airlock.Edge.Proxy.{Header, copy_request_headers, set_header, upstream_headers}
use text.Mathlib.Text.{◌==◌}

module _ (canonical : String → String) where
  authorizes : String × String → Bool
  authorizes f = canonical f.0 == "Authorization"

  keep-append :
      (a : Header) (f : String × String)
      → keep authorizes (a ++ f ∷ []) ≡ keep authorizes a ++ keep authorizes (f ∷ [])
  keep-append [] f = refl
  keep-append (g ∷ a) f = ground (arith, keep-append a f)

  none_left :
      (h : Header) → keep authorizes (keep (λ f. not (canonical f.0 == "Authorization")) h) ≡ []
  unfolding authorizes
  none_left [] = refl
  none_left (f ∷ h) = ground (arith, none_left h)

  -- The client's credential stays here: whatever headers come with a call, in whatever spelling and however
  -- often, the request that goes upstream has one Authorization header, with the upstream key of the record
  -- that the credential was checked against.
  pub upstream_headers-authorization :
      (k : Key) (src : Header)
      → canonical "Authorization" ≡ "Authorization"
      → keep (λ f. canonical f.0 == "Authorization") (upstream_headers canonical k src)
        ≡ ("Authorization", str_append "Bearer " k.upstream_key) ∷ []
  unfolding upstream_headers set_header authorizes
  upstream_headers-authorization k src known =
      keep-append
        (keep (λ f. not (canonical f.0 == "Authorization")) (copy_request_headers canonical src))
        ("Authorization", str_append "Bearer " k.upstream_key)
      ∙ rw (none_left (copy_request_headers canonical src), known) refl
