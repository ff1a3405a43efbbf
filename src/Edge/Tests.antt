-- ===== src/Edge/Tests.antt =====
-- A stream of three lines behind a call, and the witnesses. A line "data:c" has content, "data:u" usage.
use Prim.Native.String.{◌++◌ as str_append}
use softmatrix_airlock.Base.{
  ℕ, ◌≡◌, refl, ◌⊎◌, String, true, false, Option, none, some, List, [], ◌∷◌, keep, if◌then◌else◌,
}
use softmatrix_airlock.Base.Int.{pos}
use softmatrix_airlock.Base.Text.{Text, bytes, ◌==◌ as text_eq}
use softmatrix_airlock.Keys.Model.{active}
use softmatrix_airlock.Keys.Edge.{Key}
use softmatrix_airlock.Edge.OpenAi.{Decoders}
use softmatrix_airlock.Edge.Stream.{Fields, pipe_stream}
use softmatrix_airlock.Edge.Proxy.{
  Record, Header, Sent, replied, Response, aborted, Call, upstream_headers, serve_http,
}
use softmatrix_airlock.Edge.Faithful.{relayed, first_told, pipe_stream-lines}
use softmatrix_airlock.Edge.Owner.{owner}
use softmatrix_airlock.Edge.Billing.{Settled}
use softmatrix_airlock.Edge.Accounted.{serve_http-accounted}
use softmatrix_airlock.Edge.Headers.{upstream_headers-authorization}
use text.Mathlib.Text.{◌==◌}

abbrev used : Text
used = bytes "u"

abbrev json : Decoders
json = record {
  wire_response = λ t. some (record {
    model = bytes "m";
    usage =
        if text_eq t used
        then some (record {
          prompt_tokens = pos 3;
          completion_tokens = pos 4;
          cached_tokens = none;
          reasoning_tokens = none;
        })
        else none;
  });
  usage_field = λ t. some (if text_eq t used then bytes "1" else []);
  chunk = λ t.
      some (record { choices = record { delta = t; has_finish_reason = true } ∷ []; usage = [] });
  is_empty_object = λ t. false;
  trim_space = λ t. t;
}

abbrev lines : List (Text × ℕ)
lines = (bytes "data:c", 5) ∷ ([], 5) ∷ (bytes "data:u", 8) ∷ (bytes "data:[DONE]", 9) ∷ []

pipe_stream-lines_example :
    pipe_stream json true lines ≡ (relayed json true lines, first_told json lines)
pipe_stream-lines_example = pipe_stream-lines json true lines

abbrev key : Key
key = record {
  id = "k1";
  prefix = [];
  org_id = bytes "o";
  user_id = "u1";
  upstream_key = "sk-1";
  status = active;
  expires_at = none;
  via_prev_key = false;
  prev_key_expires_at = none;
}

abbrev call : Call
call = record {
  request_id = "r1";
  timestamp = 10;
  latency_ms = 3;
  header = ("authorization", "Bearer ak-1") ∷ ("Accept", "*/*") ∷ [];
  body = some (bytes "{}");
}

abbrev upstream : Header → Text → Sent
upstream h body =
    replied (record { status = 200; header = []; whole = none; lines = lines; scan_error = none })

abbrev canonical : String → String
canonical s = if s == "authorization" then "Authorization" else s

abbrev decode_map : Text → Option (Option Fields)
decode_map t = some (some [])

abbrev encode_map : Fields → Text
encode_map f = bytes "{}"

serve_http-accounted_example :
    (response : Response) × (rec : Record) × (serve_http json []
        (λ t. true)
        decode_map
        encode_map
        canonical
        upstream
        (some key)
        call
      ≡ (response, rec ∷ []))
    × (owner rec ≡ ("r1", (10, (bytes "o", ("u1", "k1")))))
    × (Settled [] rec ⊎ ((response ≡ aborted) × (rec.cost_micro ≡ pos 0)))
serve_http-accounted_example =
    serve_http-accounted json [] (λ t. true) decode_map encode_map canonical upstream key call

upstream_headers-authorization_example :
    keep (λ f. canonical f.0 == "Authorization") (upstream_headers canonical key call.header)
    ≡ ("Authorization", str_append "Bearer " "sk-1") ∷ []
upstream_headers-authorization_example =
    upstream_headers-authorization canonical key call.header refl
