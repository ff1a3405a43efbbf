-- ===== src/Edge/Proxy.antt =====
-- internal/edge/proxy.go: one call of `ServeHTTP`. The request's body, the upstream and the clock are given;
-- a header is the list of its fields in order, `canonical` is `http.CanonicalHeaderKey`.
use Prim.Native.String.{◌++◌ as str_append}
use softmatrix_airlock.Base.{
  ℕ, String, Bool, true, false, ◌&&◌, not, Option, none, some, List, [], ◌∷◌, ◌++◌, any, keep, ok,
  err, if◌then◌else◌, ◌==◌ as eq_ℕ,
}
use softmatrix_airlock.Base.Int.{pos}
use softmatrix_airlock.Base.Text.{Text, bytes}
use softmatrix_airlock.Pricing.Model.{Micro}
use softmatrix_airlock.Pricing.Model as Pricing
use softmatrix_airlock.Pricing.Table.{Entries, lookup}
use softmatrix_airlock.Keys.Edge.{Key}
use softmatrix_airlock.Edge.OpenAi.{Decoders, extract_usage}
use softmatrix_airlock.Edge.OpenAi as OpenAi
use softmatrix_airlock.Edge.Stream.{
  ScanError, too_long, read_failed, Fields, included, not_json, panics, ensure_include_usage,
  pipe_stream,
}
use text.Mathlib.Text.{◌==◌}

-- internal/usage/record.go. A time is in milliseconds.
pub record Record : Type 0 where
  pub request_id : String
  pub timestamp : ℕ
  pub org_id : Text
  pub user_id : String
  pub key_id : String
  pub provider : Text
  pub model : Text
  pub usage : Pricing.Usage
  pub cost_micro : Micro
  pub status_code : ℕ
  pub latency_ms : ℕ
  pub ttft_ms : ℕ
  pub stream : Bool
  pub error_type : String

abbrev pub Header : Type 0
Header = List (String × String)

unfoldable pub to_pricing_usage : OpenAi.Usage → Pricing.Usage
to_pricing_usage u = record {
  input_tokens = u.prompt_tokens;
  cached_input_tokens = u.cached_tokens;
  output_tokens = u.completion_tokens;
  reasoning_tokens = u.reasoning_tokens;
}

unfoldable pub hop_by_hop_headers : List String
hop_by_hop_headers =
    "Connection" ∷ "Keep-Alive" ∷ "Proxy-Authenticate" ∷ "Proxy-Authorization" ∷ "Te" ∷ "Trailer"
    ∷ "Transfer-Encoding" ∷ "Upgrade" ∷ []

abbrev pub is_hop_by_hop : String → Bool
is_hop_by_hop k = any (λ h. h == k) hop_by_hop_headers

module _ (canonical : String → String) where
  unfoldable pub copy_request_headers : Header → Header
  copy_request_headers src =
      keep (λ f. not (is_hop_by_hop (canonical f.0)) && not (canonical f.0 == "Authorization")) src

  unfoldable pub copy_response_headers : Header → Header
  copy_response_headers src = keep (λ f. not (is_hop_by_hop (canonical f.0))) src

  -- Set on a header whose keys are canonical.
  unfoldable pub set_header : String → String → Header → Header
  set_header name value h = keep (λ f. not (canonical f.0 == name)) h ++ (name, value) ∷ []

  -- What goes upstream under the key of the request.
  unfoldable pub upstream_headers : Key → Header → Header
  unfolding copy_request_headers set_header
  upstream_headers k src =
      set_header "Authorization" (str_append "Bearer " k.upstream_key) (copy_request_headers src)

-- `cost`: the micros, and the kind of error where there is one.
unfoldable pub cost : Entries → Record → Micro × Record
cost prices rec = elim (lookup prices rec.provider rec.model rec.timestamp) [
  | err e ↦ (pos 0, record rec { error_type = "price_not_found" })
  | ok price ↦ elim (Pricing.cost price rec.usage) [
    | err e ↦ (pos 0, record rec { error_type = "cost_calc_failed" })
    | ok micro ↦ (micro, rec)
  ]
]

-- `rec.CostMicro = p.cost(&rec)`
unfoldable pub priced : Entries → Record → Record
unfolding cost
priced prices rec = let (micro, rec') = cost prices rec in record rec' { cost_micro = micro }

-- A body that is read in one piece, or by lines. One that breaks off has no `whole`: what was copied of an
-- error's body until then is left out.
pub record Reply : Type 0 where
  pub status : ℕ
  pub header : Header
  pub whole : Option Text
  pub lines : List (Text × ℕ)
  pub scan_error : Option ScanError

-- What became of the request to the upstream.
pub data Sent : Type 0 where
  not_built unreachable : Sent
  replied : Reply → Sent

pub data Response : Type 0 where
  refused : ℕ → String → Response
  aborted : Response
  passed : ℕ → Header → List Text → Response

pub record Call : Type 0 where
  pub request_id : String
  pub timestamp : ℕ
  pub latency_ms : ℕ
  pub header : Header
  pub body : Option Text

abbrev nothing_used : Pricing.Usage
nothing_used = record {
  input_tokens = pos 0;
  cached_input_tokens = pos 0;
  output_tokens = pos 0;
  reasoning_tokens = pos 0;
}

unfoldable pub start_record : Key → Call → Record
start_record k c = record {
  request_id = c.request_id;
  timestamp = c.timestamp;
  org_id = k.org_id;
  user_id = k.user_id;
  key_id = k.id;
  provider = bytes "litellm";
  model = [];
  usage = nothing_used;
  cost_micro = pos 0;
  status_code = 0;
  latency_ms = c.latency_ms;
  ttft_ms = 0;
  stream = false;
  error_type = "";
}

unfoldable pub scan_error_type : ScanError → String
scan_error_type too_long = "sse_line_too_long"
scan_error_type read_failed = "stream_read_failed"

abbrev or_zero : Option ℕ → ℕ
or_zero none = 0
or_zero (some n) = n

module _ (json : Decoders) (prices : Entries) where
  -- The end of a stream.
  unfoldable pub finish_stream : Option ScanError → Option OpenAi.Usage → Record → Record
  unfolding priced scan_error_type to_pricing_usage
  finish_stream (some e) none rec = record rec { error_type = scan_error_type e }
  finish_stream none none rec = record rec { error_type = "usage_missing" }
  finish_stream e (some u) rec = priced prices (record rec { usage = to_pricing_usage u })

  -- The end of a body that was read as a whole.
  unfoldable pub finish_whole : Option Text → Record → Record
  unfolding priced to_pricing_usage
  finish_whole none rec = record rec { error_type = "read_response_failed" }
  finish_whole (some body) rec = elim (extract_usage json body) [
    | none ↦ record rec { error_type = "usage_parse_failed" }
    | some found ↦ priced prices (record rec { model = found.1; usage = to_pricing_usage found.0 })
  ]

  abbrev pub pieces : Option Text → List Text
  pieces none = []
  pieces (some body) = body ∷ []

  -- From the reply on.
  unfoldable pub relay : (String → String) → Bool → Reply → Record → Response × Record
  unfolding finish_stream finish_whole copy_response_headers
  relay canonical strip reply rec =
      let rec' = record rec { status_code = reply.status } in
      let header = copy_response_headers canonical reply.header in
      if not (eq_ℕ reply.status 200)
      then (
        passed reply.status header (pieces reply.whole),
        record rec' { error_type = "upstream_error" },
      )
      else if rec.stream
      then (let (out, o) = pipe_stream json strip reply.lines in
          (
            passed reply.status header out,
            finish_stream reply.scan_error o.usage
                (record rec' { ttft_ms = or_zero o.ttft; model = o.model }),
          ))
      else (passed reply.status header (pieces reply.whole), finish_whole reply.whole rec')

  -- From the request to the upstream on; the upstream may be out of reach.
  unfoldable pub forward :
      (String → String)
      → (Header → Text → Sent)
      → Key
      → Header
      → Text
      → Bool
      → Record
      → Response × Record
  unfolding relay upstream_headers
  forward canonical upstream k header body strip rec =
      elim (upstream (upstream_headers canonical k header) body) [
        | not_built ↦ (
          refused 500 "internal_error",
          record rec { status_code = 500; error_type = "build_request_failed" },
        )
        | unreachable ↦ (
          refused 502 "upstream_unreachable",
          record rec { status_code = 502; error_type = "upstream_unreachable" },
        )
        | replied reply ↦ relay canonical strip reply rec
      ]

  module _ (is_stream_request : Text → Bool) (decode_map : Text → Option (Option Fields))
      (encode_map : Fields → Text) where
    -- A call with a key: the response, and the record as the deferred function finds it.
    unfoldable pub serve_key :
        (String → String) → (Header → Text → Sent) → Key → Call → Response × Record
    unfolding start_record forward ensure_include_usage
    serve_key canonical upstream k c = elim c.body [
      | none ↦ (
        refused 400 "invalid_request",
        record (start_record k c) { status_code = 400; error_type = "read_request_body_failed" },
      )
      | some body ↦
          if not (is_stream_request body)
          then forward canonical upstream k c.header body false (start_record k c)
          else elim (ensure_include_usage decode_map encode_map body) [
            | not_json ↦ (
              refused 400 "invalid_request",
              record (start_record k c) {
                stream = true;
                status_code = 400;
                error_type = "invalid_request_body";
              },
            )
            | panics ↦ (aborted, record (start_record k c) { stream = true })
            | included sent injected ↦
                forward canonical upstream k c.header sent injected
                  (record (start_record k c) { stream = true })
          ]
    ]

    -- The key is what the authentication left in the context; with the response, the records that are
    -- written.
    unfoldable pub serve_http :
        (String → String) → (Header → Text → Sent) → Option Key → Call → Response × List Record
    unfolding serve_key
    serve_http canonical upstream none c = (refused 500 "internal_error", [])
    serve_http canonical upstream (some k) c =
        let (response, rec) = serve_key canonical upstream k c in (response, rec ∷ [])
