-- ===== src/Edge/Owner.antt =====
-- Whose call a record of internal/edge/proxy.go is, from its beginning to its end.
use softmatrix_airlock.Base.{
  ℕ, ◌≡◌, refl, inl, inr, String, Bool, Option, none, some, Bool-cases, Option-cases, Result-cases,
  ◌==◌ as eq_ℕ,
}
use softmatrix_airlock.Base.Text.{Text}
use softmatrix_airlock.Pricing.Model as Pricing
use softmatrix_airlock.Pricing.Table.{Entries, lookup}
use softmatrix_airlock.Keys.Edge.{Key}
use softmatrix_airlock.Edge.OpenAi.{Decoders, extract_usage}
use softmatrix_airlock.Edge.OpenAi as OpenAi
use softmatrix_airlock.Edge.Stream.{ScanError}
use softmatrix_airlock.Edge.Proxy.{
  Record, Header, upstream_headers, cost, priced, Reply, Sent, not_built, unreachable, replied,
  Response, refused, finish_stream, finish_whole, relay, forward,
}

-- Whose call it was.
abbrev pub owner : Record → String × (ℕ × (Text × (String × String)))
owner rec = (rec.request_id, (rec.timestamp, (rec.org_id, (rec.user_id, rec.key_id))))

priced-owner : (prices : Entries) (rec : Record) → owner (priced prices rec) ≡ owner rec
unfolding priced cost
priced-owner prices rec = elim (Result-cases (lookup prices rec.provider rec.model rec.timestamp)) [
  | inr (x, f) ↦ rw (priced, cost, f) refl
  | inl (price, f) ↦ elim (Result-cases (Pricing.cost price rec.usage)) [
    | inr (x, g) ↦ rw (priced, cost, f, g) refl
    | inl (micro, g) ↦ rw (priced, cost, f, g) refl
  ]
]

module _ (json : Decoders) (prices : Entries) where
  finish_stream-owner :
      (scan : Option ScanError) (u : Option OpenAi.Usage) (rec : Record)
      → owner (finish_stream json prices scan u rec) ≡ owner rec
  unfolding finish_stream
  finish_stream-owner (some e) none rec = refl
  finish_stream-owner none none rec = refl
  finish_stream-owner none (some u) rec = priced-owner prices _
  finish_stream-owner (some e) (some u) rec = priced-owner prices _

  finish_whole-owner :
      (whole : Option Text) (rec : Record) → owner (finish_whole json prices whole rec) ≡ owner rec
  unfolding finish_whole
  finish_whole-owner none rec = refl
  finish_whole-owner (some body) rec = elim (Option-cases (extract_usage json body)) [
    | inl e ↦ rw (finish_whole, e) refl
    | inr (found, e) ↦ rw (finish_whole, e) (priced-owner prices _)
  ]

  relay-owner :
      (canonical : String → String) (strip : Bool) (reply : Reply) (rec : Record)
      → owner (relay json prices canonical strip reply rec).1 ≡ owner rec
  unfolding relay
  relay-owner canonical strip reply rec = elim (Bool-cases (eq_ℕ reply.status 200)) [
    | inr f ↦ rw (relay, f) refl
    | inl t ↦ elim (Bool-cases rec.stream) [
      | inl s ↦ rw (relay, t, s) (finish_stream-owner reply.scan_error _ _)
      | inr s ↦ rw (relay, t, s) (finish_whole-owner reply.whole _)
    ]
  ]

  pub forward-owner :
      (canonical : String → String) (upstream : Header → Text → Sent) (k : Key) (header : Header)
      (body : Text) (strip : Bool) (rec : Record)
      → owner (forward json prices canonical upstream k header body strip rec).1 ≡ owner rec
  unfolding forward
  forward-owner canonical upstream k header body strip rec =
      at (upstream (upstream_headers canonical k header) body)
    where
      at :
          (sent : Sent)
          → owner
              (elim sent as (λ s. Response × Record) [
                | not_built ↦ (
                  refused 500 "internal_error",
                  record rec { status_code = 500; error_type = "build_request_failed" },
                )
                | unreachable ↦ (
                  refused 502 "upstream_unreachable",
                  record rec { status_code = 502; error_type = "upstream_unreachable" },
                )
                | replied reply ↦ relay json prices canonical strip reply rec
              ]).1
            ≡ owner rec
      at not_built = refl
      at unreachable = refl
      at (replied reply) = relay-owner canonical strip reply rec
