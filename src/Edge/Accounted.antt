-- ===== src/Edge/Accounted.antt =====
-- What `ServeHTTP` of internal/edge/proxy.go writes into the books.
use softmatrix_airlock.Base.{
  ◌≡◌, refl, ◌⊎◌, inl, inr, String, Bool, true, false, Option, some, [], ◌∷◌, Bool-cases,
  Option-cases,
}
use softmatrix_airlock.Base.Int.{pos}
use softmatrix_airlock.Base.Text.{Text}
use softmatrix_airlock.Pricing.Table.{Entries}
use softmatrix_airlock.Keys.Edge.{Key}
use softmatrix_airlock.Edge.OpenAi.{Decoders}
use softmatrix_airlock.Edge.Stream.{
  Fields, Included, included, not_json, panics, ensure_include_usage,
}
use softmatrix_airlock.Edge.Proxy.{
  Record, Header, Sent, Response, refused, aborted, Call, start_record, forward, serve_key,
  serve_http,
}
use softmatrix_airlock.Edge.Owner.{owner, forward-owner}
use softmatrix_airlock.Edge.Billing.{Settled, Fresh, forward-Settled}

start-Fresh : (prices : Entries) (k : Key) (c : Call) → Fresh prices (start_record k c)
unfolding start_record
start-Fresh prices k c = record { no_error = refl; free = refl }

-- The one record's owner, and what it costs.
abbrev pub Accounted : Entries → Key → Call → Response × Record → Type 0
Accounted prices k c answer =
    (owner answer.1 ≡ (c.request_id, (c.timestamp, (k.org_id, (k.user_id, k.id)))))
    × (Settled prices answer.1 ⊎ ((answer.0 ≡ aborted) × (answer.1.cost_micro ≡ pos 0)))

serve_key-Accounted :
    (json : Decoders) (prices : Entries) (is_stream_request : Text → Bool)
    (decode_map : Text → Option (Option Fields)) (encode_map : Fields → Text)
    (canonical : String → String) (upstream : Header → Text → Sent) (k : Key) (c : Call)
    → Accounted prices k c
        (serve_key json prices is_stream_request decode_map encode_map canonical upstream k c)
unfolding serve_key start_record
serve_key-Accounted json prices is_stream_request decode_map encode_map canonical upstream k c =
    elim (Option-cases c.body) [
      | inl e ↦ rw (serve_key, e) (refl, inl (inr (record { has_error = refl; free = refl })))
      | inr (body, e) ↦ elim (Bool-cases (is_stream_request body)) [
        | inr f ↦
            rw (serve_key, e, f)
              (
                forward-owner json prices canonical upstream k c.header body false
                    (start_record k c),
                inl (
                    forward-Settled prices json canonical upstream k c.header body false
                      (start_record k c) (start-Fresh prices k c)),
              )
        | inl t ↦ rw (serve_key, e, t) (at (ensure_include_usage decode_map encode_map body))
      ]
    ]
  where
    begun : Record
    begun = record (start_record k c) { stream = true }

    at :
        (i : Included)
        → Accounted prices k c (elim i as (λ x. Response × Record) [
          | not_json ↦ (
            refused 400 "invalid_request",
            record begun { status_code = 400; error_type = "invalid_request_body" },
          )
          | panics ↦ (aborted, begun)
          | included sent injected ↦
              forward json prices canonical upstream k c.header sent injected begun
        ])
    at not_json = (refl, inl (inr (record { has_error = refl; free = refl })))
    at panics = (refl, inr (refl, refl))
    at (included sent injected) = (
      forward-owner json prices canonical upstream k c.header sent injected begun,
      inl (
          forward-Settled prices json canonical upstream k c.header sent injected begun
            (record { no_error = refl; free = refl })),
    )

-- Every call with a key writes exactly one record, of that key, its node and its user, whatever becomes of
-- the call: the body unreadable or no JSON, the upstream out of reach, an error upstream, a stream that
-- breaks off, a client that is gone. The record has no error and the price list's cost of the usage (after a
-- reply with status 200), or it has an error and costs nothing; the one exception is a call that panics,
-- with the client's stream options null, whose record has neither.
pub serve_http-accounted :
    (json : Decoders) (prices : Entries) (is_stream_request : Text → Bool)
    (decode_map : Text → Option (Option Fields)) (encode_map : Fields → Text)
    (canonical : String → String) (upstream : Header → Text → Sent) (k : Key) (c : Call)
    → (response : Response) × (rec : Record) × (serve_http json prices is_stream_request decode_map
          encode_map canonical upstream
          (some k)
          c
        ≡ (response, rec ∷ []))
      × (owner rec ≡ (c.request_id, (c.timestamp, (k.org_id, (k.user_id, k.id)))))
      × (Settled prices rec ⊎ ((response ≡ aborted) × (rec.cost_micro ≡ pos 0)))
unfolding serve_http
serve_http-accounted json prices is_stream_request decode_map encode_map canonical upstream k c =
    let (response, rec) =
      serve_key json prices is_stream_request decode_map encode_map canonical upstream k c in
    let (own, settled) =
      serve_key-Accounted json prices is_stream_request decode_map encode_map canonical upstream k
        c in
    (response, rec, refl, own, settled)
