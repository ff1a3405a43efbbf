-- ===== src/Edge/Billing.antt =====
-- What the record of a call costs, whichever way internal/edge/proxy.go ends it.
use softmatrix_airlock.Base.{
  ◌≡◌, refl, sym, subst, ◌⊎◌, inl, inr, String, Bool, false, Option, none, some, ok, arith,
  Bool-cases, Option-cases, Result-cases, ◌==◌ as eq_ℕ,
}
use softmatrix_airlock.Base.Int.{pos}
use softmatrix_airlock.Base.Text.{Text}
use softmatrix_airlock.Pricing.Model as Pricing
use softmatrix_airlock.Pricing.Table.{Entries, lookup}
use softmatrix_airlock.Keys.Edge.{Key}
use softmatrix_airlock.Edge.OpenAi.{Decoders, extract_usage}
use softmatrix_airlock.Edge.OpenAi as OpenAi
use softmatrix_airlock.Edge.Stream.{ScanError, too_long, read_failed, pipe_stream}
use softmatrix_airlock.Edge.Proxy.{
  Record, Header, upstream_headers, cost, priced, Reply, Sent, not_built, unreachable, replied,
  Response, refused, scan_error_type, finish_stream, finish_whole, relay, forward,
}
use text.Mathlib.Text.{◌==◌}

module _ (prices : Entries) where
  -- The price list's answer for what the record says was used.
  pub record Billed (rec : Record) : Type 0 where
    pub no_error : rec.error_type ≡ ""
    pub status : rec.status_code ≡ 200
    pub price : Pricing.ModelPrice
    pub listed : lookup prices rec.provider rec.model rec.timestamp ≡ ok price
    pub billed : Pricing.cost price rec.usage ≡ ok rec.cost_micro

  pub record Unbilled (rec : Record) : Type 0 where
    pub has_error : (rec.error_type == "") ≡ false
    pub free : rec.cost_micro ≡ pos 0

  abbrev pub Settled : Record → Type 0
  Settled rec = Billed rec ⊎ Unbilled rec

  -- A record that nothing was added to.
  pub record Fresh (rec : Record) : Type 0 where
    pub no_error : rec.error_type ≡ ""
    pub free : rec.cost_micro ≡ pos 0

  priced-Settled :
      (rec : Record) → rec.error_type ≡ "" → rec.status_code ≡ 200 → Settled (priced prices rec)
  unfolding priced cost
  priced-Settled rec e s =
      elim (Result-cases (lookup prices rec.provider rec.model rec.timestamp)) [
        | inr (x, f) ↦
            let e' : priced prices rec
                ≡ record rec { cost_micro = pos 0; error_type = "price_not_found" } =
              rw (priced, cost, f) refl in
            subst Settled (sym e') (inr (record { has_error = refl; free = refl }))
        | inl (price, f) ↦ elim (Result-cases (Pricing.cost price rec.usage)) [
          | inr (x, g) ↦
              let e' : priced prices rec
                  ≡ record rec { cost_micro = pos 0; error_type = "cost_calc_failed" } =
                rw (priced, cost, f, g) refl in
              subst Settled (sym e') (inr (record { has_error = refl; free = refl }))
          | inl (micro, g) ↦
              let e' : priced prices rec ≡ record rec { cost_micro = micro } =
                rw (priced, cost, f, g) refl in
              subst Settled (sym e')
                (inl (record { no_error = e; status = s; price = price; listed = f; billed = g }))
        ]
      ]

  finish_stream-Settled :
      (json : Decoders) (scan : Option ScanError) (u : Option OpenAi.Usage) (rec : Record)
      → Fresh rec
      → rec.status_code ≡ 200
      → Settled (finish_stream json prices scan u rec)
  unfolding finish_stream scan_error_type
  finish_stream-Settled json (some too_long) none rec h s =
      inr (record { has_error = refl; free = h.free })
  finish_stream-Settled json (some read_failed) none rec h s =
      inr (record { has_error = refl; free = h.free })
  finish_stream-Settled json none none rec h s = inr (record { has_error = refl; free = h.free })
  finish_stream-Settled json none (some u) rec h s = priced-Settled _ h.no_error s
  finish_stream-Settled json (some e) (some u) rec h s = priced-Settled _ h.no_error s

  finish_whole-Settled :
      (json : Decoders) (whole : Option Text) (rec : Record)
      → Fresh rec
      → rec.status_code ≡ 200
      → Settled (finish_whole json prices whole rec)
  unfolding finish_whole
  finish_whole-Settled json none rec h s = inr (record { has_error = refl; free = h.free })
  finish_whole-Settled json (some body) rec h s = elim (Option-cases (extract_usage json body)) [
    | inl e ↦ rw (finish_whole, e) (inr (record { has_error = refl; free = h.free }))
    | inr (found, e) ↦ rw (finish_whole, e) (priced-Settled _ h.no_error s)
  ]

  relay-Settled :
      (json : Decoders) (canonical : String → String) (strip : Bool) (reply : Reply) (rec : Record)
      → Fresh rec
      → Settled (relay json prices canonical strip reply rec).1
  unfolding relay
  relay-Settled json canonical strip reply rec h = elim (Bool-cases (eq_ℕ reply.status 200)) [
    | inr f ↦ rw f (inr (record { has_error = refl; free = h.free }))
    | inl t ↦
        let status : reply.status ≡ 200 = ground arith in
        elim (Bool-cases rec.stream) [
          | inl s ↦
              rw (t, s)
                (finish_stream-Settled json reply.scan_error
                  (pipe_stream json strip reply.lines).1.usage _
                  (record { no_error = h.no_error; free = h.free }) status)
          | inr s ↦
              rw (t, s)
                (finish_whole-Settled json reply.whole _
                  (record { no_error = h.no_error; free = h.free }) status)
        ]
  ]

  pub forward-Settled :
      (json : Decoders) (canonical : String → String) (upstream : Header → Text → Sent) (k : Key)
      (header : Header) (body : Text) (strip : Bool) (rec : Record)
      → Fresh rec
      → Settled (forward json prices canonical upstream k header body strip rec).1
  unfolding forward
  forward-Settled json canonical upstream k header body strip rec h =
      at (upstream (upstream_headers canonical k header) body)
    where
      at :
          (sent : Sent)
          → Settled
              (elim sent as (λ s. Response × Record) [
                | not_built ↦ (
                  refused 500 "internal_error",
                  record rec { status_code = 500; error_type = "build_request_failed" },
                )
                | unreachable ↦ (
                  refused 502 "upstream_unreachable",
                  record rec { status_code = 502; error_type = "upstream_unreachable" },
                )
                | replied reply ↦ relay json prices canonical strip reply rec
              ]).1
      at not_built = inr (record { has_error = refl; free = h.free })
      at unreachable = inr (record { has_error = refl; free = h.free })
      at (replied reply) = relay-Settled json canonical strip reply rec h
