-- ===== src/Edge/Faithful.antt =====
-- What `pipeStream` of internal/edge/stream.go writes and remembers, line by line and without its state.
use softmatrix_airlock.Base.{
  ℕ, ◌≡◌, refl, sym, ap, ◌∙◌, inl, inr, Bool, true, false, ◌&&◌, Option, none, some, List, [], ◌∷◌,
  ◌++◌, arith, Bool-cases, Option-cases, if◌then◌else◌,
}
use mathlib.Core.List.{append_assoc, append-nil}
use softmatrix_airlock.Base.Text.{Text, has_prefix}
use softmatrix_airlock.Paths.{is_empty}
use softmatrix_airlock.Edge.OpenAi.{
  Usage, Decoders, extract_usage, parse_sse_data, is_done, has_usage, is_usage_only_chunk,
}
use softmatrix_airlock.Edge.Stream.{
  Outcome, is_none, capture, timed, pipe_line, pipe_lines, pipe_stream,
}

abbrev or_else {ℓ} : {A : Type ℓ} → Option A → Option A → Option A
or_else none b = b
or_else (some a) b = some a

abbrev or_model : Text → Text → Text
or_model [] b = b
or_model (c ∷ a) b = c ∷ a

abbrev joined : Outcome → Outcome → Outcome
joined a b = record {
  usage = or_else a.usage b.usage;
  model = or_model a.model b.model;
  ttft = or_else a.ttft b.ttft;
}

abbrev blank : Outcome
blank = record { usage = none; model = []; ttft = none }

or_else-none {ℓ} : {A : Type ℓ} (a : Option A) → or_else a none ≡ a
or_else-none none = refl
or_else-none (some a) = refl

or_else_assoc {ℓ} :
    {A : Type ℓ} (a b c : Option A) → or_else (or_else a b) c ≡ or_else a (or_else b c)
or_else_assoc none b c = refl
or_else_assoc (some a) b c = refl

or_model-empty : (a : Text) → or_model a [] ≡ a
or_model-empty [] = refl
or_model-empty (c ∷ a) = refl

or_model_assoc : (a b c : Text) → or_model (or_model a b) c ≡ or_model a (or_model b c)
or_model_assoc [] b c = refl
or_model_assoc (d ∷ a) b c = refl

joined-blank : (o : Outcome) → joined o blank ≡ o
joined-blank o = λ i. record {
  usage = or_else-none o.usage i;
  model = or_model-empty o.model i;
  ttft = or_else-none o.ttft i;
}

joined_assoc : (a b c : Outcome) → joined (joined a b) c ≡ joined a (joined b c)
joined_assoc a b c = λ i. record {
  usage = or_else_assoc a.usage b.usage c.usage i;
  model = or_model_assoc a.model b.model c.model i;
  ttft = or_else_assoc a.ttft b.ttft c.ttft i;
}

module _ (json : Decoders) where
  -- The payload of a line, the end mark aside.
  chunk_of : Text → Option Text
  chunk_of line = elim (parse_sse_data json line) [
    | none ↦ none
    | some payload ↦ if is_done payload then none else some payload
  ]

  -- The line of a chunk with usage and nothing else.
  pub only_usage : Text → Bool
  only_usage line = elim (chunk_of line) [
    | none ↦ false
    | some payload ↦ is_usage_only_chunk json payload
  ]

  -- What a payload tells of the usage and the model.
  captured : Text → Outcome
  captured payload = elim (extract_usage json payload) [
    | none ↦ blank
    | some found ↦ record blank {
      usage = if has_usage json payload then some found.0 else none;
      model = found.1;
    }
  ]

  -- What one line tells.
  pub told : Text → ℕ → Outcome
  told line at = elim (chunk_of line) [
    | none ↦ blank
    | some payload ↦
        if is_usage_only_chunk json payload
        then captured payload
        else record (captured payload) { ttft = some at }
  ]

  abbrev pub first_told : List (Text × ℕ) → Outcome
  first_told [] = blank
  first_told ((line, at) ∷ ls) = joined (told line at) (first_told ls)

  abbrev pub relayed : Bool → List (Text × ℕ) → List Text
  relayed strip [] = []
  relayed strip ((line, at) ∷ ls) =
      if strip && only_usage line then relayed strip ls else line ∷ relayed strip ls

  capture-joined :
      (payload : Text) (o : Outcome) → capture json payload o ≡ joined o (captured payload)
  unfolding capture captured
  capture-joined payload o = elim (Option-cases (extract_usage json payload)) [
    | inl e ↦ rw (capture, captured, e) (sym (joined-blank o))
    | inr (found, e) ↦
        rw (capture, captured, e)
          (λ i. record {
            usage = merge found.0 o.usage i;
            model = name found.1 o.model i;
            ttft = sym (or_else-none o.ttft) i;
          })
  ]
    where
      merge :
          (f : Usage) (u : Option Usage)
          → (if is_none u && has_usage json payload then some f else u)
            ≡ or_else u (if has_usage json payload then some f else none)
      merge f none = ground arith
      merge f (some u) = refl

      name : (model m : Text) → (if is_empty m then model else m) ≡ or_model m model
      name model [] = refl
      name model (c ∷ m) = refl

  captured-ttft : (payload : Text) → (captured payload).ttft ≡ none
  unfolding captured
  captured-ttft payload = elim (Option-cases (extract_usage json payload)) [
    | inl e ↦ rw (captured, e) refl
    | inr (found, e) ↦ rw (captured, e) refl
  ]

  timed-joined :
      (payload : Text) (at : ℕ) (o : Outcome)
      → timed json at (joined o (captured payload))
        ≡ joined o (record (captured payload) { ttft = some at })
  unfolding timed
  timed-joined payload at o = let z = captured-ttft payload in ground arith

  one_line :
      (strip : Bool) (line : Text) (at : ℕ) (out : List Text) (o : Outcome)
      → pipe_line json strip (line, at) (out, o)
        ≡ (out ++ relayed strip ((line, at) ∷ []), joined o (told line at))
  unfolding pipe_line only_usage told chunk_of parse_sse_data has_prefix
  one_line strip line at out o = elim (Option-cases (parse_sse_data json line)) [
    | inl e ↦ rw (pipe_line, told, only_usage, chunk_of, e) (ground (arith, joined-blank o))
    | inr (payload, e) ↦ elim (Bool-cases (is_done payload)) [
      | inl d ↦ rw (e, d) (ground (arith, joined-blank o))
      | inr d ↦ elim (Bool-cases (is_usage_only_chunk json payload)) [
        | inl u ↦ rw (e, d, u) (kept (capture-joined payload o) strip)
        | inr u ↦
            rw (e, d, u)
              (λ i. (
                same strip i,
                (ap (timed json at) (capture-joined payload o) ∙ timed-joined payload at o) i,
              ))
      ]
    ]
  ]
    where
      kept :
          {a b : Outcome}
          → a ≡ b
          → (s : Bool)
          → ◌≡◌ {A = List Text × Outcome}
              (if s then out else out ++ line ∷ [], a)
              (out ++ (if s && true then [] else line ∷ []), b)
      kept e true = λ i. (sym (append-nil out) i, e i)
      kept e false = λ i. (out ++ line ∷ [], e i)

      same : (s : Bool) → out ++ line ∷ [] ≡ out ++ (if s && false then [] else line ∷ [])
      same true = refl
      same false = refl

  relayed-cons :
      (strip : Bool) (line : Text) (at : ℕ) (ls : List (Text × ℕ)) (out : List Text)
      → (out ++ relayed strip ((line, at) ∷ [])) ++ relayed strip ls
        ≡ out ++ relayed strip ((line, at) ∷ ls)
  relayed-cons strip line at ls out = elim (Bool-cases (strip && only_usage line)) [
    | inl t ↦ rw t (ap (λ x. x ++ relayed strip ls) (append-nil out))
    | inr f ↦ rw f (append_assoc out (line ∷ []) (relayed strip ls))
  ]

  all_lines :
      (strip : Bool) (ls : List (Text × ℕ)) (out : List Text) (o : Outcome)
      → pipe_lines json strip ls (out, o) ≡ (out ++ relayed strip ls, joined o (first_told ls))
  unfolding pipe_lines
  all_lines strip [] out o = λ i. (sym (append-nil out) i, sym (joined-blank o) i)
  all_lines strip ((line, at) ∷ ls) out o =
      ap (pipe_lines json strip ls) (one_line strip line at out o)
      ∙ all_lines strip ls (out ++ relayed strip ((line, at) ∷ [])) (joined o (told line at))
      ∙ (λ i.
          (relayed-cons strip line at ls out i, joined_assoc o (told line at) (first_told ls) i))

  -- The client gets the upstream's lines, unchanged, in their order and none twice: all of them, or all but
  -- the chunks with usage alone where the proxy had asked for those itself. And what is billed is the usage
  -- of the first chunk that has one, under the first model that is named, with the time of the first chunk
  -- that is more than usage.
  pub pipe_stream-lines :
      (strip : Bool) (lines : List (Text × ℕ))
      → pipe_stream json strip lines ≡ (relayed strip lines, first_told lines)
  unfolding pipe_stream
  pipe_stream-lines strip lines = all_lines strip lines [] blank
