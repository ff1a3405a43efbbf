-- ===== src/Edge/Stream.antt =====
-- internal/edge/stream.go. The scanner's lines come with the time since the start at which each is read; a
-- JSON object is the list of its fields, and null decodes into a nil map, `none`.
use softmatrix_airlock.Base.{
  ℕ, String, Bool, true, false, ◌&&◌, not, Option, none, some, List, [], ◌∷◌, ◌++◌, find, keep,
  if◌then◌else◌,
}
use softmatrix_airlock.Base.Text.{Text, bytes}
use softmatrix_airlock.Paths.{is_empty}
use softmatrix_airlock.Edge.OpenAi.{
  Usage, Decoders, extract_usage, parse_sse_data, is_done, has_usage, is_usage_only_chunk,
}
use text.Mathlib.Text.{◌==◌}

pub data ScanError : Type 0 where
  too_long read_failed : ScanError

pub record Outcome : Type 0 where
  pub usage : Option Usage
  pub model : Text
  pub ttft : Option ℕ

abbrev pub Fields : Type 0
Fields = List (String × Text)

-- An assignment to a nil map panics.
pub data Included : Type 0 where
  included : Text → Bool → Included
  not_json : Included
  panics : Included

module _ (decode_map : Text → Option (Option Fields)) (encode_map : Fields → Text) where
  abbrev pub field : String → Fields → Option Text
  field name fields = elim (find (λ f. f.0 == name) fields) [ none ↦ none | some f ↦ some f.1 ]

  abbrev pub set_field : String → Text → Fields → Fields
  set_field name raw fields = keep (λ f. not (f.0 == name)) fields ++ (name, raw) ∷ []

  unfoldable pub add_options : Text → Fields → Text → Included
  add_options body payload raw = elim (decode_map raw) [
    | none ↦ not_json
    | some options ↦ elim options [
      | none ↦ panics
      | some opts ↦ elim (field "include_usage" opts) [
        | some given ↦ included body false
        | none ↦
            included
              (encode_map (
                set_field "stream_options"
                  (encode_map (set_field "include_usage" (bytes "true") opts)) payload))
              true
      ]
    ]
  ]

  unfoldable pub ensure_include_usage : Text → Included
  unfolding add_options
  ensure_include_usage body = elim (decode_map body) [
    | none ↦ not_json
    | some payload ↦ elim payload [
      | none ↦ panics
      | some fields ↦ elim (field "stream_options" fields) [
        | some raw ↦ add_options body fields raw
        | none ↦
            included
              (encode_map (
                set_field "stream_options" (encode_map (("include_usage", bytes "true") ∷ []))
                  fields))
              true
      ]
    ]
  ]

abbrev pub is_none {ℓ} : {A : Type ℓ} → Option A → Bool
is_none none = true
is_none (some a) = false

module _ (json : Decoders) where
  -- The first of the chunks with usage, and the first model that is named, stay.
  unfoldable pub capture : Text → Outcome → Outcome
  capture payload o = elim (extract_usage json payload) [
    | none ↦ o
    | some found ↦ record o {
      usage = if is_none o.usage && has_usage json payload then some found.0 else o.usage;
      model = if is_empty o.model then found.1 else o.model;
    }
  ]

  unfoldable pub timed : ℕ → Outcome → Outcome
  timed at o = if is_none o.ttft then record o { ttft = some at } else o

  -- One line: the lines that are written, and the outcome so far.
  unfoldable pub pipe_line : Bool → Text × ℕ → List Text × Outcome → List Text × Outcome
  unfolding capture timed
  pipe_line strip (line, at) (out, o) = elim (parse_sse_data json line) [
    | none ↦ (out ++ line ∷ [], o)
    | some payload ↦
        if is_done payload
        then (out ++ line ∷ [], o)
        else if is_usage_only_chunk json payload
        then (if strip then out else out ++ line ∷ [], capture payload o)
        else (out ++ line ∷ [], timed at (capture payload o))
  ]

  unfoldable pub pipe_lines : Bool → List (Text × ℕ) → List Text × Outcome → List Text × Outcome
  unfolding pipe_line
  pipe_lines strip [] st = st
  pipe_lines strip (l ∷ ls) st = pipe_lines strip ls (pipe_line strip l st)

  unfoldable pub pipe_stream : Bool → List (Text × ℕ) → List Text × Outcome
  unfolding pipe_lines
  pipe_stream strip lines =
      pipe_lines strip lines ([], record { usage = none; model = []; ttft = none })
