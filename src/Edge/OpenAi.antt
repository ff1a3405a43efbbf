-- ===== src/Edge/OpenAi.antt =====
-- internal/openai/usage.go. What `json.Unmarshal` reads into the three structs of that file is a parameter,
-- as is `bytes.TrimSpace`; a field that is absent is an empty raw message.
use softmatrix_airlock.Base.{
  Bool, false, ◌&&◌, ◌||◌, not, Option, none, some, List, all, if◌then◌else◌,
}
use softmatrix_airlock.Base.Int.{ℤ, pos}
use softmatrix_airlock.Base.Text.{Text, bytes, ◌==◌ as text_eq, has_prefix}
use softmatrix_airlock.Keys.Edge.{trim_prefix}
use softmatrix_airlock.Paths.{is_empty}

pub record Usage : Type 0 where
  pub prompt_tokens : ℤ
  pub completion_tokens : ℤ
  pub cached_tokens : ℤ
  pub reasoning_tokens : ℤ

pub record WireUsage : Type 0 where
  pub prompt_tokens : ℤ
  pub completion_tokens : ℤ
  pub cached_tokens : Option ℤ
  pub reasoning_tokens : Option ℤ

pub record WireResponse : Type 0 where
  pub model : Text
  pub usage : Option WireUsage

pub record Choice : Type 0 where
  pub delta : Text
  pub has_finish_reason : Bool

pub record Probe : Type 0 where
  pub choices : List Choice
  pub usage : Text

-- The decoders: a response, the probe for usage, the probe of a chunk, and an object by its number of
-- fields.
pub record Decoders : Type 0 where
  pub wire_response : Text → Option WireResponse
  pub usage_field : Text → Option Text
  pub chunk : Text → Option Probe
  pub is_empty_object : Text → Bool
  pub trim_space : Text → Text

abbrev or_zero : Option ℤ → ℤ
or_zero none = pos 0
or_zero (some n) = n

unfoldable pub no_usage : Usage
no_usage = record {
  prompt_tokens = pos 0;
  completion_tokens = pos 0;
  cached_tokens = pos 0;
  reasoning_tokens = pos 0;
}

unfoldable pub usage_of : WireUsage → Usage
usage_of u = record {
  prompt_tokens = u.prompt_tokens;
  completion_tokens = u.completion_tokens;
  cached_tokens = or_zero u.cached_tokens;
  reasoning_tokens = or_zero u.reasoning_tokens;
}

unfoldable pub is_done : Text → Bool
is_done payload = text_eq payload (bytes "[DONE]")

module _ (json : Decoders) where
  unfoldable pub extract_usage : Text → Option (Usage × Text)
  unfolding no_usage usage_of
  extract_usage body = elim (json.wire_response body) [
    | none ↦ none
    | some wire ↦ some (elim wire.usage [ none ↦ no_usage | some u ↦ usage_of u ], wire.model)
  ]

  unfoldable pub parse_sse_data : Text → Option Text
  parse_sse_data line =
      if not (has_prefix line (bytes "data:"))
      then none
      else (let payload = json.trim_space (trim_prefix line (bytes "data:")) in
          if is_empty payload then none else some payload)

  -- A raw message that is there and not null.
  unfoldable pub is_given : Text → Bool
  is_given raw =
      let trimmed = json.trim_space raw in
      not (is_empty trimmed) && not (text_eq trimmed (bytes "null"))

  unfoldable pub has_usage : Text → Bool
  unfolding is_given
  has_usage payload = elim (json.usage_field payload) [ none ↦ false | some raw ↦ is_given raw ]

  unfoldable pub is_empty_json_object : Text → Bool
  unfolding is_given
  is_empty_json_object raw = not (is_given raw) || json.is_empty_object (json.trim_space raw)

  unfoldable pub is_usage_only_chunk : Text → Bool
  unfolding is_given is_empty_json_object
  is_usage_only_chunk payload = elim (json.chunk payload) [
    | none ↦ false
    | some probe ↦
        is_given probe.usage
        && all (λ c. not c.has_finish_reason && is_empty_json_object c.delta) probe.choices
  ]
