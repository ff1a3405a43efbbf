-- ===== src/Keys/Edge.antt =====
-- internal/apikey/{key,store,postgres}.go and internal/edge/auth.go: from the Authorization header
-- to the key in the request's context, or the error that is written. `hash` is sha256 in hex,
-- `decrypt` the cipher and `decodes` the base64url decoder's verdict: libraries, and parameters here.
use softmatrix_airlock.Base.{
  ℕ, String, Bool, false, ◌&&◌, ◌||◌, not, Option, none, some, [], ◌∷◌, find, length, Result, ok,
  err, ltb, if◌then◌else◌, ◌==◌ as eq_ℕ,
}
use softmatrix_airlock.Base.Text.{Text, bytes, has_prefix, ◌==◌ as text_eq}
use softmatrix_airlock.Keys.Model.{Status, is_active, ApiKey, Table}
use text.Mathlib.Text.{◌==◌}

-- The key that a request carries on.
pub record Key : Type 0 where
  pub id : String
  pub prefix : Text
  pub org_id : Text
  pub user_id : String
  pub upstream_key : String
  pub status : Status
  pub expires_at : Option ℕ
  pub via_prev_key : Bool
  pub prev_key_expires_at : Option ℕ

pub data KeyError : Type 0 where
  key_not_found key_revoked key_expired malformed decrypt_failed : KeyError

abbrev pub key_prefix : Text
key_prefix = bytes "ak-"

abbrev pub body_len : ℕ
body_len = 43

abbrev pub bearer_prefix : Text
bearer_prefix = bytes "Bearer "

drop_prefix : Text → Text → Text
drop_prefix s [] = s
drop_prefix [] (p ∷ ps) = []
drop_prefix (c ∷ s) (p ∷ ps) = drop_prefix s ps

-- strings.TrimPrefix: without the prefix, if it is there.
unfoldable pub trim_prefix : Text → Text → Text
unfolding drop_prefix
trim_prefix s p = if has_prefix s p then drop_prefix s p else s

abbrev pub not_after : ℕ → Option ℕ → Bool
not_after now none = false
not_after now (some t) = not (ltb now t)

-- `Key.Validate`
unfoldable pub validate : Key → ℕ → Result KeyError (Unit {0})
validate k now =
    if not (is_active k.status)
    then err key_revoked
    else if not_after now k.expires_at
    then err key_expired
    else ok tt

-- `prev_key_hash = $1 AND prev_key_expires_at > now()`: a NULL makes it not true.
abbrev pub is_prev : String → ℕ → ApiKey → Bool
is_prev h now k = elim k.prev_key_hash [
  | none ↦ false
  | some p ↦ elim k.prev_key_expires_at [ none ↦ false | some t ↦ p == h && ltb now t ]
]

-- The WHERE clause of `ByHash`.
unfoldable pub answers_to : String → ℕ → ApiKey → Bool
answers_to h now k = k.key_hash == h || is_prev h now k

-- What is written on a refusal: the HTTP status, the code and the message.
pub record AuthError : Type 0 where
  pub status : ℕ
  pub code : String
  pub message : String

abbrev pub missing_header : AuthError
missing_header = record { status = 401; code = "missing_api_key"; message = "请求缺少 Authorization 头" }

abbrev pub not_bearer : AuthError
not_bearer = record {
  status = 401;
  code = "invalid_api_key";
  message = "Authorization 头必须使用 Bearer 方案";
}

abbrev pub bad_key : AuthError
bad_key = record { status = 401; code = "invalid_api_key"; message = "密钥格式非法或不存在" }

abbrev pub internal_error : AuthError
internal_error = record { status = 500; code = "internal_error"; message = "校验密钥时发生内部错误" }

abbrev pub revoked_key : AuthError
revoked_key = record { status = 403; code = "key_revoked"; message = "密钥已吊销" }

abbrev pub expired_key : AuthError
expired_key = record { status = 403; code = "key_expired"; message = "密钥已过期" }

abbrev pub unusable_key : AuthError
unusable_key = record { status = 403; code = "key_unusable"; message = "密钥不可用" }

module _ (hash : Text → String) (decrypt : String → Option String) (decodes : Text → Bool)
    (trim_space : Text → Text) where
  unfoldable pub validate_format : Text → Result KeyError (Unit {0})
  validate_format plain =
      if not (has_prefix plain key_prefix)
      then err malformed
      else if not (eq_ℕ (length (trim_prefix plain key_prefix)) body_len)
      then err malformed
      else if not (decodes (trim_prefix plain key_prefix))
      then err malformed
      else ok tt

  unfoldable pub by_hash : String → ℕ → Table → Result KeyError Key
  by_hash h now rows = elim (find (answers_to h now) rows) [
    | none ↦ err key_not_found
    | some k ↦ elim (decrypt k.upstream_key_enc) [
      | none ↦ err decrypt_failed
      | some upstream ↦ ok (record {
        id = k.id;
        prefix = k.key_prefix;
        org_id = k.org_id;
        user_id = k.user_id;
        upstream_key = upstream;
        status = k.status;
        expires_at = k.expires_at;
        via_prev_key = not (k.key_hash == h);
        prev_key_expires_at = k.prev_key_expires_at;
      })
    ]
  ]

  -- The switch on the error of `Validate`.
  unfoldable pub admit : Key → ℕ → Result AuthError Key
  unfolding validate
  admit k now = elim (validate k now) [
    | ok u ↦ ok k
    | err key_revoked ↦ err revoked_key
    | err key_expired ↦ err expired_key
    | err e ↦ err unusable_key
  ]

  unfoldable pub authenticate : Text → ℕ → Table → Result AuthError Key
  authenticate raw now rows =
      if text_eq raw []
      then err missing_header
      else if not (has_prefix raw bearer_prefix)
      then err not_bearer
      else let plain = trim_space (trim_prefix raw bearer_prefix) in
        elim (validate_format plain) [
          | err e ↦ err bad_key
          | ok u ↦ elim (by_hash (hash plain) now rows) [
            | err key_not_found ↦ err bad_key
            | err e ↦ err internal_error
            | ok k ↦ admit k now
          ]
        ]
