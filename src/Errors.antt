-- ===== src/Errors.antt =====
-- src/error/proxy.rs: the errors of a proxied request and their classes; and from
-- src/llm/protocol/sse/error.rs the text that is shown of an upstream's error body. A slice of a
-- text at a byte that is inside a character panics: `none`. The JSON parser is a parameter.
pub mod Slices
pub mod Needles
mod Tests
use galaxy_router.Base.{
  ℕ, zero, suc, ◌+◌, ◌-◌, ◌*◌, ◌/◌, ◌%◌, ◌^◌, ◌≤◌, ◌<◌, min, max, ◌≡◌, refl, sym, ap, subst, ◌∙◌,
  fun_ext, ◌≢◌, ◌↔◌, ◌⊎◌, inl, inr, Bool, true, false, not, ◌&&◌, ◌||◌, Option, none, some, List,
  [], ◌∷◌, ◌++◌, map, arith, ltb, leb, ◌==◌, if◌then◌else◌, ltb→lt, lt→ltb, leb→le, le→leb, lt→leb,
  ==_iff, tests, Bool-cases, Option-cases, get_or, is_some, length, get_elem?, take, replicate,
  filter, find, any, count, All, length-append, length-replicate, count-append, length-filter-le,
  All-append, find-passes, any-find, Text, text, text_eq, text_eq_iff, text_eq_self, text_ne,
  starts_with, contains, to_ascii_lowercase, starts_with-append, Map, keep_if, map_some, new_map,
  insert, alter, retain,
}
use galaxy_router.Base.Json.{Value, index, as_str}

-- The bytes of a code point in UTF-8, and of a text (`str::len`).
abbrev pub utf8_width : ℕ → ℕ
utf8_width c = if ltb c 0x80 then 1 else if ltb c 0x800 then 2 else if ltb c 0x10000 then 3 else 4

unfoldable pub byte_len : Text → ℕ
byte_len [] = 0
byte_len (c ∷ s) = utf8_width c + byte_len s

-- `&s[..n]`: the characters of the first n bytes.
unfoldable pub slice_to : ℕ → Text → Option Text
slice_to n [] = if n == 0 then some [] else none
slice_to n (c ∷ s) =
    let rest = map_some {V = Text} (λ t. c ∷ t) (slice_to (n - utf8_width c) s) in
    if n == 0 then some [] else if ltb n (utf8_width c) then none else rest

-- `v["error"]["message"]`, `v["error"]` or `v["message"]`, the first that is a string.
unfoldable pub error_message : Value → Option Text
error_message v = elim (as_str (index (index v (text "error")) (text "message"))) [
  | some s ↦ some s
  | none ↦ elim (as_str (index v (text "error"))) [
    | some s ↦ some s
    | none ↦ as_str (index v (text "message"))
  ]
]

-- `truncated` is computed before the body is parsed.
abbrev pub truncate_body : Text → Option Text
truncate_body body =
    if ltb 500 (byte_len body)
    then map_some {V = Text} (λ s. s ++ text "...") (slice_to 500 body)
    else some body

abbrev pub parsed_message : Option Value → Option Text
parsed_message none = none
parsed_message (some v) = error_message v

abbrev pub prefer : Option Text → Text → Text
prefer none truncated = truncated
prefer (some message) truncated = message

pub data ErrorClass : Type 0 where
  key_retryable upstream_retryable client internal : ErrorClass

pub data ProxyError : Type 0 where
  database_error channel_not_found no_available_channel : Text → ProxyError
  model_not_supported model_not_found request_error transform_error : Text → ProxyError
  upstream_error : ℕ → Text → ProxyError

abbrev pub key_needles : List Text
key_needles = map text (
    "余额不足" ∷ "无可用资源包" ∷ "使用上限" ∷ "额度用尽" ∷ "额度耗尽" ∷ "超出限额" ∷ "insufficient_quota" ∷ "quota exceeded"
    ∷ "exceeded your current quota" ∷ "usage limit" ∷ "resource exhausted" ∷ "credit balance"
    ∷ "billing" ∷ "速率限制" ∷ "频率限制" ∷ "rate limit" ∷ "invalid api key" ∷ "incorrect api key"
    ∷ "unauthorized" ∷ "authentication" ∷ [])

-- UNAUTHORIZED, PAYMENT_REQUIRED, TOO_MANY_REQUESTS, SERVICE_UNAVAILABLE.
abbrev pub is_key_status : ℕ → Bool
is_key_status status = status == 401 || status == 402 || status == 429 || status == 503

-- `StatusCode::is_server_error`.
abbrev pub is_server_error : ℕ → Bool
is_server_error status = leb 500 status && ltb status 600

unfoldable pub has_needle : Text → Bool
has_needle lower = any (λ needle. contains lower needle) key_needles

-- The part of `classify_upstream` behind the test on the status, on the sanitized body.
unfoldable pub classify_body : ℕ → Text → ErrorClass
classify_body status sanitized =
    if has_needle (to_ascii_lowercase sanitized)
    then key_retryable
    else if is_server_error status
    then upstream_retryable
    else client

abbrev pub map_class : (Text → ErrorClass) → Option Text → Option ErrorClass
map_class f none = none
map_class f (some s) = some (f s)

module _ (from_str : Text → Option Value) where
  unfoldable pub sanitize_upstream_error : Text → Option Text
  sanitize_upstream_error body =
      map_some {V = Text} (prefer (parsed_message (from_str body))) (truncate_body body)

  unfoldable pub classify_upstream : ℕ → Text → Option ErrorClass
  classify_upstream status body =
      if is_key_status status
      then some key_retryable
      else map_class (classify_body status) (sanitize_upstream_error body)

  unfoldable pub classify : ProxyError → Option ErrorClass
  classify (database_error m) = some internal
  classify (channel_not_found m) = some internal
  classify (no_available_channel m) = some upstream_retryable
  classify (model_not_supported m) = some client
  classify (model_not_found m) = some client
  classify (request_error m) = some upstream_retryable
  classify (transform_error m) = some internal
  classify (upstream_error status body) = classify_upstream status body

  -- The status and the message that a client sees.
  unfoldable pub render_status_and_message : ProxyError → Option (ℕ × Text)
  render_status_and_message (no_available_channel m) = some (503, m)
  render_status_and_message (model_not_supported m) = some (400, m)
  render_status_and_message (model_not_found m) = some (404, m)
  render_status_and_message (database_error m) = some (500, m)
  render_status_and_message (channel_not_found m) = some (404, m)
  render_status_and_message (request_error m) = some (502, m)
  render_status_and_message (transform_error m) = some (500, m)
  render_status_and_message (upstream_error status body) = elim (sanitize_upstream_error body) [
    | none ↦ none
    | some m ↦ some (status, m)
  ]

abbrev pub is_key_class : ErrorClass → Bool
is_key_class key_retryable = true
is_key_class _ = false

-- `StatusCode::from_u16(code).unwrap_or(StatusCode::BAD_GATEWAY)`.
abbrev pub status_or_bad_gateway : ℕ → ℕ
status_or_bad_gateway code = if leb 100 code && ltb code 1000 then code else 502

-- `from_relay_outcome` and `from_relay_stream_outcome`, on the two fields that they read.
unfoldable pub from_relay_outcome : ℕ → Option Text → ProxyError
from_relay_outcome status_code error_message =
    if status_code == 404
    then model_not_found (get_or (text "模型不存在") error_message)
    else elim error_message [
      | none ↦ no_available_channel (text "所有渠道都不可用")
      | some m ↦
          if leb 500 status_code
          then upstream_error (status_or_bad_gateway status_code) m
          else no_available_channel m
    ]
