-- ===== src/Service/Redaction.antt =====
-- src/service/stats/redaction.rs: bodies are stored without their secrets, and cut. The parser, the
-- printer and `to_lowercase` of Unicode are parameters; a slice inside a character panics: none.
pub mod Clean
pub mod Cut
mod Tests
use galaxy_router.Base.{
  ℕ, zero, suc, ◌+◌, ◌-◌, ◌*◌, ◌/◌, ◌%◌, ◌^◌, ◌≤◌, ◌<◌, min, max, ◌≡◌, refl, sym, ap, subst, ◌∙◌,
  fun_ext, ◌≢◌, ◌↔◌, ◌⊎◌, inl, inr, Bool, true, false, not, ◌&&◌, ◌||◌, Option, none, some, List,
  [], ◌∷◌, ◌++◌, map, arith, ltb, leb, ◌==◌, if◌then◌else◌, ltb→lt, lt→ltb, leb→le, le→leb, lt→leb,
  ==_iff, tests, Bool-cases, Option-cases, get_or, is_some, length, get_elem?, take, replicate,
  filter, find, any, count, All, length-append, length-replicate, count-append, length-filter-le,
  All-append, find-passes, any-find, Text, text, text_eq, text_eq_iff, text_eq_self, text_ne,
  starts_with, contains, to_ascii_lowercase, starts_with-append, Map, keep_if, map_some, new_map,
  insert, alter, retain,
}
use galaxy_router.Base.Json.{Value, index, as_str}
use galaxy_router.Errors.{
  utf8_width, byte_len, slice_to, error_message, truncate_body, parsed_message, prefer, ErrorClass,
  key_retryable, upstream_retryable, client, internal, ProxyError, database_error,
  channel_not_found, no_available_channel, model_not_supported, model_not_found, request_error,
  transform_error, upstream_error, key_needles, is_key_status, is_server_error, has_needle,
  classify_body, map_class, sanitize_upstream_error, classify_upstream, classify,
  render_status_and_message, is_key_class, status_or_bad_gateway, from_relay_outcome,
}
use galaxy_router.Base.Json.{
  Value, null, bool, int, string, array, object, Values, nil, cons, Fields, end, field,
}
use galaxy_router.Errors.{byte_len, slice_to}

abbrev pub sensitive_keywords : List Text
sensitive_keywords =
    text "authorization"
    ∷ text "access_token"
    ∷ text "refresh_token"
    ∷ text "id_token"
    ∷ text "session_token"
    ∷ text "client_secret"
    ∷ text "private_key"
    ∷ text "signature"
    ∷ text "api_key"
    ∷ text "apikey"
    ∷ text "secret"
    ∷ text "password"
    ∷ text "passwd"
    ∷ text "credential"
    ∷ []

abbrev pub protected_keys : List Text
protected_keys =
    text "max_tokens"
    ∷ text "max_output_tokens"
    ∷ text "max_input_tokens"
    ∷ text "max_completion_tokens"
    ∷ text "max_tokens_to_sample"
    ∷ text "budget_tokens"
    ∷ text "prompt_tokens"
    ∷ text "completion_tokens"
    ∷ text "input_tokens"
    ∷ text "output_tokens"
    ∷ text "total_tokens"
    ∷ text "token_count"
    ∷ text "cache_read_tokens"
    ∷ text "cache_creation_tokens"
    ∷ []

abbrev pub max_content_length : ℕ
max_content_length = 16384

abbrev pub redacted : Text
redacted = text "[REDACTED]"

unfoldable pub is_sensitive_key : (Text → Text) → Text → Bool
is_sensitive_key to_lowercase key =
    let lower = to_lowercase key in
    if any (text_eq lower) protected_keys then false else any (contains lower) sensitive_keywords

unfoldable mutual
  pub redact_value : (Text → Text) → Value → Value
  redact_value lc (object fields) = object (redact_fields lc fields)
  redact_value lc (array items) = array (redact_items lc items)
  redact_value lc null = null
  redact_value lc (bool b) = bool b
  redact_value lc (int i) = int i
  redact_value lc (string s) = string s

  pub redact_items : (Text → Text) → Values → Values
  redact_items lc nil = nil
  redact_items lc (cons item items) = cons (redact_value lc item) (redact_items lc items)

  pub redact_fields : (Text → Text) → Fields → Fields
  redact_fields lc end = end
  redact_fields lc (field key value fields) =
      let kept = redact_value lc value in
      field key (if is_sensitive_key lc key then string redacted else kept)
        (redact_fields lc fields)

-- At most the first 16 KB, and then "...".
unfoldable pub cut_content : Text → Option Text
cut_content s =
    if ltb max_content_length (byte_len s)
    then map_some {V = Text} (λ t. t ++ text "...") (slice_to max_content_length s)
    else some s

abbrev pub sanitize_parsed : (Text → Text) → (Value → Text) → Text → Option Value → Option Text
sanitize_parsed lc to_string content none = cut_content content
sanitize_parsed lc to_string content (some value) = cut_content (to_string (redact_value lc value))

-- `sanitize_json_content`.
unfoldable pub sanitize_json_content :
    (Text → Text) → (Text → Option Value) → (Value → Text) → Text → Option Text
sanitize_json_content lc from_str to_string content =
    if text_eq content [] then some [] else sanitize_parsed lc to_string content (from_str content)
