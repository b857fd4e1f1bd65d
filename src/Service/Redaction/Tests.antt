-- ===== src/Service/Redaction/Tests.antt =====
-- Concrete bodies, redacted and cut (redaction.rs).
use galaxy_router.Base.{
  ◌≤◌, ◌≡◌, refl, Option, none, some, if◌then◌else◌, Text, text, text_eq, starts_with, contains,
  to_ascii_lowercase,
}
use galaxy_router.Base.Json.{Value, null, string, array, object, nil, cons, end, field}
use galaxy_router.Errors.{byte_len}
use galaxy_router.Service.Redaction.{
  redacted, is_sensitive_key, redact_value, sanitize_json_content, cut_content,
}
use galaxy_router.Service.Redaction.Clean.{IsClean, redact_value-IsClean}
use galaxy_router.Service.Redaction.Cut.{byte_len-sanitize_json_content}

-- {"max_tokens": null, "items": [{"Api_Key": "k"}], "client_secret": [null]}
abbrev body : Value
body = object (
    field (text "max_tokens") null (
      field (text "items")
        (array (cons (object (field (text "Api_Key") (string (text "k")) end)) nil))
        (field (text "client_secret") (array (cons null nil)) end)))

abbrev redacted_body : Value
redacted_body = object (
    field (text "max_tokens") null (
      field (text "items")
        (array (cons (object (field (text "Api_Key") (string redacted) end)) nil))
        (field (text "client_secret") (string redacted) end)))

redact_test : redact_value to_ascii_lowercase body ≡ redacted_body
unfolding redact_value is_sensitive_key to_ascii_lowercase text_eq contains starts_with
redact_test = refl

-- A parser that knows one text, and a printer.
abbrev from_str : Text → Option Value
from_str s = if text_eq s (text "body") then some body else none

abbrev to_string : Value → Text
to_string v = text "printed"

redact_value-IsClean_example :
    IsClean to_ascii_lowercase (redact_value to_ascii_lowercase body)
    × (IsClean to_ascii_lowercase body → redact_value to_ascii_lowercase body ≡ body)
    × (redact_value to_ascii_lowercase (redact_value to_ascii_lowercase body)
        ≡ redact_value to_ascii_lowercase body)
redact_value-IsClean_example = redact_value-IsClean to_ascii_lowercase body

byte_len-sanitize_json_content_example : byte_len (text "printed") ≤ 16387
unfolding sanitize_json_content cut_content text_eq byte_len
byte_len-sanitize_json_content_example =
    byte_len-sanitize_json_content to_ascii_lowercase from_str to_string (text "body")
      (text "printed") refl
