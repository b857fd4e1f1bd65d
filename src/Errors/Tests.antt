-- ===== src/Errors/Tests.antt =====
-- Errors at small inputs.
use galaxy_router.Base.{
  ◌<◌, ◌≡◌, ◌≢◌, ◌↔◌, refl, inl, true, Option, none, some, ◌++◌, arith, is_some, replicate, Text,
  text, text_eq, starts_with, contains, to_ascii_lowercase,
}
use galaxy_router.Base.Json.{Value}
use galaxy_router.Errors.{
  byte_len, key_retryable, upstream_retryable, upstream_error, has_needle, classify_body,
  sanitize_upstream_error, classify_upstream, classify, render_status_and_message,
  from_relay_outcome,
}
use galaxy_router.Errors.Slices.{
  sanitize_upstream_error_panics, sanitize_upstream_error_wide, sanitize_upstream_error_safe,
}
use galaxy_router.Errors.Needles.{classify-needle}

-- A parser that takes no body for JSON.
abbrev no_json : Text → Option Value
no_json body = none

abbrev chinese : Text
chinese = replicate 200 0x989D

sanitize_upstream_error_panics_example :
    (sanitize_upstream_error no_json chinese ≡ none)
    ↔ ((500 < byte_len chinese) × ((a b : Text) → chinese ≡ a ++ b → byte_len a ≢ 500))
sanitize_upstream_error_panics_example = sanitize_upstream_error_panics no_json chinese

sanitize_upstream_error_wide_test : sanitize_upstream_error no_json chinese ≡ none
sanitize_upstream_error_wide_test =
    sanitize_upstream_error_wide no_json chinese (omega arith) (omega arith)

sanitize_upstream_error_safe_test :
    is_some (sanitize_upstream_error no_json (text "bad gateway")) ≡ true
sanitize_upstream_error_safe_test =
    sanitize_upstream_error_safe no_json (text "bad gateway") (inl (omega arith))

classify-needle_example :
    classify no_json (upstream_error 400 (text "x: " ++ text "Rate Limit" ++ text " hit"))
    ≡ some key_retryable
unfolding byte_len to_ascii_lowercase text_eq
classify-needle_example =
    classify-needle no_json 400 (text "x: ") (text "Rate Limit") (text " hit") (text "rate limit")
      refl refl refl (omega arith)

overloaded :
    classify no_json (upstream_error 500 (text "upstream overloaded")) ≡ some upstream_retryable
unfolding classify classify_upstream classify_body sanitize_upstream_error has_needle contains
    starts_with to_ascii_lowercase byte_len
overloaded = refl

-- A client error of the upstream is shown as 503, with the message of the attempt.
render_test :
    render_status_and_message no_json (from_relay_outcome 429 (some (text "slow down")))
    ≡ some (503, text "slow down")
unfolding render_status_and_message from_relay_outcome
render_test = refl
