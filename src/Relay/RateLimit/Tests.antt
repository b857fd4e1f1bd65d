-- ===== src/Relay/RateLimit/Tests.antt =====
-- The rate limiter at work on small inputs.
use galaxy_router.Base.{◌≤◌, ◌≡◌, refl, some, [], ◌∷◌, arith, Text, text, text_eq, insert}
use galaxy_router.Relay.RateLimit.{
  WindowState, RateLimiter, new, ok, err, refresh, check_window, check_rpm, check_tpm,
  record_tokens, cleanup,
}
use galaxy_router.Relay.RateLimit.Windows.{
  serve, seconds, serve_first_window, serve_any_span, serve_doubles,
}
use galaxy_router.Relay.RateLimit.Tokens.{
  RetryInRange, record_all, checks-RetryInRange, record_all-check_tpm, record_tokens-check_tpm,
  cleanup-checks,
}

abbrev key_a : Text
key_a = text "key-a"

three_of_four : (serve new key_a 3 (0 ∷ 1 ∷ 2 ∷ 3 ∷ [])).1 ≡ 3
unfolding serve new check_rpm check_window refresh text_eq
three_of_four = refl

serve_first_window_test : (serve new key_a 3 (0 ∷ 1 ∷ 2 ∷ 3 ∷ [])).1 ≡ 3
unfolding new
serve_first_window_test =
    serve_first_window new key_a 3 0 (1 ∷ 2 ∷ 3 ∷ []) refl (omega arith) (omega arith) (omega arith)

serve_any_span_example : (serve new key_a 1 (seconds 59 ∷ seconds 60 ∷ seconds 61 ∷ [])).1 ≤ 2
serve_any_span_example =
    serve_any_span new key_a 1 (seconds 59) (seconds 59 ∷ seconds 60 ∷ seconds 61 ∷ [])
      (omega arith) (omega arith) (omega arith)

serve_doubles_example : (serve new key_a 2 (0 ∷ seconds 59 ∷ seconds 60 ∷ seconds 60 ∷ [])).1 ≡ 4
unfolding new
serve_doubles_example = serve_doubles new key_a 1 refl (omega arith)

checks-RetryInRange_test :
    RetryInRange (check_rpm new key_a 1 0).1 × RetryInRange (check_tpm new key_a 1 0)
checks-RetryInRange_test = checks-RetryInRange new key_a 1 0

abbrev busy : WindowState
busy = record { window_start = 0; request_count = 1; token_count = 10 }

abbrev one_window : RateLimiter
one_window = insert key_a busy new

found_busy : one_window key_a ≡ some busy
unfolding text_eq
found_busy = refl

record_all-check_tpm_example :
    (record_all one_window key_a ((5000, 5000, seconds 61) ∷ []) key_a ≡ some busy)
    × (check_tpm
          (record_all one_window key_a ((5000, 5000, seconds 61) ∷ []))
          key_a
          100
          (seconds 62)
        ≡ ok)
record_all-check_tpm_example =
    record_all-check_tpm one_window key_a busy ((5000, 5000, seconds 61) ∷ []) 100 (seconds 62)
      found_busy (omega arith) (omega arith)

record_tokens-check_tpm_test :
    check_tpm (record_tokens one_window key_a 50 50 (seconds 20)) key_a 100 (seconds 20)
    ≡ err (seconds 40)
record_tokens-check_tpm_test =
    record_tokens-check_tpm one_window key_a busy 50 50 100 (seconds 20) found_busy (omega arith)
      (omega arith) (omega arith)

cleanup-checks_test :
    ((check_rpm (cleanup one_window (seconds 130)) key_a 1 (seconds 131)).1
      ≡ (check_rpm one_window key_a 1 (seconds 131)).1)
    × (check_tpm (cleanup one_window (seconds 130)) key_a 1 (seconds 131)
        ≡ check_tpm one_window key_a 1 (seconds 131))
cleanup-checks_test = cleanup-checks one_window key_a 1 (seconds 130) (seconds 131) (omega arith)
