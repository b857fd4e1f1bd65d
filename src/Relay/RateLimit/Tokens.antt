-- ===== src/Relay/RateLimit/Tokens.antt =====
-- The token limit of a key (ratelimit.rs, check_tpm and record_tokens), and what a cleanup keeps.
use galaxy_router.Base.{
  ℕ, ◌+◌, ◌*◌, ◌≤◌, ◌<◌, ◌≡◌, refl, inl, inr, Bool, true, false, Option, none, some, List, [], ◌∷◌,
  arith, ltb, leb, ◌==◌, if◌then◌else◌, Bool-cases, All, Text, text_eq_self, keep_if,
}
use galaxy_router.Relay.RateLimit.{
  window_secs, as_secs, WindowState, RateLimiter, Checked, ok, err, or_insert, age, refresh,
  retry_after, check_window, check_rpm, check_tokens, check_tpm, record_tokens, cleanup,
}

-- The time of a refusal: at least a second, and at most a window, on both checks.
abbrev pub RetryInRange : Checked → Type 0
RetryInRange ok = Unit
RetryInRange (err r) = (1000000000 ≤ r) × (r ≤ window_secs * 1000000000)

check_window-RetryInRange :
    (rpm_limit : ℕ) (w : WindowState) (now : ℕ) → RetryInRange (check_window rpm_limit w now).1
unfolding check_window
check_window-RetryInRange rpm_limit w now = ground arith

check_tokens-RetryInRange :
    (o : Option WindowState) (limit now : ℕ) (skip : Bool)
    → RetryInRange (if skip then ok else check_tokens o limit now)
check_tokens-RetryInRange none limit now true = tt
check_tokens-RetryInRange none limit now false = tt
check_tokens-RetryInRange (some w) limit now skip = ground arith

-- A refusal, for requests or for tokens, asks for a wait of at least a second and at most a
-- window.
pub checks-RetryInRange :
    (l : RateLimiter) (key : Text) (limit now : ℕ)
    → RetryInRange (check_rpm l key limit now).1 × RetryInRange (check_tpm l key limit now)
unfolding check_rpm check_tpm
checks-RetryInRange l key limit now = (rpm, tpm)
  where
    rpm : RetryInRange (check_rpm l key limit now).1
    rpm = elim (Bool-cases (limit == 0)) [
      | inl unlimited ↦ rw (unlimited, check_rpm) tt
      | inr pos ↦ rw (pos, check_rpm) (check_window-RetryInRange limit _ now)
    ]

    tpm : RetryInRange (check_tpm l key limit now)
    tpm = check_tokens-RetryInRange (l key) limit now (limit == 0)

-- The tokens of one key, recorded one request after another: input, output and time.
pub record_all : RateLimiter → Text → List (ℕ × ℕ × ℕ) → RateLimiter
record_all l key [] = l
record_all l key ((input, output, t) ∷ uses) =
    record_all (record_tokens l key input output t) key uses

-- Times at which a window is over.
abbrev pub Late : WindowState → List (ℕ × ℕ × ℕ) → Type 0
Late w = All (λ u. w.window_start + window_secs * 1000000000 ≤ u.2)

record_tokens_late :
    (l : RateLimiter) (key : Text) (w : WindowState) (input output t : ℕ)
    → l key ≡ some w
    → w.window_start + window_secs * 1000000000 ≤ t
    → record_tokens l key input output t key ≡ some w
unfolding record_tokens
record_tokens_late l key w input output t found late = ground (arith, text_eq_self key)

record_all-Late :
    (l : RateLimiter) (key : Text) (w : WindowState) (uses : List (ℕ × ℕ × ℕ))
    → l key ≡ some w
    → Late w uses
    → record_all l key uses key ≡ some w
unfolding record_all
record_all-Late l key w [] found late = found
record_all-Late l key w ((input, output, t) ∷ uses) found late =
    record_all-Late (record_tokens l key input output t) key w uses
      (record_tokens_late l key w input output t found late.0) late.1

check_tpm_late :
    (l : RateLimiter) (key : Text) (w : WindowState) (limit later : ℕ)
    → l key ≡ some w
    → w.window_start + window_secs * 1000000000 ≤ later
    → check_tpm l key limit later ≡ ok
unfolding check_tpm
check_tpm_late l key w limit later found late = rw found (ground arith)

-- Once the window of a key is over, any number of recorded uses leaves it as it is, and every
-- later check of the token limit passes.
pub record_all-check_tpm :
    (l : RateLimiter) (key : Text) (w : WindowState) (uses : List (ℕ × ℕ × ℕ)) (limit later : ℕ)
    → l key ≡ some w
    → Late w uses
    → w.window_start + window_secs * 1000000000 ≤ later
    → (record_all l key uses key ≡ some w)
      × (check_tpm (record_all l key uses) key limit later ≡ ok)
record_all-check_tpm l key w uses limit later found late after =
    let kept = record_all-Late l key w uses found late in
    (kept, check_tpm_late (record_all l key uses) key w limit later kept after)

-- In a running window, while the sum fits a u64, a recorded use is counted, and a positive token
-- limit refuses at that time exactly when the sum has reached it.
pub record_tokens-check_tpm :
    (l : RateLimiter) (key : Text) (w : WindowState) (input output limit now : ℕ)
    → l key ≡ some w
    → now < w.window_start + window_secs * 1000000000
    → w.token_count + input + output < 18446744073709551616
    → 0 < limit
    → check_tpm (record_tokens l key input output now) key limit now
      ≡ (if leb limit (w.token_count + input + output) then err (retry_after w now) else ok)
unfolding check_tpm record_tokens
record_tokens-check_tpm l key w input output limit now found early fits pos =
    ground (arith, text_eq_self key)

abbrev is_kept : ℕ → WindowState → Bool
is_kept now w = ltb (as_secs (age w now)) (window_secs * 2)

refresh-keep_if :
    (o : Option WindowState) (now later : ℕ)
    → now ≤ later
    → refresh (or_insert (keep_if (is_kept now) o) later) later ≡ refresh (or_insert o later) later
unfolding refresh
refresh-keep_if none now later h = refl
refresh-keep_if (some w) now later h = ground arith

check_tokens-keep_if :
    (o : Option WindowState) (limit now later : ℕ)
    → now ≤ later
    → check_tokens (keep_if (is_kept now) o) limit later ≡ check_tokens o limit later
check_tokens-keep_if none limit now later h = refl
check_tokens-keep_if (some w) limit now later h = ground arith

-- A cleanup changes no answer of either check at a later time.
pub cleanup-checks :
    (l : RateLimiter) (key : Text) (limit now later : ℕ)
    → now ≤ later
    → ((check_rpm (cleanup l now) key limit later).1 ≡ (check_rpm l key limit later).1)
      × (check_tpm (cleanup l now) key limit later ≡ check_tpm l key limit later)
unfolding check_rpm check_tpm cleanup
cleanup-checks l key limit now later h = (
  rw (refresh-keep_if (l key) now later h) (ground arith),
  rw (check_tokens-keep_if (l key) limit now later h),
)
