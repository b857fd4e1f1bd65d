-- ===== src/Relay/RateLimit.antt =====
-- src/llm/relay/ratelimit.rs: requests and tokens per minute of an API key. An `Instant` is a number
-- of nanoseconds, `retry_after` too; each call takes the clock's value.
pub mod Windows
pub mod Tokens
mod Tests
use galaxy_router.Base.{
  ℕ, zero, suc, ◌+◌, ◌-◌, ◌*◌, ◌/◌, ◌%◌, ◌^◌, ◌≤◌, ◌<◌, min, max, ◌≡◌, refl, sym, ap, subst, ◌∙◌,
  fun_ext, ◌≢◌, ◌↔◌, ◌⊎◌, inl, inr, Bool, true, false, not, ◌&&◌, ◌||◌, Option, none, some, List,
  [], ◌∷◌, ◌++◌, map, arith, ltb, leb, ◌==◌, if◌then◌else◌, ltb→lt, lt→ltb, leb→le, le→leb, lt→leb,
  ==_iff, tests, Bool-cases, Option-cases, get_or, is_some, length, get_elem?, take, filter, find,
  any, count, All, length-append, count-append, length-filter-le, All-append, find-passes, any-find,
  Text, text, text_eq, text_eq_iff, text_eq_self, text_ne, starts_with, contains,
  to_ascii_lowercase, starts_with-append, Map, keep_if, map_some, new_map, insert, alter, retain,
}

abbrev pub window_secs : ℕ
window_secs = 60

abbrev pub as_secs : ℕ → ℕ
as_secs d = d / 1000000000

abbrev pub u64 : ℕ → ℕ
u64 n = n % 18446744073709551616

pub record WindowState : Type 0 where
  pub window_start : ℕ
  pub request_count : ℕ  -- u64
  pub token_count : ℕ  -- u64

-- The field `windows`.
abbrev pub RateLimiter : Type 0
RateLimiter = Map WindowState

unfoldable pub new : RateLimiter
new = new_map

-- `Result<(), f64>`.
pub data Checked : Type 0 where
  ok : Checked
  err : ℕ → Checked

abbrev pub empty_window : ℕ → WindowState
empty_window now = record { window_start = now; request_count = 0; token_count = 0 }

-- `entry(key).or_insert_with(…)`.
abbrev pub or_insert : Option WindowState → ℕ → WindowState
or_insert none now = empty_window now
or_insert (some w) now = w

abbrev pub age : WindowState → ℕ → ℕ
age w now = now - w.window_start

-- A window that is over starts again.
unfoldable pub refresh : WindowState → ℕ → WindowState
refresh w now = if leb window_secs (as_secs (age w now)) then empty_window now else w

-- `(WINDOW_SECS as f64 - elapsed).max(1.0)`, in nanoseconds.
abbrev pub retry_after : WindowState → ℕ → ℕ
retry_after w now = max (window_secs * 1000000000 - age w now) 1000000000

unfoldable pub check_window : ℕ → WindowState → ℕ → WindowState × Checked
check_window rpm_limit w now =
    if leb rpm_limit w.request_count
    then (w, err (retry_after w now))
    else (record w { request_count = u64 (w.request_count + 1) }, ok)

unfoldable pub check_rpm : RateLimiter → Text → ℕ → ℕ → RateLimiter × Checked
check_rpm l key rpm_limit now =
    let (w, result) = check_window rpm_limit (refresh (or_insert (l key) now) now) now in
    if rpm_limit == 0 then (l, ok) else (insert key w l, result)

abbrev pub check_tokens : Option WindowState → ℕ → ℕ → Checked
check_tokens none tpm_limit now = ok
check_tokens (some w) tpm_limit now =
    if ltb (as_secs (age w now)) window_secs && leb tpm_limit w.token_count
    then err (retry_after w now)
    else ok

unfoldable pub check_tpm : RateLimiter → Text → ℕ → ℕ → Checked
check_tpm l key tpm_limit now = if tpm_limit == 0 then ok else check_tokens (l key) tpm_limit now

-- Only a window that is not over takes the tokens.
abbrev pub add_tokens : WindowState → ℕ → ℕ → WindowState
add_tokens w total now =
    if ltb (as_secs (age w now)) window_secs
    then record w { token_count = u64 (w.token_count + total) }
    else w

unfoldable pub record_tokens : RateLimiter → Text → ℕ → ℕ → ℕ → RateLimiter
record_tokens l key input_tokens output_tokens now =
    let total = u64 (input_tokens + output_tokens) in
    if total == 0 then l else insert key (add_tokens (or_insert (l key) now) total now) l

unfoldable pub get_usage : RateLimiter → Text → Option (ℕ × ℕ)
get_usage l key = elim (l key) [ none ↦ none | some w ↦ some (w.request_count, w.token_count) ]

unfoldable pub cleanup : RateLimiter → ℕ → RateLimiter
cleanup l now = retain (λ w. ltb (as_secs (age w now)) (window_secs * 2)) l
