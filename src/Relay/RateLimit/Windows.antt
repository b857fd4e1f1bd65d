-- ===== src/Relay/RateLimit/Windows.antt =====
-- How many requests a key gets through (ratelimit.rs, check_rpm).
use galaxy_router.Base.{
  ℕ, zero, suc, ◌+◌, ◌-◌, ◌*◌, ◌≤◌, ◌<◌, min, ◌≡◌, refl, ◌∙◌, ◌⊎◌, Option, none, some, List, [],
  ◌∷◌, ◌++◌, arith, length, length-replicate, replicate, count, All, Text, text_eq_self, insert,
}
use native.Mathlib.Decide.{dec_lt}
use galaxy_router.Relay.RateLimit.{
  window_secs, WindowState, RateLimiter, Checked, ok, err, empty_window, or_insert, refresh,
  check_window, check_rpm,
}

abbrev admitted : Checked → ℕ
admitted ok = 1
admitted (err r) = 0

-- The requests of one key at the times of a list, and how many of them are let through.
unfoldable pub serve : RateLimiter → Text → ℕ → List ℕ → RateLimiter × ℕ
serve l key rpm_limit [] = (l, 0)
serve l key rpm_limit (t ∷ ts) =
    let (l', result) = check_rpm l key rpm_limit t in
    let (l'', n) = serve l' key rpm_limit ts in (l'', admitted result + n)

-- The same on the key's window alone.
serve_window : Option WindowState → ℕ → List ℕ → ℕ
serve_window o rpm_limit [] = 0
serve_window o rpm_limit (t ∷ ts) =
    let (w, result) = check_window rpm_limit (refresh (or_insert o t) t) t in
    admitted result + serve_window (some w) rpm_limit ts

check_rpm-check_window :
    (l : RateLimiter) (key : Text) (rpm_limit now : ℕ)
    → 0 < rpm_limit
    → check_rpm l key rpm_limit now ≡ (
        let (w, result) = check_window rpm_limit (refresh (or_insert (l key) now) now) now in
        (insert key w l, result))
unfolding check_rpm
check_rpm-check_window l key rpm_limit now pos = ground arith

serve-serve_window :
    (l : RateLimiter) (key : Text) (rpm_limit : ℕ) (ts : List ℕ)
    → 0 < rpm_limit
    → (serve l key rpm_limit ts).1 ≡ serve_window (l key) rpm_limit ts
unfolding serve serve_window
serve-serve_window l key rpm_limit [] pos = refl
serve-serve_window l key rpm_limit (t ∷ ts) pos =
    let w = (check_window rpm_limit (refresh (or_insert (l key) t) t) t).0 in
    ground (
      arith,
      check_rpm-check_window l key rpm_limit t pos,
      serve-serve_window (insert key w l) key rpm_limit ts pos,
      text_eq_self key,
    )

-- Times that all lie less than a window after a given one.
abbrev pub Within : ℕ → List ℕ → Type 0
Within a ts = All (λ t. (a ≤ t) × (t < a + window_secs * 1000000000)) ts

-- A check in a running window: it stays, and counts what it admits, up to the limit.
check_running :
    (w : WindowState) (rpm_limit t : ℕ)
    → rpm_limit < 18446744073709551616
    → t < w.window_start + window_secs * 1000000000
    → let (w', result) = check_window rpm_limit (refresh w t) t in
      (w'.window_start ≡ w.window_start)
      × (w'.request_count ≡ w.request_count + admitted result)
      × ((admitted result ≡ 1) × (w.request_count < rpm_limit)
          ⊎ (admitted result ≡ 0) × (rpm_limit ≤ w.request_count))
unfolding check_window refresh
check_running w rpm_limit t fits early = ground arith

-- A check in a window that is over: it starts again at this request.
check_over :
    (w : WindowState) (rpm_limit t : ℕ)
    → 0 < rpm_limit
    → w.window_start + window_secs * 1000000000 ≤ t
    → let (w', result) = check_window rpm_limit (refresh w t) t in
      (w'.window_start ≡ t) × (w'.request_count ≡ 1) × (admitted result ≡ 1)
unfolding check_window refresh
check_over w rpm_limit t pos late = ground arith

serve_window_running :
    (w : WindowState) (rpm_limit a : ℕ) (ts : List ℕ)
    → rpm_limit < 18446744073709551616
    → a ≤ w.window_start
    → Within a ts
    → serve_window (some w) rpm_limit ts ≡ min (length ts) (rpm_limit - w.request_count)
unfolding serve_window
serve_window_running w rpm_limit a [] fits start inside = omega arith
serve_window_running w rpm_limit a (t ∷ ts) fits start inside =
    let w' = (check_window rpm_limit (refresh w t) t).0 in
    omega (
      arith,
      check_running w rpm_limit t fits (omega arith),
      serve_window_running w' rpm_limit a ts fits
          (omega (arith, check_running w rpm_limit t fits (omega arith))) inside.1,
    )

serve_window-some :
    (w : WindowState) (rpm_limit a : ℕ) (ts : List ℕ)
    → 0 < rpm_limit
    → rpm_limit < 18446744073709551616
    → Within a ts
    → serve_window (some w) rpm_limit ts ≤ (rpm_limit - w.request_count) + rpm_limit
unfolding serve_window
serve_window-some w rpm_limit a [] pos fits inside = omega arith
serve_window-some w rpm_limit a (t ∷ ts) pos fits inside =
    let w' = (check_window rpm_limit (refresh w t) t).0 in
    elim (dec_lt t (w.window_start + window_secs * 1000000000)) [
      | yes early ↦ omega (
        arith,
        check_running w rpm_limit t fits early,
        serve_window-some w' rpm_limit a ts pos fits inside.1,
      )
      | no late ↦
          let over = check_over w rpm_limit t pos (omega arith) in
          omega (
            arith,
            over,
            serve_window_running w' rpm_limit a ts fits (omega (arith, over)) inside.1,
          )
    ]

serve_window_bound :
    (o : Option WindowState) (rpm_limit a : ℕ) (ts : List ℕ)
    → 0 < rpm_limit
    → rpm_limit < 18446744073709551616
    → Within a ts
    → serve_window o rpm_limit ts ≤ 2 * rpm_limit
unfolding serve_window
serve_window_bound none rpm_limit a [] pos fits inside = omega arith
serve_window_bound none rpm_limit a (t ∷ ts) pos fits inside =
    omega (arith, serve_window-some (empty_window t) rpm_limit a (t ∷ ts) pos fits inside)
serve_window_bound (some w) rpm_limit a ts pos fits inside =
    omega (arith, serve_window-some w rpm_limit a ts pos fits inside)

serve_window_first :
    (rpm_limit t : ℕ) (ts : List ℕ)
    → 0 < rpm_limit
    → rpm_limit < 18446744073709551616
    → Within t ts
    → serve_window none rpm_limit (t ∷ ts) ≡ min (suc (length ts)) rpm_limit
unfolding serve_window
serve_window_first rpm_limit t ts pos fits inside = omega (
  arith,
  serve_window_running (empty_window t) rpm_limit t (t ∷ ts) fits (omega arith)
      ((omega arith, omega arith), inside),
)

-- For a key without a window and a positive limit that fits a u64, of a request and those that
-- follow it within a window exactly as many are let through as there are, up to the limit.
pub serve_first_window :
    (l : RateLimiter) (key : Text) (rpm_limit t : ℕ) (ts : List ℕ)
    → l key ≡ none
    → 0 < rpm_limit
    → rpm_limit < 18446744073709551616
    → Within t ts
    → (serve l key rpm_limit (t ∷ ts)).1 ≡ min (suc (length ts)) rpm_limit
serve_first_window l key rpm_limit t ts absent pos fits inside =
    serve-serve_window l key rpm_limit (t ∷ ts) pos
    ∙ rw absent (serve_window_first rpm_limit t ts pos fits inside)

-- Whatever the limiter remembers, with a positive limit that fits a u64, of the requests of one
-- key within any span of one window no more than twice the limit are let through.
pub serve_any_span :
    (l : RateLimiter) (key : Text) (rpm_limit a : ℕ) (ts : List ℕ)
    → 0 < rpm_limit
    → rpm_limit < 18446744073709551616
    → Within a ts
    → (serve l key rpm_limit ts).1 ≤ 2 * rpm_limit
serve_any_span l key rpm_limit a ts pos fits inside =
    rw (serve-serve_window l key rpm_limit ts pos)
      (serve_window_bound (l key) rpm_limit a ts pos fits inside)

-- Requests at one instant of a running window with room for them are all let through.
serve_window_burst :
    (w : WindowState) (rpm_limit n t : ℕ) (ts : List ℕ)
    → rpm_limit < 18446744073709551616
    → w.request_count + n ≤ rpm_limit
    → t < w.window_start + window_secs * 1000000000
    → (w' : WindowState) × (w'.window_start ≡ w.window_start)
      × (w'.request_count ≡ w.request_count + n)
      × (serve_window (some w) rpm_limit (replicate n t ++ ts)
          ≡ n + serve_window (some w') rpm_limit ts)
unfolding serve_window
serve_window_burst w rpm_limit zero t ts fits room early =
    (w, omega arith, omega arith, omega arith)
serve_window_burst w rpm_limit (suc n) t ts fits room early =
    let one = check_running w rpm_limit t fits early in
    let w1 = (check_window rpm_limit (refresh w t) t).0 in
    let (w', start, count, rest) =
      serve_window_burst w1 rpm_limit n t ts fits (omega (arith, one)) (omega (arith, one)) in
    (w', omega (arith, one, start), omega (arith, one, count), omega (arith, one, rest))

abbrev pub seconds : ℕ → ℕ
seconds s = s * 1000000000

Within-replicate : (n t : ℕ) → Within t (replicate n t)
Within-replicate zero t = tt
Within-replicate (suc n) t = ((omega arith, omega arith), Within-replicate n t)

serve_window_over :
    (w : WindowState) (n t : ℕ)
    → suc n < 18446744073709551616
    → w.window_start + window_secs * 1000000000 ≤ t
    → serve_window (some w) (suc n) (replicate (suc n) t) ≡ suc n
unfolding serve_window
serve_window_over w n t fits late =
    let over = check_over w (suc n) t (omega arith) late in
    let w' = (check_window (suc n) (refresh w t) t).0 in
    omega (
      arith,
      over,
      length-replicate n t,
      serve_window_running w' (suc n) t (replicate n t) fits (omega (arith, over))
          (Within-replicate n t),
    )

serve_window_doubles :
    (n : ℕ)
    → suc n < 18446744073709551616
    → serve_window none (suc n) (0 ∷ replicate n (seconds 59) ++ replicate (suc n) (seconds 60))
      ≡ 2 * suc n
unfolding serve_window
serve_window_doubles n fits =
    let first = check_running (empty_window 0) (suc n) 0 fits (omega arith) in
    let w = (check_window (suc n) (refresh (empty_window 0) 0) 0).0 in
    let (w', start, count, burst) =
      serve_window_burst w (suc n) n (seconds 59) (replicate (suc n) (seconds 60)) fits
        (omega (arith, first)) (omega (arith, first)) in
    omega
      (arith, first, burst, serve_window_over w' n (seconds 60) fits (omega (arith, first, start)))

-- For a key without a window and every positive limit that fits a u64, one request at second 0,
-- the rest of the limit at second 59 and the whole limit at second 60 are all let through, twice
-- the limit in all.
pub serve_doubles :
    (l : RateLimiter) (key : Text) (rest_of_limit : ℕ)
    → l key ≡ none
    → suc rest_of_limit < 18446744073709551616
    → let limit = suc rest_of_limit in
      (serve l key limit
        (0 ∷ replicate rest_of_limit (seconds 59) ++ replicate limit (seconds 60))).1
      ≡ 2 * limit
serve_doubles l key n absent fits =
    serve-serve_window l key (suc n)
      (0 ∷ replicate n (seconds 59) ++ replicate (suc n) (seconds 60)) (omega arith)
    ∙ rw absent (serve_window_doubles n fits)
