-- ===== src/Errors/Slices.antt =====
-- When the shortening of an error body panics (sse/error.rs, sanitize_upstream_error).
use galaxy_router.Base.{
  ℕ, ◌-◌, ◌*◌, ◌≤◌, ◌<◌, ◌≡◌, sym, subst, ◌≢◌, ◌↔◌, ◌⊎◌, inl, inr, true, Option, none, some, [],
  ◌∷◌, ◌++◌, arith, ◌==◌, Bool-cases, Option-cases, is_some, length, All, Text,
}
use galaxy_router.Base.Json.{Value}
use galaxy_router.Errors.{utf8_width, byte_len, slice_to, sanitize_upstream_error}

slice_to-append : (n : ℕ) (a b : Text) → byte_len a ≡ n → slice_to n (a ++ b) ≡ some a
unfolding slice_to byte_len
slice_to-append n [] [] h = ground arith
slice_to-append n [] (c ∷ b) h = ground arith
slice_to-append n (c ∷ a) b h = ground (arith, slice_to-append (n - utf8_width c) a b)

-- A slice that does not panic ends where a character ends.
slice_to-some :
    (n : ℕ) (s a : Text) → slice_to n s ≡ some a → (b : Text) × (s ≡ a ++ b) × (byte_len a ≡ n)
unfolding slice_to byte_len
slice_to-some n [] a h = ([], ground arith, ground arith)
slice_to-some n (c ∷ s) a h = elim (Bool-cases (n == 0)) [
  | inl e ↦ (c ∷ s, ground (arith, e), ground (arith, e))
  | inr e ↦ elim (Option-cases (slice_to (n - utf8_width c) s)) [
    | inl none' ↦ absurd (ground (arith, e, none'))
    | inr (t, found) ↦
        let (b, split, long) = slice_to-some (n - utf8_width c) s t found in
        (b, ground (arith, e, found, split), ground (arith, e, found, long))
  ]
]

-- The shortening of a body panics, whatever the parser says, exactly when the body is longer than
-- 500 bytes and no start of it, as a text, is 500 bytes long: byte 500 is inside a character.
pub sanitize_upstream_error_panics :
    (from_str : Text → Option Value) (body : Text)
    → (sanitize_upstream_error from_str body ≡ none)
      ↔ ((500 < byte_len body) × ((a b : Text) → body ≡ a ++ b → byte_len a ≢ 500))
unfolding sanitize_upstream_error
sanitize_upstream_error_panics from_str body = (
  λ h. (
    ground arith,
    λ a b split long.
        ground
          (arith, subst (λ s. slice_to 500 s ≡ some a) (sym split) (slice_to-append 500 a b long)),
  ),
  λ (long, inside). elim (Option-cases (slice_to 500 body)) [
    | inl e ↦ ground (arith, e)
    | inr (a, e) ↦
        let (b, split, ends) = slice_to-some 500 body a e in absurd (inside a b split ends)
  ],
)

abbrev pub IsWide : Text → Type 0
IsWide = All (λ c. utf8_width c ≡ 3)

byte_len-IsWide : (s : Text) → IsWide s → byte_len s ≡ 3 * length s
unfolding byte_len
byte_len-IsWide [] w = omega arith
byte_len-IsWide (c ∷ s) (w, ws) = omega (arith, byte_len-IsWide s ws)

IsWide-append : (a b : Text) → IsWide (a ++ b) → IsWide a
IsWide-append [] b w = tt
IsWide-append (c ∷ a) b (w, ws) = (w, IsWide-append a b ws)

-- A body of at least 167 characters, all of three bytes, such as a Chinese error text, panics.
pub sanitize_upstream_error_wide :
    (from_str : Text → Option Value) (body : Text)
    → IsWide body
    → 167 ≤ length body
    → sanitize_upstream_error from_str body ≡ none
sanitize_upstream_error_wide from_str body w h = (sanitize_upstream_error_panics from_str body).1 (
  omega (arith, byte_len-IsWide body w),
  λ a b split long. omega (arith, byte_len-IsWide a (IsWide-append a b (subst IsWide split w))),
)

abbrev pub IsAscii : Text → Type 0
IsAscii = All (λ c. c < 128)

slice_to_ascii : (n : ℕ) (s : Text) → IsAscii s → n ≤ byte_len s → is_some (slice_to n s) ≡ true
unfolding slice_to byte_len
slice_to_ascii n [] a h = ground arith
slice_to_ascii n (c ∷ s) a h = ground (arith, slice_to_ascii (n - utf8_width c) s a.1)

-- A body that is ASCII, or at most 500 bytes long, never panics, whatever the parser makes of it.
pub sanitize_upstream_error_safe :
    (from_str : Text → Option Value) (body : Text)
    → (IsAscii body ⊎ (byte_len body ≤ 500))
    → is_some (sanitize_upstream_error from_str body) ≡ true
unfolding sanitize_upstream_error
sanitize_upstream_error_safe from_str body (inl a) = ground (arith, slice_to_ascii 500 body a)
sanitize_upstream_error_safe from_str body (inr short) = ground arith
