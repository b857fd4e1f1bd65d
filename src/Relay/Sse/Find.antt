-- ===== src/Relay/Sse/Find.antt =====
-- Where an event ends (parsing.rs, find_sse_boundary).
use galaxy_router.Base.{
  ℕ, zero, suc, ◌+◌, ◌≤◌, ◌<◌, ◌≡◌, refl, ap, subst, ◌∙◌, inl, inr, true, false, ◌&&◌, Option, none,
  some, [], ◌∷◌, ◌++◌, arith, ◌==◌, Bool-cases, Option-cases, length, take, All, starts_with,
  map_some,
}
use mathlib.Core.Bool.{true≢false, false≢true}
use galaxy_router.Relay.Sse.{
  Bytes, newlines, crlf_newlines, position, boundary_after, find_sse_boundary,
}

starts_with-take :
    (n : ℕ) (s tag : Bytes) → length tag ≤ n → starts_with (take n s) tag ≡ starts_with s tag
unfolding starts_with
starts_with-take n s [] h = refl
starts_with-take zero s (t ∷ tag) h = absurd (omega arith)
starts_with-take (suc n) [] (t ∷ tag) h = refl
starts_with-take (suc n) (b ∷ s) (t ∷ tag) h =
    ap (λ x. b == t && x) (starts_with-take n s tag (omega arith))

starts_with-prefix :
    (n : ℕ) (s tag : Bytes) → starts_with s tag ≡ false → starts_with (take n s) tag ≡ false
unfolding starts_with
starts_with-prefix n s [] h = elim (true≢false h) [ ]
starts_with-prefix zero s (t ∷ tag) h = refl
starts_with-prefix (suc n) [] (t ∷ tag) h = refl
starts_with-prefix (suc n) (b ∷ s) (t ∷ tag) h = ground (arith, h, starts_with-prefix n s tag)

starts_with-more :
    (s tag more : Bytes) → starts_with s tag ≡ true → starts_with (s ++ more) tag ≡ true
unfolding starts_with
starts_with-more s [] more h = refl
starts_with-more [] (t ∷ tag) more h = elim (false≢true h) [ ]
starts_with-more (b ∷ s) (t ∷ tag) more h = ground (arith, h, starts_with-more s tag more)

starts_with-length : (s tag : Bytes) → starts_with s tag ≡ true → length tag ≤ length s
unfolding starts_with
starts_with-length s [] h = omega arith
starts_with-length [] (t ∷ tag) h = elim (false≢true h) [ ]
starts_with-length (b ∷ s) (t ∷ tag) h = ground (arith, h, starts_with-length s tag)

-- The place that is found, as a predicate on a result, so that it can be followed through a list.
abbrev pub InTake : Bytes → Bytes → Option ℕ → Type 0
InTake tag s none = (n : ℕ) → position tag (take n s) ≡ none
InTake tag s (some k) =
    (k + length tag ≤ length s) × (position tag (take (k + length tag) s) ≡ some k)

position_start :
    (tag s : Bytes) → 0 < length tag → starts_with s tag ≡ true → position tag s ≡ some 0
unfolding position
position_start tag [] pos h = absurd (omega (arith, starts_with-length [] tag h))
position_start tag (b ∷ s) pos h = rw h refl

later_none :
    (tag : Bytes) (b : ℕ) (s : Bytes) (n : ℕ)
    → starts_with (b ∷ s) tag ≡ false
    → ((m : ℕ) → position tag (take m s) ≡ none)
    → position tag (take n (b ∷ s)) ≡ none
unfolding position
later_none tag b s zero h k = refl
later_none tag b s (suc n) h k = rw (starts_with-prefix (suc n) (b ∷ s) tag h, k n) refl

later-InTake :
    (tag : Bytes) (b : ℕ) (s : Bytes) (o : Option ℕ)
    → starts_with (b ∷ s) tag ≡ false
    → InTake tag s o
    → InTake tag (b ∷ s) (map_some suc o)
unfolding position
later-InTake tag b s none h k = λ n. later_none tag b s n h k
later-InTake tag b s (some n) h (k, l) =
    let later : suc n + length tag ≡ suc (n + length tag) = omega arith in
    (
      omega (arith, k),
      ap (λ m. position tag (take m (b ∷ s))) later
          ∙ rw (starts_with-prefix (suc (n + length tag)) (b ∷ s) tag h, l) refl,
    )

empty_none : (tag : Bytes) (n : ℕ) → position tag (take n []) ≡ none
unfolding position
empty_none tag zero = refl
empty_none tag (suc n) = refl

position-InTake : (tag s : Bytes) → 0 < length tag → InTake tag s (position tag s)
unfolding position
position-InTake tag [] pos = empty_none tag
position-InTake tag (b ∷ s) pos = elim (Bool-cases (starts_with (b ∷ s) tag)) [
  | inl e ↦ rw e (
    omega (arith, starts_with-length (b ∷ s) tag e),
    position_start tag (take (0 + length tag) (b ∷ s)) pos
        (starts_with-take (0 + length tag) (b ∷ s) tag (omega arith) ∙ e),
  )
  | inr e ↦ rw e (later-InTake tag b s (position tag s) e (position-InTake tag s pos))
]

-- A boundary that is found lies in the buffer, is behind at least two bytes, and is the only one in
-- the event that it ends.
abbrev pub EndsEvent : Bytes → Option ℕ → Type 0
EndsEvent s none = Unit
EndsEvent s (some n) = (2 ≤ n) × (n ≤ length s) × (find_sse_boundary (take n s) ≡ some n)

boundary-EndsEvent :
    (s : Bytes) (a b : Option ℕ)
    → InTake newlines s a
    → InTake crlf_newlines s b
    → EndsEvent s
        (boundary_after a (length newlines) (boundary_after b (length crlf_newlines) none))
unfolding find_sse_boundary
boundary-EndsEvent s (some n) b (h, k) hb = (omega arith, h, rw (find_sse_boundary, k) refl)
boundary-EndsEvent s none (some n) ha (h, k) =
    (omega arith, h, rw (find_sse_boundary, ha (n + length crlf_newlines), k) refl)
boundary-EndsEvent s none none ha hb = tt

pub find_sse_boundary-EndsEvent : (s : Bytes) → EndsEvent s (find_sse_boundary s)
unfolding find_sse_boundary
find_sse_boundary-EndsEvent s =
    boundary-EndsEvent s (position newlines s) (position crlf_newlines s)
      (position-InTake newlines s (omega arith)) (position-InTake crlf_newlines s (omega arith))

abbrev pub NoCarriage : Bytes → Type 0
NoCarriage s = All (λ b. (b == 13) ≡ false) s

no_crlf : (s : Bytes) → NoCarriage s → position crlf_newlines s ≡ none
unfolding position starts_with
no_crlf [] h = refl
no_crlf (b ∷ s) (here, h) = rw (here, no_crlf s h) refl

-- What is found stays where it is as bytes are added.
abbrev pub Stays : Option ℕ → Option ℕ → Type 0
Stays none later = Unit
Stays (some n) later = later ≡ some n

starts_with-long :
    (s tag more : Bytes) → length tag ≤ length s → starts_with (s ++ more) tag ≡ starts_with s tag
unfolding starts_with
starts_with-long s [] more h = refl
starts_with-long [] (t ∷ tag) more h = absurd (omega arith)
starts_with-long (b ∷ s) (t ∷ tag) more h =
    ap (λ x. b == t && x) (starts_with-long s tag more (omega arith))

position-fits :
    (tag s : Bytes) (k : ℕ) → 0 < length tag → position tag s ≡ some k → k + length tag ≤ length s
position-fits tag s k pos e = (subst (InTake tag s) e (position-InTake tag s pos)).0

pub position-Stays :
    (tag s more : Bytes) → 0 < length tag → Stays (position tag s) (position tag (s ++ more))
unfolding position
position-Stays tag [] more pos = tt
position-Stays tag (b ∷ s) more pos = elim (Bool-cases (starts_with (b ∷ s) tag)) [
  | inl e ↦ rw (e, starts_with-more (b ∷ s) tag more e) refl
  | inr e ↦ elim (Option-cases (position tag s)) [
    | inl k ↦ rw (e, k) tt
    | inr (n, k) ↦
        let fits = position-fits tag s n pos k in
        let still : position tag (s ++ more) ≡ some n =
          subst (λ o. Stays o (position tag (s ++ more))) k (position-Stays tag s more pos) in
        rw (e, k, starts_with-long (b ∷ s) tag more (omega (arith, fits)), e, still) refl
  ]
]

boundary_newlines :
    (s : Bytes) → NoCarriage s → find_sse_boundary s ≡ boundary_after (position newlines s) 2 none
unfolding find_sse_boundary
boundary_newlines s h = rw (no_crlf s h) refl

after-Stays :
    (a b : Option ℕ) (other : Option ℕ)
    → Stays a b
    → Stays (boundary_after a 2 none) (boundary_after b 2 other)
after-Stays none b other h = tt
after-Stays (some n) b other h = rw h refl

pub find_sse_boundary-Stays :
    (s more : Bytes) → NoCarriage s → Stays (find_sse_boundary s) (find_sse_boundary (s ++ more))
unfolding find_sse_boundary
find_sse_boundary-Stays s more h = rw (no_crlf s h) (
    after-Stays (position newlines s) (position newlines (s ++ more))
      (boundary_after (position crlf_newlines (s ++ more)) (length crlf_newlines) none)
      (position-Stays newlines s more (omega arith)))
