-- ===== src/Plugin/Thinking/Search.antt =====
-- The search for a tag, and for the start of one at the end of the buffer, come to one scan
-- (thinking.rs, process_chunk and retain_pending_prefix).
use galaxy_router.Base.{
  ℕ, zero, suc, ◌-◌, ◌≤◌, ◌<◌, min, ◌≡◌, refl, ap, inl, inr, true, false, none, some, [], ◌∷◌,
  arith, ltb, ltb→lt, le→leb, Bool-cases, length, take, Text, text_eq, starts_with,
}
use mathlib.Core.Bool.{true≢false}
use galaxy_router.Plugin.Thinking.{drop, ends_with, split_at, longest_from, retain_pending_prefix}
use galaxy_router.Plugin.Thinking.Scan.{Scanned, tag_found, no_tag, emit, scan, starts_with-length}

length-take_le : (n : ℕ) (t : Text) → n ≤ length t → length (take n t) ≡ n
length-take_le zero t h = refl
length-take_le (suc n) [] h = absurd (omega arith)
length-take_le (suc n) (x ∷ t) h = ap suc (length-take_le n t (omega arith))

drop-cons :
    (c : ℕ) (s : Text) (n : ℕ)
    → n ≤ length s
    → drop (suc (length s) - n) (c ∷ s) ≡ drop (length s - n) s
drop-cons c s n h =
    let later : suc (length s) - n ≡ suc (length s - n) = omega arith in
    ap (λ k. drop k (c ∷ s)) later

ends_with-cons : (c : ℕ) (s t : Text) → length t ≤ length s → ends_with (c ∷ s) t ≡ ends_with s t
ends_with-cons c s t h =
    rw
      (
        le→leb (length t) (suc (length s)) (omega arith),
        le→leb (length t) (length s) h,
        drop-cons c s (length t) h,
      )
      refl

-- The whole text is the start of the tag.
text_eq-take : (s tag : Text) → text_eq s (take (length s) tag) ≡ starts_with tag s
unfolding text_eq starts_with
text_eq-take [] tag = refl
text_eq-take (c ∷ s) [] = refl
text_eq-take (c ∷ s) (b ∷ tag) = ground (arith, text_eq-take s tag)

ends_with-whole :
    (s tag : Text) → length s ≤ length tag → ends_with s (take (length s) tag) ≡ starts_with tag s
ends_with-whole s tag h =
    let nothing : length s - length s ≡ 0 = omega arith in
    rw (length-take_le (length s) tag h, le→leb (length s) (length s) (omega arith), nothing)
      (text_eq-take s tag)

longest_from-cons :
    (c : ℕ) (s tag : Text) (n : ℕ)
    → n ≤ length s
    → n ≤ length tag
    → longest_from (c ∷ s) tag n ≡ longest_from s tag n
unfolding longest_from
longest_from-cons c s tag zero h k = refl
longest_from-cons c s tag (suc n) h k =
    rw
      (
        ends_with-cons c s (take (suc n) tag) (omega (arith, length-take_le (suc n) tag k)),
        longest_from-cons c s tag n (omega arith) (omega arith),
      )
      refl

longest_step :
    (c : ℕ) (s tag : Text)
    → length s < length tag - 1
    → starts_with tag (c ∷ s) ≡ false
    → longest_from (c ∷ s) tag (suc (length s)) ≡ longest_from s tag (length s)
unfolding longest_from
longest_step c s tag short k =
    rw
      (
        ends_with-whole (c ∷ s) tag (omega arith),
        k,
        longest_from-cons c s tag (length s) (omega arith) (omega arith),
      )
      refl

longest_whole :
    (s tag : Text)
    → length s ≤ length tag
    → starts_with tag s ≡ true
    → longest_from s tag (length s) ≡ length s
unfolding longest_from
longest_whole [] tag h k = refl
longest_whole (c ∷ s) tag h k = rw (ends_with-whole (c ∷ s) tag h, k) refl

starts_with-short : (s tag : Text) → length s < length tag → starts_with s tag ≡ false
starts_with-short s tag short = elim (Bool-cases (starts_with s tag)) [
  | inl e ↦ absurd (omega (arith, starts_with-length s tag e))
  | inr e ↦ e
]

-- The suffix that waits, in the three ways that a character can be taken.
retain-skip :
    (c : ℕ) (s tag : Text)
    → 0 < length tag
    → starts_with tag (c ∷ s) ≡ false
    → retain_pending_prefix (c ∷ s) tag ≡ retain_pending_prefix s tag
unfolding retain_pending_prefix
retain-skip c s tag pos k = elim (Bool-cases (ltb (length s) (length tag - 1))) [
  | inl e ↦
      let short : length s < length tag - 1 = ltb→lt (length s) (length tag - 1) e in
      let whole : min (suc (length s)) (length tag - 1) ≡ suc (length s) = omega (arith, short) in
      let part : min (length s) (length tag - 1) ≡ length s = omega (arith, short) in
      rw (whole, part) (longest_step c s tag short k)
  | inr e ↦
      let long : length tag - 1 ≤ length s = ground (arith, e) in
      let whole : min (suc (length s)) (length tag - 1) ≡ length tag - 1 = omega (arith, long) in
      let part : min (length s) (length tag - 1) ≡ length tag - 1 = omega (arith, long) in
      rw (whole, part) (longest_from-cons c s tag (length tag - 1) long (omega arith))
]

retain-whole :
    (s tag : Text)
    → length s < length tag
    → starts_with tag s ≡ true
    → retain_pending_prefix s tag ≡ length s
unfolding retain_pending_prefix
retain-whole s tag short k =
    let part : min (length s) (length tag - 1) ≡ length s = omega arith in
    rw part (longest_whole s tag (omega arith) k)

split_at-short : (s tag : Text) → length s < length tag → split_at tag s ≡ none
unfolding split_at
split_at-short [] tag short = rw (starts_with-short [] tag short) refl
split_at-short (c ∷ s) tag short =
    rw (starts_with-short (c ∷ s) tag short, split_at-short s tag (omega arith)) refl

-- What the scan says of a buffer, the search and the retained suffix say.
abbrev pub Agrees : Text → Text → Scanned → Type 0
Agrees tag s (tag_found pre post) = split_at tag s ≡ some (pre, post)
Agrees tag s (no_tag out wait) =
    let cut : ℕ = length s - retain_pending_prefix s tag in
    (split_at tag s ≡ none) × (take cut s ≡ out) × (drop cut s ≡ wait)

longest_from_le : (s tag : Text) (n : ℕ) → longest_from s tag n ≤ n
unfolding longest_from
longest_from_le s tag zero = omega arith
longest_from_le s tag (suc n) = ground (arith, longest_from_le s tag n)

retain_le : (s tag : Text) → retain_pending_prefix s tag ≤ length s
unfolding retain_pending_prefix
retain_le s tag = omega (arith, longest_from_le s tag (min (length s) (length tag - 1)))

emit-Agrees :
    (tag : Text) (c : ℕ) (s : Text) (r : Scanned)
    → 0 < length tag
    → starts_with (c ∷ s) tag ≡ false
    → starts_with tag (c ∷ s) ≡ false
    → Agrees tag s r
    → Agrees tag (c ∷ s) (emit c r)
unfolding split_at
emit-Agrees tag c s (tag_found pre post) pos e k a = rw (e, a) refl
emit-Agrees tag c s (no_tag out wait) pos e k (a, before, behind) =
    let later : suc (length s) - retain_pending_prefix s tag
        ≡ suc (length s - retain_pending_prefix s tag) =
      omega (arith, retain_le s tag) in
    (
      rw (e, a) refl,
      rw (retain-skip c s tag pos k, later) (ap (λ t. c ∷ t) before),
      rw (retain-skip c s tag pos k, later) behind,
    )

take_nil : (n : ℕ) → take {A = ℕ} n [] ≡ []
take_nil zero = refl
take_nil (suc n) = refl

drop_nil : (n : ℕ) → drop n [] ≡ []
drop_nil zero = refl
drop_nil (suc n) = refl

starts_with-proper :
    (s tag : Text) → starts_with tag s ≡ true → starts_with s tag ≡ false → length s < length tag
unfolding starts_with
starts_with-proper s [] h k = elim (true≢false k) [ ]
starts_with-proper [] (b ∷ tag) h k = omega arith
starts_with-proper (c ∷ s) (b ∷ tag) h k = ground (arith, starts_with-proper s tag)

pub scan-Agrees : (tag s : Text) → 0 < length tag → Agrees tag s (scan tag s)
unfolding scan split_at
scan-Agrees tag [] pos =
    let cut : ℕ = 0 - retain_pending_prefix [] tag in
    (rw (starts_with-short [] tag pos) refl, take_nil cut, drop_nil cut)
scan-Agrees tag (c ∷ s) pos = elim (Bool-cases (starts_with (c ∷ s) tag)) [
  | inl e ↦ rw e (rw e refl)
  | inr e ↦ elim (Bool-cases (starts_with tag (c ∷ s))) [
    | inl k ↦
        let short = starts_with-proper (c ∷ s) tag k e in
        let nothing : suc (length s) - suc (length s) ≡ 0 = omega arith in
        rw (e, k)
          (
            rw (e, split_at-short s tag (omega (arith, short))) refl,
            rw (retain-whole (c ∷ s) tag short k, nothing) refl,
            rw (retain-whole (c ∷ s) tag short k, nothing) refl,
          )
    | inr k ↦ rw (e, k) (emit-Agrees tag c s (scan tag s) pos e k (scan-Agrees tag s pos))
  ]
]
