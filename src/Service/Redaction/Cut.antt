-- ===== src/Service/Redaction/Cut.antt =====
-- How long what is stored can be, and when the cut panics (redaction.rs, sanitize_json_content).
use galaxy_router.Base.{
  ℕ, ◌+◌, ◌-◌, ◌≤◌, ◌≡◌, subst, inl, inr, Option, none, some, [], ◌∷◌, ◌++◌, arith, ltb, ◌==◌,
  Bool-cases, Option-cases, Text, text, text_eq, map_some,
}
use galaxy_router.Base.Json.{Value}
use galaxy_router.Errors.{utf8_width, byte_len, slice_to}
use galaxy_router.Service.Redaction.{
  max_content_length, redact_value, cut_content, sanitize_json_content,
}

byte_len-append : (s t : Text) → byte_len (s ++ t) ≡ byte_len s + byte_len t
unfolding byte_len
byte_len-append [] t = omega arith
byte_len-append (c ∷ s) t = omega (arith, byte_len-append s t)

-- What a slice gives is as long as asked for.
abbrev HasLength : ℕ → Option Text → Type 0
HasLength n none = Unit
HasLength n (some t) = byte_len t ≡ n

cons-HasLength :
    (n c : ℕ) (r : Option Text)
    → utf8_width c ≤ n
    → HasLength (n - utf8_width c) r
    → HasLength n (map_some {V = Text} (λ t. c ∷ t) r)
unfolding byte_len
cons-HasLength n c none w h = tt
cons-HasLength n c (some t) w h = omega arith

slice_to-HasLength : (n : ℕ) (s : Text) → HasLength n (slice_to n s)
unfolding slice_to byte_len
slice_to-HasLength n [] = elim (Bool-cases (n == 0)) [
  | inl e ↦ rw e (ground (arith, e))
  | inr e ↦ rw e tt
]
slice_to-HasLength n (c ∷ s) = elim (Bool-cases (n == 0)) [
  | inl e ↦ rw e (ground (arith, e))
  | inr e ↦ elim (Bool-cases (ltb n (utf8_width c))) [
    | inl k ↦ rw (e, k) tt
    | inr k ↦
        let fits : utf8_width c ≤ n = ground (arith, k) in
        rw (e, k)
          (cons-HasLength n c (slice_to (n - utf8_width c) s) fits
            (slice_to-HasLength (n - utf8_width c) s))
  ]
]

-- With the dots that follow a cut.
abbrev AtMost : ℕ → Option Text → Type 0
AtMost n none = Unit
AtMost n (some t) = byte_len t ≤ n

dots-AtMost :
    (n : ℕ) (r : Option Text)
    → HasLength n r
    → AtMost (n + 3) (map_some {V = Text} (λ t. t ++ text "...") r)
unfolding byte_len
dots-AtMost n none h = tt
dots-AtMost n (some t) h = omega (arith, byte_len-append t (text "..."))

cut_content-AtMost : (s : Text) → AtMost 16387 (cut_content s)
unfolding cut_content
cut_content-AtMost s = elim (Bool-cases (ltb max_content_length (byte_len s))) [
  | inl e ↦ rw e (
      dots-AtMost max_content_length (slice_to max_content_length s)
        (slice_to-HasLength max_content_length s))
  | inr e ↦ let short : byte_len s ≤ 16384 = ground (arith, e) in rw e (omega (arith, short))
]

sanitize-AtMost :
    (lc : Text → Text) (from_str : Text → Option Value) (to_string : Value → Text) (content : Text)
    → AtMost 16387 (sanitize_json_content lc from_str to_string content)
unfolding sanitize_json_content byte_len
sanitize-AtMost lc from_str to_string content = elim (Bool-cases (text_eq content [])) [
  | inl e ↦ rw e (omega arith)
  | inr e ↦ elim (Option-cases (from_str content)) [
    | inl k ↦ rw (e, k) (cut_content-AtMost content)
    | inr (v, k) ↦ rw (e, k) (cut_content-AtMost (to_string (redact_value lc v)))
  ]
]

-- What is stored of a body, if the cut does not panic, is at most 16,387 bytes long, whatever the
-- parser and the printer do.
pub byte_len-sanitize_json_content :
    (lc : Text → Text) (from_str : Text → Option Value) (to_string : Value → Text)
    (content out : Text)
    → sanitize_json_content lc from_str to_string content ≡ some out
    → byte_len out ≤ 16387
byte_len-sanitize_json_content lc from_str to_string content out h =
    subst (AtMost 16387) h (sanitize-AtMost lc from_str to_string content)
