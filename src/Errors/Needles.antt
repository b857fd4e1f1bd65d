-- ===== src/Errors/Needles.antt =====
-- How an upstream's error is classified (proxy.rs, classify).
use galaxy_router.Base.{
  ℕ, ◌≤◌, ◌≡◌, refl, Bool, true, Option, none, some, List, [], ◌∷◌, ◌++◌, arith, any, Text, text_eq,
  text_eq_iff, starts_with, contains, to_ascii_lowercase, starts_with-append,
}
use galaxy_router.Base.Json.{Value}
use galaxy_router.Errors.{
  byte_len, key_retryable, upstream_error, key_needles, has_needle, classify_body,
  sanitize_upstream_error, classify_upstream, classify,
}
use mathlib.Core.List.{map-append}

contains-starts_with : (s needle : Text) → starts_with s needle ≡ true → contains s needle ≡ true
unfolding contains
contains-starts_with [] needle h = h
contains-starts_with (c ∷ s) needle h = rw h refl

contains-append : (pre needle post : Text) → contains (pre ++ needle ++ post) needle ≡ true
unfolding contains
contains-append [] needle post =
    contains-starts_with (needle ++ post) needle (starts_with-append needle post)
contains-append (c ∷ pre) needle post = ground (arith, contains-append pre needle post)

any_of_listed :
    (p : Text → Bool) (needle : Text) (ns : List Text)
    → any (text_eq needle) ns ≡ true
    → p needle ≡ true
    → any p ns ≡ true
any_of_listed p needle [] h q = cc
any_of_listed p needle (n ∷ ns) h q =
    ground (arith, any_of_listed p needle ns, text_eq_iff needle n)

lowercase-append :
    (s t : Text) → to_ascii_lowercase (s ++ t) ≡ to_ascii_lowercase s ++ to_ascii_lowercase t
unfolding to_ascii_lowercase
lowercase-append s t = map-append _ s t

has_needle-phrase :
    (pre phrase post needle : Text)
    → any (text_eq needle) key_needles ≡ true
    → to_ascii_lowercase phrase ≡ needle
    → has_needle (to_ascii_lowercase (pre ++ phrase ++ post)) ≡ true
unfolding has_needle
has_needle-phrase pre phrase post needle listed lowered =
    any_of_listed (λ n. contains (to_ascii_lowercase (pre ++ phrase ++ post)) n) needle key_needles
      listed
      (rw (lowercase-append (pre ++ phrase) post, lowercase-append pre phrase, lowered)
        (contains-append (to_ascii_lowercase pre) needle (to_ascii_lowercase post)))

-- A body in which a listed phrase stands, in any case of its ASCII letters, asks for another key
-- at every status, if the body is no JSON and at most 500 bytes long.
pub classify-needle :
    (from_str : Text → Option Value) (status : ℕ) (pre phrase post needle : Text)
    → any (text_eq needle) key_needles ≡ true
    → to_ascii_lowercase phrase ≡ needle
    → from_str (pre ++ phrase ++ post) ≡ none
    → byte_len (pre ++ phrase ++ post) ≤ 500
    → classify from_str (upstream_error status (pre ++ phrase ++ post)) ≡ some key_retryable
unfolding classify classify_upstream sanitize_upstream_error classify_body
classify-needle from_str status pre phrase post needle listed lowered plain short =
    ground (arith, has_needle-phrase pre phrase post needle listed lowered)
