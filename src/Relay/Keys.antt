-- ===== src/Relay/Keys.antt =====
-- Which keys a request tries, and in which order (service/routing/mod.rs, api_key_attempts).
mod Tests
use galaxy_router.Base.{
  ℕ, zero, suc, ◌+◌, ◌-◌, ◌*◌, ◌/◌, ◌%◌, ◌^◌, ◌≤◌, ◌<◌, min, max, ◌≡◌, refl, sym, ap, subst, ◌∙◌,
  fun_ext, ◌≢◌, ◌↔◌, ◌⊎◌, inl, inr, Bool, true, false, not, ◌&&◌, ◌||◌, Option, none, some, List,
  [], ◌∷◌, ◌++◌, map, arith, ltb, leb, ◌==◌, if◌then◌else◌, ltb→lt, lt→ltb, leb→le, le→leb, lt→leb,
  ==_iff, tests, Bool-cases, Option-cases, get_or, is_some, length, get_elem?, take, replicate,
  filter, find, any, count, All, length-append, length-replicate, count-append, length-filter-le,
  All-append, find-passes, any-find, Text, text, text_eq, text_eq_iff, text_eq_self, text_ne,
  starts_with, contains, to_ascii_lowercase, starts_with-append, Map, keep_if, map_some, new_map,
  insert, alter, retain,
}
use native.Mathlib.Nat.{mod-eq_of_lt, mod-eq-sub-mod, mod-lt}
use galaxy_router.Relay.Channel.{
  UpstreamApiKey, ChannelInfo, enabled_api_keys, key_at, keys_from, api_key_attempts,
}

abbrev pub skip {ℓ} : {A : Type ℓ} → ℕ → List A → List A
skip zero xs = xs
skip (suc n) [] = []
skip (suc n) (x ∷ xs) = skip n xs

abbrev pub keys_of : List UpstreamApiKey → List Text
keys_of keys = map (λ k. k.key) keys

skip-key_at :
    (keys : List UpstreamApiKey) (i : ℕ)
    → i < length keys
    → skip i (keys_of keys) ≡ key_at keys i ∷ skip (suc i) (keys_of keys)
skip-key_at [] i h = absurd (omega arith)
skip-key_at (k ∷ keys) zero h = refl
skip-key_at (k ∷ keys) (suc i) h = skip-key_at keys i (omega arith)

-- Offsets that lead to places in a row give the keys there.
keys_from-row :
    (keys : List UpstreamApiKey) (start offset left j : ℕ)
    → ((i : ℕ) → i < left → (start + (offset + i)) % length keys ≡ j + i)
    → j + left ≤ length keys
    → keys_from keys start offset left ≡ take left (skip j (keys_of keys))
unfolding keys_from
keys_from-row keys start offset zero j places fits = refl
keys_from-row keys start offset (suc left) j places fits =
    let here : (start + offset) % length keys ≡ j =
      ap (λ o. (start + o) % length keys) (later_0 offset)
      ∙ places 0 (omega arith)
      ∙ sym (later_0 j) in
    let rest =
      keys_from-row keys start (suc offset) left (suc j)
        (λ i h.
          ap (λ o. (start + o) % length keys) (shift offset i)
          ∙ places (suc i) (omega arith)
          ∙ sym (shift j i))
        (omega arith) in
    ap (λ p. key_at keys p ∷ keys_from keys start (suc offset) left) here
    ∙ ap (λ t. key_at keys j ∷ t) rest
    ∙ ap (take (suc left)) (sym (skip-key_at keys j (omega arith)))
  where
    later_0 : (o : ℕ) → o ≡ o + 0
    later_0 o = omega arith

    shift : (o i : ℕ) → suc o + i ≡ o + suc i
    shift o i = omega arith

keys_from-append :
    (keys : List UpstreamApiKey) (start offset a b : ℕ)
    → keys_from keys start offset (a + b)
      ≡ keys_from keys start offset a ++ keys_from keys start (offset + a) b
unfolding keys_from
keys_from-append keys start offset zero b =
    let same : 0 + b ≡ b = omega arith in
    let from : offset ≡ offset + 0 = omega arith in
    ap (keys_from keys start offset) same ∙ ap (λ o. keys_from keys start o b) from
keys_from-append keys start offset (suc a) b =
    let one_more : suc a + b ≡ suc (a + b) = omega arith in
    let from : suc offset + a ≡ offset + suc a = omega arith in
    ap (keys_from keys start offset) one_more
    ∙ ap (λ t. key_at keys ((start + offset) % length keys) ∷ t)
        (keys_from-append keys start (suc offset) a b
          ∙ ap (λ o. keys_from keys start (suc offset) a ++ keys_from keys start o b) from)

take-skip_all :
    (j : ℕ) (xs : List Text) → j ≤ length xs → take (length xs - j) (skip j xs) ≡ skip j xs
take-skip_all zero [] h = refl
take-skip_all zero (x ∷ xs) h =
    let whole : suc (length xs) - 0 ≡ suc (length xs) = omega arith in
    let same : length xs - 0 ≡ length xs = omega arith in
    ap (λ n. take n (x ∷ xs)) whole
    ∙ ap (λ t. x ∷ t) (ap (λ n. take n xs) (sym same) ∙ take-skip_all zero xs (omega arith))
take-skip_all (suc j) [] h = absurd (omega arith)
take-skip_all (suc j) (x ∷ xs) h =
    let one_less : suc (length xs) - suc j ≡ length xs - j = omega arith in
    ap (λ n. take n (skip j xs)) one_less ∙ take-skip_all j xs (omega arith)

length-keys_of : (keys : List UpstreamApiKey) → length (keys_of keys) ≡ length keys
length-keys_of [] = refl
length-keys_of (k ∷ keys) = ap suc (length-keys_of keys)

-- From the start to the end of the list, and then from its beginning.
rotated :
    (keys : List UpstreamApiKey) (start : ℕ)
    → start < length keys
    → keys_from keys start 0 (length keys) ≡ skip start (keys_of keys) ++ take start (keys_of keys)
rotated keys start h =
    let n : ℕ = length keys in
    let parts : n ≡ (n - start) + start = omega (arith, h) in
    let first : keys_from keys start 0 (n - start) ≡ take (n - start) (skip start (keys_of keys)) =
      keys_from-row keys start 0 (n - start) start
        (λ i k.
          let inside : start + (0 + i) < n = omega (arith, k) in
          let place : start + (0 + i) ≡ start + i = omega arith in mod-eq_of_lt inside ∙ place)
        (omega (arith, h)) in
    let second : keys_from keys start (0 + (n - start)) start ≡ take start (keys_of keys) =
      keys_from-row keys start (0 + (n - start)) start 0
        (λ i k.
          let beyond : n ≤ start + ((0 + (n - start)) + i) = omega (arith, h) in
          let back : start + ((0 + (n - start)) + i) - n ≡ 0 + i = omega (arith, h) in
          let small : 0 + i < n = omega (arith, k, h) in
          mod-eq-sub-mod beyond ∙ ap (λ p. p % n) back ∙ mod-eq_of_lt small)
        (omega (arith, h)) in
    let long : n ≡ length (keys_of keys) = sym (length-keys_of keys) in
    ap (keys_from keys start 0) parts
    ∙ keys_from-append keys start 0 (n - start) start
    ∙ ap (λ t. t ++ keys_from keys start (0 + (n - start)) start) first
    ∙ ap (λ t. take (n - start) (skip start (keys_of keys)) ++ t) second
    ∙ ap (λ m. take (m - start) (skip start (keys_of keys)) ++ take start (keys_of keys)) long
    ∙ ap (λ t. t ++ take start (keys_of keys))
        (take-skip_all start (keys_of keys) (omega (arith, h, long)))

-- A channel with an enabled key is tried with its enabled keys in their order, each once: from
-- the place that the counter gives, modulo their number, to the end, and then from the first one
-- up to that place.
pub api_key_attempts_lem :
    (ch : ChannelInfo) (counter : ℕ)
    → 0 < length (enabled_api_keys ch)
    → (let keys = keys_of (enabled_api_keys ch) in
        let start = counter % length (enabled_api_keys ch) in
        api_key_attempts ch counter ≡ skip start keys ++ take start keys)
unfolding api_key_attempts
api_key_attempts_lem ch counter some_key = elim (Bool-cases (length (enabled_api_keys ch) == 0)) [
  | inl e ↦ absurd (ground (arith, e))
  | inr e ↦ rw e (
      rotated (enabled_api_keys ch) (counter % length (enabled_api_keys ch))
        (mod-lt counter some_key))
]
