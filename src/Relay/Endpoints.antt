-- ===== src/Relay/Endpoints.antt =====
-- Which endpoint a channel is called at (domain/channel.rs, find_best_endpoint).
mod Tests
use galaxy_router.Base.{
  ◌≡◌, ◌||◌, refl, Bool, true, false, ◌&&◌, Option, none, some, List, [], ◌∷◌, arith, Bool-cases,
  Option-cases, is_some, find, any, find-passes, any-find, ◌⊎◌, inl, inr, ◌∙◌, ap, sym,
}
use galaxy_router.Relay.Channel.{
  EndpointType, open_ai_chat, anthropic, EndpointConfig, ChannelInfo, offers, find_endpoint,
  has_any_endpoint, or_else, find_best_endpoint,
}

is_some-find {ℓ} : {A : Type ℓ} (p : A → Bool) (xs : List A) → is_some (find p xs) ≡ any p xs
is_some-find p [] = refl
is_some-find p (x ∷ xs) = ground (arith, is_some-find p xs)

is_some-or_else {ℓ} :
    {A : Type ℓ} (a b : Option A) → is_some (or_else a b) ≡ (is_some a || is_some b)
is_some-or_else none b = refl
is_some-or_else (some a) b = refl

offers_some :
    (t : EndpointType) (es : List EndpointConfig)
    → any (offers t) es ≡ true
    → any (λ e. e.enabled) es ≡ true
offers_some t [] h = h
offers_some t (e ∷ es) h = ground (arith, offers_some t es)

-- A choice between options that pass a test passes it.
Passes : (EndpointConfig → Bool) → Option EndpointConfig → Type 0
Passes p o = (e : EndpointConfig) → o ≡ some e → p e ≡ true

or_else-Passes :
    (p : EndpointConfig → Bool) (a b : Option EndpointConfig)
    → Passes p a
    → Passes p b
    → Passes p (or_else a b)
unfolding Passes
or_else-Passes p none b ha hb = hb
or_else-Passes p (some a) b ha hb = ha

offers-Passes :
    (t : EndpointType) (es : List EndpointConfig) → Passes (λ e. e.enabled) (find (offers t) es)
unfolding Passes
offers-Passes t es e h = ground (arith, find-passes (offers t) es e h)

-- One of several options is there when the last one must be.
last_some :
    (a b c d : Bool)
    → (a ≡ true → d ≡ true)
    → (b ≡ true → d ≡ true)
    → (c ≡ true → d ≡ true)
    → (a || (b || (c || d))) ≡ d
last_some a b c d ha hb hc = ground arith

best_is_some :
    (ch : ChannelInfo) (t : EndpointType) → is_some (find_best_endpoint ch t) ≡ has_any_endpoint ch
unfolding find_best_endpoint find_endpoint has_any_endpoint
best_is_some ch t =
    let es = ch.endpoints in
    rw
      (
        is_some-or_else (find (offers t) es) (
            or_else (find (offers open_ai_chat) es)
              (or_else (find (offers anthropic) es) (find (λ e. e.enabled) es))),
        is_some-or_else (find (offers open_ai_chat) es)
            (or_else (find (offers anthropic) es) (find (λ e. e.enabled) es)),
        is_some-or_else (find (offers anthropic) es) (find (λ e. e.enabled) es),
        is_some-find (offers t) es,
        is_some-find (offers open_ai_chat) es,
        is_some-find (offers anthropic) es,
        is_some-find (λ e. e.enabled) es,
      )
      (last_some (any (offers t) es) (any (offers open_ai_chat) es) (any (offers anthropic) es)
        (any (λ e. e.enabled) es) (offers_some t es) (offers_some open_ai_chat es)
        (offers_some anthropic es))

best_enabled :
    (ch : ChannelInfo) (t : EndpointType) → Passes (λ e. e.enabled) (find_best_endpoint ch t)
unfolding find_best_endpoint find_endpoint Passes
best_enabled ch t =
    let es = ch.endpoints in
    let on : EndpointConfig → Bool = λ e. e.enabled in
    let rest = or_else (find (offers anthropic) es) (find on es) in
    or_else-Passes on (find (offers t) es) (or_else (find (offers open_ai_chat) es) rest)
      (offers-Passes t es)
      (or_else-Passes on (find (offers open_ai_chat) es) rest (offers-Passes open_ai_chat es) (
        or_else-Passes on (find (offers anthropic) es) (find on es) (offers-Passes anthropic es)
          (λ e h. find-passes on es e h)))

or_else-exact :
    (p : EndpointConfig → Bool) (a b : Option EndpointConfig)
    → is_some a ≡ true
    → Passes p a
    → Passes p (or_else a b)
unfolding Passes
or_else-exact p none b there ha = cc
or_else-exact p (some a) b there ha = ha

best_exact :
    (ch : ChannelInfo) (t : EndpointType)
    → any (offers t) ch.endpoints ≡ true
    → Passes (offers t) (find_best_endpoint ch t)
unfolding find_best_endpoint find_endpoint Passes
best_exact ch t h =
    let es = ch.endpoints in
    or_else-exact (offers t) (find (offers t) es)
      (or_else (find (offers open_ai_chat) es)
        (or_else (find (offers anthropic) es) (find (λ e. e.enabled) es)))
      (is_some-find (offers t) es ∙ h) (λ e k. find-passes (offers t) es e k)

-- An endpoint is chosen exactly when the channel has an enabled one, the chosen one is enabled,
-- and it is of the type asked for whenever an enabled endpoint of that type is there.
pub find_best_endpoint_lem :
    (ch : ChannelInfo) (t : EndpointType)
    → (is_some (find_best_endpoint ch t) ≡ has_any_endpoint ch)
      × ((e : EndpointConfig) → find_best_endpoint ch t ≡ some e → e.enabled ≡ true)
      × (any (offers t) ch.endpoints ≡ true
          → (e : EndpointConfig) → find_best_endpoint ch t ≡ some e
          → offers t e ≡ true)
unfolding Passes
find_best_endpoint_lem ch t = (best_is_some ch t, best_enabled ch t, best_exact ch t)
