-- ===== src/Infra/Cache/Steps.antt =====
-- Every sequence of steps on the cache (cache.rs).
use galaxy_router.Base.{
  ◌≡◌, refl, sym, ap, subst, ◌∙◌, inl, inr, not, ◌&&◌, Option, some, List, [], ◌∷◌, arith, leb,
  if◌then◌else◌, Bool-cases, Option-cases, is_some, length, Text, text_eq, text_eq_iff, Map, insert,
}
use galaxy_router.Base.Assoc.{Assoc, get, put, erase, put-IsUnique, erase-IsUnique, length-erase}
use galaxy_router.Relay.Channel.{ChannelInfo}
use galaxy_router.Relay.Route.{RouteInfo}
use galaxy_router.Infra.Cache.{
  cache_max_size, ProxyCache, new_cache, set_channel, invalidate_channel, invalidate_all_channels,
  evict_route, set_group, invalidate_all_routes, get_compiled_regex,
}
use galaxy_router.Infra.Cache.Consistent.{
  IsBounded, IsKeyOf, IsConsistent, length-put_le, set_step, invalidate_step,
}

pub data Step : Type 0 where
  store_channel : ChannelInfo → Step
  drop_channel : Text → Step
  drop_channels : Step
  store_route : RouteInfo → Step
  drop_routes : Step
  compile_regex : Text → Step

-- The two maps' iterators, and the compiler of expressions.
pub record Libraries (R : Type 0) : Type 0 where
  pub next_channel : Assoc ChannelInfo → Option Text
  pub next_route : Assoc RouteInfo → Option Text
  pub compile : Text → Option R

module _ {R : Type 0} (lib : Libraries R) where
  unfoldable pub step : ProxyCache R → Step → ProxyCache R
  step c (store_channel ch) = set_channel lib.next_channel ch c
  step c (drop_channel id) = invalidate_channel id c
  step c drop_channels = invalidate_all_channels c
  step c (store_route group) = set_group lib.next_route group c
  step c drop_routes = invalidate_all_routes c
  step c (compile_regex pattern) = (get_compiled_regex lib.compile pattern c).0

  unfoldable pub steps : ProxyCache R → List Step → ProxyCache R
  steps c [] = c
  steps c (s ∷ ss) = steps (step c s) ss

evicted_fits :
    (next_key : Assoc RouteInfo → Option Text) (group : RouteInfo) (m : Assoc RouteInfo)
    → IsKeyOf next_key
    → IsBounded m
    → (let routes = if leb cache_max_size (length m) then evict_route (next_key m) m else m in
        IsBounded (put group.name group routes))
unfolding erase
evicted_fits next_key group m law (unique, small) =
    elim (Bool-cases (leb cache_max_size (length m))) [
      | inl full ↦
          let (k, next, there) = law m (ground (arith, full)) in
          let room = length-erase k m there in
          rw (full, next)
            (
              put-IsUnique group.name group (erase k m) (erase-IsUnique k m unique),
              length-put_le group.name group (erase k m) (omega (arith, small, room))
                  (inr (omega (arith, small, room))),
            )
      | inr room ↦ rw room (
        put-IsUnique group.name group m unique,
        length-put_le group.name group m small (inr (ground (arith, room))),
      )
    ]

insert_compiled :
    {R : Type 0} (compile : Text → Option R) (pattern : Text) (re : R) (cached : Map R)
    → compile pattern ≡ some re
    → ((p : Text) (r : R) → cached p ≡ some r → compile p ≡ some r)
    → (p : Text) (r : R) → insert pattern re cached p ≡ some r
    → compile p ≡ some r
insert_compiled compile pattern re cached e h p r = elim (Bool-cases (text_eq pattern p)) [
  | inl same ↦ rw same (λ k. ap compile (sym ((text_eq_iff pattern p).0 same)) ∙ e ∙ k)
  | inr other ↦ rw other (λ k. h p r k)
]

-- What `get_compiled_regex` gives is what the compiler gives, from the cache or not.
pub regex_step :
    {R : Type 0} (compile : Text → Option R) (pattern : Text) (c : ProxyCache R)
    → IsConsistent compile c
    → IsConsistent compile (get_compiled_regex compile pattern c).0
      × ((get_compiled_regex compile pattern c).1 ≡ compile pattern)
unfolding get_compiled_regex
regex_step compile pattern c h = elim (Option-cases (c.compiled_regex pattern)) [
  | inr (re, e) ↦ rw e (h, sym (h.compiled pattern re e))
  | inl e ↦ elim (Option-cases (compile pattern)) [
    | inl k ↦ rw (e, k) (h, refl)
    | inr (re, k) ↦
        rw (e, k)
          (
            record {
              channels_bounded = h.channels_bounded;
              routes_bounded = h.routes_bounded;
              indexed = h.indexed;
              compiled = insert_compiled compile pattern re c.compiled_regex k h.compiled;
            },
            refl,
          )
  ]
]

new_cache-IsConsistent : {R : Type 0} (compile : Text → Option R) → IsConsistent compile new_cache
unfolding new_cache get
new_cache-IsConsistent compile = record {
  channels_bounded = (tt, omega arith);
  routes_bounded = (tt, omega arith);
  indexed = λ id model. refl;
  compiled = λ p re h. cc;
}

-- A channel that is stored leaves the routes and the expressions alone.
pub set_channel_frame :
    {R : Type 0} (next_key : Assoc ChannelInfo → Option Text) (ch : ChannelInfo) (c : ProxyCache R)
    → ((set_channel next_key ch c).routes ≡ c.routes)
      × ((set_channel next_key ch c).compiled_regex ≡ c.compiled_regex)
unfolding set_channel
set_channel_frame next_key ch c =
    elim (Bool-cases
      (leb cache_max_size (length c.channels) && not (is_some (get ch.id c.channels)))) [
        | inl full ↦ elim (Option-cases (next_key c.channels)) [
          | inl e ↦ rw (full, e) (refl, refl)
          | inr (k, e) ↦ rw (full, e) (refl, refl)
        ]
        | inr room ↦ rw room (refl, refl)
      ]

pub step-IsConsistent :
    {R : Type 0} (lib : Libraries R) (c : ProxyCache R) (s : Step)
    → IsKeyOf lib.next_channel
    → IsKeyOf lib.next_route
    → IsConsistent lib.compile c
    → IsConsistent lib.compile (step lib c s)
unfolding step invalidate_channel invalidate_all_channels set_group invalidate_all_routes get
step-IsConsistent lib c (store_channel ch) nc nr h =
    let next = set_step lib.next_channel ch c nc h.channels_bounded h.indexed in
    let (routes, regex) = set_channel_frame lib.next_channel ch c in
    record {
      channels_bounded = next.0;
      routes_bounded = subst IsBounded (sym routes) h.routes_bounded;
      indexed = next.1;
      compiled =
          subst (λ m. (p : Text) (re : _) → m p ≡ some re → lib.compile p ≡ some re) (sym regex)
            h.compiled;
    }
step-IsConsistent lib c (drop_channel id) nc nr h =
    let next = invalidate_step id c h.channels_bounded h.indexed in
    record {
      channels_bounded = next.0;
      routes_bounded = h.routes_bounded;
      indexed = next.1;
      compiled = h.compiled;
    }
step-IsConsistent lib c drop_channels nc nr h = record {
  channels_bounded = (tt, omega arith);
  routes_bounded = h.routes_bounded;
  indexed = λ id model. refl;
  compiled = h.compiled;
}
step-IsConsistent lib c (store_route group) nc nr h = record {
  channels_bounded = h.channels_bounded;
  routes_bounded = evicted_fits lib.next_route group c.routes nr h.routes_bounded;
  indexed = h.indexed;
  compiled = h.compiled;
}
step-IsConsistent lib c drop_routes nc nr h = record {
  channels_bounded = h.channels_bounded;
  routes_bounded = (tt, omega arith);
  indexed = h.indexed;
  compiled = h.compiled;
}
step-IsConsistent lib c (compile_regex pattern) nc nr h = (regex_step lib.compile pattern c h).0

steps_from :
    {R : Type 0} (lib : Libraries R) (c : ProxyCache R) (ss : List Step)
    → IsKeyOf lib.next_channel
    → IsKeyOf lib.next_route
    → IsConsistent lib.compile c
    → IsConsistent lib.compile (steps lib c ss)
unfolding steps
steps_from lib c [] nc nr h = h
steps_from lib c (s ∷ ss) nc nr h =
    steps_from lib (step lib c s) ss nc nr (step-IsConsistent lib c s nc nr h)

-- After any sequence of calls on a new cache, if keys().next() of a map with entries gives one of
-- its keys, both maps have one entry for a key and at most 1,000 entries, the index lists a
-- channel under a model as often as the cached channel has that model, and every cached
-- expression is the one that compiling its pattern gives.
pub steps-IsConsistent :
    {R : Type 0} (lib : Libraries R) (ss : List Step)
    → IsKeyOf lib.next_channel
    → IsKeyOf lib.next_route
    → IsConsistent lib.compile (steps lib new_cache ss)
steps-IsConsistent lib ss nc nr =
    steps_from lib new_cache ss nc nr (new_cache-IsConsistent lib.compile)

pub get_compiled_regex-compile :
    {R : Type 0} (lib : Libraries R) (ss : List Step) (pattern : Text)
    → IsKeyOf lib.next_channel
    → IsKeyOf lib.next_route
    → (get_compiled_regex lib.compile pattern (steps lib new_cache ss)).1 ≡ lib.compile pattern
get_compiled_regex-compile lib ss pattern nc nr =
    (regex_step lib.compile pattern (steps lib new_cache ss) (steps-IsConsistent lib ss nc nr)).1
