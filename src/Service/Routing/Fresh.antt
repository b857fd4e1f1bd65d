-- ===== src/Service/Routing/Fresh.antt =====
-- The cached lookups against the queries that they stand for (service/routing/mod.rs).
use galaxy_router.Base.{
  ◌≡◌, refl, sym, ap, ◌∙◌, ◌⊎◌, inl, inr, Bool, false, not, ◌&&◌, Option, none, some, List, [], ◌∷◌,
  arith, leb, if◌then◌else◌, Bool-cases, Option-cases, get_or, is_some, length, Text, text_eq,
  text_eq_iff,
}
use galaxy_router.Base.Assoc.{Assoc, get, put, erase, IsUnique, get-put, get-erase}
use galaxy_router.Errors.{ProxyError, database_error}
use galaxy_router.Relay.Channel.{ChannelInfo}
use galaxy_router.Relay.Route.{RouteItemInfo, RouteInfo}
use galaxy_router.Infra.Cache.{
  cache_max_size, ProxyCache, set_channel, get_channel, set_group, get_group, get_compiled_regex,
}
use galaxy_router.Infra.Cache.Consistent.{IsKeyOf, IsConsistent}
use galaxy_router.Infra.Cache.Steps.{
  Libraries, regex_step, set_channel_frame, step, store_channel, store_route, step-IsConsistent,
}
use galaxy_router.Service.Routing.{
  Result, ok, err, Repositories, with_items, query_name, route_or, find_route_by_name, matches,
  try_pattern, match_routes, match_listed, find_route_by_regex, query_channel, channel_or,
  load_channel,
}
use galaxy_router.Service.Routing as Routing

module _ {R : Type 0} (repo : Repositories R) where
  abbrev pub libraries : Libraries R
  libraries = record {
    next_channel = repo.next_channel;
    next_route = repo.next_route;
    compile = repo.compile;
  }

  -- The maps' iterators give keys, and the queries give what they were asked for.
  pub record AreSound : Type 0 where
    pub next_channel : IsKeyOf repo.next_channel
    pub next_route : IsKeyOf repo.next_route
    pub route_named :
        (name id name' : Text)
        → repo.find_enabled_by_name name ≡ ok (some (id, name'))
        → name' ≡ name
    pub channel_named :
        (id : Text) (ch : ChannelInfo) → repo.get_enabled_for_proxy id ≡ ok (some ch) → ch.id ≡ id

  -- What is cached is what the queries would give.
  pub record IsFresh (c : ProxyCache R) : Type 0 where
    pub consistent : IsConsistent repo.compile c
    pub fresh_routes :
        (name : Text) (group : RouteInfo)
        → get name c.routes ≡ some group
        → query_name repo (repo.find_enabled_by_name name) ≡ ok (some group)
    pub fresh_channels :
        (id : Text) (ch : ChannelInfo)
        → get id c.channels ≡ some ch
        → query_channel (repo.get_enabled_for_proxy id) ≡ ok ch

  unfoldable pub pattern_matches : Option Text → Text → Bool
  pattern_matches none model = false
  pattern_matches (some pattern) model = matches repo (repo.compile pattern) model

  -- The first route of the list whose expression matches, without the cache.
  unfoldable pub first_match :
      List (Text × Text × Option Text) → Text → Result (Option RouteInfo) ProxyError
  first_match [] model = ok none
  first_match ((id, name, match_regex) ∷ routes) model =
      let later = first_match routes model in
      if pattern_matches match_regex model
      then with_items id name (repo.list_route_items_for_proxy id)
      else later

  unfoldable pub query_regex :
      Result (List (Text × Text × Option Text)) Text → Text → Result (Option RouteInfo) ProxyError
  query_regex (err e) model = err (database_error e)
  query_regex (ok routes) model = first_match routes model

get_after_erase :
    {V : Type 0} (k j : Text) (v : V) (m : Assoc V)
    → IsUnique m
    → get j (erase k m) ≡ some v
    → get j m ≡ some v
get_after_erase k j v m unique h = elim (Bool-cases (text_eq k j)) [
  | inl e ↦ ground (arith, e, h, get-erase k j m unique)
  | inr e ↦ ground (arith, e, h, get-erase k j m unique)
]

-- What a map holds after a value was put in, maybe in the place of another.
get_after_put :
    {V : Type 0} (k j : Text) (v w : V) (m m' : Assoc V)
    → ((u : V) → get j m' ≡ some u → get j m ≡ some u)
    → get j (put k v m') ≡ some w
    → ((k ≡ j) × (v ≡ w)) ⊎ (get j m ≡ some w)
get_after_put k j v w m m' grows h = elim (Bool-cases (text_eq k j)) [
  | inl e ↦
      let put_there : get j (put k v m') ≡ some v = get-put k j v m' ∙ rw e refl in
      inl ((text_eq_iff k j).0 e, ap (get_or v) (sym put_there ∙ h))
  | inr e ↦ inr (grows w (ground (arith, e, h, get-put k j v m')))
]

set_group-get :
    {R : Type 0} (next_key : Assoc RouteInfo → Option Text) (group group' : RouteInfo)
    (c : ProxyCache R) (j : Text)
    → IsUnique c.routes
    → get j (set_group next_key group c).routes ≡ some group'
    → ((group.name ≡ j) × (group ≡ group')) ⊎ (get j c.routes ≡ some group')
unfolding set_group
set_group-get next_key group group' c j unique =
    elim (Bool-cases (leb cache_max_size (length c.routes))) [
      | inl full ↦ elim (Option-cases (next_key c.routes)) [
        | inl e ↦
            rw (full, e) (get_after_put group.name j group group' c.routes c.routes (λ u k. k))
        | inr (key, e) ↦
            rw (full, e)
              (get_after_put group.name j group group' c.routes (erase key c.routes)
                (λ u k. get_after_erase key j u c.routes unique k))
      ]
      | inr room ↦ rw room (get_after_put group.name j group group' c.routes c.routes (λ u k. k))
    ]

set_channel-get :
    {R : Type 0} (next_key : Assoc ChannelInfo → Option Text) (ch ch' : ChannelInfo)
    (c : ProxyCache R) (j : Text)
    → IsUnique c.channels
    → get j (set_channel next_key ch c).channels ≡ some ch'
    → ((ch.id ≡ j) × (ch ≡ ch')) ⊎ (get j c.channels ≡ some ch')
unfolding set_channel
set_channel-get next_key ch ch' c j unique =
    elim (Bool-cases
      (leb cache_max_size (length c.channels) && not (is_some (get ch.id c.channels)))) [
        | inl full ↦ elim (Option-cases (next_key c.channels)) [
          | inl e ↦ rw (full, e) (get_after_put ch.id j ch ch' c.channels c.channels (λ u k. k))
          | inr (key, e) ↦
              rw (full, e)
                (get_after_put ch.id j ch ch' c.channels (erase key c.channels)
                  (λ u k. get_after_erase key j u c.channels unique k))
        ]
        | inr room ↦ rw room (get_after_put ch.id j ch ch' c.channels c.channels (λ u k. k))
      ]

-- A query for a route by its name gives one of that name.
with_items_named :
    (name id name' : Text) (items : Result (List RouteItemInfo) Text) (group : RouteInfo)
    → name' ≡ name
    → with_items id name' items ≡ ok (some group)
    → group.name ≡ name
with_items_named name id name' (err e) group same h = cc
with_items_named name id name' (ok items) group same h = sym (ap (λ r. name_of r) h) ∙ same
  where
    name_of : Result (Option RouteInfo) ProxyError → Text
    name_of (ok (some g)) = g.name
    name_of _ = []

regex_frame :
    {R : Type 0} (compile : Text → Option R) (pattern : Text) (c : ProxyCache R)
    → ((get_compiled_regex compile pattern c).0.channels ≡ c.channels)
      × ((get_compiled_regex compile pattern c).0.routes ≡ c.routes)
unfolding get_compiled_regex
regex_frame compile pattern c = elim (Option-cases (c.compiled_regex pattern)) [
  | inr (re, e) ↦ rw e (refl, refl)
  | inl e ↦ elim (Option-cases (compile pattern)) [
    | inl k ↦ rw (e, k) (refl, refl)
    | inr (re, k) ↦ rw (e, k) (refl, refl)
  ]
]

module _ {R : Type 0} (repo : Repositories R) (sound : AreSound repo) where
  query_named :
      (name : Text) (r : Result (Option (Text × Text)) Text) (group : RouteInfo)
      → ((id name' : Text) → r ≡ ok (some (id, name')) → name' ≡ name)
      → query_name repo r ≡ ok (some group)
      → group.name ≡ name
  query_named name (err e) group named h = cc
  query_named name (ok none) group named h = cc
  query_named name (ok (some (id, name'))) group named h =
      with_items_named name id name' (repo.list_route_items_for_proxy id) group
        (named id name' refl) h

  stored_route :
      (c : ProxyCache R) (group : RouteInfo)
      → IsFresh repo c
      → query_name repo (repo.find_enabled_by_name group.name) ≡ ok (some group)
      → IsFresh repo (set_group repo.next_route group c)
  unfolding step set_group
  stored_route c group h queried = record {
    consistent =
        step-IsConsistent (libraries repo) c (store_route group) sound.next_channel sound.next_route
          h.consistent;
    fresh_routes = λ j group' e.
        elim (set_group-get repo.next_route group group' c j h.consistent.routes_bounded.0 e) [
          | inl (same, same') ↦
              ap (λ n. query_name repo (repo.find_enabled_by_name n)) (sym same)
              ∙ queried
              ∙ ap (λ g. ok (some g)) same'
          | inr there ↦ h.fresh_routes j group' there
        ];
    fresh_channels = h.fresh_channels;
  }

  stored_channel :
      (c : ProxyCache R) (ch : ChannelInfo)
      → IsFresh repo c
      → query_channel (repo.get_enabled_for_proxy ch.id) ≡ ok ch
      → IsFresh repo (set_channel repo.next_channel ch c)
  unfolding step
  stored_channel c ch h queried =
      let (routes, regex) = set_channel_frame repo.next_channel ch c in
      record {
        consistent =
            step-IsConsistent (libraries repo) c (store_channel ch) sound.next_channel
              sound.next_route h.consistent;
        fresh_routes = λ j group' e. h.fresh_routes j group' (ap (get j) (sym routes) ∙ e);
        fresh_channels = λ j ch' e.
            elim (set_channel-get repo.next_channel ch ch' c j h.consistent.channels_bounded.0 e) [
              | inl (same, same') ↦
                  ap (λ n. query_channel (repo.get_enabled_for_proxy n)) (sym same)
                  ∙ queried
                  ∙ ap ok same'
              | inr there ↦ h.fresh_channels j ch' there
            ];
      }

  compiled_pattern :
      (c : ProxyCache R) (pattern : Text)
      → IsFresh repo c
      → IsFresh repo (get_compiled_regex repo.compile pattern c).0
  compiled_pattern c pattern h =
      let (channels, routes) = regex_frame repo.compile pattern c in
      record {
        consistent = (regex_step repo.compile pattern c h.consistent).0;
        fresh_routes = λ j group e. h.fresh_routes j group (ap (get j) (sym routes) ∙ e);
        fresh_channels = λ j ch e. h.fresh_channels j ch (ap (get j) (sym channels) ∙ e);
      }

  match_routes-IsFresh :
      (routes : List (Text × Text × Option Text)) (c : ProxyCache R) (model : Text)
      → IsFresh repo c
      → ((match_routes repo routes c model).1 ≡ first_match repo routes model)
        × IsFresh repo (match_routes repo routes c model).0
  unfolding match_routes first_match pattern_matches
  match_routes-IsFresh [] c model h = (refl, h)
  match_routes-IsFresh ((id, name, none) ∷ routes) c model h = match_routes-IsFresh routes c model h
  match_routes-IsFresh ((id, name, some pattern) ∷ routes) c model h =
      let compiled = get_compiled_regex repo.compile pattern c in
      let same : matches repo compiled.1 model ≡ matches repo (repo.compile pattern) model =
        ap (λ o. matches repo o model) (regex_step repo.compile pattern c h.consistent).1 in
      let fresh : IsFresh repo compiled.0 = compiled_pattern c pattern h in
      elim (Bool-cases (matches repo (repo.compile pattern) model)) [
        | inl e ↦ rw (same, e) (refl, fresh)
        | inr e ↦ rw (same, e) (match_routes-IsFresh routes compiled.0 model fresh)
      ]

  find_route_by_regex-IsFresh :
      (c : ProxyCache R) (model : Text)
      → IsFresh repo c
      → ((find_route_by_regex repo c model).1 ≡ query_regex repo repo.list_enabled_with_regex model)
        × IsFresh repo (find_route_by_regex repo c model).0
  unfolding find_route_by_regex query_regex
  find_route_by_regex-IsFresh c model h = listed repo.list_enabled_with_regex
    where
      listed :
          (r : Result (List (Text × Text × Option Text)) Text)
          → ((match_listed repo r c model).1 ≡ query_regex repo r model)
            × IsFresh repo (match_listed repo r c model).0
      listed (err e) = (refl, h)
      listed (ok routes) = match_routes-IsFresh routes c model h

  -- By the name of a route.
  by_name :
      (c : ProxyCache R) (name : Text) (r : Result (Option RouteInfo) ProxyError)
      → IsFresh repo c
      → query_name repo (repo.find_enabled_by_name name) ≡ r
      → ((Routing.store_route repo c r).1 ≡ r) × IsFresh repo (Routing.store_route repo c r).0
  by_name c name (err e) h q = (refl, h)
  by_name c name (ok none) h q = (refl, h)
  by_name c name (ok (some group)) h q =
      let named : group.name ≡ name =
        query_named name (repo.find_enabled_by_name name) group
          (λ id name' e. sound.route_named name id name' e) q in
      (
        refl,
        stored_route c group h (ap (λ n. query_name repo (repo.find_enabled_by_name n)) named ∙ q),
      )

  find_route_by_name-IsFresh :
      (c : ProxyCache R) (name : Text)
      → IsFresh repo c
      → ((find_route_by_name repo c name).1 ≡ query_name repo (repo.find_enabled_by_name name))
        × IsFresh repo (find_route_by_name repo c name).0
  unfolding find_route_by_name get_group
  find_route_by_name-IsFresh c name h = elim (Option-cases (get name c.routes)) [
    | inl e ↦ rw e (by_name c name (query_name repo (repo.find_enabled_by_name name)) h refl)
    | inr (group, e) ↦ rw e (sym (h.fresh_routes name group e), h)
  ]

  queried_id :
      (id : Text) (r : Result (Option ChannelInfo) Text) (ch : ChannelInfo)
      → ((ch' : ChannelInfo) → r ≡ ok (some ch') → ch'.id ≡ id)
      → query_channel r ≡ ok ch
      → ch.id ≡ id
  queried_id id (err e) ch named h = cc
  queried_id id (ok none) ch named h = cc
  queried_id id (ok (some ch')) ch named h = ap (λ r. id_of r) (sym h) ∙ named ch' refl
    where
      id_of : Result ChannelInfo ProxyError → Text
      id_of (ok g) = g.id
      id_of (err e) = []

  by_id :
      (c : ProxyCache R) (id : Text) (r : Result ChannelInfo ProxyError)
      → IsFresh repo c
      → query_channel (repo.get_enabled_for_proxy id) ≡ r
      → ((Routing.store_channel repo c r).1 ≡ r) × IsFresh repo (Routing.store_channel repo c r).0
  by_id c id (err e) h q = (refl, h)
  by_id c id (ok ch) h q =
      let same : ch.id ≡ id =
        queried_id id (repo.get_enabled_for_proxy id) ch (λ ch' e. sound.channel_named id ch' e)
          q in
      (
        refl,
        stored_channel c ch h (ap (λ n. query_channel (repo.get_enabled_for_proxy n)) same ∙ q),
      )

  load_channel-IsFresh :
      (c : ProxyCache R) (id : Text)
      → IsFresh repo c
      → ((load_channel repo c id).1 ≡ query_channel (repo.get_enabled_for_proxy id))
        × IsFresh repo (load_channel repo c id).0
  unfolding load_channel get_channel
  load_channel-IsFresh c id h = elim (Option-cases (get id c.channels)) [
    | inl e ↦ rw e (by_id c id (query_channel (repo.get_enabled_for_proxy id)) h refl)
    | inr (ch, e) ↦ rw e (sym (h.fresh_channels id ch e), h)
  ]

  -- If queries by name and by id give what they were asked for, keys().next() gives a key, and
  -- the cache holds only what the queries give now, then the three lookups with the cache answer
  -- as the queries do without it, the regular expressions included, and leave a cache of which
  -- the same holds.
  pub cached_lookups :
      (c : ProxyCache R) (key : Text)
      → IsFresh repo c
      → ((find_route_by_name repo c key).1 ≡ query_name repo (repo.find_enabled_by_name key))
        × ((find_route_by_regex repo c key).1 ≡ query_regex repo repo.list_enabled_with_regex key)
        × ((load_channel repo c key).1 ≡ query_channel (repo.get_enabled_for_proxy key))
        × IsFresh repo (find_route_by_name repo c key).0
        × IsFresh repo (find_route_by_regex repo c key).0
        × IsFresh repo (load_channel repo c key).0
  cached_lookups c key h =
      let named = find_route_by_name-IsFresh c key h in
      let matched = find_route_by_regex-IsFresh c key h in
      let loaded = load_channel-IsFresh c key h in
      (named.0, matched.0, loaded.0, named.1, matched.1, loaded.1)
