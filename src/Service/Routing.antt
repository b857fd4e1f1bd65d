-- ===== src/Service/Routing.antt =====
-- src/service/routing/mod.rs: routes and channels are looked up in the cache, then in the database.
-- The queries of the repositories are an interface, and a query has one answer while a lookup runs.
pub mod Fresh
mod Tests
use galaxy_router.Base.{
  ℕ, zero, suc, ◌+◌, ◌-◌, ◌*◌, ◌/◌, ◌%◌, ◌^◌, ◌≤◌, ◌<◌, min, max, ◌≡◌, refl, sym, ap, subst, ◌∙◌,
  fun_ext, ◌≢◌, ◌↔◌, ◌⊎◌, inl, inr, Bool, true, false, not, ◌&&◌, ◌||◌, Option, none, some, List,
  [], ◌∷◌, ◌++◌, map, arith, ltb, leb, ◌==◌, if◌then◌else◌, ltb→lt, lt→ltb, leb→le, le→leb, lt→leb,
  ==_iff, tests, Bool-cases, Option-cases, get_or, is_some, length, get_elem?, take, replicate,
  filter, find, any, count, All, length-append, length-replicate, count-append, length-filter-le,
  All-append, find-passes, any-find, Text, text, text_eq, text_eq_iff, text_eq_self, text_ne,
  starts_with, contains, to_ascii_lowercase, starts_with-append, Map, keep_if, map_some, new_map,
  insert, alter, retain,
}
use galaxy_router.Errors.{ProxyError, database_error, channel_not_found}
use galaxy_router.Relay.Channel.{ChannelInfo}
use galaxy_router.Relay.Route.{RouteItemInfo, RouteInfo}
use galaxy_router.Base.Assoc.{Assoc}
use galaxy_router.Infra.Cache.{
  ProxyCache, set_channel, get_channel, set_group, get_group, get_compiled_regex,
}

pub data Result (A E : Type 0) : Type 0 where
  ok : A → Result A E
  err : E → Result A E

-- The traits RouteRepository and ChannelRepository, and the library of expressions; an error of the
-- database is its text.
pub record Repositories (R : Type 0) : Type 0 where
  pub find_enabled_by_name : Text → Result (Option (Text × Text)) Text
  pub list_enabled_with_regex : Result (List (Text × Text × Option Text)) Text
  pub list_route_items_for_proxy : Text → Result (List RouteItemInfo) Text
  pub get_enabled_for_proxy : Text → Result (Option ChannelInfo) Text
  pub next_channel : Assoc ChannelInfo → Option Text
  pub next_route : Assoc RouteInfo → Option Text
  pub compile : Text → Option R
  pub is_match : R → Text → Bool

-- The items of a route that was found.
abbrev pub with_items :
    Text → Text → Result (List RouteItemInfo) Text → Result (Option RouteInfo) ProxyError
with_items id name (err e) = err (database_error e)
with_items id name (ok items) = ok (some (record { id = id; name = name; items = items }))

abbrev pub query_channel : Result (Option ChannelInfo) Text → Result ChannelInfo ProxyError
query_channel (err e) = err (database_error e)
query_channel (ok none) = err (channel_not_found (text "渠道不存在或已禁用"))
query_channel (ok (some channel)) = ok channel

module _ {R : Type 0} (repo : Repositories R) where
  abbrev pub Lookup : Type 0 → Type 0
  Lookup A = ProxyCache R × Result A ProxyError

  abbrev pub query_name : Result (Option (Text × Text)) Text → Result (Option RouteInfo) ProxyError
  query_name (err e) = err (database_error e)
  query_name (ok none) = ok none
  query_name (ok (some (id, route_name))) =
      with_items id route_name (repo.list_route_items_for_proxy id)

  abbrev pub store_route :
      ProxyCache R → Result (Option RouteInfo) ProxyError → Lookup (Option RouteInfo)
  store_route c (ok (some group)) = (set_group repo.next_route group c, ok (some group))
  store_route c (ok none) = (c, ok none)
  store_route c (err e) = (c, err e)

  abbrev pub route_or :
      ProxyCache R
      → Option RouteInfo
      → Result (Option RouteInfo) ProxyError
      → Lookup (Option RouteInfo)
  route_or c none queried = store_route c queried
  route_or c (some group) queried = (c, ok (some group))

  unfoldable pub find_route_by_name : ProxyCache R → Text → Lookup (Option RouteInfo)
  find_route_by_name c name =
      route_or c (get_group name c) (query_name (repo.find_enabled_by_name name))

  abbrev pub matches : Option R → Text → Bool
  matches none model = false
  matches (some re) model = repo.is_match re model

  -- One route of the list, with its expression, if it has one; and the routes after it.
  abbrev pub try_pattern :
      ProxyCache R
      → Option Text
      → (ProxyCache R → Lookup (Option RouteInfo))
      → Text
      → Result (Option RouteInfo) ProxyError
      → Lookup (Option RouteInfo)
  try_pattern c none rest model found = rest c
  try_pattern c (some pattern) rest model found =
      let compiled = get_compiled_regex repo.compile pattern c in
      let on = rest compiled.0 in if matches compiled.1 model then (compiled.0, found) else on

  unfoldable pub match_routes :
      List (Text × Text × Option Text) → ProxyCache R → Text → Lookup (Option RouteInfo)
  match_routes [] c model = (c, ok none)
  match_routes ((id, name, match_regex) ∷ routes) c model =
      try_pattern c match_regex (λ c'. match_routes routes c' model) model
        (with_items id name (repo.list_route_items_for_proxy id))

  abbrev pub match_listed :
      Result (List (Text × Text × Option Text)) Text
      → ProxyCache R
      → Text
      → Lookup (Option RouteInfo)
  match_listed (err e) c model = (c, err (database_error e))
  match_listed (ok routes) c model = match_routes routes c model

  unfoldable pub find_route_by_regex : ProxyCache R → Text → Lookup (Option RouteInfo)
  find_route_by_regex c model = match_listed repo.list_enabled_with_regex c model

  abbrev pub store_channel : ProxyCache R → Result ChannelInfo ProxyError → Lookup ChannelInfo
  store_channel c (ok channel) = (set_channel repo.next_channel channel c, ok channel)
  store_channel c (err e) = (c, err e)

  abbrev pub channel_or :
      ProxyCache R → Option ChannelInfo → Result ChannelInfo ProxyError → Lookup ChannelInfo
  channel_or c none queried = store_channel c queried
  channel_or c (some channel) queried = (c, ok channel)

  -- `RoutingService::get_channel`.
  unfoldable pub load_channel : ProxyCache R → Text → Lookup ChannelInfo
  load_channel c channel_id =
      channel_or c (get_channel channel_id c)
        (query_channel (repo.get_enabled_for_proxy channel_id))
