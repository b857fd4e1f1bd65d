-- ===== src/Infra/Cache.antt =====
-- src/infra/cache.rs: the cache of channels and routes, with an index from models to channels. A
-- method holds the lock of its map to the end, so that it is one step. Which key `keys().next()`
-- gives and what the library of regular expressions compiles are parameters.
pub mod Index
pub mod Consistent
pub mod Steps
mod Tests
use galaxy_router.Base.{
  ℕ, zero, suc, ◌+◌, ◌-◌, ◌*◌, ◌/◌, ◌%◌, ◌^◌, ◌≤◌, ◌<◌, min, max, ◌≡◌, refl, sym, ap, subst, ◌∙◌,
  fun_ext, ◌≢◌, ◌↔◌, ◌⊎◌, inl, inr, Bool, true, false, not, ◌&&◌, ◌||◌, Option, none, some, List,
  [], ◌∷◌, ◌++◌, map, arith, ltb, leb, ◌==◌, if◌then◌else◌, ltb→lt, lt→ltb, leb→le, le→leb, lt→leb,
  ==_iff, tests, Bool-cases, Option-cases, get_or, is_some, length, get_elem?, take, replicate,
  filter, find, any, count, All, length-append, length-replicate, count-append, length-filter-le,
  All-append, find-passes, any-find, Text, text, text_eq, text_eq_iff, text_eq_self, text_ne,
  starts_with, contains, to_ascii_lowercase, starts_with-append, Map, keep_if, map_some, new_map,
  insert, alter, retain,
}
use galaxy_router.Base.Assoc.{Assoc, get, put, erase}
use galaxy_router.Relay.Channel.{ChannelInfo}
use galaxy_router.Relay.Route.{RouteInfo}

abbrev pub cache_max_size : ℕ
cache_max_size = 1000

pub record ProxyCache (R : Type 0) : Type 0 where
  pub channels : Assoc ChannelInfo
  pub routes : Assoc RouteInfo
  pub model_index : Map (List Text)
  pub compiled_regex : Map R

-- `retain(|id| id != channel_id)` in the list of each model that is indexed.
unfoldable pub remove_id : Text → List Text → Map (List Text) → Map (List Text)
remove_id id [] idx = idx
remove_id id (model ∷ models) idx =
    remove_id id models (alter model (λ ids. filter (λ j. not (text_eq j id)) ids) idx)

-- `entry(model).or_default().push(id)` for each model.
unfoldable pub push_id : Text → List Text → Map (List Text) → Map (List Text)
push_id id [] idx = idx
push_id id (model ∷ models) idx =
    push_id id models (insert model (get_or [] (idx model) ++ id ∷ []) idx)

-- The models of a channel that may be cached.
abbrev pub models_of : Option ChannelInfo → List Text
models_of none = []
models_of (some ch) = ch.models

-- `if let Some(ch) = cache.get(id)` and its models are taken out of the index.
abbrev pub unindex : Text → Option ChannelInfo → Map (List Text) → Map (List Text)
unindex id none idx = idx
unindex id (some ch) idx = remove_id id ch.models idx

abbrev pub evict_route : Option Text → Assoc RouteInfo → Assoc RouteInfo
evict_route none routes = routes
evict_route (some oldest_key) routes = erase oldest_key routes

module _ {R : Type 0} where
  unfoldable pub new_cache : ProxyCache R
  new_cache = record { channels = []; routes = []; model_index = new_map; compiled_regex = new_map }

  abbrev pub evict_channel : Option Text → ProxyCache R → ProxyCache R
  evict_channel none c = c
  evict_channel (some oldest_key) c = record c {
    channels = erase oldest_key c.channels;
    model_index = unindex oldest_key (get oldest_key c.channels) c.model_index;
  }

  -- `set_channel`: the old entry leaves the index, a full cache gives up one entry, the new one
  -- enters.
  unfoldable pub set_channel :
      (Assoc ChannelInfo → Option Text) → ChannelInfo → ProxyCache R → ProxyCache R
  set_channel next_key ch c =
      let unindexed : ProxyCache R = record c {
        model_index = unindex ch.id (get ch.id c.channels) c.model_index;
      } in
      let evicted = evict_channel (next_key c.channels) unindexed in
      let c' =
        if leb cache_max_size (length c.channels) && not (is_some (get ch.id c.channels))
        then evicted
        else unindexed in
      record c' {
        channels = put ch.id ch c'.channels;
        model_index = push_id ch.id ch.models c'.model_index;
      }

  unfoldable pub get_channel : Text → ProxyCache R → Option ChannelInfo
  get_channel id c = get id c.channels

  unfoldable pub invalidate_channel : Text → ProxyCache R → ProxyCache R
  invalidate_channel id c = record c {
    channels = erase id c.channels;
    model_index = unindex id (get id c.channels) c.model_index;
  }

  unfoldable pub invalidate_all_channels : ProxyCache R → ProxyCache R
  invalidate_all_channels c = record c { channels = []; model_index = new_map }

  unfoldable pub get_group : Text → ProxyCache R → Option RouteInfo
  get_group name c = get name c.routes

  unfoldable pub set_group :
      (Assoc RouteInfo → Option Text) → RouteInfo → ProxyCache R → ProxyCache R
  set_group next_key group c =
      let evicted = evict_route (next_key c.routes) c.routes in
      let routes = if leb cache_max_size (length c.routes) then evicted else c.routes in
      record c { routes = put group.name group routes }

  unfoldable pub invalidate_all_routes : ProxyCache R → ProxyCache R
  invalidate_all_routes c = record c { routes = [] }

  unfoldable pub find_channels_by_model : Text → ProxyCache R → List Text
  find_channels_by_model model c = get_or [] (c.model_index model)

  abbrev pub keep_regex : Text → Option R → ProxyCache R → ProxyCache R × Option R
  keep_regex pattern none c = (c, none)
  keep_regex pattern (some re) c =
      (record c { compiled_regex = insert pattern re c.compiled_regex }, some re)

  abbrev pub cached_regex :
      Option R → ProxyCache R × Option R → ProxyCache R → ProxyCache R × Option R
  cached_regex none compiled c = compiled
  cached_regex (some re) compiled c = (c, some re)

  -- `get_compiled_regex`, with `Regex::new`.
  unfoldable pub get_compiled_regex :
      (Text → Option R) → Text → ProxyCache R → ProxyCache R × Option R
  get_compiled_regex compile pattern c =
      cached_regex (c.compiled_regex pattern) (keep_regex pattern (compile pattern) c) c
