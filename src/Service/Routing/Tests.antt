-- ===== src/Service/Routing/Tests.antt =====
-- A database with a named route, a route by expression and one channel (service/routing/mod.rs).
use galaxy_router.Base.{
  ◌≡◌, refl, sym, ap, ◌∙◌, inl, inr, Option, none, some, [], ◌∷◌, arith, if◌then◌else◌, Bool-cases,
  Text, text, text_eq, text_eq_iff, text_eq_self, starts_with,
}
use galaxy_router.Base.Int.{pos}
use galaxy_router.Base.Assoc.{Assoc, get}
use galaxy_router.Relay.Channel.{ChannelInfo}
use galaxy_router.Errors.{channel_not_found}
use galaxy_router.Infra.Cache.{new_cache}
use galaxy_router.Infra.Cache.Consistent.{IsKeyOf}
use galaxy_router.Infra.Cache.Steps.{steps, steps-IsConsistent}
use galaxy_router.Service.Routing.{
  Result, ok, err, Repositories, find_route_by_name, find_route_by_regex, load_channel,
}
use galaxy_router.Service.Routing.Fresh.{
  first_match, pattern_matches, libraries, AreSound, IsFresh, query_regex, cached_lookups,
}

abbrev channel : ChannelInfo
channel = record {
  id = text "ch-a";
  name = text "a";
  api_keys = [];
  endpoints = [];
  models = text "m" ∷ [];
  timeout_secs = 300;
  max_concurrency = 0;
  failure_threshold = 3;
  blacklist_minutes = pos 10;
}

abbrev first_key : {V : Type 0} → Assoc V → Option Text
first_key [] = none
first_key ((k, v) ∷ m) = some k

first_key-IsKeyOf : {V : Type 0} → IsKeyOf (first_key {V = V})
unfolding get
first_key-IsKeyOf [] h = absurd (omega arith)
first_key-IsKeyOf ((k, v) ∷ m) h = (k, refl, rw (text_eq_self k) refl)

-- One expression, that matches what starts with it.
abbrev repo : Repositories Text
repo = record {
  find_enabled_by_name = λ s. if text_eq (text "m") s then ok (some (text "r1", s)) else ok none;
  list_enabled_with_regex = ok ((text "r2", text "gpt", some (text "gpt-")) ∷ []);
  list_route_items_for_proxy = λ id. ok [];
  get_enabled_for_proxy = λ id. if text_eq (text "ch-a") id then ok (some channel) else ok none;
  next_channel = first_key;
  next_route = first_key;
  compile = λ s. some s;
  is_match = λ re s. starts_with s re;
}

name_in : Result (Option (Text × Text)) Text → Text
name_in (ok (some (id, name))) = name
name_in _ = []

id_in : Result (Option ChannelInfo) Text → Text
id_in (ok (some ch)) = ch.id
id_in _ = []

repo-AreSound : AreSound repo
unfolding name_in id_in
repo-AreSound = record {
  next_channel = first_key-IsKeyOf;
  next_route = first_key-IsKeyOf;
  route_named = λ name id name'. elim (Bool-cases (text_eq (text "m") name)) [
    | inl e ↦ rw e (λ h. sym (ap name_in h))
    | inr e ↦ rw e (λ h. cc)
  ];
  channel_named = λ id ch. elim (Bool-cases (text_eq (text "ch-a") id)) [
    | inl e ↦ rw e (λ h. sym (ap id_in h) ∙ (text_eq_iff (text "ch-a") id).0 e)
    | inr e ↦ rw e (λ h. cc)
  ];
}

empty-IsFresh : IsFresh repo new_cache
unfolding steps new_cache get
empty-IsFresh = record {
  consistent = steps-IsConsistent (libraries repo) [] first_key-IsKeyOf first_key-IsKeyOf;
  fresh_routes = λ name group e. cc;
  fresh_channels = λ id ch e. cc;
}

-- The name gives the route of that name, the expression one of another name.
cached_lookups_example :
    ((find_route_by_name repo new_cache (text "gpt-4")).1 ≡ ok none)
    × ((find_route_by_regex repo new_cache (text "gpt-4")).1
        ≡ ok (some (record { id = text "r2"; name = text "gpt"; items = [] })))
    × ((load_channel repo new_cache (text "gpt-4")).1 ≡ err (channel_not_found (text "渠道不存在或已禁用")))
    × IsFresh repo (find_route_by_name repo new_cache (text "gpt-4")).0
    × IsFresh repo (find_route_by_regex repo new_cache (text "gpt-4")).0
    × IsFresh repo (load_channel repo new_cache (text "gpt-4")).0
unfolding query_regex first_match pattern_matches text_eq starts_with
cached_lookups_example = cached_lookups repo repo-AreSound new_cache (text "gpt-4") empty-IsFresh
