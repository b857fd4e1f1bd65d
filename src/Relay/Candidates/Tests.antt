-- ===== src/Relay/Candidates/Tests.antt =====
-- A route with a channel in two tiers, and a session that was served by a third one (candidates.rs).
use galaxy_router.Base.{
  ℕ, ◌+◌, ◌-◌, ◌*◌, ◌/◌, ◌^◌, ◌≡◌, refl, true, false, not, ◌||◌, Option, none, some, List, [], ◌∷◌,
  ◌++◌, map, ltb, leb, ◌==◌, if◌then◌else◌, filter, count, Text, text, text_eq, starts_with,
}
use galaxy_router.Base.Int.{ℤ, pos}
use galaxy_router.Base.Float.{Floats, clamp, fmin, fmax}
use galaxy_router.Base.Assoc.{Assoc, get, put, erase, keep}
use galaxy_router.Errors.{ProxyError}
use galaxy_router.Scheduler.Sticky as Sticky
use galaxy_router.Scheduler.LoadBalancer.{LoadBalancerState, set_sticky_session}
use galaxy_router.Scheduler.LoadBalancer as LoadBalancer
use galaxy_router.Scheduler.Circuit as Circuit
use galaxy_router.Scheduler.Capacity.{active_count}
use galaxy_router.Scheduler.Status.{is_available}
use galaxy_router.Scheduler.Runtime.{default_stats, get_stats}
use galaxy_router.Scheduler.Scoring.{
  ScoredCandidate, calculate_candidate_score, clamp01, compare_scored_candidates, compare_text,
  default_weights, insert_by, latency_factor, least_conn_factor, select_top_k_candidates, sort_by,
  OpenOrder, stable_order, is_total_order,
}
use galaxy_router.Relay.Channel.{ChannelInfo, EndpointConfig, open_ai_chat, has_any_endpoint}
use galaxy_router.Relay.Route.{RouteItemInfo}
use galaxy_router.Relay.Run.{RelayCandidate}
use galaxy_router.Infra.Cache.{
  ProxyCache, new_cache, get_channel, get_group, get_compiled_regex, push_id, remove_id,
  set_channel, set_group,
}
use galaxy_router.Service.Routing.{
  Result, ok, err, Repositories, find_route_by_name, find_route_by_regex, match_routes,
  load_channel,
}
use galaxy_router.Relay.Candidates.{
  is_demoted, tier_and_demote, build_relay_candidates, add_candidates, candidate_health,
  ordered_items, push_all, push_tier, route_candidates, runtime_latency, score_candidates,
  score_input, score_tiers, split_group, split_tiers, sticky_candidate, find_route, holds,
  offer_ids,
}
use galaxy_router.Relay.Candidates.Stable.{
  has_priority, IsAscending, items_of, tier_and_demote-IsAscending,
}
use galaxy_router.Relay.Candidates.Offered.{
  in_found, offers_to, count-build_relay_candidates, has_offer, is_ok, is_ok-build_relay_candidates,
}

-- Thousandths, cut at 0, in the place of f64.
abbrev fixed : Floats
fixed = record {
  F = ℕ;
  of_nat = λ n. n * 1000;
  lit = λ n k. n * 1000 / 10 ^ k;
  add = λ a b. a + b;
  sub = λ a b. a - b;
  mul = λ a b. a * b / 1000;
  div = λ a b. a * 1000 / b;
  flt = λ a b. ltb a b;
  fle = λ a b. leb a b;
  feq = λ a b. a == b;
  is_nan = λ a. false;
}

abbrev as_given : OpenOrder (ScoredCandidate ℕ)
as_given = record { arranged = λ xs. xs; keeps = λ p xs. refl }

abbrev endpoint : EndpointConfig
endpoint = record {
  endpoint_type = open_ai_chat;
  base_url = text "https://example.com/v1";
  enabled = true;
  headers = [];
}

abbrev channel : Text → ChannelInfo
channel id = record {
  id = id;
  name = id;
  api_keys = [];
  endpoints = endpoint ∷ [];
  models = [];
  timeout_secs = 300;
  max_concurrency = 4;
  failure_threshold = 3;
  blacklist_minutes = pos 10;
}

abbrev item : Text → Text → ℕ → RouteItemInfo
item channel_id model_name priority = record {
  channel_id = channel_id;
  model_name = model_name;
  priority = pos priority;
  weight = pos 1;
}

abbrev items : List RouteItemInfo
items =
    item (text "b") (text "gpt-4o") 1
    ∷ item (text "b") (text "gpt-4") 0
    ∷ item (text "a") (text "gpt-4") 0
    ∷ []

abbrev first_key : {V : Type 0} → Assoc V → Option Text
first_key [] = none
first_key ((k, v) ∷ m) = some k

abbrev repo : Repositories Text
repo = record {
  find_enabled_by_name = λ s. if text_eq (text "gpt") s then ok (some (text "r1", s)) else ok none;
  list_enabled_with_regex = ok [];
  list_route_items_for_proxy = λ id. ok items;
  get_enabled_for_proxy = λ id. ok (some (channel id));
  next_channel = first_key;
  next_route = first_key;
  compile = λ s. some s;
  is_match = λ re s. starts_with s re;
}

abbrev lb : LoadBalancerState ℕ
lb =
    set_sticky_session (LoadBalancer.new fixed (Sticky.new (pos 3600) 10)) (text "session")
      (text "c") 0

abbrev ids_of : Result (List (RelayCandidate ℕ)) ProxyError → List (Text × Text)
ids_of (ok offers) = map (λ o. (o.channel_id, o.target_model)) offers
ids_of (err e) = []

-- The session's channel, then the route's by their scores; b is offered once, for its first item.
offer_test :
    ids_of
      (build_relay_candidates repo fixed as_given 1000000000 lb 5
        (text "gpt")
        (some (text "session"))
        new_cache).1
    ≡ (text "c", text "gpt") ∷ (text "a", text "gpt-4") ∷ (text "b", text "gpt-4o") ∷ []
unfolding build_relay_candidates find_route find_route_by_name find_route_by_regex match_routes
    get_group get sticky_candidate LoadBalancer.get_sticky_session Sticky.get_session
    set_sticky_session Sticky.set_session LoadBalancer.new Sticky.new put text_eq load_channel
    get_channel new_cache has_any_endpoint erase keep clamp fmax fmin get_compiled_regex push_id
    remove_id set_channel set_group add_candidates candidate_health ordered_items push_all push_tier
    route_candidates runtime_latency score_candidates score_input score_tiers split_group
    split_tiers tier_and_demote active_count Circuit.new LoadBalancer.runtime_stats default_stats
    get_stats calculate_candidate_score clamp01 compare_scored_candidates compare_text
    default_weights insert_by latency_factor least_conn_factor select_top_k_candidates sort_by
    stable_order is_total_order is_available
offer_test = refl

abbrev offers_made : ProxyCache Text × Result (List (RelayCandidate ℕ)) ProxyError
offers_made =
    build_relay_candidates repo fixed as_given 1000000000 lb 5 (text "gpt") (some (text "session"))
      new_cache

abbrev list_of : Result (List (RelayCandidate ℕ)) ProxyError → List (RelayCandidate ℕ)
list_of (ok offers) = offers
list_of (err e) = []

abbrev session_offer : ProxyCache Text × Option (RelayCandidate ℕ)
session_offer = sticky_candidate repo fixed lb 5 (text "gpt") (some (text "session")) new_cache

count-build_relay_candidates_example :
    count (offers_to repo fixed (text "b")) (list_of offers_made.1) ≡ (
      if holds (offer_ids repo fixed session_offer.1) (text "b")
        || in_found (text "b") (find_route repo fixed (text "gpt") session_offer.0).1
      then 1
      else 0)
unfolding build_relay_candidates find_route find_route_by_name find_route_by_regex match_routes
    get_group get sticky_candidate LoadBalancer.get_sticky_session Sticky.get_session
    set_sticky_session Sticky.set_session LoadBalancer.new Sticky.new put text_eq load_channel
    get_channel new_cache has_any_endpoint erase keep clamp fmax fmin get_compiled_regex push_id
    remove_id set_channel set_group add_candidates candidate_health ordered_items push_all push_tier
    route_candidates runtime_latency score_candidates score_input score_tiers split_group
    split_tiers tier_and_demote active_count Circuit.new LoadBalancer.runtime_stats default_stats
    get_stats calculate_candidate_score clamp01 compare_scored_candidates compare_text
    default_weights insert_by latency_factor least_conn_factor select_top_k_candidates sort_by
    stable_order is_total_order is_available
count-build_relay_candidates_example =
    count-build_relay_candidates repo fixed as_given 1000000000 lb 5 (text "gpt")
      (some (text "session")) new_cache (list_of offers_made.1) (text "b") refl

is_ok-build_relay_candidates_example :
    is_ok offers_made.1
    ≡ has_offer session_offer.1 (find_route repo fixed (text "gpt") session_offer.0).1
is_ok-build_relay_candidates_example =
    is_ok-build_relay_candidates repo fixed as_given 1000000000 lb 5 (text "gpt")
      (some (text "session")) new_cache

abbrev scored : Text → ℕ → ScoredCandidate ℕ
scored id health = record {
  input = record {
    candidate_id = id;
    active_concurrency = 0;
    min_active = none;
    max_active = none;
    error_rate = 0;
    latency_ms = none;
    min_latency_ms = none;
    max_latency_ms = none;
    health = health;
  };
  score = 1000;
}

abbrev two_tiers : List (ℤ × ScoredCandidate ℕ)
two_tiers =
    (pos 1, scored (text "low") 1000)
    ∷ (pos 0, scored (text "ill") 0)
    ∷ (pos 0, scored (text "high") 900)
    ∷ []

tier_and_demote_test :
    map (λ c. c.input.candidate_id) (tier_and_demote fixed two_tiers)
    ≡ text "high" ∷ text "low" ∷ text "ill" ∷ []
unfolding tier_and_demote push_all push_tier split_tiers split_group
tier_and_demote_test = refl

tier_and_demote-IsAscending_example :
    (sorted : List (ℤ × ScoredCandidate ℕ)) × IsAscending sorted
    × ((p : ℤ) → filter (has_priority p) sorted ≡ filter (has_priority p) two_tiers)
    × (tier_and_demote fixed two_tiers
        ≡ items_of (filter (λ x. not (is_demoted fixed x.1)) sorted)
          ++ items_of (filter (λ x. is_demoted fixed x.1) sorted))
tier_and_demote-IsAscending_example = tier_and_demote-IsAscending fixed two_tiers
