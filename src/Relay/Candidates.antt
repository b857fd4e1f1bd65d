-- ===== src/Relay/Candidates.antt =====
-- src/llm/relay/candidates.rs: which channels a request is offered to, and in which order. The clock is
-- read once, since the reads of one request are close together; `infinity` is f64::INFINITY.
pub mod Tiers
pub mod Stable
pub mod Counts
pub mod Offered
mod Tests
use galaxy_router.Base.{
  ℕ, zero, suc, ◌+◌, ◌-◌, ◌*◌, ◌/◌, ◌%◌, ◌^◌, ◌≤◌, ◌<◌, min, max, ◌≡◌, refl, sym, ap, subst, ◌∙◌,
  fun_ext, ◌≢◌, ◌↔◌, ◌⊎◌, inl, inr, Bool, true, false, not, ◌&&◌, ◌||◌, Option, none, some, List,
  [], ◌∷◌, ◌++◌, map, arith, ltb, leb, ◌==◌, if◌then◌else◌, ltb→lt, lt→ltb, leb→le, le→leb, lt→leb,
  ==_iff, tests, Bool-cases, Option-cases, get_or, is_some, length, get_elem?, take, replicate,
  filter, find, any, count, All, length-append, length-replicate, count-append, length-filter-le,
  All-append, find-passes, any-find, Text, text, text_eq, text_eq_iff, text_eq_self, text_ne,
  starts_with, contains, to_ascii_lowercase, starts_with-append, Map, keep_if, map_some, new_map,
  insert, alter, retain,
}
use galaxy_router.Base.Int.{ℤ, ltb_ℤ, leb_ℤ}
use galaxy_router.Base.Float.{Floats, fmin, fmax}
use galaxy_router.Errors.{ProxyError, no_available_channel, model_not_found}
use galaxy_router.Scheduler.Capacity.{active_count}
use galaxy_router.Scheduler.Runtime.{ChannelRuntimeStats}
use galaxy_router.Scheduler.LoadBalancer.{
  LoadBalancerState, status_available, get_sticky_session, runtime_stats,
}
use galaxy_router.Scheduler.Scoring.{
  OpenOrder, CandidateScoreInput, ScoredCandidate, default_weights, select_top_k_candidates,
}
use galaxy_router.Relay.Channel.{ChannelInfo, has_any_endpoint}
use galaxy_router.Relay.Route.{RouteItemInfo, RouteInfo}
use galaxy_router.Relay.Run.{RelayCandidate}
use galaxy_router.Infra.Cache.{ProxyCache}
use galaxy_router.Service.Routing.{
  Result, ok, err, Repositories, find_route_by_name, find_route_by_regex, load_channel,
}

-- A `BTreeMap<i32, Vec<_>>`: the groups by ascending priority.
abbrev pub Tiers {ℓ} : Type ℓ → Type ℓ
Tiers A = List (ℤ × List A)

abbrev pub eq_ℤ : ℤ → ℤ → Bool
eq_ℤ a b = leb_ℤ a b && leb_ℤ b a

-- `tiers.entry(priority).or_default().push(x)`.
unfoldable pub push_tier {ℓ} : {A : Type ℓ} → ℤ → A → Tiers A → Tiers A
push_tier p x [] = (p, x ∷ []) ∷ []
push_tier p x ((q, group) ∷ tiers) =
    let further = push_tier p x tiers in
    if ltb_ℤ p q
    then (p, x ∷ []) ∷ (q, group) ∷ tiers
    else if eq_ℤ p q
    then (q, group ++ x ∷ []) ∷ tiers
    else (q, group) ∷ further

unfoldable pub push_all {ℓ} : {A : Type ℓ} → List (ℤ × A) → Tiers A → Tiers A
push_all [] tiers = tiers
push_all ((p, x) ∷ xs) tiers = push_all xs (push_tier p x tiers)

abbrev pub push_if {ℓ} : {A : Type ℓ} → Bool → A → List A × List A → List A × List A
push_if true x (ordered, demoted) = (ordered, demoted ++ x ∷ [])
push_if false x (ordered, demoted) = (ordered ++ x ∷ [], demoted)

-- The items of a group, each at the end of one of two lists.
unfoldable pub split_group {ℓ} :
    {A : Type ℓ} → (A → Bool) → List A → List A × List A → List A × List A
split_group demoted [] acc = acc
split_group demoted (x ∷ group) acc = split_group demoted group (push_if (demoted x) x acc)

unfoldable pub split_tiers {ℓ} :
    {A : Type ℓ} → (A → Bool) → Tiers A → List A × List A → List A × List A
split_tiers demoted [] acc = acc
split_tiers demoted ((p, group) ∷ tiers) acc =
    split_tiers demoted tiers (split_group demoted group acc)

module _ (fl : Floats) where
  open fl use {F, of_nat, flt, fle, mul}

  abbrev pub is_demoted : ScoredCandidate F → Bool
  is_demoted sc = fle sc.input.health (of_nat 0)

  unfoldable pub tier_and_demote : List (ℤ × ScoredCandidate F) → List (ScoredCandidate F)
  tier_and_demote scored =
      let (ordered, demoted) = split_tiers is_demoted (push_all scored []) ([], []) in
      ordered ++ demoted

  unfoldable pub runtime_latency : ChannelRuntimeStats F → Option F
  runtime_latency s =
      if flt (of_nat 0) s.ttft_ewma
      then some s.ttft_ewma
      else if flt (of_nat 0) s.latency_ewma
      then some s.latency_ewma
      else none

  -- The health of the averages, and 0 for a channel that is shut out.
  unfoldable pub candidate_health : LoadBalancerState F → ℕ → Text → F
  candidate_health lb now id =
      let open_now = status_available (lb.channel_states id) now in
      mul (runtime_stats fl lb id).health (if open_now then of_nat 1 else of_nat 0)

  abbrev pub somes : List (Option F) → List F
  somes [] = []
  somes (none ∷ os) = somes os
  somes (some v ∷ os) = v ∷ somes os

  -- `vals.fold(start, f)`, or nothing when there are no values.
  abbrev pub folded : (F → F → F) → F → List F → F
  folded f acc [] = acc
  folded f acc (v ∷ vs) = folded f (f acc v) vs

  abbrev pub fold_some : (F → F → F) → F → List F → Option F
  fold_some f start [] = none
  fold_some f start (v ∷ vs) = some (folded f start (v ∷ vs))

  -- What a channel is scored by, with the bounds of the latencies and of the loads of its tier.
  unfoldable pub score_input :
      F → LoadBalancerState F → ℕ → List F → List F → RouteItemInfo → CandidateScoreInput F
  score_input infinity lb now latencies loads item =
      let stats = runtime_stats fl lb item.channel_id in
      record {
        candidate_id = item.channel_id;
        active_concurrency = active_count lb.capacity_manager item.channel_id;
        min_active = fold_some (fmin fl) infinity loads;
        max_active = fold_some (fmax fl) (of_nat 0) loads;
        error_rate = stats.error_ewma;
        latency_ms = runtime_latency stats;
        min_latency_ms = fold_some (fmin fl) infinity latencies;
        max_latency_ms = fold_some (fmax fl) (of_nat 0) latencies;
        health = candidate_health lb now item.channel_id;
      }

  unfoldable pub score_candidates :
      OpenOrder (ScoredCandidate F)
      → F
      → LoadBalancerState F
      → ℕ
      → List RouteItemInfo
      → List (ScoredCandidate F)
  score_candidates std infinity lb now items =
      let latencies = somes (map (λ i. runtime_latency (runtime_stats fl lb i.channel_id)) items) in
      let loads = map (λ i. of_nat (active_count lb.capacity_manager i.channel_id)) items in
      let inputs = map (score_input infinity lb now latencies loads) items in
      select_top_k_candidates fl std inputs (length inputs) (default_weights fl)

  abbrev pub with_prio : ℤ → List (ScoredCandidate F) → List (ℤ × ScoredCandidate F)
  with_prio p scs = map (λ sc. (p, sc)) scs

  unfoldable pub score_tiers :
      OpenOrder (ScoredCandidate F)
      → F
      → LoadBalancerState F
      → ℕ
      → Tiers RouteItemInfo
      → List (ℤ × ScoredCandidate F)
  score_tiers std infinity lb now [] = []
  score_tiers std infinity lb now ((p, items) ∷ tiers) =
      with_prio p (score_candidates std infinity lb now items)
      ++ score_tiers std infinity lb now tiers

  -- The items of a route in the order in which they are offered.
  unfoldable pub ordered_items :
      OpenOrder (ScoredCandidate F)
      → F
      → LoadBalancerState F
      → ℕ
      → List RouteItemInfo
      → List (ScoredCandidate F)
  ordered_items std infinity lb now items =
      let tiers = push_all (map (λ i. (i.priority, i)) items) [] in
      tier_and_demote (score_tiers std infinity lb now tiers)

abbrev pub max_concurrency_of : Result ChannelInfo ProxyError → ℕ
max_concurrency_of (ok ch) = ch.max_concurrency
max_concurrency_of (err e) = 0

-- The model of the first item with the channel, or the requested one.
abbrev pub model_or : Text → Option RouteItemInfo → Text
model_or model none = model
model_or model (some item) = item.model_name

abbrev pub target_model : List RouteItemInfo → Text → Text → Text
target_model items model id = model_or model (find (λ it. text_eq it.channel_id id) items)

abbrev pub holds : List Text → Text → Bool
holds seen id = any (λ j. text_eq j id) seen

module _ {R : Type 0} (repo : Repositories R) (fl : Floats) where
  open fl use {F, of_nat}

  abbrev pub Offer : Type 0
  Offer = RelayCandidate F

  -- `for sc in &ordered`: a channel that is seen is not offered again.
  unfoldable pub add_candidates :
      Text
      → RouteInfo
      → List RouteItemInfo
      → List (ScoredCandidate F)
      → List Text
      → ProxyCache R
      → ProxyCache R × List Offer
  add_candidates model route items [] seen c = (c, [])
  add_candidates model route items (sc ∷ scs) seen c =
      let id : Text = sc.input.candidate_id in
      let skipped = add_candidates model route items scs seen c in
      let loaded = load_channel repo c id in
      let rest = add_candidates model route items scs (id ∷ seen) loaded.0 in
      let offer : Offer = record {
        channel_id = id;
        channel_name = [];
        max_concurrency = max_concurrency_of loaded.1;
        score = sc.score;
        sticky = false;
        target_model = target_model items model id;
        route_id = some route.id;
      } in
      if holds seen id then skipped else (rest.0, offer ∷ rest.1)

  abbrev pub sticky_offer : Text → ChannelInfo → Text → Offer
  sticky_offer model ch id = record {
    channel_id = id;
    channel_name = ch.name;
    max_concurrency = ch.max_concurrency;
    score = of_nat 100;
    sticky = true;
    target_model = model;
    route_id = none;
  }

  abbrev pub sticky_loaded :
      Text → Text → ProxyCache R × Result ChannelInfo ProxyError → ProxyCache R × Option Offer
  sticky_loaded model id (c, err e) = (c, none)
  sticky_loaded model id (c, ok ch) =
      if has_any_endpoint ch then (c, some (sticky_offer model ch id)) else (c, none)

  abbrev pub sticky_channel : Text → Option Text → ProxyCache R → ProxyCache R × Option Offer
  sticky_channel model none c = (c, none)
  sticky_channel model (some id) c = sticky_loaded model id (load_channel repo c id)

  abbrev pub session_channel : LoadBalancerState F → ℕ → Option Text → Option Text
  session_channel lb now none = none
  session_channel lb now (some hash) = get_sticky_session lb hash now

  -- The channel of the session, if it is still there and has an endpoint.
  unfoldable pub sticky_candidate :
      LoadBalancerState F → ℕ → Text → Option Text → ProxyCache R → ProxyCache R × Option Offer
  sticky_candidate lb now model session_hash c =
      sticky_channel model (session_channel lb now session_hash) c

  abbrev pub or_regex :
      Text
      → ProxyCache R × Result (Option RouteInfo) ProxyError
      → ProxyCache R × Result (Option RouteInfo) ProxyError
  or_regex model (c, ok none) = find_route_by_regex repo c model
  or_regex model (c, ok (some route)) = (c, ok (some route))
  or_regex model (c, err e) = (c, err e)

  unfoldable pub find_route :
      Text → ProxyCache R → ProxyCache R × Result (Option RouteInfo) ProxyError
  find_route model c = or_regex model (find_route_by_name repo c model)

  -- The channels of the route that are not seen yet.
  unfoldable pub route_candidates :
      OpenOrder (ScoredCandidate F)
      → F
      → LoadBalancerState F
      → ℕ
      → Text
      → List Text
      → Option RouteInfo
      → ProxyCache R
      → ProxyCache R × List Offer
  route_candidates std infinity lb now model seen none c = (c, [])
  route_candidates std infinity lb now model seen (some route) c =
      let items = filter (λ it. not (holds seen it.channel_id)) route.items in
      let added =
        add_candidates model route items (ordered_items fl std infinity lb now items) seen c in
      if length items == 0 then (c, []) else added

  -- With nobody to offer the request to, the model is unknown or its channels are out.
  abbrev pub conclude : Text → Option RouteInfo → List Offer → Result (List Offer) ProxyError
  conclude model none [] = err (model_not_found (text "模型不存在: " ++ model))
  conclude model (some route) [] =
      err (no_available_channel (text "模型 " ++ model ++ text " 的所有渠道不可用"))
  conclude model route (offer ∷ offers) = ok (offer ∷ offers)

  abbrev pub offer_list : Option Offer → List Offer
  offer_list none = []
  offer_list (some offer) = offer ∷ []

  abbrev pub offer_ids : Option Offer → List Text
  offer_ids none = []
  offer_ids (some offer) = offer.channel_id ∷ []

  abbrev pub with_route :
      OpenOrder (ScoredCandidate F)
      → F
      → LoadBalancerState F
      → ℕ
      → Text
      → Option Offer
      → ProxyCache R × Result (Option RouteInfo) ProxyError
      → ProxyCache R × Result (List Offer) ProxyError
  with_route std infinity lb now model sticky (c, err e) = (c, err e)
  with_route std infinity lb now model sticky (c, ok route) =
      let routed = route_candidates std infinity lb now model (offer_ids sticky) route c in
      (routed.0, conclude model route (offer_list sticky ++ routed.1))

  unfoldable pub build_relay_candidates :
      OpenOrder (ScoredCandidate F)
      → F
      → LoadBalancerState F
      → ℕ
      → Text
      → Option Text
      → ProxyCache R
      → ProxyCache R × Result (List Offer) ProxyError
  build_relay_candidates std infinity lb now model session_hash c =
      let found = sticky_candidate lb now model session_hash c in
      with_route std infinity lb now model found.1 (find_route model found.0)
