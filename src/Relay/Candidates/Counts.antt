-- ===== src/Relay/Candidates/Counts.antt =====
-- Scoring and ordering lose no channel of a route, and add none (candidates.rs).
use galaxy_router.Base.{
  ℕ, ◌+◌, ◌≡◌, refl, ap, ◌∙◌, Bool, not, List, [], ◌∷◌, ◌++◌, map, arith, if◌then◌else◌, length,
  filter, count, count-append, Text, text_eq,
}
use galaxy_router.Base.Int.{ℤ}
use galaxy_router.Base.Float.{Floats}
use galaxy_router.Scheduler.LoadBalancer.{LoadBalancerState, runtime_stats}
use galaxy_router.Scheduler.Capacity.{active_count}
use galaxy_router.Scheduler.Scoring.{OpenOrder, ScoredCandidate, default_weights, scored}
use galaxy_router.Scheduler.Scoring.Order.{count-select_top_k_candidates}
use galaxy_router.Relay.Route.{RouteItemInfo}
use galaxy_router.Relay.Candidates.{
  Tiers, push_all, is_demoted, tier_and_demote, runtime_latency, somes, score_input,
  score_candidates, with_prio, score_tiers, ordered_items,
}
use galaxy_router.Relay.Candidates.Tiers.{flat, split_tiers-filter, count-push_all}

count-map :
    {A B : Type 0} (p : B → Bool) (f : A → B) (xs : List A)
    → count p (map f xs) ≡ count (λ x. p (f x)) xs
count-map p f [] = refl
count-map p f (x ∷ xs) = ap (λ n. (if p (f x) then 1 else 0) + n) (count-map p f xs)

count_parts :
    {A : Type 0} (p q : A → Bool) (xs : List A)
    → count p (filter (λ x. not (q x)) xs) + count p (filter q xs) ≡ count p xs
count_parts p q [] = refl
count_parts p q (x ∷ xs) = ground (arith, count_parts p q xs)

count-new_tiers :
    {A : Type 0} (f : A → Bool) (xs : List (ℤ × A))
    → count f (flat (push_all xs [])) ≡ count (λ x. f x.1) xs
count-new_tiers f xs = omega (arith, count-push_all f xs [])

abbrev with_own : RouteItemInfo → ℤ × RouteItemInfo
with_own i = (i.priority, i)

-- An item of a route, and a candidate, of one channel.
abbrev pub of_item : Text → RouteItemInfo → Bool
of_item id it = text_eq it.channel_id id

module _ (fl : Floats) where
  open fl use {F, of_nat}

  count-tier_and_demote :
      (p : ScoredCandidate F → Bool) (xs : List (ℤ × ScoredCandidate F))
      → count p (tier_and_demote fl xs) ≡ count (λ x. p x.1) xs
  unfolding tier_and_demote
  count-tier_and_demote p xs =
      let all = flat (push_all xs []) in
      let stays : ScoredCandidate F → Bool = λ x. not (is_demoted fl x) in
      ap (λ s. count p (s.0 ++ s.1)) (split_tiers-filter (is_demoted fl) (push_all xs []) [] [])
      ∙ count-append p (filter stays all) (filter (is_demoted fl) all)
      ∙ count_parts p (is_demoted fl) all
      ∙ count-new_tiers p xs

  abbrev pub of_candidate : Text → ScoredCandidate F → Bool
  of_candidate id sc = text_eq sc.input.candidate_id id

  module _ (std : OpenOrder (ScoredCandidate F)) (infinity : F) (lb : LoadBalancerState F) (now : ℕ)
      (id : Text) where
    count-score_candidates :
        (items : List RouteItemInfo)
        → count (of_candidate id) (score_candidates fl std infinity lb now items)
          ≡ count (of_item id) items
    unfolding score_candidates score_input
    count-score_candidates items =
        let latencies = somes fl (
          map (λ (i : RouteItemInfo). runtime_latency fl (runtime_stats fl lb i.channel_id))
            items) in
        let loads =
          map (λ (i : RouteItemInfo). of_nat (active_count lb.capacity_manager i.channel_id))
            items in
        let inputs = map (score_input fl infinity lb now latencies loads) items in
        count-select_top_k_candidates fl std inputs (length inputs) (default_weights fl)
          (of_candidate id) (omega arith)
        ∙ count-map (of_candidate id) (scored fl (default_weights fl)) inputs
        ∙ count-map (λ i. text_eq i.candidate_id id)
            (score_input fl infinity lb now latencies loads) items

    count-score_tiers :
        (tiers : Tiers RouteItemInfo)
        → count (λ x. of_candidate id x.1) (score_tiers fl std infinity lb now tiers)
          ≡ count (of_item id) (flat tiers)
    unfolding score_tiers
    count-score_tiers [] = refl
    count-score_tiers ((p, items) ∷ tiers) =
        count-append (λ x. of_candidate id x.1)
          (with_prio fl p (score_candidates fl std infinity lb now items))
          (score_tiers fl std infinity lb now tiers)
        ∙ omega (
          arith,
          count-map (λ (x : ℤ × ScoredCandidate F). of_candidate id x.1) (λ sc. (p, sc))
              (score_candidates fl std infinity lb now items),
          count-score_candidates items,
          count-score_tiers tiers,
          count-append (of_item id) items (flat tiers),
        )

    pub count-ordered_items :
        (items : List RouteItemInfo)
        → count (of_candidate id) (ordered_items fl std infinity lb now items)
          ≡ count (of_item id) items
    unfolding ordered_items
    count-ordered_items items =
        let keyed_items = map with_own items in
        count-tier_and_demote (of_candidate id)
          (score_tiers fl std infinity lb now (push_all keyed_items []))
        ∙ count-score_tiers (push_all keyed_items [])
        ∙ count-new_tiers (of_item id) keyed_items
        ∙ count-map (λ (x : ℤ × RouteItemInfo). of_item id x.1) with_own items
