-- ===== src/Relay/Candidates/Offered.antt =====
-- Which channels a request is offered to (candidates.rs, build_relay_candidates).
use galaxy_router.Base.{
  ℕ, ◌≤◌, ◌≡◌, refl, sym, ap, ◌∙◌, inl, inr, Bool, true, false, not, ◌&&◌, ◌||◌, Option, none, some,
  List, [], ◌∷◌, ◌++◌, arith, ltb, ◌==◌, if◌then◌else◌, Bool-cases, length, filter, any, any-count,
  count, count-append, Text, text_eq, text_eq_iff, text_eq_self,
}
use galaxy_router.Base.Float.{Floats}
use galaxy_router.Errors.{ProxyError}
use galaxy_router.Scheduler.LoadBalancer.{LoadBalancerState}
use galaxy_router.Scheduler.Scoring.{OpenOrder, ScoredCandidate}
use galaxy_router.Relay.Channel.{ChannelInfo, has_any_endpoint}
use galaxy_router.Relay.Route.{RouteItemInfo, RouteInfo}
use galaxy_router.Relay.Run.{RelayCandidate}
use galaxy_router.Infra.Cache.{ProxyCache}
use galaxy_router.Service.Routing.{Result, ok, err, Repositories, load_channel}
use galaxy_router.Relay.Candidates.{
  ordered_items, holds, sticky_loaded, sticky_channel, session_channel, add_candidates,
  sticky_candidate, find_route, route_candidates, conclude, offer_list, offer_ids, with_route,
  build_relay_candidates,
}
use galaxy_router.Relay.Candidates.Counts.{of_item, of_candidate, count-ordered_items}

-- The routes' channels, of a lookup that may have failed.
abbrev pub in_route : Text → Option RouteInfo → Bool
in_route id none = false
in_route id (some route) = any (of_item id) route.items

abbrev pub in_found : Text → Result (Option RouteInfo) ProxyError → Bool
in_found id (err e) = false
in_found id (ok route) = in_route id route

holds-same : (seen : List Text) (a b : Text) → text_eq a b ≡ true → holds seen a ≡ holds seen b
holds-same seen a b h = ap (holds seen) ((text_eq_iff a b).0 h)

any-filter_unseen :
    (id : Text) (seen : List Text) (items : List RouteItemInfo)
    → holds seen id ≡ false
    → any (of_item id) (filter (λ it. not (holds seen it.channel_id)) items)
      ≡ any (of_item id) items
any-filter_unseen id seen [] h = refl
any-filter_unseen id seen (it ∷ items) h =
    ground (arith, h, holds-same seen it.channel_id id, any-filter_unseen id seen items h)

empty_any :
    (id : Text) (items : List RouteItemInfo)
    → (length items == 0) ≡ true
    → any (of_item id) items ≡ false
empty_any id [] h = refl
empty_any id (it ∷ items) h = ground (arith, h)

counted_length {ℓ} : {A : Type ℓ} (p : A → Bool) (xs : List A) → count p xs ≤ length xs
counted_length p [] = omega arith
counted_length p (x ∷ xs) = ground (arith, counted_length p xs)

-- Somebody to offer to: the session's channel, or an item of the route.
abbrev pub has_offer : {A : Type 0} → Option A → Result (Option RouteInfo) ProxyError → Bool
has_offer sticky (err e) = false
has_offer (some offer) (ok route) = true
has_offer none (ok none) = false
has_offer none (ok (some route)) = not (length route.items == 0)

abbrev pub is_ok : {A E : Type 0} → Result A E → Bool
is_ok (ok a) = true
is_ok (err e) = false

module _ {R : Type 0} (repo : Repositories R) (fl : Floats) where
  open fl use {F}

  -- A channel that is still there, with an endpoint that is enabled.
  abbrev pub is_usable : Result ChannelInfo ProxyError → Bool
  is_usable (ok ch) = has_any_endpoint ch
  is_usable (err e) = false

  -- The channel that the session is bound to, if any, is this one and is usable.
  abbrev pub in_session : Text → Option Text → ProxyCache R → Bool
  in_session id none c = false
  in_session id (some bound) c = text_eq bound id && is_usable (load_channel repo c bound).1

  in_session-loaded :
      (id model bound : Text) (loaded : ProxyCache R × Result ChannelInfo ProxyError)
      → holds (offer_ids repo fl (sticky_loaded repo fl model bound loaded).1) id
        ≡ (text_eq bound id && is_usable loaded.1)
  in_session-loaded id model bound (c, ok ch) = ground arith
  in_session-loaded id model bound (c, err e) = ground arith

  in_session-channel :
      (id model : Text) (session : Option Text) (c : ProxyCache R)
      → holds (offer_ids repo fl (sticky_channel repo fl model session c).1) id
        ≡ in_session id session c
  in_session-channel id model none c = refl
  in_session-channel id model (some bound) c =
      in_session-loaded id model bound (load_channel repo c bound)

  abbrev pub offers_to : Text → RelayCandidate F → Bool
  offers_to id offer = text_eq offer.channel_id id

  count-add_candidates :
      (id model : Text) (route : RouteInfo) (items : List RouteItemInfo)
      (scs : List (ScoredCandidate F)) (seen : List Text) (c : ProxyCache R)
      → count (offers_to id) (add_candidates repo fl model route items scs seen c).1
        ≡ (if holds seen id then 0 else if any (of_candidate fl id) scs then 1 else 0)
  unfolding add_candidates
  count-add_candidates id model route items [] seen c = ground arith
  count-add_candidates id model route items (sc ∷ scs) seen c =
      let own : Text = sc.input.candidate_id in
      elim (Bool-cases (holds seen own)) [
        | inl e ↦ rw e (
            ground (
              arith,
              e,
              holds-same seen own id,
              count-add_candidates id model route items scs seen c,
            ))
        | inr e ↦ rw e (
            ground (
              arith,
              e,
              holds-same seen own id,
              count-add_candidates id model route items scs (own ∷ seen)
                  (load_channel repo c own).0,
            ))
      ]

  module _ (std : OpenOrder (ScoredCandidate F)) (infinity : F) (lb : LoadBalancerState F)
      (now : ℕ) where
    any-ordered_items :
        (id : Text) (items : List RouteItemInfo)
        → any (of_candidate fl id) (ordered_items fl std infinity lb now items)
          ≡ any (of_item id) items
    any-ordered_items id items =
        any-count (of_candidate fl id) (ordered_items fl std infinity lb now items)
        ∙ ap (λ n. ltb 0 n) (count-ordered_items fl std infinity lb now id items)
        ∙ sym (any-count (of_item id) items)

    count-route_candidates :
        (id model : Text) (seen : List Text) (route : Option RouteInfo) (c : ProxyCache R)
        → count (offers_to id) (route_candidates repo fl std infinity lb now model seen route c).1
          ≡ (if holds seen id then 0 else if in_route id route then 1 else 0)
    unfolding route_candidates
    count-route_candidates id model seen none c = ground arith
    count-route_candidates id model seen (some route) c =
        let items = filter (λ (it : RouteItemInfo). not (holds seen it.channel_id)) route.items in
        elim (Bool-cases (length items == 0)) [
          | inl e ↦
              rw e (ground (arith, empty_any id items e, any-filter_unseen id seen route.items))
          | inr e ↦ rw e (
              ground (
                arith,
                any-filter_unseen id seen route.items,
                any-ordered_items id items,
                count-add_candidates id model route items
                    (ordered_items fl std infinity lb now items) seen c,
              ))
        ]

    abbrev list_of : Result (List (RelayCandidate F)) ProxyError → List (RelayCandidate F)
    list_of (ok offers) = offers
    list_of (err e) = []

    conclude-ok :
        (model : Text) (route : Option RouteInfo) (all offers : List (RelayCandidate F))
        → conclude repo fl model route all ≡ ok offers
        → all ≡ offers
    conclude-ok model none [] offers h = cc
    conclude-ok model (some route) [] offers h = cc
    conclude-ok model none (o ∷ os) offers h = ap list_of h
    conclude-ok model (some route) (o ∷ os) offers h = ap list_of h

    count-offer_list :
        (id : Text) (sticky : Option (RelayCandidate F))
        → count (offers_to id) (offer_list repo fl sticky)
          ≡ (if holds (offer_ids repo fl sticky) id then 1 else 0)
    count-offer_list id none = refl
    count-offer_list id (some offer) = ground arith

    count-with_route :
        (id model : Text) (sticky : Option (RelayCandidate F)) (c : ProxyCache R)
        (found : Result (Option RouteInfo) ProxyError) (offers : List (RelayCandidate F))
        → (with_route repo fl std infinity lb now model sticky (c, found)).1 ≡ ok offers
        → count (offers_to id) offers
          ≡ (if holds (offer_ids repo fl sticky) id || in_found id found then 1 else 0)
    count-with_route id model sticky c (err e) offers h = cc
    count-with_route id model sticky c (ok route) offers h =
        let routed =
          (route_candidates repo fl std infinity lb now model (offer_ids repo fl sticky) route
            c).1 in
        ap (count (offers_to id))
          (sym (conclude-ok model route (offer_list repo fl sticky ++ routed) offers h))
        ∙ count-append (offers_to id) (offer_list repo fl sticky) routed
        ∙ ground (
          arith,
          count-offer_list id sticky,
          count-route_candidates id model (offer_ids repo fl sticky) route c,
        )

    -- When a request gets candidates, these channels are among them exactly once and no other is:
    -- the channel that its session is bound to, if it is still there with an enabled endpoint,
    -- and the channel of every item of the route that was found, whatever scores, priorities,
    -- health and repeated items the route has.
    pub count-build_relay_candidates :
        (model : Text) (session_hash : Option Text) (c : ProxyCache R)
        (offers : List (RelayCandidate F)) (id : Text)
        → (build_relay_candidates repo fl std infinity lb now model session_hash c).1 ≡ ok offers
        → (let sticky = sticky_candidate repo fl lb now model session_hash c in
            let found = find_route repo fl model sticky.0 in
            count (offers_to id) offers ≡ (
              if in_session id (session_channel repo fl lb now session_hash) c
                || in_found id found.1
              then 1
              else 0))
    unfolding build_relay_candidates sticky_candidate
    count-build_relay_candidates model session_hash c offers id h =
        let sticky = sticky_candidate repo fl lb now model session_hash c in
        let found = find_route repo fl model sticky.0 in
        let session = session_channel repo fl lb now session_hash in
        count-with_route id model sticky.1 found.0 found.1 offers h
        ∙ ap (λ b. if b || in_found id found.1 then 1 else 0)
            (in_session-channel id model session c)

    conclude-some :
        (model : Text) (route : RouteInfo) (offers : List (RelayCandidate F))
        → is_ok (conclude repo fl model (some route) offers) ≡ ltb 0 (length offers)
    conclude-some model route [] = ground arith
    conclude-some model route (o ∷ os) = ground arith

    -- An item's channel is offered, so that somebody is.
    offered_items :
        (model : Text) (c : ProxyCache R) (route : RouteInfo) (items : List RouteItemInfo)
        → route.items ≡ items
        → ltb 0 (length (route_candidates repo fl std infinity lb now model [] (some route) c).1)
          ≡ not (length items == 0)
    unfolding route_candidates
    offered_items model c route [] e = rw e (ground arith)
    offered_items model c route (it ∷ items) e =
        let offers = (route_candidates repo fl std infinity lb now model [] (some route) c).1 in
        let there : any (of_item it.channel_id) route.items ≡ true =
          rw (e, text_eq_self it.channel_id) refl in
        ground (
          arith,
          there,
          count-route_candidates it.channel_id model [] (some route) c,
          counted_length (offers_to it.channel_id) offers,
        )

    ok-with_route :
        (model : Text) (sticky : Option (RelayCandidate F)) (c : ProxyCache R)
        (found : Result (Option RouteInfo) ProxyError)
        → is_ok (with_route repo fl std infinity lb now model sticky (c, found)).1
          ≡ has_offer sticky found
    unfolding route_candidates
    ok-with_route model sticky c (err e) = refl
    ok-with_route model (some offer) c (ok none) = refl
    ok-with_route model (some offer) c (ok (some route)) = refl
    ok-with_route model none c (ok none) = refl
    ok-with_route model none c (ok (some route)) =
        conclude-some model route
          (route_candidates repo fl std infinity lb now model [] (some route) c).1
        ∙ offered_items model c route route.items refl

    -- A request gets candidates exactly when no lookup of its route failed and its session has a
    -- usable channel or the route that was found has an item; else it gets an error.
    pub is_ok-build_relay_candidates :
        (model : Text) (session_hash : Option Text) (c : ProxyCache R)
        → (let sticky = sticky_candidate repo fl lb now model session_hash c in
            let found = find_route repo fl model sticky.0 in
            is_ok (build_relay_candidates repo fl std infinity lb now model session_hash c).1
            ≡ has_offer sticky.1 found.1)
    unfolding build_relay_candidates
    is_ok-build_relay_candidates model session_hash c =
        let sticky = sticky_candidate repo fl lb now model session_hash c in
        let found = find_route repo fl model sticky.0 in
        ok-with_route model sticky.1 found.0 found.1
