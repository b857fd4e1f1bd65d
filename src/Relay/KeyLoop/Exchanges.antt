-- ===== src/Relay/KeyLoop/Exchanges.antt =====
-- One exchange leaves a channel available (executor/mod.rs, execute_proxy_request).
use galaxy_router.Base.{
  ℕ, ◌≡◌, subst, ◌∙◌, inl, inr, Bool, true, false, Option, none, some, arith, if◌then◌else◌,
  Option-cases, Text,
}
use galaxy_router.Base.Float.{Floats}
use galaxy_router.Errors.{upstream_error}
use galaxy_router.Scheduler.Circuit as Circuit
use galaxy_router.Scheduler.Status.{ChannelStatus, Clock, is_available}
use galaxy_router.Scheduler.Status as Status
use galaxy_router.Scheduler.LoadBalancer.{
  LoadBalancerState, status_available, is_channel_available, increment_active, decrement_active,
  record_success, record_success_with_ttft, ensure_channel_status,
}
use galaxy_router.Scheduler.LoadBalancer.Cleanup.{ensure_channel_status-is_channel_available}
use galaxy_router.Relay.Channel.{ChannelInfo}
use galaxy_router.Relay.KeyLoop.{
  Exchange, not_prepared, unreachable, answered, Upstream, is_success, first_500, conclude,
  execute_proxy_request,
}

module _ {F : Type 0} (other : Text) (later : ℕ) where
  -- b answers for the channel wherever a does.
  abbrev pub Stays : LoadBalancerState F → LoadBalancerState F → Type 0
  Stays a b = is_channel_available a other later ≡ true → is_channel_available b other later ≡ true

  increment_active-same :
      (lb : LoadBalancerState F) (id : Text)
      → is_channel_available (increment_active lb id) other later
        ≡ is_channel_available lb other later
  unfolding is_channel_available increment_active is_available
  increment_active-same lb id = elim (Option-cases (lb.channel_states other)) [
    | inl e ↦ rw e (ground arith)
    | inr (s, e) ↦ rw e (ground arith)
  ]

  decrement_active-same :
      (lb : LoadBalancerState F) (id : Text)
      → is_channel_available (decrement_active lb id) other later
        ≡ is_channel_available lb other later
  unfolding is_channel_available decrement_active is_available
  decrement_active-same lb id = elim (Option-cases (lb.channel_states other)) [
    | inl e ↦ rw e (ground arith)
    | inr (s, e) ↦ rw e (ground arith)
  ]

  -- The breaker is not asked.
  pub swapped :
      (lb : LoadBalancerState F) (breaker : Circuit.CircuitBreaker)
      → Stays lb (record lb { circuit_breaker = breaker })
  unfolding is_channel_available
  swapped lb breaker h = h

module _ (fl : Floats) (other : Text) (later : ℕ) where
  open fl use {F}

  status_success :
      (s : ChannelStatus F) (latency : F) (now : Clock)
      → is_available s later ≡ true
      → is_available (Status.record_success fl s latency now) later ≡ true
  unfolding is_available Status.record_success
  status_success s latency now h = ground (arith, h)

  record_success-Stays :
      (lb : LoadBalancerState F) (id : Text) (latency : F) (now : Clock)
      → Stays other later lb (record_success fl lb id latency now)
  unfolding is_channel_available record_success record_success_with_ttft
  record_success-Stays lb id latency now h = elim (Option-cases (lb.channel_states other)) [
    | inl e ↦ rw e (ground arith)
    | inr (s, e) ↦ rw e (
        ground
          (arith, status_success s latency now (subst (λ o. status_available o later ≡ true) e h)))
  ]

  -- Whatever is left behind still answers, if it is no panic.
  abbrev pub Kept : {X : Type 0} → LoadBalancerState F → Option (LoadBalancerState F × X) → Type 0
  Kept lb none = Unit
  Kept lb (some (lb', x)) = Stays other later lb lb'

  pick_lem :
      {X : Type 0} (lb : LoadBalancerState F) (b : Bool) (x y : Option (LoadBalancerState F × X))
      → Kept lb x
      → Kept lb y
      → Kept lb (if b then x else y)
  pick_lem lb true x y hx hy = hx
  pick_lem lb false x y hx hy = hy

  reveal_lem :
      {X : Type 0} (lb : LoadBalancerState F) (o : Option Text) (r : LoadBalancerState F × X)
      → Kept lb (some r)
      → Kept lb (elim o [ none ↦ none | some shown ↦ some r ])
  reveal_lem lb none r h = tt
  reveal_lem lb (some s) r h = h

  earlier :
      {X : Type 0} (a b : LoadBalancerState F) (r : Option (LoadBalancerState F × X))
      → Stays other later a b
      → Kept b r
      → Kept a r
  earlier a b none s h = tt
  earlier a b (some (lb, x)) s h = λ e. h (s e)

  module _ {W : Type 0} (up : Upstream F W) where
    decrement-Stays :
        (lb : LoadBalancerState F) (id : Text) → Stays other later lb (decrement_active lb id)
    decrement-Stays lb id h = decrement_active-same other later lb id ∙ h

    conclude-Kept :
        (lb : LoadBalancerState F) (id hint : Text) (now : Clock) (x : Exchange F)
        → Kept lb (conclude fl up lb id hint now x)
    unfolding conclude
    conclude-Kept lb id hint now (not_prepared e) = decrement-Stays lb id
    conclude-Kept lb id hint now (unreachable m) = decrement-Stays lb id
    conclude-Kept lb id hint now (answered status body latency converted) =
        let lb' = record_success fl lb id latency now in
        let lb'' : LoadBalancerState F = record lb' {
          circuit_breaker = Circuit.record_success lb'.circuit_breaker id hint;
        } in
        pick_lem lb (is_success status) (some (decrement_active lb'' id, converted))
          (elim (first_500 body) [
            | none ↦ none
            | some shown ↦ some (decrement_active lb id, inl (upstream_error status body))
          ])
          (λ h. decrement-Stays lb'' id (
            swapped other later lb' (Circuit.record_success lb'.circuit_breaker id hint)
              (record_success-Stays lb id latency now h)))
          (reveal_lem lb (first_500 body) (decrement_active lb id, inl (upstream_error status body))
            (decrement-Stays lb id))

    pub execute_proxy_request-Kept :
        (lb : LoadBalancerState F) (world : W) (ch : ChannelInfo) (key hint : Text)
        → Kept lb (execute_proxy_request fl up lb world ch key hint).1
    unfolding execute_proxy_request
    execute_proxy_request-Kept lb world ch key hint =
        let known =
          ensure_channel_status fl lb ch.id ch.max_concurrency ch.failure_threshold
            ch.blacklist_minutes (up.clock world) in
        let (world', x) = up.exchange world ch key in
        earlier lb (increment_active known ch.id)
          (conclude fl up (increment_active known ch.id) ch.id hint (up.clock world') x)
          (λ h.
            increment_active-same other later known ch.id
            ∙ ensure_channel_status-is_channel_available fl lb ch.id other ch.max_concurrency
                ch.failure_threshold ch.blacklist_minutes (up.clock world) later
            ∙ h)
          (conclude-Kept (increment_active known ch.id) ch.id hint (up.clock world') x)
