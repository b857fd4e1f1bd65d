-- ===== src/Relay/KeyLoop/Shutout.antt =====
-- A channel is not shut out by what its keys meet (executor/mod.rs).
use galaxy_router.Base.{
  ℕ, ◌+◌, ◌%◌, ◌≡◌, refl, sym, subst, ◌⊎◌, inl, inr, Bool, true, false, Option, none, some, List,
  [], ◌∷◌, ◌==◌, if◌then◌else◌, get_or, is_some, Text,
}
use mathlib.Core.Bool.{true≢false}
use galaxy_router.Base.Float.{Floats}
use galaxy_router.Errors.{
  ErrorClass, key_retryable, upstream_retryable, client, internal, ProxyError, database_error,
  channel_not_found, no_available_channel, model_not_supported, model_not_found, request_error,
  transform_error, upstream_error, is_key_class, classify,
}
use galaxy_router.Scheduler.Circuit as Circuit
use galaxy_router.Scheduler.LoadBalancer.{LoadBalancerState, is_channel_available}
use galaxy_router.Scheduler.LoadBalancer.Cleanup.{record_failure-is_channel_available}
use galaxy_router.Relay.Run.{RelayAttemptError}
use galaxy_router.Relay.Channel.{ChannelInfo, key_hint, api_key_attempts}
use galaxy_router.Relay.KeyLoop.{
  Upstream, from_proxy_error, KeyLoopOutcome, non_key_retryable, should_retry_503, KeyState,
  after_key, execute_proxy_request, weigh_upstream, weigh_other, weigh, judge, use_key, one_key,
  key_loop, run_key_loop, retry_503, execute_channel, is_upstream_class, charge, on_attempt_failed,
}
use galaxy_router.Relay.KeyLoop.Exchanges.{Stays, swapped, Kept, execute_proxy_request-Kept}

module _ (fl : Floats) (other : Text) (later : ℕ) where
  open fl use {F}

  module _ {W : Type 0} (up : Upstream F W) where
    -- The same of the loop's state.
    abbrev pub KeptBy : {X : Type 0} → LoadBalancerState F → Option (KeyState F W × X) → Type 0
    KeptBy lb none = Unit
    KeptBy lb (some (k, x)) = Stays other later lb k.lb

    choose_lem :
        {X : Type 0} (lb : LoadBalancerState F) (b : Bool) (x y : Option (KeyState F W × X))
        → KeptBy lb x
        → KeptBy lb y
        → KeptBy lb (if b then x else y)
    choose_lem lb true x y hx hy = hx
    choose_lem lb false x y hx hy = hy

    sooner :
        {X : Type 0} (a b : LoadBalancerState F) (r : Option (KeyState F W × X))
        → Stays other later a b
        → KeptBy b r
        → KeptBy a r
    sooner a b none s h = tt
    sooner a b (some (k, x)) s h = λ e. h (s e)

    weigh_upstream-KeptBy :
        (ch : ChannelInfo) (hint : Text) (k : KeyState F W) (status : ℕ)
        (e : Option RelayAttemptError) (class : Option ErrorClass)
        → KeptBy k.lb (weigh_upstream fl up ch hint k status e class)
    unfolding weigh_upstream
    weigh_upstream-KeptBy ch hint k status none class = tt
    weigh_upstream-KeptBy ch hint k status (some e) none = tt
    weigh_upstream-KeptBy ch hint k status (some e) (some class) =
        let k' : KeyState F W = record k {
          executed = (k.executed + 1) % 4294967296;
          all_503 = if status == 503 then k.all_503 else false;
        } in
        let breaker =
          Circuit.record_failure k.lb.circuit_breaker ch.id hint (up.clock k.world).instant in
        choose_lem k.lb (is_key_class class)
          (some (
            record k' { lb = record (k.lb) { circuit_breaker = breaker }; last_error = some e },
            none,
          ))
          (some (k', some (non_key_retryable e))) (swapped other later k.lb breaker) (λ h. h)

    weigh_other-KeptBy :
        (k : KeyState F W) (e : Option RelayAttemptError) → KeptBy k.lb (weigh_other fl up k e)
    unfolding weigh_other
    weigh_other-KeptBy k none = tt
    weigh_other-KeptBy k (some e) = λ h. h

    weigh-KeptBy :
        (ch : ChannelInfo) (hint : Text) (k : KeyState F W) (e : ProxyError)
        → KeptBy k.lb (weigh fl up ch hint k e)
    unfolding weigh
    weigh-KeptBy ch hint k (upstream_error status body) =
        let e = upstream_error status body in
        weigh_upstream-KeptBy ch hint k status (from_proxy_error up.show_status e)
          (classify up.from_str e)
    weigh-KeptBy ch hint k (database_error m) =
        weigh_other-KeptBy k (from_proxy_error up.show_status (database_error m))
    weigh-KeptBy ch hint k (channel_not_found m) =
        weigh_other-KeptBy k (from_proxy_error up.show_status (channel_not_found m))
    weigh-KeptBy ch hint k (no_available_channel m) =
        weigh_other-KeptBy k (from_proxy_error up.show_status (no_available_channel m))
    weigh-KeptBy ch hint k (model_not_supported m) =
        weigh_other-KeptBy k (from_proxy_error up.show_status (model_not_supported m))
    weigh-KeptBy ch hint k (model_not_found m) =
        weigh_other-KeptBy k (from_proxy_error up.show_status (model_not_found m))
    weigh-KeptBy ch hint k (request_error m) =
        weigh_other-KeptBy k (from_proxy_error up.show_status (request_error m))
    weigh-KeptBy ch hint k (transform_error m) =
        weigh_other-KeptBy k (from_proxy_error up.show_status (transform_error m))

    judge-KeptBy :
        (lb : LoadBalancerState F) (ch : ChannelInfo) (hint : Text) (k : KeyState F W) (world : W)
        (r : Option (LoadBalancerState F × (ProxyError ⊎ Text)))
        → Kept fl other later lb r
        → KeptBy lb (judge fl up ch hint k world r)
    unfolding judge
    judge-KeptBy lb ch hint k world none s = tt
    judge-KeptBy lb ch hint k world (some (lb', inr body)) s = s
    judge-KeptBy lb ch hint k world (some (lb', inl e)) s =
        let k' : KeyState F W = record k { lb = lb'; world = world } in
        sooner lb lb' (weigh fl up ch hint k' e) s (weigh-KeptBy ch hint k' e)

    use_key-KeptBy :
        (ch : ChannelInfo) (key hint : Text) (k : KeyState F W)
        → KeptBy k.lb (use_key fl up ch key hint k)
    unfolding use_key
    use_key-KeptBy ch key hint k =
        let asked = Circuit.is_tripped k.lb.circuit_breaker ch.id hint (up.clock k.world).instant in
        let lb : LoadBalancerState F = record (k.lb) { circuit_breaker = asked.0 } in
        let sent = execute_proxy_request fl up lb k.world ch key hint in
        choose_lem k.lb asked.1 (some (record k { lb = lb }, none))
          (judge fl up ch hint k sent.0 sent.1) (swapped other later k.lb asked.0)
          (sooner k.lb lb (judge fl up ch hint k sent.0 sent.1) (swapped other later k.lb asked.0) (
            judge-KeptBy lb ch hint k sent.0 sent.1
              (execute_proxy_request-Kept fl other later up lb k.world ch key hint)))

    one_key-KeptBy :
        (ch : ChannelInfo) (key : Text) (k : KeyState F W) → KeptBy k.lb (one_key fl up ch key k)
    unfolding one_key
    one_key-KeptBy ch key k = with_hint (key_hint ch key)
      where
        with_hint :
            (h : Option Text)
            → KeptBy k.lb (elim h [ none ↦ none | some hint ↦ use_key fl up ch key hint k ])
        with_hint none = tt
        with_hint (some hint) = use_key-KeptBy ch key hint k

    after_key-KeptBy :
        (lb : LoadBalancerState F) (rest : KeyState F W → Option (KeyState F W × KeyLoopOutcome))
        (r : Option (KeyState F W × Option KeyLoopOutcome))
        → KeptBy lb r
        → ((k : KeyState F W) → KeptBy k.lb (rest k))
        → KeptBy lb (after_key rest r)
    unfolding after_key
    after_key-KeptBy lb rest none s ih = tt
    after_key-KeptBy lb rest (some (k, none)) s ih = sooner lb k.lb (rest k) s (ih k)
    after_key-KeptBy lb rest (some (k, some o)) s ih = s

    key_loop-KeptBy :
        (ch : ChannelInfo) (keys : List Text) (k : KeyState F W)
        → KeptBy k.lb (key_loop fl up ch keys k)
    unfolding key_loop
    key_loop-KeptBy ch [] k = λ h. h
    key_loop-KeptBy ch (key ∷ keys) k =
        after_key-KeptBy k.lb (λ k'. key_loop fl up ch keys k') (one_key fl up ch key k)
          (one_key-KeptBy ch key k) (λ k'. key_loop-KeptBy ch keys k')

    run_key_loop-KeptBy :
        (ch : ChannelInfo) (counter : ℕ) (lb : LoadBalancerState F) (world : W)
        → KeptBy lb (run_key_loop fl up ch counter lb world)
    unfolding run_key_loop
    run_key_loop-KeptBy ch counter lb world =
        key_loop-KeptBy ch (api_key_attempts ch counter)
          (record { lb = lb; world = world; last_error = none; executed = 0; all_503 = true })

    retry_503-KeptBy :
        (lb : LoadBalancerState F) (ch : ChannelInfo) (counter : ℕ)
        (r : Option (KeyState F W × KeyLoopOutcome))
        → KeptBy lb r
        → KeptBy lb (retry_503 fl up ch counter r)
    unfolding retry_503
    retry_503-KeptBy lb ch counter none s = tt
    retry_503-KeptBy lb ch counter (some (k, o)) s =
        let breaker = Circuit.reset_channel k.lb.circuit_breaker ch.id in
        let lb' : LoadBalancerState F = record (k.lb) { circuit_breaker = breaker } in
        let again = run_key_loop fl up ch counter lb' (up.wait 2000000000 k.world) in
        choose_lem lb (should_retry_503 o) again (some (k, o))
          (sooner lb lb' again (λ e. swapped other later k.lb breaker (s e))
            (run_key_loop-KeptBy ch counter lb' (up.wait 2000000000 k.world)))
          s

    -- Whatever the keys of a channel meet, in one pass or two, every channel that was available
    -- before an attempt that does not panic is available after it, at every time.
    pub execute_channel-Stays :
        (ch : ChannelInfo) (counter : ℕ) (lb : LoadBalancerState F) (world : W) (k : KeyState F W)
        (o : KeyLoopOutcome)
        → execute_channel fl up ch counter lb world ≡ some (k, o)
        → is_channel_available lb other later ≡ true
        → is_channel_available k.lb other later ≡ true
    unfolding execute_channel
    execute_channel-Stays ch counter lb world k o e = subst (KeptBy lb) e (
        retry_503-KeptBy lb ch (counter + 1) (run_key_loop fl up ch counter lb world)
          (run_key_loop-KeptBy ch counter lb world))

    Uncharged : LoadBalancerState F → Option (LoadBalancerState F) → Type 0
    Uncharged lb r =
        (is_some r ≡ true)
        × (is_channel_available (get_or lb r) other later ≡ is_channel_available lb other later)

    charge-Uncharged :
        (lb : LoadBalancerState F) (id : Text) (now : ℕ) (class : ErrorClass)
        → is_upstream_class class ≡ false
        → Uncharged lb (charge fl up lb id now (some class))
    unfolding charge Uncharged
    charge-Uncharged lb id now key_retryable mild = (refl, refl)
    charge-Uncharged lb id now upstream_retryable mild = elim (true≢false mild) [ ]
    charge-Uncharged lb id now client mild =
        (refl, record_failure-is_channel_available fl lb id other false now later (inl refl))
    charge-Uncharged lb id now internal mild =
        (refl, record_failure-is_channel_available fl lb id other false now later (inl refl))

    -- An error whose class is not the upstream one never panics the feedback and shuts no channel
    -- out: whether it asks for another key or is the client one or internal, every channel
    -- answers as before.
    pub on_attempt_failed-is_channel_available :
        (lb : LoadBalancerState F) (id : Text) (e : ProxyError) (class : ErrorClass) (now : ℕ)
        → classify up.from_str e ≡ some class
        → is_upstream_class class ≡ false
        → let r = on_attempt_failed fl up lb id e now in
          (is_some r ≡ true)
          × (is_channel_available (get_or lb r) other later ≡ is_channel_available lb other later)
    unfolding on_attempt_failed Uncharged
    on_attempt_failed-is_channel_available lb id e class now is_class mild =
        subst (λ o. Uncharged lb (charge fl up lb id now o)) (sym is_class)
          (charge-Uncharged lb id now class mild)
