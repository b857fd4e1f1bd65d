-- ===== src/Relay/KeyLoop/Unavailable.antt =====
-- When a channel is tried a second time (executor/mod.rs, run_key_loop).
use galaxy_router.Base.{
  ℕ, ◌+◌, ◌%◌, ◌≡◌, refl, ap, subst, ◌⊎◌, inl, inr, Bool, true, false, ◌&&◌, Option, none, some,
  List, [], ◌∷◌, arith, ltb, ◌==◌, if◌then◌else◌, Text,
}
use mathlib.Core.Bool.{false≢true}
use galaxy_router.Base.Float.{Floats}
use galaxy_router.Errors.{
  ErrorClass, ProxyError, database_error, channel_not_found, no_available_channel,
  model_not_supported, model_not_found, request_error, transform_error, upstream_error,
  is_key_class, classify,
}
use galaxy_router.Scheduler.Circuit as Circuit
use galaxy_router.Scheduler.LoadBalancer.{LoadBalancerState}
use galaxy_router.Relay.Run.{RelayAttemptError, Response, ok, err}
use galaxy_router.Relay.Channel.{ChannelInfo, key_hint, api_key_attempts}
use galaxy_router.Relay.KeyLoop.{
  Upstream, status_of, message_of, from_proxy_error, KeyLoopOutcome, key_success, non_key_retryable,
  all_keys_tried, should_retry_503, into_response, KeyState, after_key, execute_proxy_request,
  weigh_upstream, weigh_other, weigh, judge, use_key, one_key, key_loop, run_key_loop,
}
use galaxy_router.Errors.{is_key_class}

abbrev pub error_status : Option RelayAttemptError → Option ℕ
error_status none = none
error_status (some e) = some e.status_code

abbrev pub response_status : Response Text → Option ℕ
response_status (ok body) = none
response_status (err e) = some e.status_code

OfStatus : ℕ → Option RelayAttemptError → Type 0
OfStatus status none = Unit
OfStatus status (some e) = e.status_code ≡ status

from_proxy_error-OfStatus :
    (show : ℕ → Text) (e : ProxyError) → OfStatus (status_of e) (from_proxy_error show e)
unfolding from_proxy_error OfStatus
from_proxy_error-OfStatus show e = built (message_of show e)
  where
    built :
        (o : Option Text)
        → OfStatus (status_of e) (elim o [
          | none ↦ none
          | some message ↦
              some (record { status_code = status_of e; message = message; proxy_error = some e })
        ])
    built none = tt
    built (some message) = refl

-- Where every key that was tried got a 503, so did the last one.
abbrev Outcome503 : KeyLoopOutcome → Type 0
Outcome503 (key_success body) = Unit
Outcome503 (non_key_retryable e) = Unit
Outcome503 (all_keys_tried last_error all_503) = all_503 ≡ true → error_status last_error ≡ some 503

flag_status :
    (status executed : ℕ) (all_503 : Bool) (e : RelayAttemptError)
    → e.status_code ≡ status
    → (ltb 0 executed && (if status == 503 then all_503 else false)) ≡ true
    → e.status_code ≡ 503
flag_status status executed all_503 e same flag = ground (arith, same, flag)

module _ {F W : Type 0} where
  abbrev Flag503 : KeyState F W → Type 0
  Flag503 k = (ltb 0 k.executed && k.all_503) ≡ true → error_status k.last_error ≡ some 503

  abbrev After503 : Option (KeyState F W × Option KeyLoopOutcome) → Type 0
  After503 none = Unit
  After503 (some (k, none)) = Flag503 k
  After503 (some (k, some o)) = Outcome503 o

  abbrev Ended503 : Option (KeyState F W × KeyLoopOutcome) → Type 0
  Ended503 none = Unit
  Ended503 (some (k, o)) = Outcome503 o

  after_if :
      (b : Bool) (x y : Option (KeyState F W × Option KeyLoopOutcome))
      → After503 x
      → After503 y
      → After503 (if b then x else y)
  after_if true x y hx hy = hx
  after_if false x y hx hy = hy

  after_key-503 :
      (rest : KeyState F W → Option (KeyState F W × KeyLoopOutcome))
      (r : Option (KeyState F W × Option KeyLoopOutcome))
      → After503 r
      → ((k : KeyState F W) → Flag503 k → Ended503 (rest k))
      → Ended503 (after_key rest r)
  unfolding after_key
  after_key-503 rest none s ih = tt
  after_key-503 rest (some (k, none)) s ih = ih k s
  after_key-503 rest (some (k, some o)) s ih = s

module _ (fl : Floats) {W : Type 0} (up : Upstream fl.F W) where
  open fl use {F}

  weigh_upstream-503 :
      (ch : ChannelInfo) (hint : Text) (k : KeyState F W) (status : ℕ)
      (e : Option RelayAttemptError) (class : Option ErrorClass)
      → OfStatus status e
      → After503 (weigh_upstream fl up ch hint k status e class)
  unfolding weigh_upstream OfStatus
  weigh_upstream-503 ch hint k status none class same = tt
  weigh_upstream-503 ch hint k status (some e) none same = tt
  weigh_upstream-503 ch hint k status (some e) (some class) same =
      let k' : KeyState F W = record k {
        executed = (k.executed + 1) % 4294967296;
        all_503 = if status == 503 then k.all_503 else false;
      } in
      let breaker =
        Circuit.record_failure k.lb.circuit_breaker ch.id hint (up.clock k.world).instant in
      after_if (is_key_class class)
        (some (
          record k' { lb = record (k.lb) { circuit_breaker = breaker }; last_error = some e },
          none,
        ))
        (some (k', some (non_key_retryable e)))
        (λ flag. ap (λ n. some n) (flag_status status k'.executed k.all_503 e same flag)) tt

  weigh_other-503 :
      (k : KeyState F W) (e : Option RelayAttemptError) → After503 (weigh_other fl up k e)
  unfolding weigh_other
  weigh_other-503 k none = tt
  weigh_other-503 k (some e) = tt

  weigh-503 :
      (ch : ChannelInfo) (hint : Text) (k : KeyState F W) (e : ProxyError)
      → After503 (weigh fl up ch hint k e)
  unfolding weigh status_of
  weigh-503 ch hint k (upstream_error status body) =
      let e = upstream_error status body in
      weigh_upstream-503 ch hint k status (from_proxy_error up.show_status e)
        (classify up.from_str e) (from_proxy_error-OfStatus up.show_status e)
  weigh-503 ch hint k (database_error m) =
      weigh_other-503 k (from_proxy_error up.show_status (database_error m))
  weigh-503 ch hint k (channel_not_found m) =
      weigh_other-503 k (from_proxy_error up.show_status (channel_not_found m))
  weigh-503 ch hint k (no_available_channel m) =
      weigh_other-503 k (from_proxy_error up.show_status (no_available_channel m))
  weigh-503 ch hint k (model_not_supported m) =
      weigh_other-503 k (from_proxy_error up.show_status (model_not_supported m))
  weigh-503 ch hint k (model_not_found m) =
      weigh_other-503 k (from_proxy_error up.show_status (model_not_found m))
  weigh-503 ch hint k (request_error m) =
      weigh_other-503 k (from_proxy_error up.show_status (request_error m))
  weigh-503 ch hint k (transform_error m) =
      weigh_other-503 k (from_proxy_error up.show_status (transform_error m))

  judge-503 :
      (ch : ChannelInfo) (hint : Text) (k : KeyState F W) (world : W)
      (r : Option (LoadBalancerState F × (ProxyError ⊎ Text)))
      → After503 (judge fl up ch hint k world r)
  unfolding judge
  judge-503 ch hint k world none = tt
  judge-503 ch hint k world (some (lb, inr body)) = tt
  judge-503 ch hint k world (some (lb, inl e)) =
      weigh-503 ch hint (record k { lb = lb; world = world }) e

  one_key-503 :
      (ch : ChannelInfo) (key : Text) (k : KeyState F W)
      → Flag503 k
      → After503 (one_key fl up ch key k)
  unfolding one_key use_key
  one_key-503 ch key k flag = with_hint (key_hint ch key)
    where
      with_hint :
          (h : Option Text)
          → After503 (elim h [ none ↦ none | some hint ↦ use_key fl up ch key hint k ])
      with_hint none = tt
      with_hint (some hint) =
          let asked =
            Circuit.is_tripped k.lb.circuit_breaker ch.id hint (up.clock k.world).instant in
          let lb : LoadBalancerState F = record (k.lb) { circuit_breaker = asked.0 } in
          let sent = execute_proxy_request fl up lb k.world ch key hint in
          after_if asked.1 (some (record k { lb = lb }, none)) (judge fl up ch hint k sent.0 sent.1)
            flag (judge-503 ch hint k sent.0 sent.1)

  key_loop-503 :
      (ch : ChannelInfo) (keys : List Text) (k : KeyState F W)
      → Flag503 k
      → Ended503 (key_loop fl up ch keys k)
  unfolding key_loop
  key_loop-503 ch [] k flag = flag
  key_loop-503 ch (key ∷ keys) k flag =
      after_key-503 (λ k'. key_loop fl up ch keys k') (one_key fl up ch key k)
        (one_key-503 ch key k flag) (λ k' flag'. key_loop-503 ch keys k' flag')

  answers_503 :
      (o : KeyLoopOutcome)
      → Outcome503 o
      → should_retry_503 o ≡ true
      → response_status (into_response o) ≡ some 503
  unfolding into_response
  answers_503 (key_success body) s retry = elim (false≢true retry) [ ]
  answers_503 (non_key_retryable e) s retry = elim (false≢true retry) [ ]
  answers_503 (all_keys_tried (some e) all_503) s retry = s retry
  answers_503 (all_keys_tried none all_503) s retry = ground (arith, s retry)

  -- A pass over the keys that ends without a panic and asks for a second one would itself be
  -- answered with a 503: the last key that was tried got that status.
  pub run_key_loop-503 :
      (ch : ChannelInfo) (counter : ℕ) (lb : LoadBalancerState F) (world : W) (k : KeyState F W)
      (o : KeyLoopOutcome)
      → run_key_loop fl up ch counter lb world ≡ some (k, o)
      → should_retry_503 o ≡ true
      → response_status (into_response o) ≡ some 503
  unfolding run_key_loop
  run_key_loop-503 ch counter lb world k o e = answers_503 o (
      subst Ended503 e (
        key_loop-503 ch (api_key_attempts ch counter)
          (record { lb = lb; world = world; last_error = none; executed = 0; all_503 = true })
          (λ flag. elim (false≢true flag) [ ])))
