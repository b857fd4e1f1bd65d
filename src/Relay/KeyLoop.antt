-- ===== src/Relay/KeyLoop.antt =====
-- src/llm/relay/executor/mod.rs and executor/outcome.rs: one attempt on a channel, key after key. What
-- goes over the network, the clock and the waits are an interface over a world. `none` is a panic. The log is
-- left out, although it slices the body of an error as well.
pub mod Exchanges
pub mod Shutout
pub mod Unavailable
mod Tests
use galaxy_router.Base.{
  ℕ, zero, suc, ◌+◌, ◌-◌, ◌*◌, ◌/◌, ◌%◌, ◌^◌, ◌≤◌, ◌<◌, min, max, ◌≡◌, refl, sym, ap, subst, ◌∙◌,
  fun_ext, ◌≢◌, ◌↔◌, ◌⊎◌, inl, inr, Bool, true, false, not, ◌&&◌, ◌||◌, Option, none, some, List,
  [], ◌∷◌, ◌++◌, map, arith, ltb, leb, ◌==◌, if◌then◌else◌, ltb→lt, lt→ltb, leb→le, le→leb, lt→leb,
  ==_iff, tests, Bool-cases, Option-cases, get_or, is_some, length, get_elem?, take, replicate,
  filter, find, any, count, All, length-append, length-replicate, count-append, length-filter-le,
  All-append, find-passes, any-find, Text, text, text_eq, text_eq_iff, text_eq_self, text_ne,
  starts_with, contains, to_ascii_lowercase, starts_with-append, Map, keep_if, map_some, new_map,
  insert, alter, retain,
}
use galaxy_router.Base.Json.{Value, index, as_str}
use galaxy_router.Errors.{
  utf8_width, byte_len, slice_to, error_message, truncate_body, parsed_message, prefer, ErrorClass,
  key_retryable, upstream_retryable, client, internal, ProxyError, database_error,
  channel_not_found, no_available_channel, model_not_supported, model_not_found, request_error,
  transform_error, upstream_error, key_needles, is_key_status, is_server_error, has_needle,
  classify_body, map_class, sanitize_upstream_error, classify_upstream, classify,
  render_status_and_message, is_key_class, status_or_bad_gateway, from_relay_outcome,
}
use galaxy_router.Base.Float.{Floats}
use galaxy_router.Scheduler.Circuit as Circuit
use galaxy_router.Scheduler.Status.{Clock}
use galaxy_router.Scheduler.LoadBalancer.{
  LoadBalancerState, is_channel_available, increment_active, decrement_active, record_failure,
  record_success, ensure_channel_status,
}
use galaxy_router.Relay.Run.{RelayAttemptError, plain_error, Response, ok, err, RelayAttemptResult}
use galaxy_router.Relay.Channel.{ChannelInfo, key_hint, api_key_attempts}

-- What comes of one exchange with an upstream: preparing it failed, the network failed, or it was
-- answered, with a status, a body, a latency, and the body or error that conversion makes of it.
pub data Exchange (F : Type 0) : Type 0 where
  not_prepared : ProxyError → Exchange F
  unreachable : Text → Exchange F
  answered : ℕ → Text → F → (ProxyError ⊎ Text) → Exchange F

pub record Upstream (F W : Type 0) : Type 0 where
  pub from_str : Text → Option Value
  pub show_status : ℕ → Text
  pub clock : W → Clock
  pub exchange : W → ChannelInfo → Text → W × Exchange F
  pub wait : ℕ → W → W

-- `StatusCode::is_success`.
abbrev pub is_success : ℕ → Bool
is_success status = leb 200 status && ltb status 300

-- `&body[..body.len().min(500)]`.
unfoldable pub first_500 : Text → Option Text
first_500 body = slice_to (min 500 (byte_len body)) body

-- The status and the message of `RelayAttemptError::from_proxy_error`.
unfoldable pub status_of : ProxyError → ℕ
status_of (upstream_error status body) = status
status_of (no_available_channel m) = 503
status_of (model_not_supported m) = 400
status_of (model_not_found m) = 404
status_of (database_error m) = 500
status_of (channel_not_found m) = 404
status_of (request_error m) = 502
status_of (transform_error m) = 500

unfoldable pub message_of : (ℕ → Text) → ProxyError → Option Text
message_of show (upstream_error status body) =
    map_some {V = Text} (λ s. text "上游错误: " ++ show status ++ text " " ++ s) (first_500 body)
message_of show (database_error m) = some (text "数据库错误: " ++ m)
message_of show (channel_not_found m) = some (text "渠道不存在: " ++ m)
message_of show (no_available_channel m) = some (text "没有可用渠道: " ++ m)
message_of show (model_not_supported m) = some (text "模型不支持: " ++ m)
message_of show (model_not_found m) = some (text "模型不存在: " ++ m)
message_of show (request_error m) = some (text "请求失败: " ++ m)
message_of show (transform_error m) = some (text "转换失败: " ++ m)

unfoldable pub from_proxy_error : (ℕ → Text) → ProxyError → Option RelayAttemptError
from_proxy_error show e = elim (message_of show e) [
  | none ↦ none
  | some message ↦
      some (record { status_code = status_of e; message = message; proxy_error = some e })
]

pub data KeyLoopOutcome : Type 0 where
  key_success : Text → KeyLoopOutcome
  non_key_retryable : RelayAttemptError → KeyLoopOutcome
  all_keys_tried : Option RelayAttemptError → Bool → KeyLoopOutcome

abbrev pub should_retry_503 : KeyLoopOutcome → Bool
should_retry_503 (all_keys_tried last_error all_503) = all_503
should_retry_503 _ = false

unfoldable pub into_response : KeyLoopOutcome → Response Text
into_response (key_success body) = ok body
into_response (non_key_retryable e) = err e
into_response (all_keys_tried (some e) all_503) = err e
into_response (all_keys_tried none all_503) = err (plain_error 500 (text "all api keys exhausted"))

-- `into_result`, and the time that the attempt took.
unfoldable pub into_result : KeyLoopOutcome → ℕ → RelayAttemptResult Text
unfolding into_response
into_result o elapsed = record {
  response = into_response o;
  response_written = false;
  elapsed_ms = elapsed;
}

-- The variables of the loop over the keys, with what it shares.
pub record KeyState (F W : Type 0) : Type 0 where
  pub lb : LoadBalancerState F
  pub world : W
  pub last_error : Option RelayAttemptError
  pub executed : ℕ  -- u32
  pub all_503 : Bool

-- What follows a key: the next one, or the outcome. A panic ends everything.
unfoldable pub after_key :
    {K : Type 0}
    → (K → Option (K × KeyLoopOutcome))
    → Option (K × Option KeyLoopOutcome)
    → Option (K × KeyLoopOutcome)
after_key rest none = none
after_key rest (some (k, none)) = rest k
after_key rest (some (k, some o)) = some (k, o)

-- `matches!(error.classify(), ErrorClass::UpstreamRetryable)`.
abbrev pub is_upstream_class : ErrorClass → Bool
is_upstream_class upstream_retryable = true
is_upstream_class _ = false

module _ (fl : Floats) {W : Type 0} (up : Upstream fl.F W) where
  open fl use {F}

  -- The part of `execute_proxy_request` behind the exchange; the guard counts down at its end.
  unfoldable pub conclude :
      LoadBalancerState F
      → Text
      → Text
      → Clock
      → Exchange F
      → Option (LoadBalancerState F × (ProxyError ⊎ Text))
  conclude lb id hint now (not_prepared e) = some (decrement_active lb id, inl e)
  conclude lb id hint now (unreachable m) = some (decrement_active lb id, inl (request_error m))
  conclude lb id hint now (answered status body latency converted) =
      let lb' = record_success fl lb id latency now in
      let breaker = Circuit.record_success lb'.circuit_breaker id hint in
      if is_success status
      then some (decrement_active (record lb' { circuit_breaker = breaker }) id, converted)
      else elim (first_500 body) [
        | none ↦ none
        | some shown ↦ some (decrement_active lb id, inl (upstream_error status body))
      ]

  unfoldable pub execute_proxy_request :
      LoadBalancerState F
      → W
      → ChannelInfo
      → Text
      → Text
      → W × Option (LoadBalancerState F × (ProxyError ⊎ Text))
  execute_proxy_request lb world ch key hint =
      let known =
        ensure_channel_status fl lb ch.id ch.max_concurrency ch.failure_threshold
          ch.blacklist_minutes (up.clock world) in
      let (world', x) = up.exchange world ch key in
      (world', conclude (increment_active known ch.id) ch.id hint (up.clock world') x)

  -- `Err(ProxyError::UpstreamError { .. })`, with the error and its class.
  unfoldable pub weigh_upstream :
      ChannelInfo
      → Text
      → KeyState F W
      → ℕ
      → Option RelayAttemptError
      → Option ErrorClass
      → Option (KeyState F W × Option KeyLoopOutcome)
  weigh_upstream ch hint k status (some e) (some class) =
      let k' : KeyState F W = record k {
        executed = (k.executed + 1) % 4294967296;
        all_503 = if status == 503 then k.all_503 else false;
      } in
      let breaker =
        Circuit.record_failure k.lb.circuit_breaker ch.id hint (up.clock k.world).instant in
      if is_key_class class
      then some (
        record k' { lb = record (k.lb) { circuit_breaker = breaker }; last_error = some e },
        none,
      )
      else some (k', some (non_key_retryable e))
  weigh_upstream ch hint k status _ _ = none

  unfoldable pub weigh_other :
      KeyState F W → Option RelayAttemptError → Option (KeyState F W × Option KeyLoopOutcome)
  weigh_other k none = none
  weigh_other k (some e) = some (k, some (non_key_retryable e))

  unfoldable pub weigh :
      ChannelInfo → Text → KeyState F W → ProxyError → Option (KeyState F W × Option KeyLoopOutcome)
  weigh ch hint k (upstream_error status body) =
      let e = upstream_error status body in
      weigh_upstream ch hint k status (from_proxy_error up.show_status e) (classify up.from_str e)
  weigh ch hint k e = weigh_other k (from_proxy_error up.show_status e)

  -- `match result`.
  unfoldable pub judge :
      ChannelInfo
      → Text
      → KeyState F W
      → W
      → Option (LoadBalancerState F × (ProxyError ⊎ Text))
      → Option (KeyState F W × Option KeyLoopOutcome)
  judge ch hint k world none = none
  judge ch hint k world (some (lb, inr body)) =
      some (record k { lb = lb; world = world }, some (key_success body))
  judge ch hint k world (some (lb, inl e)) = weigh ch hint (record k { lb = lb; world = world }) e

  unfoldable pub use_key :
      ChannelInfo → Text → Text → KeyState F W → Option (KeyState F W × Option KeyLoopOutcome)
  use_key ch key hint k =
      let asked = Circuit.is_tripped k.lb.circuit_breaker ch.id hint (up.clock k.world).instant in
      let lb = record (k.lb) { circuit_breaker = asked.0 } in
      let sent = execute_proxy_request lb k.world ch key hint in
      if asked.1 then some (record k { lb = lb }, none) else judge ch hint k sent.0 sent.1

  unfoldable pub one_key :
      ChannelInfo → Text → KeyState F W → Option (KeyState F W × Option KeyLoopOutcome)
  one_key ch key k = elim (key_hint ch key) [ none ↦ none | some hint ↦ use_key ch key hint k ]

  unfoldable pub key_loop :
      ChannelInfo → List Text → KeyState F W → Option (KeyState F W × KeyLoopOutcome)
  key_loop ch [] k = some (k, all_keys_tried k.last_error (ltb 0 k.executed && k.all_503))
  key_loop ch (key ∷ keys) k = after_key (λ k'. key_loop ch keys k') (one_key ch key k)

  -- The counter is that of the keys' rotation.
  unfoldable pub run_key_loop :
      ChannelInfo → ℕ → LoadBalancerState F → W → Option (KeyState F W × KeyLoopOutcome)
  run_key_loop ch counter lb world =
      key_loop ch (api_key_attempts ch counter)
        (record { lb = lb; world = world; last_error = none; executed = 0; all_503 = true })

  -- `execute`, behind `build_selection`: one more pass, 2 s later, where every key got a 503.
  unfoldable pub retry_503 :
      ChannelInfo
      → ℕ
      → Option (KeyState F W × KeyLoopOutcome)
      → Option (KeyState F W × KeyLoopOutcome)
  retry_503 ch counter none = none
  retry_503 ch counter (some (k, o)) =
      let breaker = Circuit.reset_channel k.lb.circuit_breaker ch.id in
      let again =
        run_key_loop ch counter (record (k.lb) { circuit_breaker = breaker })
          (up.wait 2000000000 k.world) in
      if should_retry_503 o then again else some (k, o)

  unfoldable pub execute_channel :
      ChannelInfo → ℕ → LoadBalancerState F → W → Option (KeyState F W × KeyLoopOutcome)
  execute_channel ch counter lb world =
      retry_503 ch (counter + 1) (run_key_loop ch counter lb world)

  -- The error's class decides what the channel is charged with.
  unfoldable pub charge :
      LoadBalancerState F → Text → ℕ → Option ErrorClass → Option (LoadBalancerState F)
  charge lb id now none = none
  charge lb id now (some class) =
      some
        (if is_key_class class then lb else record_failure fl lb id (is_upstream_class class) now)

  unfoldable pub on_attempt_failed :
      LoadBalancerState F → Text → ProxyError → ℕ → Option (LoadBalancerState F)
  on_attempt_failed lb id e now = charge lb id now (classify up.from_str e)
