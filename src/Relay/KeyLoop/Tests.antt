-- ===== src/Relay/KeyLoop/Tests.antt =====
-- A channel with two keys under two upstreams: one answers 503 to both, one serves the second.
use galaxy_router.Base.{
  ℕ, ◌+◌, ◌-◌, ◌*◌, ◌/◌, ◌^◌, ◌≡◌, refl, inr, true, false, Option, none, some, [], ◌∷◌, ltb, leb,
  ◌==◌, if◌then◌else◌, get_or, is_some, Text, text, text_eq, new_map,
}
use galaxy_router.Base.Float.{Floats}
use galaxy_router.Errors.{key_retryable, ProxyError, upstream_error, classify}
use galaxy_router.Scheduler.Circuit as Circuit
use galaxy_router.Scheduler.LoadBalancer.{
  LoadBalancerState, is_channel_available, increment_active, decrement_active,
  ensure_channel_status,
}
use galaxy_router.Relay.Run.{Response, ok}
use galaxy_router.Relay.Channel.{ChannelInfo, key_hint, api_key_attempts}
use galaxy_router.Relay.KeyLoop.{
  Exchange, answered, Upstream, first_500, message_of, from_proxy_error, KeyLoopOutcome,
  key_success, should_retry_503, into_response, KeyState, after_key, conclude,
  execute_proxy_request, weigh_upstream, weigh_other, weigh, judge, use_key, one_key, key_loop,
  run_key_loop, retry_503, execute_channel, on_attempt_failed,
}
use galaxy_router.Base.Int.{pos}
use galaxy_router.Scheduler.Circuit.{default_config}
use galaxy_router.Scheduler.Sticky as Sticky
use galaxy_router.Scheduler.Metrics.{no_metrics}
use galaxy_router.Relay.Channel.{UpstreamApiKey, enabled_api_keys, keys_from}
use galaxy_router.Errors.{byte_len, slice_to, classify_upstream}
use galaxy_router.Relay.KeyLoop.Shutout.{
  execute_channel-Stays, on_attempt_failed-is_channel_available,
}
use galaxy_router.Relay.KeyLoop.Unavailable.{response_status, run_key_loop-503}

-- Thousandths, cut at 0, in the place of f64.
abbrev fixed : Floats
fixed = record {
  F = ℕ;
  of_nat = λ n. n * 1000;
  lit = λ n k. n * 1000 / 10 ^ k;
  add = λ a b. a + b;
  sub = λ a b. a - b;
  mul = λ a b. a * b / 1000;
  div = λ a b. a * 1000 / b;
  flt = λ a b. ltb a b;
  fle = λ a b. leb a b;
  feq = λ a b. a == b;
  is_nan = λ a. false;
}

abbrev lb : LoadBalancerState ℕ
lb = record {
  channel_states = new_map;
  sticky_manager = Sticky.new (pos 3600) 100;
  circuit_breaker = Circuit.new default_config;
  capacity_manager = new_map;
  scheduler_metrics = no_metrics;
  runtime_manager = new_map;
}

abbrev api_key : Text → UpstreamApiKey
api_key key = record { key = key; note = []; enabled = true }

abbrev ch : ChannelInfo
ch = record {
  id = text "ch-a";
  name = text "a";
  api_keys = api_key (text "k1") ∷ api_key (text "k2") ∷ [];
  models = text "m" ∷ [];
  timeout_secs = 300;
  max_concurrency = 4;
  failure_threshold = 3;
  endpoints = [];
  blacklist_minutes = pos 10;
}

-- The world is the time.
abbrev upstream : (Text → Exchange ℕ) → Upstream ℕ ℕ
upstream reply = record {
  from_str = λ s. none;
  show_status = λ status. text "503 Service Unavailable";
  clock = λ w. record { utc = w; instant = w };
  exchange = λ w c key. (w + 5, reply key);
  wait = λ ns w. w + ns;
}

abbrev busy : Text → Exchange ℕ
busy key = answered 503 (text "busy") 5000 (inr [])

abbrev second : Text → Exchange ℕ
second key =
    if text_eq key (text "k2")
    then answered 200 (text "hi") 5000 (inr (text "hi"))
    else answered 503 (text "busy") 5000 (inr [])

abbrev outcome_of : Option (KeyState ℕ ℕ × KeyLoopOutcome) → Option (Response Text)
outcome_of none = none
outcome_of (some (k, o)) = some (into_response o)

abbrev state_of : Option (KeyState ℕ ℕ × KeyLoopOutcome) → KeyState ℕ ℕ
state_of none = record { lb = lb; world = 0; last_error = none; executed = 0; all_503 = true }
state_of (some (k, o)) = k

abbrev end_of : Option (KeyState ℕ ℕ × KeyLoopOutcome) → KeyLoopOutcome
end_of none = key_success []
end_of (some (k, o)) = o

-- The first key is turned down and the second serves the request.
abbrev served_run : Option (KeyState ℕ ℕ × KeyLoopOutcome)
served_run = execute_channel fixed (upstream second) ch 0 lb 0

served : outcome_of served_run ≡ some (ok (text "hi"))
unfolding execute_channel retry_503 run_key_loop key_loop after_key one_key use_key
    execute_proxy_request conclude judge weigh weigh_upstream weigh_other key_hint api_key_attempts
    from_proxy_error message_of first_500 Circuit.is_tripped into_response enabled_api_keys
    keys_from text_eq byte_len Circuit.read_entry Circuit.new slice_to classify classify_upstream
    Circuit.record_failure decrement_active increment_active ensure_channel_status
served = refl

served_ends :
    execute_channel fixed (upstream second) ch 0 lb 0
    ≡ some (state_of served_run, end_of served_run)
unfolding execute_channel retry_503 run_key_loop key_loop after_key one_key use_key
    execute_proxy_request conclude judge weigh weigh_upstream weigh_other key_hint api_key_attempts
    from_proxy_error message_of first_500 Circuit.is_tripped into_response enabled_api_keys
    keys_from text_eq byte_len Circuit.read_entry Circuit.new slice_to classify classify_upstream
    Circuit.record_failure decrement_active increment_active ensure_channel_status
served_ends = refl

abbrev busy_run : Option (KeyState ℕ ℕ × KeyLoopOutcome)
busy_run = run_key_loop fixed (upstream busy) ch 0 lb 0

busy_ends : run_key_loop fixed (upstream busy) ch 0 lb 0 ≡ some (state_of busy_run, end_of busy_run)
unfolding execute_channel retry_503 run_key_loop key_loop after_key one_key use_key
    execute_proxy_request conclude judge weigh weigh_upstream weigh_other key_hint api_key_attempts
    from_proxy_error message_of first_500 Circuit.is_tripped into_response enabled_api_keys
    keys_from text_eq byte_len Circuit.read_entry Circuit.new slice_to classify classify_upstream
    Circuit.record_failure decrement_active increment_active ensure_channel_status
busy_ends = refl

busy_retries : should_retry_503 (end_of busy_run) ≡ true
unfolding execute_channel retry_503 run_key_loop key_loop after_key one_key use_key
    execute_proxy_request conclude judge weigh weigh_upstream weigh_other key_hint api_key_attempts
    from_proxy_error message_of first_500 Circuit.is_tripped into_response enabled_api_keys
    keys_from text_eq byte_len Circuit.read_entry Circuit.new slice_to classify classify_upstream
    Circuit.record_failure decrement_active increment_active ensure_channel_status
busy_retries = refl

run_key_loop-503_example : response_status (into_response (end_of busy_run)) ≡ some 503
run_key_loop-503_example =
    run_key_loop-503 fixed (upstream busy) ch 0 lb 0 (state_of busy_run) (end_of busy_run) busy_ends
      busy_retries

execute_channel-Stays_example :
    is_channel_available (state_of served_run).lb (text "ch-a") 100 ≡ true
unfolding is_channel_available
execute_channel-Stays_example =
    execute_channel-Stays fixed (text "ch-a") 100 (upstream second) ch 0 lb 0 (state_of served_run)
      (end_of served_run) served_ends refl

abbrev limited_error : ProxyError
limited_error = upstream_error 429 (text "slow down")

on_attempt_failed-is_channel_available_example :
    let r = on_attempt_failed fixed (upstream second) lb (text "ch-a") limited_error 100 in
    (is_some r ≡ true)
    × (is_channel_available (get_or lb r) (text "ch-a") 200
        ≡ is_channel_available lb (text "ch-a") 200)
unfolding classify classify_upstream
on_attempt_failed-is_channel_available_example =
    on_attempt_failed-is_channel_available fixed (text "ch-a") 200 (upstream second) lb
      (text "ch-a") limited_error key_retryable 100 refl refl
