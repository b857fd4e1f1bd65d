-- ===== src/Scheduler/Runtime.antt =====
-- src/llm/scheduler/runtime.rs: moving averages of each channel. The mutex is never poisoned, since
-- no section that it guards panics.
use galaxy_router.Base.{ℕ, ◌+◌, ◌%◌, Option, none, some, if◌then◌else◌, get_or, Text, Map, insert}
use galaxy_router.Base.Float.{Floats, fmin, fmax}

pub record ChannelRuntimeStats (F : Type 0) : Type 0 where
  pub error_ewma : F
  pub latency_ewma : F
  pub ttft_ewma : F
  pub health : F
  pub request_count : ℕ  -- u64

module _ (fl : Floats) where
  open fl use {F, lit, of_nat, add, sub, mul, feq}

  unfoldable pub default_stats : ChannelRuntimeStats F
  default_stats = record {
    error_ewma = of_nat 0;
    latency_ewma = of_nat 0;
    ttft_ewma = of_nat 0;
    health = of_nat 1;
    request_count = 0;
  }

  -- ERROR_ALPHA is 0.3, LATENCY_ALPHA is 0.2; `update_latency_ewma` and `update_ttft_ewma`.
  unfoldable pub update_ewma : F → F → F
  update_ewma old sample =
      if feq old (of_nat 0)
      then sample
      else add (mul (lit 2 1) sample) (mul (sub (of_nat 1) (lit 2 1)) old)

  abbrev pub ttft_update : Option F → F → F
  ttft_update none old = old
  ttft_update (some ttft) old = update_ewma old ttft

  abbrev pub count_request : ℕ → ℕ
  count_request n = (n + 1) % 18446744073709551616

  unfoldable pub stats_success : ChannelRuntimeStats F → F → Option F → ChannelRuntimeStats F
  unfolding update_ewma
  stats_success s latency_ms ttft_ms = record s {
    error_ewma = mul s.error_ewma (sub (of_nat 1) (lit 3 1));
    latency_ewma = update_ewma s.latency_ewma latency_ms;
    ttft_ewma = ttft_update ttft_ms s.ttft_ewma;
    request_count = count_request s.request_count;
  }

  unfoldable pub stats_failure : ChannelRuntimeStats F → ChannelRuntimeStats F
  stats_failure s = record s {
    error_ewma = add (lit 3 1) (mul (sub (of_nat 1) (lit 3 1)) s.error_ewma);
    request_count = count_request s.request_count;
  }

  -- HEALTH_RECOVERY is 0.2, HEALTH_PENALTY is 0.3.
  unfoldable pub stats_monitor_success : ChannelRuntimeStats F → ChannelRuntimeStats F
  stats_monitor_success s = record s { health = fmin fl (add s.health (lit 2 1)) (of_nat 1) }

  unfoldable pub stats_monitor_failure : ChannelRuntimeStats F → ChannelRuntimeStats F
  stats_monitor_failure s = record s { health = fmax fl (sub s.health (lit 3 1)) (of_nat 0) }

  -- `stats.entry(id).or_default()` and an update.
  unfoldable pub update_stats :
      Text
      → (ChannelRuntimeStats F → ChannelRuntimeStats F)
      → Map (ChannelRuntimeStats F)
      → Map (ChannelRuntimeStats F)
  update_stats channel_id f stats =
      insert channel_id (f (get_or default_stats (stats channel_id))) stats

  unfoldable pub get_stats : Map (ChannelRuntimeStats F) → Text → ChannelRuntimeStats F
  get_stats stats channel_id = get_or default_stats (stats channel_id)
