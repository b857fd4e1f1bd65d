-- ===== src/Scheduler/LoadBalancer.antt =====
-- src/llm/scheduler/state/mod.rs: what the scheduler remembers. The locks are write locks that are
-- held for one section each, so a method is a function of the state; the clocks are arguments.
pub mod Blacklist
pub mod Cleanup
mod Tests
use galaxy_router.Base.{
  ℕ, zero, suc, ◌+◌, ◌-◌, ◌*◌, ◌/◌, ◌%◌, ◌^◌, ◌≤◌, ◌<◌, min, max, ◌≡◌, refl, sym, ap, subst, ◌∙◌,
  fun_ext, ◌≢◌, ◌↔◌, ◌⊎◌, inl, inr, Bool, true, false, not, ◌&&◌, ◌||◌, Option, none, some, List,
  [], ◌∷◌, ◌++◌, map, arith, ltb, leb, ◌==◌, if◌then◌else◌, ltb→lt, lt→ltb, leb→le, le→leb, lt→leb,
  ==_iff, tests, Bool-cases, Option-cases, get_or, is_some, length, get_elem?, take, replicate,
  filter, find, any, count, All, length-append, length-replicate, count-append, length-filter-le,
  All-append, find-passes, any-find, Text, text, text_eq, text_eq_iff, text_eq_self, text_ne,
  starts_with, contains, to_ascii_lowercase, starts_with-append, Map, keep_if, map_some, new_map,
  insert, alter, retain,
}
use galaxy_router.Base.Int.{ℤ, pos, negsuc}
use galaxy_router.Base.Float.{Floats}
use galaxy_router.Scheduler.Circuit.{CircuitBreaker, default_config}
use galaxy_router.Scheduler.Circuit as Circuit
use galaxy_router.Scheduler.Capacity.{ChannelCapacityManager}
use galaxy_router.Scheduler.Status.{ChannelStatus, Clock}
use galaxy_router.Scheduler.Status as Status
use galaxy_router.Scheduler.Sticky.{StickySessionManager}
use galaxy_router.Scheduler.Sticky as Sticky
use galaxy_router.Scheduler.Metrics.{SchedulerMetrics, no_metrics, record_selection}
use galaxy_router.Scheduler.Runtime.{
  ChannelRuntimeStats, stats_success, stats_failure, stats_monitor_success, stats_monitor_failure,
  update_stats, get_stats,
}

pub record LoadBalancerState (F : Type 0) : Type 0 where
  pub channel_states : Map (ChannelStatus F)
  pub sticky_manager : StickySessionManager
  pub circuit_breaker : CircuitBreaker
  pub capacity_manager : ChannelCapacityManager
  pub scheduler_metrics : SchedulerMetrics
  pub runtime_manager : Map (ChannelRuntimeStats F)

module _ {F : Type 0} where
  -- The failure of a channel, which may shut it out.
  unfoldable pub fail_status : Bool → ℕ → ChannelStatus F → ChannelStatus F
  fail_status should_blacklist now s =
      let s' : ChannelStatus F = Status.record_failure s now in
      if should_blacklist && leb s'.blacklist_threshold s'.failure_count
      then Status.blacklist s' s'.blacklist_minutes now
      else s'

  abbrev pub status_available : Option (ChannelStatus F) → ℕ → Bool
  status_available none now = true
  status_available (some s) now = Status.is_available s now

  unfoldable pub is_channel_available : LoadBalancerState F → Text → ℕ → Bool
  is_channel_available lb channel_id now = status_available (lb.channel_states channel_id) now

  -- The settings of the channels table, copied into the status.
  abbrev pub configure : ℕ → ℕ → ℤ → ChannelStatus F → ChannelStatus F
  configure max_concurrency failure_threshold blacklist_minutes s = record s {
    max_concurrency = max_concurrency;
    blacklist_threshold = failure_threshold;
    blacklist_minutes = blacklist_minutes;
  }

  unfoldable pub record_scheduler_selection :
      LoadBalancerState F → Text → Bool → Option Text → LoadBalancerState F
  record_scheduler_selection lb selected was_sticky sticky_id = record lb {
    scheduler_metrics = record_selection lb.scheduler_metrics selected was_sticky sticky_id;
  }

  unfoldable pub increment_active : LoadBalancerState F → Text → LoadBalancerState F
  increment_active lb channel_id = record lb {
    channel_states = alter channel_id Status.increment_active lb.channel_states;
  }

  unfoldable pub decrement_active : LoadBalancerState F → Text → LoadBalancerState F
  decrement_active lb channel_id = record lb {
    channel_states = alter channel_id Status.decrement_active lb.channel_states;
  }

  unfoldable pub get_sticky_session : LoadBalancerState F → Text → ℕ → Option Text
  get_sticky_session lb session_hash now = Sticky.get_session lb.sticky_manager session_hash now

  unfoldable pub set_sticky_session : LoadBalancerState F → Text → Text → ℕ → LoadBalancerState F
  set_sticky_session lb session_hash channel_id now = record lb {
    sticky_manager = Sticky.set_session lb.sticky_manager session_hash channel_id now;
  }

  unfoldable pub cleanup_expired_sessions : LoadBalancerState F → ℕ → LoadBalancerState F
  cleanup_expired_sessions lb now = record lb {
    sticky_manager = Sticky.cleanup_expired lb.sticky_manager now;
  }

  -- A blacklisting with a time that has come is lifted.
  abbrev pub lift_expired : ℕ → ChannelStatus F → ChannelStatus F
  lift_expired now s =
      if s.is_blacklisted && Status.passed s.blacklist_until now
      then record s { is_blacklisted = false; blacklist_until = none; failure_count = 0 }
      else s

  unfoldable pub cleanup_expired_blacklists : LoadBalancerState F → ℕ → LoadBalancerState F
  cleanup_expired_blacklists lb now = record lb {
    channel_states = λ id. map_some (lift_expired now) (lb.channel_states id);
  }

module _ (fl : Floats) where
  open fl use {F}

  unfoldable pub new : StickySessionManager → LoadBalancerState F
  new sticky_manager = record {
    channel_states = new_map;
    sticky_manager = sticky_manager;
    circuit_breaker = Circuit.new default_config;
    capacity_manager = new_map;
    scheduler_metrics = no_metrics;
    runtime_manager = new_map;
  }

  unfoldable pub record_failure : LoadBalancerState F → Text → Bool → ℕ → LoadBalancerState F
  record_failure lb channel_id should_blacklist now = record lb {
    channel_states = alter channel_id (fail_status should_blacklist now) lb.channel_states;
    runtime_manager = update_stats fl channel_id (stats_failure fl) lb.runtime_manager;
  }

  unfoldable pub record_success_with_ttft :
      LoadBalancerState F → Text → F → Option F → Clock → LoadBalancerState F
  record_success_with_ttft lb channel_id latency_ms ttft_ms now = record lb {
    channel_states =
        alter channel_id (λ s. Status.record_success fl s latency_ms now) lb.channel_states;
    runtime_manager =
        update_stats fl channel_id (λ s. stats_success fl s latency_ms ttft_ms) lb.runtime_manager;
  }

  unfoldable pub record_success : LoadBalancerState F → Text → F → Clock → LoadBalancerState F
  unfolding record_success_with_ttft
  record_success lb channel_id latency_ms now =
      record_success_with_ttft lb channel_id latency_ms none now

  unfoldable pub record_monitor_success : LoadBalancerState F → Text → LoadBalancerState F
  record_monitor_success lb channel_id = record lb {
    runtime_manager = update_stats fl channel_id (stats_monitor_success fl) lb.runtime_manager;
  }

  unfoldable pub record_monitor_failure : LoadBalancerState F → Text → LoadBalancerState F
  record_monitor_failure lb channel_id = record lb {
    runtime_manager = update_stats fl channel_id (stats_monitor_failure fl) lb.runtime_manager;
  }

  unfoldable pub runtime_stats : LoadBalancerState F → Text → ChannelRuntimeStats F
  runtime_stats lb channel_id = get_stats fl lb.runtime_manager channel_id

  unfoldable pub ensured : Text → ℕ → ℕ → ℤ → Clock → Option (ChannelStatus F) → ChannelStatus F
  ensured channel_id max_concurrency failure_threshold blacklist_minutes now none =
      configure max_concurrency failure_threshold blacklist_minutes (Status.new fl channel_id now)
  ensured channel_id max_concurrency failure_threshold blacklist_minutes now (some s) =
      configure max_concurrency failure_threshold blacklist_minutes s

  -- Every path of it ends under the write lock, with the entry there and configured.
  unfoldable pub ensure_channel_status :
      LoadBalancerState F → Text → ℕ → ℕ → ℤ → Clock → LoadBalancerState F
  ensure_channel_status lb channel_id max_concurrency failure_threshold blacklist_minutes now =
      let status =
        ensured channel_id max_concurrency failure_threshold blacklist_minutes now
          (lb.channel_states channel_id) in
      record lb { channel_states = insert channel_id status lb.channel_states }
