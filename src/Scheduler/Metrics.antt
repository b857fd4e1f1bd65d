-- ===== src/Scheduler/Metrics.antt =====
-- src/llm/scheduler/metrics.rs: the counters of the selections, AtomicU64 that wrap.
pub mod Totals
mod Tests
use galaxy_router.Base.{
  ℕ, zero, suc, ◌+◌, ◌-◌, ◌*◌, ◌/◌, ◌%◌, ◌^◌, ◌≤◌, ◌<◌, min, max, ◌≡◌, refl, sym, ap, subst, ◌∙◌,
  fun_ext, ◌≢◌, ◌↔◌, ◌⊎◌, inl, inr, Bool, true, false, not, ◌&&◌, ◌||◌, Option, none, some, List,
  [], ◌∷◌, ◌++◌, map, arith, ltb, leb, ◌==◌, if◌then◌else◌, ltb→lt, lt→ltb, leb→le, le→leb, lt→leb,
  ==_iff, tests, Bool-cases, Option-cases, get_or, is_some, length, get_elem?, take, replicate,
  filter, find, any, count, All, length-append, length-replicate, count-append, length-filter-le,
  All-append, find-passes, any-find, Text, text, text_eq, text_eq_iff, text_eq_self, text_ne,
  starts_with, contains, to_ascii_lowercase, starts_with-append, Map, keep_if, map_some, new_map,
  insert, alter, retain,
}

pub record SchedulerMetrics : Type 0 where
  pub sticky_hits : ℕ
  pub load_balance_selects : ℕ
  pub channel_switches : ℕ
  pub total_selections : ℕ

abbrev pub no_metrics : SchedulerMetrics
no_metrics = record {
  sticky_hits = 0;
  load_balance_selects = 0;
  channel_switches = 0;
  total_selections = 0;
}

-- `fetch_add(1)`.
abbrev pub bump : ℕ → ℕ
bump n = (n + 1) % 18446744073709551616

unfoldable pub record_sticky_hit : SchedulerMetrics → SchedulerMetrics
record_sticky_hit m = record m {
  sticky_hits = bump m.sticky_hits;
  total_selections = bump m.total_selections;
}

unfoldable pub record_load_balance : SchedulerMetrics → SchedulerMetrics
record_load_balance m = record m {
  load_balance_selects = bump m.load_balance_selects;
  total_selections = bump m.total_selections;
}

unfoldable pub record_channel_switch : SchedulerMetrics → SchedulerMetrics
record_channel_switch m = record m { channel_switches = bump m.channel_switches }

-- `sticky_channel_id` is some other channel than the selected one.
abbrev pub is_switch : Text → Option Text → Bool
is_switch selected none = false
is_switch selected (some id) = not (text_eq id selected)

-- `LoadBalancerState::record_scheduler_selection`, on the metrics.
unfoldable pub record_selection : SchedulerMetrics → Text → Bool → Option Text → SchedulerMetrics
record_selection m selected was_sticky sticky_id =
    if was_sticky
    then record_sticky_hit m
    else if is_switch selected sticky_id
    then record_channel_switch (record_load_balance m)
    else record_load_balance m
