-- ===== src/Scheduler/Metrics/Totals.antt =====
-- The totals over any number of selections (metrics.rs).
use galaxy_router.Base.{
  ◌+◌, ◌≤◌, ◌<◌, ◌≡◌, refl, ◌∙◌, Bool, Option, List, [], ◌∷◌, arith, if◌then◌else◌, length, count,
  Text,
}
use galaxy_router.Scheduler.Metrics.{
  SchedulerMetrics, no_metrics, record_sticky_hit, record_load_balance, record_channel_switch,
  record_selection,
}

pub record Selection : Type 0 where
  pub selected : Text
  pub was_sticky : Bool
  pub sticky_id : Option Text

unfoldable pub select_all : SchedulerMetrics → List Selection → SchedulerMetrics
select_all m [] = m
select_all m (s ∷ ss) = select_all (record_selection m s.selected s.was_sticky s.sticky_id) ss

-- One selection counts once in total, and once as sticky or as load balanced.
record_selection_lem :
    (m : SchedulerMetrics) (s : Selection)
    → m.total_selections + 1 < 18446744073709551616
    → m.sticky_hits + m.load_balance_selects ≡ m.total_selections
    → m.channel_switches ≤ m.load_balance_selects
    → let n = record_selection m s.selected s.was_sticky s.sticky_id in
      (n.total_selections ≡ m.total_selections + 1)
      × (n.sticky_hits ≡ m.sticky_hits + (if s.was_sticky then 1 else 0))
      × (n.sticky_hits + n.load_balance_selects ≡ n.total_selections)
      × (n.channel_switches ≤ n.load_balance_selects)
unfolding record_selection record_sticky_hit record_load_balance record_channel_switch
record_selection_lem m s fits sum le = ground arith

select_all-from :
    (m : SchedulerMetrics) (ss : List Selection)
    → m.total_selections + length ss < 18446744073709551616
    → m.sticky_hits + m.load_balance_selects ≡ m.total_selections
    → m.channel_switches ≤ m.load_balance_selects
    → let n = select_all m ss in
      (n.total_selections ≡ m.total_selections + length ss)
      × (n.sticky_hits ≡ m.sticky_hits + count (λ s. s.was_sticky) ss)
      × (n.sticky_hits + n.load_balance_selects ≡ n.total_selections)
      × (n.channel_switches ≤ n.load_balance_selects)
unfolding select_all
select_all-from m [] fits sum le = ground arith
select_all-from m (s ∷ ss) fits sum le =
    let n = record_selection m s.selected s.was_sticky s.sticky_id in
    let one = record_selection_lem m s (omega arith) sum le in
    let (total, hits, sum', le') = one in
    let (ih_total, ih_hits, ih_sum, ih_le) = select_all-from n ss (omega (arith, total)) sum' le' in
    (ih_total ∙ omega (arith, total), ih_hits ∙ omega (arith, hits), ih_sum, ih_le)

-- Short of 2^64 selections, every one of them is counted in total, the sticky ones as hits and
-- the others as load balanced, and there are no more switches than selections that were load
-- balanced.
pub select_all-totals :
    (ss : List Selection)
    → length ss < 18446744073709551616
    → let n = select_all no_metrics ss in
      (n.total_selections ≡ length ss)
      × (n.sticky_hits ≡ count (λ s. s.was_sticky) ss)
      × (n.sticky_hits + n.load_balance_selects ≡ n.total_selections)
      × (n.channel_switches ≤ n.load_balance_selects)
select_all-totals ss fits =
    let (total, hits, sum, le) = select_all-from no_metrics ss (omega arith) refl (omega arith) in
    (total ∙ omega arith, hits ∙ omega arith, sum, le)
