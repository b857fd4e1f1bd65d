-- ===== src/Scheduler/Metrics/Tests.antt =====
-- Selections that are counted.
use galaxy_router.Base.{◌+◌, ◌≤◌, ◌≡◌, true, false, none, some, List, [], ◌∷◌, arith, text}
use galaxy_router.Scheduler.Metrics.{no_metrics}
use galaxy_router.Scheduler.Metrics.Totals.{Selection, select_all, select_all-totals}

abbrev three : List Selection
three =
    record { selected = text "a"; was_sticky = true; sticky_id = some (text "a") }
    ∷ record { selected = text "b"; was_sticky = false; sticky_id = some (text "a") }
    ∷ record { selected = text "a"; was_sticky = false; sticky_id = none }
    ∷ []

select_all-totals_test :
    let n = select_all no_metrics three in
    (n.total_selections ≡ 3)
    × (n.sticky_hits ≡ 1)
    × (n.sticky_hits + n.load_balance_selects ≡ n.total_selections)
    × (n.channel_switches ≤ n.load_balance_selects)
select_all-totals_test = select_all-totals three (omega arith)
