-- ===== src/Scheduler/Capacity/Tests.antt =====
-- The capacity manager at work on small inputs.
use galaxy_router.Base.{◌+◌, ◌≤◌, ◌<◌, ◌≡◌, refl, ◌≢◌, ◌⊎◌, none, some, [], ◌∷◌, arith, Text, text}
use galaxy_router.Scheduler.Capacity.{new, limited, active_count, try_acquire, drop_permit}
use galaxy_router.Scheduler.Capacity.Permits.{
  try_acquire_lem, drop_permit-try_acquire, acquire_unlimited,
}
use galaxy_router.Scheduler.Capacity.Races.{ready, holding, refused, holders, run, run-holders}

abbrev ch_a : Text
ch_a = text "ch-a"

try_acquire_lem_test :
    ((0 < 1)
        × ((try_acquire new ch_a 1).1 ≡ some (limited ch_a))
        × (active_count (try_acquire new ch_a 1).0 ch_a ≡ 0 + 1)
      ⊎ (1 ≤ 0)
        × ((try_acquire new ch_a 1).1 ≡ none)
        × (active_count (try_acquire new ch_a 1).0 ch_a ≡ 0))
    × (ch_a ≢ [] → active_count (try_acquire new ch_a 1).0 [] ≡ 0)
unfolding new active_count
try_acquire_lem_test = try_acquire_lem new ch_a [] 1 (omega arith) (omega arith)

drop_permit-try_acquire_example :
    active_count (drop_permit (try_acquire new ch_a 1).0 (limited ch_a)) ch_a
    ≡ active_count new ch_a
unfolding new try_acquire
drop_permit-try_acquire_example =
    drop_permit-try_acquire new ch_a ch_a 1 (limited ch_a) (omega arith) refl

acquire_unlimited_test : active_count (try_acquire new ch_a 0).0 ch_a ≡ active_count new ch_a
acquire_unlimited_test = acquire_unlimited new ch_a ch_a

-- Two tasks race for one slot: both load 0, the first exchange wins.
race : run 1 0 (ready ∷ ready ∷ []) (0 ∷ 1 ∷ 0 ∷ 1 ∷ 1 ∷ 1 ∷ []) ≡ (1, holding ∷ refused ∷ [])
unfolding run
race = refl

run-holders_example :
    let (active, ps) = run 1 0 (ready ∷ ready ∷ []) (0 ∷ 1 ∷ 0 ∷ 1 ∷ []) in
    (active ≤ 1) × (active ≡ holders ps)
run-holders_example =
    run-holders 1 0 (ready ∷ ready ∷ []) (0 ∷ 1 ∷ 0 ∷ 1 ∷ []) (omega arith) (omega arith)
      (omega arith)
