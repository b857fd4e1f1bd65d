-- ===== src/Scheduler/Capacity/Races.antt =====
-- The compare-and-exchange loop of `try_acquire` and the drop of a permit, by any number of tasks on
-- one channel with one limit (capacity.rs).
use galaxy_router.Base.{
  ℕ, zero, suc, ◌+◌, ◌≤◌, ◌<◌, ◌≡◌, Bool, true, false, List, [], ◌∷◌, arith, leb, ◌==◌,
  if◌then◌else◌, count,
}
use galaxy_router.Scheduler.Capacity.{decrement, increment}

-- Where a task stands: before the load, between the load and the exchange, with a permit, refused,
-- or done with its permit.
pub data Phase : Type 0 where
  ready holding refused done : Phase
  loaded : ℕ → Phase

-- One atomic access of a task. A failed exchange goes back to the load.
pub advance : ℕ → ℕ → Phase → ℕ × Phase
advance limit active ready = (active, loaded active)
advance limit active (loaded current) =
    if leb limit current
    then (active, refused)
    else if active == current
    then (increment active, holding)
    else (active, ready)
advance limit active holding = (decrement active, done)
advance limit active refused = (active, refused)
advance limit active done = (active, done)

-- The task of a number takes its next step.
step_at : ℕ → ℕ → List Phase → ℕ → ℕ × List Phase
step_at limit active [] i = (active, [])
step_at limit active (p ∷ ps) zero =
    let (active', p') = advance limit active p in (active', p' ∷ ps)
step_at limit active (p ∷ ps) (suc i) =
    let (active', ps') = step_at limit active ps i in (active', p ∷ ps')

unfoldable pub run : ℕ → ℕ → List Phase → List ℕ → ℕ × List Phase
unfolding step_at advance
run limit active ps [] = (active, ps)
run limit active ps (i ∷ schedule) =
    let (active', ps') = step_at limit active ps i in run limit active' ps' schedule

abbrev pub is_holding : Phase → Bool
is_holding holding = true
is_holding _ = false

abbrev pub holders : List Phase → ℕ
holders = count is_holding

advance-holders :
    (limit active others : ℕ) (p : Phase)
    → limit < 4294967296
    → active ≤ limit
    → active ≡ others + (if is_holding p then 1 else 0)
    → let (active', p') = advance limit active p in
      (active' ≤ limit) × (active' ≡ others + (if is_holding p' then 1 else 0))
unfolding advance
advance-holders limit active others ready fits room e = ground arith
advance-holders limit active others (loaded current) fits room e = ground arith
advance-holders limit active others holding fits room e = ground arith
advance-holders limit active others refused fits room e = ground arith
advance-holders limit active others done fits room e = ground arith

step_at-holders :
    (limit active others : ℕ) (ps : List Phase) (i : ℕ)
    → limit < 4294967296
    → active ≤ limit
    → active ≡ others + holders ps
    → let (active', ps') = step_at limit active ps i in
      (active' ≤ limit) × (active' ≡ others + holders ps')
unfolding step_at
step_at-holders limit active others [] i fits room e = (room, e)
step_at-holders limit active others (p ∷ ps) zero fits room e =
    omega (arith, advance-holders limit active (others + holders ps) p fits room (omega arith))
step_at-holders limit active others (p ∷ ps) (suc i) fits room e =
    let one : ℕ = if is_holding p then 1 else 0 in
    omega (arith, step_at-holders limit active (others + one) ps i fits room (omega arith))

-- Under every interleaving of the atomic accesses of any number of tasks the counter of a channel
-- is the number of tasks that hold a permit, and never more than the limit, which is an u32.
pub run-holders :
    (limit active : ℕ) (ps : List Phase) (schedule : List ℕ)
    → limit < 4294967296
    → active ≤ limit
    → active ≡ holders ps
    → let (active', ps') = run limit active ps schedule in
      (active' ≤ limit) × (active' ≡ holders ps')
unfolding run
run-holders limit active ps [] fits room e = (room, e)
run-holders limit active ps (i ∷ schedule) fits room e =
    let next = step_at-holders limit active 0 ps i fits room (omega arith) in
    run-holders limit (step_at limit active ps i).0 (step_at limit active ps i).1 schedule fits
      next.0 (omega (arith, next.1))
