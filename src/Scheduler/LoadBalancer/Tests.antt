-- ===== src/Scheduler/LoadBalancer/Tests.antt =====
-- A channel that fails three times, and what its state is asked.
use galaxy_router.Base.{
  Bool, ℕ, suc, ◌+◌, ◌-◌, ◌*◌, ◌/◌, ◌^◌, ◌≡◌, refl, inl, true, false, some, [], ◌∷◌, arith, ltb,
  leb, ◌==◌, length, Text, text, new_map,
}
use galaxy_router.Base.Int.{pos}
use galaxy_router.Base.Float.{Floats}
use galaxy_router.Scheduler.Status.{Clock, minutes}
use galaxy_router.Scheduler.Sticky as Sticky
use galaxy_router.Scheduler.LoadBalancer.{
  LoadBalancerState, is_channel_available, cleanup_expired_blacklists, record_failure,
  ensure_channel_status,
}
use galaxy_router.Scheduler.Circuit.{default_config}
use galaxy_router.Scheduler.Circuit as Circuit
use galaxy_router.Scheduler.Metrics.{no_metrics}
use galaxy_router.Scheduler.LoadBalancer.Blacklist.{Recent, fail_all, fail_all-is_channel_available}
use galaxy_router.Scheduler.LoadBalancer.Cleanup.{
  cleanup_expired_blacklists-is_channel_available, record_failure-is_channel_available,
  ensure_channel_status-is_channel_available,
}

-- Thousandths, cut at 0, in the place of f64.
abbrev fixed : Floats
fixed = record {
  F = ℕ;
  of_nat = λ n. n * 1000;
  lit = λ n k. n * 1000 / 10 ^ k;
  add = λ a b. a + b;
  sub = λ a b. a - b;
  mul = λ a b. a * b / 1000;
  div = λ a b. a * 1000 / b;
  flt = λ a b. ltb a b;
  fle = λ a b. leb a b;
  feq = λ a b. a == b;
  is_nan = λ a. false;
}

abbrev ch_a : Text
ch_a = text "ch-a"

abbrev at : ℕ → Clock
at m = record { utc = minutes m; instant = minutes m }

abbrev lb : LoadBalancerState ℕ
lb = record {
  channel_states = new_map;
  sticky_manager = Sticky.new (pos 3600) 100;
  circuit_breaker = Circuit.new default_config;
  capacity_manager = new_map;
  scheduler_metrics = no_metrics;
  runtime_manager = new_map;
}

-- Two failures within 30 minutes, and the third that shuts the channel out.
abbrev twice : LoadBalancerState ℕ
twice =
    fail_all fixed (ensure_channel_status fixed lb ch_a 10 3 (pos 10) (at 0)) ch_a
      ((false, minutes 1) ∷ (true, minutes 20) ∷ [])

abbrev shut : LoadBalancerState ℕ
shut = record_failure fixed twice ch_a true (minutes 21)

fail_all-is_channel_available_example :
    (is_channel_available twice ch_a (minutes 22) ≡ true)
    × (Recent (some (minutes 20)) (minutes 21)
        → suc (length {A = Bool × ℕ} ((false, minutes 1) ∷ (true, minutes 20) ∷ [])) ≡ 3
        → is_channel_available shut ch_a (minutes 22) ≡ leb (minutes 21 + minutes 10) (minutes 22))
fail_all-is_channel_available_example =
    fail_all-is_channel_available fixed lb ch_a 10 3 10 (at 0)
      ((false, minutes 1) ∷ (true, minutes 20) ∷ []) true (minutes 21) (minutes 22) refl
      (tt, (omega arith, tt)) (omega arith) (omega arith)

cleanup_expired_blacklists-is_channel_available_test :
    is_channel_available (cleanup_expired_blacklists shut (minutes 31)) ch_a (minutes 32)
    ≡ is_channel_available shut ch_a (minutes 32)
cleanup_expired_blacklists-is_channel_available_test =
    cleanup_expired_blacklists-is_channel_available shut ch_a (minutes 31) (minutes 32)
      (omega arith)

record_failure-is_channel_available_test :
    is_channel_available (record_failure fixed twice ch_a false (minutes 21)) ch_a (minutes 22)
    ≡ is_channel_available twice ch_a (minutes 22)
record_failure-is_channel_available_test =
    record_failure-is_channel_available fixed twice ch_a ch_a false (minutes 21) (minutes 22)
      (inl refl)

ensure_channel_status-is_channel_available_test :
    is_channel_available
      (ensure_channel_status fixed shut ch_a 10 9 (pos 10) (at 22))
      ch_a
      (minutes 23)
    ≡ is_channel_available shut ch_a (minutes 23)
ensure_channel_status-is_channel_available_test =
    ensure_channel_status-is_channel_available fixed shut ch_a ch_a 10 9 (pos 10) (at 22)
      (minutes 23)
