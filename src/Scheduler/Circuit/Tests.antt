-- ===== src/Scheduler/Circuit/Tests.antt =====
-- The circuit breaker at work on small inputs.
use galaxy_router.Base.{
  ◌-◌, ◌≤◌, ◌≡◌, refl, ◌≢◌, inl, true, false, none, some, List, [], ◌∷◌, map, arith, Text, text,
  text_eq,
}
use galaxy_router.Scheduler.Circuit.{
  open_, half_open, CircuitEntry, CircuitConfig, default_config, CircuitBreaker, new, from_secs,
  circuit_key, cooldown_duration, is_tripped, fail_entry, record_failure, cleanup_expired,
}
use galaxy_router.Scheduler.Circuit.Backoff.{cooldown_closed, cooldown_mono}
use galaxy_router.Scheduler.Circuit.Invariant.{
  IsValid, Section, promotes, fails, section, run, section-IsValid, run-new-IsValid,
  half_open_admits_all,
}
use galaxy_router.Scheduler.Circuit.Admission.{
  Blocks, verdict, is_tripped-Blocks, is_tripped_promotes, is_tripped_iff,
}
use galaxy_router.Scheduler.Circuit.Cleanup.{
  Call, asks, succeeds, resets, answers, cleanup_expired-answers,
}
use galaxy_router.Scheduler.Circuit.Channels.{NoColon, record_failure_isolated}
use galaxy_router.Scheduler.Circuit.Threshold.{fail_all, trips_at_threshold}

cooldown_doubles :
    map (cooldown_duration default_config) (0 ∷ 1 ∷ 2 ∷ 3 ∷ 4 ∷ 5 ∷ 6 ∷ [])
    ≡ map from_secs (60 ∷ 60 ∷ 120 ∷ 240 ∷ 480 ∷ 600 ∷ 600 ∷ [])
unfolding cooldown_duration
cooldown_doubles = refl

cooldown_closed_test : cooldown_duration default_config 3 ≡ from_secs 240
cooldown_closed_test = cooldown_closed default_config 2 (omega arith) (omega arith)

cooldowns_grow :
    (cooldown_duration default_config 2 ≤ cooldown_duration default_config 4)
    × (cooldown_duration default_config 0 ≤ cooldown_duration default_config 2)
cooldowns_grow =
    cooldown_mono default_config 1 3 (omega arith) (omega arith) (omega arith) (omega arith)

abbrev strict : CircuitConfig
strict = record { failure_threshold = 2; base_cooldown_secs = 60; max_cooldown_secs = 600 }

abbrev ch_a : Text
ch_a = text "ch-a"

abbrev ch_b : Text
ch_b = text "ch-b"

abbrev key_1 : Text
key_1 = text "k1"

abbrev failed_twice : List Section
failed_twice = fails ch_a key_1 0 ∷ fails ch_a key_1 (from_secs 10) ∷ []

-- Open since second 10, for 60 seconds.
abbrev tripped : CircuitBreaker
tripped = run (new strict) failed_twice

abbrev open_entry : CircuitEntry
open_entry = record {
  state = open_;
  consecutive_failures = 2;
  last_failure_time = some (from_secs 10);
  trip_count = 1;
  half_open_probe = false;
}

found_open : tripped.entries (circuit_key ch_a key_1) ≡ some open_entry
unfolding run section new record_failure fail_entry text_eq
found_open = refl

config_tripped : tripped.config ≡ strict
unfolding run section new record_failure
config_tripped = refl

trips_at_threshold_example :
    verdict
      (record_failure (record_failure (new strict) ch_a key_1 0) ch_a key_1 (from_secs 10))
      ch_a
      key_1
      (from_secs 30)
    ≡ (true, some (from_secs 40))
unfolding fail_all cooldown_duration
trips_at_threshold_example =
    (trips_at_threshold strict ch_a key_1 (0 ∷ []) (from_secs 10) (from_secs 30) (omega arith) refl
      (omega arith)).1

run-new-IsValid_example : IsValid (run (new strict) failed_twice)
run-new-IsValid_example = run-new-IsValid strict failed_twice (omega arith)

section-IsValid_example : IsValid (section (new strict) (fails ch_a key_1 0))
unfolding new
section-IsValid_example =
    section-IsValid (new strict) (fails ch_a key_1 0) (omega arith) (λ key. tt)

blocked : Blocks tripped.config open_entry (from_secs 30)
unfolding run section new record_failure cooldown_duration
blocked = record { is_open = refl; cooling = omega arith }

is_tripped-Blocks_example :
    is_tripped tripped ch_a key_1 (from_secs 30)
    ≡ (tripped, true, some (cooldown_duration tripped.config 1 - (from_secs 30 - from_secs 10)))
is_tripped-Blocks_example =
    (is_tripped-Blocks tripped ch_a key_1 (from_secs 30) open_entry found_open blocked).0

is_tripped_promotes_test : verdict tripped ch_a key_1 (from_secs 70) ≡ (false, none)
unfolding run section new record_failure cooldown_duration
is_tripped_promotes_test =
    (is_tripped_promotes tripped ch_a key_1 (from_secs 70) open_entry found_open refl
      (omega arith)).0

is_tripped_iff_example : (is_tripped tripped ch_a key_1 (from_secs 30)).1 ≡ true
is_tripped_iff_example =
    (is_tripped_iff tripped ch_a key_1 (from_secs 30)
        (run-new-IsValid strict failed_twice (omega arith))).1
      (open_entry, found_open, blocked)

-- The pair is asked, then succeeds, then is asked again, behind a cleanup.
abbrev later_calls : List Call
later_calls =
    asks ch_a key_1 (from_secs 5001)
    ∷ succeeds ch_a key_1
    ∷ resets ch_a
    ∷ asks ch_a key_1 (from_secs 5002)
    ∷ []

cleanup_expired-answers_example :
    answers (cleanup_expired tripped (from_secs 3600) (from_secs 5000)) later_calls
    ≡ answers tripped later_calls
unfolding run section new record_failure
cleanup_expired-answers_example =
    cleanup_expired-answers tripped (from_secs 3600) (from_secs 5000) later_calls
      (run-new-IsValid strict failed_twice (omega arith)) (omega arith) (omega arith)
      (omega arith, (omega arith, tt))

-- The first caller after the cooldown goes through, and so does every later one.
abbrev promoted : List Section
promoted = fails ch_a key_1 0 ∷ fails ch_a key_1 (from_secs 10) ∷ promotes ch_a key_1 ∷ []

half_open_admits_all_example :
    is_tripped (run (new strict) promoted) ch_a key_1 (from_secs 71)
    ≡ (run (new strict) promoted, false, none)
unfolding run section new record_failure fail_entry text_eq
half_open_admits_all_example =
    half_open_admits_all strict promoted ch_a key_1 (from_secs 71)
      (record open_entry { state = half_open }) (omega arith) refl refl

ch_b-ne-ch_a : ch_b ≢ ch_a
ch_b-ne-ch_a e = ground arith

ch_a-NoColon : NoColon ch_a
ch_a-NoColon = omega arith

ch_b-NoColon : NoColon ch_b
ch_b-NoColon = omega arith

record_failure_isolated_test :
    (record_failure tripped ch_b key_1 0).entries (circuit_key ch_a key_1)
    ≡ tripped.entries (circuit_key ch_a key_1)
record_failure_isolated_test =
    record_failure_isolated tripped ch_b key_1 ch_a key_1 0 ch_b-NoColon ch_a-NoColon
      (inl ch_b-ne-ch_a)
