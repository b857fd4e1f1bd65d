-- ===== src/Scheduler/Circuit/Threshold.antt =====
-- How many failures open an entry (circuit.rs, record_failure).
use galaxy_router.Base.{
  ℕ, suc, ◌+◌, ◌-◌, ◌<◌, ◌≡◌, refl, subst, ◌∙◌, true, false, Option, none, some, List, [], ◌∷◌,
  arith, length, Text, text_eq_self,
}
use galaxy_router.Scheduler.Circuit.{
  closed, CircuitEntry, CircuitConfig, CircuitBreaker, new, circuit_key, cooldown_duration,
  read_entry, fail_entry, record_failure,
}
use galaxy_router.Scheduler.Circuit.Admission.{verdict, view, verdict_lem}

-- The failures of one pair, at the times of a list.
unfoldable pub fail_all : CircuitBreaker → Text → Text → List ℕ → CircuitBreaker
fail_all b ch hint [] = b
fail_all b ch hint (t ∷ ts) = fail_all (record_failure b ch hint t) ch hint ts

fail_times : CircuitConfig → Option CircuitEntry → List ℕ → Option CircuitEntry
fail_times c o [] = o
fail_times c o (t ∷ ts) = fail_times c (some (fail_entry c o t)) ts

entries-record_failure :
    (b : CircuitBreaker) (ch hint : Text) (t : ℕ)
    → (record_failure b ch hint t).entries (circuit_key ch hint)
      ≡ some (fail_entry b.config (b.entries (circuit_key ch hint)) t)
unfolding record_failure
entries-record_failure b ch hint t = rw (text_eq_self (circuit_key ch hint))

config-record_failure :
    (b : CircuitBreaker) (ch hint : Text) (t : ℕ) → (record_failure b ch hint t).config ≡ b.config
unfolding record_failure
config-record_failure b ch hint t = refl

config-fail_all :
    (b : CircuitBreaker) (ch hint : Text) (ts : List ℕ) → (fail_all b ch hint ts).config ≡ b.config
unfolding fail_all
config-fail_all b ch hint [] = refl
config-fail_all b ch hint (t ∷ ts) =
    config-fail_all (record_failure b ch hint t) ch hint ts ∙ config-record_failure b ch hint t

entries-fail_all :
    (b : CircuitBreaker) (ch hint : Text) (ts : List ℕ)
    → (fail_all b ch hint ts).entries (circuit_key ch hint)
      ≡ fail_times b.config (b.entries (circuit_key ch hint)) ts
unfolding fail_all fail_times
entries-fail_all b ch hint [] = refl
entries-fail_all b ch hint (t ∷ ts) = rw (
  entries-fail_all (record_failure b ch hint t) ch hint ts,
  config-record_failure b ch hint t,
  entries-record_failure b ch hint t,
)

-- The entry of a pair that has failed n times since it was last closed, and never tripped.
abbrev Counted : Option CircuitEntry → ℕ → Type 0
Counted none n = n ≡ 0
Counted (some e) n = (e.state ≡ closed) × (e.consecutive_failures ≡ n) × (e.trip_count ≡ 0)

fail_entry-Counted :
    (c : CircuitConfig) (o : Option CircuitEntry) (t n : ℕ)
    → c.failure_threshold < 18446744073709551616
    → suc n < c.failure_threshold
    → Counted o n
    → Counted (some (fail_entry c o t)) (suc n)
unfolding fail_entry
fail_entry-Counted c none t n fits h k = ground arith
fail_entry-Counted c (some e) t n fits h k = ground arith

fail_times-Counted :
    (c : CircuitConfig) (o : Option CircuitEntry) (ts : List ℕ) (n m : ℕ)
    → c.failure_threshold < 18446744073709551616
    → n + length ts ≡ m
    → m < c.failure_threshold
    → Counted o n
    → Counted (fail_times c o ts) m
unfolding fail_times
fail_times-Counted c o [] n m fits e h k =
    let same : n ≡ m = omega arith in subst (Counted o) same k
fail_times-Counted c o (t ∷ ts) n m fits e h k =
    fail_times-Counted c (some (fail_entry c o t)) ts (suc n) m fits (omega arith) h
      (fail_entry-Counted c o t n fits (omega arith) k)

admitted_below :
    (c : CircuitConfig) (o : Option CircuitEntry) (n now : ℕ)
    → Counted o n
    → view (read_entry c o now) ≡ (false, none)
unfolding read_entry view
admitted_below c none n now k = refl
admitted_below c (some e) n now k = ground arith

refused_after :
    (c : CircuitConfig) (o : Option CircuitEntry) (n t now : ℕ)
    → c.failure_threshold < 18446744073709551616
    → suc n ≡ c.failure_threshold
    → Counted o n
    → now - t < cooldown_duration c 1
    → view (read_entry c (some (fail_entry c o t)) now)
      ≡ (true, some (cooldown_duration c 1 - (now - t)))
unfolding read_entry view fail_entry
refused_after c none n t now fits h k early = ground arith
refused_after c (some e) n t now fits h k early = ground arith

new-Counted :
    (c : CircuitConfig) (ch hint : Text) (ts : List ℕ)
    → c.failure_threshold < 18446744073709551616
    → length ts < c.failure_threshold
    → Counted ((fail_all (new c) ch hint ts).entries (circuit_key ch hint)) (length ts)
unfolding new
new-Counted c ch hint ts fits h =
    rw (entries-fail_all (new c) ch hint ts)
      (fail_times-Counted c none ts 0 (length ts) fits (omega arith) h refl)

-- Under a threshold that fits a u64, a new pair is let through after any run of failures one
-- shorter than the threshold, and the failure that reaches the threshold shuts it out, with the
-- rest of the first cooldown as the time left, while that cooldown lasts.
pub trips_at_threshold :
    (c : CircuitConfig) (ch hint : Text) (ts : List ℕ) (t now : ℕ)
    → c.failure_threshold < 18446744073709551616
    → suc (length ts) ≡ c.failure_threshold
    → now - t < cooldown_duration c 1
    → let b = fail_all (new c) ch hint ts in
      (verdict b ch hint now ≡ (false, none))
      × (verdict (record_failure b ch hint t) ch hint now
          ≡ (true, some (cooldown_duration c 1 - (now - t))))
unfolding new
trips_at_threshold c ch hint ts t now fits h early =
    let b = fail_all (new c) ch hint ts in
    let counted = new-Counted c ch hint ts fits (omega arith) in
    (
      verdict_lem b ch hint now
          ∙ admitted_below b.config (b.entries (circuit_key ch hint)) (length ts) now counted,
      verdict_lem (record_failure b ch hint t) ch hint now
          ∙ rw
              (
                config-record_failure b ch hint t,
                entries-record_failure b ch hint t,
                config-fail_all (new c) ch hint ts,
              )
              (refused_after c (b.entries (circuit_key ch hint)) (length ts) t now fits h counted
                early),
    )
