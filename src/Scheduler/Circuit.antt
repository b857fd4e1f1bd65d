-- ===== src/Scheduler/Circuit.antt =====
-- src/llm/scheduler/circuit.rs: the circuit breaker of each (channel, key) pair.
-- An `Instant` and a `Duration` are numbers of nanoseconds; each call takes the clock's value. A
-- lock section is one step. Logging leaves no trace.
pub mod Backoff
pub mod Invariant
pub mod Admission
pub mod Cleanup
pub mod Channels
pub mod Threshold
mod Tests
use galaxy_router.Base.{
  ℕ, zero, suc, ◌+◌, ◌-◌, ◌*◌, ◌/◌, ◌%◌, ◌^◌, ◌≤◌, ◌<◌, min, max, ◌≡◌, refl, sym, ap, subst, ◌∙◌,
  fun_ext, ◌≢◌, ◌↔◌, ◌⊎◌, inl, inr, Bool, true, false, not, ◌&&◌, ◌||◌, Option, none, some, List,
  [], ◌∷◌, ◌++◌, map, arith, ltb, leb, ◌==◌, if◌then◌else◌, ltb→lt, lt→ltb, leb→le, le→leb, lt→leb,
  ==_iff, tests, Bool-cases, Option-cases, get_or, is_some, length, get_elem?, take, filter, find,
  any, count, All, length-append, count-append, length-filter-le, All-append, find-passes, any-find,
  Text, text, text_eq, text_eq_iff, text_eq_self, text_ne, starts_with, contains,
  to_ascii_lowercase, starts_with-append, Map, keep_if, map_some, new_map, insert, alter, retain,
}

pub data CircuitState : Type 0 where
  closed open_ half_open : CircuitState

pub record CircuitEntry : Type 0 where
  pub state : CircuitState
  pub consecutive_failures : ℕ  -- u64
  pub last_failure_time : Option ℕ
  pub trip_count : ℕ  -- u32
  pub half_open_probe : Bool

pub record CircuitConfig : Type 0 where
  pub failure_threshold : ℕ
  pub base_cooldown_secs : ℕ
  pub max_cooldown_secs : ℕ

-- `CircuitConfig::default`.
abbrev pub default_config : CircuitConfig
default_config = record { failure_threshold = 5; base_cooldown_secs = 60; max_cooldown_secs = 600 }

pub record CircuitBreaker : Type 0 where
  pub entries : Map CircuitEntry
  pub config : CircuitConfig

unfoldable pub new : CircuitConfig → CircuitBreaker
new config = record { entries = new_map; config = config }

abbrev pub u64 : ℕ → ℕ
u64 n = n % 18446744073709551616

abbrev pub u32 : ℕ → ℕ
u32 n = n % 4294967296

abbrev pub from_secs : ℕ → ℕ
from_secs s = s * 1000000000

-- `format!("{}:{}", channel_id, key_hint)`.
abbrev pub circuit_key : Text → Text → Text
circuit_key channel_id key_hint = channel_id ++ (b':' ∷ key_hint)

-- Nanoseconds. The product is a `u64`, and wraps in a release build.
unfoldable pub cooldown_duration : CircuitConfig → ℕ → ℕ
cooldown_duration c trip_count =
    if trip_count == 0
    then from_secs c.base_cooldown_secs
    else from_secs
        (min (u64 (c.base_cooldown_secs * 2 ^ min (trip_count - 1) 20)) c.max_cooldown_secs)

-- What `is_tripped` reads of an entry under the read lock: its answer, or that it has to take the
-- write lock and move the entry to HalfOpen.
pub data Verdict : Type 0 where
  answer : Bool → Option ℕ → Verdict
  to_half_open : Verdict

-- An entry that has never failed counts as `u64::MAX` seconds old.
abbrev pub elapsed : Option ℕ → ℕ → ℕ
elapsed none now = from_secs 18446744073709551615
elapsed (some t) now = now - t

read_state : CircuitConfig → CircuitState → CircuitEntry → ℕ → Verdict
read_state c closed e now = answer false none
read_state c open_ e now =
    let cooldown = cooldown_duration c e.trip_count in
    let since = elapsed e.last_failure_time now in
    if leb cooldown since then to_half_open else answer true (some (cooldown - since))
read_state c half_open e now = if e.half_open_probe then answer true none else answer false none

unfoldable pub read_entry : CircuitConfig → Option CircuitEntry → ℕ → Verdict
unfolding read_state
read_entry c none now = answer false none
read_entry c (some e) now = read_state c e.state e now

-- The write section of `is_tripped`. It does not look at the state again.
abbrev pub enter_half_open : CircuitEntry → CircuitEntry
enter_half_open e = record e { state = half_open; half_open_probe = false }

settle : CircuitBreaker → Text → Verdict → CircuitBreaker × Bool × Option ℕ
settle b key (answer tripped remaining) = (b, tripped, remaining)
settle b key to_half_open =
    (record b { entries = alter key enter_half_open b.entries }, false, none)

unfoldable pub is_tripped : CircuitBreaker → Text → Text → ℕ → CircuitBreaker × Bool × Option ℕ
unfolding settle
is_tripped b channel_id key_hint now =
    let key = circuit_key channel_id key_hint in
    settle b key (read_entry b.config (b.entries key) now)

-- What `record_success` and `reset_channel` do to an entry; `last_failure_time` stays.
abbrev pub reset_entry : CircuitEntry → CircuitEntry
reset_entry e = record e {
  state = closed;
  consecutive_failures = 0;
  trip_count = 0;
  half_open_probe = false;
}

unfoldable pub record_success : CircuitBreaker → Text → Text → CircuitBreaker
record_success b channel_id key_hint = record b {
  entries = alter (circuit_key channel_id key_hint) reset_entry b.entries;
}

-- `for (key, entry) in entries.iter_mut()` with the test on the prefix.
unfoldable pub reset_channel : CircuitBreaker → Text → CircuitBreaker
reset_channel b channel_id = record b {
  entries = λ key.
      if starts_with key (channel_id ++ (b':' ∷ []))
      then map_some reset_entry (b.entries key)
      else b.entries key;
}

abbrev pub fresh_entry : CircuitEntry
fresh_entry = record {
  state = closed;
  consecutive_failures = 0;
  last_failure_time = none;
  trip_count = 0;
  half_open_probe = false;
}

-- The `match` of `record_failure`, on the entry whose failure time is already set.
fail_state : CircuitConfig → CircuitState → CircuitEntry → CircuitEntry
fail_state c closed e =
    let failures = u64 (e.consecutive_failures + 1) in
    if leb c.failure_threshold failures
    then record e {
      state = open_;
      consecutive_failures = failures;
      trip_count = u32 (e.trip_count + 1);
    }
    else record e { consecutive_failures = failures }
fail_state c half_open e = record e {
  state = open_;
  trip_count = u32 (e.trip_count + 1);
  consecutive_failures = 0;
  half_open_probe = false;
}
fail_state c open_ e = e

unfoldable pub fail_entry : CircuitConfig → Option CircuitEntry → ℕ → CircuitEntry
unfolding fail_state
fail_entry c none now = fail_state c closed (record fresh_entry { last_failure_time = some now })
fail_entry c (some e) now = fail_state c e.state (record e { last_failure_time = some now })

unfoldable pub record_failure : CircuitBreaker → Text → Text → ℕ → CircuitBreaker
record_failure b channel_id key_hint now =
    let key = circuit_key channel_id key_hint in
    record b { entries = insert key (fail_entry b.config (b.entries key) now) b.entries }

abbrev pub is_recent : ℕ → ℕ → CircuitEntry → Bool
is_recent max_age now e = elim e.last_failure_time [ none ↦ true | some t ↦ ltb (now - t) max_age ]

unfoldable pub cleanup_expired : CircuitBreaker → ℕ → ℕ → CircuitBreaker
cleanup_expired b max_age now = record b { entries = retain (is_recent max_age now) b.entries }
