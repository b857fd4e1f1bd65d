-- ===== src/Scheduler/Circuit/Cleanup.antt =====
-- What a cleanup of the breaker changes for later callers (circuit.rs, cleanup_expired).
use galaxy_router.Base.{
  ℕ, ◌≤◌, ◌≡◌, refl, sym, ap, ◌∙◌, inl, inr, Bool, true, false, Option, none, some, List, [], ◌∷◌,
  ◌++◌, arith, if◌then◌else◌, Bool-cases, Text, text_eq, text_eq_iff, starts_with, map_some,
}
use galaxy_router.Scheduler.Circuit.{
  settle, CircuitEntry, CircuitConfig, CircuitBreaker, from_secs, circuit_key, Verdict, answer,
  to_half_open, read_entry, enter_half_open, is_tripped, reset_entry, record_success, reset_channel,
  cleanup_expired,
}
use galaxy_router.Scheduler.Circuit.Invariant.{IsValid}
use galaxy_router.Scheduler.Circuit.Admission.{view, verdict, verdict_lem, view-keep_if}

-- The calls of a breaker that record no failure: a question at a time, a success of a pair and the
-- reset of a channel.
pub data Call : Type 0 where
  asks : Text → Text → ℕ → Call
  succeeds : Text → Text → Call
  resets : Text → Call

-- The answers to the questions of a sequence of calls.
unfoldable pub answers : CircuitBreaker → List Call → List (Bool × Option ℕ)
answers b [] = []
answers b (asks ch hint now ∷ calls) =
    verdict b ch hint now ∷ answers (is_tripped b ch hint now).0 calls
answers b (succeeds ch hint ∷ calls) = answers (record_success b ch hint) calls
answers b (resets ch ∷ calls) = answers (reset_channel b ch) calls

-- The questions come in the order of time, none before `now`.
abbrev pub InOrder : ℕ → List Call → Type 0
InOrder now [] = Unit
InOrder now (asks ch hint t ∷ calls) = (now ≤ t) × InOrder t calls
InOrder now (succeeds ch hint ∷ calls) = InOrder now calls
InOrder now (resets ch ∷ calls) = InOrder now calls

abbrev Reads : CircuitConfig → Option CircuitEntry → Option CircuitEntry → ℕ → Type 0
Reads c o o' now =
    (later : ℕ) → now ≤ later → view (read_entry c o later) ≡ view (read_entry c o' later)

-- Two breakers that answer every question from a time on alike.
record Alike (b b' : CircuitBreaker) (now : ℕ) : Type 0 where
  pub configured : b.config ≡ b'.config
  pub reads : (key : Text) → Reads b.config (b.entries key) (b'.entries key) now

-- What a question leaves of the entry that it reads.
abbrev asked_by : Verdict → Option CircuitEntry → Option CircuitEntry
asked_by (answer t r) o = o
asked_by to_half_open o = map_some enter_half_open o

asked : CircuitConfig → Option CircuitEntry → ℕ → Option CircuitEntry
asked c o now = asked_by (read_entry c o now) o

-- From the time of a question on its answer is that of an entry that is read the first time.
view-asked :
    (c : CircuitConfig) (o : Option CircuitEntry) (now later : ℕ)
    → now ≤ later
    → view (read_entry c (asked c o now) later) ≡ view (read_entry c o later)
unfolding asked read_entry view
view-asked c none now later h = refl
view-asked c (some e) now later h = ground arith

settle-entries :
    (b : CircuitBreaker) (key k : Text) (v : Verdict)
    → (settle b key v).0.entries k
      ≡ (if text_eq key k then asked_by v (b.entries key) else b.entries k)
unfolding settle
settle-entries b key k (answer t r) = ground (arith, text_eq_iff key k)
settle-entries b key k to_half_open = ground (arith, text_eq_iff key k)

is_tripped-entries :
    (b : CircuitBreaker) (ch hint k : Text) (now : ℕ)
    → let key = circuit_key ch hint in
      (is_tripped b ch hint now).0.entries k
      ≡ (if text_eq key k then asked b.config (b.entries key) now else b.entries k)
unfolding is_tripped asked
is_tripped-entries b ch hint k now =
    settle-entries b (circuit_key ch hint) k
      (read_entry b.config (b.entries (circuit_key ch hint)) now)

settle-config :
    (b : CircuitBreaker) (key : Text) (v : Verdict) → (settle b key v).0.config ≡ b.config
unfolding settle
settle-config b key (answer t r) = refl
settle-config b key to_half_open = refl

is_tripped-config :
    (b : CircuitBreaker) (ch hint : Text) (now : ℕ) → (is_tripped b ch hint now).0.config ≡ b.config
unfolding is_tripped
is_tripped-config b ch hint now =
    settle-config b (circuit_key ch hint)
      (read_entry b.config (b.entries (circuit_key ch hint)) now)

-- A question leaves what every later question reads.
is_tripped-reads :
    (b : CircuitBreaker) (ch hint k : Text) (now later : ℕ)
    → now ≤ later
    → view (read_entry b.config ((is_tripped b ch hint now).0.entries k) later)
      ≡ view (read_entry b.config (b.entries k) later)
is_tripped-reads b ch hint k now later h =
    let key = circuit_key ch hint in
    elim (Bool-cases (text_eq key k)) [
      | inl e ↦
          rw (is_tripped-entries b ch hint k now, e)
            (view-asked b.config (b.entries key) now later h
              ∙ ap (λ j. view (read_entry b.config (b.entries j) later)) ((text_eq_iff key k).0 e))
      | inr e ↦ rw (is_tripped-entries b ch hint k now, e) refl
    ]

asks-Alike :
    (b b' : CircuitBreaker) (ch hint : Text) (now t : ℕ)
    → Alike b b' now
    → now ≤ t
    → Alike (is_tripped b ch hint t).0 (is_tripped b' ch hint t).0 t
asks-Alike b b' ch hint now t alike h = record {
  configured =
      is_tripped-config b ch hint t ∙ alike.configured ∙ sym (is_tripped-config b' ch hint t);
  reads = λ key later after. rw (is_tripped-config b ch hint t) (
      is_tripped-reads b ch hint key t later after
      ∙ alike.reads key later (omega arith)
      ∙ rw alike.configured (sym (is_tripped-reads b' ch hint key t later after)));
}

-- A reset closes an entry, and a missing one reads alike.
reset-Reads :
    (c : CircuitConfig) (o o' : Option CircuitEntry) (now : ℕ)
    → Reads c (map_some reset_entry o) (map_some reset_entry o') now
unfolding read_entry view
reset-Reads c none none now later h = refl
reset-Reads c none (some e) now later h = refl
reset-Reads c (some e) none now later h = refl
reset-Reads c (some e) (some e') now later h = refl

if-Reads :
    (c : CircuitConfig) (t : Bool) (x x' y y' : Option CircuitEntry) (now : ℕ)
    → Reads c x x' now
    → Reads c y y' now
    → Reads c (if t then x else y) (if t then x' else y') now
if-Reads c true x x' y y' now h k = h
if-Reads c false x x' y y' now h k = k

succeeds-Alike :
    (b b' : CircuitBreaker) (ch hint : Text) (now : ℕ)
    → Alike b b' now
    → Alike (record_success b ch hint) (record_success b' ch hint) now
unfolding record_success
succeeds-Alike b b' ch hint now alike = record {
  configured = alike.configured;
  reads = λ key.
      if-Reads b.config (text_eq (circuit_key ch hint) key) _ _ _ _ now
        (reset-Reads b.config (b.entries key) (b'.entries key) now) (alike.reads key);
}

resets-Alike :
    (b b' : CircuitBreaker) (ch : Text) (now : ℕ)
    → Alike b b' now
    → Alike (reset_channel b ch) (reset_channel b' ch) now
unfolding reset_channel
resets-Alike b b' ch now alike = record {
  configured = alike.configured;
  reads = λ key.
      if-Reads b.config (starts_with key (ch ++ (b':' ∷ []))) _ _ _ _ now
        (reset-Reads b.config (b.entries key) (b'.entries key) now) (alike.reads key);
}

Alike-verdict :
    (b b' : CircuitBreaker) (ch hint : Text) (now t : ℕ)
    → Alike b b' now
    → now ≤ t
    → verdict b ch hint t ≡ verdict b' ch hint t
Alike-verdict b b' ch hint now t alike h =
    verdict_lem b ch hint t
    ∙ alike.reads (circuit_key ch hint) t h
    ∙ rw alike.configured (sym (verdict_lem b' ch hint t))

Alike-answers :
    (b b' : CircuitBreaker) (now : ℕ) (calls : List Call)
    → Alike b b' now
    → InOrder now calls
    → answers b calls ≡ answers b' calls
unfolding answers
Alike-answers b b' now [] alike h = refl
Alike-answers b b' now (asks ch hint t ∷ calls) alike (after, h) = cc (
  Alike-verdict b b' ch hint now t alike after,
  Alike-answers (is_tripped b ch hint t).0 (is_tripped b' ch hint t).0 t calls
      (asks-Alike b b' ch hint now t alike after) h,
)
Alike-answers b b' now (succeeds ch hint ∷ calls) alike h =
    Alike-answers (record_success b ch hint) (record_success b' ch hint) now calls
      (succeeds-Alike b b' ch hint now alike) h
Alike-answers b b' now (resets ch ∷ calls) alike h =
    Alike-answers (reset_channel b ch) (reset_channel b' ch) now calls
      (resets-Alike b b' ch now alike) h

-- In a breaker with valid entries, if the base cooldown is at most the cap and the age limit of a
-- cleanup at least the cap, a cleanup changes no answer of is_tripped in any later sequence of
-- calls of is_tripped in the order of time, successes and resets, until a failure is recorded.
pub cleanup_expired-answers :
    (b : CircuitBreaker) (max_age now : ℕ) (calls : List Call)
    → IsValid b
    → b.config.base_cooldown_secs ≤ b.config.max_cooldown_secs
    → from_secs b.config.max_cooldown_secs ≤ max_age
    → InOrder now calls
    → answers (cleanup_expired b max_age now) calls ≡ answers b calls
unfolding cleanup_expired
cleanup_expired-answers b max_age now calls v cap age h =
    Alike-answers (cleanup_expired b max_age now) b now calls
      (record {
        configured = refl;
        reads = λ key later after.
            view-keep_if b.config (b.entries key) max_age now later cap age after (v key);
      })
      h
