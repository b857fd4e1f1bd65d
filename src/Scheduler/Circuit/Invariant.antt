-- ===== src/Scheduler/Circuit/Invariant.antt =====
-- What holds of the entries of every reachable breaker (circuit.rs).
use galaxy_router.Base.{
  ℕ, ◌<◌, ◌≡◌, refl, subst, ◌⊎◌, inl, inr, Bool, true, false, Option, none, some, List, [], ◌∷◌,
  ◌++◌, arith, if◌then◌else◌, is_some, Text, text_eq, starts_with, keep_if, map_some, alter,
}
use galaxy_router.Scheduler.Circuit.{
  closed, half_open, CircuitEntry, CircuitConfig, CircuitBreaker, new, circuit_key, Verdict, answer,
  to_half_open, read_entry, enter_half_open, is_tripped, reset_entry, record_success, reset_channel,
  fail_entry, record_failure, is_recent, cleanup_expired,
}

-- What holds of an entry between two lock sections.
pub record EntryIsValid (c : CircuitConfig) (e : CircuitEntry) : Type 0 where
  pub below_threshold : e.state ≡ closed → e.consecutive_failures < c.failure_threshold
  pub has_failed : is_some e.last_failure_time ≡ true
  pub probe_unset : e.half_open_probe ≡ false

abbrev pub OptionIsValid : CircuitConfig → Option CircuitEntry → Type 0
OptionIsValid c none = Unit
OptionIsValid c (some e) = EntryIsValid c e

abbrev pub IsValid : CircuitBreaker → Type 0
IsValid b = (key : Text) → OptionIsValid b.config (b.entries key)

fail_entry-IsValid :
    (c : CircuitConfig) (o : Option CircuitEntry) (now : ℕ)
    → OptionIsValid c o
    → EntryIsValid c (fail_entry c o now)
unfolding fail_entry
fail_entry-IsValid c none now v = ground arith
fail_entry-IsValid c (some e) now v = ground arith

map_some-IsValid :
    (c : CircuitConfig) (f : CircuitEntry → CircuitEntry) (o : Option CircuitEntry)
    → ((e : CircuitEntry) → EntryIsValid c e → EntryIsValid c (f e))
    → OptionIsValid c o
    → OptionIsValid c (map_some f o)
map_some-IsValid c f none keep v = tt
map_some-IsValid c f (some e) keep v = keep e v

keep_if-IsValid :
    (c : CircuitConfig) (p : CircuitEntry → Bool) (o : Option CircuitEntry)
    → OptionIsValid c o
    → OptionIsValid c (keep_if p o)
keep_if-IsValid c p none v = tt
keep_if-IsValid c p (some e) v = ground arith

if-IsValid :
    (c : CircuitConfig) (t : Bool) (x y : Option CircuitEntry)
    → OptionIsValid c x
    → OptionIsValid c y
    → OptionIsValid c (if t then x else y)
if-IsValid c true x y hx hy = hx
if-IsValid c false x y hx hy = hy

-- The lock sections of the breaker. `promote` is the write section of `is_tripped` alone: another
-- task may have changed the entry since the section that read it.
pub data Section : Type 0 where
  promotes succeeds : Text → Text → Section
  fails : Text → Text → ℕ → Section
  resets : Text → Section
  cleans : ℕ → ℕ → Section

abbrev pub promote : CircuitBreaker → Text → Text → CircuitBreaker
promote b ch hint = record b { entries = alter (circuit_key ch hint) enter_half_open b.entries }

unfoldable pub section : CircuitBreaker → Section → CircuitBreaker
section b (promotes ch hint) = promote b ch hint
section b (succeeds ch hint) = record_success b ch hint
section b (fails ch hint now) = record_failure b ch hint now
section b (resets ch) = reset_channel b ch
section b (cleans max_age now) = cleanup_expired b max_age now

unfoldable pub run : CircuitBreaker → List Section → CircuitBreaker
run b [] = b
run b (s ∷ ss) = run (section b s) ss

config-section : (b : CircuitBreaker) (s : Section) → (section b s).config ≡ b.config
unfolding section record_success record_failure reset_channel cleanup_expired
config-section b (promotes ch hint) = refl
config-section b (succeeds ch hint) = refl
config-section b (fails ch hint now) = refl
config-section b (resets ch) = refl
config-section b (cleans max_age now) = refl

-- Every lock section, in any interleaving, keeps every entry valid.
pub section-IsValid :
    (b : CircuitBreaker) (s : Section)
    → 0 < b.config.failure_threshold
    → IsValid b
    → IsValid (section b s)
unfolding section record_success record_failure reset_channel cleanup_expired
section-IsValid b (promotes ch hint) pos v key =
    if-IsValid b.config (text_eq (circuit_key ch hint) key) _ _
      (map_some-IsValid b.config enter_half_open (b.entries key) (λ e w. ground arith) (v key))
      (v key)
section-IsValid b (succeeds ch hint) pos v key =
    if-IsValid b.config (text_eq (circuit_key ch hint) key) _ _
      (map_some-IsValid b.config reset_entry (b.entries key) (λ e w. ground arith) (v key)) (v key)
section-IsValid b (fails ch hint now) pos v key =
    if-IsValid b.config (text_eq (circuit_key ch hint) key) _ _
      (fail_entry-IsValid b.config (b.entries (circuit_key ch hint)) now (v (circuit_key ch hint)))
      (v key)
section-IsValid b (resets ch) pos v key =
    if-IsValid b.config (starts_with key (ch ++ (b':' ∷ []))) _ _
      (map_some-IsValid b.config reset_entry (b.entries key) (λ e w. ground arith) (v key)) (v key)
section-IsValid b (cleans max_age now) pos v key =
    keep_if-IsValid b.config (is_recent max_age now) (b.entries key) (v key)

run-IsValid :
    (b : CircuitBreaker) (ss : List Section)
    → 0 < b.config.failure_threshold
    → IsValid b
    → IsValid (run b ss)
unfolding run
run-IsValid b [] pos v = v
run-IsValid b (s ∷ ss) pos v =
    run-IsValid (section b s) ss (rw (config-section b s) pos) (section-IsValid b s pos v)

-- With a positive threshold, after any interleaving of the lock sections of the breaker from the
-- empty one, every closed entry has fewer failures than the threshold, every entry has a failure
-- time, and no entry has its probe flag set.
pub run-new-IsValid :
    (c : CircuitConfig) (ss : List Section) → 0 < c.failure_threshold → IsValid (run (new c) ss)
unfolding new
run-new-IsValid c ss pos = run-IsValid (new c) ss pos (λ key. tt)

-- A call of `is_tripped` changes the breaker by the `promotes` section or not at all.
pub is_tripped_sections :
    (b : CircuitBreaker) (ch hint : Text) (now : ℕ)
    → ((is_tripped b ch hint now).0 ≡ b)
      ⊎ ((is_tripped b ch hint now).0 ≡ section b (promotes ch hint))
unfolding is_tripped section
is_tripped_sections b ch hint now =
    cases (read_entry b.config (b.entries (circuit_key ch hint)) now) refl
  where
    cases :
        (v : Verdict)
        → read_entry b.config (b.entries (circuit_key ch hint)) now ≡ v
        → ((is_tripped b ch hint now).0 ≡ b)
          ⊎ ((is_tripped b ch hint now).0 ≡ section b (promotes ch hint))
    cases (answer t r) e = inl (rw (e, is_tripped) refl)
    cases to_half_open e = inr (rw (e, is_tripped) refl)

read_half :
    (c : CircuitConfig) (e : CircuitEntry) (now : ℕ)
    → EntryIsValid c e
    → e.state ≡ half_open
    → read_entry c (some e) now ≡ answer false none
unfolding read_entry
read_half c e now v half = ground arith

pub is_tripped_answer :
    (b : CircuitBreaker) (ch hint : Text) (now : ℕ) {e : CircuitEntry} {t : Bool} {r : Option ℕ}
    → read_entry b.config (some e) now ≡ answer t r
    → b.entries (circuit_key ch hint) ≡ some e
    → is_tripped b ch hint now ≡ (b, t, r)
unfolding is_tripped
is_tripped_answer b ch hint now reads found = rw (found, is_tripped) (rw (reads, is_tripped))

-- With a positive threshold, in every breaker reached by any interleaving of lock sections, a
-- half-open entry admits every caller and the call leaves the breaker as it is.
pub half_open_admits_all :
    (c : CircuitConfig) (ss : List Section) (ch hint : Text) (now : ℕ) (e : CircuitEntry)
    → 0 < c.failure_threshold
    → (run (new c) ss).entries (circuit_key ch hint) ≡ some e
    → e.state ≡ half_open
    → is_tripped (run (new c) ss) ch hint now ≡ (run (new c) ss, false, none)
half_open_admits_all c ss ch hint now e pos found half =
    rw (is_tripped_answer (run (new c) ss) ch hint now (read_half _ e now valid half) found)
  where
    valid : EntryIsValid (run (new c) ss).config e
    valid = subst (OptionIsValid (run (new c) ss).config) found (run-new-IsValid c ss pos _)
