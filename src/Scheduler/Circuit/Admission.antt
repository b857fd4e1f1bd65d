-- ===== src/Scheduler/Circuit/Admission.antt =====
-- When a (channel, key) pair is refused, and for how long (circuit.rs, is_tripped).
use galaxy_router.Base.{
  ℕ, ◌-◌, ◌≤◌, ◌<◌, ◌≡◌, refl, sym, ap, ◌≢◌, ◌↔◌, Bool, true, false, Option, none, some, arith,
  Text, text_eq_self, text_ne, keep_if, alter,
}
use galaxy_router.Scheduler.Circuit.{
  settle, open_, CircuitEntry, CircuitConfig, CircuitBreaker, from_secs, circuit_key,
  cooldown_duration, elapsed, Verdict, answer, to_half_open, read_entry, enter_half_open,
  is_tripped, is_recent,
}
use galaxy_router.Scheduler.Circuit.Backoff.{cooldown_le_max}
use galaxy_router.Scheduler.Circuit.Invariant.{OptionIsValid, IsValid, is_tripped_answer}

-- What `is_tripped` answers, without the state it leaves.
abbrev pub verdict : CircuitBreaker → Text → Text → ℕ → Bool × Option ℕ
verdict b ch hint now =
    let (b', tripped, remaining) = is_tripped b ch hint now in (tripped, remaining)

unfoldable pub view : Verdict → Bool × Option ℕ
view (answer t r) = (t, r)
view to_half_open = (false, none)

view-settle :
    (b : CircuitBreaker) (key : Text) (v : Verdict)
    → (let (b', t, r) = settle b key v in ◌≡◌ {A = Bool × Option ℕ} (t, r) (view v))
unfolding settle view
view-settle b key (answer t r) = refl
view-settle b key to_half_open = refl

pub verdict_lem :
    (b : CircuitBreaker) (ch hint : Text) (now : ℕ)
    → verdict b ch hint now ≡ view (read_entry b.config (b.entries (circuit_key ch hint)) now)
unfolding is_tripped
verdict_lem b ch hint now =
    view-settle b (circuit_key ch hint) (read_entry b.config (b.entries (circuit_key ch hint)) now)

-- An entry keeps its callers out at a time.
pub record Blocks (c : CircuitConfig) (e : CircuitEntry) (now : ℕ) : Type 0 where
  pub is_open : e.state ≡ open_
  pub cooling : elapsed e.last_failure_time now < cooldown_duration c e.trip_count

-- While an open entry cools down every caller is refused, is told the rest of the cooldown, which
-- is positive, and changes nothing.
pub is_tripped-Blocks :
    (b : CircuitBreaker) (ch hint : Text) (now : ℕ) (e : CircuitEntry)
    → b.entries (circuit_key ch hint) ≡ some e
    → Blocks b.config e now
    → let left = cooldown_duration b.config e.trip_count - elapsed e.last_failure_time now in
      (is_tripped b ch hint now ≡ (b, true, some left)) × (0 < left)
unfolding read_entry
is_tripped-Blocks b ch hint now e found h =
    (is_tripped_answer b ch hint now (ground arith) found, omega (arith, h.cooling))

reads_cooled :
    (c : CircuitConfig) (e : CircuitEntry) (now : ℕ)
    → e.state ≡ open_
    → cooldown_duration c e.trip_count ≤ elapsed e.last_failure_time now
    → read_entry c (some e) now ≡ to_half_open
unfolding read_entry
reads_cooled c e now is_open cooled = ground arith

is_tripped_to_half_open :
    (b : CircuitBreaker) (ch hint : Text) (now : ℕ)
    → read_entry b.config (b.entries (circuit_key ch hint)) now ≡ to_half_open
    → is_tripped b ch hint now
      ≡ (record b { entries = alter (circuit_key ch hint) enter_half_open b.entries }, false, none)
unfolding is_tripped
is_tripped_to_half_open b ch hint now e = rw (e, is_tripped)

-- When an open entry has cooled down, the caller is let through, the entry is half-open with its
-- probe flag cleared after the call, and every other entry stays.
pub is_tripped_promotes :
    (b : CircuitBreaker) (ch hint : Text) (now : ℕ) (e : CircuitEntry)
    → b.entries (circuit_key ch hint) ≡ some e
    → e.state ≡ open_
    → cooldown_duration b.config e.trip_count ≤ elapsed e.last_failure_time now
    → let after = (is_tripped b ch hint now).0 in
      (verdict b ch hint now ≡ (false, none))
      × (after.entries (circuit_key ch hint) ≡ some (enter_half_open e))
      × ((key : Text) → key ≢ circuit_key ch hint → after.entries key ≡ b.entries key)
is_tripped_promotes b ch hint now e found is_open cooled =
    let moved =
      is_tripped_to_half_open b ch hint now
        (rw found (reads_cooled b.config e now is_open cooled)) in
    rw moved (
      refl,
      rw (text_eq_self (circuit_key ch hint), found) refl,
      λ key other. rw (text_ne (circuit_key ch hint) key (λ e. other (sym e))) refl,
    )

view_iff :
    (c : CircuitConfig) (o : Option CircuitEntry) (now : ℕ)
    → OptionIsValid c o
    → ((view (read_entry c o now)).0 ≡ true) ↔ ((e : CircuitEntry) × (o ≡ some e) × Blocks c e now)
unfolding read_entry view
view_iff c none now v = (λ h. cc, λ h. cc (h.1))
view_iff c (some e) now v = (λ h. (e, refl, ground arith), λ h. ground arith)

-- In a breaker with valid entries a caller is refused exactly when the pair has an entry that is
-- open and whose cooldown has not elapsed.
pub is_tripped_iff :
    (b : CircuitBreaker) (ch hint : Text) (now : ℕ)
    → IsValid b
    → ((is_tripped b ch hint now).1 ≡ true)
      ↔ ((e : CircuitEntry) × (b.entries (circuit_key ch hint) ≡ some e) × Blocks b.config e now)
is_tripped_iff b ch hint now v =
    rw (ap (λ (p : Bool × Option ℕ). p.0) (verdict_lem b ch hint now))
      (view_iff b.config (b.entries (circuit_key ch hint)) now (v (circuit_key ch hint)))

pub view-keep_if :
    (c : CircuitConfig) (o : Option CircuitEntry) (max_age now later : ℕ)
    → c.base_cooldown_secs ≤ c.max_cooldown_secs
    → from_secs c.max_cooldown_secs ≤ max_age
    → now ≤ later
    → OptionIsValid c o
    → view (read_entry c (keep_if (is_recent max_age now) o) later) ≡ view (read_entry c o later)
unfolding read_entry view
view-keep_if c none max_age now later cap age after v = refl
view-keep_if c (some e) max_age now later cap age after v =
    ground (arith, cooldown_le_max c e.trip_count cap)
