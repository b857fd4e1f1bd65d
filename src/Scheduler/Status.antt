-- ===== src/Scheduler/Status.antt =====
-- src/llm/scheduler/state/channel_status.rs: what is remembered of one channel. A `DateTime<Utc>` and an
-- `Instant` are numbers of nanoseconds; a method reads each clock once.
pub mod Recovery
mod Tests
use galaxy_router.Base.{
  ℕ, zero, suc, ◌+◌, ◌-◌, ◌*◌, ◌/◌, ◌%◌, ◌^◌, ◌≤◌, ◌<◌, min, max, ◌≡◌, refl, sym, ap, subst, ◌∙◌,
  fun_ext, ◌≢◌, ◌↔◌, ◌⊎◌, inl, inr, Bool, true, false, not, ◌&&◌, ◌||◌, Option, none, some, List,
  [], ◌∷◌, ◌++◌, map, arith, ltb, leb, ◌==◌, if◌then◌else◌, ltb→lt, lt→ltb, leb→le, le→leb, lt→leb,
  ==_iff, tests, Bool-cases, Option-cases, get_or, is_some, length, get_elem?, take, replicate,
  filter, find, any, count, All, length-append, length-replicate, count-append, length-filter-le,
  All-append, find-passes, any-find, Text, text, text_eq, text_eq_iff, text_eq_self, text_ne,
  starts_with, contains, to_ascii_lowercase, starts_with-append, Map, keep_if, map_some, new_map,
  insert, alter, retain,
}
use galaxy_router.Base.Int.{ℤ, pos, negsuc}
use galaxy_router.Base.Float.{Floats}

pub record ChannelStatus (F : Type 0) : Type 0 where
  pub channel_id : Text
  pub success_count : ℕ  -- u64
  pub failure_count : ℕ  -- u64
  pub last_success : Option ℕ
  pub last_failure : Option ℕ
  pub avg_latency_ms : F
  pub is_blacklisted : Bool
  pub blacklist_until : Option ℕ
  pub active_requests : ℕ  -- u64
  pub last_used_at : ℕ
  pub max_concurrency : ℕ
  pub blacklist_threshold : ℕ
  pub blacklist_minutes : ℤ  -- i64

-- The two clocks.
pub record Clock : Type 0 where
  pub utc : ℕ
  pub instant : ℕ

abbrev pub u64 : ℕ → ℕ
u64 n = n % 18446744073709551616

abbrev pub minutes : ℕ → ℕ
minutes m = m * 60000000000

abbrev pub failure_ttl : ℕ
failure_ttl = minutes 30

-- `last_failure.map(|t| Utc::now() - t >= FAILURE_TTL).unwrap_or(true)`.
abbrev pub ttl_expired : Option ℕ → ℕ → Bool
ttl_expired none now = true
ttl_expired (some t) now = leb failure_ttl (now - t)

-- `Utc::now() + chrono::Duration::minutes(m)`, cut at the epoch.
abbrev pub after_minutes : ℕ → ℤ → ℕ
after_minutes now (pos m) = now + minutes m
after_minutes now (negsuc m) = now - minutes (suc m)

-- `Utc::now() >= until`, where a time is set.
abbrev pub passed : Option ℕ → ℕ → Bool
passed none now = false
passed (some until) now = leb until now

module _ {F : Type 0} where
  abbrev pub increment_active : ChannelStatus F → ChannelStatus F
  increment_active s = record s { active_requests = u64 (s.active_requests + 1) }

  -- `fetch_sub(1)`, which wraps.
  abbrev pub decrement_active : ChannelStatus F → ChannelStatus F
  decrement_active s = record s { active_requests = u64 (s.active_requests + 18446744073709551615) }

  unfoldable pub record_failure : ChannelStatus F → ℕ → ChannelStatus F
  record_failure s now =
      let count : ℕ = if ttl_expired s.last_failure now then 0 else s.failure_count in
      record s { failure_count = u64 (count + 1); last_failure = some now }

  unfoldable pub blacklist : ChannelStatus F → ℤ → ℕ → ChannelStatus F
  blacklist s m now = record s {
    is_blacklisted = true;
    blacklist_until = some (after_minutes now m);
  }

  unfoldable pub is_available : ChannelStatus F → ℕ → Bool
  is_available s now = if s.is_blacklisted then passed s.blacklist_until now else true

module _ (fl : Floats) where
  open fl use {F, lit, of_nat, add, mul, feq}

  unfoldable pub new : Text → Clock → ChannelStatus F
  new channel_id now = record {
    channel_id = channel_id;
    success_count = 0;
    failure_count = 0;
    last_success = none;
    last_failure = none;
    avg_latency_ms = of_nat 0;
    is_blacklisted = false;
    blacklist_until = none;
    active_requests = 0;
    last_used_at = now.instant;
    max_concurrency = 0;
    blacklist_threshold = 3;
    blacklist_minutes = pos 10;
  }

  -- 0.8 * old + 0.2 * sample, or the sample while there is no average.
  abbrev pub average : F → F → F
  average avg sample =
      if feq avg (of_nat 0) then sample else add (mul (lit 8 1) avg) (mul (lit 2 1) sample)

  unfoldable pub record_success : ChannelStatus F → F → Clock → ChannelStatus F
  record_success s latency_ms now =
      let count : ℕ = if ttl_expired s.last_failure now.utc then 0 else s.failure_count / 2 in
      record s {
        success_count = u64 (s.success_count + 1);
        last_success = some now.utc;
        failure_count = count;
        is_blacklisted = if count == 0 then false else s.is_blacklisted;
        blacklist_until = if count == 0 then none else s.blacklist_until;
        avg_latency_ms = average s.avg_latency_ms latency_ms;
        last_used_at = now.instant;
      }
