-- ===== src/Scheduler/Capacity.antt =====
-- src/llm/scheduler/capacity.rs: how many requests a channel has in flight. Here `try_acquire` runs
-- without interference; `Races` has its compare-and-exchange loop under any interleaving.
pub mod Races
pub mod Permits
mod Tests
use galaxy_router.Base.{
  ℕ, zero, suc, ◌+◌, ◌-◌, ◌*◌, ◌/◌, ◌%◌, ◌^◌, ◌≤◌, ◌<◌, min, max, ◌≡◌, refl, sym, ap, subst, ◌∙◌,
  fun_ext, ◌≢◌, ◌↔◌, ◌⊎◌, inl, inr, Bool, true, false, not, ◌&&◌, ◌||◌, Option, none, some, List,
  [], ◌∷◌, ◌++◌, map, arith, ltb, leb, ◌==◌, if◌then◌else◌, ltb→lt, lt→ltb, leb→le, le→leb, lt→leb,
  ==_iff, tests, Bool-cases, Option-cases, get_or, is_some, length, get_elem?, take, replicate,
  filter, find, any, count, All, length-append, length-replicate, count-append, length-filter-le,
  All-append, find-passes, any-find, Text, text, text_eq, text_eq_iff, text_eq_self, text_ne,
  starts_with, contains, to_ascii_lowercase, starts_with-append, Map, keep_if, map_some, new_map,
  insert, alter, retain,
}

-- The field `states`: the counter of each channel.
abbrev pub ChannelCapacityManager : Type 0
ChannelCapacityManager = Map ℕ

unfoldable pub new : ChannelCapacityManager
new = new_map

-- A permit holds the channel whose counter it gives back, if any.
pub data ChannelCapacityPermit : Type 0 where
  unlimited : ChannelCapacityPermit
  limited : Text → ChannelCapacityPermit

-- `fetch_sub(1)` on an AtomicU32, which wraps.
abbrev pub decrement : ℕ → ℕ
decrement n = (n + 4294967295) % 4294967296

abbrev pub increment : ℕ → ℕ
increment n = (n + 1) % 4294967296

unfoldable pub active_count : ChannelCapacityManager → Text → ℕ
active_count m channel_id = get_or 0 (m channel_id)

-- `state_for` enters a counter also where the request is then refused.
unfoldable pub try_acquire :
    ChannelCapacityManager → Text → ℕ → ChannelCapacityManager × Option ChannelCapacityPermit
try_acquire m channel_id max_concurrency =
    let current : ℕ = get_or 0 (m channel_id) in
    if max_concurrency == 0
    then (m, some unlimited)
    else if leb max_concurrency current
    then (insert channel_id current m, none)
    else (insert channel_id (increment current) m, some (limited channel_id))

-- `impl Drop for ChannelCapacityPermit`.
unfoldable pub drop_permit : ChannelCapacityManager → ChannelCapacityPermit → ChannelCapacityManager
drop_permit m unlimited = m
drop_permit m (limited channel_id) = alter channel_id decrement m
