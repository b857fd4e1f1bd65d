-- ===== src/Scheduler/Sticky.antt =====
-- src/llm/scheduler/sticky.rs: the channel that a session was last served by. Times are numbers of
-- nanoseconds; a method reads the clock once. The map is a list of entries, since its size counts.
pub mod Capacity
mod Tests
use galaxy_router.Base.{
  ℕ, zero, suc, ◌+◌, ◌-◌, ◌*◌, ◌/◌, ◌%◌, ◌^◌, ◌≤◌, ◌<◌, min, max, ◌≡◌, refl, sym, ap, subst, ◌∙◌,
  fun_ext, ◌≢◌, ◌↔◌, ◌⊎◌, inl, inr, Bool, true, false, not, ◌&&◌, ◌||◌, Option, none, some, List,
  [], ◌∷◌, ◌++◌, map, arith, ltb, leb, ◌==◌, if◌then◌else◌, ltb→lt, lt→ltb, leb→le, le→leb, lt→leb,
  ==_iff, tests, Bool-cases, Option-cases, get_or, is_some, length, get_elem?, take, replicate,
  filter, find, any, count, All, length-append, length-replicate, count-append, length-filter-le,
  All-append, find-passes, any-find, Text, text, text_eq, text_eq_iff, text_eq_self, text_ne,
  starts_with, contains, to_ascii_lowercase, starts_with-append, Map, keep_if, map_some, new_map,
  insert, alter, retain,
}
use galaxy_router.Base.Int.{ℤ, pos, negsuc}
use galaxy_router.Base.Assoc.{Assoc, get, put, keep}

pub record StickySession : Type 0 where
  pub channel_id : Text
  pub expires_at : ℕ

pub record StickySessionManager : Type 0 where
  pub sessions : Assoc StickySession
  pub ttl_secs : ℤ  -- i64
  pub max_sessions : ℕ

unfoldable pub new : ℤ → ℕ → StickySessionManager
new ttl_secs max_sessions = record {
  sessions = [];
  ttl_secs = ttl_secs;
  max_sessions = max_sessions;
}

abbrev pub is_live : ℕ → StickySession → Bool
is_live now s = ltb now s.expires_at

-- `now + chrono::Duration::seconds(ttl)`, cut at the epoch.
abbrev pub after_secs : ℕ → ℤ → ℕ
after_secs now (pos s) = now + s * 1000000000
after_secs now (negsuc s) = now - suc s * 1000000000

abbrev pub live_channel : Option StickySession → ℕ → Option Text
live_channel none now = none
live_channel (some s) now = if is_live now s then some s.channel_id else none

unfoldable pub get_session : StickySessionManager → Text → ℕ → Option Text
get_session m session_hash now = live_channel (get session_hash m.sessions) now

abbrev pub session_for : StickySessionManager → Text → ℕ → StickySession
session_for m channel_id now = record {
  channel_id = channel_id;
  expires_at = after_secs now m.ttl_secs;
}

-- `set`: a full map first drops what has expired, and refuses if it is full still.
unfoldable pub set_session : StickySessionManager → Text → Text → ℕ → StickySessionManager
set_session m session_hash channel_id now =
    let kept : Assoc StickySession = keep (is_live now) m.sessions in
    let session = session_for m channel_id now in
    if leb m.max_sessions (length m.sessions)
    then if leb m.max_sessions (length kept)
      then record m { sessions = kept }
      else record m { sessions = put session_hash session kept }
    else record m { sessions = put session_hash session m.sessions }

unfoldable pub cleanup_expired : StickySessionManager → ℕ → StickySessionManager
cleanup_expired m now = record m { sessions = keep (is_live now) m.sessions }
