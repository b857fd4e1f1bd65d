-- ===== src/Scheduler/Sticky/Capacity.antt =====
-- The bound on the sessions, and what a full manager still remembers (sticky.rs).
use galaxy_router.Base.{
  ℕ, ◌≤◌, ◌<◌, ◌≡◌, refl, ◌≢◌, Option, none, some, arith, length, Text, text_eq_self, text_ne,
  keep_if,
}
use galaxy_router.Base.Assoc.{
  get, keep, IsUnique, get-put, put-IsUnique, length-put, get-keep, keep-IsUnique, length-keep,
}
use galaxy_router.Scheduler.Sticky.{
  StickySession, StickySessionManager, is_live, live_channel, get_session, session_for, set_session,
  cleanup_expired,
}

pub record IsValid (m : StickySessionManager) : Type 0 where
  pub unique : IsUnique m.sessions
  pub bounded : length m.sessions ≤ m.max_sessions

-- Setting a session and the cleanup keep a key to one entry, and the number of sessions within
-- the maximum.
pub set_session-IsValid :
    (m : StickySessionManager) (h c : Text) (now : ℕ)
    → IsValid m
    → IsValid (set_session m h c now) × IsValid (cleanup_expired m now)
unfolding set_session cleanup_expired
set_session-IsValid m h c now v =
    let kept = keep (is_live now) m.sessions in
    let u = keep-IsUnique (is_live now) m.sessions v.unique in
    let s = session_for m c now in
    ground (
      arith,
      u,
      length-keep (is_live now) m.sessions,
      put-IsUnique h s kept u,
      put-IsUnique h s m.sessions v.unique,
      length-put h s kept,
      length-put h s m.sessions,
    )

live_channel-keep :
    (m : StickySessionManager) (h : Text) (now later : ℕ)
    → IsUnique m.sessions
    → now ≤ later
    → live_channel (get h (keep (is_live now) m.sessions)) later
      ≡ live_channel (get h m.sessions) later
live_channel-keep m h now later u after =
    rw (get-keep h (is_live now) m.sessions u) (again (get h m.sessions))
  where
    again :
        (o : Option StickySession)
        → live_channel (keep_if (is_live now) o) later ≡ live_channel o later
    again none = refl
    again (some s) = ground arith

-- In a valid manager, setting one session changes what no other session is answered, at that time
-- or later, also where expired entries are dropped to make room.
pub set_session-other :
    (m : StickySessionManager) (h j c : Text) (now later : ℕ)
    → IsValid m
    → now ≤ later
    → h ≢ j
    → get_session (set_session m h c now) j later ≡ get_session m j later
unfolding set_session get_session
set_session-other m h j c now later v after ne =
    let kept = keep (is_live now) m.sessions in
    let s = session_for m c now in
    ground (
      arith,
      text_ne h j ne,
      get-put h j s kept,
      get-put h j s m.sessions,
      live_channel-keep m j now later v.unique after,
    )

-- In a valid manager, the session that is set is answered with its channel until it expires if
-- fewer live sessions than the maximum are there; otherwise it is answered as before, also a
-- session that is there already.
pub set_session_self :
    (m : StickySessionManager) (h c : Text) (now later : ℕ)
    → IsValid m
    → now ≤ later
    → let answer = get_session (set_session m h c now) h later in
      (length (keep (is_live now) m.sessions) < m.max_sessions
        → answer ≡ live_channel (some (session_for m c now)) later)
      × (m.max_sessions ≤ length (keep (is_live now) m.sessions) → answer ≡ get_session m h later)
unfolding set_session get_session
set_session_self m h c now later v after =
    let kept = keep (is_live now) m.sessions in
    let s = session_for m c now in
    (
      λ room. ground (arith, text_eq_self h, get-put h h s kept, get-put h h s m.sessions),
      λ full. ground (
        arith,
        length-keep (is_live now) m.sessions,
        live_channel-keep m h now later v.unique after,
      ),
    )
