-- ===== src/Scheduler/Sticky/Tests.antt =====
-- A manager for two sessions, which is full.
use galaxy_router.Base.{
  ℕ, ◌≤◌, ◌<◌, ◌≡◌, refl, ap, some, [], ◌∷◌, arith, length, Text, text, text_eq,
}
use galaxy_router.Base.Int.{pos}
use galaxy_router.Base.Assoc.{get, keep}
use galaxy_router.Scheduler.Sticky.{
  StickySession, StickySessionManager, is_live, live_channel, get_session, session_for, set_session,
  cleanup_expired,
}
use mathlib.Core.Bool.{false≢true}
use galaxy_router.Scheduler.Sticky.Capacity.{
  IsValid, set_session-IsValid, set_session-other, set_session_self,
}

abbrev sess : Text → ℕ → StickySession
sess c t = record { channel_id = c; expires_at = t }

-- Of its two sessions the first expires at 10, the second at 900.
abbrev full : StickySessionManager
full = record {
  sessions = (text "s1", sess (text "ch-a") 10) ∷ (text "s2", sess (text "ch-b") 900) ∷ [];
  ttl_secs = pos 60;
  max_sessions = 2;
}

full-IsValid : IsValid full
unfolding get text_eq
full-IsValid = record { unique = (refl, (refl, tt)); bounded = omega arith }

set_session-IsValid_example :
    IsValid (set_session full (text "s3") (text "ch-c") 100) × IsValid (cleanup_expired full 100)
set_session-IsValid_example = set_session-IsValid full (text "s3") (text "ch-c") 100 full-IsValid

set_session-other_example :
    get_session (set_session full (text "s3") (text "ch-c") 100) (text "s2") 200
    ≡ get_session full (text "s2") 200
unfolding text_eq
set_session-other_example =
    set_session-other full (text "s3") (text "s2") (text "ch-c") 100 200 full-IsValid (omega arith)
      (λ e. false≢true (ap (λ t. text_eq t (text "s2")) e))

set_session_self_example :
    let answer = get_session (set_session full (text "s3") (text "ch-c") 100) (text "s3") 200 in
    (length (keep (is_live 100) full.sessions) < full.max_sessions
      → answer ≡ live_channel (some (session_for full (text "ch-c") 100)) 200)
    × (full.max_sessions ≤ length (keep (is_live 100) full.sessions)
        → answer ≡ get_session full (text "s3") 200)
set_session_self_example =
    set_session_self full (text "s3") (text "ch-c") 100 200 full-IsValid (omega arith)

-- A manager that is full of live sessions does not even renew one of its own.
not_renewed :
    get_session (set_session full (text "s1") (text "ch-c") 5) (text "s1") 6 ≡ some (text "ch-a")
unfolding set_session get_session get keep text_eq
not_renewed = refl
