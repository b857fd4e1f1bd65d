-- ===== src/Scheduler/LoadBalancer/Cleanup.antt =====
-- What changes no answer about a channel (state/mod.rs).
use galaxy_router.Base.{
  ℕ, ◌≤◌, ◌≡◌, refl, ◌≢◌, ◌⊎◌, inl, inr, Bool, false, Option, none, some, arith, Option-cases, Text,
  text_eq_iff, text_ne, map_some,
}
use galaxy_router.Base.Int.{ℤ}
use galaxy_router.Base.Float.{Floats}
use galaxy_router.Scheduler.Status.{
  ChannelStatus, Clock, minutes, failure_ttl, ttl_expired, after_minutes, passed, is_available,
}
use galaxy_router.Scheduler.Status as Status
use galaxy_router.Scheduler.LoadBalancer.{
  LoadBalancerState, fail_status, status_available, is_channel_available, lift_expired,
  cleanup_expired_blacklists, record_failure, ensured, ensure_channel_status,
}

module _ {F : Type 0} where
  lift_expired-available :
      (o : Option (ChannelStatus F)) (now later : ℕ)
      → now ≤ later
      → status_available (map_some (lift_expired now) o) later ≡ status_available o later
  unfolding is_available
  lift_expired-available none now later after = refl
  lift_expired-available (some s) now later after = elim (Option-cases s.blacklist_until) [
    | inl e ↦ rw e (ground arith)
    | inr (u, e) ↦ rw e (ground arith)
  ]

  -- A cleanup of the blacklist changes no answer about a channel at a later time.
  pub cleanup_expired_blacklists-is_channel_available :
      (lb : LoadBalancerState F) (id : Text) (now later : ℕ)
      → now ≤ later
      → is_channel_available (cleanup_expired_blacklists lb now) id later
        ≡ is_channel_available lb id later
  unfolding is_channel_available cleanup_expired_blacklists
  cleanup_expired_blacklists-is_channel_available lb id now later after =
      lift_expired-available (lb.channel_states id) now later after

module _ (fl : Floats) where
  open fl use {F}

  kept_status :
      (o : Option (ChannelStatus F)) (t later : ℕ)
      → status_available (map_some (fail_status false t) o) later ≡ status_available o later
  unfolding fail_status Status.record_failure is_available
  kept_status none t later = refl
  kept_status (some s) t later = refl

  -- A failure that is not to shut the channel out changes no answer about any channel, and a
  -- failure that is, none about another channel.
  pub record_failure-is_channel_available :
      (lb : LoadBalancerState F) (id other : Text) (b : Bool) (t later : ℕ)
      → (b ≡ false ⊎ id ≢ other)
      → is_channel_available (record_failure fl lb id b t) other later
        ≡ is_channel_available lb other later
  unfolding is_channel_available record_failure
  record_failure-is_channel_available lb id other b t later (inl e) =
      rw e (ground (arith, kept_status (lb.channel_states other) t later))
  record_failure-is_channel_available lb id other b t later (inr ne) = rw (text_ne id other ne) refl

  ensured-available :
      (o : Option (ChannelStatus F)) (id : Text) (slots threshold : ℕ) (m : ℤ) (now : Clock)
      (later : ℕ)
      → status_available (some (ensured fl id slots threshold m now o)) later
        ≡ status_available o later
  unfolding ensured Status.new is_available
  ensured-available none id slots threshold m now later = refl
  ensured-available (some s) id slots threshold m now later = refl

  -- Entering a channel, or copying its settings anew, changes no answer about any channel.
  pub ensure_channel_status-is_channel_available :
      (lb : LoadBalancerState F) (id other : Text) (slots threshold : ℕ) (m : ℤ) (now : Clock)
      (later : ℕ)
      → is_channel_available (ensure_channel_status fl lb id slots threshold m now) other later
        ≡ is_channel_available lb other later
  unfolding is_channel_available ensure_channel_status
  ensure_channel_status-is_channel_available lb id other slots threshold m now later = ground (
    arith,
    text_eq_iff id other,
    ensured-available (lb.channel_states id) id slots threshold m now later,
  )
