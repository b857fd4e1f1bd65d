-- ===== src/Scheduler/Status/Recovery.antt =====
-- How a channel comes back (channel_status.rs, record_success).
use galaxy_router.Base.{
  ℕ, suc, ◌/◌, ◌^◌, ◌≤◌, ◌<◌, ◌≡◌, refl, true, false, List, [], ◌∷◌, arith, length,
}
use galaxy_router.Base.Float.{Floats}
use galaxy_router.Scheduler.Status.{ChannelStatus, Clock, is_available, record_success}
use native.Mathlib.Nat.{pow-suc}

module _ (fl : Floats) where
  open fl use {F}

  pub succeed_all : ChannelStatus F → F → List Clock → ChannelStatus F
  succeed_all s latency_ms [] = s
  succeed_all s latency_ms (t ∷ ts) = succeed_all (record_success fl s latency_ms t) latency_ms ts

  halves :
      (s : ChannelStatus F) (latency_ms : F) (t : Clock)
      → ((record_success fl s latency_ms t).failure_count ≤ s.failure_count / 2)
        × ((record_success fl s latency_ms t).failure_count ≡ 0
            → (record_success fl s latency_ms t).is_blacklisted ≡ false)
  unfolding record_success
  halves s latency_ms t = (ground arith, λ e. ground arith)

  -- Successes halve the failures at least, so a channel with fewer than 2^(k+1) failures is
  -- available after k + 1 successes, whenever they come, blacklisted or not, and its failure
  -- count is 0.
  pub succeed_all-is_available :
      (s : ChannelStatus F) (latency_ms : F) (t : Clock) (ts : List Clock) (later : ℕ)
      → s.failure_count < 2 ^ suc (length ts)
      → ((succeed_all s latency_ms (t ∷ ts)).failure_count ≡ 0)
        × (is_available (succeed_all s latency_ms (t ∷ ts)) later ≡ true)
  unfolding succeed_all is_available
  succeed_all-is_available s latency_ms t [] later h =
      let done = halves s latency_ms t in
      let zero_left : (record_success fl s latency_ms t).failure_count ≡ 0 =
        omega (arith, done.0) in
      (zero_left, rw (done.1 zero_left) refl)
  succeed_all-is_available s latency_ms t (t' ∷ ts) later h =
      succeed_all-is_available (record_success fl s latency_ms t) latency_ms t' ts later
        (omega (arith, halves s latency_ms t, pow-suc 2 (suc (length ts))))
