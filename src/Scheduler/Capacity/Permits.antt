-- ===== src/Scheduler/Capacity/Permits.antt =====
-- What acquiring and dropping a permit do to the counters (capacity.rs).
use galaxy_router.Base.{
  ℕ, ◌+◌, ◌≤◌, ◌<◌, ◌≡◌, refl, ◌≢◌, ◌⊎◌, none, some, arith, Text, text_eq_iff, text_eq_self,
  text_ne,
}
use galaxy_router.Scheduler.Capacity.{
  ChannelCapacityManager, ChannelCapacityPermit, limited, active_count, try_acquire, drop_permit,
}

-- With a positive limit, a permit is given exactly while fewer requests are in flight than it
-- allows; a permit given counts, a refusal does not, and no other channel is touched.
pub try_acquire_lem :
    (m : ChannelCapacityManager) (channel_id other : Text) (limit : ℕ)
    → 0 < limit
    → limit < 4294967296
    → let n = active_count m channel_id in
      let (m', permit) = try_acquire m channel_id limit in
      ((n < limit) × (permit ≡ some (limited channel_id)) × (active_count m' channel_id ≡ n + 1)
        ⊎ (limit ≤ n) × (permit ≡ none) × (active_count m' channel_id ≡ n))
      × (channel_id ≢ other → active_count m' other ≡ active_count m other)
unfolding try_acquire active_count
try_acquire_lem m channel_id other limit pos fits =
    (ground (arith, text_eq_self channel_id), λ ne. ground (arith, text_ne channel_id other ne))

-- A permit that is dropped gives back what it took: each channel counts as it did before.
pub drop_permit-try_acquire :
    (m : ChannelCapacityManager) (channel_id other : Text) (limit : ℕ) (p : ChannelCapacityPermit)
    → limit < 4294967296
    → (try_acquire m channel_id limit).1 ≡ some p
    → active_count (drop_permit (try_acquire m channel_id limit).0 p) other ≡ active_count m other
unfolding try_acquire active_count drop_permit
drop_permit-try_acquire m channel_id other limit p fits given =
    ground (arith, text_eq_iff channel_id other)

-- Without a limit an acquisition leaves the count of every channel as it is.
pub acquire_unlimited :
    (m : ChannelCapacityManager) (channel_id other : Text)
    → active_count (try_acquire m channel_id 0).0 other ≡ active_count m other
unfolding try_acquire
acquire_unlimited m channel_id other = refl
