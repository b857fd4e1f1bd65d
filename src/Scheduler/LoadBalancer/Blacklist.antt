-- ===== src/Scheduler/LoadBalancer/Blacklist.antt =====
-- When failures shut a channel out (state/mod.rs, record_failure).
use galaxy_router.Base.{
  ℕ, suc, ◌+◌, ◌-◌, ◌<◌, ◌≡◌, refl, sym, subst, ◌∙◌, Bool, true, false, Option, none, some, List,
  [], ◌∷◌, arith, leb, if◌then◌else◌, length, Text, text_eq_self, map_some,
}
use galaxy_router.Base.Int.{pos}
use galaxy_router.Base.Float.{Floats}
use galaxy_router.Scheduler.Status.{
  ChannelStatus, Clock, minutes, failure_ttl, ttl_expired, after_minutes, passed, is_available,
}
use galaxy_router.Scheduler.Status as Status
use galaxy_router.Scheduler.LoadBalancer.{
  LoadBalancerState, fail_status, is_channel_available, configure, record_failure, ensured,
  ensure_channel_status,
}

-- A failure at t comes within the time that counts of the one before it.
abbrev pub Recent : Option ℕ → ℕ → Type 0
Recent none t = Unit
Recent (some u) t = t - u < failure_ttl

-- Failures, each with whether it is to shut the channel out, and its time.
abbrev pub Failures : Type 0
Failures = List (Bool × ℕ)

abbrev pub Spaced : Option ℕ → Failures → Type 0
Spaced last [] = Unit
Spaced last ((b, t) ∷ ts) = Recent last t × Spaced (some t) ts

abbrev pub last_of : Option ℕ → Failures → Option ℕ
last_of last [] = last
last_of last ((b, t) ∷ ts) = last_of (some t) ts

-- Nothing is counted before the first failure.
abbrev Fresh : Option ℕ → ℕ → Type 0
Fresh none n = n ≡ 0
Fresh (some u) n = Unit

still_counts :
    (last : Option ℕ) (n t : ℕ)
    → Recent last t
    → Fresh last n
    → (if ttl_expired last t then 0 else n) ≡ n
still_counts none n t r fresh = sym fresh
still_counts (some u) n t r fresh = ground arith

module _ {F : Type 0} where
  -- n failures count, the last of them at `last`, and the channel is not shut out.
  record Failing (s : ChannelStatus F) (n : ℕ) (last : Option ℕ) (threshold : ℕ) (m : ℕ)
      : Type 0 where
    pub admitted : s.is_blacklisted ≡ false
    pub failures : s.failure_count ≡ n
    pub last_at : s.last_failure ≡ last
    pub limit : s.blacklist_threshold ≡ threshold
    pub time_out : s.blacklist_minutes ≡ pos m

  counted :
      (s : ChannelStatus F) (n t threshold m : ℕ) (last : Option ℕ)
      → Failing s n last threshold m
      → Recent last t
      → Fresh last n
      → (if ttl_expired s.last_failure t then 0 else s.failure_count) ≡ n
  counted s n t threshold m last f r fresh =
      rw (f.last_at, f.failures) (still_counts last n t r fresh)

  fail_status-below :
      (s : ChannelStatus F) (b : Bool) (n t threshold m : ℕ) (last : Option ℕ)
      → Failing s n last threshold m
      → Recent last t
      → Fresh last n
      → suc n < threshold
      → threshold < 18446744073709551616
      → Failing (fail_status b t s) (suc n) (some t) threshold m
  unfolding fail_status Status.record_failure
  fail_status-below s b n t threshold m last f r fresh below fits =
      let counts = counted s n t threshold m last f r fresh in
      record {
        admitted = ground (arith, counts, f.limit, f.admitted);
        failures = ground (arith, counts, f.limit);
        last_at = ground (arith, counts, f.limit);
        limit = ground (arith, counts, f.limit);
        time_out = ground (arith, counts, f.limit, f.time_out);
      }

  fail_status-at :
      (s : ChannelStatus F) (b : Bool) (n t threshold m later : ℕ) (last : Option ℕ)
      → Failing s n last threshold m
      → Recent last t
      → Fresh last n
      → suc n ≡ threshold
      → threshold < 18446744073709551616
      → is_available (fail_status b t s) later ≡ (if b then leb (t + minutes m) later else true)
  unfolding fail_status Status.record_failure Status.blacklist is_available
  fail_status-at s b n t threshold m later last f r fresh below fits =
      let counts = counted s n t threshold m last f r fresh in
      ground (arith, counts, f.limit, f.time_out, f.admitted)

module _ (fl : Floats) where
  open fl use {F}

  record_failure-state :
      (lb : LoadBalancerState F) (channel_id : Text) (b : Bool) (t : ℕ)
      → (record_failure fl lb channel_id b t).channel_states channel_id
        ≡ map_some (fail_status b t) (lb.channel_states channel_id)
  unfolding record_failure
  record_failure-state lb channel_id b t = rw (text_eq_self channel_id) refl

  pub fail_all : LoadBalancerState F → Text → Failures → LoadBalancerState F
  fail_all lb channel_id [] = lb
  fail_all lb channel_id ((b, t) ∷ ts) =
      fail_all (record_failure fl lb channel_id b t) channel_id ts

  record Tracks (lb : LoadBalancerState F) (channel_id : Text) (n : ℕ) (last : Option ℕ)
      (threshold : ℕ) (m : ℕ) : Type 0 where
    pub status : ChannelStatus F
    pub found : lb.channel_states channel_id ≡ some status
    pub failing : Failing status n last threshold m

  fail_all-Tracks :
      (lb : LoadBalancerState F) (id : Text) (ts : Failures) (n threshold m : ℕ) (last : Option ℕ)
      → Tracks lb id n last threshold m
      → Spaced last ts
      → Fresh last n
      → n + length ts < threshold
      → threshold < 18446744073709551616
      → Tracks (fail_all lb id ts) id (n + length ts) (last_of last ts) threshold m
        × Fresh (last_of last ts) (n + length ts)
  unfolding fail_all
  fail_all-Tracks lb id [] n threshold m last k sp fresh below fits = (
    subst (λ i. Tracks lb id i last threshold m) (omega arith) k,
    subst (λ i. Fresh last i) (omega arith) fresh,
  )
  fail_all-Tracks lb id ((b, t) ∷ ts) n threshold m last k (r, sp) fresh below fits =
      let next : Tracks (record_failure fl lb id b t) id (suc n) (some t) threshold m = record {
        status = fail_status b t k.status;
        found = record_failure-state lb id b t ∙ rw k.found refl;
        failing =
            fail_status-below k.status b n t threshold m last k.failing r fresh (omega arith) fits;
      } in
      let (tracks, counted') =
        fail_all-Tracks (record_failure fl lb id b t) id ts (suc n) threshold m (some t) next sp tt
          (omega arith) fits in
      (
        subst
            (λ i.
              Tracks (fail_all (record_failure fl lb id b t) id ts) id i (last_of (some t) ts)
                threshold m)
            (omega arith) tracks,
        subst (λ i. Fresh (last_of (some t) ts) i) (omega arith) counted',
      )

  -- A channel that is not known yet, with its settings copied, a threshold that fits a u64 and
  -- minutes that are not negative, and then failures, reported as ones that are to shut it out or
  -- not, that each come within 30 minutes of the one before: as long as they are fewer than the
  -- threshold the channel stays available; the failure that reaches the threshold shuts it out
  -- for exactly the minutes set if it is reported as one that is to, and else shuts nothing out.
  pub fail_all-is_channel_available :
      (lb : LoadBalancerState F) (id : Text) (slots threshold m : ℕ) (now : Clock) (ts : Failures)
      (b : Bool) (t later : ℕ)
      → lb.channel_states id ≡ none
      → Spaced none ts
      → length ts < threshold
      → threshold < 18446744073709551616
      → let failed = fail_all (ensure_channel_status fl lb id slots threshold (pos m) now) id ts in
        (is_channel_available failed id later ≡ true)
        × (Recent (last_of none ts) t
            → suc (length ts) ≡ threshold
            → is_channel_available (record_failure fl failed id b t) id later
              ≡ (if b then leb (t + minutes m) later else true))
  unfolding ensure_channel_status ensured Status.new is_channel_available is_available
  fail_all-is_channel_available lb id slots threshold m now ts b t later unknown sp below fits =
      let lb0 = ensure_channel_status fl lb id slots threshold (pos m) now in
      let known : Tracks lb0 id 0 none threshold m = record {
        status = configure slots threshold (pos m) (Status.new fl id now);
        found = rw (text_eq_self id, unknown) refl;
        failing = record {
          admitted = refl;
          failures = refl;
          last_at = refl;
          limit = refl;
          time_out = refl;
        };
      } in
      let (k, fresh) =
        fail_all-Tracks lb0 id ts 0 threshold m none known sp refl (omega arith) fits in
      (
        rw (k.found, k.failing.admitted) refl,
        λ r reached.
            rw (record_failure-state (fail_all lb0 id ts) id b t, k.found)
              (fail_status-at k.status b (0 + length ts) t threshold m later (last_of none ts)
                k.failing r fresh (omega arith) fits),
      )
