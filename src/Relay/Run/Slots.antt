-- ===== src/Relay/Run/Slots.antt =====
-- What a run leaves of the counters of capacity.rs (run.rs), where no other task interferes.
use galaxy_router.Base.{
  ℕ, ◌<◌, ◌≡◌, refl, subst, ◌∙◌, Bool, true, false, Option, none, some, List, [], ◌∷◌, arith, All,
  Text, text_eq_iff,
}
use galaxy_router.Scheduler.Capacity.{
  ChannelCapacityManager, ChannelCapacityPermit, active_count, try_acquire, drop_permit,
}
use galaxy_router.Relay.Run.{
  RelayRequest, RelayCandidate, Response, ok, err, RelayAttemptResult, Executor, RelayRunOutcome,
  Machine, Next, again, stop, done, admit_if, admit, fail_attempt, win, win_and_drop, win_and_keep,
  Finish, respond, try_admitted, attempt, give_up, proceed, loop, start, execute, execute_stream,
}
use galaxy_router.Scheduler.Capacity.Permits.{drop_permit-try_acquire}

-- The request still holds nothing, or the permit inside its streamed response.
abbrev pub give_back :
    {R : Type 0}
    → (R → ChannelCapacityManager → ChannelCapacityManager)
    → Option R
    → ChannelCapacityManager
    → ChannelCapacityManager
give_back back none capacity = capacity
give_back back (some r) capacity = back r capacity

refused_lem :
    (m : ChannelCapacityManager) (channel_id other : Text) (limit : ℕ)
    → (try_acquire m channel_id limit).1 ≡ none
    → active_count (try_acquire m channel_id limit).0 other ≡ active_count m other
unfolding try_acquire active_count
refused_lem m channel_id other limit given = ground (arith, text_eq_iff channel_id other)

abbrev pub SameCount : Text → ChannelCapacityManager → ChannelCapacityManager → Type 0
SameCount other a b = active_count a other ≡ active_count b other

module _ {F S : Type 0} (other : Text) where
  abbrev pub Held : ChannelCapacityManager → Machine F S × Option ChannelCapacityPermit → Type 0
  Held before (m, none) = SameCount other m.capacity before
  Held before (m, some p) = SameCount other (drop_permit m.capacity p) before

  admit_if-Held :
      (c : RelayCandidate F) (state : S) (available : Bool) (m : Machine F S)
      (taken : ChannelCapacityManager × Option ChannelCapacityPermit)
      → (taken.1 ≡ none → SameCount other taken.0 m.capacity)
      → ((p : ChannelCapacityPermit)
          → taken.1 ≡ some p
          → SameCount other (drop_permit taken.0 p) m.capacity)
      → Held m.capacity (admit_if c state taken available m)
  unfolding admit_if
  admit_if-Held c state false m taken refused given = refl
  admit_if-Held c state true m (capacity, none) refused given = refused refl
  admit_if-Held c state true m (capacity, some p) refused given = given p refl

module _ {F S R' : Type 0} (back : R' → ChannelCapacityManager → ChannelCapacityManager)
    (other : Text) where
  abbrev pub Balanced : ChannelCapacityManager → Machine F S × Next F R' → Type 0
  Balanced before (m, again) = SameCount other m.capacity before
  Balanced before (m, stop) = SameCount other m.capacity before
  Balanced before (m, done o) = SameCount other (give_back back o.response m.capacity) before

  module _ {R : Type 0} (ex : Executor F S R) (req : RelayRequest) (f : Finish F S R R') where
    abbrev Settles : Type 0
    Settles =
        (before : ChannelCapacityManager) (c : RelayCandidate F) (p : ChannelCapacityPermit)
        (m : Machine F S) (r : R) (elapsed : ℕ)
        → SameCount other (drop_permit m.capacity p) before
        → Balanced before (f c p m r elapsed)

    respond-Balanced :
        Settles
        → (before : ChannelCapacityManager) (c : RelayCandidate F) (p : ChannelCapacityPermit)
          (m : Machine F S) (x : Response R) (result : RelayAttemptResult R) (written : Bool)
        → SameCount other (drop_permit m.capacity p) before
        → Balanced before (respond ex req f c p m x (record result { response_written = written }))
    unfolding respond fail_attempt
    respond-Balanced fs before c p m (ok r) result written h = fs before c p m r result.elapsed_ms h
    respond-Balanced fs before c p m (err e) result true h = h
    respond-Balanced fs before c p m (err e) result false h = h

    try_admitted-Balanced :
        Settles
        → (before : ChannelCapacityManager) (c : RelayCandidate F)
          (taken : Machine F S × Option ChannelCapacityPermit)
        → Held other before taken
        → Balanced before (try_admitted ex req f c taken)
    unfolding try_admitted
    try_admitted-Balanced fs before c (m, none) h = h
    try_admitted-Balanced fs before c (m, some p) h =
        let tried = ex.try_candidate m.state req c in
        respond-Balanced fs before c p (record m { state = tried.0 }) tried.1.response tried.1
          tried.1.response_written h

    attempt-Balanced :
        Settles
        → (c : RelayCandidate F) (m : Machine F S) → c.max_concurrency < 4294967296
        → Balanced m.capacity (attempt ex req f c m)
    unfolding attempt admit
    attempt-Balanced fs c m fits = try_admitted-Balanced fs m.capacity c (admit ex c m) (
        admit_if-Held other c (ex.is_channel_available m.state c.channel_id).0
          (ex.is_channel_available m.state c.channel_id).1 m
          (try_acquire m.capacity c.channel_id c.max_concurrency)
          (λ e. refused_lem m.capacity c.channel_id other c.max_concurrency e)
          (λ p e. drop_permit-try_acquire m.capacity c.channel_id other c.max_concurrency p fits e))

    proceed-Balanced :
        (before : ChannelCapacityManager) (rest : Machine F S → Machine F S × RelayRunOutcome F R')
        (r : Machine F S × Next F R')
        → Balanced before r
        → ((m : Machine F S)
            → SameCount other (give_back back (rest m).1.response (rest m).0.capacity) m.capacity)
        → SameCount other
            (give_back back (proceed rest r).1.response (proceed rest r).0.capacity)
            before
    unfolding proceed give_up
    proceed-Balanced before rest (m, again) h ih = ih m ∙ h
    proceed-Balanced before rest (m, stop) h ih = h
    proceed-Balanced before rest (m, done o) h ih = h

    pub loop-Balanced :
        Settles
        → (cs : List (RelayCandidate F)) (m : Machine F S)
        → All (λ c. c.max_concurrency < 4294967296) cs
        → let r = loop (attempt ex req f) cs m in
          SameCount other (give_back back r.1.response r.0.capacity) m.capacity
    unfolding loop give_up
    loop-Balanced fs [] m fit = refl
    loop-Balanced fs (c ∷ cs) m (fits, fit) =
        proceed-Balanced m.capacity (λ m'. loop (attempt ex req f) cs m') (attempt ex req f c m)
          (attempt-Balanced fs c m fits) (λ m'. loop-Balanced fs cs m' fit)

give_back-keep :
    {R : Type 0} (o : Option R) (capacity : ChannelCapacityManager)
    → give_back (λ r c. c) o capacity ≡ capacity
give_back-keep none capacity = refl
give_back-keep (some r) capacity = refl

-- A plain run whose candidates have limits that fit an u32 gives back every slot that it takes,
-- however it ends.
pub execute-slots :
    {F S R : Type 0} (ex : Executor F S R) (req : RelayRequest) (cs : List (RelayCandidate F))
    (capacity : ChannelCapacityManager) (state : S) (other : Text)
    → All (λ c. c.max_concurrency < 4294967296) cs
    → active_count (execute ex req cs capacity state).0.capacity other ≡ active_count capacity other
unfolding execute win_and_drop win
execute-slots ex req cs capacity state other fit =
    let (m, o) = execute ex req cs capacity state in
    subst (λ k. SameCount other k capacity) (give_back-keep o.response m.capacity)
      (loop-Balanced (λ r c. c) other ex req win_and_drop (λ before c p m' r elapsed h. h) cs
        (start req capacity state) fit)

-- A streamed run whose candidates have limits that fit an u32 holds the slot of the permit that
-- is in its response and no other: with that permit given back, every channel counts as before
-- the run.
pub execute_stream-slots :
    {F S R : Type 0} (ex : Executor F S R) (req : RelayRequest) (cs : List (RelayCandidate F))
    (capacity : ChannelCapacityManager) (state : S) (other : Text)
    → All (λ c. c.max_concurrency < 4294967296) cs
    → let (m, o) = execute_stream ex req cs capacity state in
      active_count (give_back (λ rp k. drop_permit k rp.1) o.response m.capacity) other
      ≡ active_count capacity other
unfolding execute_stream win_and_keep win
execute_stream-slots ex req cs capacity state other fit =
    loop-Balanced (λ rp k. drop_permit k rp.1) other ex req win_and_keep
      (λ before c p m' r elapsed h. h) cs (start req capacity state) fit
