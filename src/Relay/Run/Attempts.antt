-- ===== src/Relay/Run/Attempts.antt =====
-- What a run records of its candidates, and what it answers (run.rs).
use galaxy_router.Base.{
  ℕ, suc, ◌≡◌, refl, ap, ◌∙◌, Bool, true, false, Option, none, some, List, [], ◌∷◌, ◌++◌,
  if◌then◌else◌, is_some, length, Text, text,
}
use galaxy_router.Scheduler.Capacity.{ChannelCapacityManager, ChannelCapacityPermit, try_acquire}
use galaxy_router.Relay.Trace.{AttemptStatus, success, failed, AttemptTrace, next_no, draft, finish}
use galaxy_router.Relay.Run.{
  RelayRequest, RelayCandidate, RelayAttemptError, Response, ok, err, RelayAttemptResult, Executor,
  Machine, Next, again, stop, done, note, admit_if, admit, fail_attempt, win, after_failure, Finish,
  respond, try_admitted, attempt,
}

abbrev pub has_failed : AttemptStatus → Bool
has_failed failed = true
has_failed _ = false

abbrev pub has_succeeded : AttemptStatus → Bool
has_succeeded success = true
has_succeeded _ = false

-- The error that the run would answer with.
abbrev pub reported : Option RelayAttemptError → Option Text
reported none = some (text "no available candidate")
reported (some e) = some e.message

module _ {F : Type 0} where
  -- The traces, from the n-th on, are those of the first candidates, in order and numbered.
  abbrev pub Follows : ℕ → List (RelayCandidate F) → List (AttemptTrace F) → Type 0
  Follows n cs [] = Unit
  Follows n [] (t ∷ ts) = true ≡ false
  Follows n (c ∷ cs) (t ∷ ts) =
      (t.attempt_no ≡ next_no n) × (t.channel_id ≡ some c.channel_id) × Follows (suc n) cs ts

  -- The reason of the last failed attempt, or else the text given.
  unfoldable pub last_reason : Option Text → List (AttemptTrace F) → Option Text
  last_reason d [] = d
  last_reason d (t ∷ ts) = last_reason (if has_failed t.status then t.reason else d) ts

  last_reason-append :
      (d : Option Text) (ts : List (AttemptTrace F)) (t : AttemptTrace F)
      → last_reason d (ts ++ (t ∷ []))
        ≡ (if has_failed t.status then t.reason else last_reason d ts)
  unfolding last_reason
  last_reason-append d [] t = refl
  last_reason-append d (u ∷ ts) t =
      last_reason-append (if has_failed u.status then u.reason else d) ts t

  -- The trace that one candidate leaves.
  pub record Noted {S : Type 0} (c : RelayCandidate F) (m m' : Machine F S) : Type 0 where
    pub trace : AttemptTrace F
    pub appended : m'.builder.traces ≡ m.builder.traces ++ (trace ∷ [])
    pub numbered : trace.attempt_no ≡ next_no (length m.builder.traces)
    pub named : trace.channel_id ≡ some c.channel_id
    pub explained :
        reported m'.last_error
        ≡ (if has_failed trace.status then trace.reason else reported m.last_error)

  -- How one candidate ends: the trace that it leaves, and the outcome if it is the last one.
  abbrev pub Ends : {R : Type 0} → List (AttemptTrace F) → AttemptTrace F → Next F R → Type 0
  Ends ts t again = has_succeeded t.status ≡ false
  Ends ts t stop = has_succeeded t.status ≡ false
  Ends ts t (done o) =
      (has_succeeded t.status ≡ true)
      × (is_some o.response ≡ true)
      × (o.selected_channel_id ≡ t.channel_id)
      × (o.status_code ≡ 200)
      × (o.error_message ≡ none)
      × (o.attempts ≡ ts)

  abbrev pub Step :
      {S R : Type 0} → RelayCandidate F → Machine F S → Machine F S × Next F R → Type 0
  Step c m (m', next) = (n : Noted c m m') × Ends m'.builder.traces n.trace next

  abbrev pub Admitted :
      {S : Type 0}
      → RelayCandidate F
      → Machine F S
      → Machine F S × Option ChannelCapacityPermit
      → Type 0
  Admitted c m (m', none) = (n : Noted c m m') × has_succeeded n.trace.status ≡ false
  Admitted c m (m', some p) = (m'.builder ≡ m.builder) × (m'.last_error ≡ m.last_error)

  module _ {S : Type 0} where
    admit_if-Admitted :
        (c : RelayCandidate F) (state : S)
        (taken : ChannelCapacityManager × Option ChannelCapacityPermit) (available : Bool)
        (m : Machine F S)
        → Admitted c m (admit_if c state taken available m)
    unfolding admit_if note draft finish
    admit_if-Admitted c state taken false m = (
      record { trace = _; appended = refl; numbered = refl; named = refl; explained = refl },
      refl,
    )
    admit_if-Admitted c state (capacity, none) true m = (
      record { trace = _; appended = refl; numbered = refl; named = refl; explained = refl },
      refl,
    )
    admit_if-Admitted c state (capacity, some p) true m = (refl, refl)

    -- `win` and `fail_attempt` leave a trace.
    pub win-Step :
        {R : Type 0} (c : RelayCandidate F) (m : Machine F S) (capacity : ChannelCapacityManager)
        (r : R) (elapsed : ℕ)
        → Step c m (win c m capacity r elapsed)
    unfolding win note draft finish
    win-Step c m capacity r elapsed = (
      record { trace = _; appended = refl; numbered = refl; named = refl; explained = refl },
      (refl, refl, refl, refl, refl, refl),
    )

    fail_attempt-Step :
        {R : Type 0} (R' : Type 0) (ex : Executor F S R) (c : RelayCandidate F) (m : Machine F S)
        (p : ChannelCapacityPermit) (e : RelayAttemptError) (elapsed : ℕ) (written : Bool)
        → Step {R = R'} c m (fail_attempt ex c m p e elapsed, after_failure written)
    unfolding fail_attempt note draft finish
    fail_attempt-Step _ ex c m p e elapsed true = (
      record { trace = _; appended = refl; numbered = refl; named = refl; explained = refl },
      refl,
    )
    fail_attempt-Step _ ex c m p e elapsed false = (
      record { trace = _; appended = refl; numbered = refl; named = refl; explained = refl },
      refl,
    )

    Noted-from :
        (c : RelayCandidate F) (m m1 m2 : Machine F S)
        → m1.builder ≡ m.builder
        → m1.last_error ≡ m.last_error
        → Noted c m1 m2
        → Noted c m m2
    Noted-from c m m1 m2 eb ee n = record {
      trace = n.trace;
      appended = n.appended ∙ ap (λ b. b.traces ++ (n.trace ∷ [])) eb;
      numbered = n.numbered ∙ ap (λ b. next_no (length b.traces)) eb;
      named = n.named;
      explained =
          n.explained
          ∙ ap (λ e. if has_failed n.trace.status then n.trace.reason else reported e) ee;
    }

    Step-from :
        {R : Type 0} (c : RelayCandidate F) (m m1 : Machine F S) (r : Machine F S × Next F R)
        → m1.builder ≡ m.builder
        → m1.last_error ≡ m.last_error
        → Step c m1 r
        → Step c m r
    unfolding Noted-from
    Step-from c m m1 (m2, again) eb ee (n, e) = (Noted-from c m m1 m2 eb ee n, e)
    Step-from c m m1 (m2, stop) eb ee (n, e) = (Noted-from c m m1 m2 eb ee n, e)
    Step-from c m m1 (m2, done o) eb ee (n, e) = (Noted-from c m m1 m2 eb ee n, e)

  module _ {S R R' : Type 0} (ex : Executor F S R) (req : RelayRequest) (f : Finish F S R R') where
    abbrev pub Finishes : Type 0
    Finishes =
        (c : RelayCandidate F) (p : ChannelCapacityPermit) (m : Machine F S) (r : R) (elapsed : ℕ)
        → Step c m (f c p m r elapsed)

    respond-Step :
        Finishes
        → (c : RelayCandidate F) (p : ChannelCapacityPermit) (m : Machine F S) (x : Response R)
          (result : RelayAttemptResult R)
        → Step c m (respond ex req f c p m x result)
    unfolding respond
    respond-Step fs c p m (ok r) result = fs c p m r result.elapsed_ms
    respond-Step fs c p m (err e) result =
        fail_attempt-Step R' ex c m p e result.elapsed_ms result.response_written

    try_admitted-Step :
        Finishes
        → (c : RelayCandidate F) (m : Machine F S)
          (taken : Machine F S × Option ChannelCapacityPermit)
        → Admitted c m taken
        → Step c m (try_admitted ex req f c taken)
    unfolding try_admitted
    try_admitted-Step fs c m (m', none) a = a
    try_admitted-Step fs c m (m', some p) (eb, ee) =
        let tried = ex.try_candidate m'.state req c in
        let m'' : Machine F S = record m' { state = tried.0 } in
        Step-from c m m'' (respond ex req f c p m'' tried.1.response tried.1) eb ee
          (respond-Step fs c p m'' tried.1.response tried.1)

    pub attempt-Step :
        Finishes → (c : RelayCandidate F) (m : Machine F S) → Step c m (attempt ex req f c m)
    unfolding attempt admit
    attempt-Step fs c m = try_admitted-Step fs c m (admit ex c m) (
        admit_if-Admitted c (ex.is_channel_available m.state c.channel_id).0
          (try_acquire m.capacity c.channel_id c.max_concurrency)
          (ex.is_channel_available m.state c.channel_id).1 m)
