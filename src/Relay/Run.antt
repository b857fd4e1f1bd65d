-- ===== src/Relay/Run.antt =====
-- src/llm/relay/run.rs: the run of a request over its candidates, plain and streamed. The executor is
-- an interface over a state of its own; the time that an attempt took is part of its result.
pub mod Attempts
pub mod Answers
pub mod Slots
mod Tests
use galaxy_router.Base.{
  ℕ, zero, suc, ◌+◌, ◌-◌, ◌*◌, ◌/◌, ◌%◌, ◌^◌, ◌≤◌, ◌<◌, min, max, ◌≡◌, refl, sym, ap, subst, ◌∙◌,
  fun_ext, ◌≢◌, ◌↔◌, ◌⊎◌, inl, inr, Bool, true, false, not, ◌&&◌, ◌||◌, Option, none, some, List,
  [], ◌∷◌, ◌++◌, map, arith, ltb, leb, ◌==◌, if◌then◌else◌, ltb→lt, lt→ltb, leb→le, le→leb, lt→leb,
  ==_iff, tests, Bool-cases, Option-cases, get_or, is_some, length, get_elem?, take, replicate,
  filter, find, any, count, All, length-append, length-replicate, count-append, length-filter-le,
  All-append, find-passes, any-find, Text, text, text_eq, text_eq_iff, text_eq_self, text_ne,
  starts_with, contains, to_ascii_lowercase, starts_with-append, Map, keep_if, map_some, new_map,
  insert, alter, retain,
}
use galaxy_router.Base.Json.{Value, index, as_str}
use galaxy_router.Errors.{
  utf8_width, byte_len, slice_to, error_message, truncate_body, parsed_message, prefer, ErrorClass,
  key_retryable, upstream_retryable, client, internal, ProxyError, database_error,
  channel_not_found, no_available_channel, model_not_supported, model_not_found, request_error,
  transform_error, upstream_error, key_needles, is_key_status, is_server_error, has_needle,
  classify_body, map_class, sanitize_upstream_error, classify_upstream, classify,
  render_status_and_message, is_key_class, status_or_bad_gateway, from_relay_outcome,
}
use galaxy_router.Scheduler.Capacity.{
  ChannelCapacityManager, new, ChannelCapacityPermit, unlimited, limited, decrement, increment,
  active_count, try_acquire, drop_permit,
}
use galaxy_router.Relay.Trace.{
  AttemptStatus, skipped, circuit_break, success, failed, AttemptTrace, AttemptTraceBuilder,
  new_builder, next_no, draft, finish,
}

pub record RelayRequest : Type 0 where
  pub requested_model : Text

pub record RelayCandidate (F : Type 0) : Type 0 where
  pub channel_id : Text
  pub channel_name : Text
  pub max_concurrency : ℕ
  pub score : F
  pub sticky : Bool
  pub target_model : Text
  pub route_id : Option Text

pub record RelayAttemptError : Type 0 where
  pub status_code : ℕ
  pub message : Text
  pub proxy_error : Option ProxyError

-- `RelayAttemptError::new`.
abbrev pub plain_error : ℕ → Text → RelayAttemptError
plain_error status_code message = record {
  status_code = status_code;
  message = message;
  proxy_error = none;
}

pub data Response (R : Type 0) : Type 0 where
  ok : R → Response R
  err : RelayAttemptError → Response R

pub record RelayAttemptResult (R : Type 0) : Type 0 where
  pub response : Response R
  pub response_written : Bool
  pub elapsed_ms : ℕ

-- The traits RelayAttemptExecutor and RelayStreamAttemptExecutor.
pub record Executor (F S R : Type 0) : Type 0 where
  pub is_channel_available : S → Text → S × Bool
  pub on_attempt_failed : S → Text → ProxyError → S
  pub try_candidate : S → RelayRequest → RelayCandidate F → S × RelayAttemptResult R

pub record RelayRunOutcome (F R : Type 0) : Type 0 where
  pub response : Option R
  pub selected_channel_id : Option Text
  pub status_code : ℕ
  pub error_message : Option Text
  pub attempts : List (AttemptTrace F)

-- The variables of the loop, with the state that it shares.
pub record Machine (F S : Type 0) : Type 0 where
  pub capacity : ChannelCapacityManager
  pub state : S
  pub builder : AttemptTraceBuilder F
  pub last_error : Option RelayAttemptError

-- How the body of the loop ends: with `continue`, `break` or `return`.
pub data Next (F R : Type 0) : Type 0 where
  again stop : Next F R
  done : RelayRunOutcome F R → Next F R

-- `elapsed_ms`: at most i64::MAX.
abbrev pub capped_ms : ℕ → ℕ
capped_ms d = min d 9223372036854775807

-- What is reported of an error that has no ProxyError of its own.
unfoldable pub proxy_error_for_feedback : RelayAttemptError → ProxyError
proxy_error_for_feedback e =
    get_or (upstream_error (status_or_bad_gateway e.status_code) e.message) e.proxy_error

-- What is done with a response.
abbrev pub Finish : Type 0 → Type 0 → Type 0 → Type 0 → Type 0
Finish F S R R' =
    RelayCandidate F → ChannelCapacityPermit → Machine F S → R → ℕ → Machine F S × Next F R'

module _ {F : Type 0} where
  -- One trace: status, candidate, reason, duration.
  unfoldable pub note :
      AttemptTraceBuilder F
      → AttemptStatus
      → RelayCandidate F
      → Option Text
      → Option ℕ
      → AttemptTraceBuilder F
  note b status c reason duration = finish b (record (draft b status) {
    channel_id = some c.channel_id;
    channel_name = some c.channel_name;
    reason = reason;
    duration_ms = duration;
    sticky = c.sticky;
    score = some c.score;
  })

  -- The tests that come before an attempt: the machine afterwards, and the permit.
  unfoldable pub admit_if :
      {S : Type 0}
      → RelayCandidate F
      → S
      → ChannelCapacityManager × Option ChannelCapacityPermit
      → Bool
      → Machine F S
      → Machine F S × Option ChannelCapacityPermit
  admit_if c state taken false m = (
    record m {
      state = state;
      builder = note m.builder circuit_break c (some (text "circuit open")) none;
    },
    none,
  )
  admit_if c state (capacity, none) true m = (
    record m {
      capacity = capacity;
      state = state;
      builder = note m.builder skipped c (some (text "capacity full")) none;
    },
    none,
  )
  admit_if c state (capacity, some p) true m =
      (record m { capacity = capacity; state = state }, some p)

  unfoldable pub admit :
      {S R : Type 0}
      → Executor F S R
      → RelayCandidate F
      → Machine F S
      → Machine F S × Option ChannelCapacityPermit
  admit ex c m =
      let checked = ex.is_channel_available m.state c.channel_id in
      admit_if c checked.0 (try_acquire m.capacity c.channel_id c.max_concurrency) checked.1 m

  -- `Err(error)`; the permit is given back in this iteration.
  unfoldable pub fail_attempt :
      {S R : Type 0}
      → Executor F S R
      → RelayCandidate F
      → Machine F S
      → ChannelCapacityPermit
      → RelayAttemptError
      → ℕ
      → Machine F S
  fail_attempt ex c m p e elapsed = record {
    capacity = drop_permit m.capacity p;
    state = ex.on_attempt_failed m.state c.channel_id (proxy_error_for_feedback e);
    builder = note m.builder failed c (some e.message) (some (capped_ms elapsed));
    last_error = some e;
  }

  -- `Ok(response)`, with the capacity that is left behind.
  unfoldable pub win :
      {S R : Type 0}
      → RelayCandidate F
      → Machine F S
      → ChannelCapacityManager
      → R
      → ℕ
      → Machine F S × Next F R
  win c m capacity response elapsed =
      let builder = note m.builder success c none (some (capped_ms elapsed)) in
      (
        record m { capacity = capacity; builder = builder },
        done (record {
          response = some response;
          selected_channel_id = some c.channel_id;
          status_code = 200;
          error_message = none;
          attempts = builder.traces;
        }),
      )

  abbrev pub after_failure : {R : Type 0} → Bool → Next F R
  after_failure response_written = if response_written then stop else again

  -- The permit lives until the iteration ends, or moves into the stream.
  unfoldable pub win_and_drop :
      {S R : Type 0}
      → RelayCandidate F
      → ChannelCapacityPermit
      → Machine F S
      → R
      → ℕ
      → Machine F S × Next F R
  win_and_drop c p m r elapsed = win c m (drop_permit m.capacity p) r elapsed

  unfoldable pub win_and_keep :
      {S R : Type 0}
      → RelayCandidate F
      → ChannelCapacityPermit
      → Machine F S
      → R
      → ℕ
      → Machine F S × Next F (R × ChannelCapacityPermit)
  win_and_keep c p m r elapsed = win c m m.capacity (r, p) elapsed

  module _ {S R R' : Type 0} (ex : Executor F S R) (req : RelayRequest) where
    -- `match result.response`.
    unfoldable pub respond :
        Finish F S R R'
        → RelayCandidate F
        → ChannelCapacityPermit
        → Machine F S
        → Response R
        → RelayAttemptResult R
        → Machine F S × Next F R'
    respond finish_with c p m (ok r) result = finish_with c p m r result.elapsed_ms
    respond finish_with c p m (err e) result =
        (fail_attempt ex c m p e result.elapsed_ms, after_failure result.response_written)

    unfoldable pub try_admitted :
        Finish F S R R'
        → RelayCandidate F
        → Machine F S × Option ChannelCapacityPermit
        → Machine F S × Next F R'
    try_admitted finish_with c (m, none) = (m, again)
    try_admitted finish_with c (m, some p) =
        let tried = ex.try_candidate m.state req c in
        respond finish_with c p (record m { state = tried.0 }) tried.1.response tried.1

    -- The body of the loop.
    unfoldable pub attempt :
        Finish F S R R' → RelayCandidate F → Machine F S → Machine F S × Next F R'
    attempt finish_with c m = try_admitted finish_with c (admit ex c m)

  -- The outcome after the loop.
  unfoldable pub give_up : {S R : Type 0} → Machine F S → RelayRunOutcome F R
  give_up m = record {
    response = none;
    selected_channel_id = none;
    status_code = elim m.last_error [ none ↦ 503 | some e ↦ e.status_code ];
    error_message = elim m.last_error [
      | none ↦ some (text "no available candidate")
      | some e ↦ some e.message
    ];
    attempts = m.builder.traces;
  }

  -- What follows an iteration.
  unfoldable pub proceed :
      {S R : Type 0}
      → (Machine F S → Machine F S × RelayRunOutcome F R)
      → Machine F S × Next F R
      → Machine F S × RelayRunOutcome F R
  proceed rest (m, again) = rest m
  proceed rest (m, stop) = (m, give_up m)
  proceed rest (m, done o) = (m, o)

  -- The loop, over either body.
  unfoldable pub loop :
      {S R : Type 0}
      → (RelayCandidate F → Machine F S → Machine F S × Next F R)
      → List (RelayCandidate F)
      → Machine F S
      → Machine F S × RelayRunOutcome F R
  loop body [] m = (m, give_up m)
  loop body (c ∷ cs) m = proceed (λ m'. loop body cs m') (body c m)

  abbrev pub start : {S : Type 0} → RelayRequest → ChannelCapacityManager → S → Machine F S
  start req capacity state = record {
    capacity = capacity;
    state = state;
    builder = new_builder req.requested_model;
    last_error = none;
  }

  unfoldable pub execute :
      {S R : Type 0}
      → Executor F S R
      → RelayRequest
      → List (RelayCandidate F)
      → ChannelCapacityManager
      → S
      → Machine F S × RelayRunOutcome F R
  execute ex req candidates capacity state =
      loop (attempt ex req win_and_drop) candidates (start req capacity state)

  unfoldable pub execute_stream :
      {S R : Type 0}
      → Executor F S R
      → RelayRequest
      → List (RelayCandidate F)
      → ChannelCapacityManager
      → S
      → Machine F S × RelayRunOutcome F (R × ChannelCapacityPermit)
  execute_stream ex req candidates capacity state =
      loop (attempt ex req win_and_keep) candidates (start req capacity state)
