-- ===== src/Relay/Trace.antt =====
-- src/llm/scheduler/trace.rs: the record of one request's attempts. A draft that is finished is
-- pushed at the end; the fields that no caller sets stay none.
use galaxy_router.Base.{ℕ, ◌+◌, ◌%◌, Bool, false, Option, none, List, [], ◌∷◌, ◌++◌, length, Text}

pub data AttemptStatus : Type 0 where
  skipped circuit_break success failed : AttemptStatus

pub record AttemptTrace (F : Type 0) : Type 0 where
  pub attempt_no : ℕ  -- u32
  pub channel_id : Option Text
  pub channel_name : Option Text
  pub upstream_key_hint : Option Text
  pub requested_model : Text
  pub upstream_model : Option Text
  pub client_endpoint : Option Text
  pub upstream_endpoint : Option Text
  pub status : AttemptStatus
  pub reason : Option Text
  pub duration_ms : Option ℕ
  pub queue_wait_ms : Option ℕ
  pub sticky : Bool
  pub score : Option F

pub record AttemptTraceBuilder (F : Type 0) : Type 0 where
  pub requested_model : Text
  pub traces : List (AttemptTrace F)

-- `self.traces.len() as u32 + 1`.
abbrev pub next_no : ℕ → ℕ
next_no len = (len % 4294967296 + 1) % 4294967296

module _ {F : Type 0} where
  abbrev pub new_builder : Text → AttemptTraceBuilder F
  new_builder requested_model = record { requested_model = requested_model; traces = [] }

  unfoldable pub draft : AttemptTraceBuilder F → AttemptStatus → AttemptTrace F
  draft b status = record {
    attempt_no = next_no (length b.traces);
    channel_id = none;
    channel_name = none;
    upstream_key_hint = none;
    requested_model = b.requested_model;
    upstream_model = none;
    client_endpoint = none;
    upstream_endpoint = none;
    status = status;
    reason = none;
    duration_ms = none;
    queue_wait_ms = none;
    sticky = false;
    score = none;
  }

  unfoldable pub finish : AttemptTraceBuilder F → AttemptTrace F → AttemptTraceBuilder F
  finish b attempt = record b { traces = b.traces ++ (attempt ∷ []) }
