-- ===== src/Relay/Run/Tests.antt =====
-- A run over three candidates: one is shut, one fails, one answers.
use galaxy_router.Base.{
  ℕ, ◌<◌, ◌≡◌, refl, Bool, false, not, none, some, List, [], ◌∷◌, map, arith, if◌then◌else◌, length,
  All, Text, text, text_eq, new_map,
}
use galaxy_router.Scheduler.Capacity.{
  ChannelCapacityManager, active_count, try_acquire, drop_permit,
}
use galaxy_router.Relay.Trace.{draft, finish}
use galaxy_router.Relay.Run.{
  RelayRequest, RelayCandidate, plain_error, ok, err, RelayAttemptResult, Executor, note, admit_if,
  admit, fail_attempt, win, win_and_drop, respond, try_admitted, attempt, proceed, loop, execute,
  execute_stream,
}
use galaxy_router.Relay.Run.Attempts.{Follows}
use galaxy_router.Relay.Run.Answers.{Agrees, execute-Agrees, execute_stream-Agrees}
use galaxy_router.Relay.Run.Slots.{give_back, execute-slots, execute_stream-slots}

abbrev ch_a : Text
ch_a = text "ch-a"

abbrev ch_b : Text
ch_b = text "ch-b"

abbrev ch_c : Text
ch_c = text "ch-c"

-- The state is the list of the channels that have been reported.
abbrev tried : Bool → RelayAttemptResult Text
tried good = record {
  response = if good then ok (text "hi") else err (plain_error 503 (text "busy"));
  response_written = false;
  elapsed_ms = 12;
}

abbrev upstream : Executor ℕ (List Text) Text
upstream = record {
  is_channel_available = λ s c. (s, not (text_eq c ch_a));
  on_attempt_failed = λ s c e. c ∷ s;
  try_candidate = λ s req c. (s, tried (text_eq c.channel_id ch_c));
}

abbrev candidate : Text → RelayCandidate ℕ
candidate c = record {
  channel_id = c;
  channel_name = c;
  max_concurrency = 1;
  score = 0;
  sticky = false;
  target_model = text "m";
  route_id = none;
}

abbrev request : RelayRequest
request = record { requested_model = text "m" }

abbrev candidates : List (RelayCandidate ℕ)
candidates = map candidate (ch_a ∷ ch_b ∷ ch_c ∷ ch_a ∷ [])

abbrev idle : ChannelCapacityManager
idle = new_map

served :
    let o = (execute upstream request candidates idle []).1 in
    (o.selected_channel_id ≡ some ch_c) × (length o.attempts ≡ 3) × (o.response ≡ some (text "hi"))
unfolding execute loop proceed attempt try_admitted respond admit admit_if win win_and_drop
    fail_attempt note draft finish drop_permit try_acquire text_eq
served = (refl, refl, refl)

reported_channels : (execute upstream request candidates idle []).0.state ≡ ch_b ∷ []
unfolding execute loop proceed attempt try_admitted respond admit admit_if win win_and_drop
    fail_attempt note draft finish drop_permit try_acquire text_eq
reported_channels = refl

execute-Agrees_example :
    let o = (execute upstream request candidates idle []).1 in
    Follows 0 candidates o.attempts × Agrees (some (text "no available candidate")) o o.attempts
execute-Agrees_example = execute-Agrees upstream request candidates idle []

execute_stream-Agrees_example :
    let o = (execute_stream upstream request candidates idle []).1 in
    Follows 0 candidates o.attempts × Agrees (some (text "no available candidate")) o o.attempts
execute_stream-Agrees_example = execute_stream-Agrees upstream request candidates idle []

abbrev small : All (λ c. c.max_concurrency < 4294967296) candidates
small = (omega arith, (omega arith, (omega arith, (omega arith, tt))))

execute-slots_example :
    active_count (execute upstream request candidates idle []).0.capacity ch_b
    ≡ active_count idle ch_b
execute-slots_example = execute-slots upstream request candidates idle [] ch_b small

execute_stream-slots_example :
    let (m, o) = execute_stream upstream request candidates idle [] in
    active_count (give_back (λ rp k. drop_permit k rp.1) o.response m.capacity) ch_c
    ≡ active_count idle ch_c
execute_stream-slots_example = execute_stream-slots upstream request candidates idle [] ch_c small
