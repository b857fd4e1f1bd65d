-- ===== src/Relay/Run/Answers.antt =====
-- The outcome of a whole run, read off its traces (run.rs).
use galaxy_router.Base.{
  ℕ, suc, ◌+◌, ◌≡◌, refl, sym, ap, subst, ◌∙◌, true, false, Option, none, some, List, [], ◌∷◌, ◌++◌,
  arith, if◌then◌else◌, is_some, length, length-append, Text, text,
}
use galaxy_router.Scheduler.Capacity.{ChannelCapacityManager, drop_permit}
use galaxy_router.Relay.Trace.{AttemptTrace}
use galaxy_router.Relay.Run.{
  RelayRequest, RelayCandidate, Executor, RelayRunOutcome, Machine, Next, again, stop, done,
  win_and_drop, win_and_keep, attempt, give_up, proceed, loop, start, execute, execute_stream,
}
use galaxy_router.Relay.Run.Attempts.{
  has_succeeded, reported, Follows, last_reason, Noted, Step, win-Step, attempt-Step,
}
use mathlib.Core.Bool.{false≢true}
use mathlib.Core.List.{append_assoc, append-nil}

module _ {F : Type 0} where
  -- The channel of the attempt that succeeded.
  unfoldable pub chosen : List (AttemptTrace F) → Option Text
  chosen [] = none
  chosen (t ∷ ts) = if has_succeeded t.status then t.channel_id else chosen ts

  unfoldable pub successes : List (AttemptTrace F) → ℕ
  successes [] = 0
  successes (t ∷ ts) = let rest = successes ts in if has_succeeded t.status then 1 + rest else rest

  -- An outcome says what the traces say: the channel, at most one success, and the last reason.
  pub record Agrees {R : Type 0} (d : Option Text) (o : RelayRunOutcome F R)
      (ts : List (AttemptTrace F)) : Type 0 where
    pub same_channel : o.selected_channel_id ≡ chosen ts
    pub one_success : successes ts ≡ (if is_some o.response then 1 else 0)
    pub same_error : o.error_message ≡ (if is_some o.response then none else last_reason d ts)
    pub status_ok : is_some o.response ≡ true → o.status_code ≡ 200

  pub record Tells {S R : Type 0} (cs : List (RelayCandidate F)) (m : Machine F S)
      (o : RelayRunOutcome F R) : Type 0 where
    pub added : List (AttemptTrace F)
    pub kept : o.attempts ≡ m.builder.traces ++ added
    pub follows : Follows (length m.builder.traces) cs added
    pub agrees : Agrees (reported m.last_error) o added

  grown :
      {S : Type 0} (m m' : Machine F S) (t : AttemptTrace F)
      → m'.builder.traces ≡ m.builder.traces ++ (t ∷ [])
      → length m'.builder.traces ≡ suc (length m.builder.traces)
  grown m m' t e = ap length e ∙ length-append m.builder.traces (t ∷ []) ∙ omega arith

  module _ {S R : Type 0} where
    give_up-Tells :
        (cs : List (RelayCandidate F)) (m : Machine F S) → Tells cs m (give_up {R = R} m)
    unfolding give_up chosen successes last_reason
    give_up-Tells cs m = record {
      added = [];
      kept = sym (append-nil m.builder.traces);
      follows = tt;
      agrees = record {
        same_channel = refl;
        one_success = refl;
        same_error = elim m.last_error [ none ↦ refl | some e ↦ refl ];
        status_ok = λ e. elim (false≢true e) [ ];
      };
    }

    Tells-after :
        (c : RelayCandidate F) (cs : List (RelayCandidate F)) (m m' : Machine F S)
        (n : Noted c m m') (o : RelayRunOutcome F R)
        → has_succeeded n.trace.status ≡ false
        → Tells cs m' o
        → Tells (c ∷ cs) m o
    unfolding chosen successes last_reason
    Tells-after c cs m m' n o lost t = record {
      added = n.trace ∷ t.added;
      kept =
          t.kept
          ∙ ap (λ ts. ts ++ t.added) n.appended
          ∙ append_assoc m.builder.traces (n.trace ∷ []) t.added;
      follows = (
        n.numbered,
        n.named,
        subst (λ k. Follows k cs t.added) (grown m m' n.trace n.appended) t.follows,
      );
      agrees = record {
        same_channel = rw lost t.agrees.same_channel;
        one_success = rw lost t.agrees.one_success;
        same_error = rw (sym n.explained) t.agrees.same_error;
        status_ok = t.agrees.status_ok;
      };
    }

    proceed-Tells :
        (rest : Machine F S → Machine F S × RelayRunOutcome F R) (c : RelayCandidate F)
        (cs : List (RelayCandidate F)) (m : Machine F S) (r : Machine F S × Next F R)
        → Step c m r
        → ((m' : Machine F S) → Tells cs m' (rest m').1)
        → Tells (c ∷ cs) m (proceed rest r).1
    unfolding proceed chosen successes last_reason
    proceed-Tells rest c cs m (m', again) (n, e) ih = Tells-after c cs m m' n (rest m').1 e (ih m')
    proceed-Tells rest c cs m (m', stop) (n, e) ih =
        Tells-after c cs m m' n (give_up m') e (give_up-Tells cs m')
    proceed-Tells rest c cs m (m', done o) (n, (won, given, channel, code, silent, all)) ih =
        record {
          added = n.trace ∷ [];
          kept = all ∙ n.appended;
          follows = (n.numbered, n.named, tt);
          agrees = record {
            same_channel = rw won channel;
            one_success = rw (won, given) refl;
            same_error = rw given silent;
            status_ok = λ _. code;
          };
        }

    loop-Tells :
        (body : RelayCandidate F → Machine F S → Machine F S × Next F R)
        → ((c : RelayCandidate F) (m : Machine F S) → Step c m (body c m))
        → (cs : List (RelayCandidate F)) (m : Machine F S) → Tells cs m (loop body cs m).1
    unfolding loop
    loop-Tells body steps [] m = give_up-Tells [] m
    loop-Tells body steps (c ∷ cs) m =
        proceed-Tells (λ m'. loop body cs m') c cs m (body c m) (steps c m)
          (λ m'. loop-Tells body steps cs m')

-- The traces of a run are those of its first candidates, in order and numbered from 1. The run
-- answers with the one attempt that succeeded and its channel, under 200, or, where none did,
-- with the reason of the last attempt that failed.
pub execute-Agrees :
    {F S R : Type 0} (ex : Executor F S R) (req : RelayRequest) (cs : List (RelayCandidate F))
    (capacity : ChannelCapacityManager) (state : S)
    → let o = (execute ex req cs capacity state).1 in
      Follows 0 cs o.attempts × Agrees (some (text "no available candidate")) o o.attempts
unfolding execute win_and_drop
execute-Agrees ex req cs capacity state =
    let t =
      loop-Tells (attempt ex req win_and_drop)
        (attempt-Step ex req win_and_drop
          (λ c p m r elapsed. win-Step c m (drop_permit m.capacity p) r elapsed))
        cs (start req capacity state) in
    (
      subst (λ ts. Follows 0 cs ts) (sym t.kept) t.follows,
      subst
          (λ ts.
            Agrees (some (text "no available candidate")) (execute ex req cs capacity state).1 ts)
          (sym t.kept) t.agrees,
    )

-- The traces of a streamed run are those of its first candidates, in order and numbered from 1.
-- The run answers with the one attempt that succeeded and its channel, under 200, or, where none
-- did, with the reason of the last attempt that failed.
pub execute_stream-Agrees :
    {F S R : Type 0} (ex : Executor F S R) (req : RelayRequest) (cs : List (RelayCandidate F))
    (capacity : ChannelCapacityManager) (state : S)
    → let o = (execute_stream ex req cs capacity state).1 in
      Follows 0 cs o.attempts × Agrees (some (text "no available candidate")) o o.attempts
unfolding execute_stream win_and_keep
execute_stream-Agrees ex req cs capacity state =
    let t =
      loop-Tells (attempt ex req win_and_keep)
        (attempt-Step ex req win_and_keep
          (λ c p m r elapsed. win-Step c m m.capacity (r, p) elapsed))
        cs (start req capacity state) in
    (
      subst (λ ts. Follows 0 cs ts) (sym t.kept) t.follows,
      subst
          (λ ts.
            Agrees (some (text "no available candidate"))
              (execute_stream ex req cs capacity state).1 ts)
          (sym t.kept) t.agrees,
    )
