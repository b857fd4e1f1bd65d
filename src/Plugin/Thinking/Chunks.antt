-- ===== src/Plugin/Thinking/Chunks.antt =====
-- However an answer is cut into chunks, it is split the same (thinking.rs, process_chunk).
use galaxy_router.Base.{◌≡◌, sym, ap, ◌∙◌, List, [], ◌∷◌, ◌++◌, arith, length, Text}
use mathlib.Core.List.{append_assoc, append-nil}
use galaxy_router.Plugin.Thinking.{ThinkingProcessor, Split, process_chunk}
use galaxy_router.Plugin.Thinking.Runs.{run_all, join, split_loop-run, run_all-append}

abbrev pub concat : List Text → Text
concat [] = []
concat (c ∷ cs) = c ++ concat cs

abbrev pub Answer : Type 0
Answer = ThinkingProcessor × Text × Text

-- A chunk, and then what the rest makes of the state that it leaves.
abbrev pub append_answer : Answer → Answer → Answer
append_answer (p, content, stripped) (p', content', stripped') =
    (p', content ++ content', stripped ++ stripped')

-- The chunks of an answer, one after the other.
unfoldable pub process_all : ThinkingProcessor → List Text → Answer
process_all p [] = (p, [], [])
process_all p (c ∷ cs) =
    let first = process_chunk p c in append_answer first (process_all first.0 cs)

abbrev pub answer_of : ThinkingProcessor → Split → Answer
answer_of p s = (
  record { reasoning = p.reasoning ++ s.stripped; in_think = s.inside; pending = s.kept },
  s.content,
  s.stripped,
)

pub process_chunk-run_all :
    (p : ThinkingProcessor) (c : Text)
    → process_chunk p c ≡ answer_of p (run_all p.in_think (p.pending ++ c))
unfolding process_chunk
process_chunk-run_all p c =
    ap (answer_of p)
      (split_loop-run (length (p.pending ++ c)) p.in_think (p.pending ++ c) (omega arith))

answer_of-join :
    (p : ThinkingProcessor) (a c : Split)
    → answer_of p (join a c) ≡ append_answer (answer_of p a) (answer_of (answer_of p a).0 c)
answer_of-join p a c =
    ap
      (λ t. (
        record { reasoning = t; in_think = c.inside; pending = c.kept },
        a.content ++ c.content,
        a.stripped ++ c.stripped,
      ))
      (sym (append_assoc p.reasoning a.stripped c.stripped))

process_chunk-append :
    (p : ThinkingProcessor) (c d : Text)
    → process_chunk p (c ++ d)
      ≡ append_answer (process_chunk p c) (process_chunk (process_chunk p c).0 d)
process_chunk-append p c d =
    let s = run_all p.in_think (p.pending ++ c) in
    let whole : process_chunk p (c ++ d) ≡ answer_of p (join s (run_all s.inside (s.kept ++ d))) =
      process_chunk-run_all p (c ++ d)
      ∙ ap (λ t. answer_of p (run_all p.in_think t)) (sym (append_assoc p.pending c d))
      ∙ ap (answer_of p) (run_all-append p.in_think (p.pending ++ c) d) in
    whole
    ∙ answer_of-join p s (run_all s.inside (s.kept ++ d))
    ∙ ap (append_answer (answer_of p s)) (sym (process_chunk-run_all (answer_of p s).0 d))
    ∙ ap (λ a. append_answer a (process_chunk a.0 d)) (sym (process_chunk-run_all p c))

append_answer-nil : (a : Answer) → append_answer a (a.0, [], []) ≡ a
append_answer-nil (p, content, stripped) =
    ap (λ t. (p, t, stripped ++ [])) (append-nil content)
    ∙ ap (λ t. (p, content, t)) (append-nil stripped)

-- From any state, an answer that comes in one or more chunks is split as one chunk of the same
-- text is: the same content, the same reasoning and the same state at the end.
pub process_all-process_chunk :
    (p : ThinkingProcessor) (c : Text) (cs : List Text)
    → process_all p (c ∷ cs) ≡ process_chunk p (c ++ concat cs)
unfolding process_all
process_all-process_chunk p c [] =
    append_answer-nil (process_chunk p c) ∙ ap (process_chunk p) (sym (append-nil c))
process_all-process_chunk p c (d ∷ cs) =
    ap (append_answer (process_chunk p c)) (process_all-process_chunk (process_chunk p c).0 d cs)
    ∙ sym (process_chunk-append p c (d ++ concat cs))
