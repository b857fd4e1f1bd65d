-- ===== src/Plugin/Thinking/Whole.antt =====
-- A streamed answer against a whole one (thinking.rs, process_chunk and strip_think).
use galaxy_router.Base.{
  ℕ, zero, suc, ◌≤◌, ◌<◌, ◌≡◌, refl, sym, ap, ◌∙◌, inl, inr, true, false, none, some, List, [], ◌∷◌,
  ◌++◌, arith, if◌then◌else◌, Bool-cases, length, Text, text_eq,
}
use mathlib.Core.List.{append_assoc, append-nil}
use galaxy_router.Plugin.Thinking.{
  open_tag, close_tag, split_at, ThinkingProcessor, new_processor, Split, put_piece, before_tail,
  after_close, after_open, strip_loop, strip_think, finish_reasoning,
}
use galaxy_router.Plugin.Thinking.Scan.{Scanned, tag_found, no_tag, scan}
use galaxy_router.Plugin.Thinking.Search.{Agrees, scan-Agrees}
use galaxy_router.Plugin.Thinking.Runs.{
  run, absorb, Fits, scan-Fits, tag_of_pos, run_all, run_all-absorb,
}
use galaxy_router.Plugin.Thinking.Chunks.{
  concat, answer_of, process_all, process_chunk-run_all, process_all-process_chunk,
}

-- What is kept at the end, taken for what it stands in.
abbrev pub flush : Split → Text × Text
flush s = (
  s.content ++ (if s.inside then [] else s.kept),
  s.stripped ++ (if s.inside then s.kept else []),
)

flush-put :
    (content thought : Text) (s : Split)
    → flush (put_piece false content (put_piece true thought s))
      ≡ before_tail content thought (flush s)
flush-put content thought s =
    let outside : Text = if s.inside then [] else s.kept in
    let within : Text = if s.inside then s.kept else [] in
    ap (λ t. (t, (thought ++ s.stripped) ++ within)) (append_assoc content s.content outside)
    ∙ ap (λ t. (content ++ (s.content ++ outside), t)) (append_assoc thought s.stripped within)

-- Behind an opening tag.
whole_close :
    (content after : Text) (tail : Text → Text × Text) (r : Scanned)
    → Agrees close_tag after r
    → Fits after r
    → ((post : Text) → length post < length after → tail post ≡ flush (run_all false post))
    → after_close content after tail (split_at close_tag after)
      ≡ flush (put_piece false content (absorb true (λ post. run_all false post) r))
whole_close content after tail (tag_found thought post) a fits ih = rw a (
    ap (before_tail content thought) (ih post fits)
    ∙ sym (flush-put content thought (run_all false post)))
whole_close content after tail (no_tag out wait) a fits ih = rw a.0 (
    ap (λ t. (t, after)) (sym (append-nil content) ∙ sym (append-nil (content ++ [])))
    ∙ ap (λ t. ((content ++ []) ++ [], t)) (sym fits ∙ ap (λ t. t ++ wait) (sym (append-nil out))))

whole_open :
    (rest : Text) (tail : Text → Text × Text) (r : Scanned)
    → Agrees open_tag rest r
    → Fits rest r
    → ((post : Text) → length post < length rest → tail post ≡ flush (run_all false post))
    → after_open rest tail (split_at open_tag rest)
      ≡ flush (absorb false (λ post. run_all true post) r)
whole_open rest tail (tag_found content after) a fits ih = rw a (
    whole_close content after tail (scan close_tag after)
      (scan-Agrees close_tag after (tag_of_pos true)) (scan-Fits close_tag after (tag_of_pos true))
      (λ post h. ih post (omega arith))
    ∙ ap (λ s. flush (put_piece false content s)) (sym (run_all-absorb true after)))
whole_open rest tail (no_tag out wait) a fits ih =
    rw a.0 (ap (λ t. (t, [])) (sym fits ∙ ap (λ t. t ++ wait) (sym (append-nil out))))

strip_loop-flush :
    (fuel : ℕ) (s : Text) → length s ≤ fuel → strip_loop fuel s ≡ flush (run_all false s)
unfolding strip_loop run
strip_loop-flush zero [] h = refl
strip_loop-flush zero (c ∷ s) h = absurd (omega arith)
strip_loop-flush (suc fuel) s h =
    whole_open s (λ post. strip_loop fuel post) (scan open_tag s)
      (scan-Agrees open_tag s (tag_of_pos false)) (scan-Fits open_tag s (tag_of_pos false))
      (λ post k. strip_loop-flush fuel post (omega arith))
    ∙ ap flush (sym (run_all-absorb false s))

-- What a client has got, with what still waits taken for what it stands in.
abbrev pub complete : ThinkingProcessor × Text × Text → Text × Text
complete (p, content, stripped) = (
  content ++ (if p.in_think then [] else p.pending),
  stripped ++ (if p.in_think then p.pending else []),
)

stored_reasoning :
    (p : ThinkingProcessor)
    → (finish_reasoning p).1 ≡ (if text_eq p.reasoning [] then none else some p.reasoning)
unfolding finish_reasoning
stored_reasoning p = elim (Bool-cases (text_eq p.reasoning [])) [
  | inl e ↦ rw e refl
  | inr e ↦ rw e refl
]

-- An answer in one or more chunks, through a new processor, is split as strip_think splits the
-- whole text, if what still waits at the end is added to the reasoning inside a block and to the
-- content outside one; and the reasoning that is stored is what was stripped, or nothing when
-- that is empty.
pub process_all-strip_think :
    (c : Text) (cs : List Text)
    → (strip_think (concat (c ∷ cs)) ≡ complete (process_all new_processor (c ∷ cs)))
      × ((finish_reasoning (process_all new_processor (c ∷ cs)).0).1 ≡ (
          let stripped : Text = (process_all new_processor (c ∷ cs)).2 in
          if text_eq stripped [] then none else some stripped))
unfolding strip_think
process_all-strip_think c cs =
    let streamed : process_all new_processor (c ∷ cs)
        ≡ answer_of new_processor (run_all false (c ++ concat cs)) =
      process_all-process_chunk new_processor c cs
      ∙ process_chunk-run_all new_processor (c ++ concat cs) in
    (
      strip_loop-flush (length (c ++ concat cs)) (c ++ concat cs) (omega arith)
          ∙ ap complete (sym streamed),
      rw streamed (stored_reasoning (answer_of new_processor (run_all false (c ++ concat cs))).0),
    )
