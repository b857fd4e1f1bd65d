-- ===== src/Plugin/Thinking/Tests.antt =====
-- Concrete streams through the thinking processor (thinking.rs, its own tests included).
use galaxy_router.Base.{◌≡◌, refl, [], ◌∷◌, Text, text, text_eq, starts_with, none, some}
use galaxy_router.Plugin.Thinking.{
  split_at, longest_from, last_piece, split_loop, strip_loop, open_tag, new_processor, strip_think,
  process_chunk, retain_pending_prefix, finish_reasoning,
}
use galaxy_router.Plugin.Thinking.Chunks.{process_all, process_all-process_chunk}
use galaxy_router.Plugin.Thinking.Whole.{complete, process_all-strip_think}

-- A tag that comes in two parts.
abbrev chunk_one : Text
chunk_one = text "A<thi"

abbrev chunk_two : Text
chunk_two = text "nk>secret"

abbrev chunk_three : Text
chunk_three = text "</think>B"

retain_tests :
    (retain_pending_prefix (text "hello<thi") open_tag ≡ 4)
    × (retain_pending_prefix (text "hello world") open_tag ≡ 0)
    × (retain_pending_prefix (text "<think><think") open_tag ≡ 6)
unfolding retain_pending_prefix longest_from text_eq
retain_tests = (refl, refl, refl)

strip_tests :
    (strip_think (text "a<think>1</think>b<think>2</think>c") ≡ (text "abc", text "12"))
    × (strip_think (text "text<think>ongoing") ≡ (text "text", text "ongoing"))
unfolding strip_think strip_loop split_at starts_with
strip_tests = (refl, refl)

stream_test :
    (process_all new_processor (chunk_one ∷ chunk_two ∷ chunk_three ∷ [])).2 ≡ text "secret"
unfolding process_all process_chunk split_loop split_at starts_with last_piece retain_pending_prefix
    longest_from text_eq
stream_test = refl

-- An answer that ends in "<": the streamed content lacks it.
lost_end :
    ((process_chunk new_processor (text "a <")).1 ≡ text "a ")
    × ((strip_think (text "a <")).0 ≡ text "a <")
    × ((finish_reasoning (process_chunk new_processor (text "a <")).0).1 ≡ none)
unfolding process_chunk split_loop split_at starts_with last_piece retain_pending_prefix
    longest_from text_eq strip_think strip_loop finish_reasoning
lost_end = (refl, refl, refl)

process_all-process_chunk_example :
    process_all new_processor (chunk_one ∷ chunk_two ∷ chunk_three ∷ [])
    ≡ process_chunk new_processor (text "A<think>secret</think>B")
process_all-process_chunk_example =
    process_all-process_chunk new_processor chunk_one (chunk_two ∷ chunk_three ∷ [])

process_all-strip_think_example :
    (strip_think (text "A<think>secret</think>B")
      ≡ complete (process_all new_processor (chunk_one ∷ chunk_two ∷ chunk_three ∷ [])))
    × ((finish_reasoning (process_all new_processor (chunk_one ∷ chunk_two ∷ chunk_three ∷ [])).0).1
        ≡ some (text "secret"))
unfolding process_all process_chunk split_loop split_at starts_with last_piece retain_pending_prefix
    longest_from text_eq
process_all-strip_think_example = process_all-strip_think chunk_one (chunk_two ∷ chunk_three ∷ [])
