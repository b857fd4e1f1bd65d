-- ===== src/Plugin/Thinking.antt =====
-- src/llm/plugin/thinking.rs: the text between <think> and </think> is split off, from a whole answer
-- and from one that comes in chunks. The tags are ASCII, so that their bytes are their characters and
-- a position that the code counts in bytes is one between characters.
pub mod Scan
pub mod Search
pub mod Runs
pub mod Chunks
pub mod Whole
mod Tests
use galaxy_router.Base.{
  ℕ, zero, suc, ◌+◌, ◌-◌, ◌*◌, ◌/◌, ◌%◌, ◌^◌, ◌≤◌, ◌<◌, min, max, ◌≡◌, refl, sym, ap, subst, ◌∙◌,
  fun_ext, ◌≢◌, ◌↔◌, ◌⊎◌, inl, inr, Bool, true, false, not, ◌&&◌, ◌||◌, Option, none, some, List,
  [], ◌∷◌, ◌++◌, map, arith, ltb, leb, ◌==◌, if◌then◌else◌, ltb→lt, lt→ltb, leb→le, le→leb, lt→leb,
  ==_iff, tests, Bool-cases, Option-cases, get_or, is_some, length, get_elem?, take, replicate,
  filter, find, any, count, All, length-append, length-replicate, count-append, length-filter-le,
  All-append, find-passes, any-find, Text, text, text_eq, text_eq_iff, text_eq_self, text_ne,
  starts_with, contains, to_ascii_lowercase, starts_with-append, Map, keep_if, map_some, new_map,
  insert, alter, retain,
}

abbrev pub open_tag : Text
open_tag = text "<think>"

abbrev pub close_tag : Text
close_tag = text "</think>"

abbrev pub drop : ℕ → Text → Text
drop zero s = s
drop (suc n) [] = []
drop (suc n) (c ∷ s) = drop n s

abbrev pub ends_with : Text → Text → Bool
ends_with s t = leb (length t) (length s) && text_eq (drop (length s - length t) s) t

-- `str::find` with what stands before the first place and behind it.
abbrev pub cons_before : ℕ → Option (Text × Text) → Option (Text × Text)
cons_before c none = none
cons_before c (some (pre, post)) = some (c ∷ pre, post)

unfoldable pub split_at : Text → Text → Option (Text × Text)
split_at tag [] = if starts_with [] tag then some ([], []) else none
split_at tag (c ∷ s) =
    let rest = cons_before c (split_at tag s) in
    if starts_with (c ∷ s) tag then some ([], drop (length tag) (c ∷ s)) else rest

-- `(1..=max).rev().find(..).unwrap_or(0)`, from a length on downwards.
unfoldable pub longest_from : Text → Text → ℕ → ℕ
longest_from buf tag zero = 0
longest_from buf tag (suc n) =
    let below = longest_from buf tag n in if ends_with buf (take (suc n) tag) then suc n else below

unfoldable pub retain_pending_prefix : Text → Text → ℕ
retain_pending_prefix buf tag = longest_from buf tag (min (length buf) (length tag - 1))

pub record ThinkingProcessor : Type 0 where
  pub reasoning : Text
  pub in_think : Bool
  pub pending : Text

-- `ThinkingProcessor::default`.
abbrev pub new_processor : ThinkingProcessor
new_processor = record { reasoning = []; in_think = false; pending = [] }

abbrev pub tag_of : Bool → Text
tag_of in_think = if in_think then close_tag else open_tag

-- What one pass of the loop has split off, and the state that it leaves.
pub record Split : Type 0 where
  pub content : Text
  pub stripped : Text
  pub inside : Bool
  pub kept : Text

-- A piece goes to the reasoning inside a block, else to the content.
abbrev pub put_piece : Bool → Text → Split → Split
put_piece true piece s = record s { stripped = piece ++ s.stripped }
put_piece false piece s = record s { content = piece ++ s.content }

-- No whole tag is left: what may be the start of one waits for the next chunk.
unfoldable pub last_piece : Bool → Text → Split
last_piece in_think buf =
    let split : ℕ = length buf - retain_pending_prefix buf (tag_of in_think) in
    put_piece in_think (take split buf)
      (record { content = []; stripped = []; inside = in_think; kept = drop split buf })

abbrev pub after_search : Bool → Text → (Text → Split) → Option (Text × Text) → Split
after_search in_think buf rest none = last_piece in_think buf
after_search in_think buf rest (some (pre, post)) = put_piece in_think pre (rest post)

-- The `loop` of `process_chunk`, on fuel: every pass but the last one takes a tag off the buffer.
unfoldable pub split_loop : ℕ → Bool → Text → Split
split_loop zero in_think buf = last_piece in_think buf
split_loop (suc fuel) in_think buf =
    after_search in_think buf (λ post. split_loop fuel (not in_think) post)
      (split_at (tag_of in_think) buf)

-- `process_chunk`: the content and the stripped reasoning of this chunk.
unfoldable pub process_chunk : ThinkingProcessor → Text → ThinkingProcessor × Text × Text
process_chunk p input =
    let buf : Text = p.pending ++ input in
    let s = split_loop (length buf) p.in_think buf in
    (
      record { reasoning = p.reasoning ++ s.stripped; in_think = s.inside; pending = s.kept },
      s.content,
      s.stripped,
    )

-- `finish_reasoning`.
unfoldable pub finish_reasoning : ThinkingProcessor → ThinkingProcessor × Option Text
finish_reasoning p =
    if text_eq p.reasoning [] then (p, none) else (record p { reasoning = [] }, some p.reasoning)

abbrev pub before_tail : Text → Text → Text × Text → Text × Text
before_tail content reasoning (clean, thought) = (content ++ clean, reasoning ++ thought)

abbrev pub after_close : Text → Text → (Text → Text × Text) → Option (Text × Text) → Text × Text
after_close content after tail none = (content, after)
after_close content after tail (some (thought, post)) = before_tail content thought (tail post)

abbrev pub after_open : Text → (Text → Text × Text) → Option (Text × Text) → Text × Text
after_open rest tail none = (rest, [])
after_open rest tail (some (content, after)) =
    after_close content after tail (split_at close_tag after)

-- The `while let` of `strip_think`, on fuel; what an open block has left is reasoning.
unfoldable pub strip_loop : ℕ → Text → Text × Text
strip_loop zero rest = (rest, [])
strip_loop (suc fuel) rest = after_open rest (λ post. strip_loop fuel post) (split_at open_tag rest)

-- The content and the reasoning of a whole text.
unfoldable pub strip_think : Text → Text × Text
strip_think s = strip_loop (length s) s
