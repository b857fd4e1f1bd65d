-- ===== src/Relay/Sse.antt =====
-- src/llm/protocol/sse/parsing.rs and the loops of src/llm/relay/stream_loop.rs that cut the bytes of an
-- upstream into events. Bytes are numbers below 256.
pub mod Find
pub mod Frames
pub mod Chunks
mod Tests
use galaxy_router.Base.{
  ℕ, zero, suc, ◌+◌, ◌-◌, ◌*◌, ◌/◌, ◌%◌, ◌^◌, ◌≤◌, ◌<◌, min, max, ◌≡◌, refl, sym, ap, subst, ◌∙◌,
  fun_ext, ◌≢◌, ◌↔◌, ◌⊎◌, inl, inr, Bool, true, false, not, ◌&&◌, ◌||◌, Option, none, some, List,
  [], ◌∷◌, ◌++◌, map, arith, ltb, leb, ◌==◌, if◌then◌else◌, ltb→lt, lt→ltb, leb→le, le→leb, lt→leb,
  ==_iff, tests, Bool-cases, Option-cases, get_or, is_some, length, get_elem?, take, replicate,
  filter, find, any, count, All, length-append, length-replicate, count-append, length-filter-le,
  All-append, find-passes, any-find, Text, text, text_eq, text_eq_iff, text_eq_self, text_ne,
  starts_with, contains, to_ascii_lowercase, starts_with-append, Map, keep_if, map_some, new_map,
  insert, alter, retain,
}

abbrev pub Bytes : Type 0
Bytes = List ℕ

abbrev pub drop : ℕ → Bytes → Bytes
drop zero bs = bs
drop (suc n) [] = []
drop (suc n) (b ∷ bs) = drop n bs

abbrev pub newlines : Bytes
newlines = 10 ∷ 10 ∷ []

abbrev pub crlf_newlines : Bytes
crlf_newlines = 13 ∷ 10 ∷ 13 ∷ 10 ∷ []

-- `buffer.windows(tag.len()).position(|w| w == tag)`.
unfoldable pub position : Bytes → Bytes → Option ℕ
position tag [] = none
position tag (b ∷ bs) =
    let later = map_some suc (position tag bs) in if starts_with (b ∷ bs) tag then some 0 else later

abbrev pub boundary_after : Option ℕ → ℕ → Option ℕ → Option ℕ
boundary_after none width other = other
boundary_after (some pos) width other = some (pos + width)

unfoldable pub find_sse_boundary : Bytes → Option ℕ
find_sse_boundary buffer =
    boundary_after (position newlines buffer) (length newlines)
      (boundary_after (position crlf_newlines buffer) (length crlf_newlines) none)

-- `strip_prefix`.
unfoldable pub strip_prefix : Text → Text → Option Text
strip_prefix [] s = some s
strip_prefix (p ∷ ps) [] = none
strip_prefix (p ∷ ps) (c ∷ s) = let rest = strip_prefix ps s in if p == c then rest else none

abbrev pub after_colon : Option Text → Option Text
after_colon none = none
after_colon (some rest) = some (get_or rest (strip_prefix (text " ") rest))

abbrev pub strip_colon : Option Text → Option Text
strip_colon none = none
strip_colon (some s) = after_colon (strip_prefix (text ":") s)

-- `field: value` and `field:value`.
unfoldable pub sse_field : Text → Text → Option Text
sse_field line field = strip_colon (strip_prefix field line)

abbrev pub add_event : Bytes → List Bytes × Bytes → List Bytes × Bytes
add_event event (events, rest) = (event ∷ events, rest)

-- `while let Some(event_end) = find_sse_boundary(&buffer)`, on fuel: the events, and what is left.
abbrev pub cut : Option ℕ → Bytes → (Bytes → List Bytes × Bytes) → List Bytes × Bytes
cut none buffer next = ([], buffer)
cut (some event_end) buffer next = add_event (take event_end buffer) (next (drop event_end buffer))

unfoldable pub frames : ℕ → Bytes → List Bytes × Bytes
frames zero buffer = ([], buffer)
frames (suc fuel) buffer = cut (find_sse_boundary buffer) buffer (λ rest. frames fuel rest)

abbrev pub then_events : List Bytes → List Bytes × Bytes → List Bytes × Bytes
then_events events (later, rest) = (events ++ later, rest)

-- `while let Some(chunk) = stream.next().await`: a chunk is appended, and its events are taken off.
unfoldable pub feed : Bytes → List Bytes → List Bytes × Bytes
feed buffer [] = ([], buffer)
feed buffer (chunk ∷ chunks) =
    let all : Bytes = buffer ++ chunk in
    let first = frames (length all) all in then_events first.0 (feed first.1 chunks)
