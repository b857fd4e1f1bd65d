-- ===== src/Relay/Sse/Tests.antt =====
-- Concrete bytes of event streams (parsing.rs, stream_loop.rs).
use galaxy_router.Base.{◌≡◌, refl, none, some, List, [], ◌∷◌, ◌++◌, All, text, starts_with}
use galaxy_router.Relay.Sse.{
  Bytes, crlf_newlines, position, find_sse_boundary, strip_prefix, sse_field, frames, feed,
}
use galaxy_router.Relay.Sse.Frames.{concat, IsEvent, feed-IsEvent}
use galaxy_router.Relay.Sse.Chunks.{frames_all, feed-frames_all}

field_tests :
    (sse_field (text "data: {}") (text "data") ≡ some (text "{}"))
    × (sse_field (text "data:{}") (text "data") ≡ some (text "{}"))
    × (sse_field (text "event: x") (text "data") ≡ none)
unfolding sse_field strip_prefix
field_tests = (refl, refl, refl)

-- "a", a blank line, "b", a blank line, in three chunks.
abbrev chunks : List Bytes
chunks = text "a\n" ∷ text "\nb" ∷ text "\n\n" ∷ []

feed_test : feed [] chunks ≡ (text "a\n\n" ∷ text "b\n\n" ∷ [], [])
unfolding feed frames find_sse_boundary position starts_with
feed_test = refl

-- An event that ends in "\r\n\r\n" is merged with the next one when that ends in "\n\n".
merged_events :
    (frames_all (text "a" ++ crlf_newlines ++ text "b\n\n")).0
    ≡ (text "a" ++ crlf_newlines ++ text "b\n\n") ∷ []
unfolding frames find_sse_boundary position starts_with
merged_events = refl

-- What comes without a blank line at its end is left in the buffer.
left_over : feed [] (text "a\n\n" ∷ text "b" ∷ []) ≡ (text "a\n\n" ∷ [], text "b")
unfolding feed frames find_sse_boundary position starts_with
left_over = refl

feed-IsEvent_example :
    (concat (feed [] chunks).0 ++ (feed [] chunks).1 ≡ text "a\n\nb\n\n")
    × All IsEvent (feed [] chunks).0
    × (find_sse_boundary (feed [] chunks).1 ≡ none)
unfolding find_sse_boundary position
feed-IsEvent_example = feed-IsEvent [] chunks refl

feed-frames_all_example : feed [] chunks ≡ frames_all (text "a\n\nb\n\n")
unfolding find_sse_boundary position
feed-frames_all_example =
    feed-frames_all chunks [] refl (refl, (refl, (refl, (refl, (refl, (refl, tt))))))
