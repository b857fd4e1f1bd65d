-- ===== src/Relay/Sse/Frames.antt =====
-- The events that a stream of chunks is cut into (stream_loop.rs).
use galaxy_router.Base.{
  ℕ, zero, suc, ◌-◌, ◌≤◌, ◌<◌, ◌≡◌, refl, sym, ap, ◌∙◌, Option, none, some, List, [], ◌∷◌, ◌++◌,
  arith, length, take, All, All-append,
}
use mathlib.Core.List.{append_assoc, append-nil}
use galaxy_router.Relay.Sse.{Bytes, drop, position, find_sse_boundary, cut, frames, feed}
use galaxy_router.Relay.Sse.Find.{EndsEvent, find_sse_boundary-EndsEvent}

abbrev pub concat : List Bytes → Bytes
concat [] = []
concat (e ∷ es) = e ++ concat es

take-drop : (n : ℕ) (s : Bytes) → take n s ++ drop n s ≡ s
take-drop zero s = refl
take-drop (suc n) [] = refl
take-drop (suc n) (b ∷ s) = ap (λ t. b ∷ t) (take-drop n s)

pub length-drop : (n : ℕ) (s : Bytes) → length (drop n s) ≡ length s - n
length-drop zero s = omega arith
length-drop (suc n) [] = omega arith
length-drop (suc n) (b ∷ s) = omega (arith, length-drop n s)

length-take_le : (n : ℕ) (s : Bytes) → n ≤ length s → length (take n s) ≡ n
length-take_le zero s h = refl
length-take_le (suc n) [] h = absurd (omega arith)
length-take_le (suc n) (b ∷ s) h = ap suc (length-take_le n s (omega arith))

-- An event has one boundary, its end.
abbrev pub IsEvent : Bytes → Type 0
IsEvent e = find_sse_boundary e ≡ some (length e)

-- What was cut off and what is left make up the buffer; every piece is an event.
abbrev pub Cuts : Bytes → List Bytes × Bytes → Type 0
Cuts buffer r = (concat r.0 ++ r.1 ≡ buffer) × All IsEvent r.0

abbrev pub IsDone : List Bytes × Bytes → Type 0
IsDone r = find_sse_boundary r.1 ≡ none

cut-Cuts :
    (buffer : Bytes) (o : Option ℕ) (next : Bytes → List Bytes × Bytes)
    → EndsEvent buffer o
    → ((s : Bytes) → length s < length buffer → Cuts s (next s))
    → Cuts buffer (cut o buffer next)
cut-Cuts buffer none next h ih = (refl, tt)
cut-Cuts buffer (some n) next (wide, fits, whole) ih =
    let rest = ih (drop n buffer) (omega (arith, length-drop n buffer, wide, fits)) in
    (
      append_assoc (take n buffer) (concat (next (drop n buffer)).0) (next (drop n buffer)).1
          ∙ ap (λ t. take n buffer ++ t) rest.0
          ∙ take-drop n buffer,
      (whole ∙ ap some (sym (length-take_le n buffer fits)), rest.1),
    )

pub frames-Cuts : (fuel : ℕ) (buffer : Bytes) → Cuts buffer (frames fuel buffer)
unfolding frames
frames-Cuts zero buffer = (refl, tt)
frames-Cuts (suc fuel) buffer =
    cut-Cuts buffer (find_sse_boundary buffer) (λ rest. frames fuel rest)
      (find_sse_boundary-EndsEvent buffer) (λ s h. frames-Cuts fuel s)

-- With as much fuel as there are bytes, no boundary is left.
cut-IsDone :
    (buffer : Bytes) (o : Option ℕ) (next : Bytes → List Bytes × Bytes)
    → find_sse_boundary buffer ≡ o
    → EndsEvent buffer o
    → ((s : Bytes) → length s < length buffer → IsDone (next s))
    → IsDone (cut o buffer next)
cut-IsDone buffer none next e h ih = e
cut-IsDone buffer (some n) next e (wide, fits, whole) ih =
    ih (drop n buffer) (omega (arith, length-drop n buffer, wide, fits))

pub frames-IsDone : (fuel : ℕ) (buffer : Bytes) → length buffer ≤ fuel → IsDone (frames fuel buffer)
unfolding frames find_sse_boundary position
frames-IsDone zero [] h = refl
frames-IsDone zero (b ∷ buffer) h = absurd (omega arith)
frames-IsDone (suc fuel) buffer h =
    cut-IsDone buffer (find_sse_boundary buffer) (λ rest. frames fuel rest) refl
      (find_sse_boundary-EndsEvent buffer) (λ s k. frames-IsDone fuel s (omega arith))

concat-append : (es fs : List Bytes) → concat (es ++ fs) ≡ concat es ++ concat fs
concat-append [] fs = refl
concat-append (e ∷ es) fs =
    ap (λ t. e ++ t) (concat-append es fs) ∙ sym (append_assoc e (concat es) (concat fs))

-- From a buffer without a boundary, the loop over the chunks of a stream ends with a buffer
-- without one, with as much fuel for a buffer as it has bytes; the events and what is left make
-- up the bytes that came, in their order; and each event has one boundary, its end.
pub feed-IsEvent :
    (buffer : Bytes) (chunks : List Bytes)
    → find_sse_boundary buffer ≡ none
    → (concat (feed buffer chunks).0 ++ (feed buffer chunks).1 ≡ buffer ++ concat chunks)
      × All IsEvent (feed buffer chunks).0
      × (find_sse_boundary (feed buffer chunks).1 ≡ none)
unfolding feed
feed-IsEvent buffer [] e = (sym (append-nil buffer), tt, e)
feed-IsEvent buffer (chunk ∷ chunks) e =
    let all : Bytes = buffer ++ chunk in
    let first = frames (length all) all in
    let cuts = frames-Cuts (length all) all in
    let rest = feed-IsEvent first.1 chunks (frames-IsDone (length all) all (omega arith)) in
    let later = feed first.1 chunks in
    (
      ap (λ t. t ++ later.1) (concat-append first.0 later.0)
          ∙ append_assoc (concat first.0) (concat later.0) later.1
          ∙ ap (λ t. concat first.0 ++ t) rest.0
          ∙ sym (append_assoc (concat first.0) first.1 (concat chunks))
          ∙ ap (λ t. t ++ concat chunks) cuts.0
          ∙ append_assoc buffer chunk (concat chunks),
      All-append IsEvent first.0 later.0 cuts.1 rest.1,
      rest.2,
    )
