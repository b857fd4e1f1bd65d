-- ===== src/Relay/Sse/Chunks.antt =====
-- However a stream of bytes is cut into chunks, it has the same events (stream_loop.rs).
use galaxy_router.Base.{
  ℕ, zero, suc, ◌≤◌, ◌<◌, ◌≡◌, refl, sym, ap, subst, ◌∙◌, false, Option, none, some, List, [], ◌∷◌,
  ◌++◌, arith, ◌==◌, length, take, All-append,
}
use mathlib.Core.List.{append_assoc, append-nil}
use galaxy_router.Relay.Sse.{
  Bytes, drop, position, find_sse_boundary, add_event, cut, frames, then_events, feed,
}
use galaxy_router.Relay.Sse.Find.{
  EndsEvent, find_sse_boundary-EndsEvent, NoCarriage, Stays, find_sse_boundary-Stays,
}
use galaxy_router.Relay.Sse.Frames.{concat, length-drop, Cuts, frames-Cuts, frames-IsDone}

-- More fuel than bytes changes nothing.
cut-ext :
    (buffer : Bytes) (o : Option ℕ) (f g : Bytes → List Bytes × Bytes)
    → EndsEvent buffer o
    → ((s : Bytes) → length s < length buffer → f s ≡ g s)
    → cut o buffer f ≡ cut o buffer g
cut-ext buffer none f g h same = refl
cut-ext buffer (some n) f g (wide, fits, whole) same =
    ap (add_event (take n buffer))
      (same (drop n buffer) (omega (arith, length-drop n buffer, wide, fits)))

frames_empty : (fuel : ℕ) → frames fuel [] ≡ ([], [])
unfolding frames find_sse_boundary position
frames_empty zero = refl
frames_empty (suc fuel) = refl

frames-fuel :
    (f g : ℕ) (buffer : Bytes)
    → length buffer ≤ f
    → length buffer ≤ g
    → frames f buffer ≡ frames g buffer
unfolding frames
frames-fuel zero g [] hf hg = sym (frames_empty g)
frames-fuel zero g (b ∷ buffer) hf hg = absurd (omega arith)
frames-fuel (suc f) zero [] hf hg = frames_empty (suc f)
frames-fuel (suc f) zero (b ∷ buffer) hf hg = absurd (omega arith)
frames-fuel (suc f) (suc g) buffer hf hg =
    cut-ext buffer (find_sse_boundary buffer) (λ s. frames f s) (λ s. frames g s)
      (find_sse_boundary-EndsEvent buffer) (λ s h. frames-fuel f g s (omega arith) (omega arith))

-- A whole stream at once.
abbrev pub frames_all : Bytes → List Bytes × Bytes
frames_all buffer = frames (length buffer) buffer

frames_all-cut :
    (buffer : Bytes) → frames_all buffer ≡ cut (find_sse_boundary buffer) buffer frames_all
unfolding frames
frames_all-cut buffer =
    frames-fuel (length buffer) (suc (length buffer)) buffer (omega arith) (omega arith)
    ∙ cut-ext buffer (find_sse_boundary buffer) (λ s. frames (length buffer) s) frames_all
        (find_sse_boundary-EndsEvent buffer)
        (λ s h. frames-fuel (length buffer) (length s) s (omega arith) (omega arith))

take-append : (n : ℕ) (s more : Bytes) → n ≤ length s → take n (s ++ more) ≡ take n s
take-append zero s more h = refl
take-append (suc n) [] more h = absurd (omega arith)
take-append (suc n) (b ∷ s) more h = ap (λ t. b ∷ t) (take-append n s more (omega arith))

drop-append : (n : ℕ) (s more : Bytes) → n ≤ length s → drop n (s ++ more) ≡ drop n s ++ more
drop-append zero s more h = refl
drop-append (suc n) [] more h = absurd (omega arith)
drop-append (suc n) (b ∷ s) more h = drop-append n s more (omega arith)

drop-NoCarriage : (n : ℕ) (s : Bytes) → NoCarriage s → NoCarriage (drop n s)
drop-NoCarriage zero s h = h
drop-NoCarriage (suc n) [] h = tt
drop-NoCarriage (suc n) (b ∷ s) h = drop-NoCarriage n s h.1

-- The events of a buffer, and then those of what it leaves and more.
abbrev GoesOn : Bytes → Bytes → Type 0
GoesOn buffer more =
    frames_all (buffer ++ more)
    ≡ then_events (frames_all buffer).0 (frames_all ((frames_all buffer).1 ++ more))

cut-GoesOn :
    (buffer more : Bytes) (o o' : Option ℕ)
    → find_sse_boundary buffer ≡ o
    → find_sse_boundary (buffer ++ more) ≡ o'
    → Stays o o'
    → EndsEvent buffer o
    → ((s : Bytes) → length s < length buffer → NoCarriage s → GoesOn s more)
    → NoCarriage buffer
    → cut o' (buffer ++ more) frames_all
      ≡ then_events (cut o buffer frames_all).0 (frames_all ((cut o buffer frames_all).1 ++ more))
cut-GoesOn buffer more none o' e e' stays ends ih plain =
    ap (λ x. cut x (buffer ++ more) frames_all) (sym e') ∙ sym (frames_all-cut (buffer ++ more))
cut-GoesOn buffer more (some n) o' e e' stays (wide, fits, whole) ih plain =
    ap (λ x. cut x (buffer ++ more) frames_all) stays
    ∙ ap (λ t. add_event t (frames_all (drop n (buffer ++ more)))) (take-append n buffer more fits)
    ∙ ap (λ t. add_event (take n buffer) (frames_all t)) (drop-append n buffer more fits)
    ∙ ap (add_event (take n buffer)) (
        ih (drop n buffer) (omega (arith, length-drop n buffer, wide, fits))
          (drop-NoCarriage n buffer plain))

frames_all-GoesOn :
    (n : ℕ) (buffer more : Bytes) → length buffer ≤ n → NoCarriage buffer → GoesOn buffer more
unfolding frames
frames_all-GoesOn zero [] more h plain = refl
frames_all-GoesOn zero (b ∷ buffer) more h plain = absurd (omega arith)
frames_all-GoesOn (suc n) buffer more h plain =
    frames_all-cut (buffer ++ more)
    ∙ cut-GoesOn buffer more (find_sse_boundary buffer) (find_sse_boundary (buffer ++ more)) refl
        refl (find_sse_boundary-Stays buffer more plain) (find_sse_boundary-EndsEvent buffer)
        (λ s k p. frames_all-GoesOn n s more (omega arith) p) plain
    ∙ ap (λ r. then_events r.0 (frames_all (r.1 ++ more))) (sym (frames_all-cut buffer))

append-NoCarriage : (s t : Bytes) → NoCarriage (s ++ t) → NoCarriage s × NoCarriage t
append-NoCarriage [] t h = (tt, h)
append-NoCarriage (b ∷ s) t (here, h) =
    let parts = append-NoCarriage s t h in ((here, parts.0), parts.1)

rest-NoCarriage :
    (r : List Bytes × Bytes) (buffer : Bytes) → Cuts buffer r → NoCarriage buffer → NoCarriage r.1
rest-NoCarriage r buffer (whole, events) plain =
    (append-NoCarriage (concat r.0) r.1 (subst NoCarriage (sym whole) plain)).1

-- From a buffer without a boundary, a stream without carriage returns is cut into the same
-- events, and leaves the same rest, however its bytes are cut into chunks.
pub feed-frames_all :
    (chunks : List Bytes) (buffer : Bytes)
    → find_sse_boundary buffer ≡ none
    → NoCarriage (buffer ++ concat chunks)
    → feed buffer chunks ≡ frames_all (buffer ++ concat chunks)
unfolding feed
feed-frames_all [] buffer e plain = sym (
    ap frames_all (append-nil buffer) ∙ frames_all-cut buffer ∙ ap (λ o. cut o buffer frames_all) e)
feed-frames_all (chunk ∷ chunks) buffer e plain =
    let all : Bytes = buffer ++ chunk in
    let first = frames_all all in
    let plain' : NoCarriage (all ++ concat chunks) =
      subst NoCarriage (sym (append_assoc buffer chunk (concat chunks))) plain in
    let parts = append-NoCarriage all (concat chunks) plain' in
    let rest_plain = rest-NoCarriage first all (frames-Cuts (length all) all) parts.0 in
    ap (then_events first.0) (
      feed-frames_all chunks first.1 (frames-IsDone (length all) all (omega arith))
        (All-append (λ b. (b == 13) ≡ false) first.1 (concat chunks) rest_plain parts.1))
    ∙ sym (frames_all-GoesOn (length all) all (concat chunks) (omega arith) parts.0)
    ∙ ap frames_all (append_assoc buffer chunk (concat chunks))
