-- ===== src/Plugin/Thinking/Runs.antt =====
-- The loop over a buffer as a run of scans (thinking.rs, process_chunk).
use galaxy_router.Base.{
  ℕ, zero, suc, ◌+◌, ◌≤◌, ◌<◌, max, ◌≡◌, refl, sym, ap, subst, ◌∙◌, inl, inr, Bool, true, false,
  not, [], ◌∷◌, ◌++◌, arith, Bool-cases, length, Text, starts_with,
}
use mathlib.Core.List.{append_assoc, append-nil}
use galaxy_router.Plugin.Thinking.{drop, tag_of, Split, put_piece, last_piece, split_loop}
use galaxy_router.Plugin.Thinking.Scan.{
  Scanned, tag_found, no_tag, emit, scan, prepend, continue_with, scan-append, starts_with-length,
}
use galaxy_router.Plugin.Thinking.Search.{Agrees, scan-Agrees}

abbrev pub waiting : Bool → Text → Split
waiting in_think wait = record { content = []; stripped = []; inside = in_think; kept = wait }

-- A scan decides what is split off; the rest goes on in the other mode.
abbrev pub absorb : Bool → (Text → Split) → Scanned → Split
absorb b rest (tag_found pre post) = put_piece b pre (rest post)
absorb b rest (no_tag out wait) = put_piece b out (waiting b wait)

unfoldable pub run : ℕ → Bool → Text → Split
run zero b buf = waiting b buf
run (suc fuel) b buf = absorb b (λ post. run fuel (not b) post) (scan (tag_of b) buf)

pub tag_of_pos : (b : Bool) → 0 < length (tag_of b)
tag_of_pos true = omega arith
tag_of_pos false = omega arith

length-drop_le : (n : ℕ) (s : Text) → length (drop n s) + n ≤ max (length s) n
length-drop_le zero s = omega arith
length-drop_le (suc n) [] = omega arith
length-drop_le (suc n) (c ∷ s) = omega (arith, length-drop_le n s)

-- A scan takes something off, or keeps the text.
abbrev pub Fits : Text → Scanned → Type 0
Fits s (tag_found pre post) = length post < length s
Fits s (no_tag out wait) = out ++ wait ≡ s

emit-Fits : (c : ℕ) (s : Text) (r : Scanned) → Fits s r → Fits (c ∷ s) (emit c r)
emit-Fits c s (tag_found pre post) h = omega arith
emit-Fits c s (no_tag out wait) h = ap (λ t. c ∷ t) h

pub scan-Fits : (tag s : Text) → 0 < length tag → Fits s (scan tag s)
unfolding scan
scan-Fits tag [] pos = refl
scan-Fits tag (c ∷ s) pos = elim (Bool-cases (starts_with (c ∷ s) tag)) [
  | inl e ↦
      rw e (omega (arith, length-drop_le (length tag) (c ∷ s), starts_with-length (c ∷ s) tag e))
  | inr e ↦ elim (Bool-cases (starts_with tag (c ∷ s))) [
    | inl k ↦ rw (e, k) refl
    | inr k ↦ rw (e, k) (emit-Fits c s (scan tag s) (scan-Fits tag s pos))
  ]
]

put_nothing :
    (b in_think : Bool) (wait : Text)
    → put_piece b [] (waiting in_think wait) ≡ waiting in_think wait
put_nothing true in_think wait = refl
put_nothing false in_think wait = refl

pub absorb-ext :
    (b : Bool) (s : Text) (f g : Text → Split) (r : Scanned)
    → Fits s r
    → ((post : Text) → length post < length s → f post ≡ g post)
    → absorb b f r ≡ absorb b g r
absorb-ext b s f g (tag_found pre post) fits same = ap (put_piece b pre) (same post fits)
absorb-ext b s f g (no_tag out wait) fits same = refl

run_empty : (fuel : ℕ) (b : Bool) → run fuel b [] ≡ waiting b []
unfolding run scan
run_empty zero b = refl
run_empty (suc fuel) b = put_nothing b b []

-- More fuel than characters changes nothing.
pub run-fuel :
    (f g : ℕ) (b : Bool) (buf : Text) → length buf ≤ f → length buf ≤ g → run f b buf ≡ run g b buf
unfolding run
run-fuel zero g b [] hf hg = sym (run_empty g b)
run-fuel zero g b (c ∷ buf) hf hg = absurd (omega arith)
run-fuel (suc f) zero b [] hf hg = run_empty (suc f) b
run-fuel (suc f) zero b (c ∷ buf) hf hg = absurd (omega arith)
run-fuel (suc f) (suc g) b buf hf hg =
    absorb-ext b buf (λ post. run f (not b) post) (λ post. run g (not b) post) (scan (tag_of b) buf)
      (scan-Fits (tag_of b) buf (tag_of_pos b))
      (λ post h. run-fuel f g (not b) post (omega arith) (omega arith))

-- The code's loop is the run.
last_piece-waiting :
    (b : Bool) (buf out wait : Text)
    → Agrees (tag_of b) buf (no_tag out wait)
    → last_piece b buf ≡ put_piece b out (waiting b wait)
unfolding last_piece
last_piece-waiting b buf out wait (a, before, behind) = rw (before, behind) refl

split_step :
    (fuel : ℕ) (b : Bool) (buf : Text) (r : Scanned)
    → Agrees (tag_of b) buf r
    → split_loop (suc fuel) b buf ≡ absorb b (λ post. split_loop fuel (not b) post) r
unfolding split_loop
split_step fuel b buf (tag_found pre post) a = rw (split_loop, a) refl
split_step fuel b buf (no_tag out wait) a =
    rw (split_loop, a.0) (last_piece-waiting b buf out wait a)

pub split_loop-run :
    (fuel : ℕ) (b : Bool) (buf : Text) → length buf ≤ fuel → split_loop fuel b buf ≡ run fuel b buf
unfolding run split_loop scan
split_loop-run zero b [] h =
    last_piece-waiting b [] [] [] (scan-Agrees (tag_of b) [] (tag_of_pos b)) ∙ put_nothing b b []
split_loop-run zero b (c ∷ buf) h = absurd (omega arith)
split_loop-run (suc fuel) b buf h =
    split_step fuel b buf (scan (tag_of b) buf) (scan-Agrees (tag_of b) buf (tag_of_pos b))
    ∙ absorb-ext b buf (λ post. split_loop fuel (not b) post) (λ post. run fuel (not b) post)
        (scan (tag_of b) buf) (scan-Fits (tag_of b) buf (tag_of_pos b))
        (λ post k. split_loop-run fuel (not b) post (omega arith))

-- One split and then another, of what was kept and more.
abbrev pub join : Split → Split → Split
join a c = record {
  content = a.content ++ c.content;
  stripped = a.stripped ++ c.stripped;
  inside = c.inside;
  kept = c.kept;
}

put_piece-join :
    (b : Bool) (piece : Text) (a c : Split)
    → put_piece b piece (join a c) ≡ join (put_piece b piece a) c
put_piece-join true piece a c =
    ap (λ t. record (join a c) { stripped = t }) (sym (append_assoc piece a.stripped c.stripped))
put_piece-join false piece a c =
    ap (λ t. record (join a c) { content = t }) (sym (append_assoc piece a.content c.content))

put_piece-inside : (b : Bool) (piece : Text) (s : Split) → (put_piece b piece s).inside ≡ s.inside
put_piece-inside true piece s = refl
put_piece-inside false piece s = refl

put_piece-kept : (b : Bool) (piece : Text) (s : Split) → (put_piece b piece s).kept ≡ s.kept
put_piece-kept true piece s = refl
put_piece-kept false piece s = refl

absorb-prepend :
    (b : Bool) (out : Text) (f : Text → Split) (r : Scanned)
    → absorb b f (prepend out r) ≡ put_piece b out (absorb b f r)
absorb-prepend true out f (tag_found pre post) =
    ap (λ t. record (f post) { stripped = t }) (append_assoc out pre (f post).stripped)
absorb-prepend true out f (no_tag out' wait) =
    ap (λ t. record (waiting true wait) { stripped = t }) (append_assoc out out' [])
absorb-prepend false out f (tag_found pre post) =
    ap (λ t. record (f post) { content = t }) (append_assoc out pre (f post).content)
absorb-prepend false out f (no_tag out' wait) =
    ap (λ t. record (waiting false wait) { content = t }) (append_assoc out out' [])

continue_again :
    (b : Bool) (more out wait : Text) (c : Split)
    → put_piece b out c ≡ join (put_piece b out (waiting b wait)) c
continue_again true more out wait c =
    ap (λ t. record c { stripped = t ++ c.stripped }) (sym (append-nil out))
continue_again false more out wait c =
    ap (λ t. record c { content = t ++ c.content }) (sym (append-nil out))

-- With the fuel that is enough.
abbrev pub run_all : Bool → Text → Split
run_all b buf = run (length buf) b buf

pub run_all-absorb :
    (b : Bool) (buf : Text)
    → run_all b buf ≡ absorb b (λ post. run_all (not b) post) (scan (tag_of b) buf)
unfolding run
run_all-absorb b buf =
    run-fuel (length buf) (suc (length buf)) b buf (omega arith) (omega arith)
    ∙ absorb-ext b buf (λ post. run (length buf) (not b) post) (λ post. run_all (not b) post)
        (scan (tag_of b) buf) (scan-Fits (tag_of b) buf (tag_of_pos b))
        (λ post h. run-fuel (length buf) (length post) (not b) post (omega arith) (omega arith))

-- A run goes on as more text comes.
abbrev GoesOn : Text → Split → Split → Type 0
GoesOn more whole first = whole ≡ join first (run_all first.inside (first.kept ++ more))

put_piece-GoesOn :
    (b : Bool) (piece more : Text) (whole first : Split)
    → GoesOn more whole first
    → GoesOn more (put_piece b piece whole) (put_piece b piece first)
put_piece-GoesOn true piece more whole first h =
    ap (put_piece true piece) h
    ∙ put_piece-join true piece first (run_all first.inside (first.kept ++ more))
put_piece-GoesOn false piece more whole first h =
    ap (put_piece false piece) h
    ∙ put_piece-join false piece first (run_all first.inside (first.kept ++ more))

waiting-GoesOn :
    (b : Bool) (out wait more : Text) (r : Scanned)
    → r ≡ scan (tag_of b) (wait ++ more)
    → GoesOn more
        (absorb b (λ post. run_all (not b) post) (prepend out r))
        (put_piece b out (waiting b wait))
waiting-GoesOn true out wait more r e =
    absorb-prepend true out (λ post. run_all false post) r
    ∙ ap (λ x. put_piece true out (absorb true (λ post. run_all false post) x)) e
    ∙ ap (put_piece true out) (sym (run_all-absorb true (wait ++ more)))
    ∙ continue_again true more out wait (run_all true (wait ++ more))
waiting-GoesOn false out wait more r e =
    absorb-prepend false out (λ post. run_all true post) r
    ∙ ap (λ x. put_piece false out (absorb false (λ post. run_all true post) x)) e
    ∙ ap (put_piece false out) (sym (run_all-absorb false (wait ++ more)))
    ∙ continue_again false more out wait (run_all false (wait ++ more))

absorb-GoesOn :
    (b : Bool) (buf more : Text) (r : Scanned)
    → Fits buf r
    → ((post : Text)
        → length post < length buf
        → GoesOn more (run_all (not b) (post ++ more)) (run_all (not b) post))
    → GoesOn more
        (absorb b (λ post. run_all (not b) post) (continue_with (tag_of b) r more))
        (absorb b (λ post. run_all (not b) post) r)
absorb-GoesOn b buf more (tag_found pre post) fits ih =
    put_piece-GoesOn b pre more (run_all (not b) (post ++ more)) (run_all (not b) post)
      (ih post fits)
absorb-GoesOn b buf more (no_tag out wait) fits ih =
    waiting-GoesOn b out wait more (scan (tag_of b) (wait ++ more)) refl

run_all-bounded :
    (n : ℕ) (b : Bool) (buf more : Text)
    → length buf ≤ n
    → GoesOn more (run_all b (buf ++ more)) (run_all b buf)
unfolding run
run_all-bounded zero b [] more h = refl
run_all-bounded zero b (c ∷ buf) more h = absurd (omega arith)
run_all-bounded (suc n) b buf more h =
    let on =
      absorb-GoesOn b buf more (scan (tag_of b) buf) (scan-Fits (tag_of b) buf (tag_of_pos b))
        (λ post k. run_all-bounded n (not b) post more (omega arith)) in
    subst (λ first. GoesOn more (run_all b (buf ++ more)) first) (sym (run_all-absorb b buf))
      (run_all-absorb b (buf ++ more)
        ∙ ap (λ r. absorb b (λ post. run_all (not b) post) r) (scan-append (tag_of b) buf more)
        ∙ on)

pub run_all-append :
    (b : Bool) (buf more : Text)
    → run_all b (buf ++ more)
      ≡ join (run_all b buf) (run_all (run_all b buf).inside ((run_all b buf).kept ++ more))
run_all-append b buf more = run_all-bounded (length buf) b buf more (omega arith)
