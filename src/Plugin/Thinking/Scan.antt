-- ===== src/Plugin/Thinking/Scan.antt =====
-- One pass over a text, character by character: what the search for a tag and for the start of one
-- at the end come to (thinking.rs).
use galaxy_router.Base.{
  ℕ, zero, suc, ◌≤◌, ◌≡◌, refl, sym, ap, ◌∙◌, inl, inr, true, false, [], ◌∷◌, ◌++◌, arith,
  if◌then◌else◌, Bool-cases, length, Text, starts_with,
}
use mathlib.Core.Bool.{true≢false, false≢true}
use galaxy_router.Plugin.Thinking.{drop}

-- A tag is found, with what stands before it and behind it; or the text ends in what may become
-- one, after what cannot.
pub data Scanned : Type 0 where
  tag_found : Text → Text → Scanned
  no_tag : Text → Text → Scanned

abbrev pub emit : ℕ → Scanned → Scanned
emit c (tag_found pre post) = tag_found (c ∷ pre) post
emit c (no_tag out wait) = no_tag (c ∷ out) wait

-- The first place where the tag starts, or where the rest is the start of a tag.
unfoldable pub scan : Text → Text → Scanned
scan tag [] = no_tag [] []
scan tag (c ∷ s) =
    let rest = emit c (scan tag s) in
    if starts_with (c ∷ s) tag
    then tag_found [] (drop (length tag) (c ∷ s))
    else if starts_with tag (c ∷ s)
    then no_tag [] (c ∷ s)
    else rest

abbrev pub prepend : Text → Scanned → Scanned
prepend e (tag_found pre post) = tag_found (e ++ pre) post
prepend e (no_tag out wait) = no_tag (e ++ out) wait

-- What more text makes of a scan.
abbrev pub continue_with : Text → Scanned → Text → Scanned
continue_with tag (tag_found pre post) more = tag_found pre (post ++ more)
continue_with tag (no_tag out wait) more = prepend out (scan tag (wait ++ more))

starts_with-grow : (s t more : Text) → starts_with s t ≡ true → starts_with (s ++ more) t ≡ true
unfolding starts_with
starts_with-grow s [] more h = refl
starts_with-grow [] (b ∷ t) more h = elim (false≢true h) [ ]
starts_with-grow (a ∷ s) (b ∷ t) more h = ground (arith, starts_with-grow s t more)

-- What neither starts with the tag nor is the start of it stays so as the text grows.
starts_with-settled :
    (s t more : Text)
    → starts_with s t ≡ false
    → starts_with t s ≡ false
    → (starts_with (s ++ more) t ≡ false) × (starts_with t (s ++ more) ≡ false)
unfolding starts_with
starts_with-settled s [] more h k = elim (true≢false h) [ ]
starts_with-settled [] (b ∷ t) more h k = elim (true≢false k) [ ]
starts_with-settled (a ∷ s) (b ∷ t) more h k = ground (arith, starts_with-settled s t more)

drop-append : (n : ℕ) (s more : Text) → n ≤ length s → drop n (s ++ more) ≡ drop n s ++ more
drop-append zero s more h = refl
drop-append (suc n) [] more h = absurd (omega arith)
drop-append (suc n) (c ∷ s) more h = drop-append n s more (omega arith)

pub starts_with-length : (s t : Text) → starts_with s t ≡ true → length t ≤ length s
unfolding starts_with
starts_with-length s [] h = omega arith
starts_with-length [] (b ∷ t) h = elim (false≢true h) [ ]
starts_with-length (a ∷ s) (b ∷ t) h = ground (arith, starts_with-length s t)

emit-continue_with :
    (tag : Text) (c : ℕ) (r : Scanned) (more : Text)
    → emit c (continue_with tag r more) ≡ continue_with tag (emit c r) more
emit-continue_with tag c (tag_found pre post) more = refl
emit-continue_with tag c (no_tag out wait) more = emit_prepend (scan tag (wait ++ more))
  where
    emit_prepend : (r : Scanned) → emit c (prepend out r) ≡ prepend (c ∷ out) r
    emit_prepend (tag_found pre post) = refl
    emit_prepend (no_tag out' wait') = refl

prepend_nil : (r : Scanned) → prepend [] r ≡ r
prepend_nil (tag_found pre post) = refl
prepend_nil (no_tag out wait) = refl

-- A text may be scanned in two parts.
pub scan-append : (tag s more : Text) → scan tag (s ++ more) ≡ continue_with tag (scan tag s) more
unfolding scan
scan-append tag [] more = sym (prepend_nil (scan tag more))
scan-append tag (c ∷ s) more = elim (Bool-cases (starts_with (c ∷ s) tag)) [
  | inl e ↦
      rw (e, starts_with-grow (c ∷ s) tag more e)
        (ap (λ r. tag_found [] r)
          (drop-append (length tag) (c ∷ s) more (starts_with-length (c ∷ s) tag e)))
  | inr e ↦ elim (Bool-cases (starts_with tag (c ∷ s))) [
    | inl k ↦ rw (e, k) (sym (prepend_nil (scan tag ((c ∷ s) ++ more))))
    | inr k ↦
        let settled = starts_with-settled (c ∷ s) tag more e k in
        rw (e, k, settled.0, settled.1)
          (ap (λ r. emit c r) (scan-append tag s more) ∙ emit-continue_with tag c (scan tag s) more)
  ]
]
