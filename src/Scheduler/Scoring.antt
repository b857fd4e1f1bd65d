-- ===== src/Scheduler/Scoring.antt =====
-- src/llm/scheduler/scoring.rs: the score of a candidate, and the candidates in the order of it. Texts
-- are compared by their characters, which is the order of their UTF-8 bytes.
pub mod Sort
pub mod Order
mod Tests
use galaxy_router.Base.{
  ℕ, zero, suc, ◌+◌, ◌-◌, ◌*◌, ◌/◌, ◌%◌, ◌^◌, ◌≤◌, ◌<◌, min, max, ◌≡◌, refl, sym, ap, subst, ◌∙◌,
  fun_ext, ◌≢◌, ◌↔◌, ◌⊎◌, inl, inr, Bool, true, false, not, ◌&&◌, ◌||◌, Option, none, some, List,
  [], ◌∷◌, ◌++◌, map, arith, ltb, leb, ◌==◌, if◌then◌else◌, ltb→lt, lt→ltb, leb→le, le→leb, lt→leb,
  ==_iff, tests, Bool-cases, Option-cases, get_or, is_some, length, get_elem?, take, replicate,
  filter, find, any, count, All, length-append, length-replicate, count-append, length-filter-le,
  All-append, find-passes, any-find, Text, text, text_eq, text_eq_iff, text_eq_self, text_ne,
  starts_with, contains, to_ascii_lowercase, starts_with-append, Map, keep_if, map_some, new_map,
  insert, alter, retain,
}
use galaxy_router.Base.Float.{Floats, clamp}

pub record SchedulerScoreWeights (F : Type 0) : Type 0 where
  pub latency : F
  pub least_conn : F
  pub error_rate : F
  pub health : F

pub record CandidateScoreInput (F : Type 0) : Type 0 where
  pub candidate_id : Text
  pub active_concurrency : ℕ  -- u32
  pub min_active : Option F
  pub max_active : Option F
  pub error_rate : F
  pub latency_ms : Option F
  pub min_latency_ms : Option F
  pub max_latency_ms : Option F
  pub health : F

pub record ScoredCandidate (F : Type 0) : Type 0 where
  pub input : CandidateScoreInput F
  pub score : F

pub data Ordering : Type 0 where
  less equal greater : Ordering

-- `a.then_with(|| b)`.
abbrev pub then_with : Ordering → Ordering → Ordering
then_with less b = less
then_with greater b = greater
then_with equal b = b

abbrev pub compare_nat : ℕ → ℕ → Ordering
compare_nat a b = if ltb a b then less else if ltb b a then greater else equal

unfoldable pub compare_text : Text → Text → Ordering
compare_text [] [] = equal
compare_text [] (b ∷ bs) = less
compare_text (a ∷ as') [] = greater
compare_text (a ∷ as') (b ∷ bs) = then_with (compare_nat a b) (compare_text as' bs)

abbrev pub is_greater : Ordering → Bool
is_greater greater = true
is_greater less = false
is_greater equal = false

abbrev pub is_less : Ordering → Bool
is_less less = true
is_less greater = false
is_less equal = false

abbrev pub reverse : Ordering → Ordering
reverse less = greater
reverse greater = less
reverse equal = equal

abbrev pub same : Ordering → Ordering → Bool
same less o = is_less o
same greater o = is_greater o
same equal o = not (is_less o) && not (is_greater o)

-- What `sort_by` leaves of items that the comparison does not order totally, as with a NaN among
-- the scores. The documentation promises the same items in an unspecified order; a panic, which
-- it allows too, ends the request and is not modelled.
pub record OpenOrder (A : Type 0) : Type 0 where
  pub arranged : List A → List A
  pub keeps : (p : A → Bool) (xs : List A) → count p (arranged xs) ≡ count p xs

module _ {A : Type 0} (compare : A → A → Ordering) where
  -- Three items at which the comparison is no total order.
  abbrev pub breaks_order : A → A → A → Bool
  breaks_order a b c =
      not (same (compare b a) (reverse (compare a b)))
      || (not (is_greater (compare a b))
          && not (is_greater (compare b c))
          && is_greater (compare a c))

  unfoldable pub is_total_order : List A → Bool
  is_total_order xs = not (any (λ a. any (λ b. any (λ c. breaks_order a b c) xs) xs) xs)

  -- The stable order: an item goes before the first one that it is not greater than.
  abbrev pub insert_at : A → A → List A → List A → Ordering → List A
  insert_at x y ys later greater = y ∷ later
  insert_at x y ys later less = x ∷ y ∷ ys
  insert_at x y ys later equal = x ∷ y ∷ ys

  unfoldable pub insert_by : A → List A → List A
  insert_by x [] = x ∷ []
  insert_by x (y ∷ ys) = insert_at x y ys (insert_by x ys) (compare x y)

  unfoldable pub stable_order : List A → List A
  stable_order [] = []
  stable_order (x ∷ xs) = insert_by x (stable_order xs)

  -- `sort_by`, which is stable. The order of its result is known for a total order only.
  unfoldable pub sort_by : OpenOrder A → List A → List A
  sort_by std xs = if is_total_order xs then stable_order xs else std.arranged xs

module _ (fl : Floats) where
  open fl use {F, of_nat, lit, add, sub, mul, div, flt, is_nan}

  unfoldable pub default_weights : SchedulerScoreWeights F
  default_weights = record {
    latency = of_nat 1;
    least_conn = of_nat 1;
    error_rate = lit 15 1;
    health = of_nat 1;
  }

  unfoldable pub clamp01 : F → F
  clamp01 v = if is_nan v then of_nat 0 else clamp fl (of_nat 0) (of_nat 1) v

  -- Where a value lies between the least and the greatest one: 1 for the least.
  abbrev pub nearness : F → F → F → F
  nearness v lo hi = sub (of_nat 1) (clamp01 (div (sub v lo) (sub hi lo)))

  unfoldable pub latency_factor : Option F → Option F → Option F → F
  latency_factor (some latency) (some lo) (some hi) =
      if flt lo hi then nearness latency lo hi else of_nat 1
  latency_factor (some latency) _ _ = of_nat 1
  latency_factor none _ _ = lit 8 1

  unfoldable pub least_conn_factor : ℕ → Option F → Option F → F
  least_conn_factor active (some lo) (some hi) =
      if flt lo hi then nearness (of_nat active) lo hi else of_nat 1
  least_conn_factor active _ _ = of_nat 1

  unfoldable pub calculate_candidate_score : CandidateScoreInput F → SchedulerScoreWeights F → F
  calculate_candidate_score i w =
      let error_factor = sub (of_nat 1) (clamp01 i.error_rate) in
      let by_latency =
        mul w.latency (latency_factor i.latency_ms i.min_latency_ms i.max_latency_ms) in
      let by_load =
        mul w.least_conn (least_conn_factor i.active_concurrency i.min_active i.max_active) in
      add (add (add by_latency by_load) (mul w.error_rate error_factor))
        (mul w.health (clamp01 i.health))

  -- `b.score.partial_cmp(&a.score)`, and a comparison with a NaN is an equality.
  abbrev pub compare_scores : F → F → Ordering
  compare_scores a b = if flt b a then less else if flt a b then greater else equal

  unfoldable pub compare_scored_candidates : ScoredCandidate F → ScoredCandidate F → Ordering
  compare_scored_candidates a b =
      then_with (compare_scores a.score b.score)
        (compare_text a.input.candidate_id b.input.candidate_id)

  abbrev pub scored : SchedulerScoreWeights F → CandidateScoreInput F → ScoredCandidate F
  scored w i = record { input = i; score = calculate_candidate_score i w }

  unfoldable pub select_top_k_candidates :
      OpenOrder (ScoredCandidate F)
      → List (CandidateScoreInput F)
      → ℕ
      → SchedulerScoreWeights F
      → List (ScoredCandidate F)
  select_top_k_candidates std candidates top_k w =
      let sorted = sort_by compare_scored_candidates std (map (scored w) candidates) in
      if length candidates == 0 || top_k == 0 then [] else take (min top_k (length sorted)) sorted
