-- ===== src/Scheduler/Scoring/Order.antt =====
-- The candidates come out in the order of their scores, none lost (scoring.rs).
use galaxy_router.Base.{
  ℕ, take, ◌≤◌, ◌≡◌, refl, sym, ap, ◌∙◌, inl, inr, Bool, true, false, ◌||◌, List, [], ◌∷◌, map,
  arith, ◌==◌, Bool-cases, length, count, All, Text,
}
use galaxy_router.Base.Float.{Floats}
use galaxy_router.Scheduler.Scoring.{
  SchedulerScoreWeights, CandidateScoreInput, ScoredCandidate, reverse, compare_text, OpenOrder,
  sort_by, compare_scored_candidates, scored, calculate_candidate_score, select_top_k_candidates,
}
use galaxy_router.Scheduler.Scoring.Sort.{
  IsOrdered, IsSorted, Orders, sort_by-IsSorted, count-sort_by, take_all, take_none, take-min,
  length-sort_by, length-map,
}

compare_text-reverse : (a b : Text) → compare_text b a ≡ reverse (compare_text a b)
unfolding compare_text
compare_text-reverse [] [] = refl
compare_text-reverse [] (b ∷ bs) = refl
compare_text-reverse (a ∷ as') [] = refl
compare_text-reverse (a ∷ as') (b ∷ bs) = ground (arith, compare_text-reverse as' bs)

compare_text-chained :
    (a b c : Text)
    → IsOrdered (compare_text a b)
    → IsOrdered (compare_text b c)
    → IsOrdered (compare_text a c)
unfolding compare_text
compare_text-chained [] [] c h k = k
compare_text-chained [] (b ∷ bs) [] h k = λ e. cc
compare_text-chained [] (b ∷ bs) (c ∷ cs) h k = λ e. cc
compare_text-chained (a ∷ as') [] c h k = absurd (h refl)
compare_text-chained (a ∷ as') (b ∷ bs) [] h k = absurd (k refl)
compare_text-chained (a ∷ as') (b ∷ bs) (c ∷ cs) h k =
    ground (arith, compare_text-chained as' bs cs)

-- What IEEE 754 says of `<` on numbers that are no NaN: it is asymmetric, and if a is not below b
-- nor b below c, then a is not below c.
pub record OrderedFloats (fl : Floats) : Type 0 where
  pub lt_asymm :
      (a b : fl.F)
      → fl.is_nan a ≡ false
      → fl.is_nan b ≡ false
      → fl.flt a b ≡ true
      → fl.flt b a ≡ false
  pub not_lt_trans :
      (a b c : fl.F)
      → fl.is_nan a ≡ false
      → fl.is_nan b ≡ false
      → fl.is_nan c ≡ false
      → fl.flt a b ≡ false
      → fl.flt b c ≡ false
      → fl.flt a c ≡ false

module _ (fl : Floats) where
  open fl use {F, flt, is_nan}

  abbrev pub HasNumber : ScoredCandidate F → Type 0
  HasNumber sc = is_nan sc.score ≡ false

  -- Among scores that are no NaN the comparison is a total order.
  compare_scored_candidates-Orders :
      OrderedFloats fl → Orders (compare_scored_candidates fl) HasNumber
  unfolding compare_scored_candidates
  compare_scored_candidates-Orders law = record {
    reversed = λ a b pa pb. ground (
      arith,
      law.lt_asymm a.score b.score pa pb,
      law.lt_asymm b.score a.score pb pa,
      compare_text-reverse a.input.candidate_id b.input.candidate_id,
    );
    chained = λ a b c pa pb pc h k. ground (
      arith,
      law.lt_asymm b.score a.score pb pa,
      law.not_lt_trans a.score b.score c.score pa pb pc,
      law.not_lt_trans c.score b.score a.score pc pb pa,
      law.not_lt_trans b.score c.score a.score pb pc pa,
      law.not_lt_trans c.score a.score b.score pc pa pb,
      compare_text-chained a.input.candidate_id b.input.candidate_id c.input.candidate_id,
    );
  }

  -- The scores of the candidates are numbers.
  abbrev pub HasNumbers : SchedulerScoreWeights F → List (CandidateScoreInput F) → Type 0
  HasNumbers w candidates = All (λ i. is_nan (calculate_candidate_score fl i w) ≡ false) candidates

  HasNumbers-All :
      (w : SchedulerScoreWeights F) (candidates : List (CandidateScoreInput F))
      → HasNumbers w candidates
      → All HasNumber (map (scored fl w) candidates)
  HasNumbers-All w [] h = tt
  HasNumbers-All w (i ∷ is) (h, hs) = (h, HasNumbers-All w is hs)

module _ (fl : Floats) (std : OpenOrder (ScoredCandidate fl.F)) where
  open fl use {F}

  -- The candidates with their scores, sorted.
  abbrev ranking : List (CandidateScoreInput F) → SchedulerScoreWeights F → List (ScoredCandidate F)
  ranking candidates w = sort_by (compare_scored_candidates fl) std (map (scored fl w) candidates)

  length-ranking :
      (candidates : List (CandidateScoreInput F)) (w : SchedulerScoreWeights F)
      → length (ranking candidates w) ≡ length candidates
  length-ranking candidates w =
      length-sort_by (compare_scored_candidates fl) std (map (scored fl w) candidates)
      ∙ length-map (scored fl w) candidates

  select_top_k_candidates_lem :
      (candidates : List (CandidateScoreInput F)) (top_k : ℕ) (w : SchedulerScoreWeights F)
      → select_top_k_candidates fl std candidates top_k w ≡ take top_k (ranking candidates w)
  unfolding select_top_k_candidates
  select_top_k_candidates_lem candidates top_k w =
      elim (Bool-cases (length candidates == 0 || top_k == 0)) [
        | inl e ↦
            rw e (sym (take_none top_k (ranking candidates w) (rw (length-ranking candidates w) e)))
        | inr e ↦ rw e (take-min top_k (ranking candidates w))
      ]

  select_all :
      (candidates : List (CandidateScoreInput F)) (top_k : ℕ) (w : SchedulerScoreWeights F)
      → length candidates ≤ top_k
      → select_top_k_candidates fl std candidates top_k w ≡ ranking candidates w
  select_all candidates top_k w many =
      select_top_k_candidates_lem candidates top_k w
      ∙ take_all top_k (ranking candidates w) (omega (arith, length-ranking candidates w))

  -- When all candidates are asked for, none is lost and none is added, whatever their scores.
  pub count-select_top_k_candidates :
      (candidates : List (CandidateScoreInput F)) (top_k : ℕ) (w : SchedulerScoreWeights F)
      (p : ScoredCandidate F → Bool)
      → length candidates ≤ top_k
      → count p (select_top_k_candidates fl std candidates top_k w)
        ≡ count p (map (scored fl w) candidates)
  count-select_top_k_candidates candidates top_k w p many =
      ap (count p) (select_all candidates top_k w many)
      ∙ count-sort_by (compare_scored_candidates fl) std p (map (scored fl w) candidates)

  -- With floats that are ordered as IEEE 754 says, when no score is a NaN: asked for all
  -- candidates, the selection gives them with their scores, each as often as given, and each may
  -- come before every later one, since its score is higher, or neither score is higher and its
  -- name is not greater; asked for fewer, it gives the first ones of these.
  pub select_top_k_candidates-IsSorted :
      (candidates : List (CandidateScoreInput F)) (top_k : ℕ) (w : SchedulerScoreWeights F)
      (p : ScoredCandidate F → Bool)
      → OrderedFloats fl
      → HasNumbers fl w candidates
      → (let every = select_top_k_candidates fl std candidates (length candidates) w in
          IsSorted (compare_scored_candidates fl) every
          × (count p every ≡ count p (map (scored fl w) candidates))
          × (select_top_k_candidates fl std candidates top_k w ≡ take top_k every))
  select_top_k_candidates-IsSorted candidates top_k w p law numbers =
      rw (select_all candidates (length candidates) w (omega arith)) (
        sort_by-IsSorted (compare_scored_candidates fl) std (HasNumber fl)
            (map (scored fl w) candidates) (compare_scored_candidates-Orders fl law)
            (HasNumbers-All fl w candidates numbers),
        count-sort_by (compare_scored_candidates fl) std p (map (scored fl w) candidates),
        select_top_k_candidates_lem candidates top_k w,
      )
