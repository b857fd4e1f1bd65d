-- ===== src/Scheduler/Scoring/Tests.antt =====
-- Three candidates in the order of their scores (scoring.rs).
use galaxy_router.Base.{
  ℕ, take, Bool, count, ◌+◌, ◌-◌, ◌*◌, ◌/◌, ◌^◌, ◌≡◌, refl, false, Option, none, some, List, [],
  ◌∷◌, map, arith, ltb, leb, ◌==◌, length, Text, text,
}
use galaxy_router.Base.Float.{Floats, clamp}
use galaxy_router.Scheduler.Scoring.{
  scored, CandidateScoreInput, ScoredCandidate, default_weights, clamp01, latency_factor,
  least_conn_factor, calculate_candidate_score, compare_text, compare_scored_candidates, insert_by,
  OpenOrder, stable_order, is_total_order, sort_by, select_top_k_candidates,
}
use galaxy_router.Scheduler.Scoring.Sort.{IsSorted}
use galaxy_router.Scheduler.Scoring.Order.{OrderedFloats, select_top_k_candidates-IsSorted}

-- Thousandths, cut at 0, in the place of f64.
abbrev fixed : Floats
fixed = record {
  F = ℕ;
  of_nat = λ n. n * 1000;
  lit = λ n k. n * 1000 / 10 ^ k;
  add = λ a b. a + b;
  sub = λ a b. a - b;
  mul = λ a b. a * b / 1000;
  div = λ a b. a * 1000 / b;
  flt = λ a b. ltb a b;
  fle = λ a b. leb a b;
  feq = λ a b. a == b;
  is_nan = λ a. false;
}

abbrev as_given : OpenOrder (ScoredCandidate ℕ)
as_given = record { arranged = λ xs. xs; keeps = λ p xs. refl }

fixed-ordered : OrderedFloats fixed
fixed-ordered = record {
  lt_asymm = λ a b pa pb h. ground arith;
  not_lt_trans = λ a b c pa pb pc h k. ground arith;
}

abbrev candidate : Text → Option ℕ → CandidateScoreInput ℕ
candidate id latency_ms = record {
  candidate_id = id;
  active_concurrency = 0;
  min_active = some 0;
  max_active = some 0;
  error_rate = 0;
  latency_ms = latency_ms;
  min_latency_ms = some 100000;
  max_latency_ms = some 300000;
  health = 1000;
}

abbrev three : List (CandidateScoreInput ℕ)
three =
    candidate (text "slow") (some 300000)
    ∷ candidate (text "new") none
    ∷ candidate (text "fast") (some 100000)
    ∷ []

-- The fastest one, one without data, the slowest one.
order_test :
    map
      (λ c. c.input.candidate_id)
      (select_top_k_candidates fixed as_given three 2 (default_weights fixed))
    ≡ text "fast" ∷ text "new" ∷ []
unfolding select_top_k_candidates sort_by stable_order is_total_order insert_by
    compare_scored_candidates calculate_candidate_score default_weights latency_factor
    least_conn_factor clamp01 clamp compare_text
order_test = refl

-- All three candidates in order.
abbrev every : List (ScoredCandidate ℕ)
every = select_top_k_candidates fixed as_given three 3 (default_weights fixed)

abbrev long_named : ScoredCandidate ℕ → Bool
long_named c = length c.input.candidate_id == 4

select_top_k_candidates-IsSorted_example :
    IsSorted (compare_scored_candidates fixed) every
    × (count long_named every ≡ count long_named (map (scored fixed (default_weights fixed)) three))
    × (select_top_k_candidates fixed as_given three 2 (default_weights fixed) ≡ take 2 every)
select_top_k_candidates-IsSorted_example =
    select_top_k_candidates-IsSorted fixed as_given three 2 (default_weights fixed) long_named
      fixed-ordered (refl, (refl, (refl, tt)))
