-- ===== src/Relay/Access/Tests.antt =====
-- Keys with and without a list of routes (access.rs).
use galaxy_router.Base.{
  ℕ, ◌+◌, ◌-◌, ◌*◌, ◌/◌, ◌^◌, ◌≡◌, refl, ◌⊎◌, true, false, none, some, [], ◌∷◌, ltb, leb, ◌==◌,
  if◌then◌else◌, is_some, Text, text, text_eq,
}
use galaxy_router.Base.Float.{Floats}
use galaxy_router.Service.Routing.{ok}
use galaxy_router.Relay.Access.{
  Queries, split_comma, parse_supported_models, lists, no_access, validate_model_access,
  check_budget,
}
use galaxy_router.Relay.Access.Granted.{validate_model_access-lists}

-- Thousandths, cut at 0, in the place of f64.
abbrev fixed : Floats
fixed = record {
  F = ℕ;
  of_nat = λ n. n * 1000;
  lit = λ n k. n * 1000 / 10 ^ k;
  add = λ a b. a + b;
  sub = λ a b. a - b;
  mul = λ a b. a * b / 1000;
  div = λ a b. a * 1000 / b;
  flt = λ a b. ltb a b;
  fle = λ a b. leb a b;
  feq = λ a b. a == b;
  is_nan = λ a. false;
}

-- A leading space is taken off.
abbrev trim : Text → Text
trim [] = []
trim (c ∷ s) = if c == b' ' then s else c ∷ s

-- A route by the name of "gpt" and no other; 2 of 1 spent on the day.
abbrev queries : Queries ℕ
queries = record {
  get_limits = λ key. ok (some (10000, 1000));
  aggregate_cost = λ key. ok (5000, 2000);
  get_supported_models = λ key. ok (some (text "m1,m2"));
  find_enabled_by_name = λ s. if text_eq (text "gpt") s then ok (some (text "r1", s)) else ok none;
  trim = trim;
  show_amount = λ a. text "n";
}

access_tests :
    (validate_model_access queries (text "k") (text "gpt") (text "claude, gpt") ≡ none)
    × (validate_model_access queries (text "k") (text "m3") (text "claude, gpt")
        ≡ no_access (text "m3"))
    × (validate_model_access queries (text "k") (text "m2") [] ≡ none)
    × (validate_model_access queries (text "k") (text "m3") [] ≡ no_access (text "m3"))
unfolding validate_model_access parse_supported_models split_comma text_eq
access_tests = (refl, refl, refl, refl)

-- A list without a name lets the key use every route that exists.
blank_list : validate_model_access queries (text "k") (text "gpt") (text ", ") ≡ none
unfolding validate_model_access parse_supported_models split_comma text_eq
blank_list = refl

budget_test : is_some (check_budget fixed queries (text "k")) ≡ true
unfolding check_budget
budget_test = refl

validate_model_access-lists_example :
    (text_eq (text "claude, gpt") [] ≡ false
      → ((lists (text "gpt") (parse_supported_models trim (text "claude, gpt")) ≡ true)
          ⊎ (parse_supported_models trim (text "claude, gpt") ≡ []))
        × (route : Text × Text) × (queries.find_enabled_by_name (text "gpt") ≡ ok (some route)))
    × (text_eq (text "claude, gpt") [] ≡ true
        → (models : Text) → queries.get_supported_models (text "k") ≡ ok (some models)
        → text_eq models [] ≡ false
        → lists (text "gpt") (parse_supported_models trim models) ≡ true)
unfolding validate_model_access parse_supported_models split_comma text_eq
validate_model_access-lists_example =
    validate_model_access-lists queries (text "k") (text "gpt") (text "claude, gpt") refl
