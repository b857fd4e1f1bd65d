-- ===== src/Relay/Access.antt =====
-- src/llm/relay/pipeline/access.rs: whether a client's key may use a model, and its budget. The queries
-- are an interface; the format of an amount and `str::trim` are parameters. No error is none.
pub mod Granted
mod Tests
use galaxy_router.Base.{
  ℕ, zero, suc, ◌+◌, ◌-◌, ◌*◌, ◌/◌, ◌%◌, ◌^◌, ◌≤◌, ◌<◌, min, max, ◌≡◌, refl, sym, ap, subst, ◌∙◌,
  fun_ext, ◌≢◌, ◌↔◌, ◌⊎◌, inl, inr, Bool, true, false, not, ◌&&◌, ◌||◌, Option, none, some, List,
  [], ◌∷◌, ◌++◌, map, arith, ltb, leb, ◌==◌, if◌then◌else◌, ltb→lt, lt→ltb, leb→le, le→leb, lt→leb,
  ==_iff, tests, Bool-cases, Option-cases, get_or, is_some, length, get_elem?, take, replicate,
  filter, find, any, count, All, length-append, length-replicate, count-append, length-filter-le,
  All-append, find-passes, any-find, Text, text, text_eq, text_eq_iff, text_eq_self, text_ne,
  starts_with, contains, to_ascii_lowercase, starts_with-append, Map, keep_if, map_some, new_map,
  insert, alter, retain,
}
use galaxy_router.Base.Float.{Floats}
use galaxy_router.Errors.{ProxyError, database_error, model_not_supported, model_not_found}
use galaxy_router.Service.Routing.{Result, ok, err}

-- The queries of the repositories, and the two functions on texts and amounts.
pub record Queries (F : Type 0) : Type 0 where
  pub get_limits : Text → Result (Option (F × F)) Text
  pub aggregate_cost : Text → Result (F × F) Text
  pub get_supported_models : Text → Result (Option Text) Text
  pub find_enabled_by_name : Text → Result (Option (Text × Text)) Text
  pub trim : Text → Text
  pub show_amount : F → Text

abbrev pub in_first : ℕ → List Text → List Text
in_first c [] = (c ∷ []) ∷ []
in_first c (part ∷ parts) = (c ∷ part) ∷ parts

-- `split(',')`.
unfoldable pub split_comma : Text → List Text
split_comma [] = [] ∷ []
split_comma (c ∷ s) =
    let parts = split_comma s in if c == b',' then [] ∷ parts else in_first c parts

-- `parse_supported_models`, and the same steps on allowed_routes.
unfoldable pub parse_supported_models : (Text → Text) → Text → List Text
parse_supported_models trim s = filter (λ t. not (text_eq t [])) (map trim (split_comma s))

abbrev pub lists : Text → List Text → Bool
lists model names = any (λ t. text_eq t model) names

abbrev pub no_access : Text → Option ProxyError
no_access model = some (model_not_supported (text "API Key 无权访问模型: " ++ model))

-- A route of the name has to be there.
abbrev pub route_exists : Text → Result (Option (Text × Text)) Text → Option ProxyError
route_exists model (err e) = some (database_error e)
route_exists model (ok none) = some (model_not_found (text "模型不存在: " ++ model))
route_exists model (ok (some route)) = none

-- The older list of models, for a key without a list of routes.
abbrev pub supports : (Text → Text) → Text → Result (Option Text) Text → Option ProxyError
supports trim model (err e) = some (database_error e)
supports trim model (ok none) = none
supports trim model (ok (some models)) =
    if text_eq models []
    then none
    else if lists model (parse_supported_models trim models)
    then none
    else no_access model

module _ {F : Type 0} (q : Queries F) where
  unfoldable pub validate_model_access : Text → Text → Text → Option ProxyError
  validate_model_access key_id model allowed_routes =
      let allowed = parse_supported_models q.trim allowed_routes in
      if text_eq allowed_routes []
      then supports q.trim model (q.get_supported_models key_id)
      else if not (length allowed == 0) && not (lists model allowed)
      then no_access model
      else route_exists model (q.find_enabled_by_name model)

module _ (fl : Floats) (q : Queries fl.F) where
  open fl use {F, of_nat, flt, fle}

  abbrev pub amounts : F → F → Text
  amounts cost limit = text "$" ++ q.show_amount cost ++ text "/$" ++ q.show_amount limit

  abbrev pub over : F → F → Bool
  over limit cost = flt (of_nat 0) limit && fle limit cost

  abbrev pub within : F × F → Result (F × F) Text → Option Text
  within limits (err e) = some (text "查询消费失败: " ++ e)
  within (monthly_limit, daily_limit) (ok (monthly_cost, daily_cost)) =
      if over daily_limit daily_cost
      then some (text "日预算已耗尽: " ++ amounts daily_cost daily_limit)
      else if over monthly_limit monthly_cost
      then some (text "月预算已耗尽: " ++ amounts monthly_cost monthly_limit)
      else none

  abbrev pub against_limits : Text → Result (Option (F × F)) Text → Option Text
  against_limits key_id (err e) = some (text "查询预算失败: " ++ e)
  against_limits key_id (ok none) = none
  against_limits key_id (ok (some limits)) = within limits (q.aggregate_cost key_id)

  unfoldable pub check_budget : Text → Option Text
  check_budget key_id = against_limits key_id (q.get_limits key_id)
