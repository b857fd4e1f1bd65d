-- ===== src/Relay/Access/Granted.antt =====
-- What is true of a key that is let through (access.rs, validate_model_access).
use galaxy_router.Base.{
  ◌≡◌, refl, sym, ap, ◌∙◌, ◌⊎◌, inl, inr, Bool, true, false, not, ◌&&◌, Option, none, some, List,
  [], ◌∷◌, ◌++◌, arith, ◌==◌, if◌then◌else◌, length, Text, text, text_eq,
}
use galaxy_router.Errors.{ProxyError, model_not_supported}
use galaxy_router.Service.Routing.{Result, ok, err}
use galaxy_router.Relay.Access.{
  Queries, parse_supported_models, lists, no_access, route_exists, supports, validate_model_access,
}

exists-found :
    (model : Text) (r : Result (Option (Text × Text)) Text)
    → route_exists model r ≡ none
    → (route : Text × Text) × (r ≡ ok (some route))
exists-found model (err e) h = cc
exists-found model (ok none) h = cc
exists-found model (ok (some route)) h = (route, refl)

-- A test that had to pass.
granted : (b : Bool) (e : ProxyError) → (if b then none else some e) ≡ none → b ≡ true
granted true e h = refl
granted false e h = cc

not_refused :
    (b : Bool) (e : ProxyError) (o : Option ProxyError)
    → (if b then some e else o) ≡ none
    → (b ≡ false) × (o ≡ none)
not_refused true e o h = cc
not_refused false e o h = (refl, h)

supports-lists :
    (trim : Text → Text) (model models : Text) (r : Result (Option Text) Text)
    → r ≡ ok (some models)
    → supports trim model r ≡ none
    → text_eq models [] ≡ false
    → lists model (parse_supported_models trim models) ≡ true
supports-lists trim model models r e h blank =
    let given : supports trim model (ok (some models)) ≡ none =
      ap (supports trim model) (sym e) ∙ h in
    let plain : supports trim model (ok (some models))
        ≡ (if lists model (parse_supported_models trim models) then none else no_access model) =
      rw blank refl in
    granted (lists model (parse_supported_models trim models))
      (model_not_supported (text "API Key 无权访问模型: " ++ model)) (sym plain ∙ given)

listed_or_blank :
    (model : Text) (allowed : List Text)
    → (not (length allowed == 0) && not (lists model allowed)) ≡ false
    → (lists model allowed ≡ true) ⊎ (allowed ≡ [])
listed_or_blank model [] h = inr refl
listed_or_blank model (a ∷ allowed) h = inl (ground (arith, h))

module _ {F : Type 0} (q : Queries F) where
  -- A key that is let through to a model has it in its list of routes, or that list is without a
  -- name, and in both cases an enabled route has the name of the model; or the key has no list of
  -- routes, and its list of models, if it has one that is not empty, has the model.
  pub validate_model_access-lists :
      (key_id model allowed_routes : Text)
      → validate_model_access q key_id model allowed_routes ≡ none
      → (text_eq allowed_routes [] ≡ false
          → ((lists model (parse_supported_models q.trim allowed_routes) ≡ true)
              ⊎ (parse_supported_models q.trim allowed_routes ≡ []))
            × (route : Text × Text) × (q.find_enabled_by_name model ≡ ok (some route)))
        × (text_eq allowed_routes [] ≡ true
            → (models : Text) → q.get_supported_models key_id ≡ ok (some models)
            → text_eq models [] ≡ false
            → lists model (parse_supported_models q.trim models) ≡ true)
  unfolding validate_model_access
  validate_model_access-lists key_id model allowed_routes h = (
    λ some_routes.
        let allowed = parse_supported_models q.trim allowed_routes in
        let opened : (if not (length allowed == 0) && not (lists model allowed)
              then no_access model
              else route_exists model (q.find_enabled_by_name model))
            ≡ none =
          sym (rw some_routes refl) ∙ h in
        let passed =
          not_refused (not (length allowed == 0) && not (lists model allowed))
            (model_not_supported (text "API Key 无权访问模型: " ++ model))
            (route_exists model (q.find_enabled_by_name model)) opened in
        let found = exists-found model (q.find_enabled_by_name model) passed.1 in
        (listed_or_blank model allowed passed.0, found.0, found.1),
    λ no_routes models e blank.
        let opened : supports q.trim model (q.get_supported_models key_id) ≡ none =
          sym (rw no_routes refl) ∙ h in
        supports-lists q.trim model models (q.get_supported_models key_id) e opened blank,
  )
