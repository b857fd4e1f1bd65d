-- ===== src/Infra/Cache/Tests.antt =====
-- A cache with a few channels (cache.rs). The iterator of the tests gives the oldest key.
use galaxy_router.Base.{
  ◌≡◌, refl, Option, none, some, List, [], ◌∷◌, arith, if◌then◌else◌, Text, text, text_eq,
  text_eq_self,
}
use galaxy_router.Base.Int.{pos}
use galaxy_router.Base.Assoc.{Assoc, get, put, erase}
use galaxy_router.Relay.Channel.{ChannelInfo}
use galaxy_router.Infra.Cache.{
  new_cache, set_channel, find_channels_by_model, get_compiled_regex, push_id, remove_id,
  invalidate_channel,
}
use galaxy_router.Infra.Cache.Consistent.{IsKeyOf, IsConsistent}
use galaxy_router.Infra.Cache.Steps.{
  Step, store_channel, drop_channel, compile_regex, Libraries, steps, step, steps-IsConsistent,
  get_compiled_regex-compile,
}

abbrev channel : Text → List Text → ChannelInfo
channel id models = record {
  id = id;
  name = id;
  api_keys = [];
  endpoints = [];
  models = models;
  timeout_secs = 300;
  max_concurrency = 0;
  failure_threshold = 3;
  blacklist_minutes = pos 10;
}

abbrev first_key : {V : Type 0} → Assoc V → Option Text
first_key [] = none
first_key ((k, v) ∷ m) = some k

first_key-IsKeyOf : {V : Type 0} → IsKeyOf (first_key {V = V})
unfolding get
first_key-IsKeyOf [] h = absurd (omega arith)
first_key-IsKeyOf ((k, v) ∷ m) h = (k, refl, rw (text_eq_self k) refl)

-- An expression is its text, and the empty one does not compile.
abbrev lib : Libraries Text
lib = record {
  next_channel = first_key;
  next_route = first_key;
  compile = λ s. if text_eq s [] then none else some s;
}

-- A channel that gives up one model and takes another, and one that is dropped.
abbrev history : List Step
history =
    store_channel (channel (text "a") (text "x" ∷ text "y" ∷ []))
    ∷ store_channel (channel (text "b") (text "x" ∷ []))
    ∷ store_channel (channel (text "a") (text "y" ∷ text "z" ∷ []))
    ∷ compile_regex (text "g.*")
    ∷ drop_channel (text "b")
    ∷ []

history_test :
    (find_channels_by_model (text "x") (steps lib new_cache history) ≡ [])
    × (find_channels_by_model (text "z") (steps lib new_cache history) ≡ text "a" ∷ [])
unfolding find_channels_by_model steps step new_cache set_channel invalidate_channel
    get_compiled_regex push_id remove_id get put erase text_eq
history_test = (refl, refl)

steps-IsConsistent_example : IsConsistent lib.compile (steps lib new_cache history)
steps-IsConsistent_example = steps-IsConsistent lib history first_key-IsKeyOf first_key-IsKeyOf

get_compiled_regex-compile_test :
    (get_compiled_regex lib.compile (text "g.*") (steps lib new_cache history)).1
    ≡ some (text "g.*")
unfolding text_eq
get_compiled_regex-compile_test =
    get_compiled_regex-compile lib history (text "g.*") first_key-IsKeyOf first_key-IsKeyOf
