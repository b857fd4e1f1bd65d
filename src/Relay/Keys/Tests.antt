-- ===== src/Relay/Keys/Tests.antt =====
-- Three keys, of which one is off (service/routing/mod.rs).
use galaxy_router.Base.{◌≡◌, refl, Bool, true, false, [], ◌∷◌, arith, Text, text}
use galaxy_router.Base.Int.{pos}
use galaxy_router.Relay.Channel.{
  UpstreamApiKey, ChannelInfo, enabled_api_keys, keys_from, api_key_attempts,
}
use galaxy_router.Relay.Keys.{api_key_attempts_lem}

abbrev api_key : Text → Bool → UpstreamApiKey
api_key key enabled = record { key = key; note = []; enabled = enabled }

abbrev ch : ChannelInfo
ch = record {
  id = text "a";
  name = text "a";
  api_keys = api_key (text "k1") true ∷ api_key (text "k2") false ∷ api_key (text "k3") true ∷ [];
  endpoints = [];
  models = [];
  timeout_secs = 300;
  max_concurrency = 0;
  failure_threshold = 3;
  blacklist_minutes = pos 10;
}

rotation_test : api_key_attempts ch 7 ≡ text "k3" ∷ text "k1" ∷ []
unfolding api_key_attempts enabled_api_keys keys_from
rotation_test = refl

api_key_attempts_lem_example : api_key_attempts ch 7 ≡ text "k3" ∷ text "k1" ∷ []
unfolding enabled_api_keys
api_key_attempts_lem_example = api_key_attempts_lem ch 7 (omega arith)
