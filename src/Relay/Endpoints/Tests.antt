-- ===== src/Relay/Endpoints/Tests.antt =====
-- A channel with three endpoints (domain/channel.rs).
use galaxy_router.Base.{◌≡◌, refl, Bool, true, false, some, [], ◌∷◌, any, is_some, text}
use galaxy_router.Base.Int.{pos}
use galaxy_router.Relay.Channel.{
  EndpointType, open_ai_chat, anthropic, gemini, EndpointConfig, ChannelInfo, offers, find_endpoint,
  has_any_endpoint, find_best_endpoint,
}
use galaxy_router.Relay.Endpoints.{find_best_endpoint_lem}

abbrev endpoint : EndpointType → Bool → EndpointConfig
endpoint t enabled = record {
  endpoint_type = t;
  base_url = text "https://example.com";
  enabled = enabled;
  headers = [];
}

abbrev ch : ChannelInfo
ch = record {
  id = text "a";
  name = text "a";
  api_keys = [];
  endpoints = endpoint gemini true ∷ endpoint open_ai_chat false ∷ endpoint anthropic true ∷ [];
  models = [];
  timeout_secs = 300;
  max_concurrency = 0;
  failure_threshold = 3;
  blacklist_minutes = pos 10;
}

-- An endpoint that is off is passed over, in the exact search and in the fallback.
endpoint_tests :
    (find_best_endpoint ch gemini ≡ some (endpoint gemini true))
    × (find_best_endpoint ch open_ai_chat ≡ some (endpoint anthropic true))
unfolding find_best_endpoint find_endpoint
endpoint_tests = (refl, refl)

find_best_endpoint_lem_example :
    (is_some (find_best_endpoint ch open_ai_chat) ≡ has_any_endpoint ch)
    × ((e : EndpointConfig) → find_best_endpoint ch open_ai_chat ≡ some e → e.enabled ≡ true)
    × (any (offers open_ai_chat) ch.endpoints ≡ true
        → (e : EndpointConfig) → find_best_endpoint ch open_ai_chat ≡ some e
        → offers open_ai_chat e ≡ true)
find_best_endpoint_lem_example = find_best_endpoint_lem ch open_ai_chat
