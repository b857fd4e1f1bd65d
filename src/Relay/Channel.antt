-- ===== src/Relay/Channel.antt =====
-- src/domain/channel.rs: a channel as the relay uses it, and the keys that one request tries, from
-- src/service/routing/mod.rs. A slice of a key inside a character panics: none.
use galaxy_router.Base.{
  ℕ, zero, suc, ◌+◌, ◌-◌, ◌%◌, Bool, not, ◌&&◌, Option, none, some, List, [], ◌∷◌, ◌++◌, ltb, ◌==◌,
  if◌then◌else◌, length, get_elem?, filter, find, any, Text, text, text_eq,
}
use galaxy_router.Base.Int.{ℤ}
use galaxy_router.Errors.{utf8_width, byte_len, slice_to}

pub data EndpointType : Type 0 where
  open_ai_chat open_ai_response anthropic gemini open_ai_embedding open_ai_images : EndpointType

abbrev pub type_no : EndpointType → ℕ
type_no open_ai_chat = 0
type_no open_ai_response = 1
type_no anthropic = 2
type_no gemini = 3
type_no open_ai_embedding = 4
type_no open_ai_images = 5

-- The derived `==`.
abbrev pub type_eq : EndpointType → EndpointType → Bool
type_eq a b = type_no a == type_no b

pub record CustomHeader : Type 0 where
  pub key : Text
  pub value : Text

pub record EndpointConfig : Type 0 where
  pub endpoint_type : EndpointType
  pub base_url : Text
  pub enabled : Bool
  pub headers : List CustomHeader

pub record UpstreamApiKey : Type 0 where
  pub key : Text
  pub note : Text
  pub enabled : Bool

pub record ChannelInfo : Type 0 where
  pub id : Text
  pub name : Text
  pub api_keys : List UpstreamApiKey
  pub endpoints : List EndpointConfig
  pub models : List Text
  pub timeout_secs : ℕ
  pub max_concurrency : ℕ  -- u32
  pub failure_threshold : ℕ  -- u64
  pub blacklist_minutes : ℤ  -- i64

unfoldable pub enabled_api_keys : ChannelInfo → List UpstreamApiKey
enabled_api_keys ch = filter (λ k. k.enabled) ch.api_keys

abbrev pub offers : EndpointType → EndpointConfig → Bool
offers t e = e.enabled && type_eq e.endpoint_type t

unfoldable pub find_endpoint : ChannelInfo → EndpointType → Option EndpointConfig
find_endpoint ch t = find (offers t) ch.endpoints

unfoldable pub has_any_endpoint : ChannelInfo → Bool
has_any_endpoint ch = any (λ e. e.enabled) ch.endpoints

-- `a.or_else(|| b)`.
abbrev pub or_else {ℓ} : {A : Type ℓ} → Option A → Option A → Option A
or_else none b = b
or_else (some a) b = some a

unfoldable pub find_best_endpoint : ChannelInfo → EndpointType → Option EndpointConfig
find_best_endpoint ch t = or_else (find_endpoint ch t) (
    or_else (find (offers open_ai_chat) ch.endpoints)
      (or_else (find (offers anthropic) ch.endpoints) (find (λ e. e.enabled) ch.endpoints)))

-- `&s[n..]`.
unfoldable pub slice_from : ℕ → Text → Option Text
slice_from n [] = if n == 0 then some [] else none
slice_from n (c ∷ s) =
    let rest = slice_from (n - utf8_width c) s in
    if n == 0 then some (c ∷ s) else if ltb n (utf8_width c) then none else rest

abbrev pub elided : Option Text → Option Text → Option Text
elided (some a) (some b) = some (a ++ text "..." ++ b)
elided _ _ = none

abbrev pub short_hint : Text → Option Text
short_hint key =
    let len : ℕ = byte_len key in
    if ltb 12 len
    then elided (slice_to 8 key) (slice_from (len - 4) key)
    else if ltb 4 len
    then elided (slice_to 3 key) (slice_from (len - 2) key)
    else some key

-- `ak.key == key && !ak.note.is_empty()`.
abbrev pub has_note : Text → UpstreamApiKey → Bool
has_note key k = text_eq k.key key && not (text_eq k.note [])

unfoldable pub key_hint : ChannelInfo → Text → Option Text
key_hint ch key = elim (find (has_note key) ch.api_keys) [
  | some k ↦ some k.note
  | none ↦ short_hint key
]

abbrev pub key_at : List UpstreamApiKey → ℕ → Text
key_at keys i = elim (get_elem? keys i) [ none ↦ [] | some k ↦ k.key ]

-- `(0..len).map(|offset| ...)`, from the offset given.
unfoldable pub keys_from : List UpstreamApiKey → ℕ → ℕ → ℕ → List Text
keys_from keys start offset zero = []
keys_from keys start offset (suc left) =
    key_at keys ((start + offset) % length keys) ∷ keys_from keys start (suc offset) left

-- The keys of one request, from where the counter stands; one empty key if none is enabled.
unfoldable pub api_key_attempts : ChannelInfo → ℕ → List Text
api_key_attempts ch counter =
    let keys = enabled_api_keys ch in
    if length keys == 0 then [] ∷ [] else keys_from keys (counter % length keys) 0 (length keys)
