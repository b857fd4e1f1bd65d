-- ===== src/Infra/Cache/Consistent.antt =====
-- What holds of the cache between two steps, and that a step on channels keeps it (cache.rs).
use galaxy_router.Base.{
  ◌≤◌, ◌<◌, ◌≡◌, refl, ap, subst, ◌∙◌, ◌⊎◌, inl, inr, true, false, not, ◌&&◌, Option, none, some,
  List, [], ◌∷◌, arith, leb, Bool-cases, is_some, length, Text, text_eq, text_eq_iff, text_eq_self,
  Map,
}
use galaxy_router.Base.Assoc.{
  Assoc, get, put, erase, IsUnique, get-put, put-IsUnique, length-put, get-erase, erase-IsUnique,
  length-erase,
}
use galaxy_router.Relay.Channel.{ChannelInfo}
use galaxy_router.Infra.Cache.{
  cache_max_size, ProxyCache, remove_id, push_id, models_of, unindex, set_channel,
  invalidate_channel,
}
use galaxy_router.Infra.Cache.Index.{
  Indexes, update, remove_id-Indexes, push_id-Indexes, Indexes-ext,
}

-- The models of each channel that is cached.
abbrev pub models_in : Assoc ChannelInfo → Text → List Text
models_in channels id = models_of (get id channels)

-- One entry for a key, at most 1,000 entries.
abbrev pub IsBounded {ℓ} : {V : Type ℓ} → Assoc V → Type ℓ
IsBounded m = IsUnique m × (length m ≤ cache_max_size)

-- `keys().next()` of a map that has entries is a key of it.
abbrev pub IsKeyOf {ℓ} : {V : Type ℓ} → (Assoc V → Option Text) → Type ℓ
IsKeyOf next_key =
    (m : Assoc _) → 0 < length m → (k : Text) × (next_key m ≡ some k) × (is_some (get k m) ≡ true)

pub record IsConsistent {R : Type 0} (compile : Text → Option R) (c : ProxyCache R) : Type 0 where
  pub channels_bounded : IsBounded c.channels
  pub routes_bounded : IsBounded c.routes
  pub indexed : Indexes (models_in c.channels) c.model_index
  pub compiled : (p : Text) (re : R) → c.compiled_regex p ≡ some re → compile p ≡ some re

pub length-put_le :
    {V : Type 0} (k : Text) (v : V) (m : Assoc V)
    → length m ≤ cache_max_size
    → (is_some (get k m) ≡ true) ⊎ (length m < cache_max_size)
    → length (put k v m) ≤ cache_max_size
length-put_le k v m h (inl there) = ground (arith, length-put k v m, h, there)
length-put_le k v m h (inr room) = ground (arith, length-put k v m, room)

-- A channel leaves the index.
pub unindex-Indexes :
    (id : Text) (channels : Assoc ChannelInfo) (idx : Map (List Text))
    → Indexes (models_in channels) idx
    → Indexes (update id [] (models_in channels)) (unindex id (get id channels) idx)
unfolding remove_id
unindex-Indexes id channels idx h =
    subst (λ i. Indexes (update id [] (models_in channels)) i) (removed (get id channels))
      (remove_id-Indexes id (models_in channels) idx h)
  where
    removed : (o : Option ChannelInfo) → remove_id id (models_of o) idx ≡ unindex id o idx
    removed none = refl
    removed (some ch) = refl

text_eq_sym : (a b : Text) → text_eq a b ≡ text_eq b a
text_eq_sym a b = ground (arith, text_eq_iff a b, text_eq_iff b a, text_eq_self a)

-- What the channels look like with one put in, and with one erased.
put_view :
    (id : Text) (ch : ChannelInfo) (channels : Assoc ChannelInfo) (j : Text)
    → update id ch.models (update id [] (models_in channels)) j ≡ models_in (put id ch channels) j
put_view id ch channels j = elim (Bool-cases (text_eq j id)) [
  | inl e ↦ rw (get-put id j ch channels, text_eq_sym id j, e) refl
  | inr e ↦ rw (get-put id j ch channels, text_eq_sym id j, e) refl
]

erase_view :
    (id : Text) (channels : Assoc ChannelInfo)
    → IsUnique channels
    → (j : Text) → update id [] (models_in channels) j ≡ models_in (erase id channels) j
erase_view id channels unique j = elim (Bool-cases (text_eq j id)) [
  | inl e ↦ rw (get-erase id j channels unique, text_eq_sym id j, e) refl
  | inr e ↦ rw (get-erase id j channels unique, text_eq_sym id j, e) refl
]

absent_view :
    (id : Text) (channels : Assoc ChannelInfo)
    → get id channels ≡ none
    → (j : Text) → models_in channels j ≡ update id [] (models_in channels) j
absent_view id channels absent j = elim (Bool-cases (text_eq j id)) [
  | inl e ↦ rw e (ap (models_in channels) ((text_eq_iff j id).0 e) ∙ ap models_of absent)
  | inr e ↦ rw e refl
]

-- A channel may enter: there is room, and the index does not list it.
abbrev Ready : Text → ChannelInfo → Assoc ChannelInfo → Map (List Text) → Type 0
Ready id ch channels idx =
    IsUnique channels
    × (length (put id ch channels) ≤ cache_max_size)
    × Indexes (update id [] (models_in channels)) idx

enter :
    (id : Text) (ch : ChannelInfo) (channels : Assoc ChannelInfo) (idx : Map (List Text))
    → Ready id ch channels idx
    → IsBounded (put id ch channels)
      × Indexes (models_in (put id ch channels)) (push_id id ch.models idx)
enter id ch channels idx (unique, room, h) = (
  (put-IsUnique id ch channels unique, room),
  Indexes-ext (update id ch.models (update id [] (models_in channels)))
      (models_in (put id ch channels)) (push_id id ch.models idx) (put_view id ch channels)
      (push_id-Indexes id ch.models (update id [] (models_in channels)) idx
        (rw (text_eq_self id) refl) h),
)

-- The entry that a full cache gives up.
evicted-Ready :
    (id key : Text) (ch : ChannelInfo) (channels : Assoc ChannelInfo) (idx : Map (List Text))
    → IsBounded channels
    → Indexes (models_in channels) idx
    → get id channels ≡ none
    → is_some (get key channels) ≡ true
    → Ready id ch (erase key channels) (unindex key (get key channels) idx)
evicted-Ready id key ch channels idx (unique, small) h absent there =
    let left = erase key channels in
    let still_absent : get id left ≡ none =
      get-erase key id channels unique ∙ ground (arith, absent) in
    (
      erase-IsUnique key channels unique,
      length-put_le id ch left (omega (arith, small, length-erase key channels there))
          (inr (omega (arith, small, length-erase key channels there))),
      Indexes-ext (models_in left) (update id [] (models_in left))
          (unindex key (get key channels) idx) (absent_view id left still_absent)
          (Indexes-ext (update key [] (models_in channels)) (models_in left)
            (unindex key (get key channels) idx) (erase_view key channels unique)
            (unindex-Indexes key channels idx h)),
    )

replaced-Ready :
    (id : Text) (ch : ChannelInfo) (channels : Assoc ChannelInfo) (idx : Map (List Text))
    → IsBounded channels
    → Indexes (models_in channels) idx
    → (leb cache_max_size (length channels) && not (is_some (get id channels))) ≡ false
    → Ready id ch channels (unindex id (get id channels) idx)
replaced-Ready id ch channels idx (unique, small) h roomy = (
  unique,
  ground (arith, length-put id ch channels, roomy, small),
  unindex-Indexes id channels idx h,
)

absent_of : (o : Option ChannelInfo) → is_some o ≡ false → o ≡ none
absent_of none h = refl
absent_of (some ch) h = cc

pub length-erase_le {ℓ} : {V : Type ℓ} (k : Text) (m : Assoc V) → length (erase k m) ≤ length m
unfolding erase
length-erase_le k [] = omega arith
length-erase_le k ((j, w) ∷ m) = ground (arith, length-erase_le k m)

pub set_step :
    {R : Type 0} (next_key : Assoc ChannelInfo → Option Text) (ch : ChannelInfo) (c : ProxyCache R)
    → IsKeyOf next_key
    → IsBounded c.channels
    → Indexes (models_in c.channels) c.model_index
    → IsBounded (set_channel next_key ch c).channels
      × Indexes
          (models_in (set_channel next_key ch c).channels)
          (set_channel next_key ch c).model_index
unfolding set_channel
set_step next_key ch c law bounded h =
    elim (Bool-cases
      (leb cache_max_size (length c.channels) && not (is_some (get ch.id c.channels)))) [
        | inl full ↦
            let some_key = law c.channels (ground (arith, full)) in
            let absent : get ch.id c.channels ≡ none =
              absent_of (get ch.id c.channels) (ground (arith, full)) in
            rw (full, some_key.1, absent)
              (enter ch.id ch (erase some_key.0 c.channels)
                (unindex some_key.0 (get some_key.0 c.channels) c.model_index)
                (evicted-Ready ch.id some_key.0 ch c.channels c.model_index bounded h absent
                  some_key.2))
        | inr room ↦ rw room (
            enter ch.id ch c.channels (unindex ch.id (get ch.id c.channels) c.model_index)
              (replaced-Ready ch.id ch c.channels c.model_index bounded h room))
      ]

pub invalidate_step :
    {R : Type 0} (id : Text) (c : ProxyCache R)
    → IsBounded c.channels
    → Indexes (models_in c.channels) c.model_index
    → IsBounded (invalidate_channel id c).channels
      × Indexes (models_in (invalidate_channel id c).channels) (invalidate_channel id c).model_index
unfolding invalidate_channel erase
invalidate_step id c (unique, small) h = (
  (erase-IsUnique id c.channels unique, omega (arith, small, length-erase_le id c.channels)),
  Indexes-ext (update id [] (models_in c.channels)) (models_in (erase id c.channels))
      (unindex id (get id c.channels) c.model_index) (erase_view id c.channels unique)
      (unindex-Indexes id c.channels c.model_index h),
)
