-- ===== src/Infra/Cache/Index.antt =====
-- The index from models to channels, one channel added or taken out (cache.rs).
use galaxy_router.Base.{
  ℕ, ◌+◌, ◌≡◌, refl, ap, ◌∙◌, inl, inr, Bool, false, not, ◌&&◌, List, [], ◌∷◌, ◌++◌, arith,
  if◌then◌else◌, Bool-cases, Option-cases, get_or, filter, any, count, count-append, Text, text_eq,
  text_eq_iff, Map, insert, alter,
}
use galaxy_router.Infra.Cache.{remove_id, push_id}

-- How often a model lists a channel.
abbrev pub listed : Text → Text → Map (List Text) → ℕ
listed id model idx = count (λ j. text_eq j id) (get_or [] (idx model))

-- The index lists a channel under a model as often as the channel has it.
abbrev pub Indexes : (Text → List Text) → Map (List Text) → Type 0
Indexes models idx =
    (id model : Text) → listed id model idx ≡ count (λ m. text_eq m model) (models id)

-- One channel has these models, every other one the same.
abbrev pub update : Text → List Text → (Text → List Text) → Text → List Text
update id ms models j = if text_eq j id then ms else models j

count-filter-not :
    (id id' : Text) (ids : List Text)
    → count (λ j. text_eq j id') (filter (λ j. not (text_eq j id)) ids)
      ≡ (if text_eq id' id then 0 else count (λ j. text_eq j id') ids)
count-filter-not id id' [] = ground arith
count-filter-not id id' (j ∷ ids) =
    ground
      (arith, text_eq_iff j id, text_eq_iff j id', text_eq_iff id' id, count-filter-not id id' ids)

-- One model's list without the channel.
listed-alter :
    (id id' model model' : Text) (idx : Map (List Text))
    → listed id' model' (alter model (λ ids. filter (λ j. not (text_eq j id)) ids) idx)
      ≡ (if text_eq id' id && text_eq model model' then 0 else listed id' model' idx)
listed-alter id id' model model' idx = elim (Option-cases (idx model')) [
  | inl e ↦ rw e (ground arith)
  | inr (ids, e) ↦ rw e (ground (arith, count-filter-not id id' ids))
]

listed-remove_id :
    (id id' model' : Text) (models : List Text) (idx : Map (List Text))
    → listed id' model' (remove_id id models idx)
      ≡ (if text_eq id' id && any (λ m. text_eq m model') models then 0 else listed id' model' idx)
unfolding remove_id
listed-remove_id id id' model' [] idx = ground arith
listed-remove_id id id' model' (model ∷ models) idx =
    listed-remove_id id id' model' models
      (alter model (λ ids. filter (λ j. not (text_eq j id)) ids) idx)
    ∙ ground (arith, listed-alter id id' model model' idx)

listed-insert :
    (id id' model model' : Text) (idx : Map (List Text))
    → listed id' model' (insert model (get_or [] (idx model) ++ id ∷ []) idx)
      ≡ listed id' model' idx + (if text_eq id' id && text_eq model model' then 1 else 0)
listed-insert id id' model model' idx = elim (Bool-cases (text_eq model model')) [
  | inl e ↦
      let same : listed id' model idx ≡ listed id' model' idx =
        ap (λ m. listed id' m idx) ((text_eq_iff model model').0 e) in
      rw e (
        ground (
          arith,
          same,
          text_eq_iff id id',
          text_eq_iff id' id,
          count-append (λ j. text_eq j id') (get_or [] (idx model)) (id ∷ []),
        ))
  | inr e ↦ rw e (ground arith)
]

listed-push_id :
    (id id' model' : Text) (models : List Text) (idx : Map (List Text))
    → listed id' model' (push_id id models idx)
      ≡ listed id' model' idx + (if text_eq id' id then count (λ m. text_eq m model') models else 0)
unfolding push_id
listed-push_id id id' model' [] idx = ground arith
listed-push_id id id' model' (model ∷ models) idx =
    listed-push_id id id' model' models (insert model (get_or [] (idx model) ++ id ∷ []) idx)
    ∙ ground (arith, listed-insert id id' model model' idx)

count_none {ℓ} : {A : Type ℓ} (p : A → Bool) (xs : List A) → any p xs ≡ false → count p xs ≡ 0
count_none p [] h = refl
count_none p (x ∷ xs) h = ground (arith, count_none p xs)

pub remove_id-Indexes :
    (id : Text) (models : Text → List Text) (idx : Map (List Text))
    → Indexes models idx
    → Indexes (update id [] models) (remove_id id (models id) idx)
remove_id-Indexes id models idx h id' model = elim (Bool-cases (text_eq id' id)) [
  | inl e ↦
      let same : count (λ m. text_eq m model) (models id')
          ≡ count (λ m. text_eq m model) (models id) =
        ap (λ i. count (λ m. text_eq m model) (models i)) ((text_eq_iff id' id).0 e) in
      listed-remove_id id id' model (models id) idx
      ∙ rw e (ground (arith, same, h id' model, count_none (λ m. text_eq m model) (models id)))
  | inr e ↦ listed-remove_id id id' model (models id) idx ∙ rw e (h id' model)
]

pub push_id-Indexes :
    (id : Text) (ms : List Text) (models : Text → List Text) (idx : Map (List Text))
    → models id ≡ []
    → Indexes models idx
    → Indexes (update id ms models) (push_id id ms idx)
push_id-Indexes id ms models idx empty h id' model = elim (Bool-cases (text_eq id' id)) [
  | inl e ↦
      let nothing : models id' ≡ [] = ap models ((text_eq_iff id' id).0 e) ∙ empty in
      let none_yet : listed id' model idx ≡ 0 =
        h id' model ∙ ap (count (λ m. text_eq m model)) nothing in
      listed-push_id id id' model ms idx ∙ rw e (ground (arith, none_yet))
  | inr e ↦ listed-push_id id id' model ms idx ∙ rw e (ground (arith, h id' model))
]

-- The same view of the channels.
pub Indexes-ext :
    (models models' : Text → List Text) (idx : Map (List Text))
    → ((id : Text) → models id ≡ models' id)
    → Indexes models idx
    → Indexes models' idx
Indexes-ext models models' idx same h id model =
    h id model ∙ ap (count (λ m. text_eq m model)) (same id)
