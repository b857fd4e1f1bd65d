-- ===== src/Relay/Candidates/Stable.antt =====
-- The groups are in ascending order, and each keeps the order of arrival (candidates.rs,
-- tier_and_demote).
use galaxy_router.Base.{
  ◌≡◌, refl, sym, ap, ◌∙◌, ◌⊎◌, inl, inr, Bool, true, false, not, List, [], ◌∷◌, ◌++◌, map, arith,
  Bool-cases, filter, All, All-append,
}
use mathlib.Core.List.{append_assoc, append-nil}
use galaxy_router.Base.Int.{ℤ, pos, negsuc, ltb_ℤ, leb_ℤ}
use galaxy_router.Base.Float.{Floats}
use galaxy_router.Scheduler.Scoring.{ScoredCandidate}
use galaxy_router.Relay.Candidates.{Tiers, eq_ℤ, push_tier, push_all, is_demoted, tier_and_demote}
use galaxy_router.Relay.Candidates.Tiers.{flat, keyed, filter-append, split_tiers-filter}

abbrev pub has_priority {ℓ} : {A : Type ℓ} → ℤ → ℤ × A → Bool
has_priority p x = eq_ℤ p x.0

abbrev pub AtLeast {ℓ} : {A : Type ℓ} → ℤ → List (ℤ × A) → Type 0
AtLeast p xs = All (λ y. leb_ℤ p y.0 ≡ true) xs

-- No item comes before one of a smaller priority.
abbrev pub IsAscending {ℓ} : {A : Type ℓ} → List (ℤ × A) → Type 0
IsAscending [] = Unit
IsAscending (x ∷ xs) = AtLeast x.0 xs × IsAscending xs

abbrev Above {ℓ} : {A : Type ℓ} → ℤ → Tiers A → Type 0
Above p tiers = All (λ t. ltb_ℤ p t.0 ≡ true) tiers

abbrev IsTiered {ℓ} : {A : Type ℓ} → Tiers A → Type 0
IsTiered [] = Unit
IsTiered ((p, group) ∷ tiers) = Above p tiers × IsTiered tiers

eq_ℤ-same : (a b : ℤ) → eq_ℤ a b ≡ true → a ≡ b
eq_ℤ-same (pos m) (pos n) h = ap pos (ground (arith, h))
eq_ℤ-same (pos m) (negsuc n) h = ground (arith, h)
eq_ℤ-same (negsuc m) (pos n) h = ground (arith, h)
eq_ℤ-same (negsuc m) (negsuc n) h = ap negsuc (ground (arith, h))

Above-lower :
    {A : Type 0} (p q : ℤ) (tiers : Tiers A) → ltb_ℤ p q ≡ true → Above q tiers → Above p tiers
Above-lower p q [] less above = tt
Above-lower p q ((r, group) ∷ tiers) less (here, above) =
    (ground (arith, less, here), Above-lower p q tiers less above)

push_tier-Above :
    {A : Type 0} (r p : ℤ) (x : A) (tiers : Tiers A)
    → ltb_ℤ r p ≡ true
    → Above r tiers
    → Above r (push_tier p x tiers)
unfolding push_tier
push_tier-Above r p x [] less above = (less, tt)
push_tier-Above r p x ((q, group) ∷ tiers) less (here, above) = elim (Bool-cases (ltb_ℤ p q)) [
  | inl e ↦ rw e (less, (here, above))
  | inr e ↦ elim (Bool-cases (eq_ℤ p q)) [
    | inl k ↦ rw (e, k) (here, above)
    | inr k ↦ rw (e, k) (here, push_tier-Above r p x tiers less above)
  ]
]

push_tier-IsTiered :
    {A : Type 0} (p : ℤ) (x : A) (tiers : Tiers A) → IsTiered tiers → IsTiered (push_tier p x tiers)
unfolding push_tier
push_tier-IsTiered p x [] tiered = (tt, tt)
push_tier-IsTiered p x ((q, group) ∷ tiers) (above, tiered) = elim (Bool-cases (ltb_ℤ p q)) [
  | inl e ↦ rw e ((e, Above-lower p q tiers e above), (above, tiered))
  | inr e ↦ elim (Bool-cases (eq_ℤ p q)) [
    | inl k ↦ rw (e, k) (above, tiered)
    | inr k ↦
        rw (e, k)
          (
            push_tier-Above q p x tiers (ground (arith, e, k)) above,
            push_tier-IsTiered p x tiers tiered,
          )
  ]
]

-- A priority below all groups has no items.
filter_group :
    {A : Type 0} (r q : ℤ) (group : List A)
    → eq_ℤ r q ≡ false
    → filter (has_priority r) (map (λ x. (q, x)) group) ≡ []
filter_group r q [] h = refl
filter_group r q (x ∷ group) h = rw h (filter_group r q group h)

filter-Above :
    {A : Type 0} (r q : ℤ) (tiers : Tiers A)
    → eq_ℤ r q ≡ true
    → Above q tiers
    → filter (has_priority r) (keyed tiers) ≡ []
filter-Above r q [] same above = refl
filter-Above r q ((s, group) ∷ tiers) same (here, above) =
    filter-append (has_priority r) (map (λ x. (s, x)) group) (keyed tiers)
    ∙ rw (filter_group r s group (ground (arith, same, here)), filter-Above r q tiers same above)
        refl

map-append : {A B : Type 0} (f : A → B) (xs ys : List A) → map f (xs ++ ys) ≡ map f xs ++ map f ys
map-append f [] ys = refl
map-append f (x ∷ xs) ys = ap (λ t. f x ∷ t) (map-append f xs ys)

swap_nil : {A : Type 0} (a b c : List A) → (b ≡ []) ⊎ (c ≡ []) → (a ++ b) ++ c ≡ (a ++ c) ++ b
swap_nil a b c (inl e) =
    ap (λ t. (a ++ t) ++ c) e
    ∙ ap (λ t. t ++ c) (append-nil a)
    ∙ sym (append-nil (a ++ c))
    ∙ ap (λ t. (a ++ c) ++ t) (sym e)
swap_nil a b c (inr e) =
    ap (λ t. (a ++ b) ++ t) e
    ∙ append-nil (a ++ b)
    ∙ ap (λ t. t ++ b) (sym (append-nil a))
    ∙ ap (λ t. (a ++ t) ++ b) (sym e)

-- Another item at the end of its group.
filter_joined :
    {A : Type 0} (r p q : ℤ) (x : A) (group : List A) (tiers : Tiers A)
    → eq_ℤ p q ≡ true
    → Above q tiers
    → filter (has_priority r) (map (λ y. (q, y)) (group ++ x ∷ []) ++ keyed tiers)
      ≡ filter (has_priority r) (map (λ y. (q, y)) group ++ keyed tiers)
        ++ filter (has_priority r) ((p, x) ∷ [])
filter_joined r p q x group tiers same above =
    let key : _ → ℤ × _ = λ y. (q, y) in
    let old = filter (has_priority r) (map key group) in
    let new = filter (has_priority r) ((q, x) ∷ []) in
    let rest = filter (has_priority r) (keyed tiers) in
    filter-append (has_priority r) (map key (group ++ x ∷ [])) (keyed tiers)
    ∙ ap (λ t. filter (has_priority r) t ++ rest) (map-append key group (x ∷ []))
    ∙ ap (λ t. t ++ rest) (filter-append (has_priority r) (map key group) ((q, x) ∷ []))
    ∙ swap_nil old new rest (one_is_nil (eq_ℤ r q) refl)
    ∙ ap (λ t. t ++ new) (sym (filter-append (has_priority r) (map key group) (keyed tiers)))
    ∙ ap
        (λ z.
          filter (has_priority r) (map key group ++ keyed tiers)
          ++ filter (has_priority r) ((z, x) ∷ []))
        (sym (eq_ℤ-same p q same))
  where
    one_is_nil :
        (b : Bool)
        → eq_ℤ r q ≡ b
        → (filter (has_priority r) ((q, x) ∷ []) ≡ [])
          ⊎ (filter (has_priority r) (keyed tiers) ≡ [])
    one_is_nil true e = inr (filter-Above r q tiers e above)
    one_is_nil false e = inl (rw e refl)

push_tier-Stable :
    {A : Type 0} (r p : ℤ) (x : A) (tiers : Tiers A)
    → IsTiered tiers
    → filter (has_priority r) (keyed (push_tier p x tiers))
      ≡ filter (has_priority r) (keyed tiers) ++ filter (has_priority r) ((p, x) ∷ [])
unfolding push_tier
push_tier-Stable r p x [] tiered = refl
push_tier-Stable r p x ((q, group) ∷ tiers) (above, tiered) = elim (Bool-cases (ltb_ℤ p q)) [
  | inl e ↦ elim (Bool-cases (eq_ℤ r p)) [
    | inl k ↦
        rw (e, k, filter-Above r p ((q, group) ∷ tiers) k (e, Above-lower p q tiers e above)) refl
    | inr k ↦ rw (e, k) (sym (append-nil (filter (has_priority r) (keyed ((q, group) ∷ tiers)))))
  ]
  | inr e ↦ elim (Bool-cases (eq_ℤ p q)) [
    | inl k ↦ rw (e, k) (filter_joined r p q x group tiers k above)
    | inr k ↦
        let here = filter (has_priority r) (map (λ y. (q, y)) group) in
        let last = filter (has_priority r) ((p, x) ∷ []) in
        rw (e, k)
          (filter-append (has_priority r) (map (λ y. (q, y)) group) (keyed (push_tier p x tiers))
            ∙ ap (λ t. here ++ t) (push_tier-Stable r p x tiers tiered)
            ∙ sym (append_assoc here (filter (has_priority r) (keyed tiers)) last)
            ∙ ap (λ t. t ++ last)
                (sym (filter-append (has_priority r) (map (λ y. (q, y)) group) (keyed tiers))))
  ]
]

push_all-Stable :
    {A : Type 0} (r : ℤ) (xs : List (ℤ × A)) (tiers : Tiers A)
    → IsTiered tiers
    → IsTiered (push_all xs tiers)
      × (filter (has_priority r) (keyed (push_all xs tiers))
          ≡ filter (has_priority r) (keyed tiers) ++ filter (has_priority r) xs)
unfolding push_all
push_all-Stable r [] tiers tiered =
    (tiered, sym (append-nil (filter (has_priority r) (keyed tiers))))
push_all-Stable r ((p, x) ∷ xs) tiers tiered =
    let before = filter (has_priority r) (keyed tiers) in
    let rest = push_all-Stable r xs (push_tier p x tiers) (push_tier-IsTiered p x tiers tiered) in
    (
      rest.0,
      rest.1
          ∙ ap (λ t. t ++ filter (has_priority r) xs) (push_tier-Stable r p x tiers tiered)
          ∙ append_assoc before (filter (has_priority r) ((p, x) ∷ [])) (filter (has_priority r) xs)
          ∙ ap (λ t. before ++ t) (sym (filter-append (has_priority r) ((p, x) ∷ []) xs)),
    )

-- The groups laid out are ascending.
group_leb : {A : Type 0} (p : ℤ) (group : List A) → AtLeast p (map (λ x. (p, x)) group)
group_leb p [] = tt
group_leb p (x ∷ group) = (ground arith, group_leb p group)

keyed_leb :
    {A : Type 0} (p q : ℤ) (group : List A) → ltb_ℤ p q ≡ true → AtLeast p (map (λ x. (q, x)) group)
keyed_leb p q [] h = tt
keyed_leb p q (x ∷ group) h = (ground (arith, h), keyed_leb p q group h)

tiers_leb : {A : Type 0} (p : ℤ) (tiers : Tiers A) → Above p tiers → AtLeast p (keyed tiers)
tiers_leb p [] above = tt
tiers_leb p ((q, group) ∷ tiers) (here, above) =
    All-append (λ y. leb_ℤ p y.0 ≡ true) (map (λ x. (q, x)) group) (keyed tiers)
      (keyed_leb p q group here) (tiers_leb p tiers above)

group-IsAscending :
    {A : Type 0} (p : ℤ) (group : List A) (rest : List (ℤ × A))
    → AtLeast p rest
    → IsAscending rest
    → IsAscending (map (λ x. (p, x)) group ++ rest)
group-IsAscending p [] rest low sorted = sorted
group-IsAscending p (x ∷ group) rest low sorted = (
  All-append (λ y. leb_ℤ p y.0 ≡ true) (map (λ y. (p, y)) group) rest (group_leb p group) low,
  group-IsAscending p group rest low sorted,
)

keyed-IsAscending : {A : Type 0} (tiers : Tiers A) → IsTiered tiers → IsAscending (keyed tiers)
keyed-IsAscending [] tiered = tt
keyed-IsAscending ((p, group) ∷ tiers) (above, tiered) =
    group-IsAscending p group (keyed tiers) (tiers_leb p tiers above)
      (keyed-IsAscending tiers tiered)

-- The items without their priorities.
abbrev pub items_of {ℓ} : {A : Type ℓ} → List (ℤ × A) → List A
items_of xs = map (λ x. x.1) xs

filter-keyed :
    {A : Type 0} (f : A → Bool) (xs : List (ℤ × A))
    → filter f (items_of xs) ≡ items_of (filter (λ x. f x.1) xs)
filter-keyed f [] = refl
filter-keyed f ((p, x) ∷ xs) = elim (Bool-cases (f x)) [
  | inl e ↦ rw e (ap (λ t. x ∷ t) (filter-keyed f xs))
  | inr e ↦ rw e (filter-keyed f xs)
]

items_of-group : {A : Type 0} (p : ℤ) (group : List A) → items_of (map (λ x. (p, x)) group) ≡ group
items_of-group p [] = refl
items_of-group p (x ∷ group) = ap (λ t. x ∷ t) (items_of-group p group)

items_of-keyed : {A : Type 0} (tiers : Tiers A) → items_of (keyed tiers) ≡ flat tiers
items_of-keyed [] = refl
items_of-keyed ((p, group) ∷ tiers) =
    map-append (λ x. x.1) (map (λ x. (p, x)) group) (keyed tiers)
    ∙ ap (λ t. t ++ items_of (keyed tiers)) (items_of-group p group)
    ∙ ap (λ t. group ++ t) (items_of-keyed tiers)

module _ (fl : Floats) where
  open fl use {F}

  -- The result is made of one list of the scored candidates that ascends by priority and keeps,
  -- within each priority, exactly the given candidates in the given order: first those with a
  -- health above 0, or none that compares, and then the demoted ones, both in the order of that
  -- list.
  pub tier_and_demote-IsAscending :
      (scored : List (ℤ × ScoredCandidate F))
      → (sorted : List (ℤ × ScoredCandidate F)) × IsAscending sorted
        × ((p : ℤ) → filter (has_priority p) sorted ≡ filter (has_priority p) scored)
        × (tier_and_demote fl scored
            ≡ items_of (filter (λ x. not (is_demoted fl x.1)) sorted)
              ++ items_of (filter (λ x. is_demoted fl x.1) sorted))
  unfolding tier_and_demote
  tier_and_demote-IsAscending scored =
      let tiers = push_all scored [] in
      let stays : ScoredCandidate F → Bool = λ x. not (is_demoted fl x) in
      (
        keyed tiers,
        keyed-IsAscending tiers (push_all-Stable (pos 0) scored [] tt).0,
        λ p. (push_all-Stable p scored [] tt).1,
        ap (λ s. s.0 ++ s.1) (split_tiers-filter (is_demoted fl) tiers [] [])
            ∙ ap (λ t. filter stays t ++ filter (is_demoted fl) t) (sym (items_of-keyed tiers))
            ∙ ap (λ t. t ++ filter (is_demoted fl) (items_of (keyed tiers)))
                (filter-keyed stays (keyed tiers))
            ∙ ap (λ t. items_of (filter (λ x. stays x.1) (keyed tiers)) ++ t)
                (filter-keyed (is_demoted fl) (keyed tiers)),
      )
