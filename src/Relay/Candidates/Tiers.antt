-- ===== src/Relay/Candidates/Tiers.antt =====
-- Groups by priority: nothing is lost, and a split keeps the order (candidates.rs).
use galaxy_router.Base.{
  ◌+◌, ◌≡◌, refl, sym, ap, ◌∙◌, inl, inr, Bool, not, List, [], ◌∷◌, ◌++◌, map, arith, if◌then◌else◌,
  Bool-cases, filter, count, count-append,
}
use mathlib.Core.List.{append_assoc, append-nil}
use galaxy_router.Base.Int.{ℤ}
use galaxy_router.Relay.Candidates.{Tiers, push_tier, push_all, split_group, split_tiers}

-- The items of all groups, with and without their priorities.
abbrev pub flat {ℓ} : {A : Type ℓ} → Tiers A → List A
flat [] = []
flat ((p, group) ∷ tiers) = group ++ flat tiers

abbrev pub keyed {ℓ} : {A : Type ℓ} → Tiers A → List (ℤ × A)
keyed [] = []
keyed ((p, group) ∷ tiers) = map (λ x. (p, x)) group ++ keyed tiers

pub filter-append :
    {A : Type 0} (p : A → Bool) (xs ys : List A) → filter p (xs ++ ys) ≡ filter p xs ++ filter p ys
filter-append p [] ys = refl
filter-append p (x ∷ xs) ys = elim (Bool-cases (p x)) [
  | inl e ↦ rw e (ap (λ t. x ∷ t) (filter-append p xs ys))
  | inr e ↦ rw e (filter-append p xs ys)
]

-- The loop appends to each list what passes its test.
split_group-filter :
    {A : Type 0} (demoted : A → Bool) (group : List A) (o d : List A)
    → split_group demoted group (o, d)
      ≡ (o ++ filter (λ x. not (demoted x)) group, d ++ filter demoted group)
unfolding split_group
split_group-filter demoted [] o d =
    ap (λ t. (t, d)) (sym (append-nil o)) ∙ ap (λ t. (o ++ [], t)) (sym (append-nil d))
split_group-filter demoted (x ∷ group) o d = elim (Bool-cases (demoted x)) [
  | inl e ↦ rw e (
      split_group-filter demoted group o (d ++ x ∷ [])
      ∙ ap (λ t. (o ++ filter (λ y. not (demoted y)) group, t))
          (append_assoc d (x ∷ []) (filter demoted group)))
  | inr e ↦ rw e (
      split_group-filter demoted group (o ++ x ∷ []) d
      ∙ ap (λ t. (t, d ++ filter demoted group))
          (append_assoc o (x ∷ []) (filter (λ y. not (demoted y)) group)))
]

pub split_tiers-filter :
    {A : Type 0} (demoted : A → Bool) (tiers : Tiers A) (o d : List A)
    → split_tiers demoted tiers (o, d)
      ≡ (o ++ filter (λ x. not (demoted x)) (flat tiers), d ++ filter demoted (flat tiers))
unfolding split_tiers
split_tiers-filter demoted [] o d =
    ap (λ t. (t, d)) (sym (append-nil o)) ∙ ap (λ t. (o ++ [], t)) (sym (append-nil d))
split_tiers-filter demoted ((p, group) ∷ tiers) o d =
    let stays : _ → Bool = λ x. not (demoted x) in
    ap (split_tiers demoted tiers) (split_group-filter demoted group o d)
    ∙ split_tiers-filter demoted tiers (o ++ filter stays group) (d ++ filter demoted group)
    ∙ ap (λ t. (t, (d ++ filter demoted group) ++ filter demoted (flat tiers)))
        (append_assoc o (filter stays group) (filter stays (flat tiers))
          ∙ ap (λ t. o ++ t) (sym (filter-append stays group (flat tiers))))
    ∙ ap (λ t. (o ++ filter stays (group ++ flat tiers), t))
        (append_assoc d (filter demoted group) (filter demoted (flat tiers))
          ∙ ap (λ t. d ++ t) (sym (filter-append demoted group (flat tiers))))

pub count-push_tier :
    {A : Type 0} (f : A → Bool) (p : ℤ) (x : A) (tiers : Tiers A)
    → count f (flat (push_tier p x tiers)) ≡ count f (flat tiers) + (if f x then 1 else 0)
unfolding push_tier
count-push_tier f p x [] = omega arith
count-push_tier f p x ((q, group) ∷ tiers) = ground (
  arith,
  count-push_tier f p x tiers,
  count-append f group (flat tiers),
  count-append f group (flat (push_tier p x tiers)),
  count-append f (group ++ x ∷ []) (flat tiers),
  count-append f group (x ∷ []),
)

pub count-push_all :
    {A : Type 0} (f : A → Bool) (xs : List (ℤ × A)) (tiers : Tiers A)
    → count f (flat (push_all xs tiers)) ≡ count f (flat tiers) + count (λ x. f x.1) xs
unfolding push_all
count-push_all f [] tiers = omega arith
count-push_all f ((p, x) ∷ xs) tiers =
    omega (arith, count-push_all f xs (push_tier p x tiers), count-push_tier f p x tiers)
