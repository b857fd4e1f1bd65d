-- ===== src/Scheduler/Scoring/Sort.antt =====
-- A stable sort puts a list in order and loses nothing (sort_by, as scoring.rs uses it).
use galaxy_router.Base.{
  ℕ, leb, ◌==◌, zero, suc, ◌+◌, ◌≤◌, min, ◌≡◌, refl, sym, ap, ◌∙◌, ◌≢◌, ◌⊎◌, inl, inr, Bool, true,
  false, not, ◌&&◌, ◌||◌, List, [], ◌∷◌, map, arith, if◌then◌else◌, Bool-cases, length, take, any,
  count, All,
}
use galaxy_router.Scheduler.Scoring.{
  Ordering, less, equal, greater, is_greater, reverse, same, OpenOrder, breaks_order,
  is_total_order, insert_at, insert_by, stable_order, sort_by,
}

-- What comes second in a pair is not what should come first.
abbrev pub IsOrdered : Ordering → Type 0
IsOrdered o = o ≢ greater

-- Each item may come before every later one.
abbrev pub IsSorted : {A : Type 0} → (A → A → Ordering) → List A → Type 0
IsSorted compare [] = Unit
IsSorted compare (x ∷ xs) = All (λ y. IsOrdered (compare x y)) xs × IsSorted compare xs

-- The comparison orders the items of P totally.
pub record Orders {A : Type 0} (compare : A → A → Ordering) (P : A → Type 0) : Type 0 where
  pub reversed : (a b : A) → P a → P b → compare b a ≡ reverse (compare a b)
  pub chained :
      (a b c : A)
      → P a
      → P b
      → P c
      → IsOrdered (compare a b)
      → IsOrdered (compare b c)
      → IsOrdered (compare a c)

Ordering-cases : (o : Ordering) → (o ≡ greater) ⊎ IsOrdered o
Ordering-cases greater = inl refl
Ordering-cases less = inr (λ h. cc)
Ordering-cases equal = inr (λ h. cc)

insert_at-IsOrdered :
    {A : Type 0} (compare : A → A → Ordering) (x y : A) (ys later : List A) (o : Ordering)
    → IsOrdered o
    → insert_at compare x y ys later o ≡ x ∷ y ∷ ys
insert_at-IsOrdered compare x y ys later less h = refl
insert_at-IsOrdered compare x y ys later equal h = refl
insert_at-IsOrdered compare x y ys later greater h = absurd (h refl)

insert_by-All :
    {A : Type 0} (compare : A → A → Ordering) (Q : A → Type 0) (x : A) (xs : List A)
    → Q x
    → All Q xs
    → All Q (insert_by compare x xs)
unfolding insert_by
insert_by-All compare Q x [] h k = (h, tt)
insert_by-All compare Q x (y ∷ ys) h (q, k) = elim (Ordering-cases (compare x y)) [
  | inl e ↦ rw e (q, insert_by-All compare Q x ys h k)
  | inr e ↦
      rw (insert_at-IsOrdered compare x y ys (insert_by compare x ys) (compare x y) e) (h, (q, k))
]

stable_order-All :
    {A : Type 0} (compare : A → A → Ordering) (Q : A → Type 0) (xs : List A)
    → All Q xs
    → All Q (stable_order compare xs)
unfolding stable_order
stable_order-All compare Q [] h = tt
stable_order-All compare Q (x ∷ xs) (h, k) =
    insert_by-All compare Q x (stable_order compare xs) h (stable_order-All compare Q xs k)

-- What may come before y may come before all that y may come before.
before_all :
    {A : Type 0} (compare : A → A → Ordering) (P : A → Type 0) (x y : A) (ys : List A)
    → Orders compare P
    → P x
    → P y
    → All P ys
    → IsOrdered (compare x y)
    → All (λ z. IsOrdered (compare y z)) ys
    → All (λ z. IsOrdered (compare x z)) ys
before_all compare P x y [] ord px py ps h k = tt
before_all compare P x y (z ∷ zs) ord px py (p, ps) h (k, ks) =
    (ord.chained x y z px py p h k, before_all compare P x y zs ord px py ps h ks)

reverse-IsOrdered : (o o' : Ordering) → o' ≡ reverse o → o ≡ greater → IsOrdered o'
reverse-IsOrdered o o' e h = rw (e, h) (λ k. cc)

insert_by-IsSorted :
    {A : Type 0} (compare : A → A → Ordering) (P : A → Type 0) (x : A) (xs : List A)
    → Orders compare P
    → P x
    → All P xs
    → IsSorted compare xs
    → IsSorted compare (insert_by compare x xs)
unfolding insert_by
insert_by-IsSorted compare P x [] ord px ps sorted = (tt, tt)
insert_by-IsSorted compare P x (y ∷ ys) ord px (py, ps) (after, sorted) =
    elim (Ordering-cases (compare x y)) [
      | inl e ↦ rw e (
        insert_by-All compare (λ z. IsOrdered (compare y z)) x ys
            (reverse-IsOrdered (compare x y) (compare y x) (ord.reversed x y px py) e) after,
        insert_by-IsSorted compare P x ys ord px ps sorted,
      )
      | inr e ↦
          rw (insert_at-IsOrdered compare x y ys (insert_by compare x ys) (compare x y) e)
            ((e, before_all compare P x y ys ord px py ps e after), (after, sorted))
    ]

stable_order-IsSorted :
    {A : Type 0} (compare : A → A → Ordering) (P : A → Type 0) (xs : List A)
    → Orders compare P
    → All P xs
    → IsSorted compare (stable_order compare xs)
unfolding stable_order
stable_order-IsSorted compare P [] ord ps = tt
stable_order-IsSorted compare P (x ∷ xs) ord (p, ps) =
    insert_by-IsSorted compare P x (stable_order compare xs) ord p
      (stable_order-All compare P xs ps) (stable_order-IsSorted compare P xs ord ps)

any_none :
    {A : Type 0} (P : A → Type 0) (q : A → Bool) (xs : List A)
    → ((x : A) → P x → q x ≡ false)
    → All P xs
    → any q xs ≡ false
any_none P q [] none' ps = refl
any_none P q (x ∷ xs) none' (p, ps) = ground (arith, none' x p, any_none P q xs none' ps)

no_break :
    (ab ba bc ac : Ordering)
    → ba ≡ reverse ab
    → (IsOrdered ab → IsOrdered bc → IsOrdered ac)
    → (not (same ba (reverse ab)) || (not (is_greater ab) && not (is_greater bc) && is_greater ac))
      ≡ false
no_break ab ba bc ac e h = ground arith

Orders-is_total_order :
    {A : Type 0} (compare : A → A → Ordering) (P : A → Type 0) (xs : List A)
    → Orders compare P
    → All P xs
    → is_total_order compare xs ≡ true
unfolding is_total_order
Orders-is_total_order compare P xs ord ps = ap not (
    any_none P (λ a. any (λ b. any (λ c. breaks_order compare a b c) xs) xs) xs
      (λ a pa.
        any_none P (λ b. any (λ c. breaks_order compare a b c) xs) xs
          (λ b pb.
            any_none P (λ c. breaks_order compare a b c) xs
              (λ c pc.
                no_break (compare a b) (compare b a) (compare b c) (compare a c)
                  (ord.reversed a b pa pb) (ord.chained a b c pa pb pc))
              ps)
          ps)
      ps)

pub sort_by-IsSorted :
    {A : Type 0} (compare : A → A → Ordering) (std : OpenOrder A) (P : A → Type 0) (xs : List A)
    → Orders compare P
    → All P xs
    → IsSorted compare (sort_by compare std xs)
unfolding sort_by
sort_by-IsSorted compare std P xs ord ps =
    rw (Orders-is_total_order compare P xs ord ps) (stable_order-IsSorted compare P xs ord ps)

count-insert_by :
    {A : Type 0} (compare : A → A → Ordering) (p : A → Bool) (x : A) (xs : List A)
    → count p (insert_by compare x xs) ≡ count p (x ∷ xs)
unfolding insert_by
count-insert_by compare p x [] = refl
count-insert_by compare p x (y ∷ ys) = elim (Ordering-cases (compare x y)) [
  | inl e ↦ rw e (ground (arith, count-insert_by compare p x ys))
  | inr e ↦ rw (insert_at-IsOrdered compare x y ys (insert_by compare x ys) (compare x y) e) refl
]

count-stable_order :
    {A : Type 0} (compare : A → A → Ordering) (p : A → Bool) (xs : List A)
    → count p (stable_order compare xs) ≡ count p xs
unfolding stable_order
count-stable_order compare p [] = refl
count-stable_order compare p (x ∷ xs) =
    count-insert_by compare p x (stable_order compare xs)
    ∙ ap (λ n. (if p x then 1 else 0) + n) (count-stable_order compare p xs)

pub count-sort_by :
    {A : Type 0} (compare : A → A → Ordering) (std : OpenOrder A) (p : A → Bool) (xs : List A)
    → count p (sort_by compare std xs) ≡ count p xs
unfolding sort_by
count-sort_by compare std p xs = elim (Bool-cases (is_total_order compare xs)) [
  | inl e ↦ rw e (count-stable_order compare p xs)
  | inr e ↦ rw e (std.keeps p xs)
]

pub take_all {ℓ} : {A : Type ℓ} (n : ℕ) (xs : List A) → length xs ≤ n → take n xs ≡ xs
take_all zero [] h = refl
take_all zero (x ∷ xs) h = absurd (omega arith)
take_all (suc n) [] h = refl
take_all (suc n) (x ∷ xs) h = ap (λ t. x ∷ t) (take_all n xs (omega arith))

pub take_none {ℓ} :
    {A : Type ℓ} (n : ℕ) (xs : List A) → (length xs == 0 || n == 0) ≡ true → take n xs ≡ []
take_none zero xs h = refl
take_none (suc n) [] h = refl
take_none (suc n) (x ∷ xs) h = absurd (ground (arith, h))

pub take-min {ℓ} : {A : Type ℓ} (n : ℕ) (xs : List A) → take (min n (length xs)) xs ≡ take n xs
take-min n xs = elim (Bool-cases (leb n (length xs))) [
  | inl e ↦ ap (λ k. take k xs) (ground (arith, e))
  | inr e ↦
      take_all (min n (length xs)) xs (ground (arith, e)) ∙ sym (take_all n xs (ground (arith, e)))
]

length-count {ℓ} : {A : Type ℓ} (xs : List A) → count (λ x. true) xs ≡ length xs
length-count [] = refl
length-count (x ∷ xs) = omega (arith, length-count xs)

pub length-sort_by :
    {A : Type 0} (compare : A → A → Ordering) (std : OpenOrder A) (xs : List A)
    → length (sort_by compare std xs) ≡ length xs
length-sort_by compare std xs =
    sym (length-count (sort_by compare std xs))
    ∙ count-sort_by compare std (λ x. true) xs
    ∙ length-count xs

pub length-map {ℓ κ} :
    {A : Type ℓ} {B : Type κ} (f : A → B) (xs : List A) → length (map f xs) ≡ length xs
length-map f [] = refl
length-map f (x ∷ xs) = ap suc (length-map f xs)
