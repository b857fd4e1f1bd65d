-- ===== src/Base/Assoc.antt =====
-- A hash map whose entries the code counts, as a list of entries. `IsUnique` says that a key has
-- one entry, which every operation keeps.
use Prim.Native.Nat.{suc, ◌≤◌}
use mathlib.Core.Path.{◌≡◌, refl}
use mathlib.Core.Bool.{Bool, true}
use mathlib.Core.List.{List, [], ◌∷◌}
use mathlib.Core.Option.{Option, none, some}
use native.Mathlib.Omega.{arith}
use galaxy_router.Base.Tests.{if◌then◌else◌, is_some}
use galaxy_router.Base.Lists.{length}
use galaxy_router.Base.Texts.{Text, text_eq, text_eq_iff}
use galaxy_router.Base.Maps.{keep_if}

abbrev pub Assoc {ℓ} : Type ℓ → Type ℓ
Assoc V = List (Text × V)

module _ {ℓ} {V : Type ℓ} where
  unfoldable pub get : Text → Assoc V → Option V
  get k [] = none
  get k ((j, v) ∷ m) = if text_eq j k then some v else get k m

  -- `insert(k, v)`: in the place of the entry of k, or a new entry.
  unfoldable pub put : Text → V → Assoc V → Assoc V
  put k v [] = (k, v) ∷ []
  put k v ((j, w) ∷ m) = if text_eq j k then (k, v) ∷ m else (j, w) ∷ put k v m

  -- `remove(k)`.
  unfoldable pub erase : Text → Assoc V → Assoc V
  erase k [] = []
  erase k ((j, w) ∷ m) = if text_eq j k then m else (j, w) ∷ erase k m

  -- `retain(|_, v| p(v))`.
  unfoldable pub keep : (V → Bool) → Assoc V → Assoc V
  keep p [] = []
  keep p ((j, w) ∷ m) = let rest = keep p m in if p w then (j, w) ∷ rest else rest

  abbrev pub IsUnique : Assoc V → Type ℓ
  IsUnique [] = Unit
  IsUnique ((j, w) ∷ m) = (get j m ≡ none) × IsUnique m

  pub get-put :
      (k j : Text) (v : V) (m : Assoc V)
      → get j (put k v m) ≡ (if text_eq k j then some v else get j m)
  unfolding get put
  get-put k j v [] = refl
  get-put k j v ((i, w) ∷ m) =
      ground (arith, text_eq_iff k j, text_eq_iff i k, text_eq_iff i j, get-put k j v m)

  pub put-IsUnique : (k : Text) (v : V) (m : Assoc V) → IsUnique m → IsUnique (put k v m)
  unfolding get put
  put-IsUnique k v [] u = (refl, tt)
  put-IsUnique k v ((i, w) ∷ m) u =
      ground (arith, text_eq_iff i k, text_eq_iff k i, get-put k i v m, put-IsUnique k v m u.1)

  -- A new key takes one more entry, an old one none.
  pub length-put :
      (k : Text) (v : V) (m : Assoc V)
      → length (put k v m) ≡ (if is_some (get k m) then length m else suc (length m))
  unfolding get put
  length-put k v [] = refl
  length-put k v ((i, w) ∷ m) = ground (arith, length-put k v m)

  pub get-keep-none :
      (k : Text) (p : V → Bool) (m : Assoc V) → get k m ≡ none → get k (keep p m) ≡ none
  unfolding get keep
  get-keep-none k p [] e = refl
  get-keep-none k p ((i, w) ∷ m) e = ground (arith, get-keep-none k p m)

  pub get-keep :
      (k : Text) (p : V → Bool) (m : Assoc V) → IsUnique m → get k (keep p m) ≡ keep_if p (get k m)
  unfolding get keep
  get-keep k p [] u = refl
  get-keep k p ((i, w) ∷ m) u =
      ground (arith, text_eq_iff i k, get-keep k p m u.1, get-keep-none i p m u.0)

  pub keep-IsUnique : (p : V → Bool) (m : Assoc V) → IsUnique m → IsUnique (keep p m)
  unfolding get keep
  keep-IsUnique p [] u = tt
  keep-IsUnique p ((i, w) ∷ m) u = ground (arith, keep-IsUnique p m u.1, get-keep-none i p m u.0)

  pub length-keep : (p : V → Bool) (m : Assoc V) → length (keep p m) ≤ length m
  unfolding keep
  length-keep p [] = omega arith
  length-keep p ((i, w) ∷ m) = ground (arith, length-keep p m)

  pub get-erase :
      (k j : Text) (m : Assoc V)
      → IsUnique m
      → get j (erase k m) ≡ (if text_eq k j then none else get j m)
  unfolding get erase
  get-erase k j [] u = ground arith
  get-erase k j ((i, w) ∷ m) u =
      ground (arith, text_eq_iff k j, text_eq_iff i k, text_eq_iff i j, get-erase k j m u.1)

  pub erase-IsUnique : (k : Text) (m : Assoc V) → IsUnique m → IsUnique (erase k m)
  unfolding get erase
  erase-IsUnique k [] u = tt
  erase-IsUnique k ((i, w) ∷ m) u = ground (arith, erase-IsUnique k m u.1, get-erase k i m u.1)

  -- Erasing an entry that is there takes one off.
  pub length-erase :
      (k : Text) (m : Assoc V) → is_some (get k m) ≡ true → suc (length (erase k m)) ≡ length m
  unfolding get erase
  length-erase k [] e = ground arith
  length-erase k ((i, w) ∷ m) e = ground (arith, length-erase k m)
