-- ===== src/Base/Maps.antt =====
-- Two views of a hash map keyed by texts. `Map` is a function, for the maps whose size and order
-- the code never reads; `Assoc` is a list of entries, for those that it counts.
use mathlib.Core.Bool.{Bool}
use mathlib.Core.Option.{Option, none, some}
use galaxy_router.Base.Tests.{if◌then◌else◌}
use galaxy_router.Base.Texts.{Text, text_eq}

abbrev pub Map {ℓ} : Type ℓ → Type ℓ
Map V = Text → Option V

module _ {ℓ} {V : Type ℓ} where
  abbrev pub keep_if : (V → Bool) → Option V → Option V
  keep_if p none = none
  keep_if p (some v) = if p v then some v else none

  abbrev pub map_some : (V → V) → Option V → Option V
  map_some f none = none
  map_some f (some v) = some (f v)

  abbrev pub new_map : Map V
  new_map k = none

  -- `insert(k, v)`.
  abbrev pub insert : Text → V → Map V → Map V
  insert k v m j = if text_eq k j then some v else m j

  -- `if let Some(v) = get_mut(k) { *v = f(v) }`.
  abbrev pub alter : Text → (V → V) → Map V → Map V
  alter k f m j = if text_eq k j then map_some f (m j) else m j

  -- `retain(|_, v| p(v))`.
  abbrev pub retain : (V → Bool) → Map V → Map V
  retain p m j = keep_if p (m j)
