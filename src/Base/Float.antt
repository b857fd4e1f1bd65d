-- ===== src/Base/Float.antt =====
-- `f64` as an interface. There are no floats here: the operations are parameters, with the laws of
-- IEEE arithmetic that a proof uses as a second record. Methods of the standard library that are
-- defined by comparisons are defined here.
use Prim.Native.Nat.{ℕ}
use mathlib.Core.Bool.{Bool}
use galaxy_router.Base.Tests.{if◌then◌else◌}

pub record Floats : Type 1 where
  pub F : Type 0
  pub of_nat : ℕ → F  -- `n as f64`
  pub lit : ℕ → ℕ → F  -- the literal n / 10^k
  pub add : F → F → F
  pub sub : F → F → F
  pub mul : F → F → F
  pub div : F → F → F
  pub flt : F → F → Bool
  pub fle : F → F → Bool
  pub feq : F → F → Bool
  pub is_nan : F → Bool

module _ (fl : Floats) where
  open fl use {F, flt, is_nan}

  -- `f64::min` and `f64::max`: of a number and a NaN they return the number.
  unfoldable pub fmin : F → F → F
  fmin a b = if flt a b then a else if flt b a then b else if is_nan a then b else a

  unfoldable pub fmax : F → F → F
  fmax a b = if flt b a then a else if flt a b then b else if is_nan a then b else a

  -- `value.clamp(lo, hi)`.
  unfoldable pub clamp : F → F → F → F
  clamp lo hi v = if flt v lo then lo else if flt hi v then hi else v
