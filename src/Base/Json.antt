-- ===== src/Base/Json.antt =====
-- A `serde_json::Value`, as far as the router looks into one. The parser is not part of the
-- repository, and is a parameter where it is used.
use mathlib.Core.Bool.{Bool}
use mathlib.Core.Option.{Option, none, some}
use galaxy_router.Base.Tests.{if◌then◌else◌}
use galaxy_router.Base.Int.{ℤ}
use galaxy_router.Base.Texts.{Text, text_eq}

mutual
  pub data Value : Type 0 where
    null : Value
    bool : Bool → Value
    int : ℤ → Value
    string : Text → Value
    array : Values → Value
    object : Fields → Value

  pub data Values : Type 0 where
    nil : Values
    cons : Value → Values → Values

  pub data Fields : Type 0 where
    end : Fields
    field : Text → Value → Fields → Fields

unfoldable pub lookup : Text → Fields → Value
lookup k end = null
lookup k (field j v fs) = if text_eq j k then v else lookup k fs

-- `v[k]`: null when the value is no object or has no such key.
unfoldable pub index : Value → Text → Value
unfolding lookup
index (object fs) k = lookup k fs
index _ k = null

abbrev pub as_str : Value → Option Text
as_str (string s) = some s
as_str _ = none
