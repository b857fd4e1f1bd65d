-- ===== src/Service/Redaction/Clean.antt =====
-- What redaction leaves of a value (redaction.rs, redact_value).
use galaxy_router.Base.{◌≡◌, refl, sym, ap, Bool, true, false, if◌then◌else◌, Text}
use galaxy_router.Base.Json.{Value}
use galaxy_router.Base.Json.{
  Value, null, bool, int, string, array, object, Values, nil, cons, Fields, end, field,
}
use galaxy_router.Service.Redaction.{
  redacted, is_sensitive_key, redact_value, redact_fields, redact_items,
}

abbrev FieldClean : Type 0 → Value → Bool → Type 0
FieldClean Inner value true = value ≡ string redacted
FieldClean Inner value false = Inner

-- Every field with a sensitive key, at any depth, holds the mark.
unfoldable mutual
  pub IsClean : (Text → Text) → Value → Type 0
  IsClean lc (object fields) = FieldsClean lc fields
  IsClean lc (array items) = ItemsClean lc items
  IsClean lc null = Unit
  IsClean lc (bool b) = Unit
  IsClean lc (int i) = Unit
  IsClean lc (string s) = Unit

  ItemsClean : (Text → Text) → Values → Type 0
  ItemsClean lc nil = Unit
  ItemsClean lc (cons item items) = IsClean lc item × ItemsClean lc items

  FieldsClean : (Text → Text) → Fields → Type 0
  FieldsClean lc end = Unit
  FieldsClean lc (field key value fields) =
      FieldClean (IsClean lc value) value (is_sensitive_key lc key) × FieldsClean lc fields

FieldClean-mark :
    (Inner : Value → Type 0) (value : Value) (sensitive : Bool)
    → Inner value
    → (let kept : Value = if sensitive then string redacted else value in
        FieldClean (Inner kept) kept sensitive)
FieldClean-mark Inner value true h = refl
FieldClean-mark Inner value false h = h

mutual
  unfolding redact_value IsClean

  redacted_value : (lc : Text → Text) (v : Value) → IsClean lc (redact_value lc v)
  redacted_value lc (object fields) = redacted_fields lc fields
  redacted_value lc (array items) = redacted_items lc items
  redacted_value lc null = tt
  redacted_value lc (bool b) = tt
  redacted_value lc (int i) = tt
  redacted_value lc (string s) = tt

  redacted_items : (lc : Text → Text) (vs : Values) → ItemsClean lc (redact_items lc vs)
  redacted_items lc nil = tt
  redacted_items lc (cons item items) = (redacted_value lc item, redacted_items lc items)

  redacted_fields : (lc : Text → Text) (fs : Fields) → FieldsClean lc (redact_fields lc fs)
  redacted_fields lc end = tt
  redacted_fields lc (field key value fields) = (
    FieldClean-mark (IsClean lc) (redact_value lc value) (is_sensitive_key lc key)
        (redacted_value lc value),
    redacted_fields lc fields,
  )

kept_mark :
    (Inner : Type 0) (value kept : Value) (sensitive : Bool)
    → FieldClean Inner value sensitive
    → (Inner → kept ≡ value)
    → (if sensitive then string redacted else kept) ≡ value
kept_mark Inner value kept true h same = sym h
kept_mark Inner value kept false h same = same h

mutual
  unfolding redact_value IsClean

  clean_value : (lc : Text → Text) (v : Value) → IsClean lc v → redact_value lc v ≡ v
  clean_value lc (object fields) h = ap object (clean_fields lc fields h)
  clean_value lc (array items) h = ap array (clean_items lc items h)
  clean_value lc null h = refl
  clean_value lc (bool b) h = refl
  clean_value lc (int i) h = refl
  clean_value lc (string s) h = refl

  clean_items : (lc : Text → Text) (vs : Values) → ItemsClean lc vs → redact_items lc vs ≡ vs
  clean_items lc nil h = refl
  clean_items lc (cons item items) (h, hs) =
      rw (clean_value lc item h, clean_items lc items hs) refl

  clean_fields : (lc : Text → Text) (fs : Fields) → FieldsClean lc fs → redact_fields lc fs ≡ fs
  clean_fields lc end h = refl
  clean_fields lc (field key value fields) (h, hs) =
      rw
        (
          kept_mark (IsClean lc value) value (redact_value lc value) (is_sensitive_key lc key) h
              (clean_value lc value),
          clean_fields lc fields hs,
        )
        refl

-- After redaction every field with a sensitive key, at any depth, holds the mark; a value of
-- which that holds already is unchanged; and so a second redaction changes nothing.
pub redact_value-IsClean :
    (lc : Text → Text) (v : Value)
    → IsClean lc (redact_value lc v)
      × (IsClean lc v → redact_value lc v ≡ v)
      × (redact_value lc (redact_value lc v) ≡ redact_value lc v)
redact_value-IsClean lc v = (
  redacted_value lc v,
  clean_value lc v,
  clean_value lc (redact_value lc v) (redacted_value lc v),
)
