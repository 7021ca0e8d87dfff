-- ===== src/Api.antt =====
-- src/api.rs: the envelopes of the values that leave the program.
use shuttle_rs.Prelude.{
  ℕ, String, Option, none, some, List, [], ◌∷◌, Bool, false, leb, length, if◌then◌else◌,
}
use shuttle_rs.Crates.{Crates}

abbrev pub schema_version : String
schema_version = "shuttle.v1"

module _ (c : Crates) where
  open c use {
    Value, null, text, bool, number, object, array, get, as_array, is_object, insert_field,
  }

  -- A value that is no object.
  abbrev enclosed : Value → Option (List Value) → Value
  enclosed value none = object (("schema_version", text schema_version) ∷ ("value", value) ∷ [])
  enclosed value (some items) = object (
      ("schema_version", text schema_version)
      ∷ ("items", value)
      ∷ ("pagination", object (("returned", number (length items)) ∷ ("has_more", bool false) ∷ []))
      ∷ [])

  -- An object, with the version that it has already.
  abbrev marked : Value → Option Value → Value
  marked value none = insert_field value "schema_version" (text schema_version)
  marked value (some version) =
      object (("schema_version", text schema_version) ∷ ("value", value) ∷ [])

  -- It never fails.
  unfoldable pub versioned_value : Value → Value
  versioned_value value =
      if is_object value
      then marked value (get value "schema_version")
      else enclosed value (as_array value)

  unfoldable pub list : List Value → Option ℕ → Value
  list items limit = object (
      ("schema_version", text schema_version)
      ∷ ("items", array items)
      ∷ (
        "pagination",
        object (
            ("limit", elim limit [ none ↦ null | some n ↦ number n ])
            ∷ ("returned", number (length items))
            ∷ ("has_more", bool (elim limit [ none ↦ false | some n ↦ leb n (length items) ]))
            ∷ []),
      )
      ∷ [])

  unfoldable pub api_error : String → String → Bool → Value
  api_error code message retryable = object (
      ("schema_version", text schema_version)
      ∷ (
        "error",
        object
            (("code", text code) ∷ ("message", text message) ∷ ("retryable", bool retryable) ∷ []),
      )
      ∷ [])
