-- ===== src/Crates.antt =====
-- The crates that the program links and that are not part of its repository: uuid and serde_json.
-- An identifier is the number that a `Uuid` stands for, and an instant (`DateTime<Utc>`) is the
-- number of nanoseconds since an epoch. JSON values are abstract: the model uses the operations
-- and the documented laws below, and nothing else.
use shuttle_rs.Prelude.{
  ℕ, String, ◌≡◌, Option, none, some, List, [], ◌∷◌, str_eq, if◌then◌else◌, or_else, Bool, false,
}

-- The value of a key in an object literal: of two fields with one key the later counts.
unfoldable pub field {ℓ} : {V : Type ℓ} → String → List (String × V) → Option V
field k [] = none
field k ((j, v) ∷ fields) = or_else (field k fields) (if str_eq j k then some v else none)

pub record Crates : Type 1 where
  -- `serde_json::Value`
  pub Value : Type 0
  pub null : Value
  pub bool : Bool → Value
  pub text : String → Value
  pub texts : List String → Value
  pub array : List Value → Value
  -- a number, and the negative of a number
  pub number : ℕ → Value
  pub negative : ℕ → Value
  -- `json!({ .. })`
  pub object : List (String × Value) → Value
  -- `value.get(key)`; `value[key]` is this with `null` for a missing key
  pub get : Value → String → Option Value
  pub as_str : Value → Option String
  pub as_bool : Value → Option Bool
  pub as_array : Value → Option (List Value)
  -- the number of `as_u64`
  pub as_u64 : Value → Option ℕ
  pub is_object : Value → Bool
  -- `if let Some(map) = value.as_object_mut() { map.insert(key, v) }`
  pub insert_field : Value → String → Value → Value
  -- `value.to_string()`
  pub to_string : Value → String
  -- `Uuid::parse_str` and `Display for Uuid`
  pub parse_str : String → Option ℕ
  pub uuid_text : ℕ → String
  -- the text of the error of `Uuid::parse_str`
  pub parse_error : String → String
  pub get-object :
      (fields : List (String × Value)) (k : String) → get (object fields) k ≡ field k fields
  -- an entry is looked up past the insertion of another
  pub get-insert_other :
      (v : Value) (k j : String) (w : Value)
      → str_eq k j ≡ false
      → get (insert_field v k w) j ≡ get v j
  pub as_str-text : (s : String) → as_str (text s) ≡ some s
  pub parse-uuid_text : (id : ℕ) → parse_str (uuid_text id) ≡ some id
