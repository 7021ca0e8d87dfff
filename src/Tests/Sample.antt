-- ===== src/Tests/Sample.antt =====
-- A model of the crates: JSON values as trees, an identifier's text as so many characters.
use Prim.Native.String.{count}
use package.text.Mathlib.TextLemmas.{length-cons}
use shuttle_rs.Prelude.{
  ℕ, zero, suc, String, ◌≡◌, refl, ap, ◌∙◌, Option, none, some, List, [], ◌∷◌, Bool, true, false,
  str_eq, map, or_else, if◌then◌else◌,
}
use shuttle_rs.Crates.{Crates, field}
use shuttle_rs.Workflow.Manifest.{WorkflowStep}
use shuttle_rs.Workflow.Project.{StepsCodec}

mutual
  pub data Json : Type 0 where
    null : Json
    bool : Bool → Json
    text : String → Json
    texts : List String → Json
    array : Items → Json
    number : ℕ → Json
    negative : ℕ → Json
    steps : List WorkflowStep → Json
    object : Fields → Json

  pub data Items : Type 0 where
    none_left : Items
    item : Json → Items → Items

  pub data Fields : Type 0 where
    end : Fields
    entry : String → Json → Fields → Fields

abbrev to_fields : List (String × Json) → Fields
to_fields [] = end
to_fields ((k, v) ∷ fields) = entry k v (to_fields fields)

abbrev to_items : List Json → Items
to_items [] = none_left
to_items (v ∷ items) = item v (to_items items)

abbrev field_of : String → Fields → Option Json
field_of k end = none
field_of k (entry j v fields) = or_else (field_of k fields) (if str_eq j k then some v else none)

abbrev add_field : String → Json → Fields → Fields
add_field k v end = entry k v end
add_field k v (entry j w fields) = entry j w (add_field k v fields)

abbrev pub get : Json → String → Option Json
get (object fields) k = field_of k fields
get _ k = none

abbrev pub as_text : Json → Option String
as_text (text s) = some s
as_text _ = none

abbrev as_bool : Json → Option Bool
as_bool (bool b) = some b
as_bool _ = none

abbrev of_items : Items → List Json
of_items none_left = []
of_items (item v items) = v ∷ of_items items

abbrev as_array : Json → Option (List Json)
as_array (array items) = some (of_items items)
as_array (texts l) = some (map text l)
as_array _ = none

abbrev as_u64 : Json → Option ℕ
as_u64 (number n) = some n
as_u64 _ = none

abbrev is_object : Json → Bool
is_object (object fields) = true
is_object _ = false

abbrev insert_field : Json → String → Json → Json
insert_field (object fields) k v = object (add_field k v fields)
insert_field j k v = j

abbrev pub ticks : ℕ → String
ticks zero = ""
ticks (suc n) = String.◌∷◌ "x" (ticks n)

count-ticks : (n : ℕ) → count (ticks n) ≡ n
count-ticks zero = refl
count-ticks (suc n) = length-cons "x" (ticks n) ∙ ap suc (count-ticks n)

pub field_of-to_fields :
    (fields : List (String × Json)) (k : String) → field_of k (to_fields fields) ≡ field k fields
unfolding field
field_of-to_fields [] k = refl
field_of-to_fields ((j, v) ∷ fields) k =
    ap (λ o. or_else o (if str_eq j k then some v else none)) (field_of-to_fields fields k)

field_of-add_field :
    (fields : Fields) (k j : String) (w : Json)
    → str_eq k j ≡ false
    → field_of j (add_field k w fields) ≡ field_of j fields
field_of-add_field end k j w h = rw h refl
field_of-add_field (entry i v fields) k j w h =
    ap (λ o. or_else o (if str_eq i j then some v else none)) (field_of-add_field fields k j w h)

pub get-insert_other :
    (v : Json) (k j : String) (w : Json) → str_eq k j ≡ false → get (insert_field v k w) j ≡ get v j
get-insert_other (object fields) k j w h = field_of-add_field fields k j w h
get-insert_other null k j w h = refl
get-insert_other (bool b) k j w h = refl
get-insert_other (text s) k j w h = refl
get-insert_other (texts l) k j w h = refl
get-insert_other (steps l) k j w h = refl
get-insert_other (array l) k j w h = refl
get-insert_other (number n) k j w h = refl
get-insert_other (negative n) k j w h = refl

pub parse-ticks : (n : ℕ) → some (count (ticks n)) ≡ some n
parse-ticks n = ap some (count-ticks n)

abbrev pub crates : Crates
crates = record {
  Value = Json;
  null = null;
  bool = bool;
  text = text;
  texts = texts;
  array = λ items. array (to_items items);
  number = number;
  negative = negative;
  object = λ fields. object (to_fields fields);
  get = get;
  as_str = as_text;
  as_bool = as_bool;
  as_array = as_array;
  as_u64 = as_u64;
  is_object = is_object;
  insert_field = insert_field;
  to_string = λ v. "";
  parse_str = λ s. some (count s);
  uuid_text = ticks;
  parse_error = λ s. "invalid uuid";
  get-object = field_of-to_fields;
  get-insert_other = get-insert_other;
  as_str-text = λ s. refl;
  parse-uuid_text = parse-ticks;
}

abbrev steps_of : Json → Option (List WorkflowStep)
steps_of (steps l) = some l
steps_of _ = none

abbrev pub codec : StepsCodec crates
codec = record {
  to_value = steps;
  from_value = steps_of;
  from_value_error = λ v. "invalid steps";
  from-to_value = λ l. refl;
}
