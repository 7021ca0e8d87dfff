-- ===== src/Core.antt =====
-- src/core.rs: the event model, the filter of a store, the errors and the store's interface.
-- `DateTime<Utc>` and `Uuid` are numbers (see Crates.antt).
use shuttle_rs.Prelude.{
  ℕ, String, ◌≡◌, refl, Option, none, some, List, [], Bool, true, false, str_eq, str_eq_iff,
  if◌then◌else◌, arith, ◌&◌, ◌↔◌, subst, ◌⊎◌, inl, inr,
}

pub data EventType : Type 0 where
  message memory decision task handoff observation pattern fact bug artifact workflow : EventType

pub EventType-discrete : Discrete EventType
EventType-discrete = hlevel

pub data ShuttleError : Type 0 where
  invalid_event_type : String → ShuttleError
  store : String → ShuttleError
  serialization : String → ShuttleError

-- `Display for ShuttleError`
unfoldable pub error_text : ShuttleError → String
error_text (invalid_event_type value) = "invalid event type: " & value
error_text (store details) = "store error: " & details
error_text (serialization details) = "serialization error: " & details

pub data Result {κ} (Value : Type κ) : Type κ where
  err : ShuttleError → Result Value
  ok : Value → Result Value

-- `?` hands an error on; `>>` is a check, whose value is the unit.
infixl 5 ◌>>=◌ ◌>>◌
abbrev pub ◌>>=◌ {κ μ} :
    {Value : Type κ} {Next : Type μ} → Result Value → (Value → Result Next) → Result Next
err failure >>= rest = err failure
ok value >>= rest = rest value

abbrev pub ◌>>◌ {μ} : {Next : Type μ} → Result (Unit {0}) → Result Next → Result Next
check >> rest = check >>= λ passed. rest

-- `option.ok_or_else(|| error)`
abbrev pub ok_or {ℓ} : {A : Type ℓ} → Option A → ShuttleError → Result A
ok_or none e = err e
ok_or (some a) e = ok a

-- `result.ok()`
abbrev pub ok_value {ℓ} : {A : Type ℓ} → Result A → Option A
ok_value (err e) = none
ok_value (ok a) = some a

-- `if failing { return Err(error); }`
abbrev pub reject_if : Bool → ShuttleError → Result (Unit {0})
reject_if b e = if b then err e else ok tt

-- Inversions: what a successful chain, check or lookup says of its parts.
pub >>=-eq-ok {κ μ} :
    {Value : Type κ} {Next : Type μ} (first : Result Value) (rest : Value → Result Next)
    {end : Next}
    → (first >>= rest) ≡ ok end
    → (value : Value) × (first ≡ ok value) × (rest value ≡ ok end)
>>=-eq-ok (err failure) rest h = cc
>>=-eq-ok (ok value) rest h = (value, refl, h)

pub Result-cases {κ} :
    {V : Type κ} (r : Result V) → ((e : ShuttleError) × (r ≡ err e)) ⊎ ((v : V) × (r ≡ ok v))
Result-cases (err e) = inl (e, refl)
Result-cases (ok v) = inr (v, refl)

pub reject_if-eq-ok :
    (b : Bool) (e : ShuttleError) {u : Unit {0}} → reject_if b e ≡ ok u → b ≡ false
reject_if-eq-ok true e h = cc
reject_if-eq-ok false e h = refl

pub ok_or-eq-ok {ℓ} :
    {A : Type ℓ} (o : Option A) (e : ShuttleError) {a : A} → ok_or o e ≡ ok a → o ≡ some a
ok_or-eq-ok none e h = cc
ok_or-eq-ok (some b) e h = cc

unfoldable pub as_str : EventType → String
as_str message = "message"
as_str memory = "memory"
as_str decision = "decision"
as_str task = "task"
as_str handoff = "handoff"
as_str observation = "observation"
as_str pattern = "pattern"
as_str fact = "fact"
as_str bug = "bug"
as_str artifact = "artifact"
as_str workflow = "workflow"

-- The arms of the `match` in order; a literal pattern is a comparison.
unfoldable pub try_from : String → Result EventType
try_from value =
    if str_eq value "message"
    then ok message
    else if str_eq value "memory"
    then ok memory
    else if str_eq value "decision"
    then ok decision
    else if str_eq value "task"
    then ok task
    else if str_eq value "handoff"
    then ok handoff
    else if str_eq value "observation"
    then ok observation
    else if str_eq value "pattern"
    then ok pattern
    else if str_eq value "fact"
    then ok fact
    else if str_eq value "bug"
    then ok bug
    else if str_eq value "artifact"
    then ok artifact
    else if str_eq value "workflow"
    then ok workflow
    else err (invalid_event_type value)

-- `V` is the type of JSON values.
pub record Event (V : Type 0) : Type 0 where
  pub id : ℕ
  pub event_type : EventType
  pub workspace_id : String
  pub repo_id : Option String
  pub repo_path : Option String
  pub git_remote : Option String
  pub bit_repo_id : Option String
  pub branch : Option String
  pub commit : Option String
  pub repo_dirty : Option Bool
  pub agent : String
  pub session_id : String
  pub title : Option String
  pub content : String
  pub tags : List String
  pub metadata_json : V
  pub created_at : ℕ

pub record NewEvent (V : Type 0) : Type 0 where
  pub event_type : EventType
  pub workspace_id : String
  pub repo_id : Option String
  pub repo_path : Option String
  pub git_remote : Option String
  pub bit_repo_id : Option String
  pub branch : Option String
  pub commit : Option String
  pub repo_dirty : Option Bool
  pub agent : String
  pub session_id : String
  pub title : Option String
  pub content : String
  pub tags : List String
  pub metadata_json : V

-- What `Uuid::new_v4()` and `Utc::now()` return at a call.
pub record Stamp : Type 0 where
  pub new_id : ℕ
  pub now : ℕ

unfoldable pub new_event : {V : Type 0} → Stamp → NewEvent V → Event V
new_event stamp input = record {
  id = stamp.new_id;
  event_type = input.event_type;
  workspace_id = input.workspace_id;
  repo_id = input.repo_id;
  repo_path = input.repo_path;
  git_remote = input.git_remote;
  bit_repo_id = input.bit_repo_id;
  branch = input.branch;
  commit = input.commit;
  repo_dirty = input.repo_dirty;
  agent = input.agent;
  session_id = input.session_id;
  title = input.title;
  content = input.content;
  tags = input.tags;
  metadata_json = input.metadata_json;
  created_at = stamp.now;
}

pub record EventFilter : Type 0 where
  pub id : Option ℕ
  pub event_type : Option EventType
  pub workspace_id : Option String
  pub agent : Option String
  pub recipient : Option String
  pub tag : Option String
  pub tags : List String
  pub query : Option String
  pub limit : Option ℕ

-- `EventFilter::default()`
abbrev pub default_filter : EventFilter
default_filter = record {
  id = none;
  event_type = none;
  workspace_id = none;
  agent = none;
  recipient = none;
  tag = none;
  tags = [];
  query = none;
  limit = none;
}

abbrev pub u32_max : ℕ
u32_max = 4_294_967_295

-- The trait: a store is used through these two, at a state of type `S`.
pub record EventStore (S V : Type 0) : Type 0 where
  pub append : Event V → S → Result (Event V × S)
  pub list : EventFilter → S → Result (List (Event V))

try_from-as_str : (t : EventType) → try_from (as_str t) ≡ ok t
unfolding try_from as_str
try_from-as_str message = refl
try_from-as_str _ = refl

-- One arm of the `match`: either it is taken, or a later arm gives the result.
arm :
    (s : String) (name : String) (t u : EventType) (rest : Result EventType)
    → as_str t ≡ name
    → (rest ≡ ok u → as_str u ≡ s)
    → (if str_eq s name then ok t else rest) ≡ ok u
    → as_str u ≡ s
arm s name t u rest e later h = ground (arith, str_eq_iff s name, later)

as_str-try_from : (s : String) (t : EventType) → try_from s ≡ ok t → as_str t ≡ s
unfolding try_from as_str
as_str-try_from s t = arm s "message" message t _ refl (
    arm s "memory" memory t _ refl (
      arm s "decision" decision t _ refl (
        arm s "task" task t _ refl (
          arm s "handoff" handoff t _ refl (
            arm s "observation" observation t _ refl (
              arm s "pattern" pattern t _ refl (
                arm s "fact" fact t _ refl (
                  arm s "bug" bug t _ refl (
                    arm s "artifact" artifact t _ refl
                      (arm s "workflow" workflow t _ refl (λ h. cc)))))))))))

-- A text is read as an event type exactly when it is the text that the type is written as.
pub try_from_iff : (s : String) (t : EventType) → (try_from s ≡ ok t) ↔ (as_str t ≡ s)
try_from_iff s t = (as_str-try_from s t, λ e. subst (λ x. try_from x ≡ ok t) e (try_from-as_str t))
