-- ===== src/OAuth/Operations.antt =====
-- The operations of src/oauth.rs as steps on the tables, and what each keeps of the tables when
-- the statements that it is made of keep it.
use mathlib.Core.List.{foldl}
use shuttle_rs.Prelude.{
  ℕ, String, ◌≡◌, refl, ◌≤◌, Option, none, some, List, [], ◌∷◌, Bool, true, All, arith, if_cases,
  unwrap_or,
}
use shuttle_rs.Core.{Result, ok, err, ShuttleError, reject_if}
use shuttle_rs.OAuth.Tables.{
  OAuthCrates, ClientRow, CodeRow, TokenRow, Db, Action, bind, ◌>>=◌, pure, lift, read, settle,
  transaction, Clock, purge, purge_expired, enforce_rate_limit, token, hash_token, grants_mcp,
  normalize_scope,
}
use shuttle_rs.Prelude.Texts.{sort_dedup}
use shuttle_rs.OAuth.Requests.{RegisterRequest, AuthorizeRequest, TokenRequest, validate_all}
use shuttle_rs.OAuth.Flow.{
  insert_client, insert_code, insert_token, create_token, register_client, client_allows_redirect,
  create_code, stored_code, use_code, redeem, exchange_code, validate_access_token,
  revoke_access_token, cleanup_expired,
}

pub data Operation : Type 0 where
  register : ℕ → Clock → RegisterRequest → Operation
  authorize : ℕ → Clock → AuthorizeRequest → Operation
  exchange : ℕ → Clock → TokenRequest → Operation
  validate : Clock → String → Operation
  revoke : ℕ → String → Operation
  cleanup : ℕ → Operation

-- The tables after an operation, whether it returns or fails.
unfoldable pub run : OAuthCrates → Db → Operation → Db
unfolding register_client create_code exchange_code validate_access_token revoke_access_token
    cleanup_expired
run c db (register id now request) = (register_client c id now request db).1
run c db (authorize id now request) = (create_code c id now request db).1
run c db (exchange id now request) = (exchange_code c id now request db).1
run c db (validate now bearer_token) = (validate_access_token c now bearer_token db).1
run c db (revoke now bearer_token) = (revoke_access_token c now bearer_token db).1
run c db (cleanup now) = (cleanup_expired c now db).1

unfoldable pub run_all : OAuthCrates → List Operation → Db → Db
unfolding run
run_all c operations db = foldl (run c) db operations

-- The code that an operation may add to the tables.
abbrev pub issued : OAuthCrates → Operation → Option String
issued c (authorize id now request) = some (token c id)
issued c _ = none

-- The digest of the token that an operation may add.
abbrev pub minted : OAuthCrates → Operation → Option String
minted c (exchange id now request) = some (hash_token c (token c id))
minted c _ = none

-- The tables are as `I` says, and so is what is returned, if anything.
abbrev pub Outcome : {A : Type 0} (I : Db → Type 0) (Q : A → Type 0) → Result A × Db → Type 0
Outcome I Q (ok a, db) = I db × Q a
Outcome I Q (err e, db) = I db

pub record Keeps {A : Type 0} (I : Db → Type 0) (Q : A → Type 0) (m : Action A) : Type 0 where
  pub step : (db : Db) → I db → Outcome I Q (m db)

module _ {A : Type 0} (I : Db → Type 0) (Q : A → Type 0) where
  pub Outcome-tables : (r : Result A × Db) → Outcome I Q r → I r.1
  Outcome-tables (ok a, db) h = h.0
  Outcome-tables (err e, db) h = h

  pub settle-Outcome :
      (before : Db) → I before → (r : Result A × Db) → Outcome I Q r → Outcome I Q (settle before r)
  settle-Outcome before h (ok a, db) k = k
  settle-Outcome before h (err e, db) k = h

  pub transaction-Keeps : {m : Action A} → Keeps I Q m → Keeps I Q (transaction m)
  unfolding transaction
  transaction-Keeps {m} h = record { step = λ db i. settle-Outcome db i (m db) (h.step db i) }

  lift-Outcome :
      (m : Result A) → ((a : A) → m ≡ ok a → Q a) → (db : Db) → I db → Outcome I Q (lift m db)
  unfolding lift
  lift-Outcome (ok a) h db i = (i, h a refl)
  lift-Outcome (err e) h db i = i

  -- A step whose result says `Q` of what it returns.
  pub lift-Keeps : {m : Result A} → ((a : A) → m ≡ ok a → Q a) → Keeps I Q (lift m)
  unfolding lift
  lift-Keeps {m} h = record { step = lift-Outcome m h }

module _ {A B : Type 0} (I : Db → Type 0) (Q : A → Type 0) (R : B → Type 0) where
  bind-Outcome :
      (f : A → Action B) (r : Result A × Db)
      → Outcome I Q r
      → ((a : A) → Q a → Keeps I R (f a))
      → Outcome I R (bind r f)
  bind-Outcome f (ok a, db) (i, q) k = (k a q).step db i
  bind-Outcome f (err e, db) h k = h

  pub bind-Keeps :
      {m : Action A} {f : A → Action B}
      → Keeps I Q m
      → ((a : A) → Q a → Keeps I R (f a))
      → Keeps I R (m >>= f)
  unfolding ◌>>=◌
  bind-Keeps {m} {f} h k = record { step = λ db i. bind-Outcome f (m db) (h.step db i) k }

-- `New` holds of the code that is issued, if any.
abbrev pub IsNew : (String → Type 0) → Option String → Type 0
IsNew New none = Unit
IsNew New (some code) = New code

abbrev pub Any : {A : Type 0} → A → Type 0
Any a = Unit

-- What the statements keep. `Scope` holds of the scopes in the table of codes, `New` of a code that
-- is added and `Made` of the digest of a token that is added.
pub record Statements (c : OAuthCrates) (I : Db → Type 0) (Scope New Made : String → Type 0)
    : Type 0 where
  pub purges : (now : ℕ) (db : Db) → I db → I (purge_expired now db)
  pub limits :
      (now : ℕ) (key : String) (max : ℕ) → max ≤ 30 → Keeps I Any (enforce_rate_limit now key max)
  pub clients :
      (row : ClientRow)
      → validate_all c row.redirect_uris ≡ ok tt
      → Keeps I Any (insert_client c row)
  pub codes :
      (row : CodeRow) → New row.code → grants_mcp row.scope ≡ true → Keeps I Any (insert_code c row)
  pub stored : (code : String) → Keeps I (λ row. Scope row.scope) (stored_code c code)
  pub uses : (code : String) (now : ℕ) → Keeps I Any (use_code c code now)
  pub tokens :
      (row : TokenRow) → Scope row.scope → Made row.token → Keeps I Any (insert_token c row)
  pub revokes : (now : ℕ) (bearer : String) → Keeps I Any (revoke_access_token c now bearer)

pub normalize_scope-grants_mcp : (scope : Option String) → grants_mcp (normalize_scope scope) ≡ true
unfolding normalize_scope
normalize_scope-grants_mcp scope =
    let wanted = unwrap_or scope "mcp" in
    if_cases (λ s. grants_mcp s ≡ true) (grants_mcp wanted) wanted "mcp" (λ h. h) (λ _. refl)

module _ (c : OAuthCrates) (I : Db → Type 0) (Scope New Made : String → Type 0)
    (s : Statements c I Scope New Made) where
  then_do :
      {A B : Type 0} {m : Action A} {f : A → Action B}
      → Keeps I Any m
      → ((a : A) → Keeps I Any (f a))
      → Keeps I Any (m >>= f)
  then_do h k = bind-Keeps I Any Any h (λ a _. k a)

  checked : (b : Bool) (e : ShuttleError) → Keeps I Any (lift (reject_if b e))
  checked b e = lift-Keeps I Any (λ _ _. tt)

  lifted : {A : Type 0} (m : Result A) → Keeps I Any (lift m)
  lifted m = lift-Keeps I Any (λ _ _. tt)

  purged : (now : ℕ) → Keeps I Any (purge now)
  unfolding purge
  purged now = record { step = λ db i. (s.purges now db i, tt) }

  returned : {A : Type 0} (a : A) → Keeps I Any (pure a)
  unfolding pure
  returned a = record { step = λ db i. (i, tt) }

  looked_up : {A : Type 0} (f : Db → A) → Keeps I Any (read f)
  unfolding read
  looked_up f = record { step = λ db i. (i, tt) }

  register_client-Keeps :
      (id : ℕ) (now : Clock) (request : RegisterRequest)
      → Keeps I Any (register_client c id now request)
  unfolding register_client
  register_client-Keeps id now request = then_do (checked _ _) λ _.
      bind-Keeps I (λ _. validate_all c (sort_dedup request.redirect_uris) ≡ ok tt) Any
        (lift-Keeps I _ (λ a h. h))
        λ _ valid. then_do (purged (now 0)) λ _.
          then_do (s.limits (now 1) "registration" 30 (omega arith))
            λ _. then_do (s.clients _ valid) λ _. returned _

  client_allows_redirect-Keeps : (id uri : String) → Keeps I Any (client_allows_redirect c id uri)
  unfolding client_allows_redirect
  client_allows_redirect-Keeps id uri = then_do (lifted _) λ _. looked_up _

  create_code-Keeps :
      (id : ℕ) (now : Clock) (request : AuthorizeRequest)
      → New (token c id)
      → Keeps I Any (create_code c id now request)
  unfolding create_code
  create_code-Keeps id now request new = then_do (checked _ _) λ _.
      then_do (client_allows_redirect-Keeps request.client_id request.redirect_uri) λ _.
        then_do (checked _ _) λ _. then_do (checked _ _) λ _. then_do (lifted _) λ _.
          then_do (lifted _) λ _. then_do (purged (now 1)) λ _.
            then_do (s.limits (now 2) _ 30 (omega arith)) λ _.
              then_do (s.codes _ new (normalize_scope-grants_mcp request.scope)) λ _. returned _

  redeem-Keeps :
      (id : ℕ) (now : Clock) (code verifier : String) (request : TokenRequest)
      → Made (hash_token c (token c id))
      → Keeps I Any (redeem c id now code verifier request)
  unfolding redeem create_token
  redeem-Keeps id now code verifier request made =
      bind-Keeps I (λ row. Scope row.scope) Any (s.stored code)
        λ row scope. then_do (checked _ _) λ _. then_do (checked _ _) λ _.
          then_do (checked _ _) λ _.
            then_do (checked _ _) λ _.
              then_do (s.uses code (now 3)) λ _. then_do (s.tokens _ scope made) λ _. returned _

  exchange_code-Keeps :
      (id : ℕ) (now : Clock) (request : TokenRequest)
      → Made (hash_token c (token c id))
      → Keeps I Any (exchange_code c id now request)
  unfolding exchange_code
  exchange_code-Keeps id now request made = then_do (checked _ _) λ _. then_do (lifted _) λ code.
      then_do (lifted _) λ verifier. then_do (purged (now 0)) λ _.
        then_do (s.limits (now 1) _ 20 (omega arith))
          λ _. transaction-Keeps I Any (redeem-Keeps id now code verifier request made)

  pub run-Keeps :
      (db : Db) (op : Operation)
      → IsNew New (issued c op)
      → IsNew Made (minted c op)
      → I db
      → I (run c db op)
  unfolding run validate_access_token cleanup_expired
  run-Keeps db (register id now request) new made i =
      Outcome-tables I Any _ ((register_client-Keeps id now request).step db i)
  run-Keeps db (authorize id now request) new made i =
      Outcome-tables I Any _ ((create_code-Keeps id now request new).step db i)
  run-Keeps db (exchange id now request) new made i =
      Outcome-tables I Any _ ((exchange_code-Keeps id now request made).step db i)
  run-Keeps db (validate now bearer_token) new made i =
      Outcome-tables I Any _ ((then_do (purged (now 0)) λ _. looked_up _).step db i)
  run-Keeps db (revoke now bearer_token) new made i =
      Outcome-tables I Any (revoke_access_token c now bearer_token db)
        ((s.revokes now bearer_token).step db i)
  run-Keeps db (cleanup now) new made i = Outcome-tables I Any _ ((purged now).step db i)

  -- What the statements keep, every sequence of operations keeps.
  pub run_all-Keeps :
      (operations : List Operation) (db : Db)
      → All (λ op. IsNew New (issued c op) × IsNew Made (minted c op)) operations
      → I db
      → I (run_all c operations db)
  unfolding run_all
  run_all-Keeps [] db new i = i
  run_all-Keeps (op ∷ operations) db new i =
      run_all-Keeps operations (run c db op) new.1 (run-Keeps db op new.0.0 new.0.1 i)
