-- ===== src/OAuth/Tokens.antt =====
-- The access tokens of src/oauth.rs: a token is accepted until it expires, and never once revoked.
use shuttle_rs.Prelude.{
  ℕ, String, ◌≡◌, ◌≢◌, refl, ap, ◌≤◌, ◌<◌, Option, none, some, List, [], ◌∷◌, true, false, All,
  All-map, All-retain, All-append, arith, str_eq_iff, ltb, any, map, find, retain, is_some, ◌+◌,
  ◌*◌, Option-cases, inl, inr,
}
use shuttle_rs.Core.{ok}
use shuttle_rs.OAuth.Tables.{
  OAuthCrates, CodeRow, TokenRow, Db, ◌>>=◌, read, purge, Clock, second, purge_expired,
  enforce_rate_limit, hash_token, lives, token_lives, grants_mcp,
}
use shuttle_rs.OAuth.Requests.{TokenRequest, TokenResponse}
use shuttle_rs.OAuth.Chains.{any-retain, any-append, find-retain}
use shuttle_rs.OAuth.Flow.{
  insert_client, insert_code, insert_token, stored_code, stored_row, use_code, exchange_code,
  validate_access_token, revoke_access_token, has_token, is_unused, is_unrevoked, mark_used,
  mark_revoked,
}
use shuttle_rs.OAuth.Operations.{
  Operation, run_all, issued, minted, IsNew, Any, Outcome, Statements, run_all-Keeps,
}
use shuttle_rs.OAuth.Codes.{token_row, exchange_code_sound}

any-revoked :
    (digest : String) (now : ℕ) (rows : List TokenRow)
    → any (is_unrevoked digest) (map (mark_revoked digest now) rows) ≡ false
any-revoked digest now [] = refl
any-revoked digest now (row ∷ rows) = ground (arith, any-revoked digest now rows)

any-mark_revoked :
    (digest other : String) (now : ℕ) (rows : List TokenRow)
    → any (is_unrevoked digest) rows ≡ false
    → any (is_unrevoked digest) (map (mark_revoked other now) rows) ≡ false
any-mark_revoked digest other now [] h = refl
any-mark_revoked digest other now (row ∷ rows) h =
    ground (arith, any-mark_revoked digest other now rows)

-- The row that a token is looked up at is revoked when all of its rows are.
found_revoked :
    (digest : String) (rows : List TokenRow) {row : TokenRow}
    → any (is_unrevoked digest) rows ≡ false
    → find (has_token digest) rows ≡ some row
    → is_some row.revoked_at ≡ true
found_revoked digest [] h k = cc
found_revoked digest (r ∷ rows) {row} h k = ground (arith, found_revoked digest rows {row = row})

module _ (c : OAuthCrates) (bearer_token : String) where
  abbrev IsRevoked : Db → Type 0
  IsRevoked db = any (is_unrevoked (hash_token c bearer_token)) db.oauth_tokens ≡ false

  -- No statement makes a revoked token valid, except when a new row has the same digest.
  IsRevoked-statements : Statements c IsRevoked Any Any (λ made. made ≢ hash_token c bearer_token)
  unfolding purge_expired enforce_rate_limit insert_client insert_code stored_code use_code
      insert_token revoke_access_token
  IsRevoked-statements = record {
    purges = λ now db i.
        any-retain (is_unrevoked (hash_token c bearer_token)) (token_lives now) db.oauth_tokens i;
    limits = λ now key max bound. record { step = λ db i. ground arith };
    clients = λ row valid. record { step = λ db i. ground arith };
    codes = λ row new scope. record { step = λ db i. ground arith };
    stored = λ code. record { step = λ db i. ground arith };
    uses = λ code now. record { step = λ db i. (i, tt) };
    tokens = λ row scope made. record {
      step = λ db i. ground (
        arith,
        str_eq_iff row.token (hash_token c bearer_token),
        any-append (is_unrevoked (hash_token c bearer_token)) db.oauth_tokens row,
      );
    };
    revokes = λ now other. record {
      step = λ db i. (
        any-mark_revoked (hash_token c bearer_token) (hash_token c other) now db.oauth_tokens i,
        tt,
      );
    };
  }

  unminted :
      (op : Operation)
      → minted c op ≢ some (hash_token c bearer_token)
      → IsNew Any (issued c op) × IsNew (λ made. made ≢ hash_token c bearer_token) (minted c op)
  unminted (Operation.exchange id now request) h = (tt, λ e. h (ap some e))
  unminted (Operation.authorize id now request) h = (tt, tt)
  unminted _ h = (tt, tt)

  rejected :
      (now : Clock) (db : Db)
      → IsRevoked db
      → (validate_access_token c now bearer_token db).0 ≡ ok false
  unfolding validate_access_token purge read ◌>>=◌ purge_expired
  rejected now db revoked =
      let rows = retain (token_lives (now 0)) db.oauth_tokens in
      let still =
        any-retain (is_unrevoked (hash_token c bearer_token)) (token_lives (now 0)) db.oauth_tokens
          revoked in
      elim (Option-cases (find (has_token (hash_token c bearer_token)) rows)) [
        | inl h ↦ ground arith
        | inr (row, h) ↦
            let seen = found_revoked (hash_token c bearer_token) rows still h in ground arith
      ]

  -- A revoked token is invalid, whatever operations follow and at whatever times, as long as the
  -- server does not issue a token with the same digest.
  pub revoked_stays_invalid :
      (at : ℕ) (db : Db) (operations : List Operation)
      → All (λ op. minted c op ≢ some (hash_token c bearer_token)) operations
      → (now : Clock)
      → (validate_access_token c now bearer_token
          (run_all c operations (revoke_access_token c at bearer_token db).1)).0
        ≡ ok false
  unfolding revoke_access_token
  revoked_stays_invalid at db operations new now = rejected now _ (
      run_all-Keeps c IsRevoked Any Any (λ made. made ≢ hash_token c bearer_token)
        IsRevoked-statements operations (revoke_access_token c at bearer_token db).1
        (All-map _ _ unminted operations new)
        (any-revoked (hash_token c bearer_token) at db.oauth_tokens))

-- The tables of a new database.
abbrev pub empty_db : Db
empty_db = record {
  oauth_clients = [];
  oauth_codes = [];
  oauth_tokens = [];
  oauth_rate_limits = [];
}

Grants : CodeRow → Type 0
Grants row = grants_mcp row.scope ≡ true

abbrev AllGrant : Db → Type 0
AllGrant db = All Grants db.oauth_codes

module _ (c : OAuthCrates) where
  Grants-mark_used :
      (code : String) (now : ℕ) (rows : List CodeRow)
      → All Grants rows
      → All Grants (map (mark_used code now) rows)
  unfolding Grants
  Grants-mark_used code now [] h = tt
  Grants-mark_used code now (row ∷ rows) h = (ground arith, Grants-mark_used code now rows h.1)

  found-Grants :
      (code : String) (rows : List CodeRow) {row : CodeRow}
      → All Grants rows
      → find (is_unused code) rows ≡ some row
      → Grants row
  unfolding Grants
  found-Grants code [] h k = cc
  found-Grants code (r ∷ rows) {row} h k = ground (arith, found-Grants code rows {row = row})

  stored-Grants :
      (code : String) (db : Db) → AllGrant db → Outcome AllGrant Grants (stored_code c code db)
  unfolding stored_code
  stored-Grants code db i =
      go (find (is_unused code) db.oauth_codes) (λ row h. found-Grants code db.oauth_codes i h)
    where
      go :
          (o : Option CodeRow)
          → ((row : CodeRow) → o ≡ some row → Grants row)
          → Outcome AllGrant Grants (stored_row c code db o)
      go none h = i
      go (some row) h = (i, h row refl)

  -- The statements keep every scope in the table of codes one that grants access to the endpoint.
  granting_statements : Statements c AllGrant (λ scope. grants_mcp scope ≡ true) Any Any
  unfolding Grants purge_expired enforce_rate_limit insert_client insert_code stored_code use_code
      insert_token revoke_access_token
  granting_statements = record {
    purges = λ now db i. All-retain Grants (lives now) db.oauth_codes i;
    limits = λ now key max bound. record { step = λ db i. ground arith };
    clients = λ row valid. record { step = λ db i. ground arith };
    codes = λ row new scope. record {
      step = λ db i.
          let more = All-append Grants db.oauth_codes (row ∷ []) i (scope, tt) in grind arith;
    };
    stored = λ code. record { step = stored-Grants code };
    uses = λ code now. record { step = λ db i. (Grants-mark_used code now db.oauth_codes i, tt) };
    tokens = λ row scope made. record { step = λ db i. ground arith };
    revokes = λ now bearer. record { step = λ db i. (i, tt) };
  }

  anything :
      (operations : List Operation)
      → All (λ op. IsNew Any (issued c op) × IsNew Any (minted c op)) operations
  anything [] = tt
  anything (Operation.authorize id now request ∷ operations) = ((tt, tt), anything operations)
  anything (Operation.exchange id now request ∷ operations) = ((tt, tt), anything operations)
  anything (Operation.register id now request ∷ operations) = ((tt, tt), anything operations)
  anything (Operation.validate now bearer ∷ operations) = ((tt, tt), anything operations)
  anything (Operation.revoke now bearer ∷ operations) = ((tt, tt), anything operations)
  anything (Operation.cleanup now ∷ operations) = ((tt, tt), anything operations)

  -- A token that a server issues, after any operations on a new database, is valid in the tables that
  -- its exchange leaves, at every reading of the clock until an hour after its issue.
  pub issued_token_valid :
      (operations : List Operation) (id : ℕ) (now : Clock) (request : TokenRequest)
      {response : TokenResponse} {after : Db}
      → exchange_code c id now request (run_all c operations empty_db) ≡ (ok response, after)
      → (later : Clock) → later 0 ≤ now 4 + 3600 * second
      → later 1 < now 4 + 3600 * second
      → (validate_access_token c later response.access_token after).0 ≡ ok true
  unfolding validate_access_token purge read ◌>>=◌ purge_expired Grants
  issued_token_valid operations id now request {response} {after} h later within before =
      let all =
        run_all-Keeps c AllGrant (λ scope. grants_mcp scope ≡ true) Any Any granting_statements
          operations empty_db (anything operations) tt in
      let (code, redeemed, spent) = exchange_code_sound c id now request _ h in
      let scope = found-Grants code _ (All-retain Grants (lives (now 0)) _ all) redeemed.unused in
      let row =
        token_row c response.access_token (now 4) redeemed.row.client_id redeemed.row.scope in
      let lives : token_lives (later 0) row ≡ true = ground arith in
      let current : ltb (later 1) (now 4 + 3600 * second) ≡ true = ground arith in
      let kept =
        find-retain (has_token (hash_token c response.access_token)) (token_lives (later 0))
          after.oauth_tokens {x = row} redeemed.made lives in
      rw kept (rw scope (rw current refl))
