-- ===== src/OAuth/Codes.antt =====
-- The authorization codes of src/oauth.rs: what a redemption checks, and that it is the only one.
use shuttle_rs.Prelude.{
  ℕ, String, ◌≡◌, ◌≢◌, refl, sym, ap, ◌∙◌, Option, none, some, List, [], ◌∷◌, Bool, true, false,
  All, arith, str_eq, str_eq_iff, ltb, any, map, find, retain, ◌+◌, ◌*◌, ◌&◌, not-eq-false, subst,
  All-map,
}
use shuttle_rs.Core.{ok, ok_or-eq-ok}
use shuttle_rs.OAuth.Tables.{
  OAuthCrates, CodeRow, TokenRow, Db, ◌>>=◌, pure, transaction, purge, Clock, purge_expired,
  enforce_rate_limit, token, hash_token, pkce_s256, lives, second,
}
use shuttle_rs.OAuth.Chains.{
  any-retain, any-append, any-find, find-append, >>=-eq-ok, lift-eq-ok, check-eq-ok, settle-eq-ok,
}
use shuttle_rs.OAuth.Requests.{TokenRequest, TokenResponse}
use shuttle_rs.OAuth.Flow.{
  insert_client, insert_code, insert_token, create_token, stored_code, use_code, redeem,
  exchange_code, revoke_access_token, is_unused, has_token, mark_used,
}
use shuttle_rs.OAuth.Operations.{
  Operation, run_all, issued, minted, IsNew, Any, Statements, run_all-Keeps,
}

-- Whether a row of the table can still be exchanged for a token.
unfoldable pub redeemable : String → Db → Bool
redeemable code db = any (is_unused code) db.oauth_codes

any-mark_used :
    (code other : String) (now : ℕ) (rows : List CodeRow)
    → any (is_unused code) rows ≡ false
    → any (is_unused code) (map (mark_used other now) rows) ≡ false
any-mark_used code other now [] h = refl
any-mark_used code other now (row ∷ rows) h = ground (arith, any-mark_used code other now rows)

any-used :
    (code : String) (now : ℕ) (rows : List CodeRow)
    → any (is_unused code) (map (mark_used code now) rows) ≡ false
any-used code now [] = refl
any-used code now (row ∷ rows) = ground (arith, any-used code now rows)

module _ (c : OAuthCrates) (code : String) where
  -- The statements never make a code redeemable, except when a new row has the same code.
  spent_statements : Statements c (λ db. redeemable code db ≡ false) Any (λ new. new ≢ code) Any
  unfolding redeemable purge_expired enforce_rate_limit insert_client insert_code stored_code
      use_code insert_token revoke_access_token
  spent_statements = record {
    purges = λ now db i. any-retain (is_unused code) (lives now) db.oauth_codes i;
    limits = λ now key max bound. record { step = λ db i. ground arith };
    clients = λ row valid. record { step = λ db i. ground arith };
    codes = λ row new scope. record {
      step = λ db i.
          ground (arith, str_eq_iff row.code code, any-append (is_unused code) db.oauth_codes row);
    };
    stored = λ other. record { step = λ db i. ground arith };
    uses =
        λ other now. record { step = λ db i. (any-mark_used code other now db.oauth_codes i, tt) };
    tokens = λ row scope made. record { step = λ db i. ground arith };
    revokes = λ now bearer. record { step = λ db i. (i, tt) };
  }

-- The row of a token that is issued.
abbrev pub token_row : OAuthCrates → String → ℕ → String → String → TokenRow
token_row c access_token now client scope = record {
  token = hash_token c access_token;
  client_id = client;
  scope = scope;
  expires_at = now + 3600 * second;
  created_at = now;
  revoked_at = none;
}

-- What a redemption at the tables `db` has found: an unused code of the client and of its
-- redirect URI that has not expired, under the challenge of the verifier.
pub record IsRedeemed (c : OAuthCrates) (now : Clock) (db : Db) (request : TokenRequest)
    (code : String) (response : TokenResponse) (after : Db) : Type 0 where
  pub verifier : String
  pub row : CodeRow
  pub presented : request.code ≡ some code
  pub verified : request.code_verifier ≡ some verifier
  pub unused : find (is_unused code) (purge_expired (now 0) db).oauth_codes ≡ some row
  pub client : str_eq row.client_id request.client_id ≡ true
  pub redirect : str_eq row.redirect_uri request.redirect_uri ≡ true
  pub current : ltb row.expires_at (now 2) ≡ false
  pub challenge : str_eq (pkce_s256 c verifier) row.code_challenge ≡ true
  pub granted : response.scope ≡ row.scope
  pub made :
      find (has_token (hash_token c response.access_token)) after.oauth_tokens
      ≡ some (token_row c response.access_token (now 4) row.client_id row.scope)

module _ (c : OAuthCrates) where
  stored_code-eq-ok :
      (code : String) (db : Db) {row : CodeRow} {after : Db}
      → stored_code c code db ≡ (ok row, after)
      → (find (is_unused code) db.oauth_codes ≡ some row) × (db ≡ after)
  unfolding stored_code
  stored_code-eq-ok code db h = grind arith

  limit-codes :
      (now : ℕ) (key : String) (max : ℕ) (db : Db) {u : Unit {0}} {after : Db}
      → enforce_rate_limit now key max db ≡ (ok u, after)
      → after.oauth_codes ≡ db.oauth_codes
  unfolding enforce_rate_limit
  limit-codes now key max db h = grind arith

  create_token-eq-ok :
      (id now : ℕ) (client scope : String) (db : Db) {response : TokenResponse} {after : Db}
      → create_token c id now client scope db ≡ (ok response, after)
      → (after.oauth_codes ≡ db.oauth_codes)
        × (response.scope ≡ scope)
        × (find (has_token (hash_token c response.access_token)) after.oauth_tokens
            ≡ some (token_row c response.access_token now client scope))
  unfolding create_token insert_token ◌>>=◌ pure
  create_token-eq-ok id now client scope db h =
      let fresh_token =
        find-append (has_token (hash_token c (token c id))) db.oauth_tokens
          (token_row c (token c id) now client scope) in
      let same = (str_eq_iff (hash_token c (token c id)) (hash_token c (token c id))).1 refl in
      grind arith

  redeem-eq-ok :
      (id : ℕ) (now : Clock) (code verifier : String) (request : TokenRequest) (db : Db)
      {response : TokenResponse} {after : Db}
      → redeem c id now code verifier request db ≡ (ok response, after)
      → (row : CodeRow) × (find (is_unused code) db.oauth_codes ≡ some row)
        × (str_eq row.client_id request.client_id ≡ true)
        × (str_eq row.redirect_uri request.redirect_uri ≡ true)
        × (ltb row.expires_at (now 2) ≡ false)
        × (str_eq (pkce_s256 c verifier) row.code_challenge ≡ true)
        × (response.scope ≡ row.scope)
        × (find (has_token (hash_token c response.access_token)) after.oauth_tokens
            ≡ some (token_row c response.access_token (now 4) row.client_id row.scope))
        × (redeemable code after ≡ false)
  unfolding redeem redeemable use_code
  redeem-eq-ok id now code verifier request db {response} {after} h =
      let (row, same, got, h1) = >>=-eq-ok (stored_code c code) _ db h in
      let (found, unchanged) = stored_code-eq-ok code db got in
      let (client, h2) = check-eq-ok _ _ _ same h1 in
      let (redirect, h3) = check-eq-ok _ _ _ same h2 in
      let (current, h4) = check-eq-ok _ _ _ same h3 in
      let (challenge, h5) = check-eq-ok _ _ _ same h4 in
      let (u, used, marked, h6) = >>=-eq-ok (use_code c code (now 3)) _ same h5 in
      let (codes, granted, made) = create_token-eq-ok id (now 4) row.client_id row.scope used h6 in
      (
        row,
        found,
        not-eq-false _ client,
        not-eq-false _ redirect,
        current,
        not-eq-false _ challenge,
        granted,
        made,
        ap (any (is_unused code)) codes
            ∙ (ap (λ r. redeemable code r.1) (sym marked) ∙ any-used code (now 3) same.oauth_codes),
      )

  -- A successful exchange has found the presented code unused, unexpired, and bound to the same
  -- client, redirect URI and challenge; the token has the scope of the code, and the code is spent.
  pub exchange_code_sound :
      (id : ℕ) (now : Clock) (request : TokenRequest) (db : Db) {response : TokenResponse}
      {after : Db}
      → exchange_code c id now request db ≡ (ok response, after)
      → (code : String) × IsRedeemed c now db request code response after
        × (redeemable code after ≡ false)
  unfolding exchange_code transaction purge
  exchange_code_sound id now request db {response} {after} h =
      let (_, h1) = check-eq-ok _ _ _ db h in
      let (code, presented, h2) = lift-eq-ok _ _ db h1 in
      let (verifier, verified, h3) = lift-eq-ok _ _ db h2 in
      let (u, purged, cleaned, h4) = >>=-eq-ok (purge (now 0)) _ db h3 in
      let (v, limited, counted, h5) =
        >>=-eq-ok (enforce_rate_limit (now 1) ("token:" & request.client_id) 20) _ purged h4 in
      let h6 = settle-eq-ok limited _ h5 in
      let (row, found, client, redirect, current, challenge, granted, made, spent) =
        redeem-eq-ok id now code verifier request limited h6 in
      (
        code,
        record {
          verifier = verifier;
          row = row;
          presented = ok_or-eq-ok _ _ presented;
          verified = ok_or-eq-ok _ _ verified;
          unused =
              ap (λ r. find (is_unused code) r.1.oauth_codes) cleaned
              ∙ (ap (find (is_unused code)) (sym (limit-codes (now 1) _ 20 purged counted))
                  ∙ found);
          client = client;
          redirect = redirect;
          current = current;
          challenge = challenge;
          granted = granted;
          made = made;
        },
        spent,
      )

  same_code : {o : Option String} {s t : String} → o ≡ some s → o ≡ some t → s ≡ t
  same_code h k = cc

  spent_not_found :
      {code other : String}
      → other ≡ code
      → (now : ℕ) (db : Db) (row : CodeRow) → redeemable code db ≡ false
      → find (is_unused other) (purge_expired now db).oauth_codes ≢ some row
  unfolding redeemable purge_expired
  spent_not_found {code} {other} same now db row spent found =
      let none_left =
        any-retain (is_unused other) (lives now) db.oauth_codes
          (subst (λ t. any (is_unused t) db.oauth_codes ≡ false) (sym same) spent) in
      let one_found = any-find (is_unused other) (retain (lives now) db.oauth_codes) found in cc

  fresh :
      (code : String) (op : Operation)
      → issued c op ≢ some code
      → IsNew (λ new. new ≢ code) (issued c op) × IsNew Any (minted c op)
  fresh code (Operation.authorize id now request) h = ((λ e. h (ap some e)), tt)
  fresh code (Operation.exchange id now request) h = (tt, tt)
  fresh code _ h = (tt, tt)

  -- After a successful exchange, whatever operations follow, no exchange of the same code succeeds,
  -- as long as the server does not issue the same text as a new code.
  pub exchange_code_once :
      (id : ℕ) (now : Clock) (request : TokenRequest) (db : Db) {response : TokenResponse}
      {after : Db}
      → exchange_code c id now request db ≡ (ok response, after)
      → (operations : List Operation) (code : String) → request.code ≡ some code
      → All (λ op. issued c op ≢ some code) operations
      → (id' : ℕ) (now' : Clock) (request' : TokenRequest) {response' : TokenResponse} {last : Db}
      → request'.code ≡ some code
      → exchange_code c id' now' request' (run_all c operations after) ≢ (ok response', last)
  exchange_code_once id now request db {response} {after} h operations code presented new id' now'
        request' {response'} {last} again h' =
      let (spent_code, first, spent) = exchange_code_sound id now request db h in
      let (next_code, second, _) =
        exchange_code_sound id' now' request' (run_all c operations after) h' in
      let same = same_code first.presented presented in
      let still =
        run_all-Keeps c (λ d. redeemable code d ≡ false) Any (λ t. t ≢ code) Any
          (spent_statements c code) operations after (All-map _ _ (fresh code) operations new)
          (subst (λ t. redeemable t after ≡ false) same spent) in
      let again_code = same_code second.presented again in
      spent_not_found again_code (now' 0) (run_all c operations after) second.row still
        second.unused
