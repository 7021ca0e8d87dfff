-- ===== src/OAuth/Flow.antt =====
-- src/oauth.rs: the operations of `OAuthStore`. Each takes the readings of the clock that it makes
-- and the identifiers that `Uuid::new_v4` gives it.
use shuttle_rs.Prelude.{
  ℕ, String, Option, none, some, [], ◌∷◌, ◌++◌, Bool, false, not, ◌&&◌, ltb, ◌+◌, ◌*◌, str_eq,
  if◌then◌else◌, any, find, map, is_some, is_empty, is_text, ◌&◌,
}
use shuttle_rs.Core.{Result, ok, err, store, reject_if, ok_or}
use shuttle_rs.OAuth.Tables.{
  OAuthCrates, ClientRow, CodeRow, TokenRow, Db, Action, ◌>>=◌, ◌>>◌, pure, lift, read, transaction,
  Clock, second, purge, purge_expired, enforce_rate_limit, token, hash_token, pkce_s256, grants_mcp,
  normalize_scope,
}
use shuttle_rs.Prelude.Texts.{sort_dedup}
use shuttle_rs.OAuth.Requests.{
  RegisterRequest, RegisteredClient, AuthorizeRequest, TokenRequest, TokenResponse,
  validate_redirect_uri, validate_all,
}

abbrev pub has_client_id : String → ClientRow → Bool
has_client_id client_id row = str_eq row.client_id client_id

abbrev pub has_code : String → CodeRow → Bool
has_code code row = str_eq row.code code

abbrev pub has_token : String → TokenRow → Bool
has_token token row = str_eq row.token token

-- `WHERE code = ?1 AND used_at IS NULL`
abbrev pub is_unused : String → CodeRow → Bool
is_unused code row = has_code code row && not (is_some row.used_at)

abbrev pub mark_used : String → ℕ → CodeRow → CodeRow
mark_used code now row = if has_code code row then record row { used_at = some now } else row

-- `WHERE token = ?2 AND revoked_at IS NULL`
abbrev pub is_unrevoked : String → TokenRow → Bool
is_unrevoked token row = has_token token row && not (is_some row.revoked_at)

abbrev pub mark_revoked : String → ℕ → TokenRow → TokenRow
mark_revoked token now row =
    if is_unrevoked token row then record row { revoked_at = some now } else row

module _ (c : OAuthCrates) where
  -- The insertions fail when the primary key is taken.
  unfoldable pub insert_client : ClientRow → Action (Unit {0})
  insert_client row db =
      if any (has_client_id row.client_id) db.oauth_clients
      then (err (store (c.unique_error "oauth_clients")), db)
      else (ok tt, record db { oauth_clients = db.oauth_clients ++ row ∷ [] })

  unfoldable pub insert_code : CodeRow → Action (Unit {0})
  insert_code row db =
      if any (has_code row.code) db.oauth_codes
      then (err (store (c.unique_error "oauth_codes")), db)
      else (ok tt, record db { oauth_codes = db.oauth_codes ++ row ∷ [] })

  unfoldable pub insert_token : TokenRow → Action (Unit {0})
  insert_token row db =
      if any (has_token row.token) db.oauth_tokens
      then (err (store (c.unique_error "oauth_tokens")), db)
      else (ok tt, record db { oauth_tokens = db.oauth_tokens ++ row ∷ [] })

  unfoldable pub create_token : ℕ → ℕ → String → String → Action TokenResponse
  unfolding insert_token token hash_token
  create_token id now client_id scope = do
    insert_token (record {
      token = hash_token c (token c id);
      client_id = client_id;
      scope = scope;
      expires_at = now + 3600 * second;
      created_at = now;
      revoked_at = none;
    })
    pure (record {
      access_token = token c id;
      token_type = "Bearer";
      expires_in = 3600;
      scope = scope;
    })

  unfoldable pub register_client : ℕ → Clock → RegisterRequest → Action RegisteredClient
  unfolding insert_client token sort_dedup validate_all enforce_rate_limit purge_expired
  register_client id now request = do
    lift (
        reject_if (is_empty request.redirect_uris)
          (store "redirect_uris must contain at least one URI"))
    let redirect_uris = sort_dedup request.redirect_uris
    lift (validate_all c redirect_uris)
    purge (now 0)
    enforce_rate_limit (now 1) "registration" 30
    insert_client (record {
      client_id = token c id;
      client_secret = none;
      redirect_uris = redirect_uris;
      client_name = request.client_name;
      created_at = now 2;
    })
    pure (record {
      client_id = token c id;
      client_secret = none;
      redirect_uris = redirect_uris;
      client_name = request.client_name;
    })

  -- The answer for the row of the client, if there is one.
  abbrev allows : String → Option ClientRow → Bool
  allows redirect_uri none = false
  allows redirect_uri (some row) = any (λ uri. str_eq uri redirect_uri) row.redirect_uris

  unfoldable pub client_allows_redirect : String → String → Action Bool
  unfolding validate_redirect_uri
  client_allows_redirect client_id redirect_uri = do
    lift (validate_redirect_uri c redirect_uri)
    read (λ db. allows redirect_uri (find (has_client_id client_id) db.oauth_clients))

  unfoldable pub create_code : ℕ → Clock → AuthorizeRequest → Action String
  unfolding insert_code token client_allows_redirect validate_redirect_uri enforce_rate_limit
      purge_expired normalize_scope
  create_code id now request = do
    lift
        (reject_if (not (str_eq request.response_type "code")) (store "response_type must be code"))
    allowed ← client_allows_redirect request.client_id request.redirect_uri
    lift (reject_if (not allowed) (store "unknown client_id or redirect_uri"))
    lift (
        reject_if (not (is_text request.code_challenge_method "S256"))
          (store "code_challenge_method must be S256"))
    code_challenge ← lift (ok_or request.code_challenge (store "missing code_challenge"))
    lift (validate_redirect_uri c request.redirect_uri)
    purge (now 1)
    enforce_rate_limit (now 2) ("authorize:" & request.client_id) 30
    insert_code (record {
      code = token c id;
      client_id = request.client_id;
      redirect_uri = request.redirect_uri;
      code_challenge = code_challenge;
      code_challenge_method = "S256";
      scope = normalize_scope request.scope;
      expires_at = now 0 + 600 * second;
      used_at = none;
      created_at = now 0;
    })
    pure (token c id)

  -- The row of an unused code, or the reason why there is none.
  abbrev pub stored_row : String → Db → Option CodeRow → Result CodeRow × Db
  stored_row code db (some row) = (ok row, db)
  stored_row code db none = (
    err (
        store (if any (has_code code) db.oauth_codes then "code already used" else "invalid code")),
    db,
  )

  unfoldable pub stored_code : String → Action CodeRow
  stored_code code db = stored_row code db (find (is_unused code) db.oauth_codes)

  unfoldable pub use_code : String → ℕ → Action (Unit {0})
  use_code code now db =
      (ok tt, record db { oauth_codes = map (mark_used code now) db.oauth_codes })

  -- What `exchange_code` does in its transaction.
  unfoldable pub redeem : ℕ → Clock → String → String → TokenRequest → Action TokenResponse
  unfolding stored_code use_code create_token pkce_s256
  redeem id now code verifier request = do
    stored ← stored_code code
    lift (reject_if (not (str_eq stored.client_id request.client_id)) (store "invalid client_id"))
    lift (
        reject_if (not (str_eq stored.redirect_uri request.redirect_uri))
          (store "invalid redirect_uri"))
    lift (reject_if (ltb stored.expires_at (now 2)) (store "code expired"))
    lift (
        reject_if (not (str_eq (pkce_s256 c verifier) stored.code_challenge))
          (store "invalid code_verifier"))
    use_code code (now 3)
    create_token id (now 4) stored.client_id stored.scope

  unfoldable pub exchange_code : ℕ → Clock → TokenRequest → Action TokenResponse
  unfolding redeem enforce_rate_limit purge_expired
  exchange_code id now request = do
    lift (
        reject_if (not (str_eq request.grant_type "authorization_code"))
          (store "grant_type must be authorization_code"))
    code ← lift (ok_or request.code (store "missing code"))
    verifier ← lift (ok_or request.code_verifier (store "missing code_verifier"))
    purge (now 0)
    enforce_rate_limit (now 1) ("token:" & request.client_id) 20
    transaction (redeem id now code verifier request)

  abbrev is_valid : ℕ → Option TokenRow → Bool
  is_valid now none = false
  is_valid now (some row) =
      not (is_some row.revoked_at) && (grants_mcp row.scope && ltb now row.expires_at)

  unfoldable pub validate_access_token : Clock → String → Action Bool
  unfolding hash_token purge_expired
  validate_access_token now bearer_token = do
    purge (now 0)
    read (λ db. is_valid (now 1) (find (has_token (hash_token c bearer_token)) db.oauth_tokens))

  unfoldable pub revoke_access_token : ℕ → String → Action Bool
  unfolding hash_token
  revoke_access_token now bearer_token db = (
    ok (any (is_unrevoked (hash_token c bearer_token)) db.oauth_tokens),
    record db { oauth_tokens = map (mark_revoked (hash_token c bearer_token) now) db.oauth_tokens },
  )

  unfoldable pub cleanup_expired : ℕ → Action (Unit {0})
  unfolding purge_expired
  cleanup_expired now = purge now
