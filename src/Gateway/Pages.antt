-- ===== src/Gateway/Pages.antt =====
-- src/gateway.rs: the handlers of the OAuth routes, and the page that asks for consent.
use shuttle_rs.Prelude.{
  ℕ, String, Option, none, some, List, [], ◌∷◌, Bool, false, not, str_eq, is_blank, is_some,
  if◌then◌else◌, unwrap_or, replace_char, ◌&◌,
}
use shuttle_rs.Prelude.Bytes.{as_bytes}
use shuttle_rs.Crates.{Crates}
use shuttle_rs.Core.{Result, ok, err}
use shuttle_rs.OAuth.Tables.{OAuthCrates, Db, Clock}
use shuttle_rs.OAuth.Requests.{
  OAuthConfig, RegisterRequest, RegisteredClient, AuthorizeRequest, AuthorizeForm, TokenRequest,
  TokenResponse, from, dynamic_registration_enabled,
}
use shuttle_rs.OAuth.Flow.{
  register_client, client_allows_redirect, create_code, exchange_code, revoke_access_token,
}
use shuttle_rs.OAuth.Redirect.{
  protected_resource_metadata, authorization_server_metadata, authorize_redirect,
}
use shuttle_rs.Gateway.Auth.{GatewayAuth}
use shuttle_rs.Gateway.Authorize.{constant_time_eq}
use shuttle_rs.Gateway.Responses.{Response, Body, json_response, oauth_error, oauth_not_configured}

-- `&`, `<`, `>`, `"` and `'`, in the order of the calls
unfoldable pub html_escape : String → String
html_escape value = replace_char 39 "&#39;" (
    replace_char 34 "&quot;"
      (replace_char 62 "&gt;" (replace_char 60 "&lt;" (replace_char 38 "&amp;" value))))

unfoldable pub hidden_input : String → String → String
unfolding html_escape
hidden_input name value =
    "    <input type=\"hidden\" name=\"" & name & "\" value=\"" & html_escape value & "\">\n"

unfoldable pub authorize_html : AuthorizeRequest → Bool → String
unfolding html_escape hidden_input
authorize_html request requires_admin_token =
    let admin =
      if requires_admin_token
      then "<label>Admin token <input name=\"admin_token\" type=\"password\" autocomplete=\"current-password\" required></label>"
      else "<input name=\"admin_token\" type=\"hidden\" value=\"\">" in
    "<!doctype html>\n<html>\n<head><meta charset=\"utf-8\"><title>Authorize Shuttle Gateway</title></head>\n<body>\n  <h1>Authorize Shuttle Gateway</h1>\n  <p>"
    & html_escape request.client_id
    & " is requesting access to Shuttle MCP.</p>\n  <form method=\"post\" action=\"/oauth/authorize\">\n    "
    & admin
    & "\n"
    & hidden_input "response_type" request.response_type
    & hidden_input "client_id" request.client_id
    & hidden_input "redirect_uri" request.redirect_uri
    & hidden_input "state" (unwrap_or request.state "")
    & hidden_input "scope" (unwrap_or request.scope "mcp")
    & hidden_input "code_challenge" (unwrap_or request.code_challenge "")
    & hidden_input "code_challenge_method" (unwrap_or request.code_challenge_method "S256")
    & "    <button type=\"submit\">Authorize</button>\n  </form>\n</body>\n</html>"

module _ (c : Crates) (o : OAuthCrates) (now : Clock) (id : ℕ) where
  open c use {Value, null, text, texts, object}

  -- A handler's answer, and the tables after it.
  abbrev pub Page : Type 0
  Page = Db → Response Value × Db

  -- `let GatewayAuth::OAuth(oauth) = &runtime.auth else { return oauth_not_configured(); }`
  abbrev pub with_oauth : GatewayAuth (Unit {0}) → (OAuthConfig → Page) → Page
  with_oauth (GatewayAuth.oauth runtime) rest db = rest runtime.config db
  with_oauth (GatewayAuth.bearer token_env) rest db = (oauth_not_configured c, db)
  with_oauth GatewayAuth.none rest db = (oauth_not_configured c, db)

  -- What becomes of the answer of the store: `match result { Ok(a) => .., Err(_) => .. }`.
  abbrev pub outcome :
      {A : Type 0} → (A → Response Value) → Response Value → Result A × Db → Response Value × Db
  outcome done failed (ok a, db) = (done a, db)
  outcome done failed (err e, db) = (failed, db)

  unfoldable pub oauth_protected_resource : GatewayAuth (Unit {0}) → Page
  unfolding protected_resource_metadata oauth_not_configured
  oauth_protected_resource auth =
      with_oauth auth
        (λ config db. (json_response c 200 (protected_resource_metadata c config), db))

  unfoldable pub oauth_authorization_server : GatewayAuth (Unit {0}) → Page
  unfolding authorization_server_metadata oauth_not_configured
  oauth_authorization_server auth =
      with_oauth auth
        (λ config db. (json_response c 200 (authorization_server_metadata c config), db))

  abbrev optional : Option String → Value
  optional none = null
  optional (some value) = text value

  abbrev secret_field : Option String → List (String × Value)
  secret_field none = []
  secret_field (some secret) = ("client_secret", text secret) ∷ []

  unfoldable pub oauth_register : GatewayAuth (Unit {0}) → RegisterRequest → Page
  unfolding register_client oauth_error oauth_not_configured
  oauth_register auth request = with_oauth auth (λ config db.
      if not (dynamic_registration_enabled config)
      then (
        oauth_error c 501 "registration_not_supported" "dynamic client registration is disabled",
        db,
      )
      else outcome
          (λ (client : RegisteredClient). json_response c 201 (
            object (
              ("client_id", text client.client_id)
              ∷ ("redirect_uris", texts client.redirect_uris)
              ∷ ("client_name", optional client.client_name)
              ∷ ("token_endpoint_auth_method", text "none")
              ∷ secret_field client.client_secret)))
          (oauth_error c 400 "invalid_request" "client registration request is invalid")
          (register_client o id now request db))

  unfoldable pub oauth_authorize_page : GatewayAuth (Unit {0}) → AuthorizeRequest → Page
  unfolding client_allows_redirect authorize_html oauth_error oauth_not_configured
  oauth_authorize_page auth request = with_oauth auth (λ config db.
      let unknown = oauth_error c 400 "invalid_request" "unknown client_id or redirect_uri" in
      if not (str_eq request.response_type "code")
      then (oauth_error c 400 "unsupported_response_type" "response_type must be code", db)
      else outcome
          (λ allowed.
            if allowed
            then record {
              status = 200;
              headers = [];
              body = Body.html (authorize_html request (is_some config.admin_token));
            }
            else unknown)
          unknown (client_allows_redirect o request.client_id request.redirect_uri db))

  -- Whether the form lacks the token of the administrator.
  unfoldable pub lacks_admin_token : OAuthConfig → AuthorizeForm → Bool
  unfolding constant_time_eq as_bytes
  lacks_admin_token config form = elim config.admin_token [
    | none ↦ false
    | some expected ↦ not (constant_time_eq (as_bytes form.admin_token) (as_bytes expected))
  ]

  -- `Redirect::to`
  abbrev pub redirect_to : String → Response Value
  redirect_to target = record {
    status = 303;
    headers = ("location", target) ∷ [];
    body = Body.empty;
  }

  unfoldable pub oauth_authorize_submit : GatewayAuth (Unit {0}) → AuthorizeForm → Page
  unfolding lacks_admin_token create_code authorize_redirect oauth_error oauth_not_configured
  oauth_authorize_submit auth form = with_oauth auth (λ config db.
      let request = from form in
      if lacks_admin_token config form
      then (oauth_error c 401 "access_denied" "invalid admin token", db)
      else if not (str_eq request.response_type "code")
      then (oauth_error c 400 "unsupported_response_type" "response_type must be code", db)
      else outcome
          (λ code. redirect_to (authorize_redirect request.redirect_uri code request.state))
          (oauth_error c 400 "invalid_request" "authorization request is invalid")
          (create_code o id now request db))

  -- `Serialize for TokenResponse`
  abbrev token_value : TokenResponse → Value
  token_value token = object (
      ("access_token", text token.access_token)
      ∷ ("token_type", text token.token_type)
      ∷ ("expires_in", c.number token.expires_in)
      ∷ ("scope", text token.scope)
      ∷ [])

  unfoldable pub oauth_token : GatewayAuth (Unit {0}) → TokenRequest → Page
  unfolding exchange_code oauth_error oauth_not_configured
  oauth_token auth request = with_oauth auth (λ config db.
      if not (str_eq request.grant_type "authorization_code")
      then (oauth_error c 400 "unsupported_grant_type" "grant_type must be authorization_code", db)
      else outcome (λ token. json_response c 200 (token_value token))
          (oauth_error c 400 "invalid_grant"
            "authorization code is invalid, expired, or already used")
          (exchange_code o id now request db))

  -- The form holds the token, and a hint that is not read.
  unfoldable pub oauth_revoke : GatewayAuth (Unit {0}) → String → Page
  unfolding revoke_access_token is_blank oauth_error oauth_not_configured
  oauth_revoke auth token = with_oauth auth (λ config db.
      if is_blank token
      then (oauth_error c 400 "invalid_request" "token is required", db)
      else outcome (λ changed. record { status = 200; headers = []; body = Body.empty })
          (oauth_error c 500 "server_error" "revocation failed")
          (revoke_access_token o (now 0) token db))
