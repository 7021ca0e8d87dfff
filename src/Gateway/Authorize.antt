-- ===== src/Gateway/Authorize.antt =====
-- src/gateway.rs: the authentication of a request. The state of an `OAuthStore` is its tables.
use shuttle_rs.Prelude.{
  ℕ, String, Option, none, some, List, [], ◌∷◌, Bool, true, false, ◌==◌, str_eq, if◌then◌else◌,
  length, any, ◌&◌, and_then, split_at_space,
}
use shuttle_rs.Prelude.Bytes.{xor, or, as_bytes}
use shuttle_rs.Crates.{Crates}
use shuttle_rs.Core.{Result, ok, err}
use shuttle_rs.OAuth.Tables.{OAuthCrates, Db, Clock}
use shuttle_rs.OAuth.Requests.{eq_ignore_ascii_case}
use shuttle_rs.OAuth.Flow.{validate_access_token}
use shuttle_rs.Gateway.Auth.{GatewayAuth, OAuthRuntime}
use shuttle_rs.Api.{api_error}
use shuttle_rs.Gateway.Responses.{
  Response, json_response, with_cors, unauthorized_oauth, oauth_error,
}

-- The loop over the bytes: a text that has ended counts as 0.
unfoldable pub differences : ℕ → List ℕ → List ℕ → ℕ
unfolding xor or
differences diff [] [] = diff
differences diff (x ∷ left) [] = differences (or diff (xor x 0)) left []
differences diff [] (y ∷ right) = differences (or diff (xor 0 y)) [] right
differences diff (x ∷ left) (y ∷ right) = differences (or diff (xor x y)) left right

unfoldable pub constant_time_eq : List ℕ → List ℕ → Bool
unfolding xor differences
constant_time_eq left right = differences (xor (length left) (length right)) left right == 0

unfoldable pub is_oauth_public_route : String → Bool
is_oauth_public_route path = any (str_eq path) (
    "/.well-known/oauth-protected-resource" ∷ "/.well-known/oauth-protected-resource/mcp"
    ∷ "/.well-known/oauth-authorization-server" ∷ "/oauth/register" ∷ "/oauth/revoke"
    ∷ "/oauth/token" ∷ "/oauth/authorize" ∷ [])

-- A request's header `authorization`, if it is there and reads as a text.
abbrev pub Headers : Type 0
Headers = Option String

unfoldable pub bearer_token : Headers → Option String
bearer_token headers = and_then headers (λ value.
    and_then (split_at_space value)
      (λ parts. if eq_ignore_ascii_case parts.0 "Bearer" then some parts.1 else none))

-- `env::var(name).ok().filter(|token| !token.is_empty())`
unfoldable pub set_token : (String → Option String) → String → Option String
set_token env name = and_then (env name) (λ token. if str_eq token "" then none else some token)

-- Whether a header is `Bearer` with the token.
unfoldable pub is_expected : String → Headers → Bool
unfolding constant_time_eq as_bytes
is_expected token none = false
is_expected token (some actual) = constant_time_eq (as_bytes actual) (as_bytes ("Bearer " & token))

module _ (c : Crates) (o : OAuthCrates) (is_header_value : String → Bool)
    (env : String → Option String) (now : Clock) where
  open c use {Value}

  -- What comes of the check of an access token.
  abbrev pub token_checked :
      OAuthRuntime (Unit {0}) → Result Bool × Db → Option (Response Value) × Db
  token_checked runtime (ok true, db) = (none, db)
  token_checked runtime (ok false, db) =
      (some (unauthorized_oauth c is_header_value runtime.config), db)
  token_checked runtime (err e, db) =
      (some (oauth_error c 401 "invalid_token" "failed to validate access token"), db)

  -- The header against the token that is set, if one is.
  unfoldable pub check_header : Option String → Headers → Bool → Option (Response Value)
  unfolding is_expected api_error with_cors
  check_header none headers cors = none
  check_header (some token) headers cors =
      let refusal =
        json_response c 401 (api_error c "unauthorized" "authentication required" true) in
      if is_expected token headers
      then none
      else if cors
      then some (with_cors c refusal)
      else some refusal

  -- The bearer token of the request, if it has one, against the tables.
  unfoldable pub check_token :
      OAuthRuntime (Unit {0}) → Option String → Db → Option (Response Value) × Db
  unfolding validate_access_token unauthorized_oauth oauth_error
  check_token runtime none db = (some (unauthorized_oauth c is_header_value runtime.config), db)
  check_token runtime (some token) db = token_checked runtime (validate_access_token o now token db)

  -- The `match` on how the listener authenticates.
  unfoldable pub authorize_by :
      GatewayAuth (Unit {0}) → Headers → Bool → Db → Option (Response Value) × Db
  unfolding set_token bearer_token check_header check_token
  authorize_by (GatewayAuth.bearer token_env) headers cors db =
      (check_header (set_token env token_env) headers cors, db)
  authorize_by (GatewayAuth.oauth runtime) headers cors db =
      check_token runtime (bearer_token headers) db
  authorize_by GatewayAuth.none headers cors db = (none, db)

  -- The refusal of a request, if it is refused, and the tables after it.
  unfoldable pub authorize :
      GatewayAuth (Unit {0}) → Headers → String → Bool → Db → Option (Response Value) × Db
  unfolding is_oauth_public_route authorize_by
  authorize auth headers path cors db =
      if is_oauth_public_route path then (none, db) else authorize_by auth headers cors db
