-- ===== src/Tests/OAuthTests.antt =====
-- The theorems on src/oauth.rs at a server with one client, and runs of its operations.
use shuttle_rs.Prelude.{
  arith, ℕ, String, ◌≡◌, ◌≢◌, refl, ◌≤◌, Option, none, some, List, [], ◌∷◌, true, false,
  if◌then◌else◌, str_eq,
}
use shuttle_rs.Prelude.Sorting.{sort_by}
use shuttle_rs.Core.{ok}
use shuttle_rs.OAuth.Tables.{
  Url, OAuthCrates, ClientRow, CodeRow, LimitRow, Db, Clock, ◌>>=◌, pure, lift, read, transaction,
  purge, purge_expired, enforce_rate_limit, put_limit, current_window, token, hash_token, pkce_s256,
  normalize_scope,
}
use shuttle_rs.Prelude.Texts.{sort_dedup}
use shuttle_rs.OAuth.Requests.{
  RegisterRequest, AuthorizeRequest, TokenRequest, TokenResponse, validate_redirect_uri,
  validate_all,
}
use shuttle_rs.OAuth.Flow.{
  register_client, create_code, exchange_code, validate_access_token, revoke_access_token, redeem,
  create_token, stored_code, use_code, insert_client, insert_code, insert_token,
  client_allows_redirect,
}
use shuttle_rs.OAuth.Operations.{Operation, run, run_all}
use shuttle_rs.OAuth.Codes.{IsRedeemed, redeemable, exchange_code_sound, exchange_code_once}
use shuttle_rs.OAuth.Tokens.{empty_db, revoked_stays_invalid, issued_token_valid}
use shuttle_rs.OAuth.Limits.{accepted, accepted_bound}
use shuttle_rs.Tests.Sample.{ticks}

abbrev home : Url
home = record {
  fragment = none;
  username = "";
  password = none;
  host_str = some "app.example";
  loopback_ip = false;
  scheme = "https";
}

-- One URL parses, and a digest is the text itself.
abbrev pub crates : OAuthCrates
crates = record {
  parse = λ value. if str_eq value "https://app.example/cb" then some home else none;
  digest = λ value. value;
  simple = ticks;
  unique_error = λ table. "UNIQUE constraint failed";
}

abbrev at : ℕ → Clock
at n k = n

abbrev registration : RegisterRequest
registration = record { redirect_uris = "https://app.example/cb" ∷ []; client_name = some "app" }

abbrev authorization : AuthorizeRequest
authorization = record {
  response_type = "code";
  client_id = "stl_x";
  redirect_uri = "https://app.example/cb";
  state = none;
  scope = none;
  code_challenge = some "verifier";
  code_challenge_method = some "S256";
}

abbrev redemption : TokenRequest
redemption = record {
  grant_type = "authorization_code";
  client_id = "stl_x";
  redirect_uri = "https://app.example/cb";
  code = some "stl_xx";
  code_verifier = some "verifier";
}

abbrev setup : List Operation
setup = Operation.register 1 (at 1) registration ∷ Operation.authorize 2 (at 2) authorization ∷ []

abbrev client : ClientRow
client = record {
  client_id = "stl_x";
  client_secret = none;
  redirect_uris = "https://app.example/cb" ∷ [];
  client_name = some "app";
  created_at = 1;
}

abbrev code_row : Option ℕ → CodeRow
code_row used_at = record {
  code = "stl_xx";
  client_id = "stl_x";
  redirect_uri = "https://app.example/cb";
  code_challenge = "verifier";
  code_challenge_method = "S256";
  scope = "mcp";
  expires_at = 600_000_000_002;
  used_at = used_at;
  created_at = 2;
}

abbrev limit : String → ℕ → LimitRow
limit key started = record { key = key; window_started = started; request_count = 1 }

abbrev ready : Db
ready = record {
  oauth_clients = client ∷ [];
  oauth_codes = code_row none ∷ [];
  oauth_tokens = [];
  oauth_rate_limits = limit "registration" 1 ∷ limit "authorize:stl_x" 2 ∷ [];
}

abbrev redeemed_db : Db
redeemed_db = record {
  oauth_clients = client ∷ [];
  oauth_codes = code_row (some 3) ∷ [];
  oauth_tokens =
      record {
        token = "stl_xxx";
        client_id = "stl_x";
        scope = "mcp";
        expires_at = 3_600_000_000_003;
        created_at = 3;
        revoked_at = none;
      }
      ∷ [];
  oauth_rate_limits =
      limit "registration" 1 ∷ limit "authorize:stl_x" 2 ∷ limit "token:stl_x" 3 ∷ [];
}

abbrev response : TokenResponse
response = record {
  access_token = "stl_xxx";
  token_type = "Bearer";
  expires_in = 3600;
  scope = "mcp";
}

set_up : run_all crates setup empty_db ≡ ready
unfolding run_all run register_client create_code ◌>>=◌ pure lift read purge purge_expired
    enforce_rate_limit put_limit current_window token normalize_scope sort_dedup sort_by
    validate_redirect_uri validate_all insert_client insert_code client_allows_redirect
set_up = refl

redeemed : exchange_code crates 3 (at 3) redemption ready ≡ (ok response, redeemed_db)
unfolding exchange_code redeem stored_code use_code create_token insert_token ◌>>=◌ pure lift
    transaction purge purge_expired enforce_rate_limit put_limit current_window token hash_token
    pkce_s256
redeemed = refl

exchange_code_sound_example :
    (code : String) × IsRedeemed crates (at 3) ready redemption code response redeemed_db
    × (redeemable code redeemed_db ≡ false)
exchange_code_sound_example = exchange_code_sound crates 3 (at 3) redemption ready redeemed

exchange_code_once_example :
    exchange_code crates 5 (at 5) redemption (
      run_all crates
        (Operation.cleanup 4 ∷ Operation.authorize 4 (at 4) authorization ∷ [])
        redeemed_db)
    ≢ (ok response, redeemed_db)
unfolding token
exchange_code_once_example =
    exchange_code_once crates 3 (at 3) redemption ready redeemed
      (Operation.cleanup 4 ∷ Operation.authorize 4 (at 4) authorization ∷ []) "stl_xx" refl
      ((λ e. cc), ((λ e. cc), tt)) 5 (at 5) redemption refl

revoked_stays_invalid_example :
    (validate_access_token crates (at 6) "stl_xxx" (
      run_all crates
        (Operation.validate (at 5) "stl_xxx" ∷ [])
        (revoke_access_token crates 4 "stl_xxx" redeemed_db).1)).0
    ≡ ok false
revoked_stays_invalid_example =
    revoked_stays_invalid crates "stl_xxx" 4 redeemed_db (Operation.validate (at 5) "stl_xxx" ∷ [])
      ((λ e. cc), tt) (at 6)

issued_token_valid_example : (validate_access_token crates (at 9) "stl_xxx" redeemed_db).0 ≡ ok true
unfolding run_all run register_client create_code exchange_code redeem stored_code use_code
    create_token insert_token ◌>>=◌ pure lift read transaction purge purge_expired
    enforce_rate_limit put_limit current_window token hash_token pkce_s256 normalize_scope
    sort_dedup sort_by validate_redirect_uri validate_all insert_client insert_code
    client_allows_redirect
issued_token_valid_example =
    issued_token_valid crates setup 3 (at 3) redemption {response = response} {after = redeemed_db}
      refl (at 9) (omega arith) (omega arith)

accepted_bound_example : accepted 20 "token:stl_x" (3 ∷ 4 ∷ 5 ∷ []) redeemed_db ≤ 40
accepted_bound_example = accepted_bound 20 "token:stl_x" 3 (3 ∷ 4 ∷ 5 ∷ []) redeemed_db (
  ((omega arith), (omega arith)),
  (((omega arith), (omega arith)), (((omega arith), (omega arith)), tt)),
)
