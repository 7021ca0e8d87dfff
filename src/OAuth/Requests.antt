-- ===== src/OAuth/Requests.antt =====
-- src/oauth.rs: the configuration, the requests and responses, and the check of a redirect URI.
use shuttle_rs.Prelude.{
  ℕ, String, Option, List, [], ◌∷◌, Bool, true, false, not, ◌&&◌, ◌||◌, leb, ◌+◌, str_eq, ◌==◌, ◌&◌,
  any, map, codes, is_some, if◌then◌else◌,
}
use shuttle_rs.Core.{Result, ok, store, reject_if, ok_or, ◌>>◌, ◌>>=◌}
use shuttle_rs.OAuth.Tables.{OAuthCrates}

pub record OAuthConfig : Type 0 where
  pub public_url : String
  pub admin_token : Option String
  pub allow_dynamic_registration : Bool

abbrev pub resource_url : OAuthConfig → String
resource_url config = config.public_url & "/mcp"

abbrev pub dynamic_registration_enabled : OAuthConfig → Bool
dynamic_registration_enabled config = config.allow_dynamic_registration

pub record RegisterRequest : Type 0 where
  pub redirect_uris : List String
  pub client_name : Option String

pub record RegisteredClient : Type 0 where
  pub client_id : String
  pub client_secret : Option String
  pub redirect_uris : List String
  pub client_name : Option String

pub record AuthorizeRequest : Type 0 where
  pub response_type : String
  pub client_id : String
  pub redirect_uri : String
  pub state : Option String
  pub scope : Option String
  pub code_challenge : Option String
  pub code_challenge_method : Option String

pub record AuthorizeForm : Type 0 where
  pub admin_token : String
  pub response_type : String
  pub client_id : String
  pub redirect_uri : String
  pub state : Option String
  pub scope : Option String
  pub code_challenge : Option String
  pub code_challenge_method : Option String

abbrev pub from : AuthorizeForm → AuthorizeRequest
from form = record {
  response_type = form.response_type;
  client_id = form.client_id;
  redirect_uri = form.redirect_uri;
  state = form.state;
  scope = form.scope;
  code_challenge = form.code_challenge;
  code_challenge_method = form.code_challenge_method;
}

pub record TokenRequest : Type 0 where
  pub grant_type : String
  pub client_id : String
  pub redirect_uri : String
  pub code : Option String
  pub code_verifier : Option String

pub record TokenResponse : Type 0 where
  pub access_token : String
  pub token_type : String
  pub expires_in : ℕ
  pub scope : String

-- `u8::to_ascii_lowercase`
abbrev pub ascii_lower : ℕ → ℕ
ascii_lower c = if leb 65 c && leb c 90 then c + 32 else c

abbrev pub same_codes : List ℕ → List ℕ → Bool
same_codes [] [] = true
same_codes (x ∷ xs) (y ∷ ys) = x == y && same_codes xs ys
same_codes _ _ = false

abbrev pub eq_ignore_ascii_case : String → String → Bool
eq_ignore_ascii_case s t = same_codes (map ascii_lower (codes s)) (map ascii_lower (codes t))

module _ (c : OAuthCrates) where
  unfoldable pub validate_redirect_uri : String → Result (Unit {0})
  validate_redirect_uri value = do
    reject_if (any (λ x. x == 42) (codes value)) (store "redirect URI wildcards are not allowed")
    parsed ← ok_or (c.parse value) (store "redirect URI is malformed")
    reject_if
        (is_some parsed.fragment || not (str_eq parsed.username "") || is_some parsed.password)
        (store "redirect URI must not contain a fragment or userinfo")
    host ← ok_or parsed.host_str (store "redirect URI must include a host")
    reject_if
        (not (str_eq parsed.scheme "https")
          && not (
              str_eq parsed.scheme "http"
              && (parsed.loopback_ip || eq_ignore_ascii_case host "localhost")))
        (store "redirect URI must use HTTPS except for loopback URIs")
    ok tt

  -- `for uri in &redirect_uris { validate_redirect_uri(uri)?; }`
  unfoldable pub validate_all : List String → Result (Unit {0})
  unfolding validate_redirect_uri
  validate_all [] = ok tt
  validate_all (uri ∷ rest) = validate_redirect_uri uri >> validate_all rest
