-- ===== src/Gateway/Responses.antt =====
-- src/gateway.rs: the responses of the gateway.
use shuttle_rs.Prelude.{
  ℕ, String, List, [], ◌∷◌, ◌++◌, Bool, true, false, ◌&&◌, ◌||◌, leb, ◌==◌, if◌then◌else◌, includes,
  replace_char, ◌&◌,
}
use shuttle_rs.Crates.{Crates}
use shuttle_rs.Core.{ShuttleError, error_text}
use shuttle_rs.Api.{schema_version, api_error}
use shuttle_rs.OAuth.Requests.{OAuthConfig}

-- The headers are those that a handler sets itself; a body is JSON, or else a text.
pub data Body (V : Type 0) : Type 0 where
  empty : Body V
  json : V → Body V
  html : String → Body V

pub record Response (V : Type 0) : Type 0 where
  pub status : ℕ
  pub headers : List (String × String)
  pub body : Body V

module _ (c : Crates) where
  open c use {Value, text, bool, object}

  abbrev pub json_response : ℕ → Value → Response Value
  json_response status value = record { status = status; headers = []; body = json value }

  unfoldable pub with_cors : Response Value → Response Value
  with_cors response = record response {
    headers =
        response.headers
        ++ ("access-control-allow-origin", "*")
          ∷ ("access-control-allow-methods", "GET,POST,DELETE,OPTIONS")
          ∷ (
            "access-control-allow-headers",
            "accept,authorization,content-type,mcp-protocol-version,mcp-session-id",
          )
          ∷ ("access-control-expose-headers", "mcp-session-id")
          ∷ [];
  }

  unfoldable pub quoted_header_value : String → String
  quoted_header_value value = replace_char 34 "\\\"" (replace_char 92 "\\\\" value)

  -- `HeaderValue::from_str` is an argument: whether a text can be the value of a header.
  unfoldable pub unauthorized_oauth : (String → Bool) → OAuthConfig → Response Value
  unfolding with_cors api_error quoted_header_value
  unauthorized_oauth is_header_value config =
      let response =
        with_cors (json_response 401 (api_error c "unauthorized" "authentication required" true)) in
      let header_value =
        "Bearer resource_metadata=\""
        & quoted_header_value config.public_url
        & "/.well-known/oauth-protected-resource/mcp\", scope=\"mcp\"" in
      if is_header_value header_value
      then record response { headers = response.headers ++ ("www-authenticate", header_value) ∷ [] }
      else response

  -- `status.is_server_error()`
  abbrev is_server_error : ℕ → Bool
  is_server_error status = leb 500 status && leb status 599

  unfoldable pub oauth_error : ℕ → String → String → Response Value
  oauth_error status code description = json_response status (
      object (
        ("schema_version", text schema_version)
        ∷ ("error", text code)
        ∷ ("error_description", text description)
        ∷ ("retryable", bool (status == 429 || is_server_error status))
        ∷ []))

  unfoldable pub error_response : ShuttleError → Response Value
  unfolding api_error error_text
  error_response failure =
      let details = error_text failure in
      if includes details "not found" || includes details "not configured"
      then json_response 404 (api_error c "not_found" "requested resource was not found" false)
      else if includes details "required"
          || includes details "invalid"
          || includes details "must "
          || includes details "cannot "
      then json_response 400 (api_error c "invalid_request" "request is invalid" false)
      else json_response 500 (api_error c "internal_error" "request could not be completed" true)

  unfoldable pub oauth_not_configured : Response Value
  unfolding api_error
  oauth_not_configured = json_response 404 (api_error c "not_found" "OAuth is not configured" false)
