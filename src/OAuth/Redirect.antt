-- ===== src/OAuth/Redirect.antt =====
-- src/oauth.rs: the documents that describe the server, and the address that a client is sent back to.
use Prim.Native.Nat.{compare, Ordering}
use Prim.Native.Char.{Char, char, nul, IsScalar}
use mathlib.Core.Logic.{dite}
use native.Mathlib.Decide.{dec_lt}
use shuttle_rs.Prelude.{
  arith, ◌≡◌, ◌<◌, ℕ, zero, suc, ◌/◌, ◌%◌, String, Option, none, some, List, [], ◌∷◌, Bool, ◌&&◌,
  ◌||◌, ◌==◌, leb, if◌then◌else◌, includes, ◌&◌,
}
use shuttle_rs.Prelude.Bytes.{as_bytes}
use shuttle_rs.Crates.{Crates}
use shuttle_rs.OAuth.Requests.{OAuthConfig, resource_url}

module _ (c : Crates) where
  open c use {Value, text, texts, object}

  unfoldable pub authorization_server_metadata : OAuthConfig → Value
  authorization_server_metadata config = object (
      ("schema_version", text "shuttle.v1")
      ∷ ("issuer", text config.public_url)
      ∷ ("authorization_endpoint", text (config.public_url & "/oauth/authorize"))
      ∷ ("token_endpoint", text (config.public_url & "/oauth/token"))
      ∷ ("registration_endpoint", text (config.public_url & "/oauth/register"))
      ∷ ("revocation_endpoint", text (config.public_url & "/oauth/revoke"))
      ∷ ("response_types_supported", texts ("code" ∷ []))
      ∷ ("grant_types_supported", texts ("authorization_code" ∷ []))
      ∷ ("code_challenge_methods_supported", texts ("S256" ∷ []))
      ∷ ("token_endpoint_auth_methods_supported", texts ("none" ∷ []))
      ∷ ("scopes_supported", texts ("mcp" ∷ []))
      ∷ [])

  unfoldable pub protected_resource_metadata : OAuthConfig → Value
  protected_resource_metadata config = object (
      ("schema_version", text "shuttle.v1")
      ∷ ("resource", text (resource_url config))
      ∷ ("authorization_servers", texts (config.public_url ∷ []))
      ∷ ("scopes_supported", texts ("mcp" ∷ []))
      ∷ ("bearer_methods_supported", texts ("header" ∷ []))
      ∷ [])

-- The digit of `{:X}`, for a number below sixteen.
abbrev pub hex_digit : ℕ → Char
hex_digit zero = "0"
hex_digit (suc zero) = "1"
hex_digit (suc (suc zero)) = "2"
hex_digit (suc (suc (suc zero))) = "3"
hex_digit (suc (suc (suc (suc zero)))) = "4"
hex_digit (suc (suc (suc (suc (suc zero))))) = "5"
hex_digit (suc (suc (suc (suc (suc (suc zero)))))) = "6"
hex_digit (suc (suc (suc (suc (suc (suc (suc zero))))))) = "7"
hex_digit (suc (suc (suc (suc (suc (suc (suc (suc zero)))))))) = "8"
hex_digit (suc (suc (suc (suc (suc (suc (suc (suc (suc zero))))))))) = "9"
hex_digit (suc (suc (suc (suc (suc (suc (suc (suc (suc (suc zero)))))))))) = "A"
hex_digit (suc (suc (suc (suc (suc (suc (suc (suc (suc (suc (suc zero))))))))))) = "B"
hex_digit (suc (suc (suc (suc (suc (suc (suc (suc (suc (suc (suc (suc zero)))))))))))) = "C"
hex_digit (suc (suc (suc (suc (suc (suc (suc (suc (suc (suc (suc (suc (suc zero))))))))))))) = "D"
hex_digit (suc (suc (suc (suc (suc (suc (suc (suc (suc (suc (suc (suc (suc (suc zero)))))))))))))) =
    "E"
hex_digit _ = "F"

-- Letters, digits, `-`, `.`, `_` and `~`.
abbrev pub is_unreserved : ℕ → Bool
is_unreserved byte =
    (leb 65 byte && leb byte 90)
    || (leb 97 byte && leb byte 122)
    || (leb 48 byte && leb byte 57)
    || byte == 45
    || byte == 46
    || byte == 95
    || byte == 126

pub ascii-IsScalar : (byte : ℕ) → byte < 128 → IsScalar byte
ascii-IsScalar byte h =
    let below : compare byte 55296 ≡ Ordering.lt = ground (arith, h) in rw below tt

-- `byte as char`, for a byte of ASCII; it is used on unreserved bytes only.
unfoldable pub ascii : ℕ → Char
ascii byte = dite (dec_lt byte 128) (λ h. char byte (ascii-IsScalar byte h)) (λ _. nul)

unfoldable pub encode_bytes : List ℕ → String
unfolding ascii
encode_bytes [] = ""
encode_bytes (byte ∷ bytes) =
    let rest = encode_bytes bytes in
    if is_unreserved byte
    then String.◌∷◌ (ascii byte) rest
    else String.◌∷◌ "%"
        (String.◌∷◌ (hex_digit (byte / 16)) (String.◌∷◌ (hex_digit (byte % 16)) rest))

unfoldable pub query_component : String → String
unfolding encode_bytes as_bytes
query_component value = encode_bytes (as_bytes value)

abbrev with_state : String → Option String → String
with_state target none = target
with_state target (some state) = target & "&state=" & query_component state

unfoldable pub authorize_redirect : String → String → Option String → String
unfolding query_component
authorize_redirect redirect_uri code state =
    with_state
      (redirect_uri
        & (if includes redirect_uri "?" then "&" else "?")
        & "code="
        & query_component code)
      state
