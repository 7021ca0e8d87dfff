-- ===== src/OAuth/Tables.antt =====
-- src/oauth.rs: the SQLite tables as lists of rows, and the statements that the operations share.
-- A text that `to_rfc3339` writes for an instant in UTC sorts as the instant does, so an instant is
-- kept as its number of nanoseconds (see Crates.antt). A list of texts is kept as itself where the
-- table has the JSON text of it.
use shuttle_rs.Prelude.{
  split_whitespace, ℕ, String, Option, none, some, List, [], ◌∷◌, Bool, not, ◌||◌, ltb, leb, ◌+◌,
  str_eq, if◌then◌else◌, any, find, retain, is_some, unwrap_or, ◌&◌,
}
use shuttle_rs.Core.{Result, ok, err, store}

-- What the operations take of url, sha2, base64, uuid and rusqlite.
pub record Url : Type 0 where
  pub fragment : Option String
  pub username : String
  pub password : Option String
  pub host_str : Option String
  -- `parsed.host()` is an address, of either version, for which `is_loopback` holds
  pub loopback_ip : Bool
  pub scheme : String

pub record OAuthCrates : Type 0 where
  -- `Url::parse(value).ok()`
  pub parse : String → Option Url
  -- `URL_SAFE_NO_PAD.encode(Sha256::digest(value))`
  pub digest : String → String
  -- `Uuid::simple`
  pub simple : ℕ → String
  -- the text of the error when the key of a new row is taken
  pub unique_error : String → String

pub record ClientRow : Type 0 where
  pub client_id : String
  pub client_secret : Option String
  pub redirect_uris : List String
  pub client_name : Option String
  pub created_at : ℕ

pub record CodeRow : Type 0 where
  pub code : String
  pub client_id : String
  pub redirect_uri : String
  pub code_challenge : String
  pub code_challenge_method : String
  pub scope : String
  pub expires_at : ℕ
  pub used_at : Option ℕ
  pub created_at : ℕ

pub record TokenRow : Type 0 where
  pub token : String
  pub client_id : String
  pub scope : String
  pub expires_at : ℕ
  pub created_at : ℕ
  pub revoked_at : Option ℕ

pub record LimitRow : Type 0 where
  pub key : String
  pub window_started : ℕ
  pub request_count : ℕ

pub record Db : Type 0 where
  pub oauth_clients : List ClientRow
  pub oauth_codes : List CodeRow
  pub oauth_tokens : List TokenRow
  pub oauth_rate_limits : List LimitRow

-- An operation under the lock: it returns or fails, and leaves the tables in some state.
abbrev pub Action : Type 0 → Type 0
Action A = Db → Result A × Db

abbrev pub bind : {A B : Type 0} → Result A × Db → (A → Action B) → Result B × Db
bind (ok a, db) f = f a db
bind (err e, db) f = (err e, db)

infixl 5 ◌>>=◌ ◌>>◌
unfoldable pub ◌>>=◌ : {A B : Type 0} → Action A → (A → Action B) → Action B
(m >>= f) db = bind (m db) f

abbrev pub ◌>>◌ : {B : Type 0} → Action (Unit {0}) → Action B → Action B
m >> k = m >>= λ _. k

unfoldable pub pure : {A : Type 0} → A → Action A
pure a db = (ok a, db)

-- A computation that neither reads nor changes the tables.
unfoldable pub lift : {A : Type 0} → Result A → Action A
lift m db = (m, db)

unfoldable pub read : {A : Type 0} → (Db → A) → Action A
read f db = (ok (f db), db)

abbrev pub settle : {A : Type 0} → Db → Result A × Db → Result A × Db
settle before (ok a, db) = (ok a, db)
settle before (err e, db) = (err e, before)

-- `conn.transaction()` up to `tx.commit()`: an error on the way drops `tx`, which rolls back.
unfoldable pub transaction : {A : Type 0} → Action A → Action A
transaction m db = settle db (m db)

-- The readings of `Utc::now()` in one call, by their number in the order of the code.
abbrev pub Clock : Type 0
Clock = ℕ → ℕ

abbrev pub second : ℕ
second = 1_000_000_000

-- `Duration::minutes(1)`
abbrev pub rate_window : ℕ
rate_window = 60_000_000_000

abbrev pub lives : ℕ → CodeRow → Bool
lives now row = not (ltb row.expires_at now)

abbrev pub token_lives : ℕ → TokenRow → Bool
token_lives now row = not (ltb row.expires_at now || is_some row.revoked_at)

unfoldable pub purge_expired : ℕ → Db → Db
purge_expired now db = record db {
  oauth_codes = retain (lives now) db.oauth_codes;
  oauth_tokens = retain (token_lives now) db.oauth_tokens;
}

unfoldable pub purge : ℕ → Action (Unit {0})
unfolding purge_expired
purge now db = (ok tt, purge_expired now db)

abbrev pub has_key : String → LimitRow → Bool
has_key key row = str_eq row.key key

-- `INSERT .. ON CONFLICT(key) DO UPDATE`
unfoldable pub put_limit : LimitRow → List LimitRow → List LimitRow
put_limit row [] = row ∷ []
put_limit row (r ∷ rows) = if has_key row.key r then row ∷ rows else r ∷ put_limit row rows

-- The window and the count that a request at `now` falls in.
unfoldable pub current_window : ℕ → Option LimitRow → ℕ × ℕ
current_window now none = (now, 0)
current_window now (some row) =
    if ltb now (row.window_started + rate_window)
    then (row.window_started, row.request_count)
    else (now, 0)

unfoldable pub enforce_rate_limit : ℕ → String → ℕ → Action (Unit {0})
unfolding current_window put_limit
enforce_rate_limit now key max_requests db =
    let (window_started, request_count) =
      current_window now (find (has_key key) db.oauth_rate_limits) in
    if leb max_requests request_count then (err (store "rate limit exceeded"), db) else (
      ok tt,
      record db {
        oauth_rate_limits =
            put_limit
              (record {
                key = key;
                window_started = window_started;
                request_count = request_count + 1;
              })
              db.oauth_rate_limits;
      },
    )

-- `scope.split_whitespace().any(|scope| scope == MCP_SCOPE)`
abbrev pub grants_mcp : String → Bool
grants_mcp scope = any (λ word. str_eq word "mcp") (split_whitespace scope)

unfoldable pub normalize_scope : Option String → String
normalize_scope scope =
    let scope = unwrap_or scope "mcp" in if grants_mcp scope then scope else "mcp"

module _ (c : OAuthCrates) where
  unfoldable pub token : ℕ → String
  token id = "stl_" & c.simple id

  unfoldable pub hash_token : String → String
  hash_token value = c.digest value

  unfoldable pub pkce_s256 : String → String
  pkce_s256 verifier = c.digest verifier
