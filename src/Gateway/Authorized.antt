-- ===== src/Gateway/Authorized.antt =====
-- Which requests the authentication of src/gateway.rs lets pass.
use shuttle_rs.Prelude.{
  ℕ, String, ◌≡◌, refl, sym, ap, ◌∙◌, Option, none, some, List, [], ◌∷◌, Bool, true, false, ◌⊎◌,
  ◌↔◌, inl, inr, length, arith, ◌&◌, ==_iff, Bool-cases,
}
use shuttle_rs.Prelude.Bytes.{xor, or, xor-eq-zero, or-eq-zero, as_bytes}
use shuttle_rs.Crates.{Crates}
use shuttle_rs.Core.{Result, ok, err}
use shuttle_rs.OAuth.Tables.{OAuthCrates, Db, Clock}
use shuttle_rs.OAuth.Flow.{validate_access_token}
use shuttle_rs.Gateway.Auth.{GatewayAuth, OAuthRuntime}
use shuttle_rs.Gateway.Authorize.{
  differences, constant_time_eq, is_oauth_public_route, Headers, bearer_token, set_token,
  is_expected, check_header, token_checked, check_token, authorize_by, authorize,
}

-- A difference that was found is never forgotten.
differences-eq-zero : (d : ℕ) (left right : List ℕ) → differences d left right ≡ 0 → d ≡ 0
unfolding differences
differences-eq-zero d [] [] h = h
differences-eq-zero d (x ∷ left) [] h =
    ((or-eq-zero d (xor x 0)).0 (differences-eq-zero (or d (xor x 0)) left [] h)).0
differences-eq-zero d [] (y ∷ right) h =
    ((or-eq-zero d (xor 0 y)).0 (differences-eq-zero (or d (xor 0 y)) [] right h)).0
differences-eq-zero d (x ∷ left) (y ∷ right) h =
    ((or-eq-zero d (xor x y)).0 (differences-eq-zero (or d (xor x y)) left right h)).0

differences-same :
    (d : ℕ) (left right : List ℕ)
    → length left ≡ length right
    → differences d left right ≡ 0
    → left ≡ right
unfolding differences
differences-same d [] [] len h = refl
differences-same d (x ∷ left) [] len h = absurd (omega (arith, len))
differences-same d [] (y ∷ right) len h = absurd (omega (arith, len))
differences-same d (x ∷ left) (y ∷ right) len h =
    let head =
      (xor-eq-zero x y).0
        ((or-eq-zero d (xor x y)).0 (differences-eq-zero (or d (xor x y)) left right h)).1 in
    let tail = differences-same (or d (xor x y)) left right (omega (arith, len)) h in
    cc (head, tail)

differences_refl : (d : ℕ) (bytes : List ℕ) → d ≡ 0 → differences d bytes bytes ≡ 0
unfolding differences
differences_refl d [] h = h
differences_refl d (x ∷ bytes) h =
    differences_refl (or d (xor x x)) bytes
      ((or-eq-zero d (xor x x)).1 (h, (xor-eq-zero x x).1 refl))

-- The comparison whose time does not depend on where two texts differ says that they are the same
-- exactly when they are.
pub constant_time_eq_iff :
    (left right : List ℕ) → (constant_time_eq left right ≡ true) ↔ (left ≡ right)
unfolding constant_time_eq
constant_time_eq_iff left right =
    let start = xor (length left) (length right) in
    (
      λ h.
          let zero_at_end = (==_iff (differences start left right) 0).0 h in
          let same_length =
            (xor-eq-zero (length left) (length right)).0
              (differences-eq-zero start left right zero_at_end) in
          differences-same start left right same_length zero_at_end,
      λ e. rw e (
          (==_iff (differences (xor (length right) (length right)) right right) 0).1 (
            differences_refl (xor (length right) (length right)) right
              ((xor-eq-zero (length right) (length right)).1 refl))),
    )

is_expected_iff :
    (token : String) (headers : Headers)
    → (is_expected token headers ≡ true) ↔ (
        (actual : String) × (headers ≡ some actual)
        × (as_bytes actual ≡ as_bytes ("Bearer " & token)))
unfolding is_expected
is_expected_iff token none = (λ h. cc, λ (actual, e, _). cc)
is_expected_iff token (some actual) =
    let (down, up) = constant_time_eq_iff (as_bytes actual) (as_bytes ("Bearer " & token)) in
    (
      λ h. (actual, refl, down h),
      λ (other, e, same). let text : actual ≡ other = cc e in up (ap as_bytes text ∙ same),
    )

module _ (c : Crates) (o : OAuthCrates) (is_header_value : String → Bool)
    (env : String → Option String) (now : Clock) (headers : Headers) where
  open c use {Value}

  -- What a request needs: the header that the token asks for, unless no token is set; over OAuth a
  -- bearer token that is valid; nothing where there is no authentication.
  abbrev pub Passes : GatewayAuth (Unit {0}) → Db → Type 0
  Passes (GatewayAuth.bearer token_env) db =
      (set_token env token_env ≡ none)
      ⊎ ((token : String) × (actual : String) × (set_token env token_env ≡ some token)
          × (headers ≡ some actual)
          × (as_bytes actual ≡ as_bytes ("Bearer " & token)))
  Passes (GatewayAuth.oauth runtime) db =
      (token : String) × (bearer_token headers ≡ some token)
      × ((validate_access_token o now token db).0 ≡ ok true)
  Passes GatewayAuth.none db = Unit

  check_header_iff :
      (wanted : Option String) (cors : Bool)
      → (check_header c o is_header_value env now wanted headers cors ≡ none) ↔ (
          (wanted ≡ none)
          ⊎ ((token : String) × (actual : String) × (wanted ≡ some token)
              × (headers ≡ some actual)
              × (as_bytes actual ≡ as_bytes ("Bearer " & token))))
  unfolding check_header
  check_header_iff none cors = (λ h. inl refl, λ h. refl)
  check_header_iff (some token) cors =
      let (down, up) = is_expected_iff token headers in
      elim (Bool-cases (is_expected token headers)) [
        | inl y ↦
            let (actual, given, same) = down y in
            (λ h. inr (token, actual, refl, given, same), λ h. rw y refl)
        | inr n ↦ (
          λ h. elim (Bool-cases cors) [ inl k ↦ cc (rw (n, k) at h) | inr k ↦ cc (rw (n, k) at h) ],
          λ h. elim h [
            | inl unset ↦ cc unset
            | inr (other, actual, e, given, same) ↦
                let text : token ≡ other = cc e in
                cc (n, up (actual, given, same ∙ ap (λ t. as_bytes ("Bearer " & t)) (sym text)))
          ],
        )
      ]

  token_checked_iff :
      (runtime : OAuthRuntime (Unit {0})) (outcome : Result Bool × Db)
      → ((token_checked c o is_header_value env now runtime outcome).0 ≡ none)
        ↔ (outcome.0 ≡ ok true)
  token_checked_iff runtime (ok true, db) = (λ h. refl, λ h. refl)
  token_checked_iff runtime (ok false, db) = (λ h. cc, λ h. cc)
  token_checked_iff runtime (err e, db) = (λ h. cc, λ h. cc)

  check_token_iff :
      (runtime : OAuthRuntime (Unit {0})) (given : Option String) (db : Db)
      → ((check_token c o is_header_value env now runtime given db).0 ≡ none) ↔ (
          (token : String) × (given ≡ some token)
          × ((validate_access_token o now token db).0 ≡ ok true))
  unfolding check_token
  check_token_iff runtime none db = (λ h. cc, λ (token, e, _). cc)
  check_token_iff runtime (some token) db =
      let (down, up) = token_checked_iff runtime (validate_access_token o now token db) in
      (
        λ h. (token, refl, down h),
        λ (other, e, valid).
            let text : token ≡ other = cc e in
            up (ap (λ t. (validate_access_token o now t db).0) text ∙ valid),
      )

  -- A request outside the public routes of OAuth passes exactly if it has what its listener asks for:
  -- a header that is `Bearer` and the token, byte by byte, where a token is set; over OAuth a bearer
  -- token that is valid; and anything where no token is set or no authentication is asked for.
  pub authorize_iff :
      (auth : GatewayAuth (Unit {0})) (path : String) (cors : Bool) (db : Db)
      → is_oauth_public_route path ≡ false
      → ((authorize c o is_header_value env now auth headers path cors db).0 ≡ none)
        ↔ Passes auth db
  unfolding authorize authorize_by
  authorize_iff (GatewayAuth.bearer token_env) path cors db h =
      rw h (check_header_iff (set_token env token_env) cors)
  authorize_iff (GatewayAuth.oauth runtime) path cors db h =
      rw h (check_token_iff runtime (bearer_token headers) db)
  authorize_iff GatewayAuth.none path cors db h = rw h (λ _. tt, λ _. refl)
