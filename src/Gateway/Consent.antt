-- ===== src/Gateway/Consent.antt =====
-- What the consent form of src/gateway.rs gives, and under which token.
use shuttle_rs.Prelude.{
  ℕ, arith, String, ◌≡◌, refl, some, true, false, not, str_eq, if_cases, Bool-cases, inl, inr,
}
use shuttle_rs.Prelude.Bytes.{as_bytes}
use shuttle_rs.Crates.{Crates}
use shuttle_rs.Core.{Result, ok, err}
use shuttle_rs.OAuth.Tables.{OAuthCrates, Db, Clock}
use shuttle_rs.OAuth.Requests.{OAuthConfig, AuthorizeForm, from}
use shuttle_rs.OAuth.Flow.{create_code}
use shuttle_rs.OAuth.Redirect.{authorize_redirect}
use shuttle_rs.Gateway.Auth.{GatewayAuth, OAuthRuntime}
use shuttle_rs.Gateway.Authorize.{constant_time_eq}
use shuttle_rs.Gateway.Pages.{outcome, redirect_to, lacks_admin_token, oauth_authorize_submit}
use shuttle_rs.Gateway.Authorized.{constant_time_eq_iff}
use shuttle_rs.Gateway.Responses.{Response, oauth_error}

module _ (c : Crates) (o : OAuthCrates) (now : Clock) (id : ℕ) where
  open c use {Value}

  -- The redirection is the answer only where the store made a code.
  outcome-redirect :
      (target : String → String) (failed : Response Value) (r : Result String × Db)
      → ¬ (failed.status ≡ 303)
      → (outcome c o now id (λ code. redirect_to c o now id (target code)) failed r).0.status ≡ 303
      → (code : String) × (r ≡ (
        ok code,
        (outcome c o now id (λ code. redirect_to c o now id (target code)) failed r).1,
      ))
        × ((outcome c o now id (λ code. redirect_to c o now id (target code)) failed r).0
            ≡ redirect_to c o now id (target code))
  outcome-redirect target failed (ok code, db) h e = (code, refl, refl)
  outcome-redirect target failed (err failure, db) h e = absurd (h e)

  lacks_admin_token_iff :
      (config : OAuthConfig) (form : AuthorizeForm) (expected : String)
      → config.admin_token ≡ some expected
      → (lacks_admin_token c o now id config form ≡ true
          → ¬ (as_bytes form.admin_token ≡ as_bytes expected))
        × (lacks_admin_token c o now id config form ≡ false
            → as_bytes form.admin_token ≡ as_bytes expected)
  unfolding lacks_admin_token
  lacks_admin_token_iff config form expected configured =
      let (down, up) = constant_time_eq_iff (as_bytes form.admin_token) (as_bytes expected) in
      elim (Bool-cases (constant_time_eq (as_bytes form.admin_token) (as_bytes expected))) [
        | inl y ↦ rw (configured, y) ((λ e. cc e), λ _. down y)
        | inr n ↦ rw (configured, n) ((λ _ same. cc (up same, n)), λ e. cc e)
      ]

  -- What the answer to the consent form is, under a token of the administrator.
  abbrev pub Submitted : AuthorizeForm → Db → String → Response Value × Db → Type 0
  Submitted form db expected (response, after) =
      (¬ (as_bytes form.admin_token ≡ as_bytes expected) → (response.status ≡ 401) × (after ≡ db))
      × (response.status ≡ 303
          → (as_bytes form.admin_token ≡ as_bytes expected)
            × ((code : String) × (create_code o id now (from form) db ≡ (ok code, after))
                × (response
                    ≡ redirect_to c o now id
                        (authorize_redirect form.redirect_uri code form.state))))

  -- The consent form only gives a client a code under the administrator's token: where the server has
  -- one, and the form's is another, the answer is 401 and the tables stay as they are; the client is
  -- sent back only where it is the same, with the code that is created as the request asks.
  pub oauth_authorize_submit_lem :
      (runtime : OAuthRuntime (Unit {0})) (form : AuthorizeForm) (db : Db) (expected : String)
      → runtime.config.admin_token ≡ some expected
      → Submitted form db expected
          (oauth_authorize_submit c o now id (GatewayAuth.oauth runtime) form db)
  unfolding oauth_authorize_submit oauth_error
  oauth_authorize_submit_lem runtime form db expected configured =
      let (refuses, accepts) = lacks_admin_token_iff runtime.config form expected configured in
      let P = Submitted form db expected in
      if_cases P (lacks_admin_token c o now id runtime.config form) _ _
        (λ y. ((λ _. (refl, refl)), λ e. absurd (omega (arith, e))))
        (λ n.
          if_cases P (not (str_eq form.response_type "code")) _ _
            (λ _. ((λ h. absurd (h (accepts n))), λ e. absurd (omega (arith, e))))
            (λ _. (
              (λ h. absurd (h (accepts n))),
              λ e. (
                accepts n,
                outcome-redirect (λ code. authorize_redirect form.redirect_uri code form.state) _
                    (create_code o id now (from form) db) (λ k. omega (arith, k)) e,
              ),
            )))
