-- ===== src/Middleware/Auth.antt =====
-- Whom the tokens let through (`GenAuthMiddleware`, www/middleware/middleware.go).
use lod.Prelude.{
  [], ◌++◌, Bool, true, if◌then◌else◌, none, some, ◌≡◌, ◌↔◌, ◌⊎◌, inl, inr, refl, Bool-cases,
}
use lod.Prelude.Text.{Text, codes, text_eq_iff}
use lod.Environment.{Env, prod, is_prod}
use lod.Web.{Fiber, Reply}
use lod.Middleware.{
  AuthType, bearer, query, Credentials, auth_check, refusal, gen_auth, not_found_reply,
}

-- What a client has to send.
abbrev pub Presents : AuthType → Text → Credentials → Type 0
Presents bearer token given = given.authorization ≡ codes "Bearer " ++ token
Presents query token given = given.token ≡ token

auth_check_iff :
    (auth_type : AuthType) (token : Text) (given : Credentials)
    → (auth_check auth_type token given ≡ true) ↔ Presents auth_type token given
unfolding auth_check
auth_check_iff bearer token given = text_eq_iff given.authorization (codes "Bearer " ++ token)
auth_check_iff query token given = text_eq_iff given.token token

module _ {f : Fiber} where
  -- The check calls the next handler exactly if the client sends the token in the way that is
  -- configured.
  gen_auth-passes_iff :
      (environment : Env) (token : Text) (auth_type : AuthType) (hidden : Bool)
      (given : Credentials) (reply : Reply f)
      → (gen_auth environment token auth_type hidden given reply ≡ none)
        ↔ Presents auth_type token given
  unfolding gen_auth
  gen_auth-passes_iff environment token auth_type hidden given reply =
      elim (Bool-cases (auth_check auth_type token given)) [
        | inl right ↦ (λ h. (auth_check_iff auth_type token given).0 right, λ h. rw right refl)
        | inr wrong ↦ (
          λ h. absurd (cc (rw wrong at h)),
          λ h. absurd (cc ((auth_check_iff auth_type token given).1 h, wrong)),
        )
      ]

  -- The check calls the next handler exactly if the client sends the token in the way that is
  -- configured. In production, any other request has the local ":nauth" and an empty body: with the
  -- status 401, or, where that is asked for, with the very reply of a path that does not exist.
  pub gen_auth_lem :
      (environment : Env) (token : Text) (auth_type : AuthType) (hidden : Bool)
      (given : Credentials) (reply : Reply f)
      → ((gen_auth environment token auth_type hidden given reply ≡ none)
          ↔ Presents auth_type token given)
        × ((gen_auth prod token auth_type hidden given reply ≡ none)
            ⊎ (gen_auth prod token auth_type hidden given reply
                ≡ some (
                  codes ":nauth",
                  if hidden
                      then not_found_reply reply
                      else record reply { status = 401; body = [] },
                )))
  unfolding gen_auth refusal not_found_reply is_prod
  gen_auth_lem environment token auth_type hidden given reply = (
    gen_auth-passes_iff environment token auth_type hidden given reply,
    elim (Bool-cases (auth_check auth_type token given)) [
      | inl right ↦ inl (rw right refl)
      | inr wrong ↦ inr (rw wrong refl)
    ],
  )
