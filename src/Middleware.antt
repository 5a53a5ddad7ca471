-- ===== src/Middleware.antt =====
-- www/middleware/middleware.go: what is put in front of the handlers.
--
-- The compression, the request identifiers and the CORS headers are fiber's; what the code chooses of
-- them is the list that `wire` gives. A handler that calls `Next` is `none`; one that ends the request
-- gives its reply, with the local `lod-cache` if it sets it.
pub mod Auth
use lod.Prelude.{List, [], ◌∷◌, ◌++◌, Bool, true, false, not, if◌then◌else◌, Option, none, some}
use lod.Prelude.Text.{Text, codes, text_eq}
use lod.Config.{Proxy}
use lod.Environment.{Env, is_prod}
use lod.Web.{Fiber, Reply, fields, send_empty, send_status}

pub data AuthType : Type 0 where
  bearer : AuthType
  query : AuthType

pub data Middleware : Type 0 where
  recovers : Middleware
  request_id : Middleware
  compresses : Middleware
  cors : Text → Text → Text → Middleware
  cache_name : Text → Middleware
  auth : Text → AuthType → Bool → Middleware
  fallback : Middleware

-- The origins that CORS allows.
unfoldable pub origins : {Opts : Type 0} → Option (Proxy Opts) → Text
origins none = codes "*"
origins (some proxy) = if text_eq proxy.cors_origins [] then codes "*" else proxy.cors_origins

-- Responses are compressed where there is no proxy.
abbrev pub compression : {Opts : Type 0} → Option (Proxy Opts) → List Middleware
compression none = compresses ∷ []
compression (some proxy) = []

-- `Wire`
unfoldable pub wire : {Opts : Type 0} → Option (Proxy Opts) → List Middleware
wire proxy =
    request_id
    ∷ (compression proxy
        ++ cors (origins proxy) (codes "Origin, Content-Type, Accept") (codes "GET,HEAD,OPTIONS")
          ∷ [])

-- What the check reads of a request: the header `Authorization` and the parameter `token`.
pub record Credentials : Type 0 where
  pub authorization : Text
  pub token : Text

unfoldable pub auth_check : AuthType → Text → Credentials → Bool
auth_check bearer token given = text_eq given.authorization (codes "Bearer " ++ token)
auth_check query token given = text_eq given.token token

module _ {f : Fiber} where
  -- The reply to a request without the token.
  unfoldable pub refusal : Env → Bool → Reply f → Reply f
  refusal environment not_found reply =
      if not (is_prod environment)
      then send_status 401
          (fields (
            (codes "status", codes "error")
            ∷ (codes "message", codes "failed to auth, invalid token supplied")
            ∷ []))
          reply
      else if not_found
      then send_empty 404 reply
      else send_empty 401 reply

  -- The handler of `GenAuthMiddleware`
  unfoldable pub gen_auth :
      Env → Text → AuthType → Bool → Credentials → Reply f → Option (Text × Reply f)
  gen_auth environment token auth_type not_found given reply =
      if auth_check auth_type token given
      then none
      else some (codes ":nauth", refusal environment not_found reply)

  -- The handler of `NotFound`
  unfoldable pub not_found_reply : Reply f → Reply f
  not_found_reply = send_empty 404
