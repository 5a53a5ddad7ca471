-- ===== src/Server/Dispatch.antt =====
-- What a request meets of the routes that www/handlers registers, with the check of www/middleware.
--
-- The matching of fiber is the record `Routing`: which routes a request matches, its method included, and
-- the reply of the middleware that is fiber's own where it ends the request. The routes are gone
-- through in the order of their registration, each matching middleware in turn, up to an endpoint.
pub mod Admin
pub mod Tiles
mod Runs
use lod.Prelude.{
  List, [], ◌∷◌, ◌++◌, if_both, Bool, true, false, if◌then◌else◌, Option, none, some, ◌≡◌, ◌⊎◌, inl,
  inr, refl, Bool-cases, All, arith, sym, subst, ap, ◌∙◌,
}
use lod.Prelude.Text.{Text, codes}
use lod.Environment.{Env}
use lod.Web.{Fiber, Reply}
use lod.Middleware.{
  Middleware, AuthType, recovers, request_id, compresses, cors, cache_name, auth, fallback,
  Credentials, auth_check, gen_auth, not_found_reply,
}
use lod.Server.{Endpoint, Route, use_all, get}
use lod.Server.Guards.{IsBehind}

pub record Routing (f : Fiber) : Type 0 where
  pub matches : Route → Bool
  pub own_reply : Middleware → Option (Reply f)

-- How a request ends: with a reply of a middleware and the local `lod-cache`, at an endpoint, with the
-- values of `cacheName` that were set, or behind all routes.
pub data Outcome (f : Fiber) : Type 0 where
  ended : Option Text → Reply f → Outcome f
  reached : Route → Endpoint → Outcome f
  unmatched : Outcome f

module _ {f : Fiber} (routing : Routing f) (environment : Env) (given : Credentials)
    (reply : Reply f) where
  abbrev pub replies : Option (Text × Reply f) → Option (Option Text × Reply f)
  replies none = none
  replies (some (status, r)) = some (some status, r)

  abbrev pub own : Option (Reply f) → Option (Option Text × Reply f)
  own none = none
  own (some r) = some (none, r)

  -- The reply of a middleware, `none` where it calls `Next`.
  unfoldable pub meets : Middleware → Option (Option Text × Reply f)
  meets (auth token auth_type not_found) =
      replies (gen_auth environment token auth_type not_found given reply)
  meets fallback = some (none, not_found_reply reply)
  meets (cache_name name) = none
  meets recovers = none
  meets request_id = own (routing.own_reply request_id)
  meets compresses = own (routing.own_reply compresses)
  meets (cors origins headers methods) = own (routing.own_reply (cors origins headers methods))

  unfoldable pub dispatch : List Route → Outcome f
  dispatch [] = unmatched
  dispatch (use_all group m ∷ rs) =
      let rest = dispatch rs in
      if routing.matches (use_all group m)
      then elim (meets m) [ none ↦ rest | some (status, r) ↦ ended status r ]
      else rest
  dispatch (get group path e ∷ rs) =
      let rest = dispatch rs in
      if routing.matches (get group path e) then reached (get group path e) e else rest

-- A request that matches a route of a group matches the group's middleware, as fiber documents `Group`.
abbrev pub Prefixed : {f : Fiber} → Routing f → Type 0
Prefixed routing =
    (group rest : List Text) (path : Text) (e : Endpoint) (m : Middleware)
    → routing.matches (get (group ++ rest) path e) ≡ true
    → routing.matches (use_all group m) ≡ true

-- A route that is meant stands in the group.
abbrev pub InGroup : List Text → (Route → Bool) → Route → Type 0
InGroup group meant (use_all other m) = meant (use_all other m) ≡ false
InGroup group meant (get other path e) =
    (meant (get other path e) ≡ false) ⊎ ((rest : List Text) × (other ≡ group ++ rest))

-- An outcome that is not the endpoint of a route that is meant.
abbrev pub IsKept : {f : Fiber} → (Route → Bool) → Outcome f → Type 0
IsKept meant (reached r e) = meant r ≡ false
IsKept meant (ended status r) = Unit {0}
IsKept meant unmatched = Unit {0}

IsKept-after :
    {f : Fiber} (meant : Route → Bool) (o : Option (Option Text × Reply f)) (x : Outcome f)
    → IsKept meant x
    → IsKept meant (elim o [ none ↦ x | some (status, r) ↦ ended status r ])
IsKept-after meant none x h = h
IsKept-after meant (some (status, r)) x h = tt

module _ {f : Fiber} (routing : Routing f) (environment : Env) (given : Credentials)
    (reply : Reply f) (prefixed : Prefixed routing) (group : List Text) (meant : Route → Bool)
    (token : Text) (auth_type : AuthType) (not_found : Bool)
    (refused : auth_check auth_type token given ≡ false) where
  abbrev guard : Route
  guard = use_all group (auth token auth_type not_found)

  -- Where the group's middleware does not match, none of its routes does.
  unguarded :
      (rs : List Route)
      → routing.matches guard ≡ false
      → All (InGroup group meant) rs
      → IsKept meant (dispatch routing environment given reply rs)
  unfolding dispatch
  unguarded [] off h = tt
  unguarded (use_all other m ∷ rs) off h =
      let rest = unguarded rs off h.1 in
      if_both (IsKept meant) (routing.matches (use_all other m))
        (IsKept-after meant (meets routing environment given reply m) _ rest) rest
  unguarded (get other path e ∷ rs) off h = elim (Bool-cases (routing.matches (get other path e))) [
    | inr off_here ↦ rw off_here (unguarded rs off h.1)
    | inl on ↦ rw on (elim h.0 [
      | inl other_route ↦ other_route
      | inr (rest, e') ↦ absurd (false_true (off_on rest path e e' on))
    ])
  ]
    where
      off_on :
          (rest : List Text) (path : Text) (e : Endpoint)
          → other ≡ group ++ rest
          → routing.matches (get other path e) ≡ true
          → false ≡ true
      off_on rest path e e' on =
          let there : routing.matches (get (group ++ rest) path e) ≡ true = rw (← e') on in
          sym off ∙ prefixed group rest path e (auth token auth_type not_found) there

      false_true : ◌≡◌ {A = Bool} false true → ⊥
      false_true q = cc

  meets_guard :
      (x : Outcome f)
      → IsKept meant
          (elim (meets routing environment given reply (auth token auth_type not_found)) [
            | none ↦ x
            | some (status, r) ↦ ended status r
          ])
  unfolding meets gen_auth
  meets_guard x = rw refused tt

  -- A request that the check refuses does not come to a route of the group that is meant.
  pub guarded :
      (rs : List Route)
      → IsBehind guard meant rs
      → All (InGroup group meant) rs
      → IsKept meant (dispatch routing environment given reply rs)
  unfolding dispatch IsBehind
  guarded [] b h = tt
  guarded (r ∷ rs) (inl e) h = elim (Bool-cases (routing.matches guard)) [
    | inr off ↦ unguarded (r ∷ rs) off h
    | inl on ↦ rw (e, on) (meets_guard (dispatch routing environment given reply rs))
  ]
  guarded (use_all other m ∷ rs) (inr (differs, b)) h =
      let rest = guarded rs b h.1 in
      if_both (IsKept meant) (routing.matches (use_all other m))
        (IsKept-after meant (meets routing environment given reply m) _ rest) rest
  guarded (get other path e ∷ rs) (inr (differs, b)) h =
      if_both (IsKept meant) (routing.matches (get other path e)) differs (guarded rs b h.1)
