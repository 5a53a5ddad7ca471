-- ===== src/Server/Dispatch/Tiles.antt =====
-- A request for a tile of a proxy that has a token (www/handlers/proxy/wire.go).
use lod.Prelude.{
  List, [], ◌∷◌, Bool-cases, false, not, if_both, some, ◌≡◌, ◌≢◌, inl, inr, refl, ap, All,
  All-append,
}
use lod.Prelude.Text.{Text, codes, text_eq, eq_of_text_eq}
use lod.Config.{Proxy, Capabilities}
use lod.Environment.{Env}
use lod.Web.{Fiber, Reply}
use lod.Middleware
use lod.Middleware.{auth, query, fallback, Credentials, auth_check}
use lod.Server.{
  Endpoint, Route, use_all, get, use_each, tile, with_endpoint, wire_admin, wire_proxy,
  wire_proxies, wire_handlers,
}
use lod.Server.Guards.{is_tile_of}
use lod.Server.TileGuards.{IsIteration, HaveToken, wire_admin-Other, wire_handlers-tile_IsBehind}
use lod.Server.Dispatch.{Routing, dispatch, Prefixed, InGroup, IsKept, guarded}
use lod.Server.Dispatch.Admin.{InGroup-unmeant, use_each-InGroup}

module _ (name : Text) where
  abbrev IsTile : Route → Type 0
  IsTile = InGroup (name ∷ []) (is_tile_of name)

  tile-IsTile : (other path : Text) → IsTile (get (other ∷ []) path (tile other))
  tile-IsTile other path = elim (Bool-cases (text_eq other name)) [
    | inr differs ↦ inl differs
    | inl same ↦ inr ([], ap (λ n. n ∷ []) (eq_of_text_eq other name same))
  ]

  wire_proxy-IsTile : {Opts : Type 0} (p : Proxy Opts) → All IsTile (wire_proxy p)
  unfolding wire_proxy
  wire_proxy-IsTile p =
      All-append IsTile (use_each [] (Middleware.wire (some p))) _
        (use_each-InGroup (name ∷ []) [] (is_tile_of name) (Middleware.wire (some p)) (λ m. refl))
        (All-append IsTile _ _
          (if_both (All IsTile) (not (text_eq p.access_token [])) (refl, tt) tt)
          (tile-IsTile p.name (with_endpoint p (codes "/:z/:x/:y.*")), tt))

  wire_proxies-IsTile : {Opts : Type 0} (ps : List (Proxy Opts)) → All IsTile (wire_proxies ps)
  unfolding wire_proxies
  wire_proxies-IsTile [] = tt
  wire_proxies-IsTile (p ∷ ps) =
      All-append IsTile (wire_proxy p) (wire_proxies ps) (wire_proxy-IsTile p)
        (wire_proxies-IsTile ps)

  wire_handlers-IsTile :
      {Opts : Type 0} (order : Text → List (Text × Endpoint) → List (Text × Endpoint))
      (cap : Capabilities Opts)
      → IsIteration order
      → All IsTile (wire_handlers order cap)
  unfolding wire_handlers
  wire_handlers-IsTile order cap it = (
    refl,
    All-append IsTile _ _
        (if_both (All IsTile) (not cap.settings.admin_disabled)
          (InGroup-unmeant (name ∷ []) (is_tile_of name) (wire_admin order cap)
            (wire_admin-Other name order cap it))
          tt)
        (All-append IsTile (wire_proxies cap.proxies) (use_all [] fallback ∷ [])
          (wire_proxies-IsTile cap.proxies) (refl, tt)),
  )

  -- Let the proxies that have a name have one token, which is not empty, let the map of endpoints be gone through
  -- in any order, and let the parameter `token` of a request be another text. Then, whatever routes the
  -- request matches, as long as a request that matches a route of a group matches the group's
  -- middleware, it does not come to the endpoint of the tiles under the name.
  pub dispatch-tile :
      {Opts : Type 0} {f : Fiber} (order : Text → List (Text × Endpoint) → List (Text × Endpoint))
      (cap : Capabilities Opts) (token : Text) (routing : Routing f) (environment : Env)
      (given : Credentials) (reply : Reply f)
      → Prefixed routing
      → IsIteration order
      → token ≢ []
      → HaveToken name token cap.proxies
      → auth_check query token given ≡ false
      → IsKept
          (is_tile_of name)
          (dispatch routing environment given reply (wire_handlers order cap))
  dispatch-tile order cap token routing environment given reply prefixed it full known refused =
      guarded routing environment given reply prefixed (name ∷ []) (is_tile_of name) token query
        false refused (wire_handlers order cap)
        (wire_handlers-tile_IsBehind name token order cap it full known)
        (wire_handlers-IsTile order cap it)
