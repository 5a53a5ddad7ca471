-- ===== src/Server.antt =====
-- cmd/lod/main.go, www/www.go, www/handlers/handlers.go, www/handlers/admin/wire.go and
-- www/handlers/proxy/wire.go: how the instance starts, and which routes it registers.
--
-- A route stands with the prefixes of its group, outermost first: `[]` is the application, and how fiber
-- joins them to a path is fiber's. `namedEndpoints` is a Go map: `order` is the iteration over it for a
-- proxy.
pub mod Guards
pub mod TileGuards
pub mod Dispatch
pub mod Serve
pub mod Boot
mod Runs
use lod.Prelude.{
  List, [], ◌∷◌, ◌++◌, map, Bool, true, false, not, if◌then◌else◌, Result, ok, err, panic, Option,
  none, some,
}
use lod.Prelude.Text.{Text, codes, text_eq}
use lod.Config.{Proxy, Instance, Capabilities}
use lod.Environment.{Env, is_prod}
use lod.Web.{Fiber, Reply, fields, send_empty, send_status}
use lod.Middleware
use lod.Middleware.{Middleware, AuthType, bearer, query, recovers, auth, cache_name, fallback}

pub data Endpoint : Type 0 where
  metrics : Endpoint
  status : Endpoint
  monitor : Endpoint
  capabilities : Endpoint
  reload : Endpoint
  stats : Endpoint
  flush : Endpoint
  invalidate_tile : Endpoint
  invalidate_tile_deep : Endpoint
  prime_tile : Endpoint
  prime_tile_deep : Endpoint
  tile : Text → Endpoint

pub data Route : Type 0 where
  use_all : List Text → Middleware → Route
  get : List Text → Text → Endpoint → Route

unfoldable pub use_each : List Text → List Middleware → List Route
use_each group [] = []
use_each group (m ∷ ms) = use_all group m ∷ use_each group ms

unfoldable pub named_endpoints : List (Text × Endpoint)
named_endpoints =
    (codes "/stats", stats)
    ∷ (codes "/flush", flush)
    ∷ (codes "/invalidate/:z/:x/:y", invalidate_tile)
    ∷ (codes "/invalidate/deep/:z/:x/:y", invalidate_tile_deep)
    ∷ (codes "/invalidate/deep/:z/:x/:y/:maxZoom", invalidate_tile_deep)
    ∷ (codes "/prime/:z/:x/:y", prime_tile)
    ∷ (codes "/prime/deep/:z/:x/:y", prime_tile_deep)
    ∷ (codes "/prime/deep/:z/:x/:y/:maxZoom", prime_tile_deep)
    ∷ []

abbrev pub admin_group : List Text
admin_group = codes "/admin" ∷ []

-- The path behind the endpoint's parameter, if there is one.
abbrev pub with_endpoint : {Opts : Type 0} → Proxy Opts → Text → Text
with_endpoint p path = if p.has_endpoint_param then codes "/:e" ++ path else path

-- The inner loop of the administration's `Wire`.
unfoldable pub get_each : {Opts : Type 0} → Proxy Opts → List (Text × Endpoint) → List Route
get_each p [] = []
get_each p ((path, handler) ∷ rest) =
    get (codes "/admin" ∷ p.name ∷ []) (with_endpoint p path) handler ∷ get_each p rest

-- The routes that there are once, for the instance.
unfoldable pub wire_instance : Bool → List Route
wire_instance metrics_enabled =
    let always =
      get admin_group (codes "/status") status
      ∷ get admin_group (codes "/monitor") monitor
      ∷ get admin_group (codes "/capabilities") capabilities
      ∷ get admin_group (codes "/reload") reload
      ∷ get admin_group (codes "/stats") stats
      ∷ get admin_group (codes "/flush") flush
      ∷ [] in
    if metrics_enabled
    then get admin_group (codes "/metrics/prometheus") metrics ∷ always
    else always

module _ {Opts : Type 0} (order : Text → List (Text × Endpoint) → List (Text × Endpoint)) where
  unfoldable pub wire_named : List (Proxy Opts) → List Route
  wire_named [] = []
  wire_named (p ∷ ps) =
      use_all (codes "/admin" ∷ p.name ∷ []) (cache_name p.name)
      ∷ (get_each p (order p.name named_endpoints) ++ wire_named ps)

  -- The administration's `Wire`
  unfoldable pub wire_admin : Capabilities Opts → List Route
  wire_admin cap =
      let token = cap.settings.admin_token in
      let guard =
        if not (text_eq token []) then use_all admin_group (auth token bearer true) ∷ [] else [] in
      use_each admin_group (Middleware.wire {Opts = Opts} none)
      ++ (guard ++ (wire_instance cap.settings.metrics_enabled ++ wire_named cap.proxies))

-- `wireProxy`: the middleware is that of the application, the token that of the group.
unfoldable pub wire_proxy : {Opts : Type 0} → Proxy Opts → List Route
wire_proxy p =
    let guard =
      if not (text_eq p.access_token [])
      then use_all (p.name ∷ []) (auth p.access_token query false) ∷ []
      else [] in
    use_each [] (Middleware.wire (some p))
    ++ (guard ++ get (p.name ∷ []) (with_endpoint p (codes "/:z/:x/:y.*")) (tile p.name) ∷ [])

-- The proxies' `Wire`
unfoldable pub wire_proxies : {Opts : Type 0} → List (Proxy Opts) → List Route
wire_proxies [] = []
wire_proxies (p ∷ ps) = wire_proxy p ++ wire_proxies ps

-- `handlers.Wire`
unfoldable pub wire_handlers :
    {Opts : Type 0}
    → (Text → List (Text × Endpoint) → List (Text × Endpoint))
    → Capabilities Opts
    → List Route
wire_handlers order cap =
    let admin = if not cap.settings.admin_disabled then wire_admin order cap else [] in
    use_all [] recovers ∷ (admin ++ (wire_proxies cap.proxies ++ use_all [] fallback ∷ []))

-- The `ErrorHandler` of `Serve`
unfoldable pub error_handler : {f : Fiber} → Env → Text → Reply f → Reply f
error_handler environment e reply =
    if not (is_prod environment)
    then send_status 500
        (fields ((codes "status", codes "internal server error") ∷ (codes "error", e) ∷ [])) reply
    else send_empty 500 reply
