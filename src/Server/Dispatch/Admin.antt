-- ===== src/Server/Dispatch/Admin.antt =====
-- A request to the endpoints of the administration (www/handlers/admin/wire.go), and its token.
use lod.Prelude.{
  List, [], ◌∷◌, Bool, true, false, not, if_both, none, ◌≡◌, ◌≢◌, inl, inr, refl, All, All-append,
}
use lod.Prelude.Text.{Text, text_eq}
use lod.Config.{Proxy, Capabilities}
use lod.Environment.{Env}
use lod.Web.{Fiber, Reply}
use lod.Middleware
use lod.Middleware.{Middleware, auth, bearer, fallback, Credentials, auth_check}
use lod.Server.{
  Endpoint, Route, use_all, get, use_each, named_endpoints, admin_group, get_each, wire_instance,
  wire_named, wire_admin, wire_proxies, wire_handlers,
}
use lod.Server.Guards.{is_admin, wire_proxies-no_admin, wire_handlers-admin_IsBehind}
use lod.Server.Dispatch.{Routing, dispatch, Prefixed, InGroup, IsKept, guarded}

abbrev IsAdmin : Route → Type 0
IsAdmin = InGroup admin_group is_admin

-- Routes that are not meant may stand in any group.
pub InGroup-unmeant :
    (group : List Text) (meant : Route → Bool) (rs : List Route)
    → All (λ r. meant r ≡ false) rs
    → All (InGroup group meant) rs
InGroup-unmeant group meant [] h = tt
InGroup-unmeant group meant (use_all other m ∷ rs) h = (h.0, InGroup-unmeant group meant rs h.1)
InGroup-unmeant group meant (get other path e ∷ rs) h =
    (inl h.0, InGroup-unmeant group meant rs h.1)

pub use_each-InGroup :
    (group other : List Text) (meant : Route → Bool) (ms : List Middleware)
    → ((m : Middleware) → meant (use_all other m) ≡ false)
    → All (InGroup group meant) (use_each other ms)
unfolding use_each
use_each-InGroup group other meant [] h = tt
use_each-InGroup group other meant (m ∷ ms) h = (h m, use_each-InGroup group other meant ms h)

get_each-IsAdmin :
    {Opts : Type 0} (p : Proxy Opts) (entries : List (Text × Endpoint))
    → All IsAdmin (get_each p entries)
unfolding get_each
get_each-IsAdmin p [] = tt
get_each-IsAdmin p ((path, handler) ∷ rest) = (inr (p.name ∷ [], refl), get_each-IsAdmin p rest)

wire_named-IsAdmin :
    {Opts : Type 0} (order : Text → List (Text × Endpoint) → List (Text × Endpoint))
    (ps : List (Proxy Opts))
    → All IsAdmin (wire_named order ps)
unfolding wire_named
wire_named-IsAdmin order [] = tt
wire_named-IsAdmin order (p ∷ ps) = (
  refl,
  All-append IsAdmin (get_each p (order p.name named_endpoints)) (wire_named order ps)
      (get_each-IsAdmin p (order p.name named_endpoints)) (wire_named-IsAdmin order ps),
)

wire_instance-IsAdmin : (on : Bool) → All IsAdmin (wire_instance on)
unfolding wire_instance
wire_instance-IsAdmin true = (
  inr ([], refl),
  (
    inr ([], refl),
    (inr ([], refl), (inr ([], refl), (inr ([], refl), (inr ([], refl), (inr ([], refl), tt))))),
  ),
)
wire_instance-IsAdmin false = (
  inr ([], refl),
  (inr ([], refl), (inr ([], refl), (inr ([], refl), (inr ([], refl), (inr ([], refl), tt))))),
)

wire_admin-IsAdmin :
    {Opts : Type 0} (order : Text → List (Text × Endpoint) → List (Text × Endpoint))
    (cap : Capabilities Opts)
    → All IsAdmin (wire_admin order cap)
unfolding wire_admin
wire_admin-IsAdmin {Opts} order cap =
    All-append IsAdmin (use_each admin_group (Middleware.wire {Opts = Opts} none)) _
      (use_each-InGroup admin_group admin_group is_admin (Middleware.wire {Opts = Opts} none)
        (λ m. refl))
      (All-append IsAdmin _ _
        (if_both (All IsAdmin) (not (text_eq cap.settings.admin_token [])) (refl, tt) tt)
        (All-append IsAdmin (wire_instance cap.settings.metrics_enabled)
          (wire_named order cap.proxies) (wire_instance-IsAdmin cap.settings.metrics_enabled)
          (wire_named-IsAdmin order cap.proxies)))

wire_handlers-IsAdmin :
    {Opts : Type 0} (order : Text → List (Text × Endpoint) → List (Text × Endpoint))
    (cap : Capabilities Opts)
    → All IsAdmin (wire_handlers order cap)
unfolding wire_handlers
wire_handlers-IsAdmin order cap = (
  refl,
  All-append IsAdmin _ _
      (if_both (All IsAdmin) (not cap.settings.admin_disabled) (wire_admin-IsAdmin order cap) tt)
      (All-append IsAdmin (wire_proxies cap.proxies) (use_all [] fallback ∷ [])
        (InGroup-unmeant admin_group is_admin (wire_proxies cap.proxies)
          (wire_proxies-no_admin cap.proxies))
        (refl, tt)),
)

-- Let the instance have a token for the administration, and let the header `Authorization` of a request
-- not be the bearer of that token. Then, whatever routes the request matches, as long as a request that
-- matches a route of a group matches the group's middleware, it does not come to an endpoint of the
-- administration.
pub dispatch-admin :
    {Opts : Type 0} {f : Fiber} (order : Text → List (Text × Endpoint) → List (Text × Endpoint))
    (cap : Capabilities Opts) (routing : Routing f) (environment : Env) (given : Credentials)
    (reply : Reply f)
    → Prefixed routing
    → cap.settings.admin_token ≢ []
    → auth_check bearer cap.settings.admin_token given ≡ false
    → IsKept is_admin (dispatch routing environment given reply (wire_handlers order cap))
dispatch-admin order cap routing environment given reply prefixed token refused =
    guarded routing environment given reply prefixed admin_group is_admin cap.settings.admin_token
      bearer true refused (wire_handlers order cap) (wire_handlers-admin_IsBehind order cap token)
      (wire_handlers-IsAdmin order cap)
