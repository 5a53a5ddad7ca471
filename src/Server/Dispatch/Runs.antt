-- ===== src/Server/Dispatch/Runs.antt =====
-- Requests without a token (www/handlers and www/middleware) at concrete inputs: an instance and a proxy
-- that have tokens, and a request that matches every route.
use lod.Prelude.{List, [], ◌∷◌, true, false, none, inr, refl}
use lod.Prelude.Int.{pos}
use lod.Prelude.Text.{Text, codes, text_eq}
use lod.Config.{Capabilities}
use lod.Environment.{prod}
use lod.Cache.Samples.{proxy}
use lod.Handlers.Samples.{plain_fiber, blank}
use lod.Middleware.{Credentials, auth_check}
use lod.Server.{Endpoint, wire_handlers}
use lod.Server.Guards.{is_admin, is_tile_of}
use lod.Server.Dispatch.{Routing, dispatch, IsKept}
use lod.Server.Dispatch.Admin.{dispatch-admin}
use lod.Server.Dispatch.Tiles.{dispatch-tile}

abbrev cap : Capabilities (Unit {0})
cap = record {
  version = [];
  settings = record {
    port = pos 0;
    environment = [];
    admin_disabled = false;
    admin_token = codes "t";
    metrics_enabled = true;
  };
  proxies = record (proxy true false) { access_token = codes "k" } ∷ [];
}

abbrev order : Text → List (Text × Endpoint) → List (Text × Endpoint)
order name entries = entries

abbrev every : Routing plain_fiber
every = record { matches = λ r. true; own_reply = λ m. none }

abbrev stranger : Credentials
stranger = record { authorization = codes "Bearer x"; token = codes "y" }

dispatch-admin_example :
    IsKept is_admin (dispatch every prod stranger blank (wire_handlers order cap))
unfolding auth_check text_eq
dispatch-admin_example =
    dispatch-admin order cap every prod stranger blank (λ group rest path e m h. refl) (λ e. cc)
      refl

dispatch-tile_example :
    IsKept (is_tile_of (codes "osm")) (dispatch every prod stranger blank (wire_handlers order cap))
unfolding auth_check text_eq
dispatch-tile_example =
    dispatch-tile (codes "osm") order cap (codes "k") every prod stranger blank
      (λ group rest path e m h. refl) (λ name entries e m. m) (λ e. cc) (inr refl, tt) refl
