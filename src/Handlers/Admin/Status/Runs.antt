-- ===== src/Handlers/Admin/Status/Runs.antt =====
-- The theorem on the endpoint `Capabilities` (www/handlers/admin/capabilities.go) at a concrete input: two
-- configurations with different tokens.
use lod.Prelude.{[], ◌∷◌, true, false, ◌≡◌, refl}
use lod.Prelude.Int.{pos}
use lod.Prelude.Text.{codes, Text}
use lod.Config.{Capabilities}
use lod.Cache.Samples.{proxy}
use lod.Handlers.Samples.{blank}
use lod.Handlers.Admin.Status.{capabilities}
use lod.Handlers.Admin.Status.Secrets.{capabilities-redact}

abbrev with_token : Text → Capabilities (Unit {0})
with_token token = record {
  version = codes "1.0";
  settings = record {
    port = pos 1337;
    environment = codes "prod";
    admin_disabled = false;
    admin_token = token;
    metrics_enabled = true;
  };
  proxies = record (proxy true true) { access_token = token } ∷ [];
}

capabilities-redact_example :
    capabilities (with_token (codes "s3cret")) blank ≡ capabilities (with_token (codes "t")) blank
capabilities-redact_example =
    capabilities-redact (with_token (codes "s3cret")) (with_token (codes "t")) blank refl
