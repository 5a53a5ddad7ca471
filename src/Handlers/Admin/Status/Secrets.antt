-- ===== src/Handlers/Admin/Status/Secrets.antt =====
-- What the endpoint `Capabilities` (www/handlers/admin/capabilities.go) shows of the tokens.
use lod.Prelude.{List, [], ◌∷◌, map, none, ◌≡◌, refl, ap, sym, ◌∙◌}
use lod.Prelude.Int.{pos}
use lod.Config.{Cache, Proxy, Capabilities}
use lod.Web.{Fiber, Reply}
use lod.Handlers.Admin.Status.{
  values, cache_json, proxy_json, instance_json, capabilities_json, capabilities,
}

module _ {Opts : Type 0} where
  -- A cache section without the URL of Redis and what was parsed.
  abbrev pub redact_cache : Cache Opts → Cache Opts
  redact_cache c = record c {
    mem_ttl_duration = pos 0;
    redis_ttl_duration = pos 0;
    redis_url = [];
    redis_opts = none;
  }

  -- A proxy without its token.
  abbrev pub redact_proxy : Proxy Opts → Proxy Opts
  redact_proxy p = record p { access_token = []; cache = redact_cache p.cache }

  abbrev pub redact : Capabilities Opts → Capabilities Opts
  redact c = record c {
    settings = record (c.settings) { admin_token = [] };
    proxies = map redact_proxy c.proxies;
  }

  proxy_json-redact : (p : Proxy Opts) → proxy_json (redact_proxy p) ≡ proxy_json p
  unfolding proxy_json cache_json
  proxy_json-redact p = refl

  proxies-redact :
      (ps : List (Proxy Opts)) → values proxy_json (map redact_proxy ps) ≡ values proxy_json ps
  proxies-redact [] = refl
  proxies-redact (p ∷ ps) = rw (proxy_json-redact p, proxies-redact ps) refl

  capabilities_json-redact :
      (c : Capabilities Opts) → capabilities_json (redact c) ≡ capabilities_json c
  unfolding capabilities_json instance_json
  capabilities_json-redact c = rw (proxies-redact c.proxies) refl

  -- Two configurations that differ in nothing but the tokens, the URLs of Redis and what was parsed of it and of
  -- the lifetimes get the same reply from the endpoint.
  pub capabilities-redact :
      {f : Fiber} (c d : Capabilities Opts) (reply : Reply f)
      → redact c ≡ redact d
      → capabilities c reply ≡ capabilities d reply
  unfolding capabilities
  capabilities-redact c d reply h =
      let same : capabilities_json c ≡ capabilities_json d =
        sym (capabilities_json-redact c) ∙ ap capabilities_json h ∙ capabilities_json-redact d in
      rw same refl
