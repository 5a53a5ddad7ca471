-- ===== src/Handlers/Admin/Status.antt =====
-- www/handlers/admin: the endpoints `Status` (status.go) and `Capabilities` (capabilities.go), with the
-- JSON of the structs of config/config.go by their tags.
--
-- An empty list is an empty array here; the source writes a slice that was never made as null, which the
-- model keeps apart for the headers to pull alone. Times are in nanoseconds.
pub mod Secrets
mod Runs
use lod.Prelude.{ℕ, List, [], ◌∷◌, Bool, Option, none, some}
use lod.Prelude.Int.{ℤ, pos}
use lod.Prelude.Text.{Text, codes}
use lod.Config.{Header, Param, Cache, Proxy, Instance, Capabilities}
use lod.Environment.{Env, prod, dev}
use lod.Web.{
  Fiber, Reply, Value, text, number, flag, null, array, object, Values, end, item, Members, close,
  member, struct, send_json,
}

-- The members of an object, in order.
abbrev pub members : List (Text × Value) → Members
members [] = close
members ((name, value) ∷ rest) = member name value (members rest)

abbrev pub values {ℓ} : {A : Type ℓ} → (A → Value) → List A → Values
values f [] = end
values f (a ∷ rest) = item (f a) (values f rest)

unfoldable pub header_json : Header → Value
header_json h = object (members ((codes "name", text h.name) ∷ (codes "value", text h.value) ∷ []))

unfoldable pub param_json : Param → Value
param_json p =
    object (members ((codes "name", text p.name) ∷ (codes "default", text p.default) ∷ []))

unfoldable pub instance_json : Instance → Value
instance_json i = object (
    members (
      (codes "port", number i.port)
      ∷ (codes "environment", text i.environment)
      ∷ (codes "admin_disabled", flag i.admin_disabled)
      ∷ (codes "metrics_enabled", flag i.metrics_enabled)
      ∷ []))

abbrev pub pulled_json : Option (List Text) → Value
pulled_json none = null
pulled_json (some names) = array (values text names)

module _ {Opts : Type 0} where
  unfoldable pub cache_json : Cache Opts → Value
  cache_json c = object (
      members (
        (codes "mem_enabled", flag c.mem_enabled)
        ∷ (codes "mem_cap", number c.mem_cap)
        ∷ (codes "mem_ttl", text c.mem_ttl)
        ∷ (codes "redis_enabled", flag c.redis_enabled)
        ∷ (codes "redis_ttl", text c.redis_ttl)
        ∷ (codes "redis_tls", flag c.redis_tls)
        ∷ (codes "key_template", text c.key_template)
        ∷ []))

  unfoldable pub proxy_json : Proxy Opts → Value
  proxy_json p = object (
      members (
        (codes "name", text p.name)
        ∷ (codes "tile_url", text p.tile_url)
        ∷ (codes "has_endpoint_param", flag p.has_endpoint_param)
        ∷ (codes "cors_origins", text p.cors_origins)
        ∷ (codes "pull_headers", pulled_json p.pull_headers)
        ∷ (codes "del_headers", array (values text p.delete_headers))
        ∷ (codes "add_headers", array (values header_json p.add_headers))
        ∷ (codes "num_workers", number p.num_workers)
        ∷ (codes "params", array (values param_json p.params))
        ∷ (codes "cache", cache_json p.cache)
        ∷ []))

  unfoldable pub capabilities_json : Capabilities Opts → Value
  capabilities_json c = object (
      members (
        (codes "version", text c.version)
        ∷ (codes "instance", instance_json c.settings)
        ∷ (codes "proxies", array (values proxy_json c.proxies))
        ∷ []))

-- The value of an `Env`.
abbrev pub env_text : Env → Text
env_text prod = codes "prod"
env_text dev = codes "dev"

-- `statusResponse`
unfoldable pub status_json : Text → Env → ℤ → ℤ → Value
status_json version environment uptime boot_time = object (
    members (
      (codes "v", text version)
      ∷ (codes "env", text (env_text environment))
      ∷ (codes "uptime", number uptime)
      ∷ (codes "boot", number boot_time)
      ∷ []))

module _ {f : Fiber} where
  -- `Status`, with the time since the boot and the time of the boot.
  unfoldable pub status : Text → Env → ℤ → ℤ → Reply f → Reply f
  status version environment uptime boot_time =
      send_json (struct (status_json version environment uptime boot_time))

  -- `Capabilities`
  unfoldable pub capabilities : {Opts : Type 0} → Capabilities Opts → Reply f → Reply f
  capabilities c = send_json (struct (capabilities_json c))
