-- ===== src/Cache/Clients.antt =====
-- The stores, the metrics and the statistics of a cache (cache/cache.go: `initInternal`, `initExternal`,
-- `initMetrics` and `StatsInternal`).
--
-- What the code calls of bigcache and of the Redis client is the record `ClientLibraries`. A store's
-- configuration keeps what `DefaultConfig` gives but for the fields that the code sets. A pointer to
-- options may be nil.
pub mod Sizes
pub mod Boots
mod Runs
use lod.Prelude.{
  ℕ, ◌*◌, ◌-◌, suc, List, [], ◌∷◌, Bool, true, false, not, if◌then◌else◌, Result, ok, err, panic,
  ◌>>=◌, Option, none, some, ◌+◌,
}
use lod.Prelude.Int.{ℤ, pos, negsuc, wrap}
use lod.Prelude.Text.{Text, codes}
use lod.Prelude.Strings.Parse.{atoi}
use lod.Config.{Proxy}
use lod.Cache.Backends.{Stores}
use lod.Cache.{Cache}
use lod.Cache.Registry.{Builders}
use lod.Environment.{Env, is_prod}

-- The fields of bigcache's configuration that the code sets.
pub record MemConfig : Type 0 where
  pub life_window : ℤ
  pub stats_enabled : Bool
  pub max_entry_size : ℤ
  pub hard_max_cache_size : ℤ

pub record ClientLibraries (Opts : Type 0) (s : Stores) : Type 1 where
  pub Stats : Type 0
  pub default_config : ℤ → MemConfig
  pub new_mem : MemConfig → Result Text s.Mem
  pub mem_stats : s.Mem → Stats
  pub no_stats : Stats
  pub set_tls : ℕ → Opts → Opts
  pub new_client : Option Opts → Result Text s.Redis
  pub ping : s.Redis → s.Redis × Option Text

-- `OneMB`
abbrev pub one_mb : ℕ
one_mb = 1024 * 1024

-- A product with a constant, before it wraps.
abbrev pub times : ℕ → ℤ → ℤ
times k (pos n) = pos (k * n)
times k (negsuc n) = negsuc (k * suc n - 1)

-- `maxEntrySize` in MB, by the variable MAX_ENTRY_SIZE if it is present.
unfoldable pub max_entry_mb : Option Text → ℤ
max_entry_mb none = pos 4
max_entry_mb (some max) = elim (atoi max) [ some max_int ↦ max_int | none ↦ pos 4 ]

unfoldable pub entry_size : Option Text → ℤ
entry_size max = wrap (times one_mb (max_entry_mb max))

-- `tls.VersionTLS12`
abbrev pub version_tls12 : ℕ
version_tls12 = 0x0303

-- A metric: its namespace, subsystem and name, the label "proxy", and its help text.
pub record Collector : Type 0 where
  pub namespace : Text
  pub subsystem : Text
  pub name : Text
  pub proxy : Text
  pub help : Text

module _ {Opts : Type 0} where
  abbrev pub collector : Text → Text → Proxy Opts → Collector
  collector name help p = record {
    namespace = codes "lod";
    subsystem = codes "cache";
    name = name;
    proxy = p.name;
    help = help;
  }

  -- `initMetrics`: the hits, the misses and the rate.
  unfoldable pub init_metrics : Proxy Opts → List Collector
  init_metrics p =
      collector (codes "hit_total") (codes "The total number of cache hits") p
      ∷ collector (codes "miss_total") (codes "The total number of cache misses") p
      ∷ collector (codes "hit_rate") (codes "The rate of hits to misses") p
      ∷ []

  module _ {s : Stores} where
    -- The function of the rate: a quotient of floats, as its two parts.
    unfoldable pub hit_rate : Cache Opts s → ℕ × ℕ
    hit_rate c = (c.hits, c.hits + c.misses)

    module _ (lib : ClientLibraries Opts s) where
      unfoldable pub init_internal : Env → Option Text → Proxy Opts → Result Text s.Mem
      init_internal environment max p =
          let conf = lib.default_config p.cache.mem_ttl_duration in
          lib.new_mem (record conf {
            stats_enabled = not (is_prod environment);
            max_entry_size = entry_size max;
            hard_max_cache_size = p.cache.mem_cap;
          })

      -- The options, with TLS where it is configured; writing to nil options panics.
      unfoldable pub client_options : Proxy Opts → Result Text (Option Opts)
      client_options p =
          if p.cache.redis_tls
          then elim p.cache.redis_opts [
            | some opts ↦ ok (some (lib.set_tls version_tls12 opts))
            | none ↦ panic
          ]
          else ok p.cache.redis_opts

      abbrev pub pinged : s.Redis × Option Text → Result Text s.Redis
      pinged (external, none) = ok external
      pinged (external, some e) = err e

      -- `initExternal`; the caller drops a client whose ping has failed.
      unfoldable pub init_external : Proxy Opts → Result Text s.Redis
      init_external p = do
        opts ← client_options p
        external ← lib.new_client opts
        pinged (lib.ping external)

      unfoldable pub stats_internal : Cache Opts s → lib.Stats
      stats_internal c =
          if c.proxy.cache.mem_enabled then lib.mem_stats c.internal else lib.no_stats

      -- How the registry opens the stores of a proxy.
      abbrev pub clients : Env → Option Text → s.Mem → s.Redis → Builders Opts s
      clients environment max no_internal no_external = record {
        new_internal = init_internal environment max;
        new_external = init_external;
        no_internal = no_internal;
        no_external = no_external;
      }
