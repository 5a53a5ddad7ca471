-- ===== src/Cache/Registry.antt =====
-- The registry of caches (cache/cache.go: `Init`, `Get`, `WipeOldCaches` and `BuildInstance`).
--
-- A new store of bigcache, and a Redis client that has answered a ping, are the record `Builders`. A
-- level that is off keeps a nil pointer, which nothing reads: `no_internal` and `no_external`.
-- Registering the metrics of a name a second time panics, as Prometheus documents it.
use lod.Prelude.{
  List, [], ◌∷◌, Bool, if◌then◌else◌, any, Result, ok, err, panic, ◌>>=◌, Option, none, some,
}
use lod.Prelude.Text.{Text, text_eq}
use lod.Prelude.Dict.{lookup, insert}
use lod.Config.{Proxy}
use lod.Cache.Backends.{Stores}
use lod.Cache.{Cache}

-- The errors of the package, by the proxy's name.
pub data CacheError : Type 0 where
  build_instance_failed : Text → CacheError → CacheError
  init_internal_failed : Text → Text → CacheError
  init_external_failed : Text → Text → CacheError

pub record Builders (Opts : Type 0) (s : Stores) : Type 0 where
  pub new_internal : Proxy Opts → Result Text s.Mem
  pub new_external : Proxy Opts → Result Text s.Redis
  pub no_internal : s.Mem
  pub no_external : s.Redis

-- The map `Caches`, and the names whose metrics are registered.
pub record Registry (Opts : Type 0) (s : Stores) : Type 0 where
  pub caches : List (Text × Cache Opts s)
  pub registered : List Text

-- Whether a proxy of the configuration has the name.
abbrev pub is_configured : {Opts : Type 0} → List (Proxy Opts) → Text → Bool
is_configured proxies name = any (λ p. text_eq p.name name) proxies

module _ {Opts : Type 0} {s : Stores} where
  unfoldable pub get : Text → Registry Opts s → Option (Cache Opts s)
  get name r = lookup name r.caches

  unfoldable pub keep_configured :
      List (Proxy Opts) → List (Text × Cache Opts s) → List (Text × Cache Opts s)
  keep_configured proxies [] = []
  keep_configured proxies ((name, c) ∷ caches) =
      let rest = keep_configured proxies caches in
      if is_configured proxies name then (name, c) ∷ rest else rest

  unfoldable pub wipe_old_caches : List (Proxy Opts) → Registry Opts s → Registry Opts s
  wipe_old_caches proxies r = record r { caches = keep_configured proxies r.caches }

  module _ (b : Builders Opts s) where
    unfoldable pub open_internal : Proxy Opts → Result CacheError s.Mem
    open_internal p =
        if p.cache.mem_enabled
        then elim (b.new_internal p) [
          | ok internal ↦ ok internal
          | err e ↦ err (init_internal_failed p.name e)
          | panic ↦ panic
        ]
        else ok b.no_internal

    unfoldable pub open_external : Proxy Opts → Result CacheError s.Redis
    open_external p =
        if p.cache.redis_enabled
        then elim (b.new_external p) [
          | ok external ↦ ok external
          | err e ↦ err (init_external_failed p.name e)
          | panic ↦ panic
        ]
        else ok b.no_external

    -- `initMetrics`, and the assignment to `Caches`.
    unfoldable pub register :
        Proxy Opts → s.Mem → s.Redis → Registry Opts s → Result CacheError (Registry Opts s)
    register p internal external r =
        let c : Cache Opts s = record {
          proxy = p;
          internal = internal;
          external = external;
          hits = 0;
          misses = 0;
          background = [];
        } in
        if any (λ name. text_eq name p.name) r.registered
        then panic
        else ok (record { caches = insert p.name c r.caches; registered = p.name ∷ r.registered })

    -- `BuildInstance` from the point where the proxy is found.
    unfoldable pub build_proxy : Proxy Opts → Registry Opts s → Result CacheError (Registry Opts s)
    build_proxy p r = do
      internal ← open_internal p
      external ← open_external p
      register p internal external r

    -- The loop of `BuildInstance`. On an error the registry is as it was.
    unfoldable pub build_instance :
        List (Proxy Opts) → Text → Registry Opts s → Result CacheError (Registry Opts s)
    build_instance [] name r = ok r
    build_instance (p ∷ proxies) name r =
        if text_eq p.name name then build_proxy p r else build_instance proxies name r

    -- The loop of `Init` over the proxies, with the registry after it and its error, if there is one.
    unfoldable pub init_from :
        List (Proxy Opts)
        → List (Proxy Opts)
        → Registry Opts s
        → Registry Opts s × Result CacheError (Unit {0})
    init_from proxies [] r = (r, ok tt)
    init_from proxies (p ∷ rest) r = elim (lookup p.name r.caches) [
      | some c ↦ init_from proxies rest r
      | none ↦ elim (build_instance proxies p.name r) [
        | ok r' ↦ init_from proxies rest r'
        | err e ↦ (r, err (build_instance_failed p.name e))
        | panic ↦ (r, panic)
      ]
    ]

    -- The old caches are wiped only where every build succeeded.
    abbrev pub wipe_after :
        List (Proxy Opts)
        → Registry Opts s × Result CacheError (Unit {0})
        → Registry Opts s × Result CacheError (Unit {0})
    wipe_after proxies (r, ok u) = (wipe_old_caches proxies r, ok tt)
    wipe_after proxies (r, err e) = (r, err e)
    wipe_after proxies (r, panic) = (r, panic)

    unfoldable pub init :
        List (Proxy Opts) → Registry Opts s → Registry Opts s × Result CacheError (Unit {0})
    init proxies r = wipe_after proxies (init_from proxies proxies r)
