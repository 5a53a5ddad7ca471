-- ===== src/Server/Boot/Starts.antt =====
-- `main` (cmd/lod/main.go) with the stores that cache/cache.go makes.
use lod.Prelude.{
  List, [], ◌∷◌, Bool, All, Result, ok, err, panic, Option, some, ◌≡◌, inl, inr, refl,
}
use lod.Prelude.Text.{Text}
use lod.Config.{Proxy, Capabilities, ConfigError, Libraries}
use lod.Config.Load.{load}
use lod.Config.Defaults.{IsServedProxy, IsServed, load_cases}
use lod.Config.Validated.{IsValidProxy}
use lod.Cache.Backends.{Stores}
use lod.Cache.Registry.{CacheError, Builders, Registry, init}
use lod.Prelude.Int.{pos, ◌≤ℤ◌}
use lod.Cache.Clients.{entry_size, ClientLibraries, clients}
use lod.Cache.Clients.Boots.{Works, IsTidy, init_valid}
use lod.Environment.{Env, CommandLine, parse_flags}
use lod.Server.{Endpoint, wire_handlers}
use lod.Server.Boot.{serves, boot_caches, boot_config, boot_flags, main}

module _ {Opts : Type 0} {s : Stores} (lib : Libraries Opts) (stores : ClientLibraries Opts s)
    (order : Text → List (Text × Endpoint) → List (Text × Endpoint))
    (is_not_exist : ConfigError → Bool) (environment version : Text) where
  boot_caches_serves :
      (b : Builders Opts s) (debug_flags : List Text) (cap : Capabilities Opts)
      (x : Registry Opts s × Result CacheError (Unit {0}))
      → x.1 ≡ ok tt
      → boot_caches lib b order is_not_exist environment version debug_flags cap x
        ≡ serves debug_flags cap x.0 (wire_handlers order cap)
  unfolding boot_caches
  boot_caches_serves b debug_flags cap (r, ok u) h = refl
  boot_caches_serves b debug_flags cap (r, err e) h = absurd (cc)
  boot_caches_serves b debug_flags cap (r, panic) h = absurd (cc)

  boot_config_serves :
      (b : Builders Opts s) (file : Text) (debug_flags : List Text) (r : Registry Opts s)
      (x : Capabilities Opts × Result ConfigError (Unit {0}))
      → x.1 ≡ ok tt
      → (init b x.0.proxies r).1 ≡ ok tt
      → boot_config lib b order is_not_exist environment version file debug_flags r x
        ≡ serves debug_flags x.0 (init b x.0.proxies r).0 (wire_handlers order x.0)
  unfolding boot_config
  boot_config_serves b file debug_flags r (cap, ok u) h started =
      boot_caches_serves b debug_flags cap (init b cap.proxies r) started
  boot_config_serves b file debug_flags r (cap, err e) h started = absurd (cc)
  boot_config_serves b file debug_flags r (cap, panic) h started = absurd (cc)

  served_load :
      (file : Text) (cap : Capabilities Opts)
      → (load lib environment version file cap).1 ≡ ok tt
      → IsServed lib (load lib environment version file cap).0
  served_load file cap h = elim (load_cases lib environment version file cap) [
    | inl served ↦ served.1
    | inr failed ↦ absurd (failed.0 h)
  ]

  valid_proxies :
      (proxies : List (Proxy Opts))
      → All (IsServedProxy lib) proxies
      → All (IsValidProxy lib) proxies
  valid_proxies [] h = tt
  valid_proxies (p ∷ proxies) h = (h.0.valid, valid_proxies proxies h.1)

  -- Let the stores work: bigcache accepts every configuration with a positive cap and a size of entries that
  -- is not negative, the Redis client all options that are not nil, and Redis answers every ping. Let the
  -- size that MAX_ENTRY_SIZE sets not be negative. Let the command line not ask for help, let
  -- its file load without an error, and let every name whose metrics are registered have a cache, as
  -- it is at the start. Then `main` comes to serve the configuration that was loaded, with the
  -- caches that `Init` leaves and the routes of this configuration.
  pub main-starts :
      (level : Env) (max : Option Text) (no_internal : s.Mem) (no_external : s.Redis)
      (line : CommandLine) (debug_flags : List Text) (first : Capabilities Opts)
      (r : Registry Opts s)
      → Works stores
      → pos 0 ≤ℤ entry_size max
      → parse_flags line ≡ some debug_flags
      → (load lib environment version line.file first).1 ≡ ok tt
      → IsTidy r
      → let b = clients stores level max no_internal no_external in
        let served = (load lib environment version line.file first).0 in
        main lib b order is_not_exist environment version line first r
        ≡ serves debug_flags served (init b served.proxies r).0 (wire_handlers order served)
  unfolding main boot_flags
  main-starts level max no_internal no_external line debug_flags first r works size flags loaded
        tidy =
      let b = clients stores level max no_internal no_external in
      let x = load lib environment version line.file first in
      let served : IsServed lib x.0 = served_load line.file first loaded in
      rw flags (
        boot_config_serves b line.file debug_flags r x loaded (
          init_valid lib stores works level max size no_internal no_external x.0.proxies r
            (valid_proxies x.0.proxies served.proxies) tidy))
