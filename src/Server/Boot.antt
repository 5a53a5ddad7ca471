-- ===== src/Server/Boot.antt =====
-- `main` (cmd/lod/main.go), from the command line to the routes that are served.
--
-- Whether an error of the load is that of a missing file is the parameter `is_not_exist`. An exit keeps
-- its code and the message that is logged in front of it.
pub mod Starts
use lod.Prelude.{
  ℕ, List, [], ◌++◌, Bool, true, if◌then◌else◌, Result, ok, err, panic, Option, none, some, ◌≡◌,
  ◌≢◌, inl, inr, ◌↔◌, refl, Bool-cases,
}
use lod.Prelude.Text.{Text, codes}
use lod.Config.{Capabilities, ConfigError, Libraries}
use lod.Config.Load.{load}
use lod.Config.Messages.{message}
use lod.Cache.Backends.{Stores}
use lod.Cache.Messages.{cache_message}
use lod.Cache.Registry.{CacheError, Builders, Registry, init, is_configured}
use lod.Cache.Registered.{Holds, init-Holds_iff}
use lod.Environment.{CommandLine, parse_flags}
use lod.Server.{Endpoint, Route, wire_handlers}

-- How `main` goes on: it exits, it panics, or it serves.
pub data Start (Opts : Type 0) (s : Stores) : Type 0 where
  exits : ℕ → Text → Start Opts s
  panics : Start Opts s
  serves : List Text → Capabilities Opts → Registry Opts s → List Route → Start Opts s

module _ {Opts : Type 0} {s : Stores} (lib : Libraries Opts) (b : Builders Opts s)
    (order : Text → List (Text × Endpoint) → List (Text × Endpoint))
    (is_not_exist : ConfigError → Bool) (environment version : Text) where
  abbrev failure : Text → Text
  failure e = codes "failed to configure instance: " ++ e

  unfoldable pub exit_with : Result (Unit {0}) Text → Start Opts s
  exit_with (ok e) = exits 1 (failure e)
  exit_with (err e) = panics
  exit_with panic = panics

  unfoldable pub boot_caches :
      List Text → Capabilities Opts → Registry Opts s × Result CacheError (Unit {0}) → Start Opts s
  boot_caches debug_flags cap (r, ok u) = serves debug_flags cap r (wire_handlers order cap)
  boot_caches debug_flags cap (r, err e) = exits 1 (failure (cache_message e))
  boot_caches debug_flags cap (r, panic) = panics

  unfoldable pub boot_config :
      Text
      → List Text
      → Registry Opts s
      → Capabilities Opts × Result ConfigError (Unit {0})
      → Start Opts s
  boot_config file debug_flags r (cap, ok u) = boot_caches debug_flags cap (init b cap.proxies r)
  boot_config file debug_flags r (cap, err e) =
      if is_not_exist e
      then exits 1 (codes "config file not found at path: '" ++ (file ++ codes "'"))
      else exit_with (message e)
  boot_config file debug_flags r (cap, panic) = panics

  unfoldable pub boot_flags :
      Text → Option (List Text) → Capabilities Opts → Registry Opts s → Start Opts s
  boot_flags file none cap r = exits 0 []
  boot_flags file (some debug_flags) cap r =
      boot_config file debug_flags r (load lib environment version file cap)

  -- `main`, on the globals as they are at first.
  unfoldable pub main : CommandLine → Capabilities Opts → Registry Opts s → Start Opts s
  main line cap r = boot_flags line.file (parse_flags line) cap r

  boot_caches-serves :
      (flags debug_flags : List Text) (cap served : Capabilities Opts) (r : Registry Opts s)
      (routes : List Route) (x : Registry Opts s × Result CacheError (Unit {0}))
      → boot_caches flags cap x ≡ serves debug_flags served r routes
      → (debug_flags ≡ flags)
        × (served ≡ cap)
        × (r ≡ x.0)
        × (x.1 ≡ ok tt)
        × (routes ≡ wire_handlers order cap)
  unfolding boot_caches
  boot_caches-serves flags debug_flags cap' served r routes (r', ok u) h = (cc, cc, cc, refl, cc)
  boot_caches-serves flags debug_flags cap' served r routes (r', err e) h = absurd (cc)
  boot_caches-serves flags debug_flags cap' served r routes (r', panic) h = absurd (cc)

  exit_with-serves :
      (x : Result (Unit {0}) Text) (debug_flags : List Text) (served : Capabilities Opts)
      (r : Registry Opts s) (routes : List Route)
      → exit_with x ≢ serves debug_flags served r routes
  unfolding exit_with
  exit_with-serves (ok e) debug_flags served r routes h = cc
  exit_with-serves (err e) debug_flags served r routes h = cc
  exit_with-serves panic debug_flags served r routes h = cc

  boot_config-serves :
      (file : Text) (flags debug_flags : List Text) (served : Capabilities Opts)
      (r r' : Registry Opts s) (routes : List Route)
      (x : Capabilities Opts × Result ConfigError (Unit {0}))
      → boot_config file flags r x ≡ serves debug_flags served r' routes
      → (x ≡ (served, ok tt))
        × (debug_flags ≡ flags)
        × (r' ≡ (init b served.proxies r).0)
        × ((init b served.proxies r).1 ≡ ok tt)
        × (routes ≡ wire_handlers order served)
  unfolding boot_config
  boot_config-serves file flags debug_flags served r r' routes (new, ok u) h =
      let (ef, es, er, done, ew) =
        boot_caches-serves flags debug_flags new served r' routes (init b new.proxies r) h in
      rw es (refl, ef, er, done, ew)
  boot_config-serves file flags debug_flags served r r' routes (new, err e) h =
      elim (Bool-cases (is_not_exist e)) [
        | inl missing ↦ absurd (cc (rw missing at h))
        | inr other ↦
            absurd (exit_with-serves (message e) debug_flags served r' routes (rw other at h))
      ]
  boot_config-serves file flags debug_flags served r r' routes (new, panic) h = absurd (cc)

  -- If `main` comes to serve, then the command line did not ask for help, the configuration that is
  -- served is the one that its file loads, there is a cache under exactly the names of its proxies, and
  -- the routes are those of this configuration.
  pub main-serves :
      (line : CommandLine) (first served : Capabilities Opts) (r r' : Registry Opts s)
      (debug_flags : List Text) (routes : List Route)
      → main line first r ≡ serves debug_flags served r' routes
      → (parse_flags line ≡ some debug_flags)
        × (load lib environment version line.file first ≡ (served, ok tt))
        × ((name : Text) → Holds r' name ↔ (is_configured served.proxies name ≡ true))
        × (routes ≡ wire_handlers order served)
  unfolding main boot_flags
  main-serves line first served r r' debug_flags routes h = go (parse_flags line) refl h
    where
      go :
          (flags : Option (List Text))
          → parse_flags line ≡ flags
          → boot_flags line.file flags first r ≡ serves debug_flags served r' routes
          → (parse_flags line ≡ some debug_flags)
            × (load lib environment version line.file first ≡ (served, ok tt))
            × ((name : Text) → Holds r' name ↔ (is_configured served.proxies name ≡ true))
            × (routes ≡ wire_handlers order served)
      go none e k = absurd (cc)
      go (some flags) e k =
          let (loaded, ef, er, done, ew) =
            boot_config-serves line.file flags debug_flags served r r' routes
              (load lib environment version line.file first) k in
          (rw (e, ef) refl, loaded, λ name. rw er (init-Holds_iff b served.proxies r name done), ew)
