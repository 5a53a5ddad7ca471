-- ===== src/Handlers/Admin/Reloading.antt =====
-- The caches after `ReloadCapabilities` (www/handlers/admin/reload.go).
use lod.Prelude.{some, inl, inr, ◌⊎◌, ◌∙◌, true, Result, ok, err, panic, ◌≡◌, ◌≢◌, ◌↔◌, refl, ap}
use lod.Prelude.Text.{Text}
use lod.Config.{Capabilities, ConfigError, Libraries}
use lod.Config.Load.{load_new, load}
use lod.Cache.Backends.{Stores}
use lod.Cache.Registry.{Builders, CacheError, Registry, init, is_configured}
use lod.Cache.Registered.{Holds, init-Holds_iff}
use lod.Cache.Messages.{cache_message}
use lod.Web.{Fiber, Reply}
use lod.Handlers.Admin.Endpoints.{error_reload, after_init, after_load, reloaded, reload, flush}
use lod.Handlers.Admin.Flushing.{IsServed, flush-returns}

load_new-err :
    {Opts : Type 0} (lib : Libraries Opts) (environment version file : Text)
    (cap : Capabilities Opts) (x : Result ConfigError (Capabilities Opts))
    → load_new lib environment version file ≡ x
    → (load lib environment version file cap).1 ≢ ok tt
    → (load lib environment version file cap).0 ≡ cap
unfolding load
load_new-err lib environment version file old (ok new) e h = absurd (h (rw (load, e) refl))
load_new-err lib environment version file old (err x) e h = rw (load, e) refl
load_new-err lib environment version file old panic e h = rw (load, e) refl

module _ {Opts : Type 0} {s : Stores} {f : Fiber} (lib : Libraries Opts) (b : Builders Opts s)
    (environment version file : Text) where
  after_load-failed :
      (reply : Reply f) (r : Registry Opts s)
      (loaded : Capabilities Opts × Result ConfigError (Unit {0}))
      → loaded.1 ≢ ok tt
      → ((after_load lib b environment version file reply r loaded).0 ≡ loaded.0)
        × ((after_load lib b environment version file reply r loaded).1 ≡ r)
  unfolding after_load
  after_load-failed reply r (served, ok u) h = absurd (h refl)
  after_load-failed reply r (served, err e) h = (refl, refl)
  after_load-failed reply r (served, panic) h = (refl, refl)

  after_load-done :
      (reply : Reply f) (r : Registry Opts s)
      (loaded : Capabilities Opts × Result ConfigError (Unit {0}))
      → loaded.1 ≡ ok tt
      → after_load lib b environment version file reply r loaded ≡ (
        loaded.0,
        (init b loaded.0.proxies r).0,
        after_init lib b environment version file reply (init b loaded.0.proxies r).1,
      )
  unfolding after_load
  after_load-done reply r (served, x) h = rw h refl

  -- A reload that loads a configuration and initialises its caches, without an error of either, serves
  -- the loaded configuration and replies that it is done; there is then a cache under exactly the names
  -- of its proxies, and `Flush` replies on every path and for every name that is set.
  pub reload-serves :
      (reply : Reply f) (cap new : Capabilities Opts) (r : Registry Opts s)
      → load lib environment version file cap ≡ (new, ok tt)
      → (init b new.proxies r).1 ≡ ok tt
      → (let (served, r', replied) = reload lib b environment version file reply cap r in
          (served ≡ new)
          × (replied ≡ ok (reloaded file reply))
          × ((name : Text) → Holds r' name ↔ (is_configured new.proxies name ≡ true))
          × ((path name : Text)
              → (reply' : Reply f) × ((flush new.proxies path (some name) reply r').0 ≡ ok reply')))
  unfolding reload after_load after_init
  reload-serves reply cap new r loaded inited =
      let exactly : (name : Text)
          → Holds (init b new.proxies r).0 name ↔ (is_configured new.proxies name ≡ true) =
        λ name. init-Holds_iff b new.proxies r name inited in
      rw (loaded, inited)
        (
          refl,
          refl,
          exactly,
          λ path name.
              flush-returns new.proxies path name reply (init b new.proxies r).0
                (λ n listed. (exactly n).1 listed),
        )

  -- Every proxy of the configuration that is served has a cache; or the reload has loaded it, and has
  -- said that the caches failed, by a panic or by the status 500 with the error of `Init`.
  abbrev pub IsReloaded :
      Reply f
      → Capabilities Opts
      → Capabilities Opts × Registry Opts s × Result (Unit {0}) (Reply f)
      → Type 0
  IsReloaded reply cap x =
      IsServed x.0.proxies x.1
      ⊎ ((load lib environment version file cap ≡ (x.0, ok tt))
          × ((x.2 ≡ panic)
              ⊎ ((e : CacheError) × (x.2 ≡ ok (error_reload file (cache_message e) reply)))))

  after_load-IsReloaded :
      (reply : Reply f) (cap : Capabilities Opts) (r : Registry Opts s)
      (loaded : Capabilities Opts × Result ConfigError (Unit {0}))
      → load lib environment version file cap ≡ loaded
      → loaded.1 ≡ ok tt
      → IsReloaded reply cap (after_load lib b environment version file reply r loaded)
  unfolding after_init
  after_load-IsReloaded reply cap r (new, x) e fine =
      rw (after_load-done reply r (new, x) fine) (go (init b new.proxies r).1 refl)
    where
      go :
          (left : Result CacheError (Unit {0}))
          → (init b new.proxies r).1 ≡ left
          → IsReloaded reply cap
              (new, (init b new.proxies r).0, after_init lib b environment version file reply left)
      go (ok u) inited = inl (λ name listed. (init-Holds_iff b new.proxies r name inited).1 listed)
      go (err failed) inited =
          inr (e ∙ ap (λ (y : Result ConfigError (Unit {0})). (new, y)) fine, inr (failed, refl))
      go panic inited =
          inr (e ∙ ap (λ (y : Result ConfigError (Unit {0})). (new, y)) fine, inl refl)

  -- If every proxy of the configuration has a cache, then after a reload every proxy of the configuration
  -- that is served has a cache, unless the reload has loaded a new configuration and its reply says that
  -- `Init` failed: by a panic, or by the status 500 with the error.
  pub reload-IsServed :
      (reply : Reply f) (cap : Capabilities Opts) (r : Registry Opts s)
      → IsServed cap.proxies r
      → IsReloaded reply cap (reload lib b environment version file reply cap r)
  unfolding reload
  reload-IsServed reply cap r h = go (load lib environment version file cap).1 refl
    where
      loaded : Capabilities Opts × Result ConfigError (Unit {0})
      loaded = load lib environment version file cap

      still :
          loaded.1 ≢ ok tt
          → IsReloaded reply cap (after_load lib b environment version file reply r loaded)
      still fails =
          let (same, kept) = after_load-failed reply r loaded fails in
          let old =
            load_new-err lib environment version file cap (load_new lib environment version file)
              refl fails in
          inl (rw (same, kept, old) h)

      go :
          (x : Result ConfigError (Unit {0}))
          → loaded.1 ≡ x
          → IsReloaded reply cap (after_load lib b environment version file reply r loaded)
      go (ok u) e = after_load-IsReloaded reply cap r loaded refl e
      go (err x) e = still (λ fine. absurd (cc))
      go panic e = still (λ fine. absurd (cc))
