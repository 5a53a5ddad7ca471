-- ===== src/Handlers/Admin/Endpoints.antt =====
-- www/handlers/admin: the endpoints `Flush` (flush.go), `Stats` (stats.go) and `ReloadCapabilities`
-- (reload.go), on the registry of caches and the configuration that is served.
--
-- The counters are natural numbers here and floats in the source. The environment, the version and the
-- file of the configuration are arguments.
use lod.Prelude.{
  ◌+◌, ◌==◌, List, [], ◌∷◌, Result, ok, err, panic, Option, none, some, if◌then◌else◌,
}
use lod.Prelude.Text.{Text, codes, text_eq}
use lod.Config.{Proxy, Capabilities, ConfigError, Libraries}
use lod.Config.Load.{load}
use lod.Config.Messages.{message}
use lod.Cache.Backends.{Stores}
use lod.Cache.{Cache, flush_internal}
use lod.Cache.Messages.{cache_message}
use lod.Cache.Registry.{CacheError, Builders, Registry, get, init}
use lod.Web.{Fiber, Reply, fields, stats, send_json, send_status}
use lod.Handlers.Admin.Tiles.{put}

module _ {f : Fiber} where
  unfoldable pub status_ok : Reply f → Reply f
  status_ok = send_json (fields ((codes "status", codes "ok") ∷ []))

  unfoldable pub no_name : Reply f → Reply f
  no_name =
      send_status 400 (fields ((codes "status", codes "bad request, no proxy name provided") ∷ []))

  unfoldable pub not_configured : Reply f → Reply f
  not_configured =
      send_status 404 (fields ((codes "status", codes "no proxy configured with given name") ∷ []))

  unfoldable pub flush_failed : Text → Reply f → Reply f
  flush_failed e =
      send_status 500 (fields ((codes "status", codes "failed") ∷ (codes "error", e) ∷ []))

  -- `errorReload`
  unfoldable pub error_reload : Text → Text → Reply f → Reply f
  error_reload file e =
      send_status 500
        (fields ((codes "status", codes "failed") ∷ (codes "file", file) ∷ (codes "error", e) ∷ []))

  unfoldable pub reloaded : Text → Reply f → Reply f
  reloaded file = send_json (fields ((codes "status", codes "ok") ∷ (codes "file", file) ∷ []))

module _ {Opts : Type 0} {s : Stores} where
  -- `FlushInternal` on what `cache.Get` has found, with its error; on a nil cache it panics.
  unfoldable pub flush_found :
      Text
      → Option (Cache Opts s)
      → Registry Opts s
      → Result (Unit {0}) (Option Text) × Registry Opts s
  flush_found name none r = (panic, r)
  flush_found name (some c) r = (ok (flush_internal c).1, put name (flush_internal c).0 r)

  unfoldable pub flush_cache :
      Text → Registry Opts s → Result (Unit {0}) (Option Text) × Registry Opts s
  flush_cache name r = flush_found name (get name r) r

  -- The loop goes on where the cache was flushed without an error.
  unfoldable pub flush_on :
      Result (Unit {0}) (Option Text) × Registry Opts s
      → Result (Unit {0}) (Option Text) × Registry Opts s
      → Result (Unit {0}) (Option Text) × Registry Opts s
  flush_on (ok none, r) rest = rest
  flush_on (ok (some e), r) rest = (ok (some e), r)
  flush_on (err e, r) rest = (panic, r)
  flush_on (panic, r) rest = (panic, r)

  -- The loop over the configured proxies.
  unfoldable pub flush_all :
      List (Proxy Opts) → Registry Opts s → Result (Unit {0}) (Option Text) × Registry Opts s
  flush_all [] r = (ok none, r)
  flush_all (p ∷ ps) r =
      let flushed = flush_cache p.name r in flush_on flushed (flush_all ps flushed.1)

  module _ {f : Fiber} where
    -- The reply to a flush that has returned.
    unfoldable pub after_flush :
        Reply f
        → Result (Unit {0}) (Option Text) × Registry Opts s
        → Result (Unit {0}) (Reply f) × Registry Opts s
    after_flush reply (ok none, r) = (ok (status_ok reply), r)
    after_flush reply (ok (some e), r) = (ok (flush_failed e reply), r)
    after_flush reply (err e, r) = (panic, r)
    after_flush reply (panic, r) = (panic, r)

    -- The search for the proxy with the name.
    unfoldable pub flush_named :
        List (Proxy Opts)
        → Text
        → Reply f
        → Registry Opts s
        → Result (Unit {0}) (Reply f) × Registry Opts s
    flush_named [] name reply r = (ok (not_configured reply), r)
    flush_named (p ∷ ps) name reply r =
        if text_eq p.name name
        then after_flush reply (flush_cache p.name r)
        else flush_named ps name reply r

    -- The flush by the local name: where the middleware has set none, the assertion of its type panics.
    unfoldable pub flush_by_name :
        List (Proxy Opts)
        → Option Text
        → Reply f
        → Registry Opts s
        → Result (Unit {0}) (Reply f) × Registry Opts s
    flush_by_name proxies none reply r = (panic, r)
    flush_by_name proxies (some name) reply r =
        if text_eq name [] then (ok (no_name reply), r) else flush_named proxies name reply r

    -- `Flush`, at the path of the request, with the name that the middleware has set.
    unfoldable pub flush :
        List (Proxy Opts)
        → Text
        → Option Text
        → Reply f
        → Registry Opts s
        → Result (Unit {0}) (Reply f) × Registry Opts s
    flush proxies path name reply r =
        if text_eq path (codes "/admin/flush")
        then after_flush reply (flush_all proxies r)
        else flush_by_name proxies name reply r

    -- The statistics by the local name. The hit rate is that of `initMetrics`: with no request it is not a
    -- number, which the encoder of JSON refuses.
    unfoldable pub stats_by_name : Option Text → Reply f → Registry Opts s → Result Text (Reply f)
    stats_by_name none reply r = panic
    stats_by_name (some name) reply r =
        if text_eq name [] then ok (no_name reply) else elim (get name r) [
          | none ↦ ok (not_configured reply)
          | some c ↦
              let requests = c.hits + c.misses in
              if requests == 0
              then err (codes "json: unsupported value: NaN")
              else ok (send_json (stats c.hits c.misses requests (c.hits, requests)) reply)
        ]

    -- `Stats`
    unfoldable pub stats_of : Text → Option Text → Reply f → Registry Opts s → Result Text (Reply f)
    stats_of path name reply r =
        if text_eq path (codes "/admin/stats")
        then ok (send_json (fields ((codes "stats", codes "all") ∷ [])) reply)
        else stats_by_name name reply r

  module _ {f : Fiber} (lib : Libraries Opts) (b : Builders Opts s)
      (environment version file : Text) where
    -- The reply to a failed load: the text of the error may panic.
    unfoldable pub after_message : Result (Unit {0}) Text → Reply f → Result (Unit {0}) (Reply f)
    after_message (ok e) reply = ok (error_reload file e reply)
    after_message (err e) reply = panic
    after_message panic reply = panic

    unfoldable pub after_init : Reply f → Result CacheError (Unit {0}) → Result (Unit {0}) (Reply f)
    after_init reply (ok u) = ok (reloaded file reply)
    after_init reply (err e) = ok (error_reload file (cache_message e) reply)
    after_init reply panic = panic

    -- What follows the load: the capabilities, the registry and the reply.
    unfoldable pub after_load :
        Reply f
        → Registry Opts s
        → Capabilities Opts × Result ConfigError (Unit {0})
        → Capabilities Opts × Registry Opts s × Result (Unit {0}) (Reply f)
    after_load reply r (cap, err e) = (cap, r, after_message (message e) reply)
    after_load reply r (cap, panic) = (cap, r, panic)
    after_load reply r (cap, ok u) =
        let (r', left) = init b cap.proxies r in (cap, r', after_init reply left)

    -- `ReloadCapabilities`
    unfoldable pub reload :
        Reply f
        → Capabilities Opts
        → Registry Opts s
        → Capabilities Opts × Registry Opts s × Result (Unit {0}) (Reply f)
    reload reply cap r = after_load reply r (load lib environment version file cap)
