-- ===== src/Handlers/Admin/Tiles.antt =====
-- www/handlers/admin/cache.go: `InvalidateAndPrime` and the four endpoints on it.
--
-- A call is the relation `Serves`, since `DeepChildren` (the relation `Returns` of Tile) and the workers
-- (the relation `Run` of Workers) run concurrently. The name of the cache is the local that the middleware
-- sets. `ParamsInt` with a default is the parameter `params_int_or`. The templates of the log lines are
-- left out.
use lod.Prelude.{
  ℕ, suc, List, [], ◌∷◌, Bool, true, false, Result, ok, err, panic, Option, none, some, ◌==◌,
  if◌then◌else◌, length, ◌≡◌,
}
use lod.Prelude.Int.{ℤ, pos, negsuc}
use lod.Prelude.Text.{Text, codes}
use lod.Prelude.Dict.{insert}
use lod.Config.{Proxy}
use lod.Tile
use lod.Tile.{Tile, Returns}
use lod.Cache.Backends.{Stores}
use lod.Cache.{Cache, invalidate}
use lod.Cache.Registry.{Registry, get}
use lod.Web.{Fiber, Reply, fields, counts, send_json, send_status}
use lod.Helpers.{Request, fill_params_map, build_cache_key}
use lod.Helpers.Upstream.{Agent}
use lod.Handlers.Admin.Workers.{Primer, start_workers, Run, HasEnded}

pub record Payload : Type 0 where
  pub max_zoom : ℤ
  pub prime : Bool

unfoldable pub invalidate_tile : Payload
invalidate_tile = record { max_zoom = pos 0; prime = false }

unfoldable pub invalidate_tile_deep : Payload
invalidate_tile_deep = record { max_zoom = pos 12; prime = false }

unfoldable pub prime_tile : Payload
prime_tile = record { max_zoom = pos 0; prime = true }

unfoldable pub prime_tile_deep : Payload
prime_tile_deep = record { max_zoom = pos 12; prime = true }

-- The status of the final reply.
unfoldable pub verdict : ℕ → ℕ → Text
verdict succeeded attempted = if succeeded == attempted then codes "ok" else codes "failed"

-- How a call ends: with a reply, in a panic that the server recovers from, or with the process.
pub data Ending (f : Fiber) : Type 0 where
  replied : Reply f → Ending f
  panicked : Ending f
  process_down : Ending f

-- The part of the call up to the tiles: a reply that ends it, or what the rest works on.
pub data Prepared (Opts : Type 0) (s : Stores) (f : Fiber) : Type 0 where
  refused : Reply f → Prepared Opts s f
  failed : Prepared Opts s f
  ready : Cache Opts s → Request Text → Tile → ℤ → Prepared Opts s f

module _ {f : Fiber} where
  unfoldable pub bad_name : Reply f → Reply f
  bad_name = send_status 400 (
      fields (
        (codes "status", codes "failed")
        ∷ (codes "error", codes "invalid proxy name provided")
        ∷ []))

  unfoldable pub bad_tile : Text → Reply f → Reply f
  bad_tile e = send_status 400 (
      fields (
        (codes "status", codes "failed")
        ∷ (codes "error", codes "invalid reqTile requested")
        ∷ (codes "message", e)
        ∷ []))

  unfoldable pub bad_zoom : Text → Reply f → Reply f
  bad_zoom e = send_status 500 (
      fields (
        (codes "status", codes "failed")
        ∷ (codes "error", codes "internal server error")
        ∷ (codes "message", e)
        ∷ []))

  unfoldable pub report : ℕ → ℕ → Reply f → Reply f
  report attempted succeeded = send_json (counts attempted succeeded (verdict succeeded attempted))

module _ {Opts : Type 0} {s : Stores} where
  -- The loop that invalidates the tiles. Where the key fails, `err` is nil and `err.Error()` panics; an
  -- error of the invalidation is only logged.
  unfoldable pub invalidate_all :
      Proxy Opts → Request Text → List Tile → ℕ → Cache Opts s → Result (Unit {0}) ℕ × Cache Opts s
  invalidate_all proxy ctx [] succeeded c = (ok succeeded, c)
  invalidate_all proxy ctx (t ∷ ts) succeeded c = elim (build_cache_key proxy ctx (t ∷ [])) [
    | err e ↦ (panic, c)
    | panic ↦ (panic, c)
    | ok key ↦ invalidate_all proxy ctx ts (suc succeeded) (invalidate key c).0
  ]

  -- The cache of a name, after a call on it.
  unfoldable pub put : Text → Cache Opts s → Registry Opts s → Registry Opts s
  put name c r = record r { caches = insert name c r.caches }

  -- The reply to an invalidation, and the registry after it.
  unfoldable pub after_invalidation :
      {f : Fiber}
      → Text
      → ℕ
      → Reply f
      → Registry Opts s
      → Result (Unit {0}) ℕ × Cache Opts s
      → Ending f × Registry Opts s
  after_invalidation name attempted reply r (ok succeeded, c) =
      (replied (report attempted succeeded reply), put name c r)
  after_invalidation name attempted reply r (err e, c) = (panicked, put name c r)
  after_invalidation name attempted reply r (panic, c) = (panicked, put name c r)

  module _ {f : Fiber} (params_int_or : Text → ℤ → Result Text ℤ) where
    -- The maximal zoom, once there are a cache and a tile.
    unfoldable pub prepare_zoom :
        Cache Opts s → Request Text → Tile → Result Text ℤ → Reply f → Prepared Opts s f
    prepare_zoom c ctx req_tile (ok max_zoom) reply = ready c ctx req_tile max_zoom
    prepare_zoom c ctx req_tile (err e) reply = refused (bad_zoom e reply)
    prepare_zoom c ctx req_tile panic reply = failed

    unfoldable pub prepare_tile :
        Payload → Cache Opts s → Request Text → Result Text Tile → Reply f → Prepared Opts s f
    prepare_tile payload c ctx (ok req_tile) reply =
        prepare_zoom c ctx req_tile (params_int_or (codes "maxZoom") payload.max_zoom) reply
    prepare_tile payload c ctx (err e) reply = refused (bad_tile e reply)
    prepare_tile payload c ctx panic reply = failed

    unfoldable pub prepare_cache :
        Payload → Option (Cache Opts s) → Request Text → Reply f → Prepared Opts s f
    prepare_cache payload none ctx reply = refused (bad_name reply)
    prepare_cache payload (some c) ctx reply =
        let ctx' = fill_params_map c.proxy ctx in
        prepare_tile payload c ctx' (Tile.get ctx'.params_int) reply

    unfoldable pub prepare :
        Payload → Text → Request Text → Reply f → Registry Opts s → Prepared Opts s f
    prepare payload name ctx reply r = prepare_cache payload (get name r) ctx reply

    module _ (sum256 : List ℕ → List ℕ) (agent : Agent)
        (with_query : Text → Text → Result Text Text) (payload : Payload) (name : Text)
        (ctx : Request Text) (reply : Reply f) (r : Registry Opts s) where
      -- `InvalidateAndPrime`: how it ends, and the registry then. A negative number of workers would
      -- make the wait group panic.
      pub data Serves (ending : Ending f) (r' : Registry Opts s) : Type 0 where
        refuses :
            (reply' : Reply f)
            → prepare payload name ctx reply r ≡ refused reply'
            → ending ≡ replied reply'
            → r' ≡ r
            → Serves ending r'
        fails :
            prepare payload name ctx reply r ≡ failed
            → ending ≡ panicked
            → r' ≡ r
            → Serves ending r'
        invalidates :
            (c : Cache Opts s) (ctx' : Request Text) (t : Tile) (max_zoom : ℤ) (tiles : List Tile)
            → prepare payload name ctx reply r ≡ ready c ctx' t max_zoom
            → payload.prime ≡ false
            → Returns max_zoom t tiles
            → (let left =
                  after_invalidation name
                    (length tiles)
                    reply
                    r
                    (invalidate_all c.proxy ctx' tiles 0 c) in
                (ending ≡ left.0) × (r' ≡ left.1))
            → Serves ending r'
        primes :
            (c : Cache Opts s) (ctx' : Request Text) (t : Tile) (max_zoom : ℤ) (tiles : List Tile)
            (num_workers : ℕ) (p : Primer Opts s f)
            → prepare payload name ctx reply r ≡ ready c ctx' t max_zoom
            → payload.prime ≡ true
            → Returns max_zoom t tiles
            → c.proxy.num_workers ≡ pos num_workers
            → Run sum256 agent with_query c.proxy ctx' (start_workers num_workers tiles reply c) p
            → HasEnded p
            → ending ≡ replied (report (length tiles) p.successes p.reply)
            → r' ≡ put name p.cache r
            → Serves ending r'
        crashes :
            (c : Cache Opts s) (ctx' : Request Text) (t : Tile) (max_zoom : ℤ) (tiles : List Tile)
            (num_workers : ℕ) (p : Primer Opts s f)
            → prepare payload name ctx reply r ≡ ready c ctx' t max_zoom
            → payload.prime ≡ true
            → Returns max_zoom t tiles
            → c.proxy.num_workers ≡ pos num_workers
            → Run sum256 agent with_query c.proxy ctx' (start_workers num_workers tiles reply c) p
            → p.down ≡ true
            → ending ≡ process_down
            → r' ≡ put name p.cache r
            → Serves ending r'
        cannot_start :
            (c : Cache Opts s) (ctx' : Request Text) (t : Tile) (max_zoom : ℤ) (tiles : List Tile)
            (n : ℕ)
            → prepare payload name ctx reply r ≡ ready c ctx' t max_zoom
            → payload.prime ≡ true
            → Returns max_zoom t tiles
            → c.proxy.num_workers ≡ negsuc n
            → ending ≡ panicked
            → r' ≡ r
            → Serves ending r'
