-- ===== src/Handlers/Proxy.antt =====
-- www/handlers/proxy/proxy.go: a request for a tile, from its parameters to the reply.
--
-- `singleflight` is the value `Flight` of a request: it runs the fetch itself, with other requests
-- waiting for it or not, or it is given the result of the fetch that is under way. A panic of a call ends
-- the handler. The handler itself never returns an error.
pub mod Faithful
pub mod Transparent
pub mod Hits
pub mod Flights
mod Runs
use lod.Prelude.{
  ℕ, List, [], ◌∷◌, ◌++◌, Bool, true, false, if◌then◌else◌, Result, ok, err, panic, Option, none,
  some,
}
use lod.Prelude.Text.{Text, codes}
use lod.Packet.{TilePacket, Headers, tile_data, headers}
use lod.Config.{Proxy}
use lod.Config.Messages.{do_delete_headers}
use lod.Cache.Backends.{Stores}
use lod.Cache.{Cache, Fetched, fetch}
use lod.Web.{Fiber, Reply, send_empty, write}
use lod.Helpers.{Request, fill_params_map, build_cache_key}
use lod.Helpers.Upstream.{Agent, ProxyResponse, ResponseError, fetch_upstream, process_response}
use lod.Helpers.Urls.{build_tile_url}

pub data Flight : Type 0 where
  leads : Bool → Flight
  joins : Result Text ProxyResponse → Flight

-- `flightGroup.Do`: the result, and whether it is shared.
abbrev pub do_flight : Flight → Result Text ProxyResponse → Result Text ProxyResponse × Bool
do_flight (leads shared) own = (own, shared)
do_flight (joins result) own = (result, true)

-- The cache, the local `lod-cache` and the reply after the handler, or its panic.
pub record Handled (Opts : Type 0) (s : Stores) (f : Fiber) : Type 0 where
  pub cache : Cache Opts s
  pub status : Option Text
  pub reply : Result (Unit {0}) (Reply f)

-- The loop over the stored headers, in the order of the iteration.
unfoldable pub set_headers : (f : Fiber) → Headers → f.Headers → f.Headers
set_headers f [] old = old
set_headers f ((key, val) ∷ stored) old = set_headers f stored (f.set_header key val old)

module _ {Opts : Type 0} (with_query : Text → Text → Result Text Text) where
  -- `buildKeyAndUrl`: the URL and the key, or the status that it sets where one of them fails.
  unfoldable pub build_key_and_url : Proxy Opts → Request Text → Result Text (Text × Text)
  build_key_and_url p ctx = elim (build_tile_url with_query p ctx []) [
    | err e ↦ err (codes ":err-t")
    | panic ↦ panic
    | ok tile_url ↦ elim (build_cache_key p ctx []) [
      | err e ↦ err (codes ":err-c")
      | panic ↦ panic
      | ok cache_key ↦ ok (tile_url, cache_key)
    ]
  ]

module _ {Opts : Type 0} {s : Stores} {f : Fiber} where
  abbrev pub panicked : Cache Opts s → Option Text → Handled Opts s f
  panicked c status = record { cache = c; status = status; reply = panic }

  -- `returnCachedTile` from the point where the tile's bytes are written.
  unfoldable pub after_body :
      Proxy Opts
      → TilePacket
      → Option Text
      → Reply f × Option Text
      → Cache Opts s
      → Handled Opts s f
  after_body p tile status (reply, some e) c = record {
    cache = c;
    status = some (codes ":err-w");
    reply = ok (send_empty 500 reply);
  }
  after_body p tile status (reply, none) c = elim (headers tile) [
    | ok stored ↦ record {
      cache = c;
      status = status;
      reply = ok (record reply {
        headers = do_delete_headers p f.del_header (set_headers f stored reply.headers);
      });
    }
    | err e ↦ panicked c status
    | panic ↦ panicked c status
  ]

  unfoldable pub return_cached_tile :
      Proxy Opts → TilePacket → Option Text → Reply f → Cache Opts s → Handled Opts s f
  return_cached_tile p tile status reply c = elim (tile_data tile) [
    | ok bytes ↦ after_body p tile status (write bytes reply) c
    | err e ↦ panicked c status
    | panic ↦ panicked c status
  ]

  module _ (sum256 : List ℕ → List ℕ) (agent : Agent) where
    -- The reply after `ProcessResponse`.
    unfoldable pub after_process :
        Option Text → Reply f × Cache Opts s × Option ResponseError → Handled Opts s f
    after_process status (reply, c, none) = record { cache = c; status = status; reply = ok reply }
    after_process status (reply, c, some e) = record {
      cache = c;
      status = some (codes ":err-u");
      reply = ok (send_empty 500 reply);
    }

    -- A miss, from the point where the flight is over.
    unfoldable pub after_flight :
        Proxy Opts
        → Text
        → Result Text ProxyResponse
        → Bool
        → Reply f
        → Cache Opts s
        → Handled Opts s f
    after_flight p key (err e) waited reply c = record {
      cache = c;
      status = some (codes ":err-a");
      reply = ok (send_empty 500 reply);
    }
    after_flight p key panic waited reply c = panicked c (some (codes ":miss "))
    after_flight p key (ok response) waited reply c =
        after_process (some (if waited then codes ":hit-w" else codes ":miss "))
          (process_response sum256 p key response true reply c)

    -- What `Fetch` has returned.
    unfoldable pub after_fetch :
        Proxy Opts → Text → Text → Flight → Reply f → Fetched Opts s → Handled Opts s f
    after_fetch p tile_url key flight reply fetched = elim fetched.tile [
      | ok found ↦ elim found [
        | some tile ↦ return_cached_tile p tile fetched.status reply fetched.cache
        | none ↦
            let (response, waited) = do_flight flight (fetch_upstream agent tile_url p) in
            after_flight p key response waited reply fetched.cache
      ]
      | err e ↦ panicked fetched.cache fetched.status
      | panic ↦ panicked fetched.cache fetched.status
    ]

    -- What `buildKeyAndUrl` has returned.
    unfoldable pub after_named :
        Proxy Opts → Flight → Reply f → Cache Opts s → Result Text (Text × Text) → Handled Opts s f
    after_named p flight reply c (err status) = record {
      cache = c;
      status = some status;
      reply = ok (send_empty 400 reply);
    }
    after_named p flight reply c panic = panicked c none
    after_named p flight reply c (ok (tile_url, key)) =
        after_fetch p tile_url key flight reply (fetch sum256 key c)

    unfoldable pub handle :
        (Text → Text → Result Text Text)
        → Proxy Opts
        → Request Text
        → Flight
        → Reply f
        → Cache Opts s
        → Handled Opts s f
    handle with_query p ctx flight reply c =
        after_named p flight reply c (build_key_and_url with_query p (fill_params_map p ctx))
