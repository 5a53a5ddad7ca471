-- ===== src/Handlers/Admin/Workers.antt =====
-- www/handlers/admin/cache.go: the workers that prime tiles (`tileWorker`), and the state that they share
-- with the handler that starts them.
--
-- A step of the pool is one of the handler, which submits a tile, or one of a worker: it receives a tile,
-- does all that its turn is for, or returns because the queue is closed and empty. The queue has room
-- for all the tiles, so that no submission waits. The goroutines that a turn starts stand in the
-- cache's `background`. A panic in a worker is in no handler's goroutine, and ends the process: `down`.
use lod.Prelude.{
  ℕ, suc, List, [], ◌∷◌, ◌++◌, Bool, true, false, Result, ok, err, panic, Option, none, some, ◌≡◌,
  ◌>>=◌,
}
use lod.Prelude.Text.{Text}
use lod.Config.{Proxy}
use lod.Tile.{Tile}
use lod.Cache.Backends.{Stores}
use lod.Cache.{Cache}
use lod.Web.{Fiber, Reply}
use lod.Helpers.{Request, build_cache_key}
use lod.Helpers.Upstream.{Agent, ProxyResponse, ResponseError, fetch_upstream, process_response}
use lod.Helpers.Urls.{build_tile_url}

-- What a worker does after the turn of a tile: signal a success and go on, go on without one, return,
-- or end the process.
pub data Turn : Type 0 where
  primed : Turn
  skipped : Turn
  stopped : Turn
  crashed : Turn

-- `unsent` are the tiles that the handler has still to submit; the queue is closed when there are none.
pub record Primer (Opts : Type 0) (s : Stores) (f : Fiber) : Type 0 where
  pub unsent : List Tile
  pub jobs : List Tile
  pub idle : ℕ
  pub busy : List Tile
  pub successes : ℕ
  pub down : Bool
  pub reply : Reply f
  pub cache : Cache Opts s

-- The URL and the key of a tile of the queue.
unfoldable pub names_of :
    {Opts : Type 0}
    → (Text → Text → Result Text Text)
    → Proxy Opts
    → Request Text
    → Tile
    → Result Text (Text × Text)
names_of with_query proxy ctx t = do
  url ← build_tile_url with_query proxy ctx (t ∷ [])
  cache_key ← build_cache_key proxy ctx (t ∷ [])
  ok (url, cache_key)

module _ {Opts : Type 0} {s : Stores} {f : Fiber} where
  unfoldable pub start_workers : ℕ → List Tile → Reply f → Cache Opts s → Primer Opts s f
  start_workers num_workers tiles reply c = record {
    unsent = tiles;
    jobs = [];
    idle = num_workers;
    busy = [];
    successes = 0;
    down = false;
    reply = reply;
    cache = c;
  }

  unfoldable pub after_response :
      Reply f × Cache Opts s × Option ResponseError → Turn × Reply f × Cache Opts s
  after_response (reply, c, none) = (primed, reply, c)
  after_response (reply, c, some e) = (stopped, reply, c)

  -- The pool after a turn.
  unfoldable pub settle : Turn × Reply f × Cache Opts s → Primer Opts s f → Primer Opts s f
  settle (primed, reply, c) p = record p {
    idle = suc p.idle;
    successes = suc p.successes;
    reply = reply;
    cache = c;
  }
  settle (skipped, reply, c) p = record p { idle = suc p.idle; reply = reply; cache = c }
  settle (stopped, reply, c) p = record p { reply = reply; cache = c }
  settle (crashed, reply, c) p = record p { down = true; reply = reply; cache = c }

  module _ (sum256 : List ℕ → List ℕ) (agent : Agent) (with_query : Text → Text → Result Text Text)
      (proxy : Proxy Opts) (ctx : Request Text) where
    -- Where the fetch has failed, `err` is nil and `err.Error()` panics.
    unfoldable pub after_upstream :
        Text → Result Text ProxyResponse → Reply f → Cache Opts s → Turn × Reply f × Cache Opts s
    after_upstream cache_key (err e) reply c = (crashed, reply, c)
    after_upstream cache_key panic reply c = (crashed, reply, c)
    after_upstream cache_key (ok response) reply c =
        after_response (process_response sum256 proxy cache_key response true reply c)

    unfoldable pub after_names :
        Result Text (Text × Text) → Reply f → Cache Opts s → Turn × Reply f × Cache Opts s
    after_names (err e) reply c = (skipped, reply, c)
    after_names panic reply c = (crashed, reply, c)
    after_names (ok (url, cache_key)) reply c =
        after_upstream cache_key (fetch_upstream agent url proxy) reply c

    -- One round of the loop.
    unfoldable pub turn : Tile → Reply f → Cache Opts s → Turn × Reply f × Cache Opts s
    turn t reply c = after_names (names_of with_query proxy ctx t) reply c

    pub data Step (p q : Primer Opts s f) : Type 0 where
      submits :
          (t : Tile) (ts : List Tile)
          → p.down ≡ false
          → p.unsent ≡ t ∷ ts
          → q ≡ record p { unsent = ts; jobs = p.jobs ++ t ∷ [] }
          → Step p q
      receives :
          (t : Tile) (ts : List Tile) (n : ℕ)
          → p.down ≡ false
          → p.jobs ≡ t ∷ ts
          → p.idle ≡ suc n
          → q ≡ record p { jobs = ts; idle = n; busy = t ∷ p.busy }
          → Step p q
      finishes :
          (front back : List Tile) (t : Tile)
          → p.down ≡ false
          → p.busy ≡ front ++ t ∷ back
          → q ≡ settle (turn t p.reply p.cache) (record p { busy = front ++ back })
          → Step p q
      leaves :
          (n : ℕ)
          → p.down ≡ false
          → p.unsent ≡ []
          → p.jobs ≡ []
          → p.idle ≡ suc n
          → q ≡ record p { idle = n }
          → Step p q

    pub data Run : Primer Opts s f → Primer Opts s f → Type 0 where
      here : {p : Primer Opts s f} → Run p p
      next : {p q r : Primer Opts s f} → Step p q → Run q r → Run p r

  -- `wg.Wait()` returns: all tiles are submitted, and all workers have returned.
  pub record HasEnded (p : Primer Opts s f) : Type 0 where
    pub running : p.down ≡ false
    pub sent : p.unsent ≡ []
    pub none_idle : p.idle ≡ 0
    pub none_busy : p.busy ≡ []
