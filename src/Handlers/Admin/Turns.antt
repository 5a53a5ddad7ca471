-- ===== src/Handlers/Admin/Turns.antt =====
-- What the turn of a tile comes to (`tileWorker`, www/handlers/admin/cache.go).
use lod.Prelude.{
  ℕ, ◌+◌, List, Bool, true, false, Result, ok, err, panic, Option, none, some, ◌≡◌, inl, inr, refl,
  arith, length, length-append, Bool-cases,
}
use lod.Prelude.Text.{Text}
use lod.Config.{Proxy}
use lod.Tile.{Tile}
use lod.Cache.Backends.{Stores}
use lod.Cache.{Cache}
use lod.Web.{Fiber, Reply, write, written}
use lod.Helpers.{Request}
use lod.Helpers.Upstream.{
  Agent, ProxyResponse, fetch_upstream, process_response, write_data, after_write, is_tile,
  cache_later,
}
use lod.Handlers.Admin.Workers.{
  Turn, primed, skipped, stopped, crashed, after_response, after_upstream, after_names, names_of,
  turn,
}

-- 1 for a turn that signals a success.
abbrev pub success_of : Turn → ℕ
success_of primed = 1
success_of skipped = 0
success_of stopped = 0
success_of crashed = 0

module _ {Opts : Type 0} {f : Fiber} (proxy : Proxy Opts) where
  written_alike :
      (bytes : List ℕ) (reply reply' : Reply f) → (write bytes reply).1 ≡ (write bytes reply').1
  written_alike bytes reply reply' = go (f.write_error bytes)
    where
      go : (e : Option Text) → (written bytes reply e).1 ≡ (written bytes reply' e).1
      go none = refl
      go (some e) = refl

  write_data-alike :
      (r : ProxyResponse) (reply reply' : Reply f)
      → (write_data proxy r reply).1 ≡ (write_data proxy r reply').1
  unfolding write_data
  write_data-alike r reply reply' = written_alike r.body _ _

module _ {Opts : Type 0} {s : Stores} {f : Fiber} (sum256 : List ℕ → List ℕ) (agent : Agent)
    (with_query : Text → Text → Result Text Text) (proxy : Proxy Opts) (ctx : Request Text) where
  abbrev pub turn_at : Tile → Reply f → Cache Opts s → Turn × Reply f × Cache Opts s
  turn_at = turn sum256 agent with_query proxy ctx

  after_write-alike :
      (key : Text) (r : ProxyResponse) (failed : Option Text) (reply reply' : Reply f)
      (c c' : Cache Opts s)
      → (after_response (after_write sum256 proxy key r failed reply c)).0
        ≡ (after_response (after_write sum256 proxy key r failed reply' c')).0
  unfolding after_response after_write
  after_write-alike key r none reply reply' c c' = refl
  after_write-alike key r (some e) reply reply' c c' = refl

  process_response-alike :
      (key : Text) (r : ProxyResponse) (reply reply' : Reply f) (c c' : Cache Opts s)
      → (after_response (process_response sum256 proxy key r true reply c)).0
        ≡ (after_response (process_response sum256 proxy key r true reply' c')).0
  unfolding after_response process_response
  process_response-alike key r reply reply' c c' = go (is_tile r) refl
    where
      go :
          (tile : Bool)
          → is_tile r ≡ tile
          → (after_response (process_response sum256 proxy key r true reply c)).0
            ≡ (after_response (process_response sum256 proxy key r true reply' c')).0
      go true e =
          rw (e, write_data-alike proxy r reply reply')
            (after_write-alike key r (write_data proxy r reply').1 (write_data proxy r reply).0
              (write_data proxy r reply').0 c c')
      go false e = rw e refl

  after_upstream-alike :
      (key : Text) (answer : Result Text ProxyResponse) (reply reply' : Reply f)
      (c c' : Cache Opts s)
      → (after_upstream sum256 agent with_query proxy ctx key answer reply c).0
        ≡ (after_upstream sum256 agent with_query proxy ctx key answer reply' c').0
  unfolding after_upstream
  after_upstream-alike key (ok response) reply reply' c c' =
      process_response-alike key response reply reply' c c'
  after_upstream-alike key (err e) reply reply' c c' = refl
  after_upstream-alike key panic reply reply' c c' = refl

  after_names-alike :
      (names : Result Text (Text × Text)) (reply reply' : Reply f) (c c' : Cache Opts s)
      → (after_names sum256 agent with_query proxy ctx names reply c).0
        ≡ (after_names sum256 agent with_query proxy ctx names reply' c').0
  unfolding after_names
  after_names-alike (ok (url, key)) reply reply' c c' =
      after_upstream-alike key (fetch_upstream agent url proxy) reply reply' c c'
  after_names-alike (err e) reply reply' c c' = refl
  after_names-alike panic reply reply' c c' = refl

  -- What the turn of a tile comes to does not depend on the reply and the cache.
  pub turn-alike :
      (t : Tile) (reply reply' : Reply f) (c c' : Cache Opts s)
      → (turn_at t reply c).0 ≡ (turn_at t reply' c').0
  unfolding turn
  turn-alike t reply reply' c c' =
      after_names-alike (names_of with_query proxy ctx t) reply reply' c c'

  after_write-background :
      (key : Text) (r : ProxyResponse) (failed : Option Text) (reply : Reply f) (c : Cache Opts s)
      → let (o, answered, later) = after_response (after_write sum256 proxy key r failed reply c) in
        length later.background ≡ length c.background + success_of o
  unfolding after_response after_write cache_later
  after_write-background key r none reply c = length-append c.background _
  after_write-background key r (some e) reply c = omega arith

  process_response-background :
      (key : Text) (r : ProxyResponse) (reply : Reply f) (c : Cache Opts s)
      → let (o, answered, later) =
          after_response (process_response sum256 proxy key r true reply c) in
        length later.background ≡ length c.background + success_of o
  unfolding after_response process_response
  process_response-background key r reply c = elim (Bool-cases (is_tile r)) [
    | inl tile ↦
        rw tile
          (after_write-background key r (write_data proxy r reply).1 (write_data proxy r reply).0 c)
    | inr other ↦ rw other (omega arith)
  ]

  after_upstream-background :
      (key : Text) (answer : Result Text ProxyResponse) (reply : Reply f) (c : Cache Opts s)
      → let (o, answered, later) =
          after_upstream sum256 agent with_query proxy ctx key answer reply c in
        length later.background ≡ length c.background + success_of o
  unfolding after_upstream
  after_upstream-background key (ok response) reply c =
      process_response-background key response reply c
  after_upstream-background key (err e) reply c = omega arith
  after_upstream-background key panic reply c = omega arith

  -- A turn that signals a success starts one goroutine, which sets the tile; the others start none.
  pub turn-background :
      (t : Tile) (reply : Reply f) (c : Cache Opts s)
      → let (o, answered, later) = turn_at t reply c in
        length later.background ≡ length c.background + success_of o
  unfolding turn after_names
  turn-background t reply c = go (names_of with_query proxy ctx t)
    where
      go :
          (names : Result Text (Text × Text))
          → let (o, answered, later) =
              after_names sum256 agent with_query proxy ctx names reply c in
            length later.background ≡ length c.background + success_of o
      go (ok (url, key)) = after_upstream-background key (fetch_upstream agent url proxy) reply c
      go (err e) = omega arith
      go panic = omega arith
