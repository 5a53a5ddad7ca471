-- ===== src/Handlers/Admin/Faithful.antt =====
-- What the workers and the loop of `InvalidateAndPrime` (www/handlers/admin/cache.go) put into a cache.
use lod.Prelude.{
  ℕ, suc, ◌^◌, ◌<◌, List, [], ◌∷◌, ◌++◌, true, Result, ok, err, panic, Option, none, some, ◌≡◌, inl,
  inr, refl, length, Bool-cases,
}
use lod.Prelude.Text.{Text}
use lod.Packet
use lod.Config.{Proxy}
use lod.Config.Messages.{do_pull_headers}
use lod.Tile.{Tile}
use lod.Cache.Backends.{Stores, StoresFrames}
use lod.Cache.{Cache, set_both, invalidate}
use lod.Cache.Faithful.{IsFaithful, later-IsFaithful, invalidate-IsFaithful}
use lod.Web.{Fiber, Reply}
use lod.Helpers.{Request, key_of, build_cache_key}
use lod.Helpers.Responses.{is_tile_iff}
use lod.Helpers.Upstream.{
  Agent, ProxyResponse, ResponseError, fetch_upstream, is_tile, write_data, cache_later,
  after_write, process_response,
}
use lod.Handlers.Proxy.Faithful.{IsRightResponse}
use lod.Handlers.Admin.Workers.{
  Primer, names_of, after_response, after_upstream, after_names, turn, Step, submits, receives,
  finishes, leaves, Run, here, next,
}
use lod.Handlers.Admin.Tally.{settle-successes}
use lod.Handlers.Admin.Tiles.{invalidate_all}

-- What the server answers for a tile of the queue is right for its key.
abbrev pub IsRightTile :
    {Opts : Type 0}
    → (Text → List ℕ → Type 0)
    → Agent
    → (Text → Text → Result Text Text)
    → Proxy Opts
    → Request Text
    → Tile
    → Type 0
IsRightTile Right agent with_query proxy ctx t =
    (url key : Text)
    → names_of with_query proxy ctx t ≡ ok (url, key)
    → IsRightResponse Right key (fetch_upstream agent url proxy)

module _ {Opts : Type 0} {s : Stores} {f : Fiber} (frames : StoresFrames s)
    (sum256 : List ℕ → List ℕ) (Right : Text → List ℕ → Type 0) where
  module _ (agent : Agent) (with_query : Text → Text → Result Text Text) (proxy : Proxy Opts)
      (ctx : Request Text) where
    after_write-IsFaithful :
        (key : Text) (r : ProxyResponse) (written : Option Text) (reply : Reply f)
        (c : Cache Opts s)
        → IsFaithful sum256 Right c
        → Right key r.body × (length r.body < 2 ^ 32)
        → IsFaithful sum256 Right (after_write sum256 proxy key r written reply c).1
    unfolding after_write cache_later
    after_write-IsFaithful key r none reply c h right =
        later-IsFaithful sum256 Right frames c
          (set_both key (Packet.encode sum256 r.body (do_pull_headers proxy r.resp []))) h
          (record {
            body = r.body;
            stored = do_pull_headers proxy r.resp [];
            encoded = refl;
            right = right.0;
            short = right.1;
          })
    after_write-IsFaithful key r (some e) reply c h right = h

    process_response-IsFaithful :
        (key : Text) (r : ProxyResponse) (reply : Reply f) (c : Cache Opts s)
        → IsFaithful sum256 Right c
        → IsRightResponse Right key (ok r)
        → IsFaithful sum256 Right (process_response sum256 proxy key r true reply c).1
    unfolding process_response
    process_response-IsFaithful key r reply c h right = elim (Bool-cases (is_tile r)) [
      | inl tile ↦ rw tile (
          after_write-IsFaithful key r (write_data proxy r reply).1 (write_data proxy r reply).0 c h
            (right ((is_tile_iff r).0 tile)))
      | inr other ↦ rw other h
    ]

    after_response-cache :
        (x : Reply f × Cache Opts s × Option ResponseError) → (after_response x).2 ≡ x.1
    unfolding after_response
    after_response-cache (reply, c, none) = refl
    after_response-cache (reply, c, some e) = refl

    after_upstream-IsFaithful :
        (key : Text) (answer : Result Text ProxyResponse) (reply : Reply f) (c : Cache Opts s)
        → IsFaithful sum256 Right c
        → IsRightResponse Right key answer
        → IsFaithful sum256 Right
            (after_upstream sum256 agent with_query proxy ctx key answer reply c).2
    unfolding after_upstream
    after_upstream-IsFaithful key (ok r) reply c h right =
        rw (after_response-cache (process_response sum256 proxy key r true reply c))
          (process_response-IsFaithful key r reply c h right)
    after_upstream-IsFaithful key (err e) reply c h right = h
    after_upstream-IsFaithful key panic reply c h right = h

    turn-IsFaithful :
        (t : Tile) (reply : Reply f) (c : Cache Opts s)
        → IsFaithful sum256 Right c
        → IsRightTile Right agent with_query proxy ctx t
        → IsFaithful sum256 Right (turn sum256 agent with_query proxy ctx t reply c).2
    unfolding turn after_names
    turn-IsFaithful t reply c h right = go (names_of with_query proxy ctx t) refl
      where
        go :
            (names : Result Text (Text × Text))
            → names_of with_query proxy ctx t ≡ names
            → IsFaithful sum256 Right
                (after_names sum256 agent with_query proxy ctx names reply c).2
        go (ok (url, key)) e =
            after_upstream-IsFaithful key (fetch_upstream agent url proxy) reply c h
              (right url key e)
        go (err e') e = h
        go panic e = h

    Step-IsFaithful :
        {p q : Primer Opts s f}
        → ((t : Tile) → IsRightTile Right agent with_query proxy ctx t)
        → Step sum256 agent with_query proxy ctx p q
        → IsFaithful sum256 Right p.cache
        → IsFaithful sum256 Right q.cache
    Step-IsFaithful {p} {q} right (submits t ts up e eq) h = rw eq h
    Step-IsFaithful {p} {q} right (receives t ts n up ej ei eq) h = rw eq h
    Step-IsFaithful {p} {q} right (finishes front back t up e eq) h =
        let o = turn sum256 agent with_query proxy ctx t p.reply p.cache in
        let (es, eu, ej, eb, ec) =
          settle-successes sum256 agent with_query proxy ctx p.reply p.cache o
            (record p { busy = front ++ back }) in
        rw (eq, ec) (turn-IsFaithful t p.reply p.cache h (right t))
    Step-IsFaithful {p} {q} right (leaves n up eu ej ei eq) h = rw eq h

    pub Run-IsFaithful :
        {p q : Primer Opts s f}
        → ((t : Tile) → IsRightTile Right agent with_query proxy ctx t)
        → Run sum256 agent with_query proxy ctx p q
        → IsFaithful sum256 Right p.cache
        → IsFaithful sum256 Right q.cache
    Run-IsFaithful right here h = h
    Run-IsFaithful right (next st r) h = Run-IsFaithful right r (Step-IsFaithful right st h)

module _ {Opts : Type 0} {s : Stores} (frames : StoresFrames s) (sum256 : List ℕ → List ℕ)
    (Right : Text → List ℕ → Type 0) where
  pub invalidate_all-IsFaithful :
      (proxy : Proxy Opts) (ctx : Request Text) (ts : List Tile) (n : ℕ) (c : Cache Opts s)
      → IsFaithful sum256 Right c
      → IsFaithful sum256 Right (invalidate_all proxy ctx ts n c).1
  unfolding invalidate_all build_cache_key
  invalidate_all-IsFaithful proxy ctx [] n c h = h
  invalidate_all-IsFaithful proxy ctx (t ∷ ts) n c h =
      let key = key_of proxy ctx t in
      invalidate_all-IsFaithful proxy ctx ts (suc n) (invalidate key c).0
        (invalidate-IsFaithful sum256 Right frames c key h)
