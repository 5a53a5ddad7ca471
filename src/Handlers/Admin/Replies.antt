-- ===== src/Handlers/Admin/Replies.antt =====
-- The reply of `InvalidateAndPrime` (www/handlers/admin/cache.go), and how a call ends.
use lod.Prelude.{ℕ, ◌≤◌, List, true, Result, ◌≡◌, ◌⊎◌, inl, inr, refl, length}
use lod.Prelude.Int.{ℤ, pos}
use lod.Prelude.Text.{Text}
use lod.Tile.{Tile, Returns}
use lod.Cache.Backends.{Stores}
use lod.Cache.{Cache}
use lod.Cache.Registry.{Registry}
use lod.Web.{Fiber, Reply}
use lod.Helpers.{Request}
use lod.Helpers.Upstream.{Agent}
use lod.Handlers.Admin.Workers.{Run}
use lod.Handlers.Admin.Priming.{priming-ends}
use lod.Handlers.Admin.Staff.{primed_count}
use lod.Handlers.Admin.Tiles.{
  Payload, Ending, replied, process_down, ready, report, put, prepare, Serves, primes, crashes,
}

module _ {Opts : Type 0} {s : Stores} {f : Fiber} (params_int_or : Text → ℤ → Result Text ℤ)
    (sum256 : List ℕ → List ℕ) (agent : Agent) (with_query : Text → Text → Result Text Text)
    (payload : Payload) (name : Text) (ctx : Request Text) (reply : Reply f)
    (r : Registry Opts s) where
  -- A priming that is not refused, of a cache with a number of workers, has for each list of tiles that
  -- `DeepChildren` returns an ending: the process is down, or the reply reports how many of the
  -- tiles it counted, which are at most all of them.
  pub priming-serves :
      (c : Cache Opts s) (ctx' : Request Text) (t : Tile) (max_zoom : ℤ) (tiles : List Tile)
      (num_workers : ℕ)
      → payload.prime ≡ true
      → prepare params_int_or payload name ctx reply r ≡ ready c ctx' t max_zoom
      → Returns max_zoom t tiles
      → c.proxy.num_workers ≡ pos num_workers
      → (ending : Ending f) × (r' : Registry Opts s) × Serves params_int_or sum256 agent with_query
          payload name ctx reply r ending r'
        × ((ending ≡ process_down)
            ⊎ ((n : ℕ) × (reply' : Reply f) × (n ≤ length tiles)
                × (ending ≡ replied (report (length tiles) n reply'))))
  priming-serves c ctx' t z tiles n on e found w =
      let (few, (p, run, over)) =
        priming-ends sum256 agent with_query c.proxy ctx' n tiles reply c (Run.here) in
      elim over [
        | inl end ↦ (
          replied (report (length tiles) p.successes p.reply),
          put name p.cache r,
          primes c ctx' t z tiles n p e on found w run end refl refl,
          inr (
            p.successes,
            p.reply,
            few_counted (primed_count sum256 agent with_query c.proxy ctx' reply c n tiles run),
            refl,
          ),
        )
        | inr down ↦ (
          process_down,
          put name p.cache r,
          crashes c ctx' t z tiles n p e on found w run down refl refl,
          inl refl,
        )
      ]
    where
      few_counted : {l m : ℕ} {A B : Type 0} → A × (l ≤ m) × B → l ≤ m
      few_counted (a, h, b) = h
