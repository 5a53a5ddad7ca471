-- ===== src/Handlers/Admin/Tally.antt =====
-- What a priming (`InvalidateAndPrime` and `tileWorker`, www/handlers/admin/cache.go) counts.
use lod.Prelude.{ℕ, ◌+◌, ◌≤◌, List, [], ◌∷◌, ◌++◌, Result, ◌≡◌, refl, arith, length, ap}
use lod.Prelude.Text.{Text}
use lod.Config.{Proxy}
use lod.Tile.{Tile}
use lod.Cache.Backends.{Stores}
use lod.Cache.{Cache}
use lod.Web.{Fiber, Reply}
use lod.Helpers.{Request}
use lod.Helpers.Upstream.{Agent}
use lod.Handlers.Admin.Workers.{
  Turn, primed, skipped, stopped, crashed, Primer, settle, turn, Step, submits, receives, finishes,
  leaves, Run, here, next,
}
use lod.Handlers.Admin.Turns.{success_of, turn-alike, turn-background}

module _ {Opts : Type 0} {s : Stores} {f : Fiber} (sum256 : List ℕ → List ℕ) (agent : Agent)
    (with_query : Text → Text → Result Text Text) (proxy : Proxy Opts) (ctx : Request Text)
    (reply : Reply f) (c : Cache Opts s) where
  -- What the turn of a tile comes to.
  abbrev pub result : Tile → Turn
  result t = (turn sum256 agent with_query proxy ctx t reply c).0

  -- How many tiles of a list come to a success.
  unfoldable pub good : List Tile → ℕ
  good [] = 0
  good (t ∷ ts) = success_of (result t) + good ts

  good-append : (ts us : List Tile) → good (ts ++ us) ≡ good ts + good us
  unfolding good
  good-append [] us = omega arith
  good-append (t ∷ ts) us = omega (arith, good-append ts us)

  success_le : (o : Turn) → success_of o ≤ 1
  success_le primed = omega arith
  success_le skipped = omega arith
  success_le stopped = omega arith
  success_le crashed = omega arith

  pub good_le : (ts : List Tile) → good ts ≤ length ts
  unfolding good
  good_le [] = omega arith
  good_le (t ∷ ts) = omega (arith, good_le ts, success_le (result t))

  -- The successes so far and those still to come are those of all the tiles, and each success so far
  -- has started one goroutine.
  pub record Balanced (tiles : List Tile) (p : Primer Opts s f) : Type 0 where
    pub tally : p.successes + (good p.unsent + (good p.jobs + good p.busy)) ≡ good tiles
    pub tasks : length p.cache.background ≡ length c.background + p.successes

  pub settle-successes :
      (o : Turn × Reply f × Cache Opts s) (p : Primer Opts s f)
      → ((settle o p).successes ≡ p.successes + success_of o.0)
        × ((settle o p).unsent ≡ p.unsent)
        × ((settle o p).jobs ≡ p.jobs)
        × ((settle o p).busy ≡ p.busy)
        × ((settle o p).cache ≡ o.2)
  unfolding settle
  settle-successes (primed, r, d) p = (omega arith, refl, refl, refl, refl)
  settle-successes (skipped, r, d) p = (omega arith, refl, refl, refl, refl)
  settle-successes (stopped, r, d) p = (omega arith, refl, refl, refl, refl)
  settle-successes (crashed, r, d) p = (omega arith, refl, refl, refl, refl)

  Step-Balanced :
      {tiles : List Tile} {p q : Primer Opts s f}
      → Step sum256 agent with_query proxy ctx p q
      → Balanced tiles p
      → Balanced tiles q
  unfolding good
  Step-Balanced {tiles} {p} {q} (submits t ts up e eq) h = rw eq (record {
    tally = omega (arith, h.tally, ap good e, good-append p.jobs (t ∷ []));
    tasks = h.tasks;
  })
  Step-Balanced {tiles} {p} {q} (receives t ts n up ej ei eq) h =
      rw eq (record { tally = omega (arith, h.tally, ap good ej); tasks = h.tasks })
  Step-Balanced {tiles} {p} {q} (finishes front back t up e eq) h =
      let o = turn sum256 agent with_query proxy ctx t p.reply p.cache in
      let (es, eu, ej, eb, ec) = settle-successes o (record p { busy = front ++ back }) in
      rw eq (record {
        tally =
            rw (es, eu, ej, eb)
              (omega (
                arith,
                h.tally,
                ap good e,
                good-append front (t ∷ back),
                good-append front back,
                ap success_of
                    (turn-alike sum256 agent with_query proxy ctx t p.reply reply p.cache c),
              ));
        tasks =
            rw (es, ec)
              (omega (
                arith,
                h.tasks,
                turn-background sum256 agent with_query proxy ctx t p.reply p.cache,
              ));
      })
  Step-Balanced {tiles} {p} {q} (leaves n up eu ej ei eq) h =
      rw eq (record { tally = h.tally; tasks = h.tasks })

  pub Run-Balanced :
      {tiles : List Tile} {p q : Primer Opts s f}
      → Run sum256 agent with_query proxy ctx p q
      → Balanced tiles p
      → Balanced tiles q
  Run-Balanced here h = h
  Run-Balanced (next st r) h = Run-Balanced r (Step-Balanced st h)
