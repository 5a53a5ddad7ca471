-- ===== src/Handlers/Admin/Staff.antt =====
-- The number of workers in the course of a priming (www/handlers/admin/cache.go).
use lod.Prelude.{
  ℕ, ◌+◌, ◌≤◌, ◌<◌, List, [], ◌∷◌, ◌++◌, true, false, Result, ◌≡◌, ◌⊎◌, inl, inr, refl, ◌∙◌, arith,
  length, length-append, ap,
}
use lod.Prelude.Text.{Text}
use lod.Config.{Proxy}
use lod.Tile.{Tile}
use lod.Cache.Backends.{Stores}
use lod.Cache.{Cache}
use lod.Web.{Fiber, Reply}
use lod.Helpers.{Request}
use lod.Helpers.Upstream.{Agent}
use lod.Handlers.Admin.Workers.{
  Turn, primed, skipped, stopped, crashed, Primer, start_workers, settle, turn, Step, submits,
  receives, finishes, leaves, Run, here, next, HasEnded,
}
use lod.Handlers.Admin.Turns.{turn-alike}
use lod.Handlers.Admin.Tally.{result, good, good_le, Balanced, Run-Balanced}

-- 1 for a turn after which the worker returns.
abbrev pub stop_of : Turn → ℕ
stop_of primed = 0
stop_of skipped = 0
stop_of stopped = 1
stop_of crashed = 0

module _ {Opts : Type 0} {s : Stores} {f : Fiber} (sum256 : List ℕ → List ℕ) (agent : Agent)
    (with_query : Text → Text → Result Text Text) (proxy : Proxy Opts) (ctx : Request Text)
    (reply : Reply f) (c : Cache Opts s) where
  -- How many tiles of a list make their worker return.
  unfoldable pub bad : List Tile → ℕ
  bad [] = 0
  bad (t ∷ ts) = stop_of (result sum256 agent with_query proxy ctx reply c t) + bad ts

  bad-append : (ts us : List Tile) → bad (ts ++ us) ≡ bad ts + bad us
  unfolding bad
  bad-append [] us = omega arith
  bad-append (t ∷ ts) us = omega (arith, bad-append ts us)

  -- All the tiles are received, or the workers are those of the start less one for each tile that made
  -- its worker return; or the process is down.
  data Staffed (num_workers : ℕ) (tiles : List Tile) (p : Primer Opts s f) : Type 0 where
    crash : p.down ≡ true → Staffed num_workers tiles p
    emptied : p.unsent ≡ [] → p.jobs ≡ [] → Staffed num_workers tiles p
    staffed :
        p.idle + length p.busy + bad tiles
          ≡ num_workers + (bad p.unsent + (bad p.jobs + bad p.busy))
        → Staffed num_workers tiles p

  settle-staff :
      (o : Turn × Reply f × Cache Opts s) (p : Primer Opts s f)
      → ((settle o p).down ≡ true)
        ⊎ (((settle o p).idle + stop_of o.0 ≡ p.idle + 1)
            × ((settle o p).unsent ≡ p.unsent)
            × ((settle o p).jobs ≡ p.jobs)
            × ((settle o p).busy ≡ p.busy))
  unfolding settle
  settle-staff (primed, r, d) p = inr (omega arith, refl, refl, refl)
  settle-staff (skipped, r, d) p = inr (omega arith, refl, refl, refl)
  settle-staff (stopped, r, d) p = inr (omega arith, refl, refl, refl)
  settle-staff (crashed, r, d) p = inl refl

  finish-Staffed :
      {num_workers : ℕ} {tiles : List Tile} (p : Primer Opts s f) (front back : List Tile)
      (t : Tile)
      → p.busy ≡ front ++ t ∷ back
      → Staffed num_workers tiles p
      → p.down ≡ false
      → Staffed num_workers tiles (
          settle
            (turn sum256 agent with_query proxy ctx t p.reply p.cache)
            (record p { busy = front ++ back }))
  unfolding bad
  finish-Staffed {num_workers} {tiles} p front back t e h up =
      let o = turn sum256 agent with_query proxy ctx t p.reply p.cache in
      elim (settle-staff o (record p { busy = front ++ back })) [
        | inl down ↦ crash down
        | inr (ei, eu, ej, eb) ↦ elim h [
          | crash down ↦ absurd (ground arith)
          | emptied nu nj ↦ emptied (eu ∙ nu) (ej ∙ nj)
          | staffed k ↦ staffed (
              rw (eu, ej, eb)
                (omega (
                  arith,
                  ei,
                  k,
                  ap bad e,
                  ap (λ (b : List Tile). length b) e,
                  bad-append front (t ∷ back),
                  bad-append front back,
                  length-append front (t ∷ back),
                  length-append front back,
                  ap stop_of
                      (turn-alike sum256 agent with_query proxy ctx t p.reply reply p.cache c),
                )))
        ]
      ]

  Step-Staffed :
      {num_workers : ℕ} {tiles : List Tile} {p q : Primer Opts s f}
      → Step sum256 agent with_query proxy ctx p q
      → Staffed num_workers tiles p
      → Staffed num_workers tiles q
  unfolding bad
  Step-Staffed {num_workers} {tiles} {p} {q} (submits t ts up e eq) (crash down) =
      absurd (ground arith)
  Step-Staffed {num_workers} {tiles} {p} {q} (submits t ts up e eq) (emptied nu nj) = absurd (cc)
  Step-Staffed {num_workers} {tiles} {p} {q} (submits t ts up e eq) (staffed k) =
      rw eq (staffed (omega (arith, k, ap bad e, bad-append p.jobs (t ∷ []))))
  Step-Staffed {num_workers} {tiles} {p} {q} (receives t ts n up ej ei eq) (crash down) =
      absurd (ground arith)
  Step-Staffed {num_workers} {tiles} {p} {q} (receives t ts n up ej ei eq) (emptied nu nj) =
      absurd (cc)
  Step-Staffed {num_workers} {tiles} {p} {q} (receives t ts n up ej ei eq) (staffed k) =
      rw eq (staffed (omega (arith, k, ei, ap bad ej)))
  Step-Staffed {num_workers} {tiles} {p} {q} (finishes front back t up e eq) h =
      rw eq (finish-Staffed p front back t e h up)
  Step-Staffed {num_workers} {tiles} {p} {q} (leaves n up eu ej ei eq) h = rw eq (emptied eu ej)

  Run-Staffed :
      {num_workers : ℕ} {tiles : List Tile} {p q : Primer Opts s f}
      → Run sum256 agent with_query proxy ctx p q
      → Staffed num_workers tiles p
      → Staffed num_workers tiles q
  Run-Staffed here h = h
  Run-Staffed (next st r) h = Run-Staffed r (Step-Staffed st h)

  start_workers-Balanced :
      (num_workers : ℕ) (tiles : List Tile) {p : Primer Opts s f}
      → Run sum256 agent with_query proxy ctx (start_workers num_workers tiles reply c) p
      → Balanced sum256 agent with_query proxy ctx reply c tiles p
  unfolding start_workers good
  start_workers-Balanced num_workers tiles r =
      Run-Balanced sum256 agent with_query proxy ctx reply c r
        (record { tally = omega arith; tasks = omega arith })

  -- In every state that a priming reaches, in whatever order its steps are taken, it has counted at
  -- most as many tiles as come to a success, and at most all of its tiles; and it has started one
  -- goroutine that sets a tile for each that it counted.
  pub primed_count :
      (num_workers : ℕ) (tiles : List Tile) {p : Primer Opts s f}
      → Run sum256 agent with_query proxy ctx (start_workers num_workers tiles reply c) p
      → (p.successes ≤ good sum256 agent with_query proxy ctx reply c tiles)
        × (p.successes ≤ length tiles)
        × (length p.cache.background ≡ length c.background + p.successes)
  primed_count num_workers tiles {p} r =
      let h : Balanced sum256 agent with_query proxy ctx reply c tiles p =
        start_workers-Balanced num_workers tiles r in
      (
        omega (arith, h.tally),
        omega (arith, h.tally, good_le sum256 agent with_query proxy ctx reply c tiles),
        h.tasks,
      )

  -- When a priming has ended in which fewer tiles make their worker return early than there are workers,
  -- it has counted exactly the tiles that come to a success, in whatever order its steps were taken.
  pub primed_all :
      (num_workers : ℕ) (tiles : List Tile) {p : Primer Opts s f}
      → Run sum256 agent with_query proxy ctx (start_workers num_workers tiles reply c) p
      → HasEnded p
      → bad tiles < num_workers
      → p.successes ≡ good sum256 agent with_query proxy ctx reply c tiles
  unfolding start_workers good bad
  primed_all num_workers tiles {p} r over enough =
      go (start_workers-Balanced num_workers tiles r) (Run-Staffed r (staffed (omega arith)))
    where
      go :
          Balanced sum256 agent with_query proxy ctx reply c tiles p
          → Staffed num_workers tiles p
          → p.successes ≡ good sum256 agent with_query proxy ctx reply c tiles
      go h (crash down) = absurd (cc)
      go h (emptied nu nj) =
          let goods = good sum256 agent with_query proxy ctx reply c in
          omega (arith, h.tally, ap goods nu, ap goods nj, ap goods over.none_busy)
      go h (staffed k) =
          absurd (omega (arith, k, over.none_idle, ap (λ (b : List Tile). length b) over.none_busy))
