-- ===== src/Handlers/Admin/Priming.antt =====
-- How a priming (`InvalidateAndPrime` and `tileWorker`, www/handlers/admin/cache.go) goes on and ends.
use lod.Prelude.{
  ℕ, suc, zero, ◌+◌, ◌*◌, ◌≤◌, List, [], ◌∷◌, ◌++◌, Bool, true, false, Result, ◌≡◌, ◌⊎◌, inl, inr,
  refl, arith, length, length-append, ap,
}
use lod.Prelude.Text.{Text}
use lod.Config.{Proxy}
use lod.Tile.{Tile}
use lod.Cache.Backends.{Stores}
use lod.Cache.{Cache}
use lod.Web.{Fiber, Reply}
use lod.Helpers.{Request}
use lod.Helpers.Upstream.{Agent}
use lod.Handlers.Admin.Workers.{
  Turn, primed, skipped, stopped, crashed, Primer, start_workers, settle, turn, Step, submits,
  receives, finishes, leaves, Run, here, next, HasEnded,
}

module _ {Opts : Type 0} {s : Stores} {f : Fiber} where
  -- A bound on the steps that are left.
  abbrev pub work : Primer Opts s f → ℕ
  work p = 3 * length p.unsent + 2 * length p.jobs + p.idle + 2 * length p.busy

  work-settle :
      (o : Turn × Reply f × Cache Opts s) (p : Primer Opts s f) → work (settle o p) ≤ work p + 1
  unfolding settle
  work-settle (primed, reply, c) p = omega arith
  work-settle (skipped, reply, c) p = omega arith
  work-settle (stopped, reply, c) p = omega arith
  work-settle (crashed, reply, c) p = omega arith

  module _ (sum256 : List ℕ → List ℕ) (agent : Agent) (with_query : Text → Text → Result Text Text)
      (proxy : Proxy Opts) (ctx : Request Text) where
    abbrev Goes : Primer Opts s f → Primer Opts s f → Type 0
    Goes = Step sum256 agent with_query proxy ctx

    abbrev Reaches : Primer Opts s f → Primer Opts s f → Type 0
    Reaches = Run sum256 agent with_query proxy ctx

    work-Step : {p q : Primer Opts s f} → Goes p q → work q + 1 ≤ work p
    work-Step {p} {q} (submits t ts up e eq) =
        rw (eq, e, length-append p.jobs (t ∷ [])) (omega arith)
    work-Step {p} {q} (receives t ts n up ej ei eq) = rw (eq, ej, ei) (omega arith)
    work-Step {p} {q} (finishes front back t up e eq) =
        let p' = record p { busy = front ++ back } in
        rw eq (
          omega (
            arith,
            work-settle (turn sum256 agent with_query proxy ctx t p.reply p.cache) p',
            ap (λ (b : List Tile). length b) e,
            length-append front (t ∷ back),
            length-append front back,
          ))
    work-Step {p} {q} (leaves n up eu ej ei eq) = rw (eq, ei) (omega arith)

    unfoldable pub steps : {p q : Primer Opts s f} → Reaches p q → ℕ
    steps here = 0
    steps (next st r) = suc (steps r)

    steps-work : {p q : Primer Opts s f} (r : Reaches p q) → steps r + work q ≤ work p
    unfolding steps
    steps-work here = omega arith
    steps-work (next st r) = omega (arith, work-Step st, steps-work r)

    -- A pool that is neither at its end nor down can take a step.
    progress :
        (p : Primer Opts s f) → (HasEnded p ⊎ (p.down ≡ true)) ⊎ ((q : Primer Opts s f) × Goes p q)
    progress p = go p.down p.unsent p.busy p.idle p.jobs refl refl refl refl refl
      where
        go :
            (down : Bool) (unsent busy : List Tile) (idle : ℕ) (jobs : List Tile)
            → p.down ≡ down
            → p.unsent ≡ unsent
            → p.busy ≡ busy
            → p.idle ≡ idle
            → p.jobs ≡ jobs
            → (HasEnded p ⊎ (p.down ≡ true)) ⊎ ((q : Primer Opts s f) × Goes p q)
        go true unsent busy idle jobs ed eu eb ei ej = inl (inr ed)
        go false (t ∷ ts) busy idle jobs ed eu eb ei ej = inr (_, submits t ts ed eu refl)
        go false [] (t ∷ ts) idle jobs ed eu eb ei ej = inr (_, finishes [] ts t ed eb refl)
        go false [] [] (suc n) (t ∷ ts) ed eu eb ei ej = inr (_, receives t ts n ed ej ei refl)
        go false [] [] (suc n) [] ed eu eb ei ej = inr (_, leaves n ed eu ej ei refl)
        go false [] [] zero jobs ed eu eb ei ej =
            inl (inl (record { running = ed; sent = eu; none_idle = ei; none_busy = eb }))

    Reaches-end :
        (fuel : ℕ) (p : Primer Opts s f)
        → work p ≤ fuel
        → (q : Primer Opts s f) × Reaches p q × (HasEnded q ⊎ (q.down ≡ true))
    Reaches-end zero p h = elim (progress p) [
      | inl over ↦ (p, here, over)
      | inr (q, st) ↦ absurd (omega (arith, work-Step st))
    ]
    Reaches-end (suc fuel) p h = elim (progress p) [
      | inl over ↦ (p, here, over)
      | inr (q, st) ↦
          let (r, run, over) = Reaches-end fuel q (omega (arith, work-Step st)) in
          (r, next st run, over)
    ]

    -- From the start with any number of workers, in whatever order the handler and the workers take their steps,
    -- a priming of n tiles takes at most three steps for each tile and one for each worker; and from
    -- every state that it reaches it can go on to one in which all the workers have returned and all
    -- the tiles are submitted, or the process has crashed.
    pub priming-ends :
        (num_workers : ℕ) (tiles : List Tile) (reply : Reply f) (c : Cache Opts s)
        {p : Primer Opts s f} (r : Reaches (start_workers num_workers tiles reply c) p)
        → (steps r ≤ 3 * length tiles + num_workers)
          × ((q : Primer Opts s f) × Reaches p q × (HasEnded q ⊎ (q.down ≡ true)))
    unfolding start_workers
    priming-ends num_workers tiles reply c {p} r =
        (omega (arith, steps-work r), Reaches-end (work p) p (omega arith))
