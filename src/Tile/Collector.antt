-- ===== src/Tile/Collector.antt =====
-- What `DeepChildren` (tile/tile.go) returns, over all interleavings of its goroutines.
use lod.Prelude.{
  ◌+◌, ◌≤◌, List, [], ◌∷◌, ◌++◌, ◌≡◌, inl, inr, ap, arith, All, All-append, length, Option, none,
  some, Bool-cases,
}
use lod.Prelude.Int.{ℤ, pos, ◌+ℤ◌, leb_ℤ, IsInt, wrap-IsInt}
use lod.Tile.{
  Tile, children, Job, send, spawn, Pool, start, spawned, Step, sent, appended, returned, Run, here,
  next, Returns,
}
use lod.Tile.Descendants.{
  levels, below, descendants, count, count-append, owed, owed_all, owed_all-spawned,
  count-owed_all_exchange,
}
use mathlib.Core.List.{append-nil}

-- The tile that the collecting goroutine holds, as a list.
abbrev pub held : Option Tile → List Tile
held none = []
held (some t) = t ∷ []

abbrev pub job_tile : Job → Tile
job_tile (send t) = t
job_tile (spawn t) = t

abbrev pub HasIntZoom : Job → Type 0
HasIntZoom j = IsInt (job_tile j).zoom

-- Every tile is counted once: as appended, as held, or as owed by a goroutine.
pub record Accounts (max_zoom : ℤ) (t : Tile) (p : Pool) : Type 0 where
  pub ints : All HasIntZoom p.jobs
  pub tally :
      (a : Tile)
      → count a p.tiles + count a (held p.hand) + count a (owed_all max_zoom p.jobs)
        ≡ count a (descendants max_zoom t)

pub start-Accounts : (max_zoom : ℤ) (t : Tile) → IsInt t.zoom → Accounts max_zoom t (start t)
unfolding start count owed_all owed descendants
start-Accounts max_zoom t h = record {
  ints = (h, tt);
  tally = λ a. rw (append-nil (below (levels max_zoom t.zoom) t)) (omega arith);
}

pub All-split :
    (front back : List Job) (j : Job)
    → All HasIntZoom (front ++ j ∷ back)
    → All HasIntZoom front × HasIntZoom j × All HasIntZoom back
All-split [] back j h = (tt, h.0, h.1)
All-split (k ∷ front) back j h =
    let (hf, hj, hb) = All-split front back j h.1 in ((h.0, hf), hj, hb)

spawned-ints : (max_zoom : ℤ) (t : Tile) → All HasIntZoom (spawned max_zoom t)
unfolding spawned children
spawned-ints max_zoom t =
    let zoom = wrap-IsInt (t.zoom +ℤ pos 1) in
    elim (Bool-cases (leb_ℤ max_zoom t.zoom)) [
      | inl done ↦ rw done tt
      | inr more ↦ rw more (zoom, (zoom, (zoom, (zoom, tt))))
    ]

module _ (max_zoom : ℤ) (max_int : IsInt max_zoom) (t : Tile) where
  pub Step-Accounts :
      {p q : Pool} → Accounts max_zoom t p → Step max_zoom p q → Accounts max_zoom t q
  unfolding owed_all owed count
  Step-Accounts {p} h (sent front back s jobs free e) =
      let (fronts, int, backs) = All-split front back (send s) (rw jobs at h.ints) in
      rw e (record {
        ints = All-append HasIntZoom front (spawn s ∷ back) fronts (int, backs);
        tally = λ a. omega (
          arith,
          rw (jobs, free) at (h.tally a),
          count-owed_all_exchange a max_zoom front back (spawn s ∷ []) (send s),
          count-append a (below (levels max_zoom s.zoom) s) [],
        );
      })
  Step-Accounts {p} h (appended s full e) = rw e (record {
    ints = h.ints;
    tally = λ a. omega (arith, rw full at (h.tally a), count-append a p.tiles (s ∷ []));
  })
  Step-Accounts {p} h (returned front back s jobs e) =
      let (fronts, int, backs) = All-split front back (spawn s) (rw jobs at h.ints) in
      rw e (record {
        ints =
            All-append HasIntZoom front (spawned max_zoom s ++ back) fronts
              (All-append HasIntZoom (spawned max_zoom s) back (spawned-ints max_zoom s) backs);
        tally = λ a. omega (
          arith,
          rw jobs at (h.tally a),
          count-owed_all_exchange a max_zoom front back (spawned max_zoom s) (spawn s),
          ap (count a) (owed_all-spawned max_zoom s max_int int),
        );
      })

  Run-Accounts : {p q : Pool} → Accounts max_zoom t p → Run max_zoom p q → Accounts max_zoom t q
  Run-Accounts h here = h
  Run-Accounts h (next s r) = Run-Accounts (Step-Accounts h s) r

-- Whatever the order in which the goroutines run, what `DeepChildren` returns for `int` zooms has
-- each tile as often as the list of all descendants has it, less at most one tile.
pub Returns-descendants :
    (max_zoom : ℤ) (t : Tile) (found : List Tile)
    → IsInt max_zoom
    → IsInt t.zoom
    → Returns max_zoom t found
    → (lost : List Tile) × (length lost ≤ 1)
      × ((a : Tile) → count a found + count a lost ≡ count a (descendants max_zoom t))
unfolding owed_all count
Returns-descendants max_zoom t found hm hz r =
    let h = Run-Accounts max_zoom hm t (start-Accounts max_zoom t hz) r.run in
    (
      held r.final.hand,
      held_one r.final.hand,
      λ a. omega (arith, ap (count a) r.result, rw r.idle at (h.tally a)),
    )
  where
    held_one : (o : Option Tile) → length (held o) ≤ 1
    held_one none = omega arith
    held_one (some t) = omega arith
