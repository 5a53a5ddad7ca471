-- ===== src/Tile/Termination.antt =====
-- `DeepChildren` (tile/tile.go) ends, and how it may end too soon.
use lod.Prelude.{
  ℕ, suc, ◌+◌, ◌*◌, ◌<◌, ◌^◌, List, [], ◌∷◌, ◌++◌, ◌≡◌, ◌⊎◌, inl, inr, refl, ap, ◌∙◌, arith, length,
  length-append, Option, none, some, true, Bool-cases, map,
}
use lod.Prelude.Int.{ℤ, ◌≤ℤ◌, leb_ℤ, IsInt}
use lod.Tile.{
  Tile, children, Job, send, spawn, Pool, start, spawned, Step, sent, appended, returned, Run, here,
  next, Returns,
}
use lod.Tile.Descendants.{
  levels, below, owed, owed_all, length-owed_all_exchange, owed_all-spawned, length-below,
}
use mathlib.Core.List.{append-nil}
use native.Mathlib.Numerals.{add-one}
use lod.Tile.Collector.{held, Accounts, start-Accounts, Step-Accounts, All-split}

-- The goroutines that have still to return from a send.
pub spawning : List Job → ℕ
spawning [] = 0
spawning (send t ∷ js) = spawning js
spawning (spawn t ∷ js) = suc (spawning js)

spawning-append : (js ks : List Job) → spawning (js ++ ks) ≡ spawning js + spawning ks
unfolding spawning
spawning-append [] ks = omega arith
spawning-append (send t ∷ js) ks = spawning-append js ks
spawning-append (spawn t ∷ js) ks = omega (arith, spawning-append js ks)

-- The steps that are left: three for each tile that is owed, one for a goroutine that has sent, and
-- one for a held tile.
abbrev pub work : ℤ → Pool → ℕ
work max_zoom p = 3 * length (owed_all max_zoom p.jobs) + spawning p.jobs + length (held p.hand)

spawning-map_send : (cs : List Tile) → spawning (map send cs) ≡ 0
unfolding spawning
spawning-map_send [] = refl
spawning-map_send (c ∷ cs) = spawning-map_send cs

spawning-spawned : (max_zoom : ℤ) (t : Tile) → spawning (spawned max_zoom t) ≡ 0
unfolding spawning spawned
spawning-spawned max_zoom t = elim (Bool-cases (leb_ℤ max_zoom t.zoom)) [
  | inl done ↦ rw done refl
  | inr more ↦ rw more (spawning-map_send (children t))
]

module _ (max_zoom : ℤ) (max_int : IsInt max_zoom) (t : Tile) where
  Step-work :
      {p q : Pool}
      → Accounts max_zoom t p
      → Step max_zoom p q
      → work max_zoom q + 1 ≡ work max_zoom p
  unfolding owed spawning
  Step-work {p} h (sent front back s jobs free e) =
      rw (e, jobs, free)
        (omega (
          arith,
          length-owed_all_exchange max_zoom front back (spawn s ∷ []) (send s),
          spawning-append front (spawn s ∷ back),
          spawning-append front (send s ∷ back),
          owed_one s,
        ))
    where
      owed_one :
          (s : Tile)
          → length (owed_all max_zoom (spawn s ∷ [])) ≡ length (below (levels max_zoom s.zoom) s)
      owed_one s =
          unfold owed_all in length-append (below (levels max_zoom s.zoom) s) [] ∙ omega arith
  Step-work {p} h (appended s full e) = rw (e, full) (omega arith)
  Step-work {p} h (returned front back s jobs e) =
      let (_, int, _) = All-split front back (spawn s) (rw jobs at h.ints) in
      rw (e, jobs)
        (omega (
          arith,
          length-owed_all_exchange max_zoom front back (spawned max_zoom s) (spawn s),
          ap length (owed_all-spawned max_zoom s max_int int),
          spawning-append front (spawned max_zoom s ++ back),
          spawning-append (spawned max_zoom s) back,
          spawning-append front (spawn s ∷ back),
          spawning-spawned max_zoom s,
        ))

unfoldable pub steps : {max_zoom : ℤ} {p q : Pool} → Run max_zoom p q → ℕ
steps here = 0
steps (next s r) = suc (steps r)

module _ (max_zoom : ℤ) (max_int : IsInt max_zoom) (t : Tile) where
  steps-work :
      {p q : Pool} (r : Run max_zoom p q)
      → Accounts max_zoom t p
      → steps r + work max_zoom q ≡ work max_zoom p
  unfolding steps
  steps-work here h = omega arith
  steps-work (next s r) h =
      omega (
        arith,
        steps-work r (Step-Accounts max_zoom max_int t h s),
        Step-work max_zoom max_int t h s,
      )

work-start :
    (max_zoom : ℤ) (t : Tile) → work max_zoom (start t) + 1 ≡ 4 ^ (levels max_zoom t.zoom + 1)
unfolding start owed_all owed spawning
work-start max_zoom t = rw (append-nil (below (levels max_zoom t.zoom) t)) (
    omega (
      arith,
      length-below (levels max_zoom t.zoom) t,
      ap (λ (n : ℕ). 4 ^ n) (add-one (levels max_zoom t.zoom)),
    ))

-- A pool in which no goroutine can take a step has no goroutine left, and nothing in hand.
progress :
    (max_zoom : ℤ) (p : Pool) → ((p.jobs ≡ []) × (p.hand ≡ none)) ⊎ ((q : Pool) × Step max_zoom p q)
progress max_zoom p = go p.jobs p.hand refl refl
  where
    go :
        (jobs : List Job) (hand : Option Tile)
        → p.jobs ≡ jobs
        → p.hand ≡ hand
        → ((p.jobs ≡ []) × (p.hand ≡ none)) ⊎ ((q : Pool) × Step max_zoom p q)
    go jobs (some s) ej eh = inr (_, appended s eh refl)
    go [] none ej eh = inl (ej, eh)
    go (send s ∷ js) none ej eh = inr (_, sent [] js s ej eh refl)
    go (spawn s ∷ js) none ej eh = inr (_, returned [] js s ej refl)

-- For `int` zooms, every run of `DeepChildren` takes fewer than 4 ^ (levels + 1) steps, and one that
-- cannot go on has no goroutine left and no tile that is received and not appended.
pub Run-ends :
    (max_zoom : ℤ) (t : Tile) {p : Pool} (r : Run max_zoom (start t) p)
    → IsInt max_zoom
    → IsInt t.zoom
    → (steps r < 4 ^ (levels max_zoom t.zoom + 1))
      × (((p.jobs ≡ []) × (p.hand ≡ none)) ⊎ ((q : Pool) × Step max_zoom p q))
Run-ends max_zoom t {p} r hm hz = (
  omega (arith, steps-work max_zoom hm t r (start-Accounts max_zoom t hz), work-start max_zoom t),
  progress max_zoom p,
)

-- Of a tile at the maximal zoom or deeper, `DeepChildren` may return an empty list.
pub Returns_empty : (max_zoom : ℤ) (t : Tile) → max_zoom ≤ℤ t.zoom → Returns max_zoom t []
unfolding start spawned
Returns_empty max_zoom t h = record {
  final = record { jobs = []; hand = some t; tiles = [] };
  run = next (sent [] [] t refl refl refl) (next (returned [] [] t refl (rw done refl)) here);
  idle = refl;
  result = refl;
}
  where
    done : leb_ℤ max_zoom t.zoom ≡ true
    done = ground arith
