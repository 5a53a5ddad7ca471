-- ===== src/Tile/Runs.antt =====
-- Concrete tiles, and the theorems on tiles at concrete inputs.
use lod.Prelude.{
  ◌+◌, ◌^◌, ◌≤◌, ◌<◌, List, [], ◌∷◌, ◌≡◌, ◌⊎◌, ◌↔◌, refl, arith, length, some, none, true,
}
use lod.Prelude.Int.{pos, negsuc}
use lod.Prelude.Text.{codes}
use lod.Prelude.Strings.{has_prefix, replace_from, replace_all, digits_loop, decimal, itoa}
use lod.Tile.{
  Tile, to_string, inject_string, children, Pool, start, spawned, sent, returned, appended, Step,
  here, next, Returns, deep_intersect,
}
use lod.Tile.Children.{tile_at, IsParent, mem-children_iff}
use lod.Tile.Descendants.{levels, count, descendants}
use lod.Tile.Collector.{Returns-descendants}
use lod.Tile.Termination.{steps, Run-ends, Returns_empty}
use mathlib.Core.List.{Memᴰ}

texts : Unit {0}
unfolding has_prefix replace_from replace_all digits_loop decimal itoa inject_string to_string
texts = tt

inject_run :
    inject_string (tile_at 5 0 12) (codes "https://t/{z}/{x}/{y}.pbf?{x}")
    ≡ codes "https://t/12/5/0.pbf?5"
unfolding texts
inject_run = refl

to_string_run :
    to_string (record { x = negsuc 6; y = pos 10; zoom = pos 3 }) ≡ codes "(Z:3,X:-7,Y:10)"
unfolding texts
to_string_run = refl

intersect_run : deep_intersect (λ t. true) 1 (tile_at 9 8 16) ≡ some (tile_at 9 8 16 ∷ [])
unfolding deep_intersect
intersect_run = refl

abbrev leaf : Tile
leaf = tile_at 3 5 4

mem-children_iff_example : Memᴰ (tile_at 7 10 5) (children (tile_at 3 5 4)) ↔ IsParent 3 5 4 7 10 5
mem-children_iff_example = mem-children_iff 3 5 4 7 10 5 (omega arith)

-- A run in which the collecting goroutine appends in time.
complete_run : Returns (pos 4) leaf (leaf ∷ [])
unfolding start spawned
complete_run = record {
  final = record { jobs = []; hand = none; tiles = leaf ∷ [] };
  run =
      next (sent [] [] leaf refl refl refl)
        (next (appended leaf refl refl) (next (returned [] [] leaf refl refl) here));
  idle = refl;
  result = refl;
}

Returns-descendants_example :
    (lost : List Tile) × (length lost ≤ 1)
    × ((a : Tile) → count a (leaf ∷ []) + count a lost ≡ count a (descendants (pos 4) leaf))
Returns-descendants_example =
    Returns-descendants (pos 4) leaf (leaf ∷ []) (omega arith) (omega arith) complete_run

Run-ends_example :
    (steps complete_run.run < 4 ^ (levels (pos 4) leaf.zoom + 1))
    × (((complete_run.final.jobs ≡ []) × (complete_run.final.hand ≡ none))
        ⊎ ((q : Pool) × Step (pos 4) complete_run.final q))
Run-ends_example = Run-ends (pos 4) leaf complete_run.run (omega arith) (omega arith)

Returns_empty_example : Returns (pos 0) leaf []
Returns_empty_example = Returns_empty (pos 0) leaf (omega arith)
