-- ===== src/Tile/Children.antt =====
-- The children of a tile (tile/tile.go) divide it in four.
use lod.Prelude.{ℕ, ◌+◌, ◌*◌, ◌/◌, ◌%◌, ◌^◌, ◌<◌, [], ◌∷◌, ◌≡◌, ◌↔◌, arith}
use lod.Prelude.Int.{pos, ◌+ℤ◌, wrap}
use lod.Tile.{Tile, children, double, double_succ}
use mathlib.Core.List.{Memᴰ}
use native.Mathlib.Decide.{dec_lt}

-- A tile with natural coordinates.
abbrev pub tile_at : ℕ → ℕ → ℕ → Tile
tile_at x y zoom = record { x = pos x; y = pos y; zoom = pos zoom }

-- Coordinates that can be doubled within an `int`.
pub record IsSmall (x y zoom : ℕ) : Type 0 where
  pub x_small : x < 2 ^ 62
  pub y_small : y < 2 ^ 62
  pub zoom_small : zoom < 2 ^ 62

double-pos : (n : ℕ) → n < 2 ^ 62 → double (pos n) ≡ pos (2 * n)
unfolding double wrap ◌+ℤ◌
double-pos n h = ground arith

double_succ-pos : (n : ℕ) → n < 2 ^ 62 → double_succ (pos n) ≡ pos (2 * n + 1)
unfolding double_succ wrap ◌+ℤ◌
double_succ-pos n h = rw (double-pos n h) (ground arith)

succ_zoom : (n : ℕ) → n < 2 ^ 62 → wrap (pos n +ℤ pos 1) ≡ pos (n + 1)
unfolding wrap ◌+ℤ◌
succ_zoom n h = ground arith

pub children-tile_at :
    (x y zoom : ℕ)
    → IsSmall x y zoom
    → children (tile_at x y zoom)
      ≡ tile_at (2 * x) (2 * y) (zoom + 1)
        ∷ tile_at (2 * x + 1) (2 * y) (zoom + 1)
        ∷ tile_at (2 * x) (2 * y + 1) (zoom + 1)
        ∷ tile_at (2 * x + 1) (2 * y + 1) (zoom + 1)
        ∷ []
unfolding children
children-tile_at x y zoom h = rw (
  double-pos x h.x_small,
  double-pos y h.y_small,
  double_succ-pos x h.x_small,
  double_succ-pos y h.y_small,
  succ_zoom zoom h.zoom_small,
)

-- A tile is the parent of another if it is one level up and covers it.
abbrev pub IsParent : ℕ → ℕ → ℕ → ℕ → ℕ → ℕ → Type 0
IsParent x y zoom a b level = (a / 2 ≡ x) × (b / 2 ≡ y) × (level ≡ zoom + 1)

mem-four :
    (a b level x y zoom : ℕ)
    → Memᴰ (tile_at a b level) (
        tile_at (2 * x) (2 * y) (zoom + 1)
        ∷ tile_at (2 * x + 1) (2 * y) (zoom + 1)
        ∷ tile_at (2 * x) (2 * y + 1) (zoom + 1)
        ∷ tile_at (2 * x + 1) (2 * y + 1) (zoom + 1)
        ∷ [])
    → IsParent x y zoom a b level
mem-four a b level x y zoom (Memᴰ.head e) = ground arith
mem-four a b level x y zoom (Memᴰ.tail (Memᴰ.head e)) = ground arith
mem-four a b level x y zoom (Memᴰ.tail (Memᴰ.tail (Memᴰ.head e))) = ground arith
mem-four a b level x y zoom (Memᴰ.tail (Memᴰ.tail (Memᴰ.tail (Memᴰ.head e)))) = ground arith
mem-four a b level x y zoom (Memᴰ.tail (Memᴰ.tail (Memᴰ.tail (Memᴰ.tail m)))) = elim m [ ]

four-mem :
    (a b level x y zoom : ℕ)
    → IsParent x y zoom a b level
    → Memᴰ (tile_at a b level) (
        tile_at (2 * x) (2 * y) (zoom + 1)
        ∷ tile_at (2 * x + 1) (2 * y) (zoom + 1)
        ∷ tile_at (2 * x) (2 * y + 1) (zoom + 1)
        ∷ tile_at (2 * x + 1) (2 * y + 1) (zoom + 1)
        ∷ [])
four-mem a b level x y zoom h = elim (dec_lt 0 (a % 2)) [
  | no even ↦ elim (dec_lt 0 (b % 2)) [
    | no even' ↦ Memᴰ.head (ground arith)
    | yes odd' ↦ Memᴰ.tail (Memᴰ.tail (Memᴰ.head (ground arith)))
  ]
  | yes odd ↦ elim (dec_lt 0 (b % 2)) [
    | no even' ↦ Memᴰ.tail (Memᴰ.head (ground arith))
    | yes odd' ↦ Memᴰ.tail (Memᴰ.tail (Memᴰ.tail (Memᴰ.head (ground arith))))
  ]
]

-- For natural coordinates below 2 ^ 62, the children of a tile are exactly the tiles one level down
-- whose halved coordinates are the tile's.
pub mem-children_iff :
    (x y zoom a b level : ℕ)
    → IsSmall x y zoom
    → Memᴰ (tile_at a b level) (children (tile_at x y zoom)) ↔ IsParent x y zoom a b level
mem-children_iff x y zoom a b level h =
    rw (children-tile_at x y zoom h) (mem-four a b level x y zoom, four-mem a b level x y zoom)
