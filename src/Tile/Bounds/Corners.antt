-- ===== src/Tile/Bounds/Corners.antt =====
-- Where the boxes of tiles meet (tile/tile.go: `Bounds`).
use lod.Prelude.{ℕ, ◌+◌, ◌*◌, ◌^◌, ◌<◌, ◌≡◌, refl, ap, ◌∙◌, arith}
use lod.Prelude.Int.{pos}
use lod.Tile.Children.{tile_at}
use lod.Tile.Bounds.{Floats, x_float, y_float, zoom_float, get_corner, bounds}

-- What the code relies on of float64: integers below 2 ^ 53 are exact, and so are a sum with 1 and a double
-- that stay below; and doubling both parts of a quotient by a power of two does not change it.
pub record FloatsLaws (fl : Floats) : Type 0 where
  pub add_one :
      (n : ℕ)
      → n < 2 ^ 52
      → fl.add (fl.of_int (pos n)) (fl.of_int (pos 1)) ≡ fl.of_int (pos (n + 1))
  pub mul_two :
      (n : ℕ)
      → n < 2 ^ 52
      → fl.mul (fl.of_int (pos 2)) (fl.of_int (pos n)) ≡ fl.of_int (pos (2 * n))
  pub halved :
      (n zoom : ℕ)
      → n < 2 ^ 52
      → zoom < 1000
      → fl.div (fl.of_int (pos (2 * n))) (fl.pow (fl.of_int (pos 2)) (fl.of_int (pos (zoom + 1))))
        ≡ fl.div (fl.of_int (pos n)) (fl.pow (fl.of_int (pos 2)) (fl.of_int (pos zoom)))

module _ {fl : Floats} (laws : FloatsLaws fl) where
  -- The corner of the tile with the coordinates.
  abbrev corner_at : ℕ → ℕ → ℕ → fl.Float × fl.Float
  corner_at x y zoom = get_corner fl (fl.of_int (pos x)) (fl.of_int (pos y)) (fl.of_int (pos zoom))

  corner_doubled :
      (x y zoom : ℕ)
      → x < 2 ^ 51
      → y < 2 ^ 51
      → zoom < 1000
      → corner_at (2 * x) (2 * y) (zoom + 1) ≡ corner_at x y zoom
  unfolding get_corner
  corner_doubled x y zoom hx hy hz =
      rw
        (
          laws.mul_two (2 * y) (omega arith),
          laws.mul_two y (omega arith),
          laws.halved x zoom (omega arith) hz,
          laws.halved (2 * y) zoom (omega arith) hz,
        )
        refl

  corner_two :
      (x y zoom : ℕ)
      → corner_at (2 * x + 1 + 1) (2 * y + 1 + 1) zoom ≡ corner_at (2 * (x + 1)) (2 * (y + 1)) zoom
  corner_two x y zoom =
      let ex : 2 * x + 1 + 1 ≡ 2 * (x + 1) = omega arith in
      let ey : 2 * y + 1 + 1 ≡ 2 * (y + 1) = omega arith in rw (ex, ey) refl

  bounds_at :
      (x y zoom : ℕ)
      → x < 2 ^ 51
      → y < 2 ^ 51
      → bounds fl (tile_at x y zoom) ≡ record {
        min_x = (corner_at x y zoom).0;
        min_y = (corner_at x y zoom).1;
        max_x = (corner_at (x + 1) (y + 1) zoom).0;
        max_y = (corner_at (x + 1) (y + 1) zoom).1;
      }
  unfolding bounds x_float y_float zoom_float
  bounds_at x y zoom hx hy = rw (laws.add_one x (omega arith), laws.add_one y (omega arith)) refl

  -- Let a float64 obey its laws, and let coordinates be below 2 ^ 50 and a zoom level below 1000. Then the east
  -- side of a tile's box is the west side of its neighbour's box to the east, and its south side the
  -- north side of the neighbour's to the south; the first child's box has the north-west corner of the
  -- tile's, and the fourth child's box the south-east corner.
  pub bounds_meet :
      (x y zoom : ℕ)
      → x < 2 ^ 50
      → y < 2 ^ 50
      → zoom < 1000
      → let box = bounds fl (tile_at x y zoom) in
        let first = bounds fl (tile_at (2 * x) (2 * y) (zoom + 1)) in
        let fourth = bounds fl (tile_at (2 * x + 1) (2 * y + 1) (zoom + 1)) in
        (box.max_y ≡ (bounds fl (tile_at (x + 1) y zoom)).min_y)
        × (box.max_x ≡ (bounds fl (tile_at x (y + 1) zoom)).min_x)
        × (first.min_x ≡ box.min_x)
        × (first.min_y ≡ box.min_y)
        × (fourth.max_x ≡ box.max_x)
        × (fourth.max_y ≡ box.max_y)
  unfolding get_corner
  bounds_meet x y zoom hx hy hz =
      let whole = bounds_at x y zoom (omega arith) (omega arith) in
      let east = bounds_at (x + 1) y zoom (omega arith) (omega arith) in
      let south = bounds_at x (y + 1) zoom (omega arith) (omega arith) in
      let first = bounds_at (2 * x) (2 * y) (zoom + 1) (omega arith) (omega arith) in
      let fourth = bounds_at (2 * x + 1) (2 * y + 1) (zoom + 1) (omega arith) (omega arith) in
      let nw = corner_doubled x y zoom (omega arith) (omega arith) hz in
      let se : corner_at (2 * x + 1 + 1) (2 * y + 1 + 1) (zoom + 1)
          ≡ corner_at (x + 1) (y + 1) zoom =
        corner_two x y (zoom + 1)
        ∙ corner_doubled (x + 1) (y + 1) zoom (omega arith) (omega arith) hz in
      rw (whole, east, south, first, fourth)
        (refl, refl, ap (λ c. c.0) nw, ap (λ c. c.1) nw, ap (λ c. c.0) se, ap (λ c. c.1) se)
