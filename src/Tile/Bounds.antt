-- ===== src/Tile/Bounds.antt =====
-- tile/tile.go: the coordinates as floats, the corners and the bounding box of a tile, and the test of
-- `DeepIntersect` by it.
--
-- Go's float64 is the record `Floats`: its values, its arithmetic, and the functions of the package math.
-- The geometry of the GEOS library is its answer `intersects` to a box that is given by four floats.
pub mod Corners
mod Runs
use lod.Prelude.{ℕ, List, Bool, Option}
use lod.Prelude.Int.{ℤ, pos}
use lod.Tile.{Tile, deep_intersect}

-- The arithmetic of float64, and the constants `math.Pi` and `180 / math.Pi`, which the compiler computes.
pub record Floats : Type 1 where
  pub Float : Type 0
  pub of_int : ℤ → Float
  pub add : Float → Float → Float
  pub sub : Float → Float → Float
  pub mul : Float → Float → Float
  pub div : Float → Float → Float
  pub pow : Float → Float → Float
  pub atan : Float → Float
  pub sinh : Float → Float
  pub pi : Float
  pub half_turn_by_pi : Float

-- `geos.Bounds`, as `geos.NewBounds` is called.
pub record Box (Float : Type 0) : Type 0 where
  pub min_x : Float
  pub min_y : Float
  pub max_x : Float
  pub max_y : Float

module _ (fl : Floats) where
  unfoldable pub x_float : Tile → fl.Float
  x_float t = fl.of_int t.x

  unfoldable pub y_float : Tile → fl.Float
  y_float t = fl.of_int t.y

  unfoldable pub zoom_float : Tile → fl.Float
  zoom_float t = fl.of_int t.zoom

  -- A constant of the code.
  abbrev pub const : ℕ → fl.Float
  const n = fl.of_int (pos n)

  -- `x/n*360.0 - 180.0`, from the quotient.
  unfoldable pub longitude : fl.Float → fl.Float
  longitude ratio = fl.sub (fl.mul ratio (const 360)) (const 180)

  -- `math.Atan(math.Sinh(math.Pi*(1-2*y/n))) * (180 / math.Pi)`, from the quotient `2*y/n`.
  unfoldable pub latitude : fl.Float → fl.Float
  latitude ratio =
      fl.mul (fl.atan (fl.sinh (fl.mul fl.pi (fl.sub (const 1) ratio)))) fl.half_turn_by_pi

  -- The latitude and the longitude of the north-west corner.
  unfoldable pub get_corner : fl.Float → fl.Float → fl.Float → fl.Float × fl.Float
  get_corner x y zoom =
      let n = fl.pow (const 2) zoom in
      (latitude (fl.div (fl.mul (const 2) y) n), longitude (fl.div x n))

  -- The call gives the latitudes as the first and third argument.
  unfoldable pub bounds : Tile → Box fl.Float
  bounds t =
      let (nw_lat, nw_lon) = get_corner (x_float t) (y_float t) (zoom_float t) in
      let (se_lat, se_lon) =
        get_corner (fl.add (x_float t) (const 1)) (fl.add (y_float t) (const 1)) (zoom_float t) in
      record { min_x = nw_lat; min_y = nw_lon; max_x = se_lat; max_y = se_lon }

  -- `DeepIntersect` of a geometry.
  unfoldable pub deep_intersect_geometry : (Box fl.Float → Bool) → ℕ → Tile → Option (List Tile)
  deep_intersect_geometry intersects depth t = deep_intersect (λ t'. intersects (bounds t')) depth t
