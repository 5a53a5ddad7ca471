-- ===== src/Tile/Bounds/Runs.antt =====
-- The theorem on the boxes of tiles (tile/tile.go) at a concrete input, with numbers that are multiples of
-- 1/1024 in place of floats.
use lod.Prelude.{ℕ, suc, ◌+◌, ◌-◌, ◌*◌, ◌/◌, ◌^◌, ◌≡◌, refl, arith}
use lod.Prelude.Int.{pos_part}
use native.Mathlib.Nat.{mul-div-mul_left, pow-suc}
use lod.Tile.Children.{tile_at}
use lod.Tile.Bounds.{Floats, bounds}
use lod.Tile.Bounds.Corners.{FloatsLaws, bounds_meet}

abbrev fixed : Floats
fixed = record {
  Float = ℕ;
  of_int = λ n. pos_part n;
  add = λ a b. a + b;
  sub = λ a b. a - b;
  mul = λ a b. a * b;
  div = λ a b. a * 1024 / b;
  pow = λ a b. a ^ b;
  atan = λ a. a;
  sinh = λ a. a;
  pi = 3;
  half_turn_by_pi = 60;
}

fixed-Laws : FloatsLaws fixed
fixed-Laws = record {
  add_one = λ n h. refl;
  mul_two = λ n h. refl;
  halved = λ n zoom h k. half n zoom;
}
  where
    half : (n zoom : ℕ) → 2 * n * 1024 / 2 ^ (zoom + 1) ≡ n * 1024 / 2 ^ zoom
    half n zoom =
        let top : 2 * n * 1024 ≡ 2 * (n * 1024) = omega arith in
        let level : zoom + 1 ≡ suc zoom = omega arith in
        let bottom : 2 ^ (zoom + 1) ≡ 2 * 2 ^ zoom = rw level (omega (arith, pow-suc 2 zoom)) in
        rw (top, bottom) (mul-div-mul_left (n * 1024) (2 ^ zoom) (omega arith))

bounds_meet_example :
    let box = bounds fixed (tile_at 1 2 3) in
    let first = bounds fixed (tile_at 2 4 4) in
    let fourth = bounds fixed (tile_at 3 5 4) in
    (box.max_y ≡ (bounds fixed (tile_at 2 2 3)).min_y)
    × (box.max_x ≡ (bounds fixed (tile_at 1 3 3)).min_x)
    × (first.min_x ≡ box.min_x)
    × (first.min_y ≡ box.min_y)
    × (fourth.max_x ≡ box.max_x)
    × (fourth.max_y ≡ box.max_y)
bounds_meet_example = bounds_meet fixed-Laws 1 2 3 (omega arith) (omega arith) (omega arith)
