-- ===== src/Tile.antt =====
-- tile/tile.go: tiles by zoom level, their children, and the walks over all descendants.
--
-- An `int` is an integer, and the arithmetic on it wraps at 64 bits. The corner and bounds
-- computations are floating-point and are left out; the geometry test of `DeepIntersect`, which
-- calls the GEOS library, is the parameter `intersects`.
pub mod Children
pub mod Keys
pub mod Descendants
pub mod Collector
pub mod Termination
pub mod Bounds
mod Runs
use lod.Prelude.{
  ℕ, zero, suc, ◌+◌, ◌-◌, ◌*◌, List, [], ◌∷◌, ◌++◌, Bool, true, false, if◌then◌else◌, Result, ok,
  err, panic, ◌>>=◌, Option, none, some, map, ◌≡◌, not,
}
use mathlib.Core.Option
use lod.Prelude.Int.{ℤ, pos, ◌+ℤ◌, wrap, leb_ℤ, eqb_ℤ}
use lod.Prelude.Text.{Text, codes}
use lod.Prelude.Strings.{replace_all, itoa}

pub record Tile : Type 0 where
  pub x : ℤ
  pub y : ℤ
  pub zoom : ℤ

-- `ctx.ParamsInt`, of the fiber library, at the current request, and the tile of its URL.
unfoldable pub get {ℓ} : {E : Type ℓ} → (Text → Result E ℤ) → Result E Tile
get params_int = do
  x ← params_int (codes "x")
  y ← params_int (codes "y")
  zoom ← params_int (codes "z")
  ok (record { x = x; y = y; zoom = zoom })

-- `fmt.Sprintf("(Z:%d,X:%d,Y:%d)", …)`
unfoldable pub to_string : Tile → Text
to_string t =
    codes "(Z:"
    ++ (itoa t.zoom ++ (codes ",X:" ++ (itoa t.x ++ (codes ",Y:" ++ (itoa t.y ++ codes ")")))))

unfoldable pub inject_string : Tile → Text → Text
inject_string t base =
    let base' = replace_all base (codes "{x}") (itoa t.x) in
    let base'' = replace_all base' (codes "{y}") (itoa t.y) in
    replace_all base'' (codes "{z}") (itoa t.zoom)

-- `2 * n` and `(2 * n) + 1` on an `int`
unfoldable pub double : ℤ → ℤ
double n = wrap (n +ℤ n)

unfoldable pub double_succ : ℤ → ℤ
double_succ n = wrap (double n +ℤ pos 1)

unfoldable pub children : Tile → List Tile
children t =
    record { x = double t.x; y = double t.y; zoom = wrap (t.zoom +ℤ pos 1) }
    ∷ record { x = double_succ t.x; y = double t.y; zoom = wrap (t.zoom +ℤ pos 1) }
    ∷ record { x = double t.x; y = double_succ t.y; zoom = wrap (t.zoom +ℤ pos 1) }
    ∷ record { x = double_succ t.x; y = double_succ t.y; zoom = wrap (t.zoom +ℤ pos 1) }
    ∷ []

-- A goroutine of `deepChildrenImpl`, by what it does next: send its tile, or spawn the children.
-- A goroutine that has returned is gone from the pool, and has called `wg.Done`.
pub data Job : Type 0 where
  send : Tile → Job
  spawn : Tile → Job

-- What `DeepChildren` shares between its goroutines: those that have not returned (their number is
-- the wait group's counter), the tile that the collecting goroutine has received and not yet
-- appended, and the slice of results.
pub record Pool : Type 0 where
  pub jobs : List Job
  pub hand : Option Tile
  pub tiles : List Tile

unfoldable pub start : Tile → Pool
start t = record { jobs = send t ∷ []; hand = none; tiles = [] }

-- The goroutines that `deepChildrenImpl` starts behind its send.
unfoldable pub spawned : ℤ → Tile → List Job
spawned max_zoom t = if leb_ℤ max_zoom t.zoom then [] else map send (children t)

-- One step of any of the goroutines. The channel has no buffer: a send meets the receive.
pub data Step (max_zoom : ℤ) (p q : Pool) : Type 0 where
  sent :
      (front back : List Job) (t : Tile)
      → p.jobs ≡ front ++ send t ∷ back
      → p.hand ≡ none
      → q ≡ record p { jobs = front ++ spawn t ∷ back; hand = some t }
      → Step max_zoom p q
  appended :
      (t : Tile)
      → p.hand ≡ some t
      → q ≡ record p { hand = none; tiles = p.tiles ++ t ∷ [] }
      → Step max_zoom p q
  returned :
      (front back : List Job) (t : Tile)
      → p.jobs ≡ front ++ spawn t ∷ back
      → q ≡ record p { jobs = front ++ (spawned max_zoom t ++ back) }
      → Step max_zoom p q

pub data Run (max_zoom : ℤ) : Pool → Pool → Type 0 where
  here : {p : Pool} → Run max_zoom p p
  next : {p q r : Pool} → Step max_zoom p q → Run max_zoom q r → Run max_zoom p r

-- `DeepChildren` returns `found`: the wait group's counter is 0, and the slice is read then.
pub record Returns (max_zoom : ℤ) (t : Tile) (found : List Tile) : Type 0 where
  pub final : Pool
  pub run : Run max_zoom (start t) final
  pub idle : final.jobs ≡ []
  pub result : found ≡ final.tiles

-- The results of the calls for the four children, if each returns.
unfoldable pub collect {ℓ κ} :
    {A : Type ℓ} {B : Type κ} → (A → Option (List B)) → List A → Option (List B)
collect f [] = some []
collect f (c ∷ cs) = elim (f c) [
  | none ↦ none
  | some found ↦ Option.map (λ more. found ++ more) (collect f cs)
]

-- `DeepIntersect`: the tiles that it emits, in the order of a depth-first run. The fuel bounds the
-- depth of the calls, and `none` is a run that goes deeper.
unfoldable pub deep_intersect : (Tile → Bool) → ℕ → Tile → Option (List Tile)
deep_intersect intersects zero t = none
deep_intersect intersects (suc depth) t =
    let below = collect (deep_intersect intersects depth) (children t) in
    if not (intersects t)
    then some []
    else if eqb_ℤ t.zoom (pos 16)
    then some (t ∷ [])
    else Option.map (λ found. t ∷ found) below
