-- ===== src/Tile/Descendants.antt =====
-- The tiles below a tile, as `DeepChildren` (tile/tile.go) means to list them, and how they are
-- counted.
use lod.Prelude.{
  ℕ, zero, suc, ◌+◌, ◌-◌, ◌*◌, ◌^◌, List, [], ◌∷◌, ◌++◌, ◌≡◌, refl, arith, All, Bool, true, false,
  ◌&&◌, if◌then◌else◌, length, length-append, map,
}
use lod.Prelude.Int.{ℤ, pos, pos_part, neg_part, ◌+ℤ◌, wrap, leb_ℤ, eqb_ℤ, IsInt, wrap_of_IsInt}
use native.Mathlib.Nat.{pow-suc}
use lod.Tile.{Tile, children, Job, send, spawn, spawned}

-- The levels from a tile down to the maximal zoom: 0 if there are none.
abbrev pub levels : ℤ → ℤ → ℕ
levels max_zoom zoom = pos_part max_zoom + neg_part zoom - (pos_part zoom + neg_part max_zoom)

-- Each tile of a list, with what is below it.
unfoldable pub each : (Tile → List Tile) → List Tile → List Tile
each f [] = []
each f (c ∷ cs) = c ∷ (f c ++ each f cs)

unfoldable pub below : ℕ → Tile → List Tile
below zero t = []
below (suc k) t = each (below k) (children t)

-- A tile and the tiles below it down to the maximal zoom.
unfoldable pub descendants : ℤ → Tile → List Tile
descendants max_zoom t = t ∷ below (levels max_zoom t.zoom) t

length-each_four :
    (f : Tile → List Tile) (n : ℕ) (t : Tile)
    → ((c : Tile) → 3 * length (f c) + 4 ≡ n)
    → 3 * length (each f (children t)) + 4 ≡ 4 * n
unfolding each children
length-each_four f n t h = omega (arith, length-append {0}, h)

-- Each level has four times the tiles of the level above: three times their number is four less
-- than a power of four.
pub length-below : (k : ℕ) (t : Tile) → 3 * length (below k t) + 4 ≡ 4 ^ suc k
unfolding below
length-below zero t = refl
length-below (suc k) t =
    omega (arith, length-each_four (below k) (4 ^ suc k) t (length-below k), pow-suc 4 (suc k))

-- How often a tile is listed.
abbrev pub same_tile : Tile → Tile → Bool
same_tile a b = eqb_ℤ a.x b.x && eqb_ℤ a.y b.y && eqb_ℤ a.zoom b.zoom

unfoldable pub count : Tile → List Tile → ℕ
count a [] = 0
count a (t ∷ ts) = (if same_tile a t then 1 else 0) + count a ts

pub count-append : (a : Tile) (xs ys : List Tile) → count a (xs ++ ys) ≡ count a xs + count a ys
unfolding count
count-append a [] ys = omega arith
count-append a (x ∷ xs) ys = omega (arith, count-append a xs ys)

-- The tiles that a goroutine and the ones that it will start are still to send.
unfoldable pub owed : ℤ → Job → List Tile
owed max_zoom (send t) = t ∷ below (levels max_zoom t.zoom) t
owed max_zoom (spawn t) = below (levels max_zoom t.zoom) t

unfoldable pub owed_all : ℤ → List Job → List Tile
owed_all max_zoom [] = []
owed_all max_zoom (j ∷ js) = owed max_zoom j ++ owed_all max_zoom js

pub count-owed_all :
    (a : Tile) (max_zoom : ℤ) (js ks : List Job)
    → count a (owed_all max_zoom (js ++ ks))
      ≡ count a (owed_all max_zoom js) + count a (owed_all max_zoom ks)
unfolding owed_all
count-owed_all a max_zoom [] ks = unfold count in omega arith
count-owed_all a max_zoom (j ∷ js) ks = omega (
  arith,
  count-append a (owed max_zoom j) (owed_all max_zoom (js ++ ks)),
  count-append a (owed max_zoom j) (owed_all max_zoom js),
  count-owed_all a max_zoom js ks,
)

pub length-owed_all :
    (max_zoom : ℤ) (js ks : List Job)
    → length (owed_all max_zoom (js ++ ks))
      ≡ length (owed_all max_zoom js) + length (owed_all max_zoom ks)
unfolding owed_all
length-owed_all max_zoom [] ks = omega arith
length-owed_all max_zoom (j ∷ js) ks = omega (
  arith,
  length-append (owed max_zoom j) (owed_all max_zoom (js ++ ks)),
  length-append (owed max_zoom j) (owed_all max_zoom js),
  length-owed_all max_zoom js ks,
)

-- What is owed, by count and by length, when a goroutine gives way to others.
pub count-owed_all_exchange :
    (a : Tile) (max_zoom : ℤ) (front back js : List Job) (j : Job)
    → count a (owed_all max_zoom (front ++ (js ++ back))) + count a (owed max_zoom j)
      ≡ count a (owed_all max_zoom (front ++ j ∷ back)) + count a (owed_all max_zoom js)
unfolding owed_all
count-owed_all_exchange a max_zoom front back js j = omega (
  arith,
  count-owed_all a max_zoom front (js ++ back),
  count-owed_all a max_zoom js back,
  count-owed_all a max_zoom front (j ∷ back),
  count-append a (owed max_zoom j) (owed_all max_zoom back),
)

pub length-owed_all_exchange :
    (max_zoom : ℤ) (front back js : List Job) (j : Job)
    → length (owed_all max_zoom (front ++ (js ++ back))) + length (owed max_zoom j)
      ≡ length (owed_all max_zoom (front ++ j ∷ back)) + length (owed_all max_zoom js)
unfolding owed_all
length-owed_all_exchange max_zoom front back js j = omega (
  arith,
  length-owed_all max_zoom front (js ++ back),
  length-owed_all max_zoom js back,
  length-owed_all max_zoom front (j ∷ back),
  length-append (owed max_zoom j) (owed_all max_zoom back),
)

-- Children one level down owe what is below their parent.
owed_all-map_send :
    (max_zoom : ℤ) (k : ℕ) (cs : List Tile)
    → All (λ c. levels max_zoom c.zoom ≡ k) cs
    → owed_all max_zoom (map send cs) ≡ each (below k) cs
unfolding owed_all owed each
owed_all-map_send max_zoom k [] h = refl
owed_all-map_send max_zoom k (c ∷ cs) h = rw (h.0, owed_all-map_send max_zoom k cs h.1)

child_level :
    (max_zoom zoom : ℤ) (k : ℕ)
    → IsInt max_zoom
    → IsInt zoom
    → levels max_zoom zoom ≡ suc k
    → levels max_zoom (wrap (zoom +ℤ pos 1)) ≡ k
unfolding ◌+ℤ◌
child_level max_zoom zoom k hm hz e = rw (wrap_of_IsInt (zoom +ℤ pos 1) in_range) (ground arith)
  where
    in_range : IsInt (zoom +ℤ pos 1)
    in_range = ground arith

All-four :
    (max_zoom : ℤ) (k : ℕ) (t : Tile)
    → levels max_zoom (wrap (t.zoom +ℤ pos 1)) ≡ k
    → All (λ c. levels max_zoom c.zoom ≡ k) (children t)
unfolding children
All-four max_zoom k t e = (e, (e, (e, (e, tt))))

owed_all-spawned_at :
    (max_zoom : ℤ) (t : Tile) (k : ℕ)
    → IsInt max_zoom
    → IsInt t.zoom
    → levels max_zoom t.zoom ≡ k
    → owed_all max_zoom (spawned max_zoom t) ≡ below k t
unfolding spawned below
owed_all-spawned_at max_zoom t zero hm hz e =
    let done : leb_ℤ max_zoom t.zoom ≡ true = ground arith in rw done (unfold owed_all in refl)
owed_all-spawned_at max_zoom t (suc k) hm hz e =
    let more : leb_ℤ max_zoom t.zoom ≡ false = ground arith in
    rw more (
      owed_all-map_send max_zoom k (children t)
        (All-four max_zoom k t (child_level max_zoom t.zoom k hm hz e)))

-- The goroutines that a call starts owe what is below its tile.
pub owed_all-spawned :
    (max_zoom : ℤ) (t : Tile)
    → IsInt max_zoom
    → IsInt t.zoom
    → owed_all max_zoom (spawned max_zoom t) ≡ below (levels max_zoom t.zoom) t
owed_all-spawned max_zoom t hm hz =
    owed_all-spawned_at max_zoom t (levels max_zoom t.zoom) hm hz refl
