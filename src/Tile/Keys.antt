-- ===== src/Tile/Keys.antt =====
-- `InjectString` (tile/tile.go) on the default cache key template of config/config.go.
use lod.Prelude.{[], ◌∷◌, ◌++◌, ◌≡◌, ◌≢◌, refl, sym, ◌∙◌, arith, All, All-append}
use lod.Prelude.Int.{ℤ}
use lod.Prelude.Text.{Text, codes}
use lod.Prelude.Strings.{replace_all, itoa, replace_from, has_prefix}
use lod.Prelude.Strings.Replace.{
  replace_all-append_plain, replace_all-append_token, replace_all-plain,
}
use lod.Prelude.Strings.Decimal.{IsNumeral, itoa-IsNumeral, itoa-injective, cut_at}
use mathlib.Core.List.{append-nil}
use lod.Tile.{Tile, inject_string}

-- The template "{z}/{x}/{y}".
abbrev pub default_template : Text
default_template = codes "{z}/{x}/{y}"

not_brace : (s : Text) → All IsNumeral s → All (λ c. c ≢ b'{') s
not_brace [] h = tt
not_brace (c ∷ s) h = (omega arith, not_brace s h.1)

not_slash : (s : Text) → All IsNumeral s → All (λ c. c ≢ b'/') s
not_slash [] h = tt
not_slash (c ∷ s) h = (h.0.2, not_slash s h.1)

-- What each replacement does in front of, and behind, the numbers that are in place already.
x_in_place :
    (x : Text) → replace_all default_template (codes "{x}") x ≡ codes "{z}/" ++ (x ++ codes "/{y}")
unfolding replace_all replace_from has_prefix
x_in_place x = refl

past_z :
    (s y : Text)
    → replace_all (codes "{z}/" ++ s) (codes "{y}") y
      ≡ codes "{z}/" ++ replace_all s (codes "{y}") y
unfolding replace_all replace_from has_prefix
past_z s y = refl

y_in_place : (y : Text) → replace_all (codes "/{y}") (codes "{y}") y ≡ b'/' ∷ (y ++ [])
unfolding replace_all replace_from has_prefix
y_in_place y = refl

-- The key of a tile under the default template.
pub inject_string-default_template :
    (t : Tile)
    → inject_string t default_template ≡ itoa t.zoom ++ b'/' ∷ (itoa t.x ++ b'/' ∷ itoa t.y)
unfolding inject_string
inject_string-default_template t = rw (
  x_in_place (itoa t.x),
  past_z (itoa t.x ++ codes "/{y}") (itoa t.y),
  replace_all-append_plain (itoa t.x) (codes "/{y}") b'{' (codes "y}") (itoa t.y) (plain t.x),
  y_in_place (itoa t.y),
  append-nil (itoa t.y),
  replace_all-append_token b'{' (codes "z}") (b'/' ∷ (itoa t.x ++ b'/' ∷ itoa t.y)) (itoa t.zoom),
  replace_all-plain (b'/' ∷ (itoa t.x ++ b'/' ∷ itoa t.y)) b'{' (codes "z}") (itoa t.zoom) no_brace,
)
  where
    plain : (z : ℤ) → All (λ c. c ≢ b'{') (itoa z)
    plain z = not_brace (itoa z) (itoa-IsNumeral z)

    no_brace : All (λ c. c ≢ b'{') (b'/' ∷ (itoa t.x ++ b'/' ∷ itoa t.y))
    no_brace = (
      omega arith,
      All-append (λ c. c ≢ b'{') (itoa t.x) (b'/' ∷ itoa t.y) (plain t.x) (omega arith, plain t.y),
    )

-- Two tiles that the default template "{z}/{x}/{y}" gives one key are one tile.
pub inject_string-injective :
    (s t : Tile) → inject_string s default_template ≡ inject_string t default_template → s ≡ t
inject_string-injective s t e =
    let e' : itoa s.zoom ++ b'/' ∷ (itoa s.x ++ b'/' ∷ itoa s.y)
        ≡ itoa t.zoom ++ b'/' ∷ (itoa t.x ++ b'/' ∷ itoa t.y) =
      sym (inject_string-default_template s) ∙ e ∙ inject_string-default_template t in
    let (zooms, rest) =
      cut_at b'/' (itoa s.zoom) (itoa t.zoom) _ _ (plain s.zoom) (plain t.zoom) e' in
    let (xs, ys) = cut_at b'/' (itoa s.x) (itoa t.x) _ _ (plain s.x) (plain t.x) rest in
    λ i. record {
      x = itoa-injective s.x t.x xs i;
      y = itoa-injective s.y t.y ys i;
      zoom = itoa-injective s.zoom t.zoom zooms i;
    }
  where
    plain : (z : ℤ) → All (λ c. c ≢ b'/') (itoa z)
    plain z = not_slash (itoa z) (itoa-IsNumeral z)
