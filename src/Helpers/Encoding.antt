-- ===== src/Helpers/Encoding.antt =====
-- The query of a tile's URL (`BuildTileUrl`, helpers/helpers.go) and the order in which Go goes over the
-- map of parameters.
use lod.Prelude.{
  List, [], ◌∷◌, true, false, map, All, ◌≡◌, ◌≢◌, refl, sym, ap, subst, ◌∙◌, arith, Result, some,
}
use lod.Prelude.Text.{Text}
use lod.Config.Params.{Distinct}
use lod.Helpers.Urls.{text_lt, insert_sorted, sort_keys, encode, url_of}
use lod.Config.{Proxy}
use lod.Tile.{Tile}
use lod.Helpers.{Request}
use mathlib.Core.List.{Permᴰ}

text_lt_asym : (s t : Text) → text_lt s t ≡ true → text_lt t s ≡ false
unfolding text_lt
text_lt_asym s [] h = absurd (cc)
text_lt_asym [] (d ∷ t) h = refl
text_lt_asym (c ∷ s) (d ∷ t) h = ground (arith, text_lt_asym s t)

text_lt_trans : (s t u : Text) → text_lt s t ≡ true → text_lt t u ≡ true → text_lt s u ≡ true
unfolding text_lt
text_lt_trans s [] u h k = absurd (cc)
text_lt_trans s (d ∷ t) [] h k = absurd (cc)
text_lt_trans [] (d ∷ t) (e ∷ u) h k = refl
text_lt_trans (c ∷ s) (d ∷ t) (e ∷ u) h k = ground (arith, text_lt_trans s t u)

text_lt_total : (s t : Text) → s ≢ t → text_lt s t ≡ false → text_lt t s ≡ true
unfolding text_lt
text_lt_total [] [] ne h = absurd (ne refl)
text_lt_total (c ∷ s) [] ne h = refl
text_lt_total [] (d ∷ t) ne h = absurd (cc)
text_lt_total (c ∷ s) (d ∷ t) ne h = ground (arith, text_lt_total s t)

-- Two entries with different keys may be put in place in either order.
insert_sorted_comm :
    (a b : Text × Text) (es : List (Text × Text))
    → a.0 ≢ b.0
    → insert_sorted a (insert_sorted b es) ≡ insert_sorted b (insert_sorted a es)
unfolding insert_sorted
insert_sorted_comm a b [] ne = ground (arith, text_lt_asym a.0 b.0, text_lt_total a.0 b.0 ne)
insert_sorted_comm a b (d ∷ es) ne = ground (
  arith,
  text_lt_asym a.0 b.0,
  text_lt_total a.0 b.0 ne,
  text_lt_trans a.0 b.0 d.0,
  text_lt_trans b.0 a.0 d.0,
  insert_sorted_comm a b es ne,
)

abbrev keys : List (Text × Text) → List Text
keys es = map (λ e. e.0) es

All-perm :
    (k : Text) {es fs : List (Text × Text)}
    → Permᴰ es fs
    → All (λ t. k ≢ t) (keys es)
    → All (λ t. k ≢ t) (keys fs)
All-perm k Permᴰ.nil h = tt
All-perm k (Permᴰ.cons e p) h = (λ q. h.0 (q ∙ ap (λ x. x.0) (sym e)), All-perm k p h.1)
All-perm k (Permᴰ.swap e f) h =
    (λ q. h.1.0 (q ∙ ap (λ x. x.0) (sym f)), (λ q. h.0 (q ∙ ap (λ x. x.0) (sym e)), h.1.1))
All-perm k (Permᴰ.trans p q) h = All-perm k q (All-perm k p h)

Distinct-perm : {es fs : List (Text × Text)} → Permᴰ es fs → Distinct (keys es) → Distinct (keys fs)
Distinct-perm Permᴰ.nil h = tt
Distinct-perm (Permᴰ.cons {l₂ = l₂} e p) h = (
  subst (λ k. All (λ t. k ≢ t) (keys l₂)) (ap (λ x. x.0) e) (All-perm _ p h.0),
  Distinct-perm p h.1,
)
Distinct-perm (Permᴰ.swap {l = l} e f) h = (
  (
    λ q. h.0.0 (ap (λ x. x.0) e ∙ (sym q ∙ ap (λ x. x.0) (sym f))),
    subst (λ k. All (λ t. k ≢ t) (keys l)) (ap (λ x. x.0) f) h.1.0,
  ),
  (subst (λ k. All (λ t. k ≢ t) (keys l)) (ap (λ x. x.0) e) h.0.1, h.1.1),
)
Distinct-perm (Permᴰ.trans p q) h = Distinct-perm q (Distinct-perm p h)

sort_keys-perm :
    {es fs : List (Text × Text)} → Permᴰ es fs → Distinct (keys es) → sort_keys es ≡ sort_keys fs
unfolding sort_keys
sort_keys-perm Permᴰ.nil h = refl
sort_keys-perm (Permᴰ.cons e p) h = rw (e, sort_keys-perm p h.1) refl
sort_keys-perm (Permᴰ.swap {a = a} {b = b} {l = l} e f) h =
    rw (← e, ← f) (insert_sorted_comm a b (sort_keys l) h.0.0)
sort_keys-perm (Permᴰ.trans p q) h = sort_keys-perm p h ∙ sort_keys-perm q (Distinct-perm p h)

-- In whatever order Go goes over the map of a request's parameters, which has each name once, the URL
-- that `BuildTileUrl` makes of a tile, or its error, is the same.
pub url_of-perm :
    {Opts E : Type 0} (with_query : Text → Text → Result E Text) (proxy : Proxy Opts)
    (ctx : Request E) (t : Tile) (es fs : List (Text × Text))
    → Distinct (map (λ e. e.0) es)
    → Permᴰ es fs
    → url_of with_query proxy (record ctx { local_params = some es }) t
      ≡ url_of with_query proxy (record ctx { local_params = some fs }) t
unfolding url_of encode
url_of-perm with_query proxy ctx t es fs distinct order = rw (sort_keys-perm order distinct) refl
