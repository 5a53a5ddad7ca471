-- ===== src/Helpers/Keys.antt =====
-- When two requests have different keys (helpers/helpers.go: `BuildCacheKey`).
use lod.Prelude.{List, false, ok, >>=-eq-ok, none, ◌≡◌, refl, sym, ◌∙◌}
use lod.Prelude.Text.{Text}
use lod.Config.{Proxy}
use lod.Tile.{Tile, inject_string}
use lod.Tile.Keys.{default_template, inject_string-injective}
use lod.Helpers.{Request, current_tile, key_of, build_cache_key}

module _ {Opts E : Type 0} (proxy : Proxy Opts) where
  key_of_plain :
      (ctx : Request E) (t : Tile)
      → proxy.cache.key_template ≡ default_template
      → proxy.has_endpoint_param ≡ false
      → ctx.local_params ≡ none
      → key_of proxy ctx t ≡ inject_string t default_template
  unfolding key_of
  key_of_plain ctx t template fixed empty = rw (template, fixed, empty) refl

  -- For a proxy with the default key template and no endpoint parameter, two requests without
  -- parameters that get one cache key are for one tile.
  pub build_cache_key-injective :
      (c d : Request E) (s t : List Tile) (key : Text)
      → proxy.cache.key_template ≡ default_template
      → proxy.has_endpoint_param ≡ false
      → c.local_params ≡ none
      → d.local_params ≡ none
      → build_cache_key proxy c s ≡ ok key
      → build_cache_key proxy d t ≡ ok key
      → (tile : Tile) × (current_tile c s ≡ ok tile) × (current_tile d t ≡ ok tile)
  unfolding build_cache_key
  build_cache_key-injective c d s t key template fixed c_empty d_empty hc hd =
      let (a, ha, ka) = >>=-eq-ok (current_tile c s) (λ tile. ok (key_of proxy c tile)) hc in
      let (b, hb, kb) = >>=-eq-ok (current_tile d t) (λ tile. ok (key_of proxy d tile)) hd in
      let same : key_of proxy c a ≡ key_of proxy d b = cc in
      let equal : a ≡ b = inject_string-injective a b (
        sym (key_of_plain c a template fixed c_empty)
        ∙ same
        ∙ key_of_plain d b template fixed d_empty) in
      (a, ha, rw equal hb)
