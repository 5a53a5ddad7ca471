-- ===== src/Helpers.antt =====
-- helpers/helpers.go: the key of a tile in the cache, and the parameters of a request.
--
-- A request is what the code reads of fiber's context: the parts of the path, the query and the local
-- map of parameters. `substitute` goes over that map in the order of the iteration.
pub mod Keys
pub mod Params
pub mod Upstream
pub mod Responses
pub mod Urls
pub mod Encoding
mod Runs
use lod.Prelude.{
  List, [], ◌∷◌, ◌++◌, Bool, true, false, not, ◌&&◌, if◌then◌else◌, Result, ok, err, panic, ◌>>=◌,
  Option, none, some,
}
use lod.Prelude.Int.{ℤ}
use lod.Prelude.Text.{Text, codes, text_eq}
use lod.Prelude.Dict.{insert}
use lod.Prelude.Strings.{contains, replace_all}
use lod.Config.{Param, Proxy}
use lod.Tile
use lod.Tile.{Tile, inject_string}

pub record Request (E : Type 0) : Type 0 where
  pub params_int : Text → Result E ℤ
  pub params : Text → Text
  pub query : Text → Text → Text
  pub local_params : Option (List (Text × Text))

-- The loop of `FillParamsMap`.
unfoldable pub fill_from :
    (Text → Text → Text) → List Param → List (Text × Text) → List (Text × Text)
fill_from query [] params_map = params_map
fill_from query (param ∷ params) params_map =
    let val = query param.name param.default in
    let params_map' =
      if not (text_eq val []) then insert param.name val params_map else params_map in
    fill_from query params params_map'

-- `if len(paramsMap) > 0 { ctx.Locals(…) }`
abbrev pub local_of : List (Text × Text) → Option (List (Text × Text)) → Option (List (Text × Text))
local_of [] old = old
local_of (entry ∷ rest) old = some (entry ∷ rest)

-- The loop of `BuildCacheKey` over the parameters.
unfoldable pub substitute : Text → List (Text × Text) → Text
substitute key [] = key
substitute key ((param, val) ∷ params) =
    substitute (replace_all key (codes "{" ++ (param ++ codes "}")) val) params

-- The tile: the first override, or that of the request's path.
abbrev pub current_tile : {E : Type 0} → Request E → List Tile → Result E Tile
current_tile ctx [] = Tile.get ctx.params_int
current_tile ctx (tile ∷ rest) = ok tile

module _ {Opts : Type 0} {E : Type 0} where
  unfoldable pub fill_params_map : Proxy Opts → Request E → Request E
  fill_params_map proxy ctx = record ctx {
    local_params = local_of (fill_from ctx.query proxy.params []) ctx.local_params;
  }

  -- `BuildCacheKey` behind the tile.
  unfoldable pub key_of : Proxy Opts → Request E → Tile → Text
  key_of proxy ctx tile =
      let key = inject_string tile proxy.cache.key_template in
      let key' =
        if proxy.has_endpoint_param && contains key (codes "{e}")
        then replace_all key (codes "{e}") (ctx.params (codes "e"))
        else key in
      elim ctx.local_params [ none ↦ key' | some params ↦ substitute key' params ]

  unfoldable pub build_cache_key : Proxy Opts → Request E → List Tile → Result E Text
  build_cache_key proxy ctx tile_override = do
    tile ← current_tile ctx tile_override
    ok (key_of proxy ctx tile)
