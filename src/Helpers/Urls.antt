-- ===== src/Helpers/Urls.antt =====
-- helpers/helpers.go: `BuildTileUrl`, with `url.Values.Encode` of net/url.
--
-- `url.Values` holds one value for each parameter here. `Encode` sorts by the key and escapes; the
-- parsing of the URL, and its printing with another query, is the parameter `with_query`.
use lod.Prelude.{
  ℕ, ◌+◌, ◌-◌, ◌/◌, ◌%◌, List, [], ◌∷◌, ◌++◌, Bool, true, false, ◌&&◌, ◌||◌, ltb, leb, ◌==◌,
  if◌then◌else◌, Result, ok, ◌>>=◌, none, some,
}
use lod.Prelude.Text.{Text, codes}
use lod.Prelude.Strings.{replace_all}
use lod.Config.{Proxy}
use lod.Tile.{Tile, inject_string}
use lod.Helpers.{Request, current_tile}

-- The order of texts by their bytes.
unfoldable pub text_lt : Text → Text → Bool
text_lt s [] = false
text_lt [] (d ∷ t) = true
text_lt (c ∷ s) (d ∷ t) = ltb c d || (c == d && text_lt s t)

unfoldable pub insert_sorted : Text × Text → List (Text × Text) → List (Text × Text)
insert_sorted e [] = e ∷ []
insert_sorted e (d ∷ es) = if text_lt e.0 d.0 then e ∷ d ∷ es else d ∷ insert_sorted e es

unfoldable pub sort_keys : List (Text × Text) → List (Text × Text)
sort_keys [] = []
sort_keys (e ∷ es) = insert_sorted e (sort_keys es)

-- A hexadecimal digit, in upper case.
abbrev pub hex_digit : ℕ → ℕ
hex_digit n = if ltb n 10 then b'0' + n else b'A' + n - 10

unfoldable pub is_unreserved : ℕ → Bool
is_unreserved c =
    leb b'a' c && leb c b'z'
    || leb b'A' c && leb c b'Z'
    || leb b'0' c && leb c b'9'
    || c == b'-'
    || c == b'_'
    || c == b'.'
    || c == b'~'

-- `url.QueryEscape`
unfoldable pub query_escape : Text → Text
query_escape [] = []
query_escape (c ∷ s) =
    let head =
      if is_unreserved c
      then c ∷ []
      else if c == 32
      then b'+' ∷ []
      else b'%' ∷ hex_digit (c / 16) ∷ hex_digit (c % 16) ∷ [] in
    head ++ query_escape s

abbrev pub pair : Text × Text → Text
pair e = query_escape e.0 ++ b'=' ∷ query_escape e.1

unfoldable pub join_pairs : List (Text × Text) → Text
join_pairs [] = []
join_pairs (e ∷ []) = pair e
join_pairs (e ∷ d ∷ es) = pair e ++ b'&' ∷ join_pairs (d ∷ es)

-- `params.Encode()`
unfoldable pub encode : List (Text × Text) → Text
encode params = join_pairs (sort_keys params)

module _ {Opts E : Type 0} (with_query : Text → Text → Result E Text) where
  -- `BuildTileUrl` behind the tile.
  unfoldable pub url_of : Proxy Opts → Request E → Tile → Result E Text
  url_of proxy ctx tile =
      let base_url = inject_string tile proxy.tile_url in
      let base_url' =
        if proxy.has_endpoint_param
        then replace_all base_url (codes "{e}") (ctx.params (codes "e"))
        else base_url in
      elim ctx.local_params [
        | none ↦ ok base_url'
        | some params_map ↦ with_query base_url' (encode params_map)
      ]

  unfoldable pub build_tile_url : Proxy Opts → Request E → List Tile → Result E Text
  build_tile_url proxy ctx tile_override = do
    tile ← current_tile ctx tile_override
    url_of proxy ctx tile
