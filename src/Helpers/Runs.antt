-- ===== src/Helpers/Runs.antt =====
-- Concrete requests, and the theorems on cache keys, parameters and URLs at concrete inputs.
use lod.Prelude.{
  List, [], ◌∷◌, ◌++◌, Result, ◌≡◌, refl, true, false, ok, Option, none, some, if◌then◌else◌,
}
use lod.Prelude.Int.{pos}
use lod.Prelude.Text.{Text, codes, text_eq, ne_of_text_eq}
use lod.Prelude.Strings.{
  contains, has_prefix, replace_from, replace_all, digits_loop, decimal, itoa,
}
use lod.Config.{Param, Proxy}
use lod.Tile
use lod.Tile.{Tile, inject_string}
use lod.Helpers.{Request, substitute, key_of, build_cache_key}
use lod.Helpers.Urls.{
  text_lt, insert_sorted, sort_keys, is_unreserved, query_escape, join_pairs, encode, url_of,
}
use lod.Helpers.Encoding.{url_of-perm}
use mathlib.Core.List.{Permᴰ}

abbrev level : Param
level = record { name = codes "level"; default = [] }

abbrev style : Param
style = record { name = codes "style"; default = codes "dark" }

abbrev proxy : Text → Proxy Text
proxy template = record {
  name = codes "osm";
  tile_url = codes "https://t/{z}/{x}/{y}.pbf";
  has_endpoint_param = false;
  cors_origins = [];
  pull_headers = none;
  delete_headers = [];
  add_headers = [];
  access_token = [];
  num_workers = pos 8;
  params = level ∷ style ∷ [];
  cache = record {
    mem_enabled = true;
    mem_cap = pos 1000;
    mem_ttl = codes "1h";
    mem_ttl_duration = pos 3600;
    redis_enabled = false;
    redis_ttl = [];
    redis_ttl_duration = pos 0;
    redis_url = [];
    redis_tls = false;
    redis_opts = none;
    key_template = template;
  };
}

abbrev plain : Proxy Text
plain = proxy (codes "{z}/{x}/{y}")

-- The request for /osm/3/1/2.
abbrev request : Option (List (Text × Text)) → Request Text
request found = record {
  params_int = λ name.
      if text_eq name (codes "z")
      then ok (pos 3)
      else if text_eq name (codes "x")
      then ok (pos 1)
      else ok (pos 2);
  params = λ name. [];
  query = λ name default. default;
  local_params = found;
}

texts : Unit {0}
unfolding text_eq has_prefix contains replace_from replace_all digits_loop decimal itoa
    inject_string Tile.get key_of build_cache_key substitute
texts = tt

key_run :
    build_cache_key
      (proxy (codes "{style}/{z}/{x}/{y}"))
      (request (some ((codes "style", codes "dark") ∷ [])))
      []
    ≡ ok (codes "dark/3/1/2")
unfolding texts
key_run = refl

-- A value that holds the token of another parameter is replaced or not, by the order of the map.
order_run :
    key_of
      (proxy (codes "{style}/{z}/{x}/{y}"))
      (request (some ((codes "style", codes "{level}") ∷ (codes "level", codes "7") ∷ [])))
      (record { x = pos 1; y = pos 2; zoom = pos 3 })
    ≡ codes "7/3/1/2"
unfolding texts
order_run = refl

other_order_run :
    key_of
      (proxy (codes "{style}/{z}/{x}/{y}"))
      (request (some ((codes "level", codes "7") ∷ (codes "style", codes "{level}") ∷ [])))
      (record { x = pos 1; y = pos 2; zoom = pos 3 })
    ≡ codes "{level}/3/1/2"
unfolding texts
other_order_run = refl

abbrev here : Tile
here = record { x = pos 1; y = pos 2; zoom = pos 3 }

abbrev answers : List (Text × Text)
answers = (codes "level", codes "3") ∷ (codes "style", codes "dark") ∷ []

abbrev swapped : List (Text × Text)
swapped = (codes "style", codes "dark") ∷ (codes "level", codes "3") ∷ []

abbrev with_query : Text → Text → Result Text Text
with_query url query = ok (url ++ b'?' ∷ query)

-- The parameters are sorted by their names.
encode_run : encode swapped ≡ codes "level=3&style=dark"
unfolding encode sort_keys insert_sorted text_lt join_pairs query_escape is_unreserved
encode_run = refl

url_of-perm_example :
    url_of with_query plain
      (record (request none) { local_params = some answers })
      (record { x = pos 1; y = pos 2; zoom = pos 3 })
    ≡ url_of with_query plain
        (record (request none) { local_params = some swapped })
        (record { x = pos 1; y = pos 2; zoom = pos 3 })
url_of-perm_example =
    url_of-perm with_query plain (request none) (record { x = pos 1; y = pos 2; zoom = pos 3 })
      answers swapped
      ((ne_of_text_eq (codes "level") (codes "style") (unfold text_eq in refl), tt), (tt, tt))
      (Permᴰ.swap refl refl)
