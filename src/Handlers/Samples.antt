-- ===== src/Handlers/Samples.antt =====
-- A response whose headers are a list, a tile server that has one tile, and a request, for the runs of
-- the handlers.
use lod.Prelude.{ℕ, List, [], ◌∷◌, ◌++◌, true, false, Result, ok, err, none, some, if◌then◌else◌}
use lod.Prelude.Int.{pos}
use lod.Prelude.Text.{Text, codes, text_eq}
use lod.Prelude.Dict.{insert, erase}
use lod.Config.{Proxy}
use lod.Cache.{Cache}
use lod.Cache.Samples.{dictionaries, proxy}
use lod.Web.{Fiber, Reply}
use lod.Helpers.{Request}
use lod.Helpers.Upstream.{Agent, ProxyResponse}

abbrev pub plain_fiber : Fiber
plain_fiber = record {
  Headers = List (Text × Text);
  set_header = λ key val headers. insert key val headers;
  del_header = λ key headers. erase key headers;
  write_error = λ bytes. none;
  marshal = λ json. [];
}

abbrev pub blank : Reply plain_fiber
blank = record { status = 200; body = []; headers = [] }

abbrev pub tile : List ℕ
tile = 26 ∷ 200 ∷ 0 ∷ []

abbrev pub answer : ProxyResponse
answer = record { code = 200; body = tile; resp = λ header. codes "image/png" }

-- The server has the tile 3/1/2.
abbrev pub server : Agent
server = record {
  parses = λ url headers. true;
  bytes = λ url headers.
      if text_eq url (codes "https://t/3/1/2.pbf") then ok answer else err (codes "timeout");
  blank = λ header. codes "text/plain";
}

abbrev pub typed : Proxy (Unit {0})
typed = record (proxy true false) { pull_headers = some (codes "Content-Type" ∷ []) }

abbrev pub with_query : Text → Text → Result Text Text
with_query url query = ok (url ++ b'?' ∷ query)

-- The request for /osm/3/1/2.
abbrev pub request : Request Text
request = record {
  params_int = λ name.
      if text_eq name (codes "z")
      then ok (pos 3)
      else if text_eq name (codes "x")
      then ok (pos 1)
      else ok (pos 2);
  params = λ name. [];
  query = λ name default. default;
  local_params = none;
}

abbrev pub cold : Cache (Unit {0}) dictionaries
cold = record { proxy = typed; internal = []; external = []; hits = 0; misses = 0; background = [] }
