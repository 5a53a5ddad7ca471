-- ===== src/Handlers/Proxy/Hits.antt =====
-- A request that misses and one that hits (www/handlers/proxy/proxy.go): what the client gets, and what
-- the cache holds then.
use lod.Prelude.{
  ℕ, ◌+◌, ◌==◌, List, [], ◌∷◌, ◌++◌, true, false, if◌then◌else◌, length, Bool-cases, inl, inr,
  Result, ok, Option, none, some, ◌≡◌, refl, ◌∙◌, ap, arith,
}
use lod.Prelude.Text.{Text, codes}
use lod.Packet
use lod.Packet.{Headers, tile_data, headers}
use lod.Packet.Accessors.{headers-encode}
use lod.Packet.RoundTrip.{IsEncodable, tile_data-encode_whole}
use lod.Config.{Proxy}
use lod.Config.Messages.{do_delete_headers, do_pull_headers}
use lod.Cache.Backends.{Stores, StoresLaws, entry, not_found}
use lod.Cache.{
  Cache, set_both, set, miss, fetch, mem_answer, fetch_external, run_task, run_tasks,
  run_background,
}
use lod.Cache.Fetching.{fetch_internal_hit}
use lod.Web.{Fiber, Reply}
use lod.Helpers.{Request}
use lod.Helpers.Responses.{IsSuccess, is_tile_iff}
use lod.Helpers.Upstream.{
  Agent, ProxyResponse, fetch_upstream, is_tile, write_data, cache_later, after_write,
  process_response,
}
use lod.Handlers.Proxy.{
  Flight, leads, set_headers, after_body, return_cached_tile, after_process, after_flight,
  after_fetch, after_named, handle,
}
use lod.Handlers.Proxy.Transparent.{named}

-- The headers that are stored with a tile.
abbrev pub pulled : {Opts : Type 0} → Agent → Proxy Opts → Headers
pulled agent p = do_pull_headers p agent.blank []

abbrev pub packet : {Opts : Type 0} → (List ℕ → List ℕ) → Agent → Proxy Opts → List ℕ → List ℕ
packet sum256 agent p body = Packet.encode sum256 body (pulled agent p)

-- The request has the URL and the key, the reply is empty as yet, and a `Write` of fiber never fails.
pub record IsServed {Opts : Type 0} {f : Fiber} (with_query : Text → Text → Result Text Text)
    (p : Proxy Opts) (ctx : Request Text) (blank : Reply f) (tile_url key : Text) : Type 0 where
  pub name : named with_query p ctx ≡ ok (tile_url, key)
  pub empty : blank.body ≡ []
  pub writes : (bytes : List ℕ) → f.write_error bytes ≡ none

-- The server answers with a tile that a packet can hold.
pub record IsAnswer {Opts : Type 0} (agent : Agent) (p : Proxy Opts) (tile_url : Text)
    (answer : ProxyResponse) : Type 0 where
  pub parses : agent.parses tile_url p.add_headers ≡ true
  pub bytes : agent.bytes tile_url p.add_headers ≡ ok answer
  pub tile : IsSuccess answer
  pub encodable : IsEncodable answer.body (pulled agent p)

module _ {Opts : Type 0} {s : Stores} {f : Fiber} (sum256 : List ℕ → List ℕ)
    (sized : (b : List ℕ) → length (sum256 b) ≡ 32) (agent : Agent)
    (with_query : Text → Text → Result Text Text) (p : Proxy Opts) (ctx : Request Text)
    (blank : Reply f) (tile_url key : Text)
    (served : IsServed with_query p ctx blank tile_url key) where
  handle-named :
      (flight : Flight) (c : Cache Opts s)
      → handle sum256 agent with_query p ctx flight blank c
        ≡ after_fetch sum256 agent p tile_url key flight blank (fetch sum256 key c)
  unfolding handle after_named
  handle-named flight c = rw served.name

  cached :
      (body : List ℕ) (status : Option Text) (c : Cache Opts s)
      → IsEncodable body (pulled agent p)
      → return_cached_tile p (packet sum256 agent p body) status blank c ≡ record {
        cache = c;
        status = status;
        reply = ok (record blank {
          body = body;
          headers = do_delete_headers p f.del_header (set_headers f (pulled agent p) blank.headers);
        });
      }
  unfolding return_cached_tile after_body
  cached body status c enc =
      let whole : tile_data (packet sum256 agent p body) ≡ ok body =
        tile_data-encode_whole sum256 sized body (pulled agent p) enc.sized in
      let stored : headers (packet sum256 agent p body) ≡ ok (pulled agent p) =
        headers-encode sum256 sized body (pulled agent p) enc.dict enc.short enc.few in
      rw (return_cached_tile, whole)
        (rw (served.writes body, served.empty) (rw (after_body, stored) refl))

  -- A hit in memory: the stored bytes and headers, with no fetch.
  pub handle_hit :
      (flight : Flight) (c : Cache Opts s) (body : List ℕ)
      → c.proxy.cache.mem_enabled ≡ true
      → s.mem_get key c.internal ≡ entry (packet sum256 agent p body)
      → IsEncodable body (pulled agent p)
      → ((handle sum256 agent with_query p ctx flight blank c).status ≡ some (codes ":hit-i"))
        × ((handle sum256 agent with_query p ctx flight blank c).reply
            ≡ ok (record blank {
              body = body;
              headers =
                  do_delete_headers p f.del_header (set_headers f (pulled agent p) blank.headers);
            }))
  handle_hit flight c body on held enc =
      let found = fetch_internal_hit sum256 sized body (pulled agent p) key c on held in
      rw (handle-named flight c, found)
        (unfold after_fetch in rw (cached body (some (codes ":hit-i")) _ enc) (refl, refl))

  fetch-miss :
      (c : Cache Opts s)
      → c.proxy.cache.mem_enabled ≡ true
      → c.proxy.cache.redis_enabled ≡ false
      → s.mem_get key c.internal ≡ not_found
      → fetch sum256 key c ≡ miss c
  unfolding fetch mem_answer fetch_external
  fetch-miss c on off absent = ground arith

  process_miss :
      (r : ProxyResponse) (c : Cache Opts s)
      → is_tile r ≡ true
      → process_response sum256 p key r true blank c ≡ (
        record blank {
          status = if r.code == 204 then 204 else blank.status;
          body = r.body;
          headers = do_delete_headers p f.del_header blank.headers;
        },
        cache_later sum256 p key r c,
        none,
      )
  unfolding process_response write_data after_write
  process_miss r c tile = elim (Bool-cases (r.code == 204)) [
    | inl no_content ↦ rw (tile, no_content, served.writes r.body, served.empty)
    | inr content ↦ rw (tile, content, served.writes r.body, served.empty)
  ]

  handle_miss :
      (c : Cache Opts s) (answer : ProxyResponse)
      → c.proxy.cache.mem_enabled ≡ true
      → c.proxy.cache.redis_enabled ≡ false
      → s.mem_get key c.internal ≡ not_found
      → IsAnswer agent p tile_url answer
      → handle sum256 agent with_query p ctx (leads false) blank c ≡ record {
        cache = record c {
          misses = c.misses + 1;
          background = c.background ++ set_both key (packet sum256 agent p answer.body) ∷ [];
        };
        status = some (codes ":miss ");
        reply = ok (record blank {
          status = if answer.code == 204 then 204 else blank.status;
          body = answer.body;
          headers = do_delete_headers p f.del_header blank.headers;
        });
      }
  handle_miss c answer on off absent h =
      let missed : fetch sum256 key c ≡ miss c = fetch-miss c on off absent in
      let copied : ProxyResponse = record {
        code = answer.code;
        body = answer.body;
        resp = agent.blank;
      } in
      let fetched : fetch_upstream agent tile_url p ≡ ok copied =
        unfold fetch_upstream in rw (h.parses, h.bytes) in
      let processed =
        process_miss copied (record c { misses = c.misses + 1 }) ((is_tile_iff copied).1 h.tile) in
      rw (handle-named (leads false) c, missed)
        (unfold after_fetch after_flight miss in
          rw (fetched, processed) (unfold after_process cache_later in refl))

  -- Once the goroutine of a miss has run, the memory store holds the packet.
  stored_later :
      (laws : StoresLaws s) (c : Cache Opts s) (t : List ℕ)
      → c.proxy.cache.mem_enabled ≡ true
      → c.background ≡ []
      → (s.mem_set key t c.internal).1 ≡ none
      → s.mem_get key
          (run_background (record c { background = c.background ++ set_both key t ∷ [] })).internal
        ≡ entry t
  unfolding run_background run_tasks run_task set
  stored_later laws c t on idle took =
      rw idle (ground (arith, laws.mem_get-mem_set key t c.internal took))

  stored_later-proxy :
      (c : Cache Opts s) (t : List ℕ)
      → c.background ≡ []
      → (run_background (record c { background = c.background ++ set_both key t ∷ [] })).proxy
        ≡ c.proxy
  unfolding run_background run_tasks run_task set
  stored_later-proxy c t idle = rw idle refl

  -- With stores that keep their laws, checksums of 32 bytes, an empty reply to which fiber writes without
  -- an error, memory on, Redis off, no goroutine waiting, the key not in memory, and a server that answers
  -- its URL with a tile that a packet can hold: a request that makes the fetch replies with the server's
  -- body, as a miss, and without the headers that are stored for the tile. After its goroutine has run,
  -- if the memory store takes the packet, the same request replies with the same body, as a hit in
  -- memory, whatever its flight would be, and now with those headers.
  pub miss_then_hit :
      (laws : StoresLaws s) (c : Cache Opts s) (answer : ProxyResponse) (flight : Flight)
      → c.proxy.cache.mem_enabled ≡ true
      → c.proxy.cache.redis_enabled ≡ false
      → c.background ≡ []
      → s.mem_get key c.internal ≡ not_found
      → IsAnswer agent p tile_url answer
      → (s.mem_set key (packet sum256 agent p answer.body) c.internal).1 ≡ none
      → let first = handle sum256 agent with_query p ctx (leads false) blank c in
        let second =
          handle sum256 agent with_query p ctx flight blank (run_background first.cache) in
        (first.status ≡ some (codes ":miss "))
        × (first.reply
            ≡ ok (record blank {
              status = if answer.code == 204 then 204 else blank.status;
              body = answer.body;
              headers = do_delete_headers p f.del_header blank.headers;
            }))
        × (second.status ≡ some (codes ":hit-i"))
        × (second.reply
            ≡ ok (record blank {
              body = answer.body;
              headers =
                  do_delete_headers p f.del_header (set_headers f (pulled agent p) blank.headers);
            }))
  miss_then_hit laws c answer flight on off idle absent h took =
      let c' : Cache Opts s = record c { misses = c.misses + 1 } in
      let t = packet sum256 agent p answer.body in
      let later : Cache Opts s =
        run_background (record c' { background = c'.background ++ set_both key t ∷ [] }) in
      let on' : later.proxy.cache.mem_enabled ≡ true =
        ap (λ (q : Proxy Opts). q.cache.mem_enabled) (stored_later-proxy c' t idle) ∙ on in
      let (hit, replied) =
        handle_hit flight later answer.body on' (stored_later laws c' t on idle took) h.encodable in
      rw (handle_miss c answer on off absent h) (refl, refl, hit, replied)
