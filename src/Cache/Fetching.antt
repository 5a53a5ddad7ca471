-- ===== src/Cache/Fetching.antt =====
-- `Fetch` (cache/cache.go) on what the stores answer.
use lod.Prelude.{ℕ, ◌+◌, List, [], ◌∷◌, ◌++◌, true, ok, some, ◌≡◌, arith, length, if◌then◌else◌}
use lod.Prelude.Int.{ℤ, pos, ltb_ℤ}
use lod.Prelude.Text.{Text, codes}
use lod.Packet
use lod.Packet.{TilePacket, Headers, validate, from_bytes, tile_data_size}
use lod.Packet.Accessors.{tile_data_size-encode}
use lod.Packet.RoundTrip.{from_bytes-encode}
use lod.Cache.Backends.{Stores, entry, not_found, value}
use lod.Cache.{
  Cache, Fetched, set_internal, invalidate_external, invalidate_rest, invalidate, return_tile,
  found, redis_answer, fetch_external, mem_answer, fetch,
}

-- The time to live that `Fetch` asks Redis for.
abbrev pub ttl_of : {Opts : Type 0} {s : Stores} → Cache Opts s → ℤ
ttl_of c =
    if ltb_ℤ (pos 0) c.proxy.cache.redis_ttl_duration
    then c.proxy.cache.redis_ttl_duration
    else pos 0

module _ {Opts : Type 0} {s : Stores} (sum256 : List ℕ → List ℕ) where
  -- What a call of `Fetch` has counted.
  abbrev pub Counted : Cache Opts s → Fetched Opts s → ℕ → ℕ → Type 0
  Counted c f hits misses = (f.cache.hits ≡ c.hits + hits) × (f.cache.misses ≡ c.misses + misses)

  invalidate-counters :
      (key : Text) (c : Cache Opts s)
      → ((invalidate key c).0.hits ≡ c.hits) × ((invalidate key c).0.misses ≡ c.misses)
  unfolding invalidate invalidate_rest invalidate_external
  invalidate-counters key c = ground arith

  -- The bytes of some level count as one hit, whether or not they are a valid packet.
  pub found-Counted :
      (key : Text) (bytes : List ℕ) (hit : Text) (c : Cache Opts s)
      → Counted c (found sum256 key bytes hit c) 1 0
  unfolding found return_tile
  found-Counted key bytes hit c =
      ground (arith, invalidate-counters key (record c { hits = c.hits + 1 }))

  module _ (sized : (b : List ℕ) → length (sum256 b) ≡ 32) (data_ : List ℕ) (hs : Headers) where
    -- An encoded packet that some level holds is returned, counted, and put back into memory later.
    pub found-packet :
        (key : Text) (hit : Text) (c : Cache Opts s)
        → found sum256 key (Packet.encode sum256 data_ hs) hit c ≡ record {
          cache = record c {
            hits = c.hits + 1;
            background = c.background ++ set_internal key (Packet.encode sum256 data_ hs) ∷ [];
          };
          status = some hit;
          tile = ok (some (Packet.encode sum256 data_ hs));
        }
    unfolding found return_tile
    found-packet key hit c = ground (
      arith,
      from_bytes-encode sum256 sized data_ hs key,
      tile_data_size-encode sum256 sized data_ hs,
    )

    -- What the memory store holds is returned from there, with the status ":hit-i"; Redis is not
    -- asked, and the entry is set again in the background.
    pub fetch_internal_hit :
        (key : Text) (c : Cache Opts s)
        → c.proxy.cache.mem_enabled ≡ true
        → s.mem_get key c.internal ≡ entry (Packet.encode sum256 data_ hs)
        → fetch sum256 key c ≡ record {
          cache = record c {
            hits = c.hits + 1;
            background = c.background ++ set_internal key (Packet.encode sum256 data_ hs) ∷ [];
          };
          status = some (codes ":hit-i");
          tile = ok (some (Packet.encode sum256 data_ hs));
        }
    unfolding fetch mem_answer
    fetch_internal_hit key c on held = ground (arith, found-packet key (codes ":hit-i") c)

    -- A packet that only Redis holds is returned from there, with the status ":hit-e".
    pub fetch_external_hit :
        (key : Text) (c : Cache Opts s)
        → c.proxy.cache.mem_enabled ≡ true
        → c.proxy.cache.redis_enabled ≡ true
        → s.mem_get key c.internal ≡ not_found
        → (s.redis_get_ex key (ttl_of c) c.external).1
          ≡ value (some (Packet.encode sum256 data_ hs))
        → fetch sum256 key c ≡ record {
          cache = record c {
            external = (s.redis_get_ex key (ttl_of c) c.external).0;
            hits = c.hits + 1;
            background = c.background ++ set_internal key (Packet.encode sum256 data_ hs) ∷ [];
          };
          status = some (codes ":hit-e");
          tile = ok (some (Packet.encode sum256 data_ hs));
        }
    unfolding fetch mem_answer fetch_external redis_answer
    fetch_external_hit key c on redis_on absent held = ground (
      arith,
      found-packet key (codes ":hit-e")
          (record c { external = (s.redis_get_ex key (ttl_of c) c.external).0 }),
    )
