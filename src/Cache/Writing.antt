-- ===== src/Cache/Writing.antt =====
-- `Set`, `Invalidate` and `FlushInternal` (cache/cache.go), and what a later `Fetch` sees of them.
use lod.Prelude.{ℕ, ◌+◌, List, [], true, ok, none, some, ◌≡◌, refl, arith, length}
use lod.Prelude.Text.{Text, codes}
use lod.Packet
use lod.Packet.{TilePacket, Headers}
use lod.Cache.Backends.{Stores, StoresLaws, entry, not_found, value}
use lod.Cache.{
  Cache, invalidate_external, invalidate_rest, invalidate, set, run_task, run_tasks, run_background,
  flush_internal, miss, encode_set, redis_answer, fetch_external, mem_answer, fetch,
}
use lod.Cache.Accounting.{IsHeld, fetch-IsHeld, found_corrupted}
use lod.Packet.{validate}
use lod.Cache.Backends.{deleted, was_absent}
use lod.Prelude.{false, ◌⊎◌, ◌∙◌, ap}
use lod.Cache.Fetching.{ttl_of, fetch_internal_hit, fetch_external_hit}

module _ {Opts : Type 0} {s : Stores} (laws : StoresLaws s) (sum256 : List ℕ → List ℕ) where
  -- With stores that keep their laws and checksums of 32 bytes: a tile that was set with its headers
  -- is, as an encoded packet, what a `Fetch` of its key returns right after, with the status ":hit-i",
  -- if the memory store is on and took the packet; the call counts as a hit and leaves the misses as
  -- they were.
  pub fetch-encode_set :
      (sized : (b : List ℕ) → length (sum256 b) ≡ 32) (key : Text) (tile_data : List ℕ)
      (hs : Headers) (c : Cache Opts s)
      → c.proxy.cache.mem_enabled ≡ true
      → (s.mem_set key (Packet.encode sum256 tile_data hs) c.internal).1 ≡ none
      → ((fetch sum256 key (encode_set sum256 key tile_data hs c)).tile
          ≡ ok (some (Packet.encode sum256 tile_data hs)))
        × ((fetch sum256 key (encode_set sum256 key tile_data hs c)).status ≡ some (codes ":hit-i"))
        × ((fetch sum256 key (encode_set sum256 key tile_data hs c)).cache.hits ≡ c.hits + 1)
        × ((fetch sum256 key (encode_set sum256 key tile_data hs c)).cache.misses ≡ c.misses)
  unfolding encode_set set
  fetch-encode_set sized key tile_data hs c on took =
      let c' = encode_set sum256 key tile_data hs c in
      let packet = Packet.encode sum256 tile_data hs in
      let held : s.mem_get key c'.internal ≡ entry packet =
        ground (arith, laws.mem_get-mem_set key packet c.internal took) in
      rw (fetch_internal_hit sum256 sized tile_data hs key c' on held) (refl, refl, refl, refl)

  -- With stores that keep their laws and checksums of 32 bytes, both levels on, no goroutine waiting,
  -- and an encoded packet for the key in Redis only: after a `Fetch` and the goroutine that it starts,
  -- the memory store holds the packet, if it takes it.
  pub fetch_read_through :
      (sized : (b : List ℕ) → length (sum256 b) ≡ 32) (key : Text) (tile_data : List ℕ)
      (hs : Headers) (c : Cache Opts s)
      → c.proxy.cache.mem_enabled ≡ true
      → c.proxy.cache.redis_enabled ≡ true
      → c.background ≡ []
      → s.mem_get key c.internal ≡ not_found
      → (s.redis_get_ex key (ttl_of c) c.external).1
        ≡ value (some (Packet.encode sum256 tile_data hs))
      → (s.mem_set key (Packet.encode sum256 tile_data hs) c.internal).1 ≡ none
      → s.mem_get key (run_background (fetch sum256 key c).cache).internal
        ≡ entry (Packet.encode sum256 tile_data hs)
  unfolding run_background run_tasks run_task set
  fetch_read_through sized key tile_data hs c on redis_on idle absent held took =
      rw (fetch_external_hit sum256 sized tile_data hs key c on redis_on absent held) (
        rw idle (
          ground
            (arith, laws.mem_get-mem_set key (Packet.encode sum256 tile_data hs) c.internal took)))

  -- With stores that keep their laws: after `Invalidate` has returned no error, the next `Fetch` of
  -- the key returns nil, sets no status and counts a miss.
  pub fetch-invalidate :
      (key : Text) (c : Cache Opts s)
      → (invalidate key c).1 ≡ none
      → ((fetch sum256 key (invalidate key c).0).tile ≡ ok none)
        × ((fetch sum256 key (invalidate key c).0).status ≡ none)
        × ((fetch sum256 key (invalidate key c).0).cache.misses ≡ c.misses + 1)
  unfolding fetch mem_answer fetch_external redis_answer miss invalidate invalidate_rest
      invalidate_external
  fetch-invalidate key c h = ground (
    arith,
    laws.mem_get-mem_delete key c.internal,
    laws.redis_get_ex-redis_del key (ttl_of c) c.external,
  )

  invalidate_succeeds :
      (key : Text) (c : Cache Opts s)
      → ((m : s.Mem) → ((s.mem_delete key m).1 ≡ deleted) ⊎ ((s.mem_delete key m).1 ≡ was_absent))
      → ((r : s.Redis) → (s.redis_del key r).1 ≡ none)
      → (invalidate key c).1 ≡ none
  unfolding invalidate invalidate_rest invalidate_external
  invalidate_succeeds key c mem redis = ground (arith, mem c.internal, redis c.external)

  -- Let the stores keep their laws and delete without an error, and let the first level that has bytes for
  -- the key hold bytes that are no valid packet. Then `Fetch` returns nil, with the status of a hit, and
  -- the key is gone: the next `Fetch` returns nil too, sets no status, and counts the miss.
  pub fetch_corrupted :
      (key hit : Text) (bytes : List ℕ) (c : Cache Opts s)
      → ((m : s.Mem) → ((s.mem_delete key m).1 ≡ deleted) ⊎ ((s.mem_delete key m).1 ≡ was_absent))
      → ((r : s.Redis) → (s.redis_del key r).1 ≡ none)
      → IsHeld key c hit bytes
      → validate sum256 bytes ≡ false
      → (let first = fetch sum256 key c in
          let next = fetch sum256 key first.cache in
          (first.tile ≡ ok none)
          × (first.status ≡ some hit)
          × (next.tile ≡ ok none)
          × (next.status ≡ none)
          × (next.cache.misses ≡ c.misses + 1))
  fetch_corrupted key hit bytes c mem redis held bad =
      let (d, misses, e) = fetch-IsHeld sum256 key hit bytes c held in
      let counted : Cache Opts s = record d { hits = d.hits + 1 } in
      let (gone, silent, missed) =
        fetch-invalidate key counted (invalidate_succeeds key counted mem redis) in
      rw (e, found_corrupted sum256 key hit bytes d bad)
        (refl, refl, gone, silent, missed ∙ ap (λ n. n + 1) misses)

  -- With stores that keep their laws and the memory store on, a `FlushInternal` without an error leaves
  -- no key in the memory store, and Redis as it was.
  pub flush_internal_lem :
      (key : Text) (c : Cache Opts s)
      → c.proxy.cache.mem_enabled ≡ true
      → (flush_internal c).1 ≡ none
      → (s.mem_get key (flush_internal c).0.internal ≡ not_found)
        × ((flush_internal c).0.external ≡ c.external)
  unfolding flush_internal
  flush_internal_lem key c on h = ground (arith, laws.mem_get-mem_reset key c.internal)
