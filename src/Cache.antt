-- ===== src/Cache.antt =====
-- cache/cache.go: the two-level tile cache of one proxy, `Fetch`, `Set`, `EncodeSet`, `Invalidate`
-- and `FlushInternal`.
--
-- The in-memory store (bigcache) and the Redis client are the record `Stores`: their states are
-- abstract, and a call returns the new state with its answer. What a goroutine does later stands in
-- the list `background` of the cache's state, in the order in which it was started; `run_task` runs
-- one. Logging has no effect on the state, but the arguments of a log call are evaluated, and a
-- method call on a nil error or a slice out of range in them panics.
pub mod Backends
pub mod Fetching
pub mod Accounting
pub mod Writing
pub mod Registry
pub mod Clients
pub mod Registered
pub mod Faithful
pub mod FaithfulFetch
pub mod Messages
pub mod Samples
mod Runs
use lod.Prelude.{
  ℕ, ◌+◌, List, [], ◌∷◌, ◌++◌, Bool, true, false, not, ◌&&◌, if◌then◌else◌, Result, ok, err, panic,
  ◌>>=◌, ◌>>◌, Option, none, some,
}
use lod.Prelude.Int.{ℤ, pos, ltb_ℤ}
use lod.Prelude.Text.{Text, codes}
use lod.Packet
use lod.Packet.{TilePacket, Headers, from_bytes, tile_data_size}
use lod.Config.{Proxy}
use lod.Cache.Backends.{
  Stores, MemReply, entry, not_found, mem_failed, RedisReply, value, redis_nil, redis_failed,
  Deleted, deleted, was_absent, delete_failed,
}

-- What a goroutine is started for.
pub data Task : Type 0 where
  set_internal : Text → TilePacket → Task
  set_external : Text → TilePacket → Task
  set_both : Text → TilePacket → Task

-- `Cache`, with the two counters of its metrics.
pub record Cache (Opts : Type 0) (s : Stores) : Type 0 where
  pub proxy : Proxy Opts
  pub internal : s.Mem
  pub external : s.Redis
  pub hits : ℕ
  pub misses : ℕ
  pub background : List Task

-- What a call of `Fetch` leaves: the cache, the request's local `lod-cache` if it was set, and the
-- tile, nil or a panic.
pub record Fetched (Opts : Type 0) (s : Stores) : Type 0 where
  pub cache : Cache Opts s
  pub status : Option Text
  pub tile : Result (Unit {0}) (Option TilePacket)

module _ {Opts : Type 0} {s : Stores} where
  unfoldable pub invalidate_external : Text → Cache Opts s → Cache Opts s × Option Text
  invalidate_external key c =
      if c.proxy.cache.redis_enabled
      then (let (external, e) = s.redis_del key c.external in (record c { external = external }, e))
      else (c, none)

  -- The memory store's answer, and the cache with that store as it is afterwards.
  unfoldable pub invalidate_rest : Text → Deleted → Cache Opts s → Cache Opts s × Option Text
  invalidate_rest key deleted c = invalidate_external key c
  invalidate_rest key was_absent c = invalidate_external key c
  invalidate_rest key (delete_failed e) c = (c, some e)

  unfoldable pub invalidate : Text → Cache Opts s → Cache Opts s × Option Text
  invalidate key c =
      if c.proxy.cache.mem_enabled
      then (let (internal, reply) = s.mem_delete key c.internal in
          invalidate_rest key reply (record c { internal = internal }))
      else invalidate_external key c

  -- `Set` with `internalOnly`; an error of the memory store is only logged.
  unfoldable pub set : Text → TilePacket → Bool → Cache Opts s → Cache Opts s
  set key tile internal_only c =
      let later =
        if not internal_only && c.proxy.cache.redis_enabled
        then set_external key tile ∷ []
        else [] in
      let internal =
        if c.proxy.cache.mem_enabled then (s.mem_set key tile c.internal).0 else c.internal in
      record c { internal = internal; background = c.background ++ later }

  unfoldable pub run_task : Task → Cache Opts s → Cache Opts s
  run_task (set_internal key tile) c = set key tile true c
  run_task (set_both key tile) c = set key tile false c
  run_task (set_external key tile) c = record c {
    external = (s.redis_set key tile c.proxy.cache.redis_ttl_duration c.external).0;
  }

  unfoldable pub run_tasks : List Task → Cache Opts s → Cache Opts s
  run_tasks [] c = c
  run_tasks (t ∷ ts) c = run_tasks ts (run_task t c)

  -- The goroutines that are waiting, run to their ends in the order in which they were started.
  unfoldable pub run_background : Cache Opts s → Cache Opts s
  run_background c = run_tasks c.background (record c { background = [] })

  unfoldable pub flush_internal : Cache Opts s → Cache Opts s × Option Text
  flush_internal c =
      if c.proxy.cache.mem_enabled
      then (let (internal, e) = s.mem_reset c.internal in (record c { internal = internal }, e))
      else (c, none)

  abbrev pub no_tile : Cache Opts s → Fetched Opts s
  no_tile c = record { cache = c; status = none; tile = ok none }

  -- Nothing is cached at any level.
  unfoldable pub miss : Cache Opts s → Fetched Opts s
  miss c = no_tile (record c { misses = c.misses + 1 })

  module _ (sum256 : List ℕ → List ℕ) where
    unfoldable pub encode_set : Text → List ℕ → Headers → Cache Opts s → Cache Opts s
    encode_set key tile_data headers c = set key (Packet.encode sum256 tile_data headers) false c

    -- A valid packet. The arguments of the log call are evaluated, its data size among them.
    unfoldable pub return_tile : Text → TilePacket → Text → Cache Opts s → Fetched Opts s
    return_tile key tile hit c = elim (tile_data_size tile) [
      | ok size ↦ record {
        cache = record c { background = c.background ++ set_internal key tile ∷ [] };
        status = some hit;
        tile = ok (some tile);
      }
      | err e ↦ record { cache = c; status = some hit; tile = panic }
      | panic ↦ record { cache = c; status = some hit; tile = panic }
    ]

    -- `Fetch` from the point where some level has answered with bytes.
    unfoldable pub found : Text → List ℕ → Text → Cache Opts s → Fetched Opts s
    found key bytes hit c =
        let counted = record c { hits = c.hits + 1 } in
        elim (from_bytes sum256 bytes key) [
          | ok tile ↦ return_tile key tile hit counted
          | err e ↦ record { cache = (invalidate key counted).0; status = some hit; tile = ok none }
          | panic ↦ record { cache = counted; status = some hit; tile = panic }
        ]

    -- The answer of Redis. `has_err` says whether `err` is set, by the memory store's answer:
    -- `err.Error()` panics otherwise.
    unfoldable pub redis_answer : Text → Bool → RedisReply → Cache Opts s → Fetched Opts s
    redis_answer key has_err redis_nil c = miss c
    redis_answer key has_err (redis_failed e) c =
        if has_err then no_tile c else record { cache = c; status = none; tile = panic }
    redis_answer key has_err (value none) c = miss c
    redis_answer key has_err (value (some bytes)) c = found key bytes (codes ":hit-e") c

    unfoldable pub fetch_external : Text → Bool → Cache Opts s → Fetched Opts s
    fetch_external key has_err c =
        let configured = c.proxy.cache.redis_ttl_duration in
        let ttl = if ltb_ℤ (pos 0) configured then configured else pos 0 in
        if c.proxy.cache.redis_enabled
        then (let (external, reply) = s.redis_get_ex key ttl c.external in
            redis_answer key has_err reply (record c { external = external }))
        else miss c

    unfoldable pub mem_answer : Text → MemReply → Cache Opts s → Fetched Opts s
    mem_answer key (entry bytes) c = found key bytes (codes ":hit-i") c
    mem_answer key not_found c = fetch_external key true c
    mem_answer key (mem_failed e) c = no_tile c

    unfoldable pub fetch : Text → Cache Opts s → Fetched Opts s
    fetch key c =
        if c.proxy.cache.mem_enabled
        then mem_answer key (s.mem_get key c.internal) c
        else fetch_external key false c
