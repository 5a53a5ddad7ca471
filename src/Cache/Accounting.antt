-- ===== src/Cache/Accounting.antt =====
-- What a call of `Fetch` (cache/cache.go) returns and counts, by the answers of the stores.
use lod.Prelude.{
  err, ℕ, ◌+◌, List, Bool, true, false, ok, panic, none, some, ◌≡◌, ◌⊎◌, inl, inr, Bool-cases, ◌≤◌,
  ◌<◌, Result, Option, refl, arith, length, if◌then◌else◌,
}
use lod.Prelude.Text.{Text, codes}
use lod.Packet.{tile_packet_validate, TilePacket, validate, from_bytes}
use lod.Cache.Backends.{
  Stores, MemReply, entry, not_found, mem_failed, RedisReply, value, redis_nil, redis_failed,
}
use lod.Cache.{
  Cache, Fetched, invalidate, miss, return_tile, found, redis_answer, fetch_external, mem_answer,
  fetch,
}
use lod.Packet.Sizes.{tile_data_size_cases}
use lod.Cache.Fetching.{ttl_of, Counted, found-Counted}

if_cases :
    {A : Type 0} (holds : A → Type 0) (b : Bool) (x y : A)
    → (b ≡ true → holds x)
    → (b ≡ false → holds y)
    → holds (if b then x else y)
if_cases holds true x y h k = h refl
if_cases holds false x y h k = k refl

-- Bytes that are a packet of at least 36 bytes are returned; other packets panic; the rest is nil.
abbrev pub IsReturned : (List ℕ → List ℕ) → List ℕ → Result (Unit {0}) (Option TilePacket) → Type 0
IsReturned sum256 bytes tile =
    ((validate sum256 bytes ≡ true) × (36 ≤ length bytes) × (tile ≡ ok (some bytes)))
    ⊎ (((validate sum256 bytes ≡ true) × (length bytes < 36) × (tile ≡ panic))
        ⊎ ((validate sum256 bytes ≡ false) × (tile ≡ ok none)))

module _ {Opts : Type 0} {s : Stores} where
  -- What Redis answers to `Fetch`.
  abbrev pub external_reply : Text → Cache Opts s → RedisReply
  external_reply key c = (s.redis_get_ex key (ttl_of c) c.external).1

  abbrev pub PassesMemory : Text → Cache Opts s → Type 0
  PassesMemory key c = (c.proxy.cache.mem_enabled ≡ false) ⊎ (s.mem_get key c.internal ≡ not_found)

  -- The first level that is asked and has bytes for the key, by the status of a hit in it.
  abbrev pub IsHeld : Text → Cache Opts s → Text → List ℕ → Type 0
  IsHeld key c hit bytes =
      ((hit ≡ codes ":hit-i")
        × (c.proxy.cache.mem_enabled ≡ true)
        × (s.mem_get key c.internal ≡ entry bytes))
      ⊎ ((hit ≡ codes ":hit-e")
          × PassesMemory key c
          × (c.proxy.cache.redis_enabled ≡ true)
          × (external_reply key c ≡ value (some bytes)))

  abbrev pub IsAbsent : Text → Cache Opts s → Type 0
  IsAbsent key c =
      PassesMemory key c
      × ((c.proxy.cache.redis_enabled ≡ false)
          ⊎ ((external_reply key c ≡ redis_nil) ⊎ (external_reply key c ≡ value none)))

  -- A level that has failed: nil, and a panic where Redis fails behind a memory store that is off.
  abbrev pub IsFailed : Text → Cache Opts s → Result (Unit {0}) (Option TilePacket) → Type 0
  IsFailed key c tile =
      ((e : Text) × (c.proxy.cache.mem_enabled ≡ true)
        × (s.mem_get key c.internal ≡ mem_failed e)
        × (tile ≡ ok none))
      ⊎ ((e : Text) × (c.proxy.cache.redis_enabled ≡ true)
          × (external_reply key c ≡ redis_failed e)
          × (((c.proxy.cache.mem_enabled ≡ true)
                × (s.mem_get key c.internal ≡ not_found)
                × (tile ≡ ok none))
              ⊎ ((c.proxy.cache.mem_enabled ≡ false) × (tile ≡ panic))))

module _ {Opts : Type 0} {s : Stores} (sum256 : List ℕ → List ℕ) where
  -- A hit on what a level holds; or a miss, as no level holds anything; or nothing counted, as a
  -- level has failed.
  abbrev pub IsAccounted : Text → Cache Opts s → Fetched Opts s → Type 0
  IsAccounted key c f =
      ((hit : Text) × (bytes : List ℕ) × IsHeld key c hit bytes
        × Counted sum256 c f 1 0
        × (f.status ≡ some hit)
        × IsReturned sum256 bytes f.tile)
      ⊎ ((IsAbsent key c × Counted sum256 c f 0 1 × (f.status ≡ none) × (f.tile ≡ ok none))
          ⊎ (IsFailed key c f.tile × Counted sum256 c f 0 0 × (f.status ≡ none)))

  found-IsReturned :
      (key : Text) (bytes : List ℕ) (hit : Text) (c : Cache Opts s)
      → ((found sum256 key bytes hit c).status ≡ some hit)
        × IsReturned sum256 bytes (found sum256 key bytes hit c).tile
  unfolding found return_tile
  found-IsReturned key bytes hit c = elim (Bool-cases (validate sum256 bytes)) [
    | inr bad ↦
        let refused : from_bytes sum256 bytes key ≡ err (tile_packet_validate key) =
          unfold from_bytes in rw bad refl in
        (ground arith, inr (inr (bad, ground arith)))
    | inl good ↦
        let taken : from_bytes sum256 bytes key ≡ ok bytes = unfold from_bytes in rw good refl in
        elim (tile_data_size_cases bytes) [
          | inl (long, (size, e)) ↦ (ground arith, inl (good, long, ground arith))
          | inr (short, e) ↦ (ground arith, inr (inl (good, short, ground arith)))
        ]
  ]

  held-IsAccounted :
      (key : Text) (bytes : List ℕ) (hit : Text) (c d : Cache Opts s)
      → IsHeld key c hit bytes
      → d.hits ≡ c.hits
      → d.misses ≡ c.misses
      → IsAccounted key c (found sum256 key bytes hit d)
  held-IsAccounted key bytes hit c d held hits misses =
      let (status, returned) = found-IsReturned key bytes hit d in
      let (more, same) = found-Counted sum256 key bytes hit d in
      inl (hit, bytes, held, (omega arith, omega arith), status, returned)

  -- The answer of Redis, where `has_err` says that the memory store is on.
  redis_answer-IsAccounted :
      (key : Text) (on : Bool) (reply : RedisReply) (c d : Cache Opts s)
      → PassesMemory key c
      → c.proxy.cache.mem_enabled ≡ on
      → c.proxy.cache.redis_enabled ≡ true
      → external_reply key c ≡ reply
      → d.hits ≡ c.hits
      → d.misses ≡ c.misses
      → IsAccounted key c (redis_answer sum256 key on reply d)
  unfolding redis_answer miss
  redis_answer-IsAccounted key on redis_nil c d passes e r q hits misses =
      inr (inl ((passes, inr (inl q)), (omega arith, omega arith), refl, refl))
  redis_answer-IsAccounted key on (value none) c d passes e r q hits misses =
      inr (inl ((passes, inr (inr q)), (omega arith, omega arith), refl, refl))
  redis_answer-IsAccounted key on (value (some bytes)) c d passes e r q hits misses =
      held-IsAccounted key bytes (codes ":hit-e") c d (inr (refl, passes, r, q)) hits misses
  redis_answer-IsAccounted key false (redis_failed x) c d passes e r q hits misses =
      inr (inr (inr (x, r, q, inr (e, refl)), (omega arith, omega arith), refl))
  redis_answer-IsAccounted key true (redis_failed x) c d passes e r q hits misses =
      let absent : s.mem_get key c.internal ≡ not_found = elim passes [
        | inl off ↦ absurd (cc)
        | inr absent ↦ absent
      ] in
      inr (inr (inr (x, r, q, inl (e, absent, refl)), (omega arith, omega arith), refl))

  fetch_external-IsAccounted :
      (key : Text) (on : Bool) (c : Cache Opts s)
      → PassesMemory key c
      → c.proxy.cache.mem_enabled ≡ on
      → IsAccounted key c (fetch_external sum256 key on c)
  unfolding fetch_external miss
  fetch_external-IsAccounted key on c passes e =
      let reply = s.redis_get_ex key (ttl_of c) c.external in
      if_cases (IsAccounted key c) c.proxy.cache.redis_enabled _ _
        (λ r.
          redis_answer-IsAccounted key on reply.1 c (record c { external = reply.0 }) passes e r
            refl refl refl)
        (λ off. inr (inl ((passes, inl off), (omega arith, omega arith), refl, refl)))

  mem_answer-IsAccounted :
      (key : Text) (reply : MemReply) (c : Cache Opts s)
      → c.proxy.cache.mem_enabled ≡ true
      → s.mem_get key c.internal ≡ reply
      → IsAccounted key c (mem_answer sum256 key reply c)
  unfolding mem_answer
  mem_answer-IsAccounted key (entry bytes) c on e =
      held-IsAccounted key bytes (codes ":hit-i") c c (inl (refl, on, e)) refl refl
  mem_answer-IsAccounted key not_found c on e = fetch_external-IsAccounted key true c (inr e) on
  mem_answer-IsAccounted key (mem_failed x) c on e =
      inr (inr (inl (x, on, e, refl), (omega arith, omega arith), refl))

  -- Every call of `Fetch` counts one hit and no miss where a level holds bytes for the key, the memory
  -- store first, and sets the status of that level; it then returns the bytes if they are a packet of
  -- at least 36 bytes, panics on a shorter packet, and returns nil otherwise. It counts one miss and no
  -- hit, sets no status and returns nil where neither level holds anything. It counts nothing and sets no
  -- status where a level fails, and then returns nil, or panics if Redis fails and the memory store is
  -- off.
  pub fetch-IsAccounted : (key : Text) (c : Cache Opts s) → IsAccounted key c (fetch sum256 key c)
  unfolding fetch
  fetch-IsAccounted key c =
      if_cases (IsAccounted key c) c.proxy.cache.mem_enabled _ _
        (λ on. mem_answer-IsAccounted key (s.mem_get key c.internal) c on refl)
        (λ off. fetch_external-IsAccounted key false c (inl off) off)

  -- Bytes that a level holds are what `Fetch` goes on with.
  pub fetch-IsHeld :
      (key hit : Text) (bytes : List ℕ) (c : Cache Opts s)
      → IsHeld key c hit bytes
      → (d : Cache Opts s) × (d.misses ≡ c.misses)
        × (fetch sum256 key c ≡ found sum256 key bytes hit d)
  unfolding fetch mem_answer fetch_external redis_answer
  fetch-IsHeld key hit bytes c (inl (named, on, e)) = (c, refl, rw named (ground arith))
  fetch-IsHeld key hit bytes c (inr (named, inl off, r, e)) = (
    record c { external = (s.redis_get_ex key (ttl_of c) c.external).0 },
    refl,
    rw named (ground arith),
  )
  fetch-IsHeld key hit bytes c (inr (named, inr absent, r, e)) = (
    record c { external = (s.redis_get_ex key (ttl_of c) c.external).0 },
    refl,
    rw named (ground arith),
  )

  pub found_corrupted :
      (key hit : Text) (bytes : List ℕ) (c : Cache Opts s)
      → validate sum256 bytes ≡ false
      → found sum256 key bytes hit c ≡ record {
        cache = (invalidate key (record c { hits = c.hits + 1 })).0;
        status = some hit;
        tile = ok none;
      }
  unfolding found from_bytes
  found_corrupted key hit bytes c bad = ground arith
