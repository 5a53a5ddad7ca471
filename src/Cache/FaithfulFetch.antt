-- ===== src/Cache/FaithfulFetch.antt =====
-- What `Fetch` (cache/cache.go) returns from a faithful cache.
use lod.Prelude.{
  ℕ, ◌+◌, List, Bool, true, false, if_both, length, Result, ok, Option, none, some, ◌≡◌, refl,
  subst,
}
use lod.Prelude.Text.{Text, codes}
use lod.Packet
use lod.Packet.{TilePacket, Headers}
use lod.Cache.Backends.{
  Stores, MemReply, entry, not_found, mem_failed, RedisReply, value, redis_nil, redis_failed,
  StoresFrames,
}
use lod.Cache.{
  Cache, Fetched, set_internal, miss, found, redis_answer, fetch_external, mem_answer, fetch,
}
use lod.Cache.Fetching.{ttl_of, found-packet}
use lod.Cache.Faithful.{IsRightPacket, IsFaithful, external-IsFaithful, later-IsFaithful}

module _ (sum256 : List ℕ → List ℕ) (Right : Text → List ℕ → Type 0) {Opts : Type 0} {s : Stores}
    (frames : StoresFrames s) (sized : (b : List ℕ) → length (sum256 b) ≡ 32) where
  -- What a `Fetch` leaves and returns.
  abbrev pub IsFaithfulFetch : Text → Fetched Opts s → Type 0
  IsFaithfulFetch key x =
      IsFaithful sum256 Right x.cache
      × ((t : TilePacket) → x.tile ≡ ok (some t) → IsRightPacket sum256 Right key t)

  found-IsFaithful :
      (c : Cache Opts s) (key : Text) (bytes : List ℕ) (hit : Text)
      → IsFaithful sum256 Right c
      → IsRightPacket sum256 Right key bytes
      → IsFaithfulFetch key (found sum256 key bytes hit c)
  found-IsFaithful c key bytes hit h right =
      let packet = Packet.encode sum256 right.body right.stored in
      let right' : IsRightPacket sum256 Right key packet = record {
        body = right.body;
        stored = right.stored;
        encoded = refl;
        right = right.right;
        short = right.short;
      } in
      let counted : IsFaithful sum256 Right (record c { hits = c.hits + 1 }) = record {
        mem = h.mem;
        redis = h.redis;
        tasks = h.tasks;
      } in
      rw (right.encoded, found-packet sum256 sized right.body right.stored key hit c)
        (
          later-IsFaithful sum256 Right frames (record c { hits = c.hits + 1 })
              (set_internal key packet) counted right',
          λ t e. subst (IsRightPacket sum256 Right key) (the_tile packet t e) right',
        )
    where
      the_tile :
          (t u : TilePacket)
          → ◌≡◌ {A = Result (Unit {0}) (Option TilePacket)} (ok (some t)) (ok (some u))
          → t ≡ u
      the_tile t u e = cc

  miss-IsFaithful :
      (c : Cache Opts s) (key : Text) → IsFaithful sum256 Right c → IsFaithfulFetch key (miss c)
  unfolding miss
  miss-IsFaithful c key h =
      (record { mem = h.mem; redis = h.redis; tasks = h.tasks }, λ t e. absurd (cc))

  redis_answer-IsFaithful :
      (c : Cache Opts s) (key : Text) (has_err : Bool) (reply : RedisReply)
      → IsFaithful sum256 Right c
      → ((x : List ℕ) → reply ≡ value (some x) → IsRightPacket sum256 Right key x)
      → IsFaithfulFetch key (redis_answer sum256 key has_err reply c)
  unfolding redis_answer
  redis_answer-IsFaithful c key has_err redis_nil h right = miss-IsFaithful c key h
  redis_answer-IsFaithful c key true (redis_failed e) h right = (h, λ t p. absurd (cc))
  redis_answer-IsFaithful c key false (redis_failed e) h right = (h, λ t p. absurd (cc))
  redis_answer-IsFaithful c key has_err (value none) h right = miss-IsFaithful c key h
  redis_answer-IsFaithful c key has_err (value (some bytes)) h right =
      found-IsFaithful c key bytes (codes ":hit-e") h (right bytes refl)

  fetch_external-IsFaithful :
      (c : Cache Opts s) (key : Text) (has_err : Bool)
      → IsFaithful sum256 Right c
      → IsFaithfulFetch key (fetch_external sum256 key has_err c)
  unfolding fetch_external
  fetch_external-IsFaithful c key has_err h =
      if_both (IsFaithfulFetch key) c.proxy.cache.redis_enabled
        (redis_answer-IsFaithful
          (record c { external = (s.redis_get_ex key (ttl_of c) c.external).0 }) key has_err
          (s.redis_get_ex key (ttl_of c) c.external).1
          (external-IsFaithful sum256 Right frames c (ttl_of c) key h)
          (λ x e. h.redis key (ttl_of c) x e))
        (miss-IsFaithful c key h)

  mem_answer-IsFaithful :
      (c : Cache Opts s) (key : Text) (reply : MemReply)
      → IsFaithful sum256 Right c
      → ((x : List ℕ) → reply ≡ entry x → IsRightPacket sum256 Right key x)
      → IsFaithfulFetch key (mem_answer sum256 key reply c)
  unfolding mem_answer
  mem_answer-IsFaithful c key (entry bytes) h right =
      found-IsFaithful c key bytes (codes ":hit-i") h (right bytes refl)
  mem_answer-IsFaithful c key not_found h right = fetch_external-IsFaithful c key true h
  mem_answer-IsFaithful c key (mem_failed e) h right = (h, λ t p. absurd (cc))

  -- A `Fetch` keeps a faithful cache faithful, and returns only packets that are right for the key.
  pub fetch-IsFaithful :
      (c : Cache Opts s) (key : Text)
      → IsFaithful sum256 Right c
      → IsFaithfulFetch key (fetch sum256 key c)
  unfolding fetch
  fetch-IsFaithful c key h =
      if_both (IsFaithfulFetch key) c.proxy.cache.mem_enabled
        (mem_answer-IsFaithful c key (s.mem_get key c.internal) h (λ x e. h.mem key x e))
        (fetch_external-IsFaithful c key false h)
