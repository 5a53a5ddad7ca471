-- ===== src/Cache/Backends.antt =====
-- The stores behind a cache (cache/cache.go), as the libraries bigcache and go-redis document them.
use lod.Prelude.{ℕ, List, ◌≡◌, ◌⊎◌, Option, none, some}
use lod.Prelude.Int.{ℤ}
use lod.Prelude.Text.{Text}

-- `BigCache.Get` and `BigCache.Delete`: a value, `ErrEntryNotFound`, or another error.
pub data MemReply : Type 0 where
  entry : List ℕ → MemReply
  not_found : MemReply
  mem_failed : Text → MemReply

-- `GetEx`: the bytes, which may be a nil slice, `redis.Nil`, or another error.
pub data RedisReply : Type 0 where
  value : Option (List ℕ) → RedisReply
  redis_nil : RedisReply
  redis_failed : Text → RedisReply

pub data Deleted : Type 0 where
  deleted : Deleted
  was_absent : Deleted
  delete_failed : Text → Deleted

pub record Stores : Type 1 where
  pub Mem : Type 0
  pub mem_get : Text → Mem → MemReply
  pub mem_set : Text → List ℕ → Mem → Mem × Option Text
  pub mem_delete : Text → Mem → Mem × Deleted
  pub mem_reset : Mem → Mem × Option Text
  pub Redis : Type 0
  pub redis_get_ex : Text → ℤ → Redis → Redis × RedisReply
  pub redis_set : Text → List ℕ → ℤ → Redis → Redis × Option Text
  pub redis_del : Text → Redis → Redis × Option Text

-- What the cache relies on: a value that was stored without an error is read back, one that was
-- deleted is gone, and an emptied memory store holds nothing.
pub record StoresLaws (s : Stores) : Type 0 where
  pub mem_get-mem_set :
      (k : Text) (b : List ℕ) (m : s.Mem)
      → (s.mem_set k b m).1 ≡ none
      → s.mem_get k (s.mem_set k b m).0 ≡ entry b
  pub mem_get-mem_delete :
      (k : Text) (m : s.Mem)
      → ((s.mem_delete k m).1 ≡ deleted) ⊎ ((s.mem_delete k m).1 ≡ was_absent)
      → s.mem_get k (s.mem_delete k m).0 ≡ not_found
  pub mem_get-mem_reset :
      (k : Text) (m : s.Mem) → (s.mem_reset m).1 ≡ none → s.mem_get k (s.mem_reset m).0 ≡ not_found
  pub redis_get_ex-redis_set :
      (k : Text) (b : List ℕ) (ttl ttl' : ℤ) (r : s.Redis)
      → (s.redis_set k b ttl r).1 ≡ none
      → (s.redis_get_ex k ttl' (s.redis_set k b ttl r).0).1 ≡ value (some b)
  pub redis_get_ex-redis_del :
      (k : Text) (ttl : ℤ) (r : s.Redis)
      → (s.redis_del k r).1 ≡ none
      → (s.redis_get_ex k ttl (s.redis_del k r).0).1 ≡ redis_nil

-- A read gives what the last write of the key has stored, or nothing: every other call leaves a key as
-- it was, or drops it.
pub record StoresFrames (s : Stores) : Type 0 where
  pub mem_get_after_set :
      (k j : Text) (b x : List ℕ) (m : s.Mem)
      → s.mem_get k (s.mem_set j b m).0 ≡ entry x
      → ((k ≡ j) × (x ≡ b)) ⊎ (s.mem_get k m ≡ entry x)
  pub mem_get_after_delete :
      (k j : Text) (x : List ℕ) (m : s.Mem)
      → s.mem_get k (s.mem_delete j m).0 ≡ entry x
      → s.mem_get k m ≡ entry x
  pub mem_get_after_reset :
      (k : Text) (x : List ℕ) (m : s.Mem)
      → s.mem_get k (s.mem_reset m).0 ≡ entry x
      → s.mem_get k m ≡ entry x
  pub redis_get_after_set :
      (k j : Text) (b x : List ℕ) (t u : ℤ) (r : s.Redis)
      → (s.redis_get_ex k t (s.redis_set j b u r).0).1 ≡ value (some x)
      → ((k ≡ j) × (x ≡ b)) ⊎ ((s.redis_get_ex k t r).1 ≡ value (some x))
  pub redis_get_after_get :
      (k j : Text) (x : List ℕ) (t u : ℤ) (r : s.Redis)
      → (s.redis_get_ex k t (s.redis_get_ex j u r).0).1 ≡ value (some x)
      → (s.redis_get_ex k t r).1 ≡ value (some x)
  pub redis_get_after_del :
      (k j : Text) (x : List ℕ) (t : ℤ) (r : s.Redis)
      → (s.redis_get_ex k t (s.redis_del j r).0).1 ≡ value (some x)
      → (s.redis_get_ex k t r).1 ≡ value (some x)
