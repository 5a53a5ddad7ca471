-- ===== src/Cache/Faithful.antt =====
-- What the stores of a cache hold (cache/cache.go), by what is right for a key.
use lod.Prelude.{
  ℕ, ◌^◌, ◌<◌, List, [], ◌∷◌, ◌++◌, Bool, true, false, not, ◌&&◌, if_both, All, All-append, length,
  Option, some, ◌≡◌, inl, inr,
}
use lod.Prelude.Int.{ℤ}
use lod.Prelude.Text.{Text}
use lod.Packet
use lod.Packet.{TilePacket, Headers}
use lod.Cache.Backends.{
  Stores, entry, value, Deleted, deleted, was_absent, delete_failed, StoresFrames,
}
use lod.Cache.{
  Cache, Task, set_internal, set_external, set_both, invalidate_external, invalidate_rest,
  invalidate, set, run_task, run_tasks, run_background, flush_internal,
}

module _ (sum256 : List ℕ → List ℕ) (Right : Text → List ℕ → Type 0) where
  -- An encoded packet, whose body is right for the key.
  pub record IsRightPacket (key : Text) (t : TilePacket) : Type 0 where
    pub body : List ℕ
    pub stored : Headers
    pub encoded : t ≡ Packet.encode sum256 body stored
    pub right : Right key body
    pub short : length body < 2 ^ 32

  abbrev pub IsRightTask : Task → Type 0
  IsRightTask (set_internal key t) = IsRightPacket key t
  IsRightTask (set_external key t) = IsRightPacket key t
  IsRightTask (set_both key t) = IsRightPacket key t

  module _ {Opts : Type 0} {s : Stores} where
    pub record IsFaithful (c : Cache Opts s) : Type 0 where
      pub mem : (k : Text) (x : List ℕ) → s.mem_get k c.internal ≡ entry x → IsRightPacket k x
      pub redis :
          (k : Text) (t : ℤ) (x : List ℕ)
          → (s.redis_get_ex k t c.external).1 ≡ value (some x)
          → IsRightPacket k x
      pub tasks : All IsRightTask c.background

    module _ (frames : StoresFrames s) where
      pub external-IsFaithful :
          (c : Cache Opts s) (u : ℤ) (key : Text)
          → IsFaithful c
          → IsFaithful (record c { external = (s.redis_get_ex key u c.external).0 })
      external-IsFaithful c u key h = record {
        mem = h.mem;
        redis = λ k t x e. h.redis k t x (frames.redis_get_after_get k key x t u c.external e);
        tasks = h.tasks;
      }

      pub later-IsFaithful :
          (c : Cache Opts s) (t : Task)
          → IsFaithful c
          → IsRightTask t
          → IsFaithful (record c { background = c.background ++ t ∷ [] })
      later-IsFaithful c t h right = record {
        mem = h.mem;
        redis = h.redis;
        tasks = All-append IsRightTask c.background (t ∷ []) h.tasks (right, tt);
      }

      mem_set-right :
          (c : Cache Opts s) (key : Text) (t : TilePacket)
          → IsFaithful c
          → IsRightPacket key t
          → (k : Text) (x : List ℕ) → s.mem_get k (s.mem_set key t c.internal).0 ≡ entry x
          → IsRightPacket k x
      mem_set-right c key t h right k x e = elim (frames.mem_get_after_set k key t x c.internal e) [
        | inl (same, new) ↦ rw (same, new) right
        | inr old ↦ h.mem k x old
      ]

      pub set-IsFaithful :
          (c : Cache Opts s) (key : Text) (t : TilePacket) (internal_only : Bool)
          → IsFaithful c
          → IsRightPacket key t
          → IsFaithful (set key t internal_only c)
      unfolding set
      set-IsFaithful c key t internal_only h right = record {
        mem =
            if_both
              (λ (m : s.Mem). (k : Text) (x : List ℕ) → s.mem_get k m ≡ entry x → IsRightPacket k x)
              c.proxy.cache.mem_enabled (mem_set-right c key t h right) h.mem;
        redis = h.redis;
        tasks = All-append IsRightTask c.background _ h.tasks (
            if_both (All IsRightTask) (not internal_only && c.proxy.cache.redis_enabled) (right, tt)
              tt);
      }

      run_task-IsFaithful :
          (c : Cache Opts s) (t : Task) → IsFaithful c → IsRightTask t → IsFaithful (run_task t c)
      unfolding run_task
      run_task-IsFaithful c (set_internal key t) h right = set-IsFaithful c key t true h right
      run_task-IsFaithful c (set_both key t) h right = set-IsFaithful c key t false h right
      run_task-IsFaithful c (set_external key t) h right = record {
        mem = h.mem;
        redis = λ k u x e.
            elim (frames.redis_get_after_set k key t x u c.proxy.cache.redis_ttl_duration c.external
              e) [ inl (same, new) ↦ rw (same, new) right | inr old ↦ h.redis k u x old ];
        tasks = h.tasks;
      }

      run_tasks-IsFaithful :
          (ts : List Task) (c : Cache Opts s)
          → IsFaithful c
          → All IsRightTask ts
          → IsFaithful (run_tasks ts c)
      unfolding run_tasks
      run_tasks-IsFaithful [] c h right = h
      run_tasks-IsFaithful (t ∷ ts) c h right =
          run_tasks-IsFaithful ts (run_task t c) (run_task-IsFaithful c t h right.0) right.1

      pub run_background-IsFaithful :
          (c : Cache Opts s) → IsFaithful c → IsFaithful (run_background c)
      unfolding run_background
      run_background-IsFaithful c h =
          run_tasks-IsFaithful c.background (record c { background = [] })
            (record { mem = h.mem; redis = h.redis; tasks = tt }) h.tasks

      external_del-IsFaithful :
          (c : Cache Opts s) (key : Text) → IsFaithful c → IsFaithful (invalidate_external key c).0
      unfolding invalidate_external
      external_del-IsFaithful c key h =
          if_both (λ (x : Cache Opts s × Option Text). IsFaithful x.0) c.proxy.cache.redis_enabled
            (record {
              mem = h.mem;
              redis = λ k t x e. h.redis k t x (frames.redis_get_after_del k key x t c.external e);
              tasks = h.tasks;
            })
            h

      invalidate_rest-IsFaithful :
          (c : Cache Opts s) (key : Text) (reply : Deleted)
          → IsFaithful c
          → IsFaithful (invalidate_rest key reply c).0
      unfolding invalidate_rest
      invalidate_rest-IsFaithful c key deleted h = external_del-IsFaithful c key h
      invalidate_rest-IsFaithful c key was_absent h = external_del-IsFaithful c key h
      invalidate_rest-IsFaithful c key (delete_failed e) h = h

      pub invalidate-IsFaithful :
          (c : Cache Opts s) (key : Text) → IsFaithful c → IsFaithful (invalidate key c).0
      unfolding invalidate
      invalidate-IsFaithful c key h =
          if_both (λ (x : Cache Opts s × Option Text). IsFaithful x.0) c.proxy.cache.mem_enabled
            (invalidate_rest-IsFaithful (record c { internal = (s.mem_delete key c.internal).0 })
              key (s.mem_delete key c.internal).1
              (record {
                mem = λ k x e. h.mem k x (frames.mem_get_after_delete k key x c.internal e);
                redis = h.redis;
                tasks = h.tasks;
              }))
            (external_del-IsFaithful c key h)

      pub flush_internal-IsFaithful :
          (c : Cache Opts s) → IsFaithful c → IsFaithful (flush_internal c).0
      unfolding flush_internal
      flush_internal-IsFaithful c h =
          if_both (λ (x : Cache Opts s × Option Text). IsFaithful x.0) c.proxy.cache.mem_enabled
            (record {
              mem = λ k x e. h.mem k x (frames.mem_get_after_reset k x c.internal e);
              redis = h.redis;
              tasks = h.tasks;
            })
            h
