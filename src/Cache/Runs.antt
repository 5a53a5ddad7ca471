-- ===== src/Cache/Runs.antt =====
-- The theorems on the cache at concrete inputs.
use lod.Prelude.{
  ℕ, List, [], ◌∷◌, Bool, true, false, ok, panic, none, some, ◌≡◌, refl, inl, inr, Option, ◌⊎◌,
}
use lod.Prelude.Text.{Text, codes, text_eq}
use lod.Prelude.Dict.{lookup, insert, erase}
use lod.Packet
use lod.Packet.{Headers, validate, from_bytes, tile_data_size}
use lod.Cache.{
  Cache, invalidate_external, invalidate_rest, invalidate, set, run_task, run_tasks, run_background,
  encode_set, fetch,
}
use lod.Cache.Accounting.{IsAccounted, fetch-IsAccounted}
use lod.Cache.Backends.{entry, deleted, was_absent}
use lod.Cache.Samples.{
  delete_reply, toy_sum, toy_sum-sized, Entries, dictionaries, dictionaries-StoresLaws, proxy,
}
use lod.Cache.Registry.{
  Builders, Registry, keep_configured, wipe_old_caches, open_internal, open_external, register,
  build_proxy, build_instance, init_from, init, get,
}
use lod.Cache.Writing.{fetch-encode_set, fetch_corrupted, fetch_read_through, fetch-invalidate}

abbrev cache : Bool → Bool → Entries → Entries → Cache (Unit {0}) dictionaries
cache mem redis internal external = record {
  proxy = proxy mem redis;
  internal = internal;
  external = external;
  hits = 4;
  misses = 2;
  background = [];
}

abbrev key : Text
key = codes "3/1/2"

abbrev tile : List ℕ
tile = 26 ∷ 200 ∷ 0 ∷ []

abbrev headers : Headers
headers = (codes "Content-Type", codes "image/png") ∷ []

abbrev packet : List ℕ
packet = Packet.encode toy_sum tile headers

maps : Unit {0}
unfolding lookup insert erase text_eq
maps = tt

-- A set fills both levels, Redis when the goroutine has run.
set_run :
    (run_background (set key (7 ∷ []) false (cache true true [] []))).external ≡ (key, 7 ∷ []) ∷ []
unfolding maps set run_task run_tasks run_background
set_run = refl

-- An invalidation of a key that the memory store does not hold goes on to Redis.
invalidate_run : (invalidate key (cache true true [] ((key, 7 ∷ []) ∷ []))).0.external ≡ []
unfolding maps invalidate invalidate_rest invalidate_external
invalidate_run = refl

abbrev both : Cache (Unit {0}) dictionaries
both = cache true true [] []

fetch-encode_set_example :
    ((fetch toy_sum key (encode_set toy_sum key tile headers both)).tile ≡ ok (some packet))
    × ((fetch toy_sum key (encode_set toy_sum key tile headers both)).status
        ≡ some (codes ":hit-i"))
    × ((fetch toy_sum key (encode_set toy_sum key tile headers both)).cache.hits ≡ 5)
    × ((fetch toy_sum key (encode_set toy_sum key tile headers both)).cache.misses ≡ 2)
fetch-encode_set_example =
    fetch-encode_set dictionaries-StoresLaws toy_sum toy_sum-sized key tile headers both refl refl

abbrev external_only : Cache (Unit {0}) dictionaries
external_only = cache true true [] ((key, packet) ∷ [])

fetch_read_through_example :
    dictionaries.mem_get key (run_background (fetch toy_sum key external_only).cache).internal
    ≡ entry packet
unfolding maps
fetch_read_through_example =
    fetch_read_through dictionaries-StoresLaws toy_sum toy_sum-sized key tile headers external_only
      refl refl refl refl refl refl

abbrev filled : Cache (Unit {0}) dictionaries
filled = cache true true ((key, packet) ∷ []) ((key, packet) ∷ [])

fetch-invalidate_example :
    ((fetch toy_sum key (invalidate key filled).0).tile ≡ ok none)
    × ((fetch toy_sum key (invalidate key filled).0).status ≡ none)
    × ((fetch toy_sum key (invalidate key filled).0).cache.misses ≡ 3)
unfolding maps invalidate invalidate_rest invalidate_external
fetch-invalidate_example = fetch-invalidate dictionaries-StoresLaws toy_sum key filled refl

fetch-IsAccounted_example : IsAccounted toy_sum key filled (fetch toy_sum key filled)
fetch-IsAccounted_example = fetch-IsAccounted toy_sum key filled

abbrev corrupted : Cache (Unit {0}) dictionaries
corrupted = cache true true ((key, 1 ∷ 2 ∷ []) ∷ []) ((key, 1 ∷ 2 ∷ []) ∷ [])

deletes : (o : Option (List ℕ)) → (delete_reply o ≡ deleted) ⊎ (delete_reply o ≡ was_absent)
deletes none = inr refl
deletes (some bytes) = inl refl

fetch_corrupted_example :
    (let first = fetch toy_sum key corrupted in
      let next = fetch toy_sum key first.cache in
      (first.tile ≡ ok none)
      × (first.status ≡ some (codes ":hit-i"))
      × (next.tile ≡ ok none)
      × (next.status ≡ none)
      × (next.cache.misses ≡ 3))
unfolding maps validate
fetch_corrupted_example =
    fetch_corrupted dictionaries-StoresLaws toy_sum key (codes ":hit-i") (1 ∷ 2 ∷ []) corrupted
      (λ m. deletes (lookup key m)) (λ r. refl) (inl (refl, refl, refl)) refl

abbrev builders : Builders (Unit {0}) dictionaries
builders = record {
  new_internal = λ p. ok [];
  new_external = λ p. ok [];
  no_internal = [];
  no_external = [];
}

-- A registry with a cache of a proxy that is no longer configured.
abbrev registry : Registry (Unit {0}) dictionaries
registry = record { caches = (codes "old", both) ∷ []; registered = codes "old" ∷ [] }

registries : Unit {0}
unfolding maps get keep_configured wipe_old_caches open_internal open_external register build_proxy
    build_instance init_from init
registries = tt

old_run : get (codes "old") (init builders (proxy true true ∷ []) registry).0 ≡ none
unfolding registries
old_run = refl

-- A proxy whose metrics are registered and whose cache is gone cannot be built again.
again_run :
    (init builders (proxy true true ∷ []) (record { caches = []; registered = codes "osm" ∷ [] })).1
    ≡ panic
unfolding registries
again_run = refl
