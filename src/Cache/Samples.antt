-- ===== src/Cache/Samples.antt =====
-- Concrete stores for the runs: dictionaries that never fail, but for the key "down" in Redis; and a
-- proxy. `toy_sum` stands for SHA-256: 32 copies of the number of bytes modulo 256.
use lod.Prelude.{
  ℕ, ◌%◌, List, [], Bool, true, false, if◌then◌else◌, Option, none, some, length, replicate,
  length-replicate, ◌≡◌, ◌⊎◌, inl, inr, refl, arith, Bool-cases, sym,
}
use lod.Prelude.Int.{pos}
use lod.Prelude.Text.{Text, codes, text_eq, text_eq_refl, eq_of_text_eq}
use lod.Prelude.Dict.{lookup, insert, erase, lookup-insert, lookup-erase}
use lod.Config.{Proxy}
use lod.Cache.Backends.{
  Stores, StoresLaws, StoresFrames, MemReply, entry, not_found, RedisReply, value, redis_nil,
  redis_failed, Deleted, deleted, was_absent,
}

unfoldable pub toy_sum : List ℕ → List ℕ
toy_sum bs = replicate 32 (length bs % 256)

pub toy_sum-sized : (bs : List ℕ) → length (toy_sum bs) ≡ 32
unfolding toy_sum
toy_sum-sized bs = length-replicate 32 (length bs % 256)

abbrev pub Entries : Type 0
Entries = List (Text × List ℕ)

abbrev pub mem_reply : Option (List ℕ) → MemReply
mem_reply none = not_found
mem_reply (some bytes) = entry bytes

abbrev pub redis_reply : Option (List ℕ) → RedisReply
redis_reply none = redis_nil
redis_reply (some bytes) = value (some bytes)

abbrev pub delete_reply : Option (List ℕ) → Deleted
delete_reply none = was_absent
delete_reply (some bytes) = deleted

abbrev pub down : Text
down = codes "down"

abbrev pub failure : Text → Option Text
failure key = if text_eq key down then some (codes "io timeout") else none

abbrev pub dictionaries : Stores
dictionaries = record {
  Mem = Entries;
  mem_get = λ key m. mem_reply (lookup key m);
  mem_set = λ key bytes m. (insert key bytes m, none);
  mem_delete = λ key m. (erase key m, delete_reply (lookup key m));
  mem_reset = λ m. ([], none);
  Redis = Entries;
  redis_get_ex = λ key ttl r. (
    r,
    if text_eq key down then redis_failed (codes "io timeout") else redis_reply (lookup key r),
  );
  redis_set = λ key bytes ttl r. (insert key bytes r, failure key);
  redis_del = λ key r. (erase key r, failure key);
}

pub dictionaries-StoresLaws : StoresLaws dictionaries
unfolding lookup
dictionaries-StoresLaws = record {
  mem_get-mem_set = λ k b m h. rw (lookup-insert k k b m, text_eq_refl k) refl;
  mem_get-mem_delete = λ k m h. rw (lookup-erase k k m, text_eq_refl k) refl;
  mem_get-mem_reset = λ k m h. refl;
  redis_get_ex-redis_set =
      λ k b ttl ttl' r h. rw (lookup-insert k k b r, text_eq_refl k) (ground arith);
  redis_get_ex-redis_del = λ k ttl r h. rw (lookup-erase k k r, text_eq_refl k) (ground arith);
}

-- A proxy with the two levels on or off.
abbrev pub proxy : Bool → Bool → Proxy (Unit {0})
proxy mem redis = record {
  name = codes "osm";
  tile_url = codes "https://t/{z}/{x}/{y}.pbf";
  has_endpoint_param = false;
  cors_origins = [];
  pull_headers = none;
  delete_headers = [];
  add_headers = [];
  access_token = [];
  num_workers = pos 8;
  params = [];
  cache = record {
    mem_enabled = mem;
    mem_cap = pos 1000;
    mem_ttl = codes "1h";
    mem_ttl_duration = pos 3600;
    redis_enabled = redis;
    redis_ttl = [];
    redis_ttl_duration = pos 0;
    redis_url = codes "redis://r";
    redis_tls = false;
    redis_opts = none;
    key_template = codes "{z}/{x}/{y}";
  };
}

-- What a dictionary holds after an insertion was inserted, or was there.
inserted :
    (k j : Text) (b x : List ℕ) (m : Entries)
    → lookup k (insert j b m) ≡ some x
    → ((k ≡ j) × (x ≡ b)) ⊎ (lookup k m ≡ some x)
inserted k j b x m h = elim (Bool-cases (text_eq j k)) [
  | inl same ↦ inl (sym (eq_of_text_eq j k same), ground (arith, lookup-insert j k b m))
  | inr other ↦ inr (ground (arith, lookup-insert j k b m))
]

erased :
    (k j : Text) (x : List ℕ) (m : Entries) → lookup k (erase j m) ≡ some x → lookup k m ≡ some x
erased k j x m h = ground (arith, lookup-erase j k m)

entry_of : (o : Option (List ℕ)) (x : List ℕ) → mem_reply o ≡ entry x → o ≡ some x
entry_of none x h = absurd (cc)
entry_of (some b) x h = cc

value_of :
    (d : Bool) (o : Option (List ℕ)) (x : List ℕ)
    → (if d then redis_failed (codes "io timeout") else redis_reply o) ≡ value (some x)
    → (d ≡ false) × (o ≡ some x)
value_of true o x h = absurd (cc)
value_of false none x h = absurd (cc)
value_of false (some b) x h = (refl, cc)

value_kept :
    (k : Text) (o q : Option (List ℕ)) (x : List ℕ)
    → (o ≡ some x → q ≡ some x)
    → (if text_eq k down then redis_failed (codes "io timeout") else redis_reply o) ≡ value (some x)
    → (if text_eq k down then redis_failed (codes "io timeout") else redis_reply q) ≡ value (some x)
value_kept k o q x step h =
    let (up, held) = value_of (text_eq k down) o x h in rw (up, step held) refl

pub dictionaries-StoresFrames : StoresFrames dictionaries
unfolding lookup
dictionaries-StoresFrames = record {
  mem_get_after_set = λ k j b x m h.
      elim (inserted k j b x m (entry_of (lookup k (insert j b m)) x h)) [
        | inl new ↦ inl new
        | inr old ↦ inr (rw old refl)
      ];
  mem_get_after_delete =
      λ k j x m h. rw (erased k j x m (entry_of (lookup k (erase j m)) x h)) refl;
  mem_get_after_reset = λ k x m h. absurd (nothing k x h);
  redis_get_after_set = λ k j b x t u r h.
      let (up, held) = value_of (text_eq k down) (lookup k (insert j b r)) x h in
      elim (inserted k j b x r held) [ inl new ↦ inl new | inr old ↦ inr (rw (up, old) refl) ];
  redis_get_after_get = λ k j x t u r h. h;
  redis_get_after_del =
      λ k j x t r h. value_kept k (lookup k (erase j r)) (lookup k r) x (erased k j x r) h;
}
  where
    nothing : (k : Text) (x : List ℕ) → mem_reply (lookup k []) ≡ entry x → ⊥
    nothing k x h = cc
