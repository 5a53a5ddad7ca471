-- ===== src/Handlers/Admin/Runs.antt =====
-- The theorems on the administration at concrete inputs: a tile that a worker primes, an invalidation, a
-- flush and a reload.
use lod.Prelude.{
  ℕ, ◌+◌, ◌*◌, ◌≤◌, List, [], ◌∷◌, true, false, Result, ok, Option, none, some, ◌≡◌, ◌⊎◌, inl, inr,
  refl, arith, All, length, subst, Bool-cases,
}
use lod.Prelude.Int.{ℤ, pos}
use lod.Prelude.Text.{Text, codes, text_eq}
use lod.Prelude.Dict.{lookup, insert, erase}
use lod.Prelude.Strings.{
  contains, has_prefix, replace_from, replace_all, digits_loop, decimal, itoa,
}
use lod.Tile
use lod.Tile.{Tile, Returns, here, next, sent, appended, returned, start, spawned, inject_string}
use lod.Cache.Backends.{deleted, was_absent, not_found, value}
use lod.Cache.{Cache, invalidate, invalidate_rest, invalidate_external, flush_internal}
use lod.Cache.Registry.{Registry, get}
use lod.Cache.Samples.{
  toy_sum, dictionaries, delete_reply, dictionaries-StoresLaws, dictionaries-StoresFrames,
}
use lod.Helpers.{fill_from, fill_params_map, substitute, key_of, build_cache_key}
use lod.Helpers.Upstream.{
  fetch_upstream, is_tile, write_data, cache_later, after_write, process_response,
}
use lod.Helpers.Urls.{url_of, build_tile_url}
use lod.Config.{Proxy}
use lod.Cache.Faithful.{IsFaithful}
use lod.Handlers.Proxy.Faithful.{IsRightResponse}
use lod.Handlers.Admin.Serving.{AreFaithful, Serves-AreFaithful}
use lod.Handlers.Samples.{tile, plain_fiber, blank, server, typed, with_query, request, cold}
use lod.Handlers.Admin.Workers
use lod.Handlers.Admin.Workers.{
  Primer, start_workers, Run, HasEnded, submits, receives, finishes, leaves, names_of,
  after_response, after_upstream, after_names, settle, turn,
}
use lod.Handlers.Admin.Priming.{steps, priming-ends}
use lod.Handlers.Admin.Tally.{good}
use lod.Handlers.Admin.Staff.{bad, primed_all}
use lod.Handlers.Admin.Tiles.{
  Serves, invalidates, replied, report, prepare, prepare_cache, prepare_tile, prepare_zoom,
  invalidate_tile, prime_tile, primes, invalidate_all, put, after_invalidation,
}
use lod.Handlers.Admin.Invalidation.{IsGone, invalidation-serves}
use lod.Handlers.Admin.Endpoints.{
  status_ok, flush_failed, flush_found, flush_cache, flush_on, flush_all, after_flush, flush,
}
use lod.Handlers.Admin.Flushing.{IsServed}
use lod.Handlers.Admin.Emptied.{flush_all-empties}

abbrev leaf : Tile
leaf = record { x = pos 1; y = pos 2; zoom = pos 3 }

texts : Unit {0}
unfolding text_eq has_prefix contains replace_from replace_all digits_loop decimal itoa
    inject_string Tile.get key_of build_cache_key substitute fill_from fill_params_map url_of
    build_tile_url lookup insert erase
texts = tt

turns : Unit {0}
unfolding texts fetch_upstream is_tile write_data cache_later after_write process_response names_of
    after_response after_upstream after_names settle turn start_workers
turns = tt

-- The cache of a proxy with one worker.
abbrev lone : Proxy (Unit {0})
lone = record typed { num_workers = pos 1 }

abbrev single : Cache (Unit {0}) dictionaries
single = record cold { proxy = lone }

abbrev at_start : Primer (Unit {0}) dictionaries plain_fiber
at_start = start_workers 1 (leaf ∷ []) blank single

abbrev at_end : Primer (Unit {0}) dictionaries plain_fiber
at_end =
    let (outcome, reply, c) = turn toy_sum server with_query lone request leaf blank single in
    record {
      unsent = [];
      jobs = [];
      idle = 0;
      busy = [];
      successes = 1;
      down = false;
      reply = reply;
      cache = c;
    }

primed_run : Run toy_sum server with_query lone request at_start at_end
unfolding turns
primed_run = Workers.next (submits leaf [] refl refl refl) (
    Workers.next (receives leaf [] 0 refl refl refl refl) (
      Workers.next (finishes [] [] leaf refl refl refl)
        (Workers.next (leaves 0 refl refl refl refl refl) Workers.here)))

priming-ends_example :
    (steps toy_sum server with_query lone request primed_run ≤ 3 * 1 + 1)
    × ((q : Primer (Unit {0}) dictionaries plain_fiber) × Run toy_sum server with_query lone request
          at_end q
        × (HasEnded q ⊎ (q.down ≡ true)))
priming-ends_example =
    priming-ends toy_sum server with_query lone request 1 (leaf ∷ []) blank single primed_run

primed_all_example :
    at_end.successes ≡ good toy_sum server with_query lone request blank single (leaf ∷ [])
unfolding turns bad
primed_all_example =
    primed_all toy_sum server with_query lone request blank single 1 (leaf ∷ []) primed_run
      (record { running = refl; sent = refl; none_idle = refl; none_busy = refl }) (omega arith)

-- A registry whose one cache has the tile in its memory store.
abbrev warm : Cache (Unit {0}) dictionaries
warm = record cold { internal = (codes "3/1/2", 1 ∷ []) ∷ [] }

abbrev registry : Registry (Unit {0}) dictionaries
registry = record { caches = (codes "osm", warm) ∷ []; registered = codes "osm" ∷ [] }

abbrev params_int_or : Text → ℤ → Result Text ℤ
params_int_or name default = ok default

-- A run of `DeepChildren` in which the tile is collected in time.
found : Returns (pos 0) leaf (leaf ∷ [])
unfolding start spawned
found = record {
  final = record { jobs = []; hand = none; tiles = leaf ∷ [] };
  run =
      next (sent [] [] leaf refl refl refl)
        (next (appended leaf refl refl) (next (returned [] [] leaf refl refl) here));
  idle = refl;
  result = refl;
}

delete_succeeds : (o : Option (List ℕ)) → (delete_reply o ≡ deleted) ⊎ (delete_reply o ≡ was_absent)
delete_succeeds none = inr refl
delete_succeeds (some bytes) = inl refl

serving : Unit {0}
unfolding texts get prepare prepare_cache prepare_tile prepare_zoom invalidate_tile invalidate_all
    invalidate invalidate_rest invalidate_external put after_invalidation
serving = tt

served :
    Serves params_int_or toy_sum server with_query invalidate_tile
      (codes "osm")
      request
      blank
      registry
      (replied (report 1 1 blank))
      (record registry { caches = (codes "osm", cold) ∷ [] })
unfolding serving
served = invalidates warm request leaf (pos 0) (leaf ∷ []) refl refl found (refl, refl)

invalidation-serves_example :
    (tiles : List Tile) × (c' : Cache (Unit {0}) dictionaries) × Returns (pos 0) leaf tiles
    × (replied (report 1 1 blank) ≡ replied (report (length tiles) (length tiles) blank))
    × (get (codes "osm") (record registry { caches = (codes "osm", cold) ∷ [] }) ≡ some c')
    × All (λ u. IsGone (key_of typed request u) c') tiles
unfolding serving
invalidation-serves_example =
    invalidation-serves dictionaries-StoresLaws dictionaries-StoresFrames
      (λ k m. delete_succeeds (lookup k m)) params_int_or toy_sum server with_query invalidate_tile
      (codes "osm") request blank registry (record registry { caches = (codes "osm", cold) ∷ [] })
      (replied (report 1 1 blank)) warm request leaf (pos 0) refl refl refl served

registry-IsServed : IsServed (typed ∷ []) registry
unfolding get lookup
registry-IsServed name listed missing = ground arith

flushing : Unit {0}
unfolding texts get put flush_internal flush_found flush_cache flush_on flush_all after_flush flush
flushing = tt

flush_all-empties_example :
    ((e : Text) × ((flush (typed ∷ []) (codes "/admin/flush") none blank registry).0
        ≡ ok (flush_failed e blank)))
    ⊎ (((flush (typed ∷ []) (codes "/admin/flush") none blank registry).0 ≡ ok (status_ok blank))
        × (dictionaries.mem_get (codes "3/1/2") [] ≡ not_found))
unfolding flushing
flush_all-empties_example =
    flush_all-empties dictionaries-StoresLaws (typed ∷ []) none blank registry (codes "osm") cold
      (codes "3/1/2") registry-IsServed refl refl refl

-- Right is the one tile that the server has, under any key.
abbrev Right : Text → Text → List ℕ → Type 0
Right name key body = body ≡ tile

abbrev alone : Registry (Unit {0}) dictionaries
alone = record { caches = (codes "osm", single) ∷ []; registered = codes "osm" ∷ [] }

single-IsFaithful : (name : Text) → IsFaithful toy_sum (Right name) single
unfolding texts
single-IsFaithful name = record {
  mem = λ k x h. absurd (cc);
  redis = λ k t x h. absurd (nothing k x h);
  tasks = tt;
}
  where
    nothing :
        (k : Text) (x : List ℕ) → (dictionaries.redis_get_ex k (pos 0) []).1 ≡ value (some x) → ⊥
    nothing k x h = ground arith

alone-AreFaithful : AreFaithful toy_sum Right alone
unfolding get lookup
alone-AreFaithful name c e = elim (Bool-cases (text_eq (codes "osm") name)) [
  | inl same ↦ subst (IsFaithful toy_sum (Right name)) (cc (rw same at e)) (single-IsFaithful name)
  | inr differs ↦ absurd (cc (rw differs at e))
]

server-right :
    (url key : Text) → IsRightResponse (Right (codes "osm")) key (fetch_upstream server url lone)
unfolding fetch_upstream
server-right url key = elim (Bool-cases (text_eq url (codes "https://t/3/1/2.pbf"))) [
  | inl same ↦ rw same (λ success. (refl, omega arith))
  | inr differs ↦ rw differs tt
]

primed :
    Serves params_int_or toy_sum server with_query prime_tile
      (codes "osm")
      request
      blank
      alone
      (replied (report 1 1 at_end.reply))
      (put (codes "osm") at_end.cache alone)
unfolding serving turns prime_tile
primed =
    primes single request leaf (pos 0) (leaf ∷ []) 1 at_end refl refl found refl primed_run
      (record { running = refl; sent = refl; none_idle = refl; none_busy = refl }) refl refl

Serves-AreFaithful_example : AreFaithful toy_sum Right (put (codes "osm") at_end.cache alone)
unfolding serving prime_tile
Serves-AreFaithful_example =
    Serves-AreFaithful dictionaries-StoresFrames params_int_or toy_sum Right server with_query
      prime_tile (codes "osm") request blank alone (put (codes "osm") at_end.cache alone)
      (replied (report 1 1 at_end.reply)) alone-AreFaithful
      (λ c ctx' t u z e url key names.
        let same : single ≡ c = cc e in
        subst
          (λ (d : Cache (Unit {0}) dictionaries).
            IsRightResponse (Right (codes "osm")) key (fetch_upstream server url d.proxy))
          same (server-right url key))
      primed
