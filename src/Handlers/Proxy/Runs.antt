-- ===== src/Handlers/Proxy/Runs.antt =====
-- The theorems on the handler of tiles at concrete inputs: a proxy, a tile server that has one tile, and
-- a reply whose headers are a list.
use lod.Prelude.{
  ℕ, inr, List, [], ◌∷◌, ◌≡◌, refl, true, false, Bool, All, ok, err, ok-injective, subst, some,
  arith,
}
use lod.Prelude.Int.{pos}
use lod.Prelude.Text.{Text, codes, text_eq}
use lod.Prelude.Dict.{lookup, insert, erase}
use lod.Prelude.Strings.{
  contains, has_prefix, replace_from, replace_all, digits_loop, decimal, itoa,
}
use lod.Config.Messages.{do_pull_headers, do_delete_headers, pull_from}
use lod.Tile
use lod.Tile.{inject_string}
use lod.Cache.Backends.{value}
use lod.Cache.{run_background}
use lod.Cache.Samples.{
  toy_sum, toy_sum-sized, dictionaries, dictionaries-StoresLaws, dictionaries-StoresFrames,
}
use lod.Cache.Faithful.{IsFaithful}
use lod.Helpers.{fill_from, fill_params_map, substitute, key_of, build_cache_key}
use lod.Helpers.Upstream.{fetch_upstream}
use lod.Helpers.Urls.{url_of, build_tile_url}
use lod.Handlers.Samples.{
  plain_fiber, blank, tile, answer, server, typed, with_query, request, cold,
}
use lod.Handlers.Proxy.{leads, joins, build_key_and_url, set_headers, handle}
use lod.Handlers.Proxy.Faithful.{IsRightFlight}
use lod.Handlers.Proxy.Hits.{pulled, IsServed, IsAnswer, miss_then_hit}
use lod.Handlers.Proxy.Transparent.{
  named, Event, requests, finishes, invalidates, flushes, IsRightOutcome, replies, replies_refine,
  IsRightFor,
}

texts : Unit {0}
unfolding text_eq has_prefix contains replace_from replace_all digits_loop decimal itoa
    inject_string Tile.get key_of build_cache_key substitute fill_from fill_params_map url_of
    build_tile_url build_key_and_url lookup insert erase do_pull_headers pull_from
texts = tt

named_run : named with_query typed request ≡ ok (codes "https://t/3/1/2.pbf", codes "3/1/2")
unfolding texts
named_run = refl

served : IsServed with_query typed request blank (codes "https://t/3/1/2.pbf") (codes "3/1/2")
unfolding texts
served = record { name = refl; empty = refl; writes = λ bytes. refl }

answered : IsAnswer server typed (codes "https://t/3/1/2.pbf") answer
unfolding texts
answered = record {
  parses = refl;
  bytes = refl;
  tile = inr (refl, omega arith);
  encodable = record {
    dict = (refl, tt);
    short = omega arith;
    few = omega arith;
    sized = omega arith;
  };
}

miss_then_hit_example :
    let first = handle toy_sum server with_query typed request (leads false) blank cold in
    let second =
      handle toy_sum server with_query typed request
        (joins (err (codes "timeout")))
        blank
        (run_background first.cache) in
    (first.status ≡ some (codes ":miss "))
    × (first.reply
        ≡ ok (record blank {
          body = tile;
          headers = do_delete_headers typed plain_fiber.del_header [];
        }))
    × (second.status ≡ some (codes ":hit-i"))
    × (second.reply
        ≡ ok (record blank {
          body = tile;
          headers =
              do_delete_headers typed plain_fiber.del_header
                (set_headers plain_fiber (pulled server typed) []);
        }))
unfolding texts
miss_then_hit_example =
    miss_then_hit toy_sum toy_sum-sized server with_query typed request blank
      (codes "https://t/3/1/2.pbf") (codes "3/1/2") served dictionaries-StoresLaws cold answer
      (joins (err (codes "timeout"))) refl refl refl refl answered refl

-- What is right for a key: the tile under the key of the tile 3/1/2, and nothing else.
abbrev Right : Text → List ℕ → Type 0
Right key body = (key ≡ codes "3/1/2") × (body ≡ tile)

cold-IsFaithful : IsFaithful toy_sum Right cold
unfolding texts
cold-IsFaithful = record {
  mem = λ k x h. absurd (cc);
  redis = λ k t x h. absurd (nothing k x h);
  tasks = tt;
}
  where
    nothing :
        (k : Text) (x : List ℕ) → (dictionaries.redis_get_ex k (pos 0) []).1 ≡ value (some x) → ⊥
    nothing k x h = ground arith

abbrev events : List Event
events =
    requests request (leads false)
    ∷ finishes
    ∷ requests request (joins (err (codes "timeout")))
    ∷ invalidates (codes "3/1/2")
    ∷ flushes
    ∷ requests request (leads true)
    ∷ []

-- A fetch of the server gives the tile 3/1/2 to its key.
led : (shared : Bool) → IsRightFor Right server with_query typed request (leads shared)
unfolding texts fetch_upstream
led shared tile_url key e =
    subst (λ (n : Text × Text). IsRightFlight Right server typed n.0 n.1 (leads shared))
      (ok-injective e) (λ t. ((refl, refl), omega arith))

replies_refine_example :
    All
      (IsRightOutcome Right with_query typed)
      (replies toy_sum server with_query typed blank events cold)
unfolding texts
replies_refine_example =
    replies_refine dictionaries-StoresFrames toy_sum toy_sum-sized Right server with_query typed
      blank refl events cold cold-IsFaithful
      (led false, (tt, ((λ url key e. tt), (tt, (tt, (led true, tt))))))
