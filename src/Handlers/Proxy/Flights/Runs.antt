-- ===== src/Handlers/Proxy/Flights/Runs.antt =====
-- Concurrent requests (www/handlers/proxy/proxy.go) at concrete inputs: two proxies that have the same
-- template of keys, and a tile server that has one tile.
use lod.Prelude.{
  sym, ◌∙◌, ℕ, zero, suc, ◌+◌, ◌==◌, ◌≤◌, ◌<◌, List, [], ◌∷◌, ◌++◌, if◌then◌else◌, Bool, true,
  false, Result, ok, ok-injective, Option, none, some, ◌≡◌, ◌≢◌, refl, subst, arith,
}
use lod.Prelude.Int.{pos}
use lod.Prelude.Text.{Text, codes, text_eq, text_eq_refl, text_eq_iff}
use lod.Prelude.Strings.{
  contains, has_prefix, replace_from, replace_all, digits_loop, decimal, itoa,
}
use lod.Config.{Proxy}
use lod.Tile
use lod.Tile.{inject_string}
use lod.Cache.Backends.{value}
use lod.Cache.{fetch, mem_answer, fetch_external, miss}
use lod.Prelude.Dict.{lookup}
use lod.Cache.Samples.{toy_sum, toy_sum-sized, dictionaries, dictionaries-StoresFrames}
use lod.Cache.Faithful.{IsFaithful}
use lod.Helpers.{fill_from, fill_params_map, substitute, key_of, build_cache_key}
use lod.Helpers.Upstream.{fetch_upstream, is_tile, write_data, after_write, process_response}
use lod.Helpers.Urls.{url_of, build_tile_url}
use lod.Web.{Reply}
use lod.Handlers.Samples.{
  plain_fiber, blank, tile, answer, server, typed, with_query, request, cold,
}
use lod.Handlers.Proxy.{build_key_and_url, after_process, after_flight}
use lod.Handlers.Proxy.Faithful.{IsRightResponse}
use lod.Handlers.Proxy.Transparent.{named, IsRightOutcome}
use lod.Handlers.Proxy.Flights.{
  FlightGroup, FlightGroupLaws, Call, Server, fetches, done, Turn, runs, takes_off, begins,
  looked_up, lands, joins, answers, advance, turn, run, opened,
}
use lod.Handlers.Proxy.Flights.Faithful.{flights_refine}
use lod.Handlers.Proxy.Flights.Crossed.{IsGiven, waits-IsGiven, leaves-two_fetch}
use lod.Handlers.Proxy.Flights.Counting.{calling, forgotten_in}
use lod.Handlers.Proxy.Flights.Single.{callers-at_most}
use lod.Handlers.Proxy.Flights.Rounds.{IsRound, play, rounds-done}

-- A flight group that is the map of its calls.
abbrev toy_group : FlightGroup
toy_group = record {
  Calls = Text → Option ℕ;
  empty = λ k. none;
  under_way = λ k calls. calls k;
  begin_call = λ key i calls k. if text_eq k key then some i else calls k;
  end_call = λ key i calls k. if text_eq k key then none else calls k;
  forget = λ key calls k. if text_eq k key then none else calls k;
}

toy_group-Laws : FlightGroupLaws toy_group
toy_group-Laws = record {
  none_at_first = λ k. refl;
  begins = λ key i calls. rw (text_eq_refl key) refl;
  begins_alone = λ key k i calls other. rw (ne_text_eq k key other) refl;
  ends = λ key i j calls h. absurd (ended_none key i j calls h);
  ends_alone = λ key k i calls other. rw (ne_text_eq k key other) refl;
  forgotten = λ key calls. rw (text_eq_refl key) refl;
  forgotten_alone = λ key k calls other. rw (ne_text_eq k key other) refl;
}
  where
    ne_text_eq : (k key : Text) → k ≢ key → text_eq k key ≡ false
    ne_text_eq k key other = ground (arith, text_eq_iff k key)

    ended_none :
        (key : Text) (i j : ℕ) (calls : Text → Option ℕ)
        → toy_group.under_way key (toy_group.end_call key i calls) ≡ some j
        → ⊥
    ended_none key i j calls h = ground (arith, text_eq_refl key)

abbrev other : Proxy (Unit {0})
other = record typed { tile_url = codes "https://u/{z}/{x}/{y}.pbf" }

abbrev proxies : ℕ → Proxy (Unit {0})
proxies n = if n == 0 then typed else other

-- The second request is to the other proxy.
abbrev calls : ℕ → Call
calls i = record { proxy = if i == 1 then 1 else 0; ctx = request; agent = server }

abbrev calls_of_one : ℕ → Call
calls_of_one i = record { proxy = 0; ctx = request; agent = server }

abbrev start : Server (Unit {0}) dictionaries plain_fiber toy_group
start = opened (λ n. cold)

abbrev both_missed : Server (Unit {0}) dictionaries plain_fiber toy_group
both_missed =
    run toy_sum with_query proxies calls blank (runs 0 false ∷ runs 0 false ∷ runs 1 false ∷ [])
      start

texts : Unit {0}
unfolding text_eq has_prefix contains replace_from replace_all digits_loop decimal itoa
    inject_string Tile.get key_of build_cache_key substitute fill_from fill_params_map url_of
    build_tile_url build_key_and_url fetch_upstream begins looked_up takes_off lands joins answers
    advance turn run fetch mem_answer fetch_external miss lookup after_flight after_process
    process_response is_tile after_write write_data
texts = tt

fetching : both_missed.stage 0 ≡ fetches (codes "https://t/3/1/2.pbf") (codes "3/1/2")
unfolding texts
fetching = refl

apart : ◌≢◌ {A = ℕ} 0 1
apart e = omega arith

waits-IsGiven_example :
    IsGiven toy_sum with_query proxies calls blank 1
      (codes "3/1/2")
      (record answer { resp = server.blank })
      both_missed
      (run toy_sum with_query proxies calls blank
        (runs 1 false ∷ runs 0 true ∷ runs 1 false ∷ runs 1 false ∷ [])
        both_missed)
unfolding texts
waits-IsGiven_example =
    waits-IsGiven toy_sum with_query proxies calls blank 0 1 (codes "https://t/3/1/2.pbf")
      (codes "https://u/3/1/2.pbf") (codes "3/1/2") (record answer { resp = server.blank }) false
      true false false both_missed apart refl refl refl refl refl refl refl

-- The first request is about to return, the third is in its call, and the fourth has missed.
abbrev outlived : Server (Unit {0}) dictionaries plain_fiber toy_group
outlived =
    run toy_sum with_query proxies calls blank
      (runs 0 false
        ∷ runs 2 false
        ∷ runs 3 false
        ∷ runs 0 false
        ∷ runs 0 false
        ∷ runs 0 false
        ∷ runs 2 false
        ∷ [])
      start

leaves-two_fetch_example :
    let st' =
      run toy_sum with_query proxies calls blank (runs 0 false ∷ runs 3 false ∷ []) outlived in
    (st'.stage 2 ≡ fetches (codes "https://t/3/1/2.pbf") (codes "3/1/2"))
    × (st'.stage 3 ≡ fetches (codes "https://t/3/1/2.pbf") (codes "3/1/2"))
    × ((m : ℕ) → st'.group (codes "3/1/2") ≡ some m → m ≡ 3)
unfolding texts
leaves-two_fetch_example =
    leaves-two_fetch toy_sum with_query proxies calls blank toy_group-Laws 0 2 3 (codes "3/1/2")
      (codes "https://t/3/1/2.pbf") (codes "https://t/3/1/2.pbf") (some (codes ":miss ")) _ false
      false outlived (λ e. omega arith) (λ e. omega arith) (λ e. omega arith) refl refl refl

-- What is right for a key: the tile under the key of the tile 3/1/2, and nothing else.
abbrev Right : ℕ → Text → List ℕ → Type 0
Right n key body = (key ≡ codes "3/1/2") × (body ≡ tile)

cold-IsFaithful : (n : ℕ) → IsFaithful toy_sum (Right n) cold
unfolding lookup
cold-IsFaithful n = record {
  mem = λ k x h. absurd (cc);
  redis = λ k t x h. absurd (nothing k x h);
  tasks = tt;
}
  where
    nothing :
        (k : Text) (x : List ℕ) → (dictionaries.redis_get_ex k (pos 0) []).1 ≡ value (some x) → ⊥
    nothing k x h = ground arith

answered :
    (p : Proxy (Unit {0})) (own : Text)
    → named with_query p request ≡ ok (own, codes "3/1/2")
    → IsRightResponse (Right 0) (codes "3/1/2") (fetch_upstream server own p)
    → (tile_url key : Text) → named with_query p request ≡ ok (tile_url, key)
    → IsRightResponse (Right 0) key (fetch_upstream server tile_url p)
answered p own is_own right tile_url key e =
    subst (λ (n : Text × Text). IsRightResponse (Right 0) n.1 (fetch_upstream server n.0 p))
      (ok-injective (sym is_own ∙ e)) right

-- The server has a tile for the first proxy, and no answer for the other one.
served_by :
    (second : Bool) (tile_url key : Text)
    → named with_query (proxies (if second then 1 else 0)) request ≡ ok (tile_url, key)
    → IsRightResponse
        (Right 0)
        key
        (fetch_upstream server tile_url (proxies (if second then 1 else 0)))
unfolding texts
served_by true = answered other (codes "https://u/3/1/2.pbf") refl tt
served_by false =
    answered typed (codes "https://t/3/1/2.pbf") refl (λ t. ((refl, refl), omega arith))

abbrev joined : List Turn
joined =
    runs 0 false
    ∷ runs 1 false
    ∷ runs 0 false
    ∷ runs 1 false
    ∷ runs 0 true
    ∷ runs 1 true
    ∷ runs 1 false
    ∷ runs 1 false
    ∷ []

-- The request to the other proxy replies with the tile of the first one.
flights_refine_example : IsRightOutcome (Right 1) with_query other (
  request,
  ok (record blank { body = tile; headers = (codes "Content-Type", codes "image/png") ∷ [] }),
)
unfolding texts
flights_refine_example =
    flights_refine dictionaries-StoresFrames toy_group-Laws toy_sum toy_sum-sized Right with_query
      proxies calls blank refl (λ i j key body named_i named_j right. right)
      (λ i. served_by (i == 1)) (λ n. cold) cold-IsFaithful joined 1 (some (codes ":hit-w")) _ refl

abbrev both : List Turn
both = runs 1 false ∷ runs 0 false ∷ []

both-IsRound : IsRound 2 both
both-IsRound = record { every = turn_of; below = (omega arith, (omega arith, tt)) }
  where
    turn_of :
        (j : ℕ)
        → j < 2
        → (shared : Bool) × (front : List Turn) × (back : List Turn) × (both
            ≡ front ++ runs j shared ∷ back)
    turn_of zero low = (false, runs 1 false ∷ [], [], refl)
    turn_of (suc zero) low = (false, [], runs 0 false ∷ [], refl)
    turn_of (suc (suc j)) low = absurd (omega arith)

rounds-done_example :
    let st = run toy_sum with_query proxies calls blank (runs 0 false ∷ []) start in
    (status : Option Text) × (reply : Result (Unit {0}) (Reply plain_fiber)) × ((play toy_sum
          with_query proxies calls blank
          (both ∷ both ∷ both ∷ both ∷ both ∷ both ∷ [])
          st).stage
        1
      ≡ done status reply)
rounds-done_example =
    rounds-done toy_sum with_query proxies calls blank toy_group-Laws 2 1 (λ n. cold)
      (runs 0 false ∷ []) (both ∷ both ∷ both ∷ both ∷ both ∷ both ∷ []) (omega arith)
      (omega arith, tt)
      (
        both-IsRound,
        (both-IsRound, (both-IsRound, (both-IsRound, (both-IsRound, (both-IsRound, tt))))),
      )
      (omega arith)

abbrev two_calls : List Turn
two_calls =
    runs 0 false
    ∷ runs 2 false
    ∷ runs 3 false
    ∷ runs 0 false
    ∷ runs 0 false
    ∷ runs 0 false
    ∷ runs 2 false
    ∷ runs 0 false
    ∷ runs 3 false
    ∷ []

callers-at_most_example :
    calling (codes "3/1/2") 4 (run toy_sum with_query proxies calls blank two_calls start).stage
    ≤ 1
      + forgotten_in {g = toy_group} toy_sum with_query proxies calls blank
          (codes "3/1/2")
          two_calls
          start
callers-at_most_example =
    callers-at_most toy_group-Laws toy_sum with_query proxies calls blank (codes "3/1/2") 4
      (λ n. cold) two_calls
      (
        omega arith,
        (
          omega arith,
          (
            omega arith,
            (
              omega arith,
              (omega arith, (omega arith, (omega arith, (omega arith, (omega arith, tt))))),
            ),
          ),
        ),
      )
