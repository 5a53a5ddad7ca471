-- ===== src/Handlers/Proxy/Flights.antt =====
-- www/handlers/proxy/proxy.go: requests to several proxies that are handled at the same time.
--
-- Each request is a goroutine, known by its number, and `Stage` says what it does next: the steps of
-- `handle` at which other requests may come in between are the calls of `flightGroup`, which all
-- proxies share, the fetch inside `flightGroup.Do`, and the deferred `flightGroup.Forget`. The library
-- `singleflight` is the record `FlightGroup`: which call is under way for a key, by the number of the
-- request that makes it, and how that changes.
pub mod Laws
pub mod Steps
pub mod Right
pub mod Faithful
pub mod Crossed
pub mod Progress
pub mod Live
pub mod Waits
pub mod Turns
pub mod Rounds
pub mod Called
pub mod Counting
pub mod Single
mod Runs
use lod.Prelude.{
  ℕ, ◌==◌, List, [], ◌∷◌, if◌then◌else◌, Bool, true, Result, ok, err, panic, Option, none, some,
  ◌≡◌, ◌≢◌, ◌⊎◌,
}
use lod.Prelude.Text.{Text, text_eq}
use lod.Packet.{TilePacket}
use lod.Config.{Proxy}
use lod.Cache.Backends.{Stores}
use lod.Cache.{Cache, Fetched, fetch, invalidate, flush_internal, run_background}
use lod.Web.{Fiber, Reply, send_empty}
use lod.Helpers.{Request, fill_params_map}
use lod.Helpers.Upstream.{Agent, ProxyResponse, fetch_upstream}
use lod.Handlers.Proxy.{Handled, build_key_and_url, return_cached_tile, after_flight}

pub record FlightGroup : Type 1 where
  pub Calls : Type 0
  pub empty : Calls
  pub under_way : Text → Calls → Option ℕ
  pub begin_call : Text → ℕ → Calls → Calls
  pub end_call : Text → ℕ → Calls → Calls
  pub forget : Text → Calls → Calls

-- The library's documentation: a call of `Do` is under way for its key alone until it ends or the key is
-- forgotten, and a forgotten key has no call under way.
pub record FlightGroupLaws (g : FlightGroup) : Type 0 where
  pub none_at_first : (k : Text) → g.under_way k g.empty ≡ none
  pub begins :
      (key : Text) (i : ℕ) (calls : g.Calls) → g.under_way key (g.begin_call key i calls) ≡ some i
  pub begins_alone :
      (key k : Text) (i : ℕ) (calls : g.Calls)
      → k ≢ key
      → g.under_way k (g.begin_call key i calls) ≡ g.under_way k calls
  pub ends :
      (key : Text) (i j : ℕ) (calls : g.Calls)
      → g.under_way key (g.end_call key i calls) ≡ some j
      → (j ≢ i) × (g.under_way key calls ≡ some j)
  pub ends_alone :
      (key k : Text) (i : ℕ) (calls : g.Calls)
      → k ≢ key
      → g.under_way k (g.end_call key i calls) ≡ g.under_way k calls
  pub forgotten : (key : Text) (calls : g.Calls) → g.under_way key (g.forget key calls) ≡ none
  pub forgotten_alone :
      (key k : Text) (calls : g.Calls)
      → k ≢ key
      → g.under_way k (g.forget key calls) ≡ g.under_way k calls

-- A request: the number of its proxy, its context, and the tile server as it is when the request asks it.
pub record Call : Type 0 where
  pub proxy : ℕ
  pub ctx : Request Text
  pub agent : Agent

-- What the goroutine of a request does next.
pub data Stage (f : Fiber) : Type 0 where
  arrived : Stage f
  missed : Text → Text → Stage f
  fetches : Text → Text → Stage f
  waits : ℕ → Text → Stage f
  landed : Text → Result Text ProxyResponse → Bool → Stage f
  leaves : Text → Option Text → Result (Unit {0}) (Reply f) → Stage f
  done : Option Text → Result (Unit {0}) (Reply f) → Stage f

-- The caches of the proxies, the flight group, the results of the calls that have ended by the number of
-- the request that made them, and the requests.
pub record Server (Opts : Type 0) (s : Stores) (f : Fiber) (g : FlightGroup) : Type 0 where
  pub caches : ℕ → Cache Opts s
  pub group : g.Calls
  pub ended : ℕ → Option (Result Text ProxyResponse)
  pub stage : ℕ → Stage f

abbrev pub put {ℓ} : {A : Type ℓ} → ℕ → A → (ℕ → A) → ℕ → A
put n a family m = if m == n then a else family m

-- Whose turn it is: a request's, where the flag is what `Do` returns as `shared` if its call ends, or
-- that of the goroutines that store tiles in the cache of a proxy, or of the administration.
pub data Turn : Type 0 where
  runs : ℕ → Bool → Turn
  finishes : ℕ → Turn
  invalidates : ℕ → Text → Turn
  flushes : ℕ → Turn

module _ {Opts : Type 0} {s : Stores} {f : Fiber} {g : FlightGroup} where
  abbrev pub at : ℕ → Stage f → Server Opts s f g → Server Opts s f g
  at i stage st = record st { stage = put i stage st.stage }

  abbrev pub store : ℕ → Cache Opts s → Server Opts s f g → Server Opts s f g
  store n c st = record st { caches = put n c st.caches }

  module _ (sum256 : List ℕ → List ℕ) (with_query : Text → Text → Result Text Text)
      (proxies : ℕ → Proxy Opts) (calls : ℕ → Call) (blank : Reply f) where
    -- What `Fetch` has returned.
    unfoldable pub looked_up :
        ℕ → Text → Text → Fetched Opts s → Server Opts s f g → Server Opts s f g
    looked_up i tile_url key fetched st = elim fetched.tile [
      | ok found ↦ elim found [
        | some tile ↦
            let returned =
              return_cached_tile (proxies (calls i).proxy) tile fetched.status blank
                fetched.cache in
            store (calls i).proxy returned.cache (at i (done returned.status returned.reply) st)
        | none ↦ store (calls i).proxy fetched.cache (at i (missed tile_url key) st)
      ]
      | err e ↦ store (calls i).proxy fetched.cache (at i (done fetched.status panic) st)
      | panic ↦ store (calls i).proxy fetched.cache (at i (done fetched.status panic) st)
    ]

    -- What `buildKeyAndUrl` has returned.
    unfoldable pub begins : ℕ → Result Text (Text × Text) → Server Opts s f g → Server Opts s f g
    begins i (err status) st = at i (done (some status) (ok (send_empty 400 blank))) st
    begins i panic st = at i (done none panic) st
    begins i (ok (tile_url, key)) st =
        looked_up i tile_url key (fetch sum256 key (st.caches (calls i).proxy)) st

    -- `flightGroup.Do` up to the call or the wait.
    unfoldable pub takes_off : ℕ → Text → Text → Server Opts s f g → Server Opts s f g
    takes_off i tile_url key st = elim (g.under_way key st.group) [
      | some j ↦ at i (waits j key) st
      | none ↦ at i (fetches tile_url key) (record st { group = g.begin_call key i st.group })
    ]

    -- The end of the call.
    unfoldable pub lands : ℕ → Bool → Text → Text → Server Opts s f g → Server Opts s f g
    lands i shared tile_url key st =
        let result = fetch_upstream (calls i).agent tile_url (proxies (calls i).proxy) in
        at i (landed key result shared)
          (record st { group = g.end_call key i st.group; ended = put i (some result) st.ended })

    -- A request that waits goes on when the call has ended.
    unfoldable pub joins : ℕ → ℕ → Text → Server Opts s f g → Server Opts s f g
    joins i j key st = elim (st.ended j) [
      | some result ↦ at i (landed key result true) st
      | none ↦ st
    ]

    -- From the result of `Do` to the return.
    unfoldable pub answers :
        ℕ → Text → Result Text ProxyResponse → Bool → Server Opts s f g → Server Opts s f g
    answers i key result waited st =
        let handled =
          after_flight sum256 (calls i).agent (proxies (calls i).proxy) key result waited blank
            (st.caches (calls i).proxy) in
        store (calls i).proxy handled.cache (at i (leaves key handled.status handled.reply) st)

    unfoldable pub advance : ℕ → Bool → Stage f → Server Opts s f g → Server Opts s f g
    advance i shared arrived st =
        let p = proxies (calls i).proxy in
        begins i (build_key_and_url with_query p (fill_params_map p (calls i).ctx)) st
    advance i shared (missed tile_url key) st = takes_off i tile_url key st
    advance i shared (fetches tile_url key) st = lands i shared tile_url key st
    advance i shared (waits j key) st = joins i j key st
    advance i shared (landed key result waited) st = answers i key result waited st
    advance i shared (leaves key status reply) st =
        at i (done status reply) (record st { group = g.forget key st.group })
    advance i shared (done status reply) st = st

    unfoldable pub turn : Turn → Server Opts s f g → Server Opts s f g
    turn (runs i shared) st = advance i shared (st.stage i) st
    turn (finishes n) st = store n (run_background (st.caches n)) st
    turn (invalidates n key) st = store n (invalidate key (st.caches n)).0 st
    turn (flushes n) st = store n (flush_internal (st.caches n)).0 st

    unfoldable pub run : List Turn → Server Opts s f g → Server Opts s f g
    run [] st = st
    run (t ∷ turns) st = run turns (turn t st)

  -- No request has begun.
  abbrev pub opened : (ℕ → Cache Opts s) → Server Opts s f g
  opened caches = record {
    caches = caches;
    group = g.empty;
    ended = λ i. none;
    stage = λ i. arrived;
  }
