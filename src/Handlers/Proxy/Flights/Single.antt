-- ===== src/Handlers/Proxy/Flights/Single.antt =====
-- How many requests are in the call for a key at the same time (www/handlers/proxy/proxy.go).
use lod.Prelude.{
  ℕ, ◌+◌, ◌≤◌, ◌<◌, List, [], ◌∷◌, All, Bool, true, Result, ok, err, panic, Option, none, some, ◌≡◌,
  refl, ap, sym, inl, inr, arith,
}
use lod.Prelude.Text.{Text}
use lod.Packet.{TilePacket}
use lod.Config.{Proxy}
use lod.Cache.Backends.{Stores}
use lod.Cache.{Cache, Fetched}
use lod.Web.{Fiber, Reply}
use lod.Helpers.Upstream.{ProxyResponse, fetch_upstream}
use lod.Handlers.Proxy.{return_cached_tile, after_flight}
use lod.Handlers.Proxy.Flights.{
  FlightGroup, FlightGroupLaws, Call, Stage, arrived, missed, fetches, waits, landed, leaves, done,
  Server, put, at, Turn, runs, finishes, invalidates, flushes, looked_up, begins, takes_off, lands,
  joins, answers, advance, turn, run, opened,
}
use lod.Handlers.Proxy.Flights.Laws.{same_or_not}
use lod.Handlers.Proxy.Flights.Live.{IsBelow}
use lod.Handlers.Proxy.Flights.Counting.{
  one_if, one_if_same, one_if_other, in_call, calling, calling-put, calling-arrived, going,
  going_most, forgets, turn_forgets, forgotten_in,
}

module _ {Opts : Type 0} {s : Stores} {f : Fiber} {g : FlightGroup} (laws : FlightGroupLaws g)
    (sum256 : List ℕ → List ℕ) (with_query : Text → Text → Result Text Text)
    (proxies : ℕ → Proxy Opts) (calls : ℕ → Call) (blank : Reply f) (key : Text) (n : ℕ) where
  abbrev callers : Server Opts s f g → ℕ
  callers st = calling key n st.stage

  abbrev active : Server Opts s f g → ℕ
  active st = going (g.under_way key st.group)

  -- How far a turn may raise the callers: by a call that comes under way, or by a key that is forgotten.
  abbrev IsBounded : ℕ → Server Opts s f g → Server Opts s f g → Type 0
  IsBounded cost st st' = callers st' + active st ≤ callers st + active st' + cost

  step-IsBounded :
      (i : ℕ) (y : Stage f) (st st' : Server Opts s f g) (cost : ℕ)
      → i < n
      → st'.stage ≡ put i y st.stage
      → in_call key y + active st ≤ in_call key (st.stage i) + active st' + cost
      → IsBounded cost st st'
  step-IsBounded i y st st' cost low stages h =
      let same : callers st' ≡ calling key n (put i y st.stage) = ap (calling key n) stages in
      omega (arith, same, calling-put key n i y st.stage low)

  -- A step to a stage that is not the call, with the flight group as it was.
  aside-IsBounded :
      (i : ℕ) (y : Stage f) (st : Server Opts s f g) (caches : ℕ → Cache Opts s)
      → i < n
      → in_call key y ≡ 0
      → IsBounded 0 st (record st { caches = caches; stage = put i y st.stage })
  aside-IsBounded i y st caches low none_new =
      step-IsBounded i y st (record st { caches = caches; stage = put i y st.stage }) 0 low refl
        (omega arith)

  looked_up-IsBounded :
      (i : ℕ) (tile_url k : Text) (x : Fetched Opts s) (st : Server Opts s f g)
      → i < n
      → IsBounded 0 st (looked_up sum256 with_query proxies calls blank i tile_url k x st)
  unfolding looked_up
  looked_up-IsBounded i tile_url k x st low = go x.tile
    where
      go :
          (t : Result (Unit {0}) (Option TilePacket))
          → IsBounded 0 st (
              looked_up sum256 with_query proxies calls blank i tile_url k
                (record x { tile = t })
                st)
      go (ok (some t)) =
          let n' = (calls i).proxy in
          let returned = return_cached_tile (proxies n') t x.status blank x.cache in
          aside-IsBounded i (done returned.status returned.reply) st
            (put n' returned.cache st.caches) low refl
      go (ok none) =
          aside-IsBounded i (missed tile_url k) st (put (calls i).proxy x.cache st.caches) low refl
      go (err failed) =
          aside-IsBounded i (done x.status panic) st (put (calls i).proxy x.cache st.caches) low
            refl
      go panic =
          aside-IsBounded i (done x.status panic) st (put (calls i).proxy x.cache st.caches) low
            refl

  begins-IsBounded :
      (i : ℕ) (named : Result Text (Text × Text)) (st : Server Opts s f g)
      → i < n
      → IsBounded 0 st (begins sum256 with_query proxies calls blank i named st)
  unfolding begins
  begins-IsBounded i (err status) st low = aside-IsBounded i (done _ _) st st.caches low refl
  begins-IsBounded i panic st low = aside-IsBounded i (done none panic) st st.caches low refl
  begins-IsBounded i (ok (tile_url, k)) st low = looked_up-IsBounded i tile_url k _ st low

  takes_off-IsBounded :
      (i : ℕ) (tile_url k : Text) (st : Server Opts s f g)
      → i < n
      → IsBounded 0 st (takes_off sum256 with_query proxies calls blank i tile_url k st)
  unfolding takes_off
  takes_off-IsBounded i tile_url k st low = go (g.under_way k st.group) refl
    where
      go :
          (o : Option ℕ)
          → g.under_way k st.group ≡ o
          → IsBounded 0 st (elim o [
            | some j ↦ at i (waits j k) st
            | none ↦ at i (fetches tile_url k) (record st { group = g.begin_call k i st.group })
          ])
      go (some j) q = aside-IsBounded i (waits j k) st st.caches low refl
      go none q =
          let st' : Server Opts s f g =
            at i (fetches tile_url k) (record st { group = g.begin_call k i st.group }) in
          step-IsBounded i (fetches tile_url k) st st' 0 low refl (elim (same_or_not key k) [
            | inl same ↦ rw (same, q, laws.begins k i st.group, one_if_same k k refl) (omega arith)
            | inr other ↦
                rw
                  (
                    laws.begins_alone k key i st.group other,
                    one_if_other k key (λ e. other (sym e)),
                  )
                  (omega arith)
          ])

  lands-IsBounded :
      (i : ℕ) (shared : Bool) (tile_url k : Text) (st : Server Opts s f g)
      → i < n
      → st.stage i ≡ fetches tile_url k
      → IsBounded 0 st (lands sum256 with_query proxies calls blank i shared tile_url k st)
  unfolding lands
  lands-IsBounded i shared tile_url k st low e =
      let result = fetch_upstream (calls i).agent tile_url (proxies (calls i).proxy) in
      let st' : Server Opts s f g =
        at i (landed k result shared)
          (record st { group = g.end_call k i st.group; ended = put i (some result) st.ended }) in
      step-IsBounded i (landed k result shared) st st' 0 low refl (
        rw e (elim (same_or_not key k) [
          | inl same ↦
              rw (same, one_if_same k k refl) (omega (arith, going_most (g.under_way k st.group)))
          | inr other ↦ rw (laws.ends_alone k key i st.group other) (omega arith)
        ]))

  joins-IsBounded :
      (i j : ℕ) (k : Text) (st : Server Opts s f g)
      → i < n
      → IsBounded 0 st (joins sum256 with_query proxies calls blank i j k st)
  unfolding joins
  joins-IsBounded i j k st low = go (st.ended j)
    where
      go :
          (o : Option (Result Text ProxyResponse))
          → IsBounded 0 st (elim o [ some result ↦ at i (landed k result true) st | none ↦ st ])
      go none = omega arith
      go (some result) = aside-IsBounded i (landed k result true) st st.caches low refl

  advance-IsBounded :
      (i : ℕ) (shared : Bool) (x : Stage f) (st : Server Opts s f g)
      → i < n
      → st.stage i ≡ x
      → IsBounded (forgets key x) st (advance sum256 with_query proxies calls blank i shared x st)
  unfolding advance answers
  advance-IsBounded i shared arrived st low e = begins-IsBounded i _ st low
  advance-IsBounded i shared (missed tile_url k) st low e = takes_off-IsBounded i tile_url k st low
  advance-IsBounded i shared (fetches tile_url k) st low e =
      lands-IsBounded i shared tile_url k st low e
  advance-IsBounded i shared (waits j k) st low e = joins-IsBounded i j k st low
  advance-IsBounded i shared (landed k result waited) st low e =
      let n' = (calls i).proxy in
      let handled =
        after_flight sum256 (calls i).agent (proxies n') k result waited blank (st.caches n') in
      aside-IsBounded i (leaves k handled.status handled.reply) st (put n' handled.cache st.caches)
        low refl
  advance-IsBounded i shared (leaves k status reply) st low e =
      let st' : Server Opts s f g =
        at i (done status reply) (record st { group = g.forget k st.group }) in
      step-IsBounded i (done status reply) st st' (one_if k key) low refl
        (elim (same_or_not key k) [
          | inl same ↦
              rw (same, one_if_same k k refl) (omega (arith, going_most (g.under_way k st.group)))
          | inr other ↦ rw (laws.forgotten_alone k key st.group other) (omega arith)
        ])
  advance-IsBounded i shared (done status reply) st low e = omega arith

  turn-IsBounded :
      (t : Turn) (st : Server Opts s f g)
      → IsBelow n t
      → IsBounded (turn_forgets key t st) st (turn sum256 with_query proxies calls blank t st)
  unfolding turn
  turn-IsBounded (runs i shared) st low = advance-IsBounded i shared (st.stage i) st low refl
  turn-IsBounded (finishes m) st low = omega arith
  turn-IsBounded (invalidates m k) st low = omega arith
  turn-IsBounded (flushes m) st low = omega arith

  run-IsBounded :
      (turns : List Turn) (st : Server Opts s f g)
      → All (IsBelow n) turns
      → IsBounded
          (forgotten_in sum256 with_query proxies calls blank key turns st)
          st
          (run sum256 with_query proxies calls blank turns st)
  unfolding run forgotten_in
  run-IsBounded [] st low = omega arith
  run-IsBounded (t ∷ turns) st low = omega (
    arith,
    turn-IsBounded t st low.0,
    run-IsBounded turns (turn sum256 with_query proxies calls blank t st) low.1,
  )

  -- Let the flight group obey its laws, and let only the first `n` requests take turns, from any caches. Then at most
  -- as many of them are in the call for a key at the same time as the key was forgotten before, and one.
  pub callers-at_most :
      (caches : ℕ → Cache Opts s) (turns : List Turn)
      → All (IsBelow n) turns
      → calling key n
          (run sum256 with_query proxies calls blank turns (opened {g = g} caches)).stage
        ≤ 1 + forgotten_in sum256 with_query proxies calls blank key turns (opened {g = g} caches)
  callers-at_most caches turns low =
      let st : Server Opts s f g = opened caches in
      let last : Server Opts s f g = run sum256 with_query proxies calls blank turns st in
      omega (
        arith,
        run-IsBounded turns st low,
        calling-arrived f key n,
        going_most (g.under_way key last.group),
      )
