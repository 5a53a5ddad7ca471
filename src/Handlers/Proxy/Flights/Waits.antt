-- ===== src/Handlers/Proxy/Flights/Waits.antt =====
-- That nobody waits in vain, over the turns of requests that are handled at the same time
-- (www/handlers/proxy/proxy.go).
use lod.Prelude.{
  ℕ, ◌<◌, List, [], ◌∷◌, All, Bool, true, Result, ok, err, panic, Option, none, some, ◌≡◌, ◌≢◌,
  refl, sym, ap, subst, ◌∙◌, ◌⊎◌, inl, inr,
}
use lod.Prelude.Text.{Text}
use lod.Packet.{TilePacket}
use lod.Config.{Proxy}
use lod.Cache.Backends.{Stores}
use lod.Cache.{Cache, Fetched}
use lod.Web.{Fiber, Reply}
use lod.Helpers.Upstream.{ProxyResponse}
use lod.Handlers.Proxy.Flights.Laws.{begun, ended, kept}
use lod.Handlers.Proxy.Flights.{
  FlightGroup, FlightGroupLaws, Call, Stage, arrived, missed, fetches, waits, landed, leaves, done,
  Server, at, store, Turn, runs, finishes, invalidates, flushes, looked_up, begins, takes_off,
  lands, joins, answers, advance, turn, run,
}
use lod.Handlers.Proxy.Flights.Steps.{put_same}
use lod.Handlers.Proxy.Flights.Progress.{put-Grows}
use lod.Handlers.Proxy.Flights.Live.{
  IsFetching, IsFlying, IsFlying-IsFetching, IsBelow, IsLive, away, goes_on, moves_on, not_fetching,
}

module _ {Opts : Type 0} {s : Stores} {f : Fiber} {g : FlightGroup} (laws : FlightGroupLaws g)
    (sum256 : List ℕ → List ℕ) (with_query : Text → Text → Result Text Text)
    (proxies : ℕ → Proxy Opts) (calls : ℕ → Call) (blank : Reply f) (n : ℕ) where
  looked_up-IsLive :
      (i : ℕ) (tile_url key : Text) (x : Fetched Opts s) (st : Server Opts s f g)
      → IsLive n st
      → i < n
      → st.stage i ≡ arrived
      → IsLive n (looked_up sum256 with_query proxies calls blank i tile_url key x st)
  unfolding looked_up
  looked_up-IsLive i tile_url key x st h low e = go x.tile
    where
      still : IsFetching (st.stage i) → ⊥
      still = not_fetching i arrived st e (λ k. k)

      go :
          (t : Result (Unit {0}) (Option TilePacket))
          → IsLive n (
              looked_up sum256 with_query proxies calls blank i tile_url key
                (record x { tile = t })
                st)
      go (ok (some t)) = moves_on n i (done _ _) st _ h low still tt
      go (ok none) = moves_on n i (missed tile_url key) st _ h low still tt
      go (err failed) = moves_on n i (done x.status panic) st _ h low still tt
      go panic = moves_on n i (done x.status panic) st _ h low still tt

  begins-IsLive :
      (i : ℕ) (named : Result Text (Text × Text)) (st : Server Opts s f g)
      → IsLive n st
      → i < n
      → st.stage i ≡ arrived
      → IsLive n (begins sum256 with_query proxies calls blank i named st)
  unfolding begins
  begins-IsLive i (err status) st h low e =
      moves_on n i (done _ _) st _ h low (not_fetching i arrived st e (λ k. k)) tt
  begins-IsLive i panic st h low e =
      moves_on n i (done none panic) st _ h low (not_fetching i arrived st e (λ k. k)) tt
  begins-IsLive i (ok (tile_url, key)) st h low e = looked_up-IsLive i tile_url key _ st h low e

  takes_off-IsLive :
      (i : ℕ) (tile_url key : Text) (st : Server Opts s f g)
      → IsLive n st
      → i < n
      → st.stage i ≡ missed tile_url key
      → IsLive n (takes_off sum256 with_query proxies calls blank i tile_url key st)
  unfolding takes_off
  takes_off-IsLive i tile_url key st h low e = go (g.under_way key st.group) refl
    where
      still : IsFetching (st.stage i) → ⊥
      still = not_fetching i (missed tile_url key) st e (λ k. k)

      go :
          (o : Option ℕ)
          → g.under_way key st.group ≡ o
          → IsLive n (elim o [
            | some j ↦ at i (waits j key) st
            | none ↦ at i (fetches tile_url key) (record st { group = g.begin_call key i st.group })
          ])
      go (some j) q =
          moves_on n i (waits j key) st st.caches h low still
            (inl (IsFlying-IsFetching key (st.stage j) (h.flying key j q)))
      go none q =
          goes_on n i (fetches tile_url key) st st.caches (g.begin_call key i st.group) st.ended h
            low (λ j k. k) (λ k. absurd (still k))
            (λ k j b. elim (begun laws key k i j st.group b) [
              | inl new ↦ inl (new.1, sym new.0)
              | inr old ↦ inr (away n i j k st h still old, old)
            ])
            tt

  joins-IsLive :
      (i j : ℕ) (key : Text) (st : Server Opts s f g)
      → IsLive n st
      → i < n
      → st.stage i ≡ waits j key
      → IsLive n (joins sum256 with_query proxies calls blank i j key st)
  unfolding joins
  joins-IsLive i j key st h low e = go (st.ended j)
    where
      go :
          (o : Option (Result Text ProxyResponse))
          → IsLive n (elim o [ some result ↦ at i (landed key result true) st | none ↦ st ])
      go none = h
      go (some result) =
          moves_on n i (landed key result true) st st.caches h low
            (not_fetching i (waits j key) st e (λ k. k)) tt

  landed_elsewhere :
      (i j : ℕ) (tile_url key k : Text) (st : Server Opts s f g)
      → IsLive n st
      → st.stage i ≡ fetches tile_url key
      → ((k ≢ key) ⊎ (j ≢ i)) × (g.under_way k st.group ≡ some j)
      → (j ≢ i) × (g.under_way k st.group ≡ some j)
  landed_elsewhere i j tile_url key k st h e (inr other, old) = (other, old)
  landed_elsewhere i j tile_url key k st h e (inl other, old) =
      (λ same. other (sym (flies same)), old)
    where
      flies : j ≡ i → key ≡ k
      flies same = subst (IsFlying k) (ap st.stage same ∙ e) (h.flying k j old)

  advance-IsLive :
      (i : ℕ) (shared : Bool) (x : Stage f) (st : Server Opts s f g)
      → IsLive n st
      → i < n
      → st.stage i ≡ x
      → IsLive n (advance sum256 with_query proxies calls blank i shared x st)
  unfolding advance lands answers
  advance-IsLive i shared arrived st h low e = begins-IsLive i _ st h low e
  advance-IsLive i shared (missed tile_url key) st h low e =
      takes_off-IsLive i tile_url key st h low e
  advance-IsLive i shared (fetches tile_url key) st h low e =
      goes_on n i (landed key _ shared) st st.caches (g.end_call key i st.group) _ h low
        (put-Grows i _ st.ended) (λ k q. absurd (cc (put_same i _ st.ended)))
        (λ k j q.
          inr (landed_elsewhere i j tile_url key k st h e (ended laws key k i j st.group q)))
        tt
  advance-IsLive i shared (waits j key) st h low e = joins-IsLive i j key st h low e
  advance-IsLive i shared (landed key result waited) st h low e =
      moves_on n i (leaves key _ _) st _ h low
        (not_fetching i (landed key result waited) st e (λ k. k)) tt
  advance-IsLive i shared (leaves key status reply) st h low e =
      let still = not_fetching i (leaves key status reply) st e (λ k. k) in
      goes_on n i (done status reply) st st.caches (g.forget key st.group) st.ended h low (λ j k. k)
        (λ k. absurd (still k))
        (λ k j q. let old = kept laws key k j st.group q in inr (away n i j k st h still old, old))
        tt
  advance-IsLive i shared (done status reply) st h low e = h

  caches-IsLive :
      (m : ℕ) (c : Cache Opts s) (st : Server Opts s f g) → IsLive n st → IsLive n (store m c st)
  caches-IsLive m c st h = record { flying = h.flying; waiting = h.waiting; late = h.late }

  pub turn-IsLive :
      (t : Turn) (st : Server Opts s f g)
      → IsBelow n t
      → IsLive n st
      → IsLive n (turn sum256 with_query proxies calls blank t st)
  unfolding turn
  turn-IsLive (runs i shared) st low h = advance-IsLive i shared (st.stage i) st h low refl
  turn-IsLive (finishes m) st low h = caches-IsLive m _ st h
  turn-IsLive (invalidates m key) st low h = caches-IsLive m _ st h
  turn-IsLive (flushes m) st low h = caches-IsLive m _ st h

  pub run-IsLive :
      (turns : List Turn) (st : Server Opts s f g)
      → All (IsBelow n) turns
      → IsLive n st
      → IsLive n (run sum256 with_query proxies calls blank turns st)
  unfolding run
  run-IsLive [] st low h = h
  run-IsLive (t ∷ turns) st low h = run-IsLive turns _ low.1 (turn-IsLive t st low.0 h)
