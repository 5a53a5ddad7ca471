-- ===== src/Handlers/Proxy/Flights/Faithful.antt =====
-- Requests that are handled at the same time (www/handlers/proxy/proxy.go) and what is right for their keys.
use lod.Prelude.{
  ℕ, List, [], ◌∷◌, Bool, length, Result, ok, err, panic, Option, none, some, ◌≡◌, refl, subst, inl,
  inr,
}
use lod.Prelude.Text.{Text}
use lod.Packet.{TilePacket}
use lod.Config.{Proxy}
use lod.Cache.Backends.{Stores, StoresFrames}
use lod.Cache.{Cache, Fetched}
use lod.Cache.Faithful.{
  IsFaithful, IsRightPacket, invalidate-IsFaithful, flush_internal-IsFaithful,
  run_background-IsFaithful,
}
use lod.Cache.FaithfulFetch.{IsFaithfulFetch, fetch-IsFaithful}
use lod.Web.{Fiber, Reply}
use lod.Helpers.Upstream.{ProxyResponse}
use lod.Handlers.Proxy.{Handled}
use lod.Handlers.Proxy.Faithful.{IsRightResponse, Answers, cached-Answers, flight-Answers}
use lod.Handlers.Proxy.Transparent.{outcome_of}
use lod.Handlers.Proxy.Flights.Laws.{kept}
use lod.Handlers.Proxy.Flights.{
  FlightGroup, FlightGroupLaws, Call, Stage, arrived, missed, fetches, waits, landed, leaves, done,
  Server, put, at, Turn, runs, finishes, invalidates, flushes, looked_up, begins, answers, advance,
  turn, run, opened,
}
use lod.Handlers.Proxy.Flights.Called.{takes_off-IsRight, lands-IsRight, joins-IsRight}
use lod.Handlers.Proxy.Flights.Right.{
  named_call, HasKey, AreAlike, IsServedRight, IsRightEnd, IsRightStage, IsRightServer, at-IsRight,
  store-IsRight,
}

module _ {Opts : Type 0} {s : Stores} {f : Fiber} {g : FlightGroup} (frames : StoresFrames s)
    (laws : FlightGroupLaws g) (sum256 : List ℕ → List ℕ)
    (sized : (b : List ℕ) → length (sum256 b) ≡ 32) (Right : ℕ → Text → List ℕ → Type 0)
    (with_query : Text → Text → Result Text Text) (proxies : ℕ → Proxy Opts) (calls : ℕ → Call)
    (blank : Reply f) (empty : blank.body ≡ []) (alike : AreAlike with_query proxies calls Right)
    (served : IsServedRight with_query proxies calls Right) where
  opened-IsRight :
      (caches : ℕ → Cache Opts s)
      → ((n : ℕ) → IsFaithful sum256 (Right n) (caches n))
      → IsRightServer sum256 Right with_query proxies calls (opened {f = f} {g = g} caches)
  opened-IsRight caches h = record {
    caches = h;
    stages = λ i. tt;
    ended = λ i. tt;
    flying = λ key j e. absurd (cc (laws.none_at_first key));
  }

  end_of :
      (i : ℕ) (tile_url key : Text) (x : Handled Opts s f)
      → named_call with_query proxies calls i ≡ ok (tile_url, key)
      → Answers frames sum256 sized
          (Right (calls i).proxy)
          (calls i).agent
          (proxies (calls i).proxy)
          key
          x
      → IsRightEnd Right with_query proxies calls i x.reply
  end_of i tile_url key x e a =
      outcome_of frames sum256 sized (Right (calls i).proxy) (calls i).agent with_query
        (proxies (calls i).proxy) blank empty (calls i).ctx x.reply
        (λ r q. elim (a.answer r q) [
          | inl failed ↦ inr (inl failed)
          | inr body ↦ inr (inr (tile_url, key, e, body))
        ])

  looked_up-IsRight :
      (i : ℕ) (tile_url key : Text) (x : Fetched Opts s) (st : Server Opts s f g)
      → IsRightServer sum256 Right with_query proxies calls st
      → named_call with_query proxies calls i ≡ ok (tile_url, key)
      → IsFaithfulFetch sum256 (Right (calls i).proxy) frames sized key x
      → IsRightServer sum256 Right with_query proxies calls
          (looked_up sum256 with_query proxies calls blank i tile_url key x st)
  unfolding looked_up
  looked_up-IsRight i tile_url key x st h e found = go x.tile found.1
    where
      stored :
          (stage : Stage f)
          → IsRightStage Right with_query proxies calls i stage
          → IsRightServer sum256 Right with_query proxies calls
              (record (at i stage st) { caches = put (calls i).proxy x.cache st.caches })
      stored stage right =
          store-IsRight sum256 Right with_query proxies calls (calls i).proxy x.cache
            (at i stage st) (at-IsRight sum256 Right with_query proxies calls i stage st h right)
            found.0

      go :
          (t : Result (Unit {0}) (Option TilePacket))
          → ((u : TilePacket)
              → t ≡ ok (some u)
              → IsRightPacket sum256 (Right (calls i).proxy) key u)
          → IsRightServer sum256 Right with_query proxies calls (
              looked_up sum256 with_query proxies calls blank i tile_url key
                (record x { tile = t })
                st)
      go (ok (some t)) right =
          let a =
            cached-Answers frames sum256 sized (Right (calls i).proxy) (calls i).agent
              (proxies (calls i).proxy) key t x.status blank x.cache found.0 empty (right t refl) in
          store-IsRight sum256 Right with_query proxies calls (calls i).proxy _ _
            (at-IsRight sum256 Right with_query proxies calls i _ st h
              (end_of i tile_url key _ e a))
            a.faithful
      go (ok none) right = stored (missed tile_url key) e
      go (err failed) right = stored (done x.status panic) tt
      go panic right = stored (done x.status panic) tt

  begins-IsRight :
      (i : ℕ) (n : Result Text (Text × Text)) (st : Server Opts s f g)
      → IsRightServer sum256 Right with_query proxies calls st
      → named_call with_query proxies calls i ≡ n
      → IsRightServer sum256 Right with_query proxies calls
          (begins sum256 with_query proxies calls blank i n st)
  unfolding begins
  begins-IsRight i (err status) st h e =
      at-IsRight sum256 Right with_query proxies calls i _ st h (inl (refl, refl))
  begins-IsRight i panic st h e = at-IsRight sum256 Right with_query proxies calls i _ st h tt
  begins-IsRight i (ok (tile_url, key)) st h e = looked_up-IsRight i tile_url key _ st h e (
      fetch-IsFaithful sum256 (Right (calls i).proxy) frames sized (st.caches (calls i).proxy) key
        (h.caches (calls i).proxy))

  answers-IsRight :
      (i : ℕ) (key : Text) (result : Result Text ProxyResponse) (waited : Bool)
      (st : Server Opts s f g)
      → IsRightServer sum256 Right with_query proxies calls st
      → HasKey with_query proxies calls i key
      → IsRightResponse (Right (calls i).proxy) key result
      → IsRightServer sum256 Right with_query proxies calls
          (answers sum256 with_query proxies calls blank i key result waited st)
  unfolding answers
  answers-IsRight i key result waited st h (tile_url, e) right =
      let a =
        flight-Answers frames sum256 sized (Right (calls i).proxy) (calls i).agent
          (proxies (calls i).proxy) key result waited blank (st.caches (calls i).proxy)
          (h.caches (calls i).proxy) empty right in
      store-IsRight sum256 Right with_query proxies calls (calls i).proxy _ _
        (at-IsRight sum256 Right with_query proxies calls i _ st h (end_of i tile_url key _ e a))
        a.faithful

  advance-IsRight :
      (i : ℕ) (shared : Bool) (stage : Stage f) (st : Server Opts s f g)
      → IsRightServer sum256 Right with_query proxies calls st
      → IsRightStage Right with_query proxies calls i stage
      → IsRightServer sum256 Right with_query proxies calls
          (advance sum256 with_query proxies calls blank i shared stage st)
  unfolding advance
  advance-IsRight i shared arrived st h right = begins-IsRight i _ st h refl
  advance-IsRight i shared (missed tile_url key) st h right =
      takes_off-IsRight laws sum256 Right with_query proxies calls blank alike served i tile_url key
        st h right
  advance-IsRight i shared (fetches tile_url key) st h right =
      lands-IsRight laws sum256 Right with_query proxies calls blank alike served i shared tile_url
        key st h right
  advance-IsRight i shared (waits j key) st h right =
      joins-IsRight laws sum256 Right with_query proxies calls blank alike served i j key st h
        right.0 right.1
  advance-IsRight i shared (landed key result waited) st h right =
      answers-IsRight i key result waited st h right.0 right.1
  advance-IsRight i shared (leaves key status reply) st h right =
      at-IsRight sum256 Right with_query proxies calls i (done status reply) _
        (record {
          caches = h.caches;
          stages = h.stages;
          ended = h.ended;
          flying = λ k j q. h.flying k j (kept laws key k j st.group q);
        })
        right
  advance-IsRight i shared (done status reply) st h right = h

  turn-IsRight :
      (t : Turn) (st : Server Opts s f g)
      → IsRightServer sum256 Right with_query proxies calls st
      → IsRightServer sum256 Right with_query proxies calls
          (turn sum256 with_query proxies calls blank t st)
  unfolding turn
  turn-IsRight (runs i shared) st h = advance-IsRight i shared (st.stage i) st h (h.stages i)
  turn-IsRight (finishes n) st h =
      store-IsRight sum256 Right with_query proxies calls n _ st h
        (run_background-IsFaithful sum256 (Right n) frames (st.caches n) (h.caches n))
  turn-IsRight (invalidates n key) st h =
      store-IsRight sum256 Right with_query proxies calls n _ st h
        (invalidate-IsFaithful sum256 (Right n) frames (st.caches n) key (h.caches n))
  turn-IsRight (flushes n) st h =
      store-IsRight sum256 Right with_query proxies calls n _ st h
        (flush_internal-IsFaithful sum256 (Right n) frames (st.caches n) (h.caches n))

  run-IsRight :
      (turns : List Turn) (st : Server Opts s f g)
      → IsRightServer sum256 Right with_query proxies calls st
      → IsRightServer sum256 Right with_query proxies calls
          (run sum256 with_query proxies calls blank turns st)
  unfolding run
  run-IsRight [] st h = h
  run-IsRight (t ∷ turns) st h = run-IsRight turns _ (turn-IsRight t st h)

  -- Concurrent requests refine the tile servers. Let the stores keep their frames, the flight group obey its
  -- laws, checksums have 32 bytes, and replies begin empty. Let what is right for a request be right for
  -- each request with its key, of whatever proxy, and let what the tile server answers to a request be
  -- right for its key where it is a tile, which is then below 4 GiB. Then, from caches that hold only
  -- right packets, whatever the order of the turns of the requests, of the goroutines that store tiles, of
  -- invalidations and of flushes, every request that is done, and has not panicked, has a reply with a
  -- body that is right for its key, or with no body and the status 400 or 500.
  pub flights_refine :
      (caches : ℕ → Cache Opts s)
      → ((n : ℕ) → IsFaithful sum256 (Right n) (caches n))
      → (turns : List Turn) (i : ℕ) (status : Option Text) (reply : Result (Unit {0}) (Reply f))
      → (run sum256 with_query proxies calls blank turns (opened {g = g} caches)).stage i
        ≡ done status reply
      → IsRightEnd Right with_query proxies calls i reply
  flights_refine caches h turns i status reply e =
      let right : IsRightStage Right with_query proxies calls i (done status reply) =
        subst (IsRightStage Right with_query proxies calls i) e
          ((run-IsRight turns (opened caches) (opened-IsRight caches h)).stages i) in
      right
