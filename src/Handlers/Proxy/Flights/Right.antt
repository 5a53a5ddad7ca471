-- ===== src/Handlers/Proxy/Flights/Right.antt =====
-- What is right for the requests that are handled at the same time (www/handlers/proxy/proxy.go).
use lod.Prelude.{ℕ, ◌==◌, List, Bool-cases, ==_iff, Result, ok, Option, none, some, ◌≡◌, inl, inr}
use lod.Prelude.Text.{Text}
use lod.Config.{Proxy}
use lod.Cache.Backends.{Stores}
use lod.Cache.{Cache}
use lod.Cache.Faithful.{IsFaithful}
use lod.Web.{Fiber, Reply}
use lod.Helpers.Upstream.{ProxyResponse, fetch_upstream}
use lod.Handlers.Proxy.Faithful.{IsRightResponse}
use lod.Handlers.Proxy.Transparent.{named, IsRightOutcome}
use lod.Handlers.Proxy.Flights.{
  FlightGroup, Call, Stage, arrived, missed, fetches, waits, landed, leaves, done, Server, put, at,
}

pub put_all :
    {A : Type 0} (holds : ℕ → A → Type 0) (n : ℕ) (a : A) (family : ℕ → A)
    → holds n a
    → ((m : ℕ) → holds m (family m))
    → (m : ℕ) → holds m (put n a family m)
put_all holds n a family new old m = elim (Bool-cases (m == n)) [
  | inl same ↦ rw (same, (==_iff m n).0 same) new
  | inr other ↦ rw other (old m)
]

module _ {Opts : Type 0} (with_query : Text → Text → Result Text Text) (proxies : ℕ → Proxy Opts)
    (calls : ℕ → Call) where
  -- The request's URL and key.
  abbrev pub named_call : ℕ → Result Text (Text × Text)
  named_call i = named with_query (proxies (calls i).proxy) (calls i).ctx

  abbrev pub HasKey : ℕ → Text → Type 0
  HasKey i key = (tile_url : Text) × (named_call i ≡ ok (tile_url, key))

  -- What is right for a request is right for each request with its key, of whatever proxy.
  abbrev pub AreAlike : (ℕ → Text → List ℕ → Type 0) → Type 0
  AreAlike Right =
      (i j : ℕ) (key : Text) (body : List ℕ)
      → HasKey i key
      → HasKey j key
      → Right (calls j).proxy key body
      → Right (calls i).proxy key body

  -- What the tile server answers to a request is right for its key.
  abbrev pub IsServedRight : (ℕ → Text → List ℕ → Type 0) → Type 0
  IsServedRight Right =
      (i : ℕ) (tile_url key : Text)
      → named_call i ≡ ok (tile_url, key)
      → IsRightResponse (Right (calls i).proxy) key
          (fetch_upstream (calls i).agent tile_url (proxies (calls i).proxy))

module _ {Opts : Type 0} (Right : ℕ → Text → List ℕ → Type 0)
    (with_query : Text → Text → Result Text Text) (proxies : ℕ → Proxy Opts)
    (calls : ℕ → Call) where
  abbrev pub IsRightEnd : {f : Fiber} → ℕ → Result (Unit {0}) (Reply f) → Type 0
  IsRightEnd i reply =
      IsRightOutcome (Right (calls i).proxy) with_query (proxies (calls i).proxy)
        ((calls i).ctx, reply)

  abbrev pub IsRightStage : {f : Fiber} → ℕ → Stage f → Type 0
  IsRightStage i arrived = Unit {0}
  IsRightStage i (missed tile_url key) = named_call with_query proxies calls i ≡ ok (tile_url, key)
  IsRightStage i (fetches tile_url key) = named_call with_query proxies calls i ≡ ok (tile_url, key)
  IsRightStage i (waits j key) =
      HasKey with_query proxies calls i key × HasKey with_query proxies calls j key
  IsRightStage i (landed key result waited) =
      HasKey with_query proxies calls i key × IsRightResponse (Right (calls i).proxy) key result
  IsRightStage i (leaves key status reply) = IsRightEnd i reply
  IsRightStage i (done status reply) = IsRightEnd i reply

  abbrev pub IsRightCall : ℕ → Option (Result Text ProxyResponse) → Type 0
  IsRightCall i none = Unit {0}
  IsRightCall i (some result) =
      (key : Text) × HasKey with_query proxies calls i key
      × IsRightResponse (Right (calls i).proxy) key result

module _ {Opts : Type 0} {s : Stores} {f : Fiber} {g : FlightGroup} (sum256 : List ℕ → List ℕ)
    (Right : ℕ → Text → List ℕ → Type 0) (with_query : Text → Text → Result Text Text)
    (proxies : ℕ → Proxy Opts) (calls : ℕ → Call) where
  pub record IsRightServer (st : Server Opts s f g) : Type 0 where
    pub caches : (n : ℕ) → IsFaithful sum256 (Right n) (st.caches n)
    pub stages : (i : ℕ) → IsRightStage Right with_query proxies calls i (st.stage i)
    pub ended : (i : ℕ) → IsRightCall Right with_query proxies calls i (st.ended i)
    pub flying :
        (key : Text) (j : ℕ)
        → g.under_way key st.group ≡ some j
        → HasKey with_query proxies calls j key

  -- A request goes on to a stage that is right for it.
  pub at-IsRight :
      (i : ℕ) (stage : Stage f) (st : Server Opts s f g)
      → IsRightServer st
      → IsRightStage Right with_query proxies calls i stage
      → IsRightServer (at i stage st)
  at-IsRight i stage st h right = record {
    caches = h.caches;
    stages = put_all (IsRightStage Right with_query proxies calls) i stage st.stage right h.stages;
    ended = h.ended;
    flying = h.flying;
  }

  pub store-IsRight :
      (n : ℕ) (c : Cache Opts s) (st : Server Opts s f g)
      → IsRightServer st
      → IsFaithful sum256 (Right n) c
      → IsRightServer (record st { caches = put n c st.caches })
  store-IsRight n c st h right = record {
    caches = put_all (λ m. IsFaithful sum256 (Right m)) n c st.caches right h.caches;
    stages = h.stages;
    ended = h.ended;
    flying = h.flying;
  }
