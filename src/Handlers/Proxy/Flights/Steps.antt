-- ===== src/Handlers/Proxy/Flights/Steps.antt =====
-- The turns of requests that are handled at the same time (www/handlers/proxy/proxy.go), by the stage.
use lod.Prelude.{
  ℕ, ◌==◌, ==_iff, List, Bool, Bool-cases, true, Result, none, some, ◌≡◌, ◌≢◌, refl, inl, inr,
}
use lod.Prelude.Text.{Text}
use lod.Config.{Proxy}
use lod.Cache.Backends.{Stores}
use lod.Web.{Fiber, Reply}
use lod.Helpers.Upstream.{ProxyResponse}
use lod.Handlers.Proxy.Flights.{
  FlightGroup, Call, Stage, fetches, waits, landed, Server, put, at, runs, takes_off, joins,
  advance, turn,
}

==-refl : (n : ℕ) → (n == n) ≡ true
==-refl n = (==_iff n n).1 refl

pub put_same {ℓ} : {A : Type ℓ} (n : ℕ) (a : A) (family : ℕ → A) → put n a family n ≡ a
put_same n a family = rw (==-refl n) refl

pub put_other {ℓ} :
    {A : Type ℓ} (n m : ℕ) (a : A) (family : ℕ → A) → m ≢ n → put n a family m ≡ family m
put_other n m a family h = elim (Bool-cases (m == n)) [
  | inl same ↦ absurd (h ((==_iff m n).0 same))
  | inr other ↦ rw other refl
]

module _ {Opts : Type 0} {s : Stores} {f : Fiber} {g : FlightGroup} (sum256 : List ℕ → List ℕ)
    (with_query : Text → Text → Result Text Text) (proxies : ℕ → Proxy Opts) (calls : ℕ → Call)
    (blank : Reply f) where
  -- A turn of a request is the step of its stage.
  pub turn_at :
      (i : ℕ) (shared : Bool) (stage : Stage f) (st : Server Opts s f g)
      → st.stage i ≡ stage
      → turn sum256 with_query proxies calls blank (runs i shared) st
        ≡ advance sum256 with_query proxies calls blank i shared stage st
  unfolding turn
  turn_at i shared stage st e = rw e refl

  pub takes_off_joins :
      (i j : ℕ) (tile_url key : Text) (st : Server Opts s f g)
      → g.under_way key st.group ≡ some i
      → takes_off sum256 with_query proxies calls blank j tile_url key st ≡ at j (waits i key) st
  unfolding takes_off
  takes_off_joins i j tile_url key st e = rw (takes_off, e) refl

  pub takes_off_leads :
      (i : ℕ) (tile_url key : Text) (st : Server Opts s f g)
      → g.under_way key st.group ≡ none
      → takes_off sum256 with_query proxies calls blank i tile_url key st
        ≡ at i (fetches tile_url key) (record st { group = g.begin_call key i st.group })
  unfolding takes_off
  takes_off_leads i tile_url key st e = rw (takes_off, e) refl

  pub joins_ended :
      (i j : ℕ) (key : Text) (result : Result Text ProxyResponse) (st : Server Opts s f g)
      → st.ended i ≡ some result
      → joins sum256 with_query proxies calls blank j i key st ≡ at j (landed key result true) st
  unfolding joins
  joins_ended i j key result st e = rw (joins, e) refl

  pub joins_still :
      (i j : ℕ) (key : Text) (st : Server Opts s f g)
      → st.ended j ≡ none
      → joins sum256 with_query proxies calls blank i j key st ≡ st
  unfolding joins
  joins_still i j key st e = rw (joins, e) refl
