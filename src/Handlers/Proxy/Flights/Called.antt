-- ===== src/Handlers/Proxy/Flights/Called.antt =====
-- `flightGroup.Do` (www/handlers/proxy/proxy.go) and what is right for the keys of the requests.
use lod.Prelude.{
  err, panic, ℕ, List, Bool, true, Result, ok, ok-injective, Option, none, some, ◌≡◌, refl, sym,
  inl, inr, ◌∙◌,
}
use lod.Prelude.Text.{Text}
use lod.Config.{Proxy}
use lod.Cache.Backends.{Stores}
use lod.Web.{Fiber, Reply}
use lod.Helpers.Upstream.{ProxyResponse}
use lod.Handlers.Proxy.Flights.Laws.{begun, ended}
use lod.Handlers.Proxy.Faithful.{IsRightResponse}
use lod.Handlers.Proxy.Flights.{
  FlightGroup, FlightGroupLaws, Call, fetches, waits, landed, Server, at, takes_off, lands, joins,
}
use lod.Handlers.Proxy.Flights.Right.{
  put_all, named_call, HasKey, AreAlike, IsServedRight, IsRightCall, IsRightServer, at-IsRight,
}

map-IsRightResponse :
    (Right Right' : Text → List ℕ → Type 0) (key : Text) (result : Result Text ProxyResponse)
    → ((body : List ℕ) → Right key body → Right' key body)
    → IsRightResponse Right key result
    → IsRightResponse Right' key result
map-IsRightResponse Right Right' key (ok r) h right =
    λ success. (h r.body (right success).0, (right success).1)
map-IsRightResponse Right Right' key (err e) h right = tt
map-IsRightResponse Right Right' key panic h right = tt

module _ (with_query : Text → Text → Result Text Text) {Opts : Type 0} (proxies : ℕ → Proxy Opts)
    (calls : ℕ → Call) where
  HasKey-unique :
      (i : ℕ) (key key' : Text)
      → HasKey with_query proxies calls i key
      → HasKey with_query proxies calls i key'
      → key ≡ key'
  HasKey-unique i key key' (url, e) (url', e') = ap_key (ok-injective (sym e ∙ e'))
    where
      ap_key : {a b : Text × Text} → a ≡ b → a.1 ≡ b.1
      ap_key q = cc

module _ {Opts : Type 0} {s : Stores} {f : Fiber} {g : FlightGroup} (laws : FlightGroupLaws g)
    (sum256 : List ℕ → List ℕ) (Right : ℕ → Text → List ℕ → Type 0)
    (with_query : Text → Text → Result Text Text) (proxies : ℕ → Proxy Opts) (calls : ℕ → Call)
    (blank : Reply f) (alike : AreAlike with_query proxies calls Right)
    (served : IsServedRight with_query proxies calls Right) where
  pub takes_off-IsRight :
      (i : ℕ) (tile_url key : Text) (st : Server Opts s f g)
      → IsRightServer sum256 Right with_query proxies calls st
      → named_call with_query proxies calls i ≡ ok (tile_url, key)
      → IsRightServer sum256 Right with_query proxies calls
          (takes_off sum256 with_query proxies calls blank i tile_url key st)
  unfolding takes_off
  takes_off-IsRight i tile_url key st h e = go (g.under_way key st.group) refl
    where
      go :
          (o : Option ℕ)
          → g.under_way key st.group ≡ o
          → IsRightServer sum256 Right with_query proxies calls (elim o [
            | some j ↦ at i (waits j key) st
            | none ↦ at i (fetches tile_url key) (record st { group = g.begin_call key i st.group })
          ])
      go (some j) q =
          at-IsRight sum256 Right with_query proxies calls i _ st h
            ((tile_url, e), h.flying key j q)
      go none q =
          at-IsRight sum256 Right with_query proxies calls i (fetches tile_url key) _
            (record {
              caches = h.caches;
              stages = h.stages;
              ended = h.ended;
              flying = λ k j b. elim (begun laws key k i j st.group b) [
                | inl (same, new) ↦ rw (same, new) (tile_url, e)
                | inr old ↦ h.flying k j old
              ];
            })
            e

  pub lands-IsRight :
      (i : ℕ) (shared : Bool) (tile_url key : Text) (st : Server Opts s f g)
      → IsRightServer sum256 Right with_query proxies calls st
      → named_call with_query proxies calls i ≡ ok (tile_url, key)
      → IsRightServer sum256 Right with_query proxies calls
          (lands sum256 with_query proxies calls blank i shared tile_url key st)
  unfolding lands
  lands-IsRight i shared tile_url key st h e =
      let right = served i tile_url key e in
      at-IsRight sum256 Right with_query proxies calls i _ _
        (record {
          caches = h.caches;
          stages = h.stages;
          ended =
              put_all (IsRightCall Right with_query proxies calls) i _ st.ended
                (key, (tile_url, e), right) h.ended;
          flying = λ k j q. h.flying k j (ended laws key k i j st.group q).1;
        })
        ((tile_url, e), right)

  pub joins-IsRight :
      (i j : ℕ) (key : Text) (st : Server Opts s f g)
      → IsRightServer sum256 Right with_query proxies calls st
      → HasKey with_query proxies calls i key
      → HasKey with_query proxies calls j key
      → IsRightServer sum256 Right with_query proxies calls
          (joins sum256 with_query proxies calls blank i j key st)
  unfolding joins
  joins-IsRight i j key st h mine theirs = go (st.ended j) (h.ended j)
    where
      go :
          (o : Option (Result Text ProxyResponse))
          → IsRightCall Right with_query proxies calls j o
          → IsRightServer sum256 Right with_query proxies calls
              (elim o [ some result ↦ at i (landed key result true) st | none ↦ st ])
      go none q = h
      go (some result) (key', named_j, right) =
          let same : key' ≡ key =
            HasKey-unique with_query proxies calls j key' key named_j theirs in
          at-IsRight sum256 Right with_query proxies calls i _ st h (
            mine,
            map-IsRightResponse (Right (calls j).proxy) (Right (calls i).proxy) key result
                (λ body. alike i j key body mine theirs) (rw (sym same) right),
          )
