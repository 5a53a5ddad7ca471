-- ===== src/Handlers/Proxy/Flights/Crossed.antt =====
-- Requests with one key that are handled at the same time (www/handlers/proxy/proxy.go): the one that waits,
-- and the end of one that a fetch outlives.
use lod.Prelude.{
  ℕ, List, [], ◌∷◌, Bool, true, Result, ok, Option, none, some, ◌≡◌, ◌≢◌, refl, arith, inl, inr,
  sym, ap, ◌∙◌,
}
use lod.Prelude.Text.{Text, codes}
use lod.Config.{Proxy}
use lod.Cache.Backends.{Stores}
use lod.Cache.{Cache}
use lod.Web.{Fiber, Reply}
use lod.Helpers.Upstream.{
  Agent, ProxyResponse, fetch_upstream, is_tile, write_data, cache_later, after_write,
  process_response,
}
use lod.Handlers.Proxy.{Handled, after_process, after_flight}
use lod.Handlers.Proxy.Flights.Laws.{begun}
use lod.Handlers.Proxy.Flights.{
  FlightGroup, FlightGroupLaws, Call, missed, fetches, waits, landed, leaves, done, Server, at,
  runs, lands, answers, advance, run,
}
use lod.Handlers.Proxy.Flights.Steps.{
  put_same, put_other, turn_at, takes_off_joins, takes_off_leads, joins_ended,
}

module _ {Opts : Type 0} {s : Stores} {f : Fiber} (sum256 : List ℕ → List ℕ) (agent : Agent)
    (p : Proxy Opts) (key : Text) (r : ProxyResponse) (reply : Reply f) (c : Cache Opts s) where
  -- The handler's result where another request's call has given a tile that can be written.
  abbrev shared_reply : Handled Opts s f
  shared_reply = record {
    cache = cache_later sum256 p key r c;
    status = some (codes ":hit-w");
    reply = ok (write_data p r reply).0;
  }

  after_flight_shared :
      is_tile r ≡ true
      → f.write_error r.body ≡ none
      → after_flight sum256 agent p key (ok r) true reply c ≡ shared_reply
  unfolding after_flight process_response write_data after_write after_process
  after_flight_shared tile writes = rw (tile, writes) refl

  write_data_body :
      f.write_error r.body ≡ none → reply.body ≡ [] → (write_data p r reply).0.body ≡ r.body
  unfolding write_data
  write_data_body writes empty = ground arith

module _ {Opts : Type 0} {s : Stores} {f : Fiber} {g : FlightGroup} (sum256 : List ℕ → List ℕ)
    (with_query : Text → Text → Result Text Text) (proxies : ℕ → Proxy Opts) (calls : ℕ → Call)
    (blank : Reply f) where
  -- What the request `j` is given by a call that is not its own, and what its proxy's cache gets.
  pub record IsGiven (j : ℕ) (key : Text) (r : ProxyResponse) (old st : Server Opts s f g)
      : Type 0 where
    pub reply : Reply f
    pub stage : st.stage j ≡ leaves key (some (codes ":hit-w")) (ok reply)
    pub body : reply.body ≡ r.body
    pub cache :
        st.caches (calls j).proxy
        ≡ cache_later sum256 (proxies (calls j).proxy) key r (old.caches (calls j).proxy)

  answers-IsGiven :
      (j : ℕ) (key : Text) (r : ProxyResponse) (old st : Server Opts s f g)
      → is_tile r ≡ true
      → f.write_error r.body ≡ none
      → blank.body ≡ []
      → st.caches (calls j).proxy ≡ old.caches (calls j).proxy
      → IsGiven j key r old (answers sum256 with_query proxies calls blank j key (ok r) true st)
  unfolding answers
  answers-IsGiven j key r old st tile writes empty same =
      let n = (calls j).proxy in
      rw
        (after_flight_shared sum256 (calls j).agent (proxies n) key r blank (st.caches n) tile
          writes)
        (record {
          reply = (write_data (proxies n) r blank).0;
          stage = put_same j _ st.stage;
          body =
              write_data_body sum256 (calls j).agent (proxies n) key r blank (st.caches n) writes
                empty;
          cache =
              rw (put_same n (cache_later sum256 (proxies n) key r (st.caches n)) st.caches, same)
                refl;
        })

  -- Let a request `i` be in its call for a key, let that call be under way, and let another request `j`
  -- have missed the same key, whatever the proxies of the two; let what the tile server answers to `i`
  -- be a tile, and let the write of its bytes to an empty reply succeed. Then, after a turn of `j`, one of
  -- `i` and two of `j`, the reply to `j` has the body that `i` was given, the local ":hit-w", and the
  -- cache of the proxy of `j` is about to store that body under the key.
  pub waits-IsGiven :
      (i j : ℕ) (own_url other_url key : Text) (r : ProxyResponse) (a b c d : Bool)
      (st : Server Opts s f g)
      → i ≢ j
      → st.stage i ≡ fetches own_url key
      → g.under_way key st.group ≡ some i
      → st.stage j ≡ missed other_url key
      → fetch_upstream (calls i).agent own_url (proxies (calls i).proxy) ≡ ok r
      → is_tile r ≡ true
      → f.write_error r.body ≡ none
      → blank.body ≡ []
      → IsGiven j key r st (
          run sum256 with_query proxies calls blank
            (runs j a ∷ runs i b ∷ runs j c ∷ runs j d ∷ [])
            st)
  unfolding advance lands run
  waits-IsGiven i j own_url other_url key r a b c d st apart leads under missed_j fetched tile
        writes empty =
      let st1 : Server Opts s f g = at j (waits i key) st in
      let own : st1.stage i ≡ fetches own_url key = put_other j i _ st.stage apart ∙ leads in
      let st2 : Server Opts s f g =
        lands sum256 with_query proxies calls blank i b own_url key st1 in
      let waiting : st2.stage j ≡ waits i key =
        put_other i j _ st1.stage (λ e. apart (sym e)) ∙ put_same j _ st.stage in
      let given : st2.ended i ≡ some (ok r) = put_same i _ st1.ended ∙ ap some fetched in
      let st3 : Server Opts s f g = at j (landed key (ok r) true) st2 in
      rw
        (
          turn_at sum256 with_query proxies calls blank j a (missed other_url key) st missed_j,
          takes_off_joins sum256 with_query proxies calls blank i j other_url key st under,
          turn_at sum256 with_query proxies calls blank i b (fetches own_url key) st1 own,
          turn_at sum256 with_query proxies calls blank j c (waits i key) st2 waiting,
          joins_ended sum256 with_query proxies calls blank i j key (ok r) st2 given,
          turn_at sum256 with_query proxies calls blank j d (landed key (ok r) true) st3
              (put_same j _ st2.stage),
        )
        (answers-IsGiven j key r st st3 tile writes empty refl)

  -- Let a request `j` be in its call for a key, let another request `i` for the key be about to return, and
  -- let a third one, `k`, have missed the key. Then, after a turn of `i` and one of `k`, both `j` and
  -- `k` are in a call for the key, and the one that is under way for later requests is that of `k`, if
  -- any.
  pub leaves-two_fetch :
      FlightGroupLaws g
      → (i j k : ℕ) (key url_j url_k : Text) (status : Option Text)
        (reply : Result (Unit {0}) (Reply f)) (a b : Bool) (st : Server Opts s f g)
      → i ≢ j
      → i ≢ k
      → j ≢ k
      → st.stage i ≡ leaves key status reply
      → st.stage j ≡ fetches url_j key
      → st.stage k ≡ missed url_k key
      → let st' = run sum256 with_query proxies calls blank (runs i a ∷ runs k b ∷ []) st in
        (st'.stage j ≡ fetches url_j key)
        × (st'.stage k ≡ fetches url_k key)
        × ((m : ℕ) → g.under_way key st'.group ≡ some m → m ≡ k)
  unfolding advance run
  leaves-two_fetch laws i j k key url_j url_k status reply a b st ij ik jk left led miss =
      let st1 : Server Opts s f g =
        at i (done status reply) (record st { group = g.forget key st.group }) in
      let later : st1.stage k ≡ missed url_k key =
        put_other i k _ st.stage (λ e. ik (sym e)) ∙ miss in
      rw
        (
          turn_at sum256 with_query proxies calls blank i a (leaves key status reply) st left,
          turn_at sum256 with_query proxies calls blank k b (missed url_k key) st1 later,
          takes_off_leads sum256 with_query proxies calls blank k url_k key st1
              (laws.forgotten key st.group),
        )
        (
          put_other k j _ st1.stage jk ∙ (put_other i j _ st.stage (λ e. ij (sym e)) ∙ led),
          put_same k _ st1.stage,
          λ m e. elim (begun laws key key k m (g.forget key st.group) e) [
            | inl found ↦ found.1
            | inr old ↦ absurd (cc (laws.forgotten key st.group))
          ],
        )
