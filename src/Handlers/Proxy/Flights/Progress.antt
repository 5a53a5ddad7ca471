-- ===== src/Handlers/Proxy/Flights/Progress.antt =====
-- How far a request is, of those that are handled at the same time (www/handlers/proxy/proxy.go).
use lod.Prelude.{
  ℕ, ◌==◌, ◌≤◌, ◌<◌, List, Bool, true, Bool-cases, Result, ok, err, panic, Option, none, some,
  Option-cases, ◌≡◌, ◌≢◌, refl, ◌⊎◌, inl, inr, arith,
}
use lod.Prelude.Text.{Text}
use lod.Packet.{TilePacket}
use lod.Config.{Proxy}
use lod.Cache.Backends.{Stores}
use lod.Cache.{Fetched}
use lod.Web.{Fiber, Reply}
use lod.Helpers.Upstream.{ProxyResponse}
use lod.Handlers.Proxy.Flights.{
  FlightGroup, Call, Stage, arrived, missed, fetches, waits, landed, leaves, done, Server, put, at,
  looked_up, begins, takes_off, lands, joins, answers, advance,
}
use lod.Handlers.Proxy.Flights.Steps.{put_same, put_other, joins_ended, joins_still}

-- What a request has left, where a wait counts for more until its call has ended.
abbrev pub wait_weight : Option (Result Text ProxyResponse) → ℕ
wait_weight none = 4
wait_weight (some result) = 3

abbrev pub weigh : {f : Fiber} → (ℕ → Option (Result Text ProxyResponse)) → Stage f → ℕ
weigh ended arrived = 6
weigh ended (missed tile_url key) = 5
weigh ended (fetches tile_url key) = 3
weigh ended (waits j key) = wait_weight (ended j)
weigh ended (landed key result waited) = 2
weigh ended (leaves key status reply) = 1
weigh ended (done status reply) = 0

-- No result is lost.
abbrev pub Grows : (a b : ℕ → Option (Result Text ProxyResponse)) → Type 0
Grows a b = (j : ℕ) → a j ≢ none → b j ≢ none

pub put-Grows :
    (i : ℕ) (r : Result Text ProxyResponse) (ended : ℕ → Option (Result Text ProxyResponse))
    → Grows ended (put i (some r) ended)
put-Grows i r ended j h = elim (Bool-cases (j == i)) [
  | inl new ↦ rw new (λ e. cc)
  | inr old ↦ rw old h
]

pub weigh_grown :
    {f : Fiber} (a b : ℕ → Option (Result Text ProxyResponse))
    → Grows a b
    → (x : Stage f) → weigh b x ≤ weigh a x
weigh_grown a b h (waits j key) = go (a j) (b j) (h j)
  where
    go :
        (x y : Option (Result Text ProxyResponse))
        → (x ≢ none → y ≢ none)
        → wait_weight y ≤ wait_weight x
    go none y k = ground arith
    go (some r) none k = absurd (k (λ e. cc) refl)
    go (some r) (some q) k = ground arith
weigh_grown a b h x = ground arith

pub weigh_done :
    {f : Fiber} (ended : ℕ → Option (Result Text ProxyResponse)) (x : Stage f)
    → weigh ended x ≤ 0
    → (status : Option Text) × (reply : Result (Unit {0}) (Reply f)) × (x ≡ done status reply)
weigh_done ended (done status reply) h = (status, reply, refl)
weigh_done {f} ended (waits j key) h = go (ended j) h
  where
    go :
        (y : Option (Result Text ProxyResponse))
        → wait_weight y ≤ 0
        → (status : Option Text) × (reply : Result (Unit {0}) (Reply f)) × (waits j key
            ≡ done status reply)
    go none k = absurd (omega arith)
    go (some r) k = absurd (omega arith)
weigh_done ended x h = absurd (omega arith)

pub ended_weight :
    (j : ℕ) (ended : ℕ → Option (Result Text ProxyResponse))
    → ended j ≢ none
    → wait_weight (ended j) ≤ 3
ended_weight j ended h = elim (Option-cases (ended j)) [
  | inl missing ↦ absurd (h missing)
  | inr (r, given) ↦ rw given (omega arith)
]

-- Who has the weight 4.
pub weigh_four :
    {f : Fiber} (ended : ℕ → Option (Result Text ProxyResponse)) (x : Stage f)
    → weigh ended x ≡ 4
    → (j : ℕ) × (key : Text) × (x ≡ waits j key) × (ended j ≡ none)
weigh_four ended (waits j key) h = elim (Option-cases (ended j)) [
  | inl missing ↦ (j, key, refl, missing)
  | inr (r, given) ↦ absurd (omega (arith, ended_weight j ended (λ e. cc)))
]
weigh_four ended x h = absurd (omega arith)

pub weigh_most :
    {f : Fiber} (ended : ℕ → Option (Result Text ProxyResponse)) (x : Stage f) → weigh ended x ≤ 6
weigh_most ended (waits j key) = at_most (ended j)
  where
    at_most : (o : Option (Result Text ProxyResponse)) → wait_weight o ≤ 6
    at_most none = omega arith
    at_most (some r) = omega arith
weigh_most ended x = ground arith

module _ {Opts : Type 0} {s : Stores} {f : Fiber} {g : FlightGroup} where
  abbrev pub weight : ℕ → Server Opts s f g → ℕ
  weight i st = weigh st.ended (st.stage i)

  -- What a turn of a request does to the requests: it comes nearer to its end, unless it is done or its
  -- call has not ended.
  pub record Effect (i : ℕ) (st st' : Server Opts s f g) : Type 0 where
    pub others : (m : ℕ) → m ≢ i → st'.stage m ≡ st.stage m
    pub grows : Grows st.ended st'.ended
    pub drops :
        (weight i st' < weight i st)
        ⊎ (((weight i st ≡ 0) ⊎ (weight i st ≡ 4)) × (st'.stage i ≡ st.stage i))

  moved :
      (i : ℕ) (x y : Stage f) (st st' : Server Opts s f g)
      → st.stage i ≡ x
      → ((m : ℕ) → st'.stage m ≡ put i y st.stage m)
      → Grows st.ended st'.ended
      → weigh st'.ended y < weigh st.ended x
      → Effect i st st'
  moved i x y st st' e stages grown less = record {
    others = λ m h. rw (stages m) (put_other i m y st.stage h);
    grows = grown;
    drops = inl (rw (stages i, put_same i y st.stage, e) less);
  }

  still : (i : ℕ) (st : Server Opts s f g) → (weight i st ≡ 0) ⊎ (weight i st ≡ 4) → Effect i st st
  still i st h = record { others = λ m k. refl; grows = λ j k. k; drops = inr (h, refl) }

module _ {Opts : Type 0} {s : Stores} {f : Fiber} {g : FlightGroup} (sum256 : List ℕ → List ℕ)
    (with_query : Text → Text → Result Text Text) (proxies : ℕ → Proxy Opts) (calls : ℕ → Call)
    (blank : Reply f) where
  same : (st : Server Opts s f g) → Grows st.ended st.ended
  same st j h = h

  looked_up-Effect :
      (i : ℕ) (tile_url key : Text) (x : Fetched Opts s) (st : Server Opts s f g)
      → st.stage i ≡ arrived
      → Effect i st (looked_up sum256 with_query proxies calls blank i tile_url key x st)
  unfolding looked_up
  looked_up-Effect i tile_url key x st e = go x.tile
    where
      go :
          (t : Result (Unit {0}) (Option TilePacket))
          → Effect i st (
              looked_up sum256 with_query proxies calls blank i tile_url key
                (record x { tile = t })
                st)
      go (ok (some t)) = moved i arrived (done _ _) st _ e (λ m. refl) (same st) (omega arith)
      go (ok none) =
          moved i arrived (missed tile_url key) st _ e (λ m. refl) (same st) (omega arith)
      go (err failed) =
          moved i arrived (done x.status panic) st _ e (λ m. refl) (same st) (omega arith)
      go panic = moved i arrived (done x.status panic) st _ e (λ m. refl) (same st) (omega arith)

  begins-Effect :
      (i : ℕ) (n : Result Text (Text × Text)) (st : Server Opts s f g)
      → st.stage i ≡ arrived
      → Effect i st (begins sum256 with_query proxies calls blank i n st)
  unfolding begins
  begins-Effect i (err status) st e =
      moved i arrived (done _ _) st _ e (λ m. refl) (same st) (omega arith)
  begins-Effect i panic st e =
      moved i arrived (done none panic) st _ e (λ m. refl) (same st) (omega arith)
  begins-Effect i (ok (tile_url, key)) st e = looked_up-Effect i tile_url key _ st e

  takes_off-Effect :
      (i : ℕ) (tile_url key : Text) (st : Server Opts s f g)
      → st.stage i ≡ missed tile_url key
      → Effect i st (takes_off sum256 with_query proxies calls blank i tile_url key st)
  unfolding takes_off
  takes_off-Effect i tile_url key st e = go (g.under_way key st.group)
    where
      waits_less : (o : Option (Result Text ProxyResponse)) → wait_weight o < 5
      waits_less none = omega arith
      waits_less (some r) = omega arith

      go :
          (o : Option ℕ)
          → Effect i st (elim o [
            | some j ↦ at i (waits j key) st
            | none ↦ at i (fetches tile_url key) (record st { group = g.begin_call key i st.group })
          ])
      go (some j) =
          moved i (missed tile_url key) (waits j key) st _ e (λ m. refl) (same st)
            (waits_less (st.ended j))
      go none =
          moved i (missed tile_url key) (fetches tile_url key) st _ e (λ m. refl) (same st)
            (omega arith)

  joins-Effect :
      (i j : ℕ) (key : Text) (st : Server Opts s f g)
      → st.stage i ≡ waits j key
      → Effect i st (joins sum256 with_query proxies calls blank i j key st)
  joins-Effect i j key st e = elim (Option-cases (st.ended j)) [
    | inl waiting ↦
        rw (joins_still sum256 with_query proxies calls blank i j key st waiting)
          (still i st (inr (rw (e, waiting) refl)))
    | inr (r, given) ↦ rw (joins_ended sum256 with_query proxies calls blank j i key r st given) (
        moved i (waits j key) (landed key r true) st _ e (λ m. refl) (same st)
          (rw given (omega arith)))
  ]

  pub advance-Effect :
      (i : ℕ) (shared : Bool) (x : Stage f) (st : Server Opts s f g)
      → st.stage i ≡ x
      → Effect i st (advance sum256 with_query proxies calls blank i shared x st)
  unfolding advance lands answers
  advance-Effect i shared arrived st e = begins-Effect i _ st e
  advance-Effect i shared (missed tile_url key) st e = takes_off-Effect i tile_url key st e
  advance-Effect i shared (fetches tile_url key) st e =
      moved i (fetches tile_url key) (landed key _ shared) st _ e (λ m. refl)
        (put-Grows i _ st.ended) (omega arith)
  advance-Effect i shared (waits j key) st e = joins-Effect i j key st e
  advance-Effect i shared (landed key result waited) st e =
      moved i (landed key result waited) (leaves key _ _) st _ e (λ m. refl) (same st) (omega arith)
  advance-Effect i shared (leaves key status reply) st e =
      moved i (leaves key status reply) (done status reply) st _ e (λ m. refl) (same st)
        (omega arith)
  advance-Effect i shared (done status reply) st e = still i st (inl (rw e refl))
