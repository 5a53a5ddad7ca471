-- ===== src/Handlers/Proxy/Flights/Rounds.antt =====
-- Requests that are handled at the same time, each of which gets its turns (www/handlers/proxy/proxy.go).
use lod.Prelude.{
  ℕ, suc, ◌≤◌, ◌<◌, List, [], ◌∷◌, ◌++◌, All, Bool, length, Result, Option, none, some, ◌≡◌, ◌≢◌,
  subst, ◌∙◌, ◌⊎◌, inl, inr, arith,
}
use native.Mathlib.Decide.{dec_lt, ℕ_discrete}
use lod.Prelude.Text.{Text}
use lod.Config.{Proxy}
use lod.Cache.Backends.{Stores}
use lod.Cache.{Cache}
use lod.Web.{Fiber, Reply}
use lod.Helpers.Upstream.{ProxyResponse}
use lod.Handlers.Proxy.Flights.{
  FlightGroup, FlightGroupLaws, Call, arrived, waits, done, Server, Turn, runs, turn, run, opened,
}
use lod.Handlers.Proxy.Flights.Progress.{
  wait_weight, weigh_done, weigh_most, weigh_four, ended_weight, weight,
}
use lod.Handlers.Proxy.Flights.Live.{
  IsFetching, IsAwaited, IsBelow, IsLive, IsCalled, opened-IsLive,
}
use lod.Handlers.Proxy.Flights.Waits.{run-IsLive}
use lod.Handlers.Proxy.Flights.Turns.{
  own-Effect, turn_stage, turn_weight, run_weight, run-append, own_ended, run-IsCalled, run-Grows,
}

-- A round has a turn of each of the first `n` requests, and none of another request.
pub record IsRound (n : ℕ) (turns : List Turn) : Type 0 where
  pub every :
      (j : ℕ)
      → j < n
      → (shared : Bool) × (front : List Turn) × (back : List Turn) × (turns
          ≡ front ++ runs j shared ∷ back)
  pub below : All (IsBelow n) turns

module _ {Opts : Type 0} {s : Stores} {f : Fiber} {g : FlightGroup} (sum256 : List ℕ → List ℕ)
    (with_query : Text → Text → Result Text Text) (proxies : ℕ → Proxy Opts) (calls : ℕ → Call)
    (blank : Reply f) where
  abbrev after : List Turn → Server Opts s f g → Server Opts s f g
  after = run sum256 with_query proxies calls blank

  abbrev next : Turn → Server Opts s f g → Server Opts s f g
  next = turn sum256 with_query proxies calls blank

  -- A call has ended at the end of a round.
  round_ended :
      (n j : ℕ) (turns : List Turn) (st : Server Opts s f g)
      → IsRound n turns
      → j < n
      → IsCalled j st
      → (after turns st).ended j ≢ none
  unfolding run
  round_ended n j turns st round low h =
      let (shared, front, back, split) = round.every j low in
      let there : Server Opts s f g = after front st in
      rw (split, run-append sum256 with_query proxies calls blank front (runs j shared ∷ back) st)
        (run-Grows sum256 with_query proxies calls blank back (next (runs j shared) there) j (
          own_ended sum256 with_query proxies calls blank j shared there
            (run-IsCalled sum256 with_query proxies calls blank j front st h)))

  -- A request that waits, where it has not come nearer to its end.
  waits_on :
      (m j : ℕ) (key : Text) (turns : List Turn) (st : Server Opts s f g)
      → st.stage m ≡ waits j key
      → ((after turns st).stage m ≡ waits j key) ⊎ (weight m (after turns st) ≤ 3)
  unfolding run
  waits_on m j key [] st e = inl e
  waits_on m j key (t ∷ turns) st e =
      elim (turn_stage sum256 with_query proxies calls blank m t st) [
        | inl kept ↦ waits_on m j key turns (next t st) (kept ∙ e)
        | inr less ↦ inr (
            omega (
              arith,
              less,
              run_weight sum256 with_query proxies calls blank m turns (next t st),
              wait_at_most m j key st e,
            ))
      ]
    where
      at_most : (o : Option (Result Text ProxyResponse)) → wait_weight o ≤ 4
      at_most none = omega arith
      at_most (some r) = omega arith

      wait_at_most :
          (m j : ℕ) (key : Text) (st : Server Opts s f g)
          → st.stage m ≡ waits j key
          → weight m st ≤ 4
      wait_at_most m j key st e = rw e (at_most (st.ended j))

  module _ (n : ℕ) (turns : List Turn) (round : IsRound n turns) (st : Server Opts s f g)
      (live : IsLive n st) where
    fetching_low : (j : ℕ) → IsFetching (st.stage j) → j < n
    fetching_low j flies = elim (dec_lt j n) [
      | yes low ↦ low
      | no high ↦
          let late : st.stage j ≡ arrived = live.late j (omega arith) in
          absurd (subst IsFetching late flies)
    ]

    -- A round brings a request that waits nearer to its end.
    waiting_round :
        (m j : ℕ) (key : Text)
        → st.stage m ≡ waits j key
        → st.ended j ≡ none
        → weight m (after turns st) ≤ 3
    waiting_round m j key e missing = elim (waits_on m j key turns st e) [
      | inl still ↦ rw still (ended_weight j (after turns st).ended given)
      | inr less ↦ less
    ]
      where
        awaited : IsFetching (st.stage j) ⊎ (st.ended j ≢ none)
        awaited = subst (IsAwaited st.ended st.stage) e (live.waiting m)

        given : (after turns st).ended j ≢ none
        given = elim awaited [
          | inl flies ↦ round_ended n j turns st round (fetching_low j flies) (inl flies)
          | inr k ↦ absurd (k missing)
        ]

    -- And one that does not wait.
    moving_round :
        (m w : ℕ) → m < n → weight m st ≢ 4 → weight m st ≤ suc w → weight m (after turns st) ≤ w
    unfolding run
    moving_round m w low moves h =
        let (shared, front, back, split) = round.every m low in
        let there : Server Opts s f g = after front st in
        let here : Server Opts s f g = next (runs m shared) there in
        let first : weight m there ≤ weight m st =
          run_weight sum256 with_query proxies calls blank m front st in
        let last : weight m (after back here) ≤ weight m here =
          run_weight sum256 with_query proxies calls blank m back here in
        let own : weight m here ≤ weight m there =
          turn_weight sum256 with_query proxies calls blank m (runs m shared) there in
        rw (split, run-append sum256 with_query proxies calls blank front (runs m shared ∷ back) st)
          (elim (own-Effect sum256 with_query proxies calls blank m shared there).drops [
            | inl less ↦ omega arith
            | inr (inl over, kept) ↦ omega arith
            | inr (inr four, kept) ↦ omega arith
          ])

    round_weight : (m w : ℕ) → m < n → weight m st ≤ suc w → weight m (after turns st) ≤ w
    round_weight m w low h = elim (ℕ_discrete (weight m st) 4) [
      | no moves ↦ moving_round m w low moves h
      | yes four ↦
          let (j, key, e, missing) = weigh_four st.ended (st.stage m) four in
          omega (arith, waiting_round m j key e missing)
    ]

  -- The rounds in turn.
  abbrev pub play : List (List Turn) → Server Opts s f g → Server Opts s f g
  play [] st = st
  play (turns ∷ rounds) st = play rounds (after turns st)

  weight-play :
      (n m : ℕ) (rounds : List (List Turn)) (w : ℕ) (st : Server Opts s f g)
      → FlightGroupLaws g
      → m < n
      → All (IsRound n) rounds
      → IsLive n st
      → weight m st ≤ w
      → w ≤ length rounds
      → weight m (play rounds st) ≤ 0
  weight-play n m [] w st laws low h live weighs many = omega arith
  weight-play n m (turns ∷ rounds) w st laws low h live weighs many =
      weight-play n m rounds (length rounds) (after turns st) laws low h.1
        (run-IsLive laws sum256 with_query proxies calls blank n turns st h.0.below live)
        (round_weight n turns h.0 st live m (length rounds) low (omega arith)) (omega arith)

  -- Let the flight group obey its laws, and let a session of the first `n` requests have come to some point,
  -- from any caches. Then after six more rounds, each of which has a turn of every one of the `n`
  -- requests, in any order and with any turns of theirs, of the goroutines that store tiles and of the
  -- administration in between, each of them is done.
  pub rounds-done :
      FlightGroupLaws g
      → (n m : ℕ) (caches : ℕ → Cache Opts s) (before : List Turn) (rounds : List (List Turn))
      → m < n
      → All (IsBelow n) before
      → All (IsRound n) rounds
      → 6 ≤ length rounds
      → (status : Option Text) × (reply : Result (Unit {0}) (Reply f)) × ((play rounds
              (after before (opened caches))).stage
            m
          ≡ done status reply)
  rounds-done laws n m caches before rounds low begun h many =
      let st : Server Opts s f g = after before (opened caches) in
      let live : IsLive n st =
        run-IsLive laws sum256 with_query proxies calls blank n before (opened caches) begun
          (opened-IsLive n laws caches) in
      weigh_done (play rounds st).ended ((play rounds st).stage m)
        (weight-play n m rounds 6 st laws low h live (weigh_most st.ended (st.stage m)) many)
