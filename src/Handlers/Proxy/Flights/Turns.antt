-- ===== src/Handlers/Proxy/Flights/Turns.antt =====
-- What the turns of requests that are handled at the same time do to the others
-- (www/handlers/proxy/proxy.go).
use lod.Prelude.{
  ℕ, ◌==◌, ==_iff, ◌≤◌, ◌<◌, List, [], ◌∷◌, ◌++◌, Bool, Bool-cases, Result, none, ◌≡◌, ◌≢◌, refl,
  subst, ◌⊎◌, inl, inr, arith,
}
use lod.Prelude.Text.{Text}
use lod.Config.{Proxy}
use lod.Cache.Backends.{Stores}
use lod.Web.{Fiber, Reply}
use lod.Handlers.Proxy.Flights.{
  FlightGroup, Call, Stage, arrived, missed, fetches, waits, landed, leaves, done, Server, Turn,
  runs, finishes, invalidates, flushes, lands, advance, turn, run,
}
use lod.Handlers.Proxy.Flights.Steps.{put_same}
use lod.Handlers.Proxy.Flights.Progress.{Grows, weigh_grown, weight, Effect, advance-Effect}
use lod.Handlers.Proxy.Flights.Live.{IsFetching, IsCalled}

module _ {Opts : Type 0} {s : Stores} {f : Fiber} {g : FlightGroup} (sum256 : List ℕ → List ℕ)
    (with_query : Text → Text → Result Text Text) (proxies : ℕ → Proxy Opts) (calls : ℕ → Call)
    (blank : Reply f) where
  abbrev after : List Turn → Server Opts s f g → Server Opts s f g
  after = run sum256 with_query proxies calls blank

  abbrev next : Turn → Server Opts s f g → Server Opts s f g
  next = turn sum256 with_query proxies calls blank

  pub own-Effect :
      (i : ℕ) (shared : Bool) (st : Server Opts s f g) → Effect i st (next (runs i shared) st)
  unfolding turn
  own-Effect i shared st =
      advance-Effect sum256 with_query proxies calls blank i shared (st.stage i) st refl

  pub turn-Grows : (t : Turn) (st : Server Opts s f g) → Grows st.ended (next t st).ended
  unfolding turn
  turn-Grows (runs i shared) st j h = (own-Effect i shared st).grows j h
  turn-Grows (finishes m) st j h = h
  turn-Grows (invalidates m key) st j h = h
  turn-Grows (flushes m) st j h = h

  -- What a turn leaves of another request's stage, or of its own.
  pub turn_stage :
      (m : ℕ) (t : Turn) (st : Server Opts s f g)
      → ((next t st).stage m ≡ st.stage m) ⊎ (weight m (next t st) < weight m st)
  unfolding turn
  turn_stage m (runs i shared) st = elim (Bool-cases (m == i)) [
    | inl same ↦
        rw ((==_iff m i).0 same)
          (elim (own-Effect i shared st).drops [ inl less ↦ inr less | inr kept ↦ inl kept.1 ])
    | inr other ↦ inl ((own-Effect i shared st).others m (λ e. absurd (cc ((==_iff m i).1 e))))
  ]
  turn_stage m (finishes n) st = inl refl
  turn_stage m (invalidates n key) st = inl refl
  turn_stage m (flushes n) st = inl refl

  pub turn_weight : (m : ℕ) (t : Turn) (st : Server Opts s f g) → weight m (next t st) ≤ weight m st
  turn_weight m t st = elim (turn_stage m t st) [
    | inl kept ↦ rw kept (weigh_grown st.ended (next t st).ended (turn-Grows t st) (st.stage m))
    | inr less ↦ omega arith
  ]

  pub run_weight :
      (m : ℕ) (turns : List Turn) (st : Server Opts s f g) → weight m (after turns st) ≤ weight m st
  unfolding run
  run_weight m [] st = omega arith
  run_weight m (t ∷ turns) st = omega (arith, turn_weight m t st, run_weight m turns (next t st))

  pub run-append :
      (front back : List Turn) (st : Server Opts s f g)
      → after (front ++ back) st ≡ after back (after front st)
  unfolding run
  run-append [] back st = refl
  run-append (t ∷ front) back st = run-append front back (next t st)

  lands_ended :
      (j : ℕ) (shared : Bool) (x : Stage f) (st : Server Opts s f g)
      → IsFetching x
      → (advance sum256 with_query proxies calls blank j shared x st).ended j ≢ none
  unfolding advance lands
  lands_ended j shared (fetches tile_url key) st h e = absurd (cc (put_same j _ st.ended))
  lands_ended j shared arrived st h e = elim h [ ]
  lands_ended j shared (missed _ _) st h e = elim h [ ]
  lands_ended j shared (waits _ _) st h e = elim h [ ]
  lands_ended j shared (landed _ _ _) st h e = elim h [ ]
  lands_ended j shared (leaves _ _ _) st h e = elim h [ ]
  lands_ended j shared (done _ _) st h e = elim h [ ]

  pub own_ended :
      (j : ℕ) (shared : Bool) (st : Server Opts s f g)
      → IsCalled j st
      → (next (runs j shared) st).ended j ≢ none
  unfolding turn
  own_ended j shared st (inl flies) = lands_ended j shared (st.stage j) st flies
  own_ended j shared st (inr given) = (own-Effect j shared st).grows j given

  turn-IsCalled :
      (j : ℕ) (t : Turn) (st : Server Opts s f g) → IsCalled j st → IsCalled j (next t st)
  unfolding turn
  turn-IsCalled j t st (inr given) = inr (turn-Grows t st j given)
  turn-IsCalled j (runs i shared) st (inl flies) = elim (Bool-cases (j == i)) [
    | inl same ↦ inr (
        rw ((==_iff j i).0 same) (
          own_ended i shared st
            (inl (subst (λ m. IsFetching (st.stage m)) ((==_iff j i).0 same) flies))))
    | inr other ↦
        inl (rw ((own-Effect i shared st).others j (λ e. absurd (cc ((==_iff j i).1 e)))) flies)
  ]
  turn-IsCalled j (finishes m) st (inl flies) = inl flies
  turn-IsCalled j (invalidates m key) st (inl flies) = inl flies
  turn-IsCalled j (flushes m) st (inl flies) = inl flies

  pub run-IsCalled :
      (j : ℕ) (turns : List Turn) (st : Server Opts s f g)
      → IsCalled j st
      → IsCalled j (after turns st)
  unfolding run
  run-IsCalled j [] st h = h
  run-IsCalled j (t ∷ turns) st h = run-IsCalled j turns (next t st) (turn-IsCalled j t st h)

  pub run-Grows :
      (turns : List Turn) (st : Server Opts s f g) → Grows st.ended (after turns st).ended
  unfolding run
  run-Grows [] st j h = h
  run-Grows (t ∷ turns) st j h = run-Grows turns (next t st) j (turn-Grows t st j h)
