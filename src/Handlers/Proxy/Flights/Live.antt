-- ===== src/Handlers/Proxy/Flights/Live.antt =====
-- Whom the requests wait for, of those that are handled at the same time (www/handlers/proxy/proxy.go).
use lod.Prelude.{
  ℕ, ◌==◌, ==_iff, ◌≤◌, ◌<◌, Bool-cases, Result, Option, none, some, ◌≡◌, ◌≢◌, refl, sym, subst,
  ◌∙◌, ◌⊎◌, inl, inr, arith,
}
use lod.Prelude.Text.{Text}
use lod.Cache.Backends.{Stores}
use lod.Cache.{Cache}
use lod.Web.{Fiber}
use lod.Helpers.Upstream.{ProxyResponse}
use lod.Handlers.Proxy.Flights.{
  FlightGroup, FlightGroupLaws, Stage, arrived, missed, fetches, waits, landed, leaves, done,
  Server, put, Turn, runs, opened,
}
use lod.Handlers.Proxy.Flights.Steps.{put_same, put_other}
use lod.Handlers.Proxy.Flights.Progress.{Grows}

abbrev pub IsFetching : {f : Fiber} → Stage f → Type 0
IsFetching (fetches tile_url key) = Unit {0}
IsFetching x = ⊥

abbrev pub IsFlying : {f : Fiber} → Text → Stage f → Type 0
IsFlying key (fetches tile_url k) = k ≡ key
IsFlying key x = ⊥

pub IsFlying-IsFetching : {f : Fiber} (key : Text) (x : Stage f) → IsFlying key x → IsFetching x
IsFlying-IsFetching key (fetches tile_url k) h = tt
IsFlying-IsFetching key x h = ground arith

-- The call that a request waits for is going on or has ended.
abbrev pub IsAwaited :
    {f : Fiber} → (ℕ → Option (Result Text ProxyResponse)) → (ℕ → Stage f) → Stage f → Type 0
IsAwaited ended stage (waits j key) = IsFetching (stage j) ⊎ (ended j ≢ none)
IsAwaited ended stage x = Unit {0}

-- A turn of the first `n` requests.
abbrev pub IsBelow : ℕ → Turn → Type 0
IsBelow n (runs i shared) = i < n
IsBelow n t = Unit {0}

module _ {Opts : Type 0} {s : Stores} {f : Fiber} {g : FlightGroup} where
  -- Only the first `n` requests have begun, and nobody waits in vain.
  pub record IsLive (n : ℕ) (st : Server Opts s f g) : Type 0 where
    pub flying :
        (key : Text) (j : ℕ) → g.under_way key st.group ≡ some j → IsFlying key (st.stage j)
    pub waiting : (i : ℕ) → IsAwaited st.ended st.stage (st.stage i)
    pub late : (m : ℕ) → n ≤ m → st.stage m ≡ arrived

  pub opened-IsLive :
      (n : ℕ) → FlightGroupLaws g → (caches : ℕ → Cache Opts s) → IsLive n (opened caches)
  opened-IsLive n laws caches = record {
    flying = λ key j e. absurd (cc (laws.none_at_first key));
    waiting = λ i. tt;
    late = λ m h. refl;
  }

  -- The call that is under way is not a request's that is elsewhere.
  pub away :
      (n i j : ℕ) (key : Text) (st : Server Opts s f g)
      → IsLive n st
      → (IsFetching (st.stage i) → ⊥)
      → g.under_way key st.group ≡ some j
      → j ≢ i
  away n i j key st h elsewhere under e = elsewhere (
      subst (λ m. IsFetching (st.stage m)) e
        (IsFlying-IsFetching key (st.stage j) (h.flying key j under)))

  -- A request goes on to another stage, with a flight group and results that allow it.
  pub goes_on :
      (n i : ℕ) (y : Stage f) (st : Server Opts s f g) (caches : ℕ → Cache Opts s) (group : g.Calls)
      (ended : ℕ → Option (Result Text ProxyResponse))
      → IsLive n st
      → i < n
      → Grows st.ended ended
      → (IsFetching (st.stage i) → ended i ≢ none)
      → ((key : Text) (j : ℕ)
          → g.under_way key group ≡ some j
          → ((j ≡ i) × IsFlying key y) ⊎ ((j ≢ i) × (g.under_way key st.group ≡ some j)))
      → IsAwaited st.ended st.stage y
      → IsLive n
          (record { caches = caches; group = group; ended = ended; stage = put i y st.stage })
  goes_on n i y st caches group ended h low grows over flights awaited = record {
    flying = λ key j e. elim (flights key j e) [
      | inl (same, flies) ↦ rw same (subst (IsFlying key) (sym (put_same i y st.stage)) flies)
      | inr (other, old) ↦
          subst (IsFlying key) (sym (put_other i j y st.stage other)) (h.flying key j old)
    ];
    waiting = λ m. elim (Bool-cases (m == i)) [
      | inl same ↦ rw same (still_awaited y awaited)
      | inr other ↦ rw other (still_awaited (st.stage m) (h.waiting m))
    ];
    late = λ m k. put_other i m y st.stage (λ e. omega arith) ∙ h.late m k;
  }
    where
      moved_on :
          (j : ℕ) → IsFetching (st.stage j) → IsFetching (put i y st.stage j) ⊎ (ended j ≢ none)
      moved_on j flies = elim (Bool-cases (j == i)) [
        | inl same ↦ inr (
            rw ((==_iff j i).0 same)
              (over (subst (λ m. IsFetching (st.stage m)) ((==_iff j i).0 same) flies)))
        | inr other ↦ inl (rw other flies)
      ]

      still_awaited :
          (x : Stage f) → IsAwaited st.ended st.stage x → IsAwaited ended (put i y st.stage) x
      still_awaited (waits j key) (inl flies) = moved_on j flies
      still_awaited (waits j key) (inr given) = inr (grows j given)
      still_awaited arrived k = tt
      still_awaited (missed tile_url key) k = tt
      still_awaited (fetches tile_url key) k = tt
      still_awaited (landed key result waited) k = tt
      still_awaited (leaves key status reply) k = tt
      still_awaited (done status reply) k = tt

  -- The same where neither the flight group nor the results change.
  pub moves_on :
      (n i : ℕ) (y : Stage f) (st : Server Opts s f g) (caches : ℕ → Cache Opts s)
      → IsLive n st
      → i < n
      → (IsFetching (st.stage i) → ⊥)
      → IsAwaited st.ended st.stage y
      → IsLive n
          (record { caches = caches; group = st.group; ended = st.ended; stage = put i y st.stage })
  moves_on n i y st caches h low elsewhere awaited =
      goes_on n i y st caches st.group st.ended h low (λ j k. k) (λ k. absurd (elsewhere k))
        (λ key j e. inr (away n i j key st h elsewhere e, e)) awaited

  -- A stage that is not the call.
  pub not_fetching :
      (i : ℕ) (x : Stage f) (st : Server Opts s f g)
      → st.stage i ≡ x
      → (IsFetching x → ⊥)
      → IsFetching (st.stage i)
      → ⊥
  not_fetching i x st e elsewhere k = elsewhere (subst IsFetching e k)

  -- A call that is going on or has ended.
  abbrev pub IsCalled : ℕ → Server Opts s f g → Type 0
  IsCalled j st = IsFetching (st.stage j) ⊎ (st.ended j ≢ none)
