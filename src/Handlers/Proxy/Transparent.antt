-- ===== src/Handlers/Proxy/Transparent.antt =====
-- A session of requests and of the administration's calls, against the tile server alone
-- (www/handlers/proxy/proxy.go).
use lod.Prelude.{
  ℕ, List, [], ◌∷◌, All, length, Result, ok, err, panic, ok-injective, ◌≡◌, ◌⊎◌, inl, inr, refl,
}
use lod.Prelude.Text.{Text}
use lod.Config.{Proxy}
use lod.Cache.Backends.{Stores, StoresFrames}
use lod.Cache.{Cache, fetch, invalidate, flush_internal, run_background}
use lod.Cache.FaithfulFetch.{fetch-IsFaithful}
use lod.Cache.Faithful.{
  IsFaithful, invalidate-IsFaithful, flush_internal-IsFaithful, run_background-IsFaithful,
}
use lod.Web.{Fiber, Reply}
use lod.Helpers.{Request, fill_params_map}
use lod.Helpers.Upstream.{Agent}
use lod.Handlers.Proxy.{Flight, build_key_and_url, after_named, handle}
use lod.Handlers.Proxy.Faithful.{IsRightFlight, fetched-Answers}

-- The request's URL and key, after its parameters are filled in.
abbrev pub named :
    {Opts : Type 0}
    → (Text → Text → Result Text Text)
    → Proxy Opts
    → Request Text
    → Result Text (Text × Text)
named with_query p ctx = build_key_and_url with_query p (fill_params_map p ctx)

-- Whatever the request's key and URL are, its flight gives what is right for the key.
abbrev pub IsRightFor :
    {Opts : Type 0}
    → (Text → List ℕ → Type 0)
    → Agent
    → (Text → Text → Result Text Text)
    → Proxy Opts
    → Request Text
    → Flight
    → Type 0
IsRightFor Right agent with_query p ctx flight =
    (tile_url key : Text)
    → named with_query p ctx ≡ ok (tile_url, key)
    → IsRightFlight Right agent p tile_url key flight

-- A reply has no body and the status 400 or 500, or a body that is right for the request's key.
abbrev pub IsRightReply :
    {Opts : Type 0} {f : Fiber}
    → (Text → List ℕ → Type 0)
    → (Text → Text → Result Text Text)
    → Proxy Opts
    → Request Text
    → Reply f
    → Type 0
IsRightReply Right with_query p ctx r =
    ((r.status ≡ 400) × (r.body ≡ []))
    ⊎ (((r.status ≡ 500) × (r.body ≡ []))
        ⊎ ((tile_url : Text) × (key : Text) × (named with_query p ctx ≡ ok (tile_url, key))
            × Right key r.body))

-- What happens to a cache: a request, the end of the goroutines that are waiting, or a call of the
-- administration.
pub data Event : Type 0 where
  requests : Request Text → Flight → Event
  finishes : Event
  invalidates : Text → Event
  flushes : Event

module _ {Opts : Type 0} {s : Stores} {f : Fiber} (sum256 : List ℕ → List ℕ) (agent : Agent)
    (with_query : Text → Text → Result Text Text) (p : Proxy Opts) (blank : Reply f) where
  -- The cache after an event.
  unfoldable pub after_event : Event → Cache Opts s → Cache Opts s
  after_event (requests ctx flight) c = (handle sum256 agent with_query p ctx flight blank c).cache
  after_event finishes c = run_background c
  after_event (invalidates key) c = (invalidate key c).0
  after_event flushes c = (flush_internal c).0

  -- The requests of a session with their replies, `panic` for a request that panics.
  unfoldable pub replies :
      List Event → Cache Opts s → List (Request Text × Result (Unit {0}) (Reply f))
  replies [] c = []
  replies (requests ctx flight ∷ events) c =
      (ctx, (handle sum256 agent with_query p ctx flight blank c).reply)
      ∷ replies events (after_event (requests ctx flight) c)
  replies (finishes ∷ events) c = replies events (after_event finishes c)
  replies (invalidates key ∷ events) c = replies events (after_event (invalidates key) c)
  replies (flushes ∷ events) c = replies events (after_event flushes c)

module _ {Opts : Type 0} (Right : Text → List ℕ → Type 0) (agent : Agent)
    (with_query : Text → Text → Result Text Text) (p : Proxy Opts) where
  abbrev pub IsRightEvent : Event → Type 0
  IsRightEvent (requests ctx flight) = IsRightFor Right agent with_query p ctx flight
  IsRightEvent finishes = Unit {0}
  IsRightEvent (invalidates key) = Unit {0}
  IsRightEvent flushes = Unit {0}

-- A request's reply is right for it, if there is one.
abbrev pub IsRightOutcome :
    {Opts : Type 0} {f : Fiber}
    → (Text → List ℕ → Type 0)
    → (Text → Text → Result Text Text)
    → Proxy Opts
    → Request Text × Result (Unit {0}) (Reply f)
    → Type 0
IsRightOutcome Right with_query p (ctx, ok r) = IsRightReply Right with_query p ctx r
IsRightOutcome Right with_query p (ctx, err e) = Unit {0}
IsRightOutcome Right with_query p (ctx, panic) = Unit {0}

module _ {Opts : Type 0} {s : Stores} {f : Fiber} (frames : StoresFrames s)
    (sum256 : List ℕ → List ℕ) (sized : (b : List ℕ) → length (sum256 b) ≡ 32)
    (Right : Text → List ℕ → Type 0) (agent : Agent) (with_query : Text → Text → Result Text Text)
    (p : Proxy Opts) (blank : Reply f) (empty : blank.body ≡ []) where
  named-Answers :
      (ctx : Request Text) (flight : Flight) (c : Cache Opts s) (n : Result Text (Text × Text))
      → IsFaithful sum256 Right c
      → named with_query p ctx ≡ n
      → ((tile_url key : Text)
          → n ≡ ok (tile_url, key)
          → IsRightFlight Right agent p tile_url key flight)
      → IsFaithful sum256 Right (after_named sum256 agent p flight blank c n).cache
        × ((r : Reply f)
            → (after_named sum256 agent p flight blank c n).reply ≡ ok r
            → IsRightReply Right with_query p ctx r)
  unfolding after_named
  named-Answers ctx flight c (err status) h e right =
      (h, λ r q. rw (← ok-injective q) (inl (refl, refl)))
  named-Answers ctx flight c panic h e right = (h, λ r q. absurd (cc))
  named-Answers ctx flight c (ok (tile_url, key)) h e right =
      let a =
        fetched-Answers frames sum256 sized Right agent p tile_url key flight blank
          (fetch sum256 key c) (fetch-IsFaithful sum256 Right frames sized c key h) empty
          (right tile_url key refl) in
      (
        a.faithful,
        λ r q. elim (a.answer r q) [
          | inl failed ↦ inr (inl failed)
          | inr body ↦ inr (inr (tile_url, key, e, body))
        ],
      )

  pub outcome_of :
      (ctx : Request Text) (outcome : Result (Unit {0}) (Reply f))
      → ((r : Reply f) → outcome ≡ ok r → IsRightReply Right with_query p ctx r)
      → IsRightOutcome Right with_query p (ctx, outcome)
  outcome_of ctx (ok r) h = h r refl
  outcome_of ctx (err e) h = tt
  outcome_of ctx panic h = tt

  -- `handle` keeps a faithful cache faithful, and its reply is right for the request.
  handle-IsRightReply :
      (ctx : Request Text) (flight : Flight) (c : Cache Opts s)
      → IsFaithful sum256 Right c
      → IsRightFor Right agent with_query p ctx flight
      → IsFaithful sum256 Right (handle sum256 agent with_query p ctx flight blank c).cache
        × ((r : Reply f)
            → (handle sum256 agent with_query p ctx flight blank c).reply ≡ ok r
            → IsRightReply Right with_query p ctx r)
  unfolding handle
  handle-IsRightReply ctx flight c h right =
      named-Answers ctx flight c (named with_query p ctx) h refl right

  -- The proxy refines the tile server. Let the stores keep their frames, checksums have 32 bytes, and
  -- replies begin empty; let `Right` say which bodies are right for a key, and let every fetch of a
  -- session give, where it gives a tile (the status 204, or 200 with a body), one below 4 GiB that is right
  -- for its request's key. Then, from a cache that holds only right packets, whatever the order of
  -- requests, of runs of the goroutines that wait, of invalidations and of flushes, every request that
  -- does not panic has a reply with a body that is right for its key, or with no body and the
  -- status 400 or 500.
  pub replies_refine :
      (events : List Event) (c : Cache Opts s)
      → IsFaithful sum256 Right c
      → All (IsRightEvent Right agent with_query p) events
      → All (IsRightOutcome Right with_query p) (replies sum256 agent with_query p blank events c)
  unfolding replies after_event
  replies_refine [] c h right = tt
  replies_refine (requests ctx flight ∷ events) c h right =
      let (kept, answered) = handle-IsRightReply ctx flight c h right.0 in
      (outcome_of ctx _ answered, replies_refine events _ kept right.1)
  replies_refine (finishes ∷ events) c h right =
      replies_refine events _ (run_background-IsFaithful sum256 Right frames c h) right.1
  replies_refine (invalidates key ∷ events) c h right =
      replies_refine events _ (invalidate-IsFaithful sum256 Right frames c key h) right.1
  replies_refine (flushes ∷ events) c h right =
      replies_refine events _ (flush_internal-IsFaithful sum256 Right frames c h) right.1
