-- ===== src/Handlers/Admin/Serving.antt =====
-- What a whole call of `InvalidateAndPrime` (www/handlers/admin/cache.go) leaves in the caches.
use lod.Prelude.{
  ℕ, List, Result, ok, err, panic, Option, none, some, ◌≡◌, inl, inr, refl, sym, ap, ◌∙◌, subst,
  length, Bool-cases,
}
use lod.Prelude.Int.{ℤ}
use lod.Prelude.Text.{Text, text_eq, eq_of_text_eq}
use lod.Prelude.Dict.{lookup-insert}
use lod.Tile
use lod.Tile.{Tile}
use lod.Cache.Backends.{Stores, StoresFrames}
use lod.Cache.{Cache}
use lod.Cache.Faithful.{IsFaithful}
use lod.Cache.Registry.{Registry, get}
use lod.Web.{Fiber, Reply}
use lod.Helpers.{Request, fill_params_map}
use lod.Helpers.Upstream.{Agent}
use lod.Handlers.Admin.Workers.{start_workers}
use lod.Handlers.Admin.Tiles.{
  Payload, Ending, Prepared, ready, invalidate_all, put, prepare_zoom, prepare_tile, prepare_cache,
  prepare, after_invalidation, Serves, refuses, fails, invalidates, primes, crashes, cannot_start,
}
use lod.Handlers.Admin.Faithful.{IsRightTile, Run-IsFaithful, invalidate_all-IsFaithful}

-- Every cache of the registry holds only what is right for its name and key.
abbrev pub AreFaithful :
    {Opts : Type 0} {s : Stores}
    → (List ℕ → List ℕ)
    → (Text → Text → List ℕ → Type 0)
    → Registry Opts s
    → Type 0
AreFaithful {Opts} {s} sum256 Right r =
    (name : Text) (c : Cache Opts s) → get name r ≡ some c → IsFaithful sum256 (Right name) c

module _ {Opts : Type 0} {s : Stores} where
  some-injective : {c d : Cache Opts s} → ◌≡◌ {A = Option (Cache Opts s)} (some c) (some d) → c ≡ d
  some-injective e = cc

  put-AreFaithful :
      (sum256 : List ℕ → List ℕ) (Right : Text → Text → List ℕ → Type 0) (name : Text)
      (c : Cache Opts s) (r : Registry Opts s)
      → AreFaithful sum256 Right r
      → IsFaithful sum256 (Right name) c
      → AreFaithful sum256 Right (put name c r)
  unfolding put get
  put-AreFaithful sum256 Right name c r all h other d e = elim (Bool-cases (text_eq name other)) [
    | inl same ↦
        let now : d ≡ c =
          some-injective (sym e ∙ (lookup-insert name other c r.caches ∙ rw same refl)) in
        subst (λ n. IsFaithful sum256 (Right n) d) (eq_of_text_eq name other same)
          (subst (IsFaithful sum256 (Right name)) (sym now) h)
    | inr differs ↦ all other d (rw differs at (sym (lookup-insert name other c r.caches) ∙ e))
  ]

  module _ {f : Fiber} (params_int_or : Text → ℤ → Result Text ℤ) where
    ready-cache :
        {c d : Cache Opts s} {ctx ctx' : Request Text} {t u : Tile} {z w : ℤ}
        → ◌≡◌ {A = Prepared Opts s f} (ready c ctx t z) (ready d ctx' u w)
        → c ≡ d
    ready-cache e = cc

    prepare_zoom-ready :
        (c d : Cache Opts s) (ctx ctx' : Request Text) (t u : Tile) (x : Result Text ℤ) (z : ℤ)
        (reply : Reply f)
        → prepare_zoom params_int_or c ctx t x reply ≡ ready d ctx' u z
        → c ≡ d
    unfolding prepare_zoom
    prepare_zoom-ready c d ctx ctx' t u (ok w) z reply e = ready-cache e
    prepare_zoom-ready c d ctx ctx' t u (err x) z reply e = absurd (cc)
    prepare_zoom-ready c d ctx ctx' t u panic z reply e = absurd (cc)

    prepare_tile-ready :
        (payload : Payload) (c d : Cache Opts s) (ctx ctx' : Request Text) (x : Result Text Tile)
        (u : Tile) (z : ℤ) (reply : Reply f)
        → prepare_tile params_int_or payload c ctx x reply ≡ ready d ctx' u z
        → c ≡ d
    unfolding prepare_tile
    prepare_tile-ready payload c d ctx ctx' (ok t) u z reply e =
        prepare_zoom-ready c d ctx ctx' t u _ z reply e
    prepare_tile-ready payload c d ctx ctx' (err x) u z reply e = absurd (cc)
    prepare_tile-ready payload c d ctx ctx' panic u z reply e = absurd (cc)

    prepare_cache-ready :
        (payload : Payload) (o : Option (Cache Opts s)) (d : Cache Opts s) (ctx ctx' : Request Text)
        (u : Tile) (z : ℤ) (reply : Reply f)
        → prepare_cache params_int_or payload o ctx reply ≡ ready d ctx' u z
        → o ≡ some d
    unfolding prepare_cache
    prepare_cache-ready payload none d ctx ctx' u z reply e = absurd (cc)
    prepare_cache-ready payload (some c) d ctx ctx' u z reply e =
        let ctx'' = fill_params_map c.proxy ctx in
        ap some (prepare_tile-ready payload c d ctx'' ctx' (Tile.get ctx''.params_int) u z reply e)

  after_invalidation-registry :
      {f : Fiber} (name : Text) (n : ℕ) (reply : Reply f) (r : Registry Opts s)
      (left : Result (Unit {0}) ℕ × Cache Opts s)
      → (after_invalidation name n reply r left).1 ≡ put name left.1 r
  unfolding after_invalidation
  after_invalidation-registry name n reply r (ok m, c) = refl
  after_invalidation-registry name n reply r (err e, c) = refl
  after_invalidation-registry name n reply r (panic, c) = refl

  -- With stores that keep their frames: let every cache of the registry hold only packets that are
  -- right for its name and key, and let the server give for every tile, where it gives one, a body
  -- below 4 GiB that is right for the tile's key. Then however a call of `InvalidateAndPrime` ends, and in whatever
  -- order its workers take their steps, every cache still holds only packets that are right, and so do
  -- the goroutines that wait to set one.
  pub Serves-AreFaithful :
      {f : Fiber} (frames : StoresFrames s) (params_int_or : Text → ℤ → Result Text ℤ)
      (sum256 : List ℕ → List ℕ) (Right : Text → Text → List ℕ → Type 0) (agent : Agent)
      (with_query : Text → Text → Result Text Text) (payload : Payload) (name : Text)
      (ctx : Request Text) (reply : Reply f) (r r' : Registry Opts s) (ending : Ending f)
      → AreFaithful sum256 Right r
      → ((c : Cache Opts s) (ctx' : Request Text) (t u : Tile) (max_zoom : ℤ)
          → prepare params_int_or payload name ctx reply r ≡ ready c ctx' t max_zoom
          → IsRightTile (Right name) agent with_query c.proxy ctx' u)
      → Serves params_int_or sum256 agent with_query payload name ctx reply r ending r'
      → AreFaithful sum256 Right r'
  unfolding prepare start_workers
  Serves-AreFaithful {f} frames params_int_or sum256 Right agent with_query payload name ctx reply r
        r' ending all right served =
      go served
    where
      Before : Cache Opts s → Type 0
      Before c = IsFaithful sum256 (Right name) c

      held :
          (c : Cache Opts s) (ctx' : Request Text) (t : Tile) (z : ℤ)
          → prepare params_int_or payload name ctx reply r ≡ ready c ctx' t z
          → Before c
      held c ctx' t z e =
          all name c (prepare_cache-ready params_int_or payload (get name r) c ctx ctx' t z reply e)

      go :
          Serves params_int_or sum256 agent with_query payload name ctx reply r ending r'
          → AreFaithful sum256 Right r'
      go (refuses reply' e x y) = rw y all
      go (fails e x y) = rw y all
      go (invalidates c ctx' t z tiles e off found (x, y)) =
          rw
            (
              y,
              after_invalidation-registry name (length tiles) reply r
                  (invalidate_all c.proxy ctx' tiles 0 c),
            )
            (put-AreFaithful sum256 Right name (invalidate_all c.proxy ctx' tiles 0 c).1 r all (
              invalidate_all-IsFaithful frames sum256 (Right name) c.proxy ctx' tiles 0 c
                (held c ctx' t z e)))
      go (primes c ctx' t z tiles n p e on found w run over x y) = rw y (
          put-AreFaithful sum256 Right name p.cache r all (
            Run-IsFaithful frames sum256 (Right name) agent with_query c.proxy ctx'
              (λ u. right c ctx' t u z e) run (held c ctx' t z e)))
      go (crashes c ctx' t z tiles n p e on found w run down x y) = rw y (
          put-AreFaithful sum256 Right name p.cache r all (
            Run-IsFaithful frames sum256 (Right name) agent with_query c.proxy ctx'
              (λ u. right c ctx' t u z e) run (held c ctx' t z e)))
      go (cannot_start c ctx' t z tiles n e on found w x y) = rw y all
