-- ===== src/Handlers/Admin/Invalidation.antt =====
-- What an invalidation (`InvalidateAndPrime`, www/handlers/admin/cache.go) leaves in the memory store,
-- and what it replies.
use lod.Prelude.{
  ℕ, suc, ◌+◌, List, [], ◌∷◌, true, false, Result, ok, some, ◌≡◌, ◌≢◌, ◌⊎◌, refl, sym, ◌∙◌, arith,
  length, All, subst, ap,
}
use mathlib.Core.List.{Memᴰ}
use lod.Prelude.Int.{ℤ}
use lod.Prelude.Text.{Text, text_eq_refl}
use lod.Prelude.Dict.{lookup-insert}
use lod.Config.{Proxy}
use lod.Tile.{Tile, Returns}
use lod.Cache.Backends.{
  Stores, StoresLaws, StoresFrames, Deleted, deleted, was_absent, delete_failed, entry,
}
use lod.Cache.{Cache, invalidate, invalidate_rest, invalidate_external}
use lod.Cache.Registry.{Registry, get}
use lod.Web.{Fiber, Reply}
use lod.Helpers.{Request, key_of, build_cache_key}
use lod.Helpers.Upstream.{Agent}
use lod.Handlers.Admin.Tiles.{
  Payload, Ending, replied, Prepared, ready, report, invalidate_all, put, prepare,
  after_invalidation, Serves, refuses, fails, invalidates, primes, crashes, cannot_start,
}

All-of_mem : {P : Tile → Type 0} (ts : List Tile) → ((t : Tile) → Memᴰ t ts → P t) → All P ts
All-of_mem [] h = tt
All-of_mem (t ∷ ts) h = (h t (Memᴰ.head refl), All-of_mem ts (λ u m. h u (Memᴰ.tail m)))

module _ {Opts : Type 0} {s : Stores} where
  invalidate_external-internal :
      (key : Text) (c : Cache Opts s)
      → ((invalidate_external key c).0.internal ≡ c.internal)
        × ((invalidate_external key c).0.proxy ≡ c.proxy)
  unfolding invalidate_external
  invalidate_external-internal key c = ground arith

  invalidate_rest-internal :
      (key : Text) (d : Deleted) (c : Cache Opts s)
      → ((invalidate_rest key d c).0.internal ≡ c.internal)
        × ((invalidate_rest key d c).0.proxy ≡ c.proxy)
  unfolding invalidate_rest
  invalidate_rest-internal key deleted c = invalidate_external-internal key c
  invalidate_rest-internal key was_absent c = invalidate_external-internal key c
  invalidate_rest-internal key (delete_failed e) c = (refl, refl)

  invalidate-internal :
      (key : Text) (c : Cache Opts s)
      → c.proxy.cache.mem_enabled ≡ true
      → ((invalidate key c).0.internal ≡ (s.mem_delete key c.internal).0)
        × ((invalidate key c).0.proxy ≡ c.proxy)
  unfolding invalidate
  invalidate-internal key c on = ground (
    arith,
    invalidate_rest-internal key (s.mem_delete key c.internal).1
        (record c { internal = (s.mem_delete key c.internal).0 }),
  )

  -- Every tile counts as a success, whatever the stores answer.
  invalidate_all-count :
      (p : Proxy Opts) (ctx : Request Text) (ts : List Tile) (n : ℕ) (c : Cache Opts s)
      → (invalidate_all p ctx ts n c).0 ≡ ok (n + length ts)
  unfolding invalidate_all build_cache_key
  invalidate_all-count p ctx [] n c = rw (add-zero n) refl
    where
      add-zero : (n : ℕ) → n + 0 ≡ n
      add-zero n = omega arith
  invalidate_all-count p ctx (t ∷ ts) n c =
      invalidate_all-count p ctx ts (suc n) (invalidate (key_of p ctx t) c).0
      ∙ rw (add-suc n (length ts)) refl
    where
      add-suc : (n m : ℕ) → suc n + m ≡ n + suc m
      add-suc n m = omega arith

  after_count :
      {f : Fiber} (name : Text) (n : ℕ) (reply : Reply f) (r : Registry Opts s)
      (left : Result (Unit {0}) ℕ × Cache Opts s)
      → left.0 ≡ ok n
      → after_invalidation name n reply r left ≡ (replied (report n n reply), put name left.1 r)
  unfolding after_invalidation
  after_count name n reply r (count, c) h = rw h refl

  ready-injective :
      {f : Fiber} {c d : Cache Opts s} {ctx ctx' : Request Text} {t u : Tile} {z w : ℤ}
      → ◌≡◌ {A = Prepared Opts s f} (ready c ctx t z) (ready d ctx' u w)
      → (c ≡ d) × (ctx ≡ ctx') × (t ≡ u) × (z ≡ w)
  ready-injective e = (cc, cc, cc, cc)

  -- No entry of the memory store has the key.
  abbrev pub IsGone : Text → Cache Opts s → Type 0
  IsGone key c = (x : List ℕ) → s.mem_get key c.internal ≢ entry x

  module _ (laws : StoresLaws s) (frames : StoresFrames s)
      (deletes : (k : Text) (m : s.Mem)
        → ((s.mem_delete k m).1 ≡ deleted) ⊎ ((s.mem_delete k m).1 ≡ was_absent)) where
    invalidate-IsGone :
        (key : Text) (c : Cache Opts s)
        → c.proxy.cache.mem_enabled ≡ true
        → IsGone key (invalidate key c).0
    invalidate-IsGone key c on x h = absurd (
        ground (
          arith,
          laws.mem_get-mem_delete key c.internal (deletes key c.internal),
          (invalidate-internal key c on).0,
        ))

    invalidate-keeps_IsGone :
        (key other : Text) (c : Cache Opts s)
        → c.proxy.cache.mem_enabled ≡ true
        → IsGone key c
        → IsGone key (invalidate other c).0
    invalidate-keeps_IsGone key other c on gone x h = gone x (
        frames.mem_get_after_delete key other x c.internal
          (rw (invalidate-internal other c on).0 at h))

    invalidate_all-keeps_IsGone :
        (p : Proxy Opts) (ctx : Request Text) (ts : List Tile) (n : ℕ) (c : Cache Opts s)
        (key : Text)
        → c.proxy.cache.mem_enabled ≡ true
        → IsGone key c
        → IsGone key (invalidate_all p ctx ts n c).1
    unfolding invalidate_all build_cache_key
    invalidate_all-keeps_IsGone p ctx [] n c key on gone = gone
    invalidate_all-keeps_IsGone p ctx (t ∷ ts) n c key on gone =
        let other = key_of p ctx t in
        invalidate_all-keeps_IsGone p ctx ts (suc n) (invalidate other c).0 key
          (rw (invalidate-internal other c on).1 on) (invalidate-keeps_IsGone key other c on gone)

    invalidate_all-IsGone :
        (p : Proxy Opts) (ctx : Request Text) (ts : List Tile) (n : ℕ) (c : Cache Opts s) (t : Tile)
        → c.proxy.cache.mem_enabled ≡ true
        → Memᴰ t ts
        → IsGone (key_of p ctx t) (invalidate_all p ctx ts n c).1
    unfolding invalidate_all build_cache_key
    invalidate_all-IsGone p ctx [] n c t on h = elim h [ ]
    invalidate_all-IsGone p ctx (u ∷ ts) n c t on (Memᴰ.head e) =
        let key = key_of p ctx u in
        subst (λ v. IsGone (key_of p ctx v) (invalidate_all p ctx (u ∷ ts) n c).1) (sym e)
          (invalidate_all-keeps_IsGone p ctx ts (suc n) (invalidate key c).0 key
            (rw (invalidate-internal key c on).1 on) (invalidate-IsGone key c on))
    invalidate_all-IsGone p ctx (u ∷ ts) n c t on (Memᴰ.tail h) =
        let key = key_of p ctx u in
        invalidate_all-IsGone p ctx ts (suc n) (invalidate key c).0 t
          (rw (invalidate-internal key c on).1 on) h

    -- With stores that keep their laws and frames, whose memory store fails no deletion: an invalidation that is not
    -- refused, of a cache with its memory store on, has a list of tiles that `DeepChildren` returns;
    -- it replies that as many tiles as the list has were attempted and done, with the status "ok"; and
    -- under the cache's name there is then a cache whose memory store has an entry for none of their
    -- keys.
    pub invalidation-serves :
        {f : Fiber} (params_int_or : Text → ℤ → Result Text ℤ) (sum256 : List ℕ → List ℕ)
        (agent : Agent) (with_query : Text → Text → Result Text Text) (payload : Payload)
        (name : Text) (ctx : Request Text) (reply : Reply f) (r r' : Registry Opts s)
        (ending : Ending f) (c : Cache Opts s) (ctx' : Request Text) (t : Tile) (max_zoom : ℤ)
        → payload.prime ≡ false
        → prepare params_int_or payload name ctx reply r ≡ ready c ctx' t max_zoom
        → c.proxy.cache.mem_enabled ≡ true
        → Serves params_int_or sum256 agent with_query payload name ctx reply r ending r'
        → (tiles : List Tile) × (c' : Cache Opts s) × Returns max_zoom t tiles
          × (ending ≡ replied (report (length tiles) (length tiles) reply))
          × (get name r' ≡ some c')
          × All (λ u. IsGone (key_of c.proxy ctx' u) c') tiles
    unfolding get put after_invalidation
    invalidation-serves params_int_or sum256 agent with_query payload name ctx reply r r' ending c
          ctx' t z off e on =
        go
      where
        go :
            Serves params_int_or sum256 agent with_query payload name ctx reply r ending r'
            → (tiles : List Tile) × (c' : Cache Opts s) × Returns z t tiles
              × (ending ≡ replied (report (length tiles) (length tiles) reply))
              × (get name r' ≡ some c')
              × All (λ u. IsGone (key_of c.proxy ctx' u) c') tiles
        go (refuses reply' e' x y) = absurd (cc)
        go (fails e' x y) = absurd (cc)
        go (invalidates d ctx'' u z' tiles e' off' found (x, y)) =
            let (ec, ectx, et, ez) = ready-injective (sym e ∙ e') in
            let all = invalidate_all c.proxy ctx' tiles 0 c in
            let same : invalidate_all d.proxy ctx'' tiles 0 d ≡ all = rw (ec, ectx) refl in
            let from_zero : 0 + length tiles ≡ length tiles = omega arith in
            let counted : all.0 ≡ ok (length tiles) =
              invalidate_all-count c.proxy ctx' tiles 0 c ∙ ap ok from_zero in
            (
              tiles,
              all.1,
              rw (et, ez) found,
              x ∙ (rw (same, after_count name (length tiles) reply r all counted) refl),
              rw (y, same, after_count name (length tiles) reply r all counted)
                  (rw (lookup-insert name name all.1 r.caches, text_eq_refl name) refl),
              All-of_mem tiles (λ v h. invalidate_all-IsGone c.proxy ctx' tiles 0 c v on h),
            )
        go (primes d ctx'' u z' tiles n p e' turned_on found w run over x y) = absurd (cc)
        go (crashes d ctx'' u z' tiles n p e' turned_on found w run down x y) = absurd (cc)
        go (cannot_start d ctx'' u z' tiles n e' turned_on found w x y) = absurd (cc)
