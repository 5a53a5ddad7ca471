-- ===== src/Handlers/Admin/Flushing.antt =====
-- The replies of `Flush` (www/handlers/admin/flush.go).
use lod.Prelude.{
  List, [], ◌∷◌, true, Result, ok, Option, none, some, ◌≡◌, inl, inr, refl, sym, ap, arith,
  Bool-cases, Option-cases, subst,
}
use lod.Prelude.Text.{Text, codes, text_eq, text_eq_refl}
use lod.Prelude.Dict.{lookup-insert}
use lod.Config.{Proxy}
use lod.Cache.Backends.{Stores}
use lod.Cache.{Cache, flush_internal}
use lod.Cache.Registry.{Registry, get, is_configured}
use lod.Cache.Registered.{Holds}
use lod.Web.{Fiber, Reply}
use lod.Handlers.Admin.Tiles.{put}
use lod.Handlers.Admin.Endpoints.{
  status_ok, no_name, flush_failed, flush_found, flush_cache, flush_on, flush_all, after_flush,
  flush_named, flush_by_name, flush,
}

module _ {Opts : Type 0} {s : Stores} where
  -- Every configured proxy has a cache.
  abbrev pub IsServed : List (Proxy Opts) → Registry Opts s → Type 0
  IsServed proxies r = (name : Text) → is_configured proxies name ≡ true → Holds r name

  pub flush_cache-returns :
      (name : Text) (r : Registry Opts s)
      → Holds r name
      → (c : Cache Opts s) × (get name r ≡ some c)
        × (flush_cache name r ≡ (ok (flush_internal c).1, put name (flush_internal c).0 r))
  unfolding flush_cache flush_found
  flush_cache-returns name r h = elim (Option-cases (get name r)) [
    | inl missing ↦ absurd (h missing)
    | inr (c, e) ↦ (c, e, ap (λ (o : Option (Cache Opts s)). flush_found name o r) e)
  ]

  pub put-Holds :
      (name other : Text) (c : Cache Opts s) (r : Registry Opts s)
      → Holds r other
      → Holds (put name c r) other
  unfolding put get
  put-Holds name other c r h missing = elim (Bool-cases (text_eq name other)) [
    | inl same ↦ absurd (ground (arith, lookup-insert name other c r.caches))
    | inr differs ↦ h (ground (arith, lookup-insert name other c r.caches))
  ]

  flush_on-returns :
      (e : Option Text) (r : Registry Opts s)
      (rest : Result (Unit {0}) (Option Text) × Registry Opts s)
      → ((failed : Option Text) × (rest.0 ≡ ok failed))
      → (failed : Option Text) × ((flush_on (ok e, r) rest).0 ≡ ok failed)
  unfolding flush_on
  flush_on-returns none r rest h = h
  flush_on-returns (some e) r rest h = (some e, refl)

  pub flush_all-returns :
      (proxies : List (Proxy Opts)) (r : Registry Opts s)
      → IsServed proxies r
      → (failed : Option Text) × ((flush_all proxies r).0 ≡ ok failed)
  unfolding flush_all
  flush_all-returns [] r h = (none, refl)
  flush_all-returns (p ∷ ps) r h =
      let (c, found, e) =
        flush_cache-returns p.name r (h p.name (ground (arith, text_eq_refl p.name))) in
      let r' = put p.name (flush_internal c).0 r in
      let later : IsServed ps r' =
        λ name k. put-Holds p.name name (flush_internal c).0 r (h name (ground arith)) in
      subst (λ x. (failed : Option Text) × ((flush_on x (flush_all ps x.1)).0 ≡ ok failed)) (sym e)
        (flush_on-returns (flush_internal c).1 r' (flush_all ps r') (flush_all-returns ps r' later))

  after_flush-returns :
      {f : Fiber} (reply : Reply f) (left : Result (Unit {0}) (Option Text) × Registry Opts s)
      (failed : Option Text)
      → left.0 ≡ ok failed
      → (reply' : Reply f) × ((after_flush reply left).0 ≡ ok reply')
  unfolding after_flush
  after_flush-returns reply (x, r) none h = (status_ok reply, rw h refl)
  after_flush-returns reply (x, r) (some e) h = (flush_failed e reply, rw h refl)

  flush_named-returns :
      {f : Fiber} (proxies : List (Proxy Opts)) (name : Text) (reply : Reply f)
      (r : Registry Opts s)
      → IsServed proxies r
      → (reply' : Reply f) × ((flush_named proxies name reply r).0 ≡ ok reply')
  unfolding flush_named
  flush_named-returns [] name reply r h = (_, refl)
  flush_named-returns (p ∷ ps) name reply r h = elim (Bool-cases (text_eq p.name name)) [
    | inl same ↦
        let (c, found, e) =
          flush_cache-returns p.name r (h p.name (ground (arith, text_eq_refl p.name))) in
        let (reply', eq) =
          after_flush-returns reply (flush_cache p.name r) (flush_internal c).1 (rw e refl) in
        (reply', rw same eq)
    | inr differs ↦
        let (reply', eq) = flush_named-returns ps name reply r (λ n k. h n (ground arith)) in
        (reply', rw differs eq)
  ]

  -- While every configured proxy has a cache, `Flush` replies on every path and for every name that the
  -- middleware has set: it does not panic.
  pub flush-returns :
      {f : Fiber} (proxies : List (Proxy Opts)) (path name : Text) (reply : Reply f)
      (r : Registry Opts s)
      → IsServed proxies r
      → (reply' : Reply f) × ((flush proxies path (some name) reply r).0 ≡ ok reply')
  unfolding flush flush_by_name
  flush-returns proxies path name reply r h =
      let (failed, e) = flush_all-returns proxies r h in
      let (all, eq) = after_flush-returns reply (flush_all proxies r) failed e in
      let (one, eq') = flush_named-returns proxies name reply r h in
      elim (Bool-cases (text_eq path (codes "/admin/flush"))) [
        | inl global ↦ (all, rw global eq)
        | inr other ↦ elim (Bool-cases (text_eq name [])) [
          | inl empty ↦ (no_name reply, rw (other, empty) refl)
          | inr full ↦ (one, rw (other, full) eq')
        ]
      ]
