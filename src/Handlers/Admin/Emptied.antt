-- ===== src/Handlers/Admin/Emptied.antt =====
-- What a flush of all caches (`Flush`, www/handlers/admin/flush.go) leaves in their memory stores.
use lod.Prelude.{
  List, [], ◌∷◌, true, Result, ok, Option, none, some, ◌≡◌, ◌⊎◌, inl, inr, refl, sym, ap, ◌∙◌,
  arith, Bool-cases, subst,
}
use lod.Prelude.Text.{Text, codes, text_eq, text_eq_refl}
use lod.Prelude.Dict.{lookup-insert}
use lod.Config.{Proxy}
use lod.Cache.Backends.{Stores, StoresLaws, not_found}
use lod.Cache.{Cache, flush_internal}
use lod.Cache.Writing.{flush_internal_lem}
use lod.Cache.Registry.{Registry, get, is_configured}
use lod.Web.{Fiber, Reply}
use lod.Handlers.Admin.Tiles.{put}
use lod.Handlers.Admin.Endpoints.{status_ok, flush_failed, flush_on, flush_all, after_flush, flush}
use lod.Handlers.Admin.Flushing.{IsServed, flush_cache-returns, put-Holds, flush_all-returns}

module _ {Opts : Type 0} {s : Stores} where
  -- The cache of a name, if it has its memory store on, holds no key in it.
  abbrev pub IsEmptied : Registry Opts s → Text → Type 0
  IsEmptied r name =
      (c : Cache Opts s)
      → get name r ≡ some c
      → c.proxy.cache.mem_enabled ≡ true
      → (key : Text) → s.mem_get key c.internal ≡ not_found

  some-injective : {c d : Cache Opts s} → ◌≡◌ {A = Option (Cache Opts s)} (some c) (some d) → c ≡ d
  some-injective e = cc

  flush_internal-proxy : (c : Cache Opts s) → (flush_internal c).0.proxy ≡ c.proxy
  unfolding flush_internal
  flush_internal-proxy c = ground arith

  flush_on-eq-ok :
      (e : Option Text) (r : Registry Opts s)
      (rest : Result (Unit {0}) (Option Text) × Registry Opts s)
      → (flush_on (ok e, r) rest).0 ≡ ok none
      → (e ≡ none) × (flush_on (ok e, r) rest ≡ rest)
  unfolding flush_on
  flush_on-eq-ok none r rest h = (refl, refl)
  flush_on-eq-ok (some e) r rest h = absurd (cc)

  after_flush-done :
      {f : Fiber} (reply : Reply f) (left : Result (Unit {0}) (Option Text) × Registry Opts s)
      → left.0 ≡ ok none
      → after_flush reply left ≡ (ok (status_ok reply), left.1)
  unfolding after_flush
  after_flush-done reply (x, r) h = rw h refl

  after_flush-failed :
      {f : Fiber} (reply : Reply f) (left : Result (Unit {0}) (Option Text) × Registry Opts s)
      (e : Text)
      → left.0 ≡ ok (some e)
      → (after_flush reply left).0 ≡ ok (flush_failed e reply)
  unfolding after_flush
  after_flush-failed reply (x, r) e h = rw h refl

  module _ (laws : StoresLaws s) where
    -- A cache that was flushed without an error is emptied, and the others are as before.
    put-IsEmptied :
        (name other : Text) (c : Cache Opts s) (r : Registry Opts s)
        → (flush_internal c).1 ≡ none
        → (text_eq name other ≡ true) ⊎ IsEmptied r other
        → IsEmptied (put name (flush_internal c).0 r) other
    unfolding put get
    put-IsEmptied name other c r fine known d e on key = elim (Bool-cases (text_eq name other)) [
      | inl same ↦
          let eq : d ≡ (flush_internal c).0 =
            some-injective
              (sym e ∙ (lookup-insert name other (flush_internal c).0 r.caches ∙ rw same refl)) in
          rw eq
            (flush_internal_lem laws (λ bytes. bytes) key c
              (rw (flush_internal-proxy c) at (rw eq at on)) fine).0
      | inr differs ↦ elim known [
        | inl same ↦ absurd (cc)
        | inr before ↦
            before d
              (rw differs at (sym (lookup-insert name other (flush_internal c).0 r.caches) ∙ e)) on
              key
      ]
    ]

    flush_all-IsEmptied :
        (proxies : List (Proxy Opts)) (r : Registry Opts s) (name : Text)
        → IsServed proxies r
        → (flush_all proxies r).0 ≡ ok none
        → (is_configured proxies name ≡ true) ⊎ IsEmptied r name
        → IsEmptied (flush_all proxies r).1 name
    unfolding flush_all
    flush_all-IsEmptied [] r name h fine (inl listed) = absurd (ground arith)
    flush_all-IsEmptied [] r name h fine (inr emptied) = emptied
    flush_all-IsEmptied (p ∷ ps) r name h fine known =
        let (c, found, e) =
          flush_cache-returns p.name r (h p.name (ground (arith, text_eq_refl p.name))) in
        let r' = put p.name (flush_internal c).0 r in
        let later : IsServed ps r' =
          λ n k. put-Holds p.name n (flush_internal c).0 r (h n (ground arith)) in
        let (flushed, eq) =
          flush_on-eq-ok (flush_internal c).1 r' (flush_all ps r')
            (subst (λ x. (flush_on x (flush_all ps x.1)).0 ≡ ok none) e fine) in
        let whole = ap (λ x. flush_on x (flush_all ps x.1)) e ∙ eq in
        subst (λ x. IsEmptied x.1 name) (sym whole)
          (flush_all-IsEmptied ps r' name later (subst (λ x. x.0 ≡ ok none) whole fine)
            (elim known [
              | inr before ↦ inr (put-IsEmptied p.name name c r flushed (inr before))
              | inl listed ↦ elim (Bool-cases (text_eq p.name name)) [
                | inl same ↦ inr (put-IsEmptied p.name name c r flushed (inl same))
                | inr differs ↦ inl (ground arith)
              ]
            ]))

    -- With stores that keep their laws, and while every configured proxy has a cache: the flush of all
    -- caches replies with an error, or it replies that it is done and then no key is in the memory
    -- store of the cache of any configured proxy that has this store on.
    pub flush_all-empties :
        {f : Fiber} (proxies : List (Proxy Opts)) (name : Option Text) (reply : Reply f)
        (r : Registry Opts s) (configured : Text) (c : Cache Opts s) (key : Text)
        → IsServed proxies r
        → is_configured proxies configured ≡ true
        → get configured (flush proxies (codes "/admin/flush") name reply r).1 ≡ some c
        → c.proxy.cache.mem_enabled ≡ true
        → ((e : Text) × ((flush proxies (codes "/admin/flush") name reply r).0
              ≡ ok (flush_failed e reply)))
          ⊎ (((flush proxies (codes "/admin/flush") name reply r).0 ≡ ok (status_ok reply))
              × (s.mem_get key c.internal ≡ not_found))
    unfolding flush
    flush_all-empties {f} proxies name reply r configured c key h listed held on =
        let (failed, e) = flush_all-returns proxies r h in
        let global = text_eq_refl (codes "/admin/flush") in
        rw global (go failed e (rw global at held))
      where
        left : Result (Unit {0}) (Reply f) × Registry Opts s
        left = after_flush reply (flush_all proxies r)

        go :
            (failed : Option Text)
            → (flush_all proxies r).0 ≡ ok failed
            → get configured left.1 ≡ some c
            → ((e : Text) × (left.0 ≡ ok (flush_failed e reply)))
              ⊎ ((left.0 ≡ ok (status_ok reply)) × (s.mem_get key c.internal ≡ not_found))
        go (some e) fails held' = inl (e, after_flush-failed reply (flush_all proxies r) e fails)
        go none fine held' =
            let done = after_flush-done reply (flush_all proxies r) fine in
            let emptied : IsEmptied (flush_all proxies r).1 configured =
              flush_all-IsEmptied proxies r configured h fine (inl listed) in
            inr (
              ap (λ (x : Result (Unit {0}) (Reply f) × Registry Opts s). x.0) done,
              emptied c (subst (λ x. get configured x.1 ≡ some c) done held') on key,
            )
