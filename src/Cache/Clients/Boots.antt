-- ===== src/Cache/Clients/Boots.antt =====
-- The first `Init` of a configuration that is valid (cache/cache.go and config/config.go).
use lod.Prelude.{
  List, [], ◌∷◌, Bool, Bool-cases, true, false, any, All, Result, ok, err, panic, Option,
  Option-cases, none, some, ◌≡◌, refl, arith, inl, inr, if◌then◌else◌,
}
use lod.Prelude.Int.{pos, ◌≤ℤ◌}
use lod.Prelude.Text.{Text, text_eq, eq_of_text_eq}
use lod.Prelude.Dict.{lookup, insert, lookup-insert}
use lod.Config.{Proxy, Libraries}
use lod.Config.Validated.{IsValidProxy, IsValidMem, IsValidRedis}
use lod.Environment.{Env}
use lod.Cache.Backends.{Stores}
use lod.Cache.{Cache}
use lod.Cache.Registry.{
  CacheError, init_internal_failed, init_external_failed, Builders, Registry, open_internal,
  open_external, register, build_proxy, build_instance, init_from, wipe_after, init,
}
use lod.Cache.Clients.{
  MemConfig, ClientLibraries, version_tls12, client_options, init_internal, pinged, init_external,
  entry_size, clients,
}

module _ {Opts : Type 0} {s : Stores} where
  -- Stores can be made: bigcache accepts a positive cap and a size of entries that is not negative, which it
  -- refuses otherwise, and the Redis client options that are not nil; and Redis answers a ping.
  pub record Works (lib : ClientLibraries Opts s) : Type 0 where
    pub mem :
        (conf : MemConfig)
        → pos 1 ≤ℤ conf.hard_max_cache_size
        → pos 0 ≤ℤ conf.max_entry_size
        → (m : s.Mem) × (lib.new_mem conf ≡ ok m)
    pub client : (opts : Opts) → (r : s.Redis) × (lib.new_client (some opts) ≡ ok r)
    pub answers : (r : s.Redis) → (lib.ping r).1 ≡ none

  -- The names whose metrics are registered have a cache.
  abbrev pub IsTidy : Registry Opts s → Type 0
  IsTidy r =
      (name : Text) → lookup name r.caches ≡ none → any (λ n. text_eq n name) r.registered ≡ false

  module _ (b : Builders Opts s) where
    register-IsTidy :
        (p : Proxy Opts) (internal : s.Mem) (external : s.Redis) (r : Registry Opts s)
        → IsTidy r
        → lookup p.name r.caches ≡ none
        → (r' : Registry Opts s) × (register b p internal external r ≡ ok r') × IsTidy r'
    unfolding register
    register-IsTidy p internal external r tidy missing =
        let c : Cache Opts s = record {
          proxy = p;
          internal = internal;
          external = external;
          hits = 0;
          misses = 0;
          background = [];
        } in
        (
          record { caches = insert p.name c r.caches; registered = p.name ∷ r.registered },
          rw (tidy p.name missing) refl,
          λ name gone. elim (Bool-cases (text_eq p.name name)) [
            | inl same ↦ absurd (ground (arith, lookup-insert p.name name c r.caches))
            | inr other ↦
                let before : lookup name r.caches ≡ none =
                  ground (arith, lookup-insert p.name name c r.caches) in
                rw (other, tidy name before) refl
          ],
        )

    -- The stores of a proxy can be opened.
    pub record Opens (p : Proxy Opts) : Type 0 where
      pub internal : (m : s.Mem) × (open_internal b p ≡ ok m)
      pub external : (r : s.Redis) × (open_external b p ≡ ok r)

    build_proxy-IsTidy :
        (p : Proxy Opts) (r : Registry Opts s)
        → Opens p
        → IsTidy r
        → lookup p.name r.caches ≡ none
        → (r' : Registry Opts s) × (build_proxy b p r ≡ ok r') × IsTidy r'
    unfolding build_proxy
    build_proxy-IsTidy p r o tidy missing =
        let (m, opened) = o.internal in
        let (e, reached) = o.external in rw (opened, reached) (register-IsTidy p m e r tidy missing)

    build_instance-IsTidy :
        (proxies : List (Proxy Opts)) (name : Text) (r : Registry Opts s)
        → All Opens proxies
        → IsTidy r
        → lookup name r.caches ≡ none
        → (r' : Registry Opts s) × (build_instance b proxies name r ≡ ok r') × IsTidy r'
    unfolding build_instance
    build_instance-IsTidy [] name r o tidy missing = (r, refl, tidy)
    build_instance-IsTidy (p ∷ proxies) name r o tidy missing =
        elim (Bool-cases (text_eq p.name name)) [
          | inl same ↦
              let e : p.name ≡ name = eq_of_text_eq p.name name same in
              rw same (build_proxy-IsTidy p r o.0 tidy (rw e missing))
          | inr other ↦ rw other (build_instance-IsTidy proxies name r o.1 tidy missing)
        ]

    init_from_tidy :
        (proxies rest : List (Proxy Opts)) (r : Registry Opts s)
        → All Opens proxies
        → IsTidy r
        → (init_from b proxies rest r).1 ≡ ok tt
    unfolding init_from
    init_from_tidy proxies [] r o tidy = refl
    init_from_tidy proxies (p ∷ rest) r o tidy = elim (Option-cases (lookup p.name r.caches)) [
      | inl missing ↦
          let (r', built, tidy') = build_instance-IsTidy proxies p.name r o tidy missing in
          rw (init_from, missing, built) (init_from_tidy proxies rest r' o tidy')
      | inr (c, found) ↦ rw (init_from, found) (init_from_tidy proxies rest r o tidy)
    ]

    init_tidy :
        (proxies : List (Proxy Opts)) (r : Registry Opts s)
        → All Opens proxies
        → IsTidy r
        → (init b proxies r).1 ≡ ok tt
    unfolding init
    init_tidy proxies r o tidy =
        go (init_from b proxies proxies r) (init_from_tidy proxies proxies r o tidy)
      where
        go :
            (x : Registry Opts s × Result CacheError (Unit {0}))
            → x.1 ≡ ok tt
            → (wipe_after b proxies x).1 ≡ ok tt
        go (r', ok u) h = refl
        go (r', err e) h = cc
        go (r', panic) h = cc

-- A level that is off, or whose store is made, opens.
opens_where_on :
    {Store : Type 0} (on : Bool) (made : Result Text Store) (fail : Text → CacheError)
    (no_store : Store)
    → (on ≡ true → (store : Store) × (made ≡ ok store))
    → (store : Store) × ((if on
          then elim made [ ok store ↦ ok store | err e ↦ err (fail e) | panic ↦ panic ]
          else ok no_store)
        ≡ ok store)
opens_where_on false made fail no_store h = (no_store, refl)
opens_where_on true (ok store) fail no_store h = (store, refl)
opens_where_on true (err e) fail no_store h = absurd (cc (h refl).1)
opens_where_on true panic fail no_store h = absurd (cc (h refl).1)

module _ {Opts : Type 0} {s : Stores} (config_lib : Libraries Opts) (lib : ClientLibraries Opts s)
    (works : Works lib) (environment : Env) (max : Option Text) (size : pos 0 ≤ℤ entry_size max)
    (no_internal : s.Mem) (no_external : s.Redis) where
  abbrev opened : Builders Opts s
  opened = clients lib environment max no_internal no_external

  internal_opens :
      (p : Proxy Opts)
      → (p.cache.mem_enabled ≡ true → IsValidMem config_lib p.cache)
      → (m : s.Mem) × (open_internal opened p ≡ ok m)
  unfolding open_internal init_internal
  internal_opens p valid =
      opens_where_on p.cache.mem_enabled (init_internal lib environment max p)
        (init_internal_failed p.name) no_internal (λ on. works.mem _ (valid on).cap size)

  -- The options of a client are not nil.
  options_given :
      (p : Proxy Opts) (opts : Opts)
      → p.cache.redis_opts ≡ some opts
      → (o : Opts) × (client_options lib p ≡ ok (some o))
  unfolding client_options
  options_given p opts stored = elim (Bool-cases p.cache.redis_tls) [
    | inl tls ↦ (lib.set_tls version_tls12 opts, rw (tls, stored) refl)
    | inr plain ↦ (opts, rw (plain, stored) refl)
  ]

  client_made :
      (p : Proxy Opts)
      → IsValidRedis config_lib p.cache
      → (r : s.Redis) × (init_external lib p ≡ ok r)
  unfolding init_external
  client_made p valid =
      let (o, given) = options_given p valid.opts valid.stored in
      let (r, made) = works.client o in
      ((lib.ping r).0, rw (given, made) (answered (lib.ping r) (works.answers r)))
    where
      answered : (x : s.Redis × Option Text) → x.1 ≡ none → pinged lib x ≡ ok x.0
      answered (r, none) h = refl
      answered (r, some e) h = cc

  external_opens :
      (p : Proxy Opts)
      → (p.cache.redis_enabled ≡ true → IsValidRedis config_lib p.cache)
      → (r : s.Redis) × (open_external opened p ≡ ok r)
  unfolding open_external
  external_opens p valid =
      opens_where_on p.cache.redis_enabled (init_external lib p) (init_external_failed p.name)
        no_external (λ on. client_made p (valid on))

  valid-Opens :
      (proxies : List (Proxy Opts))
      → All (IsValidProxy config_lib) proxies
      → All (Opens opened) proxies
  valid-Opens [] h = tt
  valid-Opens (p ∷ proxies) h = (
    record {
      internal = internal_opens p h.0.cached.mem;
      external = external_opens p h.0.cached.redis;
    },
    valid-Opens proxies h.1,
  )

  -- Let the stores work: bigcache accepts every configuration with a positive cap and a size of entries that
  -- is not negative, the Redis client all options that are not nil, and Redis answers every ping. Let the
  -- size that MAX_ENTRY_SIZE sets not be negative. Let the proxies have passed validation, and
  -- let every name whose metrics are registered have a cache. Then `Init`, with the stores made
  -- as `initInternal` and `initExternal` make them, returns without an error and without a panic,
  -- whatever the environment.
  pub init_valid :
      (proxies : List (Proxy Opts)) (r : Registry Opts s)
      → All (IsValidProxy config_lib) proxies
      → IsTidy r
      → (init opened proxies r).1 ≡ ok tt
  init_valid proxies r valid tidy = init_tidy opened proxies r (valid-Opens proxies valid) tidy
