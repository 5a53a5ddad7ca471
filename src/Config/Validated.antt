-- ===== src/Config/Validated.antt =====
-- What a configuration that passes validation (config/config.go) is like.
use lod.Prelude.{
  ℕ, ◌+◌, List, [], ◌∷◌, ◌++◌, Bool, true, false, not, ◌||◌, All, Result, ok, err, panic, ◌>>=◌,
  >>=-eq-ok, ok-injective, map, some, ◌≡◌, ◌≢◌, ◌⊎◌, inl, inr, refl, subst, arith, Bool-cases,
}
use lod.Prelude.Int.{ℤ, pos, ◌≤ℤ◌, ltb_ℤ}
use lod.Prelude.Text.{Text, codes, text_eq_iff}
use lod.Prelude.Strings.{contains}
use lod.Config.{
  Cache, invalid_port, Proxy, Capabilities, ConfigError, Libraries, matches_name, ensure,
  reserved_names, validate_params, validate_internal_cache, redis_duration, set_redis,
  validate_external_cache, validate_cache, validate_proxy, validate_key_template, validate_url,
  keep_params, no_cache_enabled, validate_proxies, validate_capabilities,
}
use lod.Config.Params.{Distinct, validate_params_iff}

-- A text that holds the tokens for the three tile coordinates.
pub record HasTokens (template : Text) : Type 0 where
  pub z : contains template (codes "{z}") ≡ true
  pub x : contains template (codes "{x}") ≡ true
  pub y : contains template (codes "{y}") ≡ true

pub ensure-eq-ok :
    {A : Type 0} (b : Bool) (e : ConfigError) (k : Result ConfigError A) {a : A}
    → (ensure b e >>= λ _. k) ≡ ok a
    → (b ≡ true) × (k ≡ ok a)
ensure-eq-ok true e k h = (refl, h)
ensure-eq-ok false e k h = cc

module _ {Opts : Type 0} (lib : Libraries Opts) where
  pub record IsValidMem (c : Cache Opts) : Type 0 where
    pub cap : pos 1 ≤ℤ c.mem_cap
    pub parsed : lib.parse_duration c.mem_ttl ≡ some c.mem_ttl_duration
    pub expires : pos 0 ≤ℤ c.mem_ttl_duration

  pub record IsValidRedis (c : Cache Opts) : Type 0 where
    pub opts : Opts
    pub parsed_url : lib.parse_redis_url c.redis_url ≡ ok opts
    pub stored : c.redis_opts ≡ some opts
    pub nonnegative : pos 0 ≤ℤ c.redis_ttl_duration
    pub parsed_ttl :
        ((c.redis_ttl ≡ []) × (c.redis_ttl_duration ≡ pos 0))
        ⊎ ((c.redis_ttl ≢ []) × (lib.parse_duration c.redis_ttl ≡ some c.redis_ttl_duration))

  pub record IsValidCache (c : Cache Opts) : Type 0 where
    pub enabled : (c.mem_enabled ≡ true) ⊎ (c.redis_enabled ≡ true)
    pub mem : c.mem_enabled ≡ true → IsValidMem c
    pub redis : c.redis_enabled ≡ true → IsValidRedis c
    pub key : HasTokens c.key_template

  pub record IsValidProxy (p : Proxy Opts) : Type 0 where
    pub name : matches_name p.name ≡ true
    pub url : HasTokens p.tile_url
    pub endpoint : p.has_endpoint_param ≡ contains p.tile_url (codes "{e}")
    pub cached : IsValidCache p.cache
    pub named : All (λ q. q.name ≢ []) p.params
    pub distinct : Distinct (reserved_names ++ map (λ q. q.name) p.params)

  pub internal-IsValidMem :
      (p q : Proxy Opts)
      → validate_internal_cache lib p ≡ ok q
      → (q ≡ record p { cache = record (p.cache) { mem_ttl_duration = q.cache.mem_ttl_duration } })
        × (p.cache.mem_enabled ≡ true → IsValidMem q.cache)
  unfolding validate_internal_cache
  internal-IsValidMem p q h = ground arith

  redis_duration_parsed :
      (p : Proxy Opts) (ttl : ℤ)
      → redis_duration lib p ≡ ok ttl
      → (pos 0 ≤ℤ ttl)
        × (((p.cache.redis_ttl ≡ []) × (ttl ≡ pos 0))
            ⊎ ((p.cache.redis_ttl ≢ []) × (lib.parse_duration p.cache.redis_ttl ≡ some ttl)))
  unfolding redis_duration
  redis_duration_parsed p ttl h = ground (arith, text_eq_iff p.cache.redis_ttl [])

  pub external-IsValidRedis :
      (p q : Proxy Opts)
      → validate_external_cache lib p ≡ ok q
      → (q ≡ record p {
        cache = record (p.cache) {
          redis_ttl_duration = q.cache.redis_ttl_duration;
          redis_opts = q.cache.redis_opts;
        };
      })
        × (p.cache.redis_enabled ≡ true → IsValidRedis q.cache)
  unfolding validate_external_cache
  external-IsValidRedis p q h = elim (Bool-cases p.cache.redis_enabled) [
    | inl on ↦ go (lib.parse_redis_url p.cache.redis_url) refl on h
    | inr off ↦ (ground arith, ground arith)
  ]
    where
      go :
          (r : Result Text Opts)
          → lib.parse_redis_url p.cache.redis_url ≡ r
          → p.cache.redis_enabled ≡ true
          → validate_external_cache lib p ≡ ok q
          → (q ≡ record p {
            cache = record (p.cache) {
              redis_ttl_duration = q.cache.redis_ttl_duration;
              redis_opts = q.cache.redis_opts;
            };
          })
            × (p.cache.redis_enabled ≡ true → IsValidRedis q.cache)
      go (err e) parsed on h = absurd (ground arith)
      go panic parsed on h = absurd (ground arith)
      go (ok opts) parsed on h =
          let bound : (redis_duration lib p >>= λ ttl. ok (set_redis p opts ttl)) ≡ ok q =
            ground arith in
          let (ttl, timed, e) =
            >>=-eq-ok (redis_duration lib p) (λ ttl. ok (set_redis p opts ttl)) bound in
          let (low, ttl_parsed) = redis_duration_parsed p ttl timed in
          (
            ground arith,
            λ _. record {
              opts = opts;
              parsed_url = ground arith;
              stored = ground arith;
              nonnegative = ground arith;
              parsed_ttl = ground arith;
            },
          )

  -- What a call of `validateCache` leaves as it was: all but the three parsed values.
  record IsCacheOf (p q : Proxy Opts) : Type 0 where
    same : q ≡ record p { cache = q.cache }
    same_cache : q.cache ≡ record (p.cache) {
      mem_ttl_duration = q.cache.mem_ttl_duration;
      redis_ttl_duration = q.cache.redis_ttl_duration;
      redis_opts = q.cache.redis_opts;
    }

  pub key_template-HasTokens :
      (p q : Proxy Opts)
      → validate_key_template lib p ≡ ok q
      → (p ≡ q) × HasTokens p.cache.key_template
  unfolding validate_key_template
  key_template-HasTokens p q h = ground arith

  cache-IsValidCache :
      (p q : Proxy Opts) → validate_cache lib p ≡ ok q → IsCacheOf p q × IsValidCache q.cache
  unfolding validate_cache
  cache-IsValidCache p q h =
      let (enabled, h1) =
        ensure-eq-ok (p.cache.mem_enabled || p.cache.redis_enabled) (no_cache_enabled p.name)
          (validate_internal_cache lib p >>= λ p'.
            validate_external_cache lib p' >>= validate_key_template lib)
          h in
      let (p', internal, h2) =
        >>=-eq-ok (validate_internal_cache lib p)
          (λ p'. validate_external_cache lib p' >>= validate_key_template lib) h1 in
      let (p'', external, h3) =
        >>=-eq-ok (validate_external_cache lib p') (validate_key_template lib) h2 in
      let (e, key) = key_template-HasTokens p'' q h3 in
      let (kept, mem) = internal-IsValidMem p p' internal in
      let (kept', redis) = external-IsValidRedis p' p'' external in
      rw (← e) (
        record { same = ground arith; same_cache = ground arith },
        record {
          enabled = ground arith;
          mem = λ on. let m = mem (ground arith) in ground arith;
          redis = λ on. redis (ground arith);
          key = key;
        },
      )

  pub url-HasTokens :
      (num : ℕ) (p q : Proxy Opts)
      → validate_url lib num p ≡ ok q
      → (matches_name p.name ≡ true)
        × HasTokens p.tile_url
        × (q ≡ record p { has_endpoint_param = contains p.tile_url (codes "{e}") })
  unfolding validate_url
  url-HasTokens num p q h = ground arith

  pub params-checked :
      (p q : Proxy Opts) → keep_params lib p ≡ ok q → (p ≡ q) × (validate_params p ≡ ok tt)
  unfolding keep_params
  params-checked p q h = ground arith

  -- A proxy that `validateProxy` accepts is valid afterwards.
  pub validate_proxy-IsValidProxy :
      (num : ℕ) (p q : Proxy Opts) → validate_proxy lib num p ≡ ok q → IsValidProxy q
  unfolding validate_proxy
  validate_proxy-IsValidProxy num p q h =
      let (p', url, h1) =
        >>=-eq-ok (validate_url lib num p) (λ p'. validate_cache lib p' >>= keep_params lib) h in
      let (p'', cache, h2) = >>=-eq-ok (validate_cache lib p') (keep_params lib) h1 in
      let (e, params) = params-checked p'' q h2 in
      let (name, tokens, kept) = url-HasTokens num p p' url in
      let (kept', cached) = cache-IsValidCache p' p'' cache in
      let (named, distinct) = (validate_params_iff p'').0 params in
      rw (← e) (record {
        name = ground arith;
        url = subst HasTokens (ground arith) tokens;
        endpoint = ground arith;
        cached = cached;
        named = named;
        distinct = distinct;
      })

  validate_proxies-All :
      (num : ℕ) (ps qs : List (Proxy Opts))
      → validate_proxies lib num ps ≡ ok qs
      → All IsValidProxy qs
  unfolding validate_proxies
  validate_proxies-All num [] qs h = rw (← ok-injective h) tt
  validate_proxies-All num (p ∷ ps) qs h =
      let (q, one, h1) =
        >>=-eq-ok (validate_proxy lib num p)
          (λ q. validate_proxies lib (num + 1) ps >>= λ qs. ok (q ∷ qs)) h in
      let (rest, others, h2) =
        >>=-eq-ok (validate_proxies lib (num + 1) ps) (λ qs. ok (q ∷ qs)) h1 in
      rw (← ok-injective h2)
        (validate_proxy-IsValidProxy num p q one, validate_proxies-All (num + 1) ps rest others)

  -- A configuration that can be served: a port of 16 bits, 0 for the default, and valid proxies.
  pub record IsValid (c : Capabilities Opts) : Type 0 where
    pub port_low : pos 0 ≤ℤ c.settings.port
    pub port_high : c.settings.port ≤ℤ pos 65535
    pub proxies : All IsValidProxy c.proxies

  pub validate_capabilities-IsValid :
      (c d : Capabilities Opts) → validate_capabilities lib c ≡ ok d → IsValid d
  unfolding validate_capabilities
  validate_capabilities-IsValid c d h =
      let (port, h1) =
        ensure-eq-ok (not (ltb_ℤ c.settings.port (pos 0) || ltb_ℤ (pos 65535) c.settings.port))
          (invalid_port c.settings.port)
          (validate_proxies lib 0 c.proxies >>= λ proxies. ok (record c { proxies = proxies })) h in
      let (proxies, valid, h2) =
        >>=-eq-ok (validate_proxies lib 0 c.proxies)
          (λ proxies. ok (record c { proxies = proxies })) h1 in
      rw (← ok-injective h2) (record {
        port_low = ground arith;
        port_high = ground arith;
        proxies = validate_proxies-All 0 c.proxies proxies valid;
      })
