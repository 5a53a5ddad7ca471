-- ===== src/Config/Read.antt =====
-- What validation (config/config.go) leaves as it was, and what it computes.
use lod.Prelude.Int.{ℤ}
use lod.Prelude.{
  ok-injective, Bool, Option, false, ◌||◌, ◌>>=◌, >>=-eq-ok, ℕ, ◌+◌, List, [], ◌∷◌, false, ok, ◌≡◌,
  arith,
}
use lod.Config.{
  no_cache_enabled, Proxy, Capabilities, Libraries, validate_internal_cache,
  validate_external_cache, validate_key_template, validate_cache, validate_url, keep_params,
  validate_proxy, validate_proxies,
}
use lod.Config.Validated.{
  ensure-eq-ok, internal-IsValidMem, external-IsValidRedis, key_template-HasTokens, url-HasTokens,
  params-checked,
}

module _ {Opts : Type 0} where
  -- A proxy with what validation computes: whether the URL has an endpoint, the durations and the options.
  abbrev pub with_read : Proxy Opts → Bool → ℤ → ℤ → Option Opts → Proxy Opts
  with_read p e mem_ttl redis_ttl opts = record p {
    has_endpoint_param = e;
    cache = record (p.cache) {
      mem_ttl_duration = mem_ttl;
      redis_ttl_duration = redis_ttl;
      redis_opts = opts;
    };
  }

  -- `q` is `p` but for what validation computes, and a level that is off keeps what it had.
  pub record IsRead (p q : Proxy Opts) : Type 0 where
    pub same :
        q
        ≡ with_read p q.has_endpoint_param q.cache.mem_ttl_duration q.cache.redis_ttl_duration
            q.cache.redis_opts
    pub mem_off : p.cache.mem_enabled ≡ false → q.cache.mem_ttl_duration ≡ p.cache.mem_ttl_duration
    pub redis_off :
        p.cache.redis_enabled ≡ false
        → (q.cache.redis_ttl_duration ≡ p.cache.redis_ttl_duration)
          × (q.cache.redis_opts ≡ p.cache.redis_opts)

  abbrev pub AreRead : List (Proxy Opts) → List (Proxy Opts) → Type 0
  AreRead [] [] = Unit {0}
  AreRead [] (q ∷ qs) = ⊥
  AreRead (p ∷ ps) [] = ⊥
  AreRead (p ∷ ps) (q ∷ qs) = IsRead p q × AreRead ps qs

  abbrev pub IsReadOf : Capabilities Opts → Capabilities Opts → Type 0
  IsReadOf c d = (d ≡ record c { proxies = d.proxies }) × AreRead c.proxies d.proxies

module _ {Opts : Type 0} (lib : Libraries Opts) where
  internal_kept :
      (p q : Proxy Opts)
      → validate_internal_cache lib p ≡ ok q
      → p.cache.mem_enabled ≡ false
      → q.cache.mem_ttl_duration ≡ p.cache.mem_ttl_duration
  unfolding validate_internal_cache
  internal_kept p q h off = ground arith

  external_kept :
      (p q : Proxy Opts)
      → validate_external_cache lib p ≡ ok q
      → p.cache.redis_enabled ≡ false
      → (q.cache.redis_ttl_duration ≡ p.cache.redis_ttl_duration)
        × (q.cache.redis_opts ≡ p.cache.redis_opts)
  unfolding validate_external_cache
  external_kept p q h off = ground arith

  cache-IsRead : (p q : Proxy Opts) → validate_cache lib p ≡ ok q → IsRead p q
  unfolding validate_cache
  cache-IsRead p q h =
      let (enabled, h1) =
        ensure-eq-ok (p.cache.mem_enabled || p.cache.redis_enabled) (no_cache_enabled p.name)
          (validate_internal_cache lib p >>= λ p'.
            validate_external_cache lib p' >>= validate_key_template lib)
          h in
      let (p', internal, h2) =
        >>=-eq-ok (validate_internal_cache lib p)
          (λ p'. validate_external_cache lib p' >>= validate_key_template lib) h1 in
      let (p'', external, h3) =
        >>=-eq-ok (validate_external_cache lib p') (validate_key_template lib) h2 in
      let (e, key) = key_template-HasTokens lib p'' q h3 in
      let (kept, mem) = internal-IsValidMem lib p p' internal in
      let (kept', redis) = external-IsValidRedis lib p' p'' external in
      rw (← e) (record {
        same = ground arith;
        mem_off = λ off. let m = internal_kept p p' internal off in ground arith;
        redis_off = λ off. let r = external_kept p' p'' external (ground arith) in ground arith;
      })

  proxy-IsRead : (num : ℕ) (p q : Proxy Opts) → validate_proxy lib num p ≡ ok q → IsRead p q
  unfolding validate_proxy
  proxy-IsRead num p q h =
      let (p', url, h1) =
        >>=-eq-ok (validate_url lib num p) (λ p'. validate_cache lib p' >>= keep_params lib) h in
      let (p'', cache, h2) = >>=-eq-ok (validate_cache lib p') (keep_params lib) h1 in
      let (e, params) = params-checked lib p'' q h2 in
      let (name, tokens, kept) = url-HasTokens lib num p p' url in
      let read = cache-IsRead p' p'' cache in
      rw (← e) (record {
        same = let same = read.same in ground arith;
        mem_off = λ off. let m = read.mem_off (ground arith) in ground arith;
        redis_off = λ off. let r = read.redis_off (ground arith) in ground arith;
      })

  pub proxies-AreRead :
      (num : ℕ) (ps qs : List (Proxy Opts)) → validate_proxies lib num ps ≡ ok qs → AreRead ps qs
  unfolding validate_proxies
  proxies-AreRead num [] qs h = rw (← ok-injective h) tt
  proxies-AreRead num (p ∷ ps) qs h =
      let (q, one, h1) =
        >>=-eq-ok (validate_proxy lib num p)
          (λ q. validate_proxies lib (num + 1) ps >>= λ qs. ok (q ∷ qs)) h in
      let (rest, others, h2) =
        >>=-eq-ok (validate_proxies lib (num + 1) ps) (λ qs. ok (q ∷ qs)) h1 in
      rw (← ok-injective h2) (proxy-IsRead num p q one, proxies-AreRead (num + 1) ps rest others)
