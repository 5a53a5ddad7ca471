-- ===== src/Config/Accepted.antt =====
-- Which configurations validation (config/config.go) accepts, and with what result.
use lod.Prelude.Int.{ℤ, pos, ltb_ℤ}
use lod.Prelude.{
  not, subst, ok-injective, ap, sym, ◌∙◌, ◌↔◌, Bool, Option, false, ◌||◌, ◌>>=◌, >>=-eq-ok, ℕ, ◌+◌,
  List, [], ◌∷◌, true, false, All, ok, ◌≡◌, inl, inr, refl, arith, Bool-cases,
}
use lod.Prelude.Text.{Text, codes, text_eq, text_eq_iff}
use lod.Prelude.Strings.{contains, has_prefix}
use lod.Config.{
  invalid_port, Proxy, Capabilities, Libraries, matches_name, validate_internal_cache,
  redis_duration, validate_external_cache, validate_key_template, validate_cache, validate_url,
  keep_params, validate_proxy, validate_proxies, validate_capabilities,
}
use lod.Config.Read.{with_read, IsRead, AreRead, IsReadOf, proxies-AreRead}
use lod.Config.Params.{validate_params_iff}
use lod.Config.Validated.{
  validate_capabilities-IsValid, IsValidMem, HasTokens, ensure-eq-ok, IsValidRedis, IsValidCache,
  IsValidProxy, IsValid,
}

contains_nonempty : (s : Text) → contains s (codes "{z}") ≡ true → text_eq s [] ≡ false
unfolding contains has_prefix text_eq
contains_nonempty [] h = cc
contains_nonempty (c ∷ s) h = refl

matches_nonempty : (s : Text) → matches_name s ≡ true → text_eq s [] ≡ false
unfolding matches_name text_eq
matches_nonempty [] h = cc
matches_nonempty (c ∷ s) h = refl

module _ {Opts : Type 0} (lib : Libraries Opts) (p : Proxy Opts) where
  internal-eq :
      (ttl : ℤ)
      → (p.cache.mem_enabled ≡ true → IsValidMem lib (record (p.cache) { mem_ttl_duration = ttl }))
      → (p.cache.mem_enabled ≡ false → ttl ≡ p.cache.mem_ttl_duration)
      → validate_internal_cache lib p
        ≡ ok (record p { cache = record (p.cache) { mem_ttl_duration = ttl } })
  unfolding validate_internal_cache
  internal-eq ttl valid kept = elim (Bool-cases p.cache.mem_enabled) [
    | inl on ↦
        let m = valid on in
        let parsed = m.parsed in let cap = m.cap in let low = m.expires in ground arith
    | inr off ↦ let same = kept off in ground arith
  ]

  redis_duration-eq :
      (ttl : ℤ) (opts : Option Opts)
      → IsValidRedis lib (record (p.cache) { redis_ttl_duration = ttl; redis_opts = opts })
      → redis_duration lib p ≡ ok ttl
  unfolding redis_duration
  redis_duration-eq ttl opts r =
      let low = r.nonnegative in
      let parsed = r.parsed_ttl in ground (arith, text_eq_iff p.cache.redis_ttl [])

  external-eq :
      (ttl : ℤ) (opts : Option Opts)
      → (p.cache.redis_enabled ≡ true
          → IsValidRedis lib (record (p.cache) { redis_ttl_duration = ttl; redis_opts = opts }))
      → (p.cache.redis_enabled ≡ false
          → (ttl ≡ p.cache.redis_ttl_duration) × (opts ≡ p.cache.redis_opts))
      → validate_external_cache lib p
        ≡ ok (record p { cache = record (p.cache) { redis_ttl_duration = ttl; redis_opts = opts } })
  unfolding validate_external_cache
  external-eq ttl opts valid kept = elim (Bool-cases p.cache.redis_enabled) [
    | inl on ↦
        let r = valid on in
        let stored = r.stored in
        let parsed = r.parsed_url in ground (arith, redis_duration-eq ttl opts r)
    | inr off ↦ let same = kept off in ground arith
  ]

module _ {Opts : Type 0} (lib : Libraries Opts) where
  key_template-eq :
      (p : Proxy Opts) → HasTokens p.cache.key_template → validate_key_template lib p ≡ ok p
  unfolding validate_key_template
  key_template-eq p h = let z = h.z in let x = h.x in let y = h.y in ground arith

  cache-eq :
      (p : Proxy Opts) (e : Bool) (m r : ℤ) (o : Option Opts)
      → IsValidCache lib (with_read p e m r o).cache
      → IsRead p (with_read p e m r o)
      → p.has_endpoint_param ≡ e
      → validate_cache lib p ≡ ok (with_read p e m r o)
  unfolding validate_cache
  cache-eq p e m r o valid read same =
      let p' : Proxy Opts = record p { cache = record (p.cache) { mem_ttl_duration = m } } in
      let p'' : Proxy Opts = with_read p p.has_endpoint_param m r o in
      let any = valid.enabled in
      let mem : p.cache.mem_enabled ≡ true
          → IsValidMem lib (record (p.cache) { mem_ttl_duration = m }) =
        λ on.
          let v = valid.mem on in record { cap = v.cap; parsed = v.parsed; expires = v.expires } in
      let enabled : (p.cache.mem_enabled || p.cache.redis_enabled) ≡ true = ground arith in
      rw
        (
          ← same,
          enabled,
          internal-eq lib p m mem read.mem_off,
          external-eq lib p' r o valid.redis read.redis_off,
          key_template-eq p'' valid.key,
        )
        refl

  url-eq :
      (num : ℕ) (p : Proxy Opts)
      → matches_name p.name ≡ true
      → HasTokens p.tile_url
      → validate_url lib num p
        ≡ ok (record p { has_endpoint_param = contains p.tile_url (codes "{e}") })
  unfolding validate_url
  url-eq num p named h =
      let z = h.z in
      let x = h.x in
      let y = h.y in ground (arith, matches_nonempty p.name, contains_nonempty p.tile_url)

  proxy-eq :
      (num : ℕ) (p : Proxy Opts) (e : Bool) (m r : ℤ) (o : Option Opts)
      → IsRead p (with_read p e m r o)
      → IsValidProxy lib (with_read p e m r o)
      → validate_proxy lib num p ≡ ok (with_read p e m r o)
  unfolding validate_proxy keep_params
  proxy-eq num p e m r o read valid =
      let p' : Proxy Opts = record p { has_endpoint_param = e } in
      let q : Proxy Opts = with_read p e m r o in
      let url : validate_url lib num p ≡ ok p' =
        url-eq num p valid.name valid.url
        ∙ ap (λ b. ok (record p { has_endpoint_param = b })) (sym valid.endpoint) in
      let again : IsRead p' q = record {
        same = refl;
        mem_off = read.mem_off;
        redis_off = read.redis_off;
      } in
      rw
        (
          url,
          cache-eq p' e m r o valid.cached again refl,
          (validate_params_iff q).1 (valid.named, valid.distinct),
        )
        refl

  proxies-eq :
      (num : ℕ) (ps qs : List (Proxy Opts))
      → AreRead ps qs
      → All (IsValidProxy lib) qs
      → validate_proxies lib num ps ≡ ok qs
  unfolding validate_proxies
  proxies-eq num [] [] read valid = refl
  proxies-eq num [] (q ∷ qs) read valid = absurd read
  proxies-eq num (p ∷ ps) [] read valid = absurd read
  proxies-eq num (p ∷ ps) (q ∷ qs) read valid =
      let x =
        proxy-eq num p q.has_endpoint_param q.cache.mem_ttl_duration q.cache.redis_ttl_duration
          q.cache.redis_opts (subst (IsRead p) read.0.same read.0)
          (subst (IsValidProxy lib) read.0.same valid.0) in
      let one : validate_proxy lib num p ≡ ok q =
        subst (λ y. validate_proxy lib num p ≡ ok y) (sym read.0.same) x in
      rw (one, proxies-eq (num + 1) ps qs read.1 valid.1) refl

  -- `validateCapabilities` accepts capabilities with a result exactly if the result is valid, and is what
  -- was given but for the values that validation computes, where it computes them.
  pub validate_capabilities_iff :
      (c d : Capabilities Opts)
      → (validate_capabilities lib c ≡ ok d) ↔ (IsValid lib d × IsReadOf c d)
  unfolding validate_capabilities
  validate_capabilities_iff c d = (accepted, accepts)
    where
      accepted : validate_capabilities lib c ≡ ok d → IsValid lib d × IsReadOf c d
      accepted h =
          let (port, h1) =
            ensure-eq-ok (not (ltb_ℤ c.settings.port (pos 0) || ltb_ℤ (pos 65535) c.settings.port))
              (invalid_port c.settings.port)
              (validate_proxies lib 0 c.proxies >>= λ proxies. ok (record c { proxies = proxies }))
              h in
          let (proxies, valid, h2) =
            >>=-eq-ok (validate_proxies lib 0 c.proxies)
              (λ proxies. ok (record c { proxies = proxies })) h1 in
          (
            validate_capabilities-IsValid lib c d h,
            rw (← ok-injective h2) (refl, proxies-AreRead lib 0 c.proxies proxies valid),
          )

      accepts : IsValid lib d × IsReadOf c d → validate_capabilities lib c ≡ ok d
      accepts (valid, (same, read)) =
          let low = valid.port_low in
          let high = valid.port_high in
          ground (arith, proxies-eq 0 c.proxies d.proxies read valid.proxies)
