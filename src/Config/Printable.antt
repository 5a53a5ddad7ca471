-- ===== src/Config/Printable.antt =====
-- Every error of the validation (config/config.go) has a text.
use lod.Prelude.{
  ℕ, ◌+◌, List, [], ◌∷◌, ◌++◌, Bool, true, false, not, ◌||◌, any, if_both, Result, ok, err, panic,
  ◌>>=◌, ◌>>◌, Option, none, some, ◌≡◌, ◌≢◌, refl, arith,
}
use lod.Prelude.Int.{pos, ltb_ℤ}
use lod.Prelude.Text.{Text, text_eq}
use lod.Config.{
  Param, Proxy, Capabilities, ConfigError, invalid_redis_url, no_cache_enabled, invalid_port,
  Libraries, ensure, validate_params_from, validate_params, reserved_names, validate_internal_cache,
  redis_duration, set_redis, validate_external_cache, validate_key_template, validate_cache,
  validate_url, keep_params, validate_proxy, validate_proxies, validate_capabilities,
}
use lod.Config.Messages.{message}

-- An error, if there is one, has a text.
unfoldable pub IsPrintable : {A : Type 0} → Result ConfigError A → Type 0
IsPrintable (ok a) = Unit {0}
IsPrintable (err e) = message e ≢ panic
IsPrintable panic = Unit {0}

pub ok-IsPrintable : {A : Type 0} (a : A) → IsPrintable (ok a)
unfolding IsPrintable
ok-IsPrintable a = tt

pub err-IsPrintable :
    (A : Type 0) (e : ConfigError) (text : Text) → message e ≡ ok text → IsPrintable {A = A} (err e)
unfolding IsPrintable
err-IsPrintable A e text h = λ m. cc

pub panic-IsPrintable : (A : Type 0) → IsPrintable {A = A} panic
unfolding IsPrintable
panic-IsPrintable A = tt

pub >>=-IsPrintable :
    {A B : Type 0} (m : Result ConfigError A) (f : A → Result ConfigError B)
    → IsPrintable m
    → ((a : A) → IsPrintable (f a))
    → IsPrintable (m >>= f)
unfolding IsPrintable
>>=-IsPrintable (ok a) f h k = k a
>>=-IsPrintable (err e) f h k = h
>>=-IsPrintable panic f h k = tt

ensure-IsPrintable :
    {B : Type 0} (b : Bool) (e : ConfigError) (k : Result ConfigError B) {text : Text}
    → message e ≡ ok text
    → IsPrintable k
    → IsPrintable (ensure b e >> k)
unfolding IsPrintable
ensure-IsPrintable true e k h r = r
ensure-IsPrintable false e k h r = λ m. cc

IsPrintable-message :
    {A : Type 0} (r : Result ConfigError A)
    → ((e : ConfigError) → r ≡ err e → message e ≢ panic)
    → IsPrintable r
unfolding IsPrintable
IsPrintable-message (ok a) h = tt
IsPrintable-message (err e) h = h e refl
IsPrintable-message panic h = tt

Option-IsPrintable :
    {A B : Type 0} (r : Option B) (e : ConfigError) (f : B → Result ConfigError A) {text : Text}
    → message e ≡ ok text
    → ((b : B) → IsPrintable (f b))
    → IsPrintable (elim r [ none ↦ err e | some b ↦ f b ])
unfolding IsPrintable
Option-IsPrintable none e f h k = λ m. cc
Option-IsPrintable (some b) e f h k = k b

params-IsPrintable :
    (name : Text) (i : ℕ) (used : List Text) (params : List Param)
    → IsPrintable (validate_params_from name i used params)
unfolding validate_params_from message
params-IsPrintable name i used [] = ok-IsPrintable tt
params-IsPrintable name i used (p ∷ params) =
    if_both IsPrintable (text_eq p.name []) (err-IsPrintable _ _ _ refl) (
      if_both IsPrintable (any (λ n. text_eq n p.name) used) (err-IsPrintable _ _ _ refl)
        (params-IsPrintable name (i + 1) (used ++ p.name ∷ []) params))

module _ {Opts : Type 0} (lib : Libraries Opts) where
  internal-IsPrintable : (p : Proxy Opts) → IsPrintable (validate_internal_cache lib p)
  unfolding validate_internal_cache message
  internal-IsPrintable p = if_both IsPrintable (not p.cache.mem_enabled) (ok-IsPrintable _) (
      if_both IsPrintable (ltb_ℤ p.cache.mem_cap (pos 1)) (err-IsPrintable _ _ _ refl) (
        Option-IsPrintable (lib.parse_duration p.cache.mem_ttl) _ _ refl (λ ttl.
          if_both IsPrintable (ltb_ℤ ttl (pos 0)) (err-IsPrintable _ _ _ refl) (ok-IsPrintable _))))

  redis_duration-IsPrintable : (p : Proxy Opts) → IsPrintable (redis_duration lib p)
  unfolding redis_duration message
  redis_duration-IsPrintable p =
      if_both IsPrintable (text_eq p.cache.redis_ttl []) (ok-IsPrintable _) (
        Option-IsPrintable (lib.parse_duration p.cache.redis_ttl) _ _ refl (λ ttl.
          if_both IsPrintable (ltb_ℤ ttl (pos 0)) (err-IsPrintable _ _ _ refl) (ok-IsPrintable _)))

  external-IsPrintable : (p : Proxy Opts) → IsPrintable (validate_external_cache lib p)
  unfolding validate_external_cache message
  external-IsPrintable p =
      if_both IsPrintable (not p.cache.redis_enabled) (ok-IsPrintable _)
        (parsed (lib.parse_redis_url p.cache.redis_url))
    where
      parsed :
          (r : Result Text Opts)
          → IsPrintable (elim r [
            | err e ↦ err (invalid_redis_url p.name p.cache.redis_url e)
            | panic ↦ panic
            | ok opts ↦ do ttl ← redis_duration lib p; ok (set_redis p opts ttl)
          ])
      parsed (err e) = err-IsPrintable _ _ _ refl
      parsed panic = panic-IsPrintable _
      parsed (ok opts) =
          >>=-IsPrintable (redis_duration lib p) (λ ttl. ok (set_redis p opts ttl))
            (redis_duration-IsPrintable p) (λ ttl. ok-IsPrintable _)

  template-IsPrintable : (p : Proxy Opts) → IsPrintable (validate_key_template lib p)
  unfolding validate_key_template message
  template-IsPrintable p = IsPrintable-message (validate_key_template lib p) (λ e h m. ground arith)

  cache-IsPrintable : (p : Proxy Opts) → IsPrintable (validate_cache lib p)
  unfolding validate_cache message
  cache-IsPrintable p =
      ensure-IsPrintable (p.cache.mem_enabled || p.cache.redis_enabled) (no_cache_enabled p.name)
        (validate_internal_cache lib p >>= λ p'.
          validate_external_cache lib p' >>= validate_key_template lib)
        refl
        (>>=-IsPrintable (validate_internal_cache lib p)
          (λ p'. validate_external_cache lib p' >>= validate_key_template lib)
          (internal-IsPrintable p)
          (λ p'.
            >>=-IsPrintable (validate_external_cache lib p') (validate_key_template lib)
              (external-IsPrintable p') template-IsPrintable))

  url-IsPrintable : (num : ℕ) (p : Proxy Opts) → IsPrintable (validate_url lib num p)
  unfolding validate_url message
  url-IsPrintable num p = IsPrintable-message (validate_url lib num p) (λ e h m. ground arith)

  proxy-IsPrintable : (num : ℕ) (p : Proxy Opts) → IsPrintable (validate_proxy lib num p)
  unfolding validate_proxy keep_params validate_params
  proxy-IsPrintable num p =
      >>=-IsPrintable (validate_url lib num p) (λ p'. validate_cache lib p' >>= keep_params lib)
        (url-IsPrintable num p)
        (λ p'.
          >>=-IsPrintable (validate_cache lib p') (keep_params lib) (cache-IsPrintable p')
            params-checked)
    where
      params-checked : (p : Proxy Opts) → IsPrintable (keep_params lib p)
      params-checked p =
          >>=-IsPrintable (validate_params p) (λ u. ok p)
            (params-IsPrintable p.name 0 reserved_names p.params) (λ u. ok-IsPrintable p)

  proxies-IsPrintable :
      (num : ℕ) (ps : List (Proxy Opts)) → IsPrintable (validate_proxies lib num ps)
  unfolding validate_proxies
  proxies-IsPrintable num [] = ok-IsPrintable _
  proxies-IsPrintable num (p ∷ ps) =
      >>=-IsPrintable (validate_proxy lib num p)
        (λ q. validate_proxies lib (num + 1) ps >>= λ qs. ok (q ∷ qs)) (proxy-IsPrintable num p)
        (λ q.
          >>=-IsPrintable (validate_proxies lib (num + 1) ps) (λ qs. ok (q ∷ qs))
            (proxies-IsPrintable (num + 1) ps) (λ qs. ok-IsPrintable _))

  pub capabilities-IsPrintable : (c : Capabilities Opts) → IsPrintable (validate_capabilities lib c)
  unfolding validate_capabilities message
  capabilities-IsPrintable c =
      ensure-IsPrintable (not (ltb_ℤ c.settings.port (pos 0) || ltb_ℤ (pos 65535) c.settings.port))
        (invalid_port c.settings.port)
        (validate_proxies lib 0 c.proxies >>= λ ps. ok (record c { proxies = ps })) refl
        (>>=-IsPrintable (validate_proxies lib 0 c.proxies) (λ ps. ok (record c { proxies = ps }))
          (proxies-IsPrintable 0 c.proxies) (λ ps. ok-IsPrintable _))
