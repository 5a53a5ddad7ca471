-- ===== src/Config/Defaults.antt =====
-- What `setDefaults` and `Load` (config/config.go) guarantee to the rest of the program.
use lod.Prelude.{
  List, [], ◌∷◌, ◌++◌, true, false, any, All, All-map, Result, ok, err, panic, ◌>>=◌, >>=-eq-ok,
  ◌≡◌, ◌≢◌, ◌⊎◌, inl, inr, refl, sym, ◌∙◌, subst, arith, Bool-cases,
}
use lod.Prelude.Int.{pos, ◌≤ℤ◌}
use lod.Prelude.Text.{Text, codes, text_eq, text_eq_iff}
use lod.Prelude.Strings.{contains, has_prefix}
use lod.Config.{Cache, Proxy, Capabilities, ConfigError, Libraries, validate_capabilities}
use lod.Config.Load.{
  default_port, default_num_workers, content_type, content_encoding, entries, is_zero_cache,
  register_header, default_cache_of, fill_fields, set_proxy_defaults, set_defaults, load_new, load,
  complete, read_config, pass_on,
}
use lod.Config.Validated.{IsValidCache, IsValidProxy, IsValid, validate_capabilities-IsValid}

-- A header is on the list of those to pull.
abbrev pub Pulls : {Opts : Type 0} → Text → Proxy Opts → Type 0
Pulls header p = any (λ key. text_eq key header) (entries p.pull_headers) ≡ true

any_concat :
    (header : Text) (hs : List Text) → any (λ key. text_eq key header) (hs ++ header ∷ []) ≡ true
any_concat header [] = ground (arith, text_eq_iff header header)
any_concat header (h ∷ hs) = ground (arith, any_concat header hs)

any-append :
    (header other : Text) (hs : List Text)
    → any (λ key. text_eq key header) hs ≡ true
    → any (λ key. text_eq key header) (hs ++ other ∷ []) ≡ true
any-append header other [] h = cc
any-append header other (k ∷ hs) h = ground (arith, any-append header other hs)

contains_nonempty : (s : Text) → contains s (codes "{z}") ≡ true → text_eq s [] ≡ false
unfolding contains has_prefix text_eq
contains_nonempty [] h = cc
contains_nonempty (c ∷ s) h = refl

module _ {Opts : Type 0} where
  -- After a header is registered it is on the list of those to pull, and so is every header that
  -- was on it before.
  pub register_header-Pulls :
      (header : Text) (p : Proxy Opts)
      → Pulls header (register_header header p)
        × ((other : Text) → Pulls other p → Pulls other (register_header header p))
  unfolding register_header
  register_header-Pulls header p =
      elim (Bool-cases (any (λ key. text_eq key header) (entries p.pull_headers))) [
        | inl found ↦ rw found (found, λ other h. h)
        | inr new ↦ rw new (
          any_concat header (entries p.pull_headers),
          λ other h. any-append other header (entries p.pull_headers) h,
        )
      ]

  -- `setDefaults` leaves a cache section that is valid, as validation makes it, as it is.
  pub default_cache_of-eq :
      (lib : Libraries Opts) (c : Cache Opts) → IsValidCache lib c → default_cache_of c ≡ c
  unfolding default_cache_of is_zero_cache
  default_cache_of-eq lib c h = ground (arith, contains_nonempty c.key_template h.key.z)

  -- What the rest of the program relies on in a proxy: it is valid, pulls the two content headers,
  -- and has a worker at least.
  pub record IsServedProxy (lib : Libraries Opts) (p : Proxy Opts) : Type 0 where
    pub valid : IsValidProxy lib p
    pub typed : Pulls content_type p
    pub encoded : Pulls content_encoding p
    pub workers : pos 1 ≤ℤ p.num_workers

  register_header-IsValidProxy :
      (lib : Libraries Opts) (header : Text) (p : Proxy Opts)
      → IsValidProxy lib p
      → IsValidProxy lib (register_header header p)
        × ((register_header header p).num_workers ≡ p.num_workers)
  unfolding register_header
  register_header-IsValidProxy lib header p h =
      elim (Bool-cases (any (λ key. text_eq key header) (entries p.pull_headers))) [
        | inl found ↦ rw found (h, refl)
        | inr new ↦ rw new (
          record {
            name = h.name;
            url = h.url;
            endpoint = h.endpoint;
            cached = h.cached;
            named = h.named;
            distinct = h.distinct;
          },
          refl,
        )
      ]

  set_proxy_defaults-IsServedProxy :
      (lib : Libraries Opts) (p : Proxy Opts)
      → IsValidProxy lib p
      → IsServedProxy lib (set_proxy_defaults p)
  unfolding set_proxy_defaults default_num_workers
  set_proxy_defaults-IsServedProxy lib p h =
      let p' = fill_fields p in
      let q = register_header content_type p' in
      let filled : IsValidProxy lib p' = record {
        name = h.name;
        url = h.url;
        endpoint = h.endpoint;
        cached = subst (IsValidCache lib) (sym (default_cache_of-eq lib p.cache h.cached)) h.cached;
        named = h.named;
        distinct = h.distinct;
      } in
      let busy : pos 1 ≤ℤ p'.num_workers = ground arith in
      let (valid, same) = register_header-IsValidProxy lib content_type p' filled in
      let (valid', same') = register_header-IsValidProxy lib content_encoding q valid in
      let (typed, _) = register_header-Pulls content_type p' in
      let (encoded, kept) = register_header-Pulls content_encoding q in
      record {
        valid = valid';
        typed = kept content_type typed;
        encoded = encoded;
        workers = subst (λ n. pos 1 ≤ℤ n) (sym (same' ∙ same)) busy;
      }

  pub record IsServed (lib : Libraries Opts) (c : Capabilities Opts) : Type 0 where
    pub port_low : pos 1 ≤ℤ c.settings.port
    pub port_high : c.settings.port ≤ℤ pos 65535
    pub proxies : All (IsServedProxy lib) c.proxies

  set_defaults-IsServed :
      (lib : Libraries Opts) (c : Capabilities Opts) → IsValid lib c → IsServed lib (set_defaults c)
  unfolding set_defaults default_port
  set_defaults-IsServed lib c h = record {
    port_low = let low = h.port_low in ground arith;
    port_high = let high = h.port_high in ground arith;
    proxies = All-map (IsServedProxy lib) set_proxy_defaults c.proxies (each c.proxies h.proxies);
  }
    where
      each :
          (ps : List (Proxy Opts))
          → All (IsValidProxy lib) ps
          → All (λ p. IsServedProxy lib (set_proxy_defaults p)) ps
      each [] h = tt
      each (p ∷ ps) h = (set_proxy_defaults-IsServedProxy lib p h.0, each ps h.1)

  complete-IsServed :
      (lib : Libraries Opts) (environment version : Text) (decoded new : Capabilities Opts)
      → complete lib environment version decoded ≡ ok new
      → IsServed lib new
  unfolding complete
  complete-IsServed lib environment version decoded new h =
      let named : Capabilities Opts = record decoded {
        settings = record (decoded.settings) { environment = environment };
        version = version;
      } in
      let (validated, valid, e) =
        >>=-eq-ok (validate_capabilities lib named) (λ v. ok (set_defaults v)) h in
      let same : set_defaults validated ≡ new = cc in
      rw (← same) (
        set_defaults-IsServed lib validated
          (validate_capabilities-IsValid lib named validated valid))

  load_new-IsServed :
      (lib : Libraries Opts) (environment version file : Text) (new : Capabilities Opts)
      → load_new lib environment version file ≡ ok new
      → IsServed lib new
  unfolding load_new
  load_new-IsServed lib environment version file new h =
      let (config_data, _, h1) =
        >>=-eq-ok (read_config lib file)
          (λ d.
            pass_on lib (lib.decode_toml (lib.expand_env d)) >>= complete lib environment version)
          h in
      let (decoded, _, h2) =
        >>=-eq-ok (pass_on lib (lib.decode_toml (lib.expand_env config_data)))
          (complete lib environment version) h1 in
      complete-IsServed lib environment version decoded new h2

  -- `Load` either succeeds and sets the global to a configuration that can be served (a port from 1
  -- to 65535, and valid proxies that pull the two content headers and have a worker at least), or
  -- does not succeed and leaves the global as it was.
  pub load_cases :
      (lib : Libraries Opts) (environment version file : Text) (capabilities : Capabilities Opts)
      → (((load lib environment version file capabilities).1 ≡ ok tt)
          × IsServed lib (load lib environment version file capabilities).0)
        ⊎ (((load lib environment version file capabilities).1 ≢ ok tt)
            × ((load lib environment version file capabilities).0 ≡ capabilities))
  unfolding load
  load_cases lib environment version file capabilities =
      go (load_new lib environment version file) refl
    where
      go :
          (r : Result ConfigError (Capabilities Opts))
          → load_new lib environment version file ≡ r
          → (((load lib environment version file capabilities).1 ≡ ok tt)
              × IsServed lib (load lib environment version file capabilities).0)
            ⊎ (((load lib environment version file capabilities).1 ≢ ok tt)
                × ((load lib environment version file capabilities).0 ≡ capabilities))
      go (ok new) e =
          rw (e, load) (inl (refl, load_new-IsServed lib environment version file new e))
      go (err x) e = rw (e, load) (inr ((λ h. cc), refl))
      go panic e = rw (e, load) (inr ((λ h. cc), refl))
