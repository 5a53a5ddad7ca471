-- ===== src/Cache/Registered.antt =====
-- Which caches there are after `Init` (cache/cache.go).
use lod.Prelude.{
  List, [], ◌∷◌, true, if◌then◌else◌, any, Result, ok, err, panic, ◌>>=◌, Option, none, some, ◌≡◌,
  ◌≢◌, ◌↔◌, ◌⊎◌, inl, inr, refl, arith, Bool-cases, >>=-eq-ok, subst, sym,
}
use lod.Prelude.Text.{Text, text_eq, text_eq_refl, eq_of_text_eq}
use lod.Prelude.Dict.{lookup, insert, lookup-insert}
use lod.Config.{Proxy}
use lod.Cache.Backends.{Stores}
use lod.Cache.{Cache}
use lod.Cache.Registry.{
  CacheError, Builders, Registry, get, is_configured, keep_configured, wipe_old_caches,
  open_internal, open_external, register, build_proxy, build_instance, init_from, init,
}

module _ {Opts : Type 0} {s : Stores} where
  -- There is a cache under the name.
  abbrev pub Holds : Registry Opts s → Text → Type 0
  Holds r name = get name r ≢ none

  lookup-keep_configured :
      (proxies : List (Proxy Opts)) (name : Text) (m : List (Text × Cache Opts s))
      → lookup name (keep_configured proxies m)
        ≡ (if is_configured proxies name then lookup name m else none)
  unfolding keep_configured lookup
  lookup-keep_configured proxies name [] = ground arith
  lookup-keep_configured proxies name ((key, c) ∷ m) = elim (Bool-cases (text_eq key name)) [
    | inl same ↦ ground (arith, eq_of_text_eq key name same, lookup-keep_configured proxies name m)
    | inr other ↦ ground (arith, lookup-keep_configured proxies name m)
  ]

  module _ (b : Builders Opts s) where
    register-Holds :
        (p : Proxy Opts) (internal : s.Mem) (external : s.Redis) (r r' : Registry Opts s)
        (name : Text)
        → register b p internal external r ≡ ok r'
        → (text_eq p.name name ≡ true) ⊎ Holds r name
        → Holds r' name
    unfolding register get
    register-Holds p internal external r r' name h known =
        let c : Cache Opts s = record {
          proxy = p;
          internal = internal;
          external = external;
          hits = 0;
          misses = 0;
          background = [];
        } in
        elim (Bool-cases (any (λ n. text_eq n p.name) r.registered)) [
          | inl again ↦ absurd (ground arith)
          | inr new ↦
              let stored : r'.caches ≡ insert p.name c r.caches = ground arith in
              rw (stored, lookup-insert p.name name c r.caches) (λ missing. ground arith)
        ]

    build_proxy-Holds :
        (p : Proxy Opts) (r r' : Registry Opts s) (name : Text)
        → build_proxy b p r ≡ ok r'
        → (text_eq p.name name ≡ true) ⊎ Holds r name
        → Holds r' name
    unfolding build_proxy
    build_proxy-Holds p r r' name h known =
        let (internal, _, h1) =
          >>=-eq-ok (open_internal b p)
            (λ internal. open_external b p >>= λ external. register b p internal external r) h in
        let (external, _, h2) =
          >>=-eq-ok (open_external b p) (λ external. register b p internal external r) h1 in
        register-Holds p internal external r r' name h2 known

    build_instance-Holds :
        (proxies : List (Proxy Opts)) (wanted : Text) (r r' : Registry Opts s) (name : Text)
        → build_instance b proxies wanted r ≡ ok r'
        → is_configured proxies wanted ≡ true
        → (text_eq wanted name ≡ true) ⊎ Holds r name
        → Holds r' name
    unfolding build_instance
    build_instance-Holds [] wanted r r' name h c known = absurd (ground arith)
    build_instance-Holds (p ∷ proxies) wanted r r' name h c known =
        elim (Bool-cases (text_eq p.name wanted)) [
          | inl same ↦ build_proxy-Holds p r r' name (ground arith) (
              subst (λ n. (text_eq n name ≡ true) ⊎ Holds r name)
                (sym (eq_of_text_eq p.name wanted same)) known)
          | inr other ↦
              build_instance-Holds proxies wanted r r' name (ground arith) (ground arith) known
        ]

    init_from-Holds :
        (proxies rest : List (Proxy Opts)) (r : Registry Opts s) (name : Text)
        → ((n : Text) → is_configured rest n ≡ true → is_configured proxies n ≡ true)
        → (init_from b proxies rest r).1 ≡ ok tt
        → (is_configured rest name ≡ true) ⊎ Holds r name
        → Holds (init_from b proxies rest r).0 name
    unfolding init_from get
    init_from-Holds proxies [] r name sub h (inl none_left) = absurd (ground arith)
    init_from-Holds proxies [] r name sub h (inr held) = held
    init_from-Holds proxies (p ∷ rest) r name sub h known =
        go (λ r' h' k. init_from-Holds proxies rest r' name below h' k) (lookup p.name r.caches)
          refl
      where
        Below : Type 0
        Below =
            (r' : Registry Opts s)
            → (init_from b proxies rest r').1 ≡ ok tt
            → (is_configured rest name ≡ true) ⊎ Holds r' name
            → Holds (init_from b proxies rest r').0 name

        below : (n : Text) → is_configured rest n ≡ true → is_configured proxies n ≡ true
        below n k = sub n (ground arith)

        first : is_configured proxies p.name ≡ true
        first = sub p.name (ground (arith, text_eq_refl p.name))

        -- The name is that of the proxy, that of one behind it, or held already.
        cases : ((text_eq p.name name ≡ true) ⊎ Holds r name) ⊎ (is_configured rest name ≡ true)
        cases = elim known [
          | inr held ↦ inl (inr held)
          | inl listed ↦ elim (Bool-cases (text_eq p.name name)) [
            | inl same ↦ inl (inl same)
            | inr other ↦ inr (ground arith)
          ]
        ]

        built :
            Below
            → (x : Result CacheError (Registry Opts s)) → lookup p.name r.caches ≡ none
            → build_instance b proxies p.name r ≡ x
            → Holds (init_from b proxies (p ∷ rest) r).0 name
        built ih (ok r') e made =
            let step : init_from b proxies (p ∷ rest) r ≡ init_from b proxies rest r' =
              ground arith in
            subst (λ x. Holds x.0 name) (sym step)
              (ih r' (subst (λ x. x.1 ≡ ok tt) step h) (elim cases [
                | inl now ↦ inr (build_instance-Holds proxies p.name r r' name made first now)
                | inr later ↦ inl later
              ]))
        built ih (err x) e made = absurd (ground arith)
        built ih panic e made = absurd (ground arith)

        go :
            Below
            → (c : Option (Cache Opts s)) → lookup p.name r.caches ≡ c
            → Holds (init_from b proxies (p ∷ rest) r).0 name
        go ih (some c) e =
            let step : init_from b proxies (p ∷ rest) r ≡ init_from b proxies rest r =
              ground arith in
            subst (λ x. Holds x.0 name) (sym step)
              (ih r (subst (λ x. x.1 ≡ ok tt) step h) (elim cases [
                | inl (inl same) ↦ inr (λ missing. ground (arith, eq_of_text_eq p.name name same))
                | inl (inr held) ↦ inr held
                | inr later ↦ inl later
              ]))
        go ih none e = built ih (build_instance b proxies p.name r) e refl

  -- After an `Init` without an error there is a cache under exactly the names of the configured
  -- proxies.
  pub init-Holds_iff :
      (b : Builders Opts s) (proxies : List (Proxy Opts)) (r : Registry Opts s) (name : Text)
      → (init b proxies r).1 ≡ ok tt
      → Holds (init b proxies r).0 name ↔ (is_configured proxies name ≡ true)
  unfolding init wipe_old_caches get
  init-Holds_iff b proxies r name h = go (init_from b proxies proxies r) refl
    where
      go :
          (x : Registry Opts s × Result CacheError (Unit {0}))
          → init_from b proxies proxies r ≡ x
          → Holds (init b proxies r).0 name ↔ (is_configured proxies name ≡ true)
      go (r', ok u) e =
          let held : is_configured proxies name ≡ true → Holds r' name = λ c.
            rw e at (init_from-Holds b proxies proxies r name (λ n k. k) (rw e refl) (inl c)) in
          rw (e, lookup-keep_configured proxies name r'.caches)
            (
              λ there. elim (Bool-cases (is_configured proxies name)) [
                | inl listed ↦ listed
                | inr unlisted ↦ absurd (there (rw unlisted refl))
              ],
              λ c missing. held c (rw c at missing),
            )
      go (r', err x) e = absurd (ground arith)
      go (r', panic) e = absurd (ground arith)
