-- ===== src/Server/TileGuards.antt =====
-- The routes of tiles and the check of their token (www/handlers/proxy/wire.go).
use lod.Prelude.{
  List, [], ◌∷◌, ◌++◌, Bool, true, false, not, if◌then◌else◌, none, some, ◌≡◌, ◌≢◌, ◌⊎◌, inl, inr,
  refl, arith, All, Bool-cases, if_both, All-append, subst, sym,
}
use lod.Prelude.Text.{Text, codes, text_eq, text_eq_iff, eq_of_text_eq}
use lod.Config.{Proxy, Capabilities}
use lod.Middleware
use lod.Middleware.{Middleware, bearer, query, recovers, auth, fallback}
use lod.Server.{
  Endpoint, tile, Route, use_all, get, use_each, named_endpoints, admin_group, get_each,
  with_endpoint, wire_named, wire_instance, wire_admin, wire_proxy, wire_proxies, wire_handlers,
}
use lod.Server.Guards.{IsBehind, is_tile_of, use_each-unmeant, IsBehind-unmeant, IsBehind-found}
use mathlib.Core.List.{Memᴰ, append_assoc}

-- The iterations give only entries of the map.
abbrev pub IsIteration : (Text → List (Text × Endpoint) → List (Text × Endpoint)) → Type 0
IsIteration order =
    (name : Text) (entries : List (Text × Endpoint)) (e : Text × Endpoint)
    → Memᴰ e (order name entries)
    → Memᴰ e entries

module _ (name : Text) where
  abbrev pub Other : Route → Type 0
  Other r = is_tile_of name r ≡ false

  abbrev NoTile : Text × Endpoint → Type 0
  NoTile e = is_tile_of name (get [] [] e.1) ≡ false

  All-at :
      (es : List (Text × Endpoint)) (e : Text × Endpoint) → All NoTile es → Memᴰ e es → NoTile e
  All-at [] e hs m = elim m [ ]
  All-at (d ∷ es) e hs (Memᴰ.head eq) = subst NoTile (sym eq) hs.0
  All-at (d ∷ es) e hs (Memᴰ.tail m) = All-at es e hs.1 m

  entry-Other :
      (group : List Text) (path : Text) (e : Text × Endpoint)
      → NoTile e
      → Other (get group path e.1)
  entry-Other group path (key, tile other) h = h
  entry-Other group path (key, e) h = h

  named_endpoints-NoTile : All NoTile named_endpoints
  unfolding named_endpoints
  named_endpoints-NoTile = (refl, (refl, (refl, (refl, (refl, (refl, (refl, (refl, tt))))))))

  get_each-Other :
      {Opts : Type 0} (p : Proxy Opts) (es : List (Text × Endpoint))
      → ((e : Text × Endpoint) → Memᴰ e es → NoTile e)
      → All Other (get_each p es)
  unfolding get_each
  get_each-Other p [] h = tt
  get_each-Other p ((path, handler) ∷ es) h = (
    entry-Other (codes "/admin" ∷ p.name ∷ []) (with_endpoint p path) (path, handler)
        (h (path, handler) (Memᴰ.head refl)),
    get_each-Other p es (λ d m. h d (Memᴰ.tail m)),
  )

  wire_named-Other :
      {Opts : Type 0} (order : Text → List (Text × Endpoint) → List (Text × Endpoint))
      (ps : List (Proxy Opts))
      → IsIteration order
      → All Other (wire_named order ps)
  unfolding wire_named
  wire_named-Other order [] it = tt
  wire_named-Other order (p ∷ ps) it = (
    refl,
    All-append Other (get_each p (order p.name named_endpoints)) (wire_named order ps)
        (get_each-Other p (order p.name named_endpoints)
          (λ e m. All-at named_endpoints e named_endpoints-NoTile (it p.name named_endpoints e m)))
        (wire_named-Other order ps it),
  )

  wire_instance-Other : (on : Bool) → All Other (wire_instance on)
  unfolding wire_instance
  wire_instance-Other true = (refl, (refl, (refl, (refl, (refl, (refl, (refl, tt)))))))
  wire_instance-Other false = (refl, (refl, (refl, (refl, (refl, (refl, tt))))))

  pub wire_admin-Other :
      {Opts : Type 0} (order : Text → List (Text × Endpoint) → List (Text × Endpoint))
      (cap : Capabilities Opts)
      → IsIteration order
      → All Other (wire_admin order cap)
  unfolding wire_admin
  wire_admin-Other {Opts} order cap it =
      let middlewares = use_each admin_group (Middleware.wire {Opts = Opts} none) in
      All-append Other middlewares _
        (use_each-unmeant (is_tile_of name) admin_group (Middleware.wire {Opts = Opts} none)
          (λ m. refl))
        (elim (Bool-cases (text_eq cap.settings.admin_token [])) [
          | inl empty ↦ rw empty rest
          | inr full ↦ rw full (refl, rest)
        ])
    where
      rest : All Other (wire_instance cap.settings.metrics_enabled ++ wire_named order cap.proxies)
      rest =
          All-append Other (wire_instance cap.settings.metrics_enabled)
            (wire_named order cap.proxies) (wire_instance-Other cap.settings.metrics_enabled)
            (wire_named-Other order cap.proxies it)

  module _ (token : Text) where
    abbrev guard : Route
    guard = use_all (name ∷ []) (auth token query false)

    -- The proxies that have the name have the token.
    abbrev pub HaveToken : {Opts : Type 0} → List (Proxy Opts) → Type 0
    HaveToken proxies = All (λ p. (p.name ≢ name) ⊎ (p.access_token ≡ token)) proxies

    wire_proxy-Other :
        {Opts : Type 0} (p : Proxy Opts) → text_eq p.name name ≡ false → All Other (wire_proxy p)
    unfolding wire_proxy
    wire_proxy-Other p differs =
        All-append Other (use_each [] (Middleware.wire (some p))) _
          (use_each-unmeant (is_tile_of name) [] (Middleware.wire (some p)) (λ m. refl))
          (elim (Bool-cases (text_eq p.access_token [])) [
            | inl empty ↦ rw empty (differs, tt)
            | inr full ↦ rw full (refl, (differs, tt))
          ])

    wire_proxy-guarded :
        {Opts : Type 0} (p : Proxy Opts) (rest : List Route)
        → token ≢ []
        → p.name ≡ name
        → p.access_token ≡ token
        → IsBehind guard (is_tile_of name) (wire_proxy p ++ rest)
    unfolding wire_proxy
    wire_proxy-guarded p rest given same has =
        let full : text_eq p.access_token [] ≡ false =
          ground (arith, text_eq_iff p.access_token []) in
        let its_guard : guard ≡ use_all (p.name ∷ []) (auth p.access_token query false) =
          rw (same, has) refl in
        subst (λ g. IsBehind g (is_tile_of name) (wire_proxy p ++ rest)) (sym its_guard)
          (rw (full, append_assoc)
            (IsBehind-found (use_all (p.name ∷ []) (auth p.access_token query false))
              (is_tile_of name) (use_each [] (Middleware.wire (some p))) _
              (use_each-unmeant (is_tile_of name) [] (Middleware.wire (some p)) (λ m. refl))))

    -- The routes of one proxy, in front of others.
    wire_proxy-IsBehind :
        {Opts : Type 0} (p : Proxy Opts) (rest : List Route)
        → token ≢ []
        → (p.name ≢ name) ⊎ (p.access_token ≡ token)
        → IsBehind guard (is_tile_of name) rest
        → IsBehind guard (is_tile_of name) (wire_proxy p ++ rest)
    wire_proxy-IsBehind p rest given known behind = elim (Bool-cases (text_eq p.name name)) [
      | inr differs ↦
          IsBehind-unmeant guard (is_tile_of name) (wire_proxy p) rest (wire_proxy-Other p differs)
            behind
      | inl same ↦ elim known [
        | inl other ↦ absurd (other (eq_of_text_eq p.name name same))
        | inr has ↦ wire_proxy-guarded p rest given (eq_of_text_eq p.name name same) has
      ]
    ]

    wire_proxies-IsBehind :
        {Opts : Type 0} (ps : List (Proxy Opts)) (rest : List Route)
        → token ≢ []
        → HaveToken ps
        → IsBehind guard (is_tile_of name) rest
        → IsBehind guard (is_tile_of name) (wire_proxies ps ++ rest)
    unfolding wire_proxies
    wire_proxies-IsBehind [] rest given known behind = behind
    wire_proxies-IsBehind (p ∷ ps) rest given known behind =
        rw (append_assoc (wire_proxy p) (wire_proxies ps) rest) (
          wire_proxy-IsBehind p (wire_proxies ps ++ rest) given known.0
            (wire_proxies-IsBehind ps rest given known.1 behind))

    -- If the proxies that have a name have one token, which is not empty, then the route of the tiles
    -- under this name comes behind the check of the query for that token. The map of endpoints may
    -- be gone through in any order.
    pub wire_handlers-tile_IsBehind :
        {Opts : Type 0} (order : Text → List (Text × Endpoint) → List (Text × Endpoint))
        (cap : Capabilities Opts)
        → IsIteration order
        → token ≢ []
        → HaveToken cap.proxies
        → IsBehind
            (use_all (name ∷ []) (auth token query false))
            (is_tile_of name)
            (wire_handlers order cap)
    unfolding wire_handlers IsBehind
    wire_handlers-tile_IsBehind order cap it given known = inr (refl, rest)
      where
        behind_proxies :
            IsBehind guard (is_tile_of name) (wire_proxies cap.proxies ++ use_all [] fallback ∷ [])
        behind_proxies =
            wire_proxies-IsBehind cap.proxies (use_all [] fallback ∷ []) given known
              (inr (refl, tt))

        rest : IsBehind guard (is_tile_of name) (
            (if not cap.settings.admin_disabled then wire_admin order cap else [])
            ++ (wire_proxies cap.proxies ++ use_all [] fallback ∷ []))
        rest =
            if_both
              (λ admin.
                IsBehind guard (is_tile_of name)
                  (admin ++ (wire_proxies cap.proxies ++ use_all [] fallback ∷ [])))
              (not cap.settings.admin_disabled)
              (IsBehind-unmeant guard (is_tile_of name) (wire_admin order cap) _
                (wire_admin-Other order cap it) behind_proxies)
              behind_proxies
