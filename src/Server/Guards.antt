-- ===== src/Server/Guards.antt =====
-- The routes of the administration and the check of its token (www/handlers).
use lod.Prelude.{
  List, [], ◌∷◌, ◌++◌, Bool, true, false, not, if◌then◌else◌, none, some, ◌≡◌, ◌≢◌, ◌⊎◌, inl, inr,
  refl, arith, All, Bool-cases, All-append,
}
use lod.Prelude.Text.{Text, text_eq, text_eq_iff}
use lod.Config.{Proxy, Capabilities}
use lod.Middleware
use lod.Middleware.{Middleware, bearer, query, recovers, auth, fallback}
use lod.Server.{
  Endpoint, tile, Route, use_all, get, use_each, admin_group, wire_admin, wire_proxy, wire_proxies,
  wire_handlers,
}

-- Every route of a list that is meant comes behind the guard.
unfoldable pub IsBehind : Route → (Route → Bool) → List Route → Type 0
IsBehind guard meant [] = Unit {0}
IsBehind guard meant (r ∷ rs) = (r ≡ guard) ⊎ ((meant r ≡ false) × IsBehind guard meant rs)

abbrev pub is_admin : Route → Bool
is_admin (use_all group m) = false
is_admin (get group path (tile name)) = false
is_admin (get group path e) = true

-- The route of the tiles of a proxy.
abbrev pub is_tile_of : Text → Route → Bool
is_tile_of name (use_all group m) = false
is_tile_of name (get group path (tile other)) = text_eq other name
is_tile_of name (get group path e) = false

module _ (guard : Route) (meant : Route → Bool) where
  -- A part in which no route is meant may stand in front.
  pub IsBehind-unmeant :
      (rs ss : List Route)
      → All (λ r. meant r ≡ false) rs
      → IsBehind guard meant ss
      → IsBehind guard meant (rs ++ ss)
  unfolding IsBehind
  IsBehind-unmeant [] ss h k = k
  IsBehind-unmeant (r ∷ rs) ss h k = inr (h.0, IsBehind-unmeant rs ss h.1 k)

  pub IsBehind-before :
      (rs ss : List Route)
      → IsBehind guard meant rs
      → All (λ r. meant r ≡ false) ss
      → IsBehind guard meant (rs ++ ss)
  unfolding IsBehind
  IsBehind-before [] ss h k = unmeant ss k
    where
      unmeant : (ss : List Route) → All (λ r. meant r ≡ false) ss → IsBehind guard meant ss
      unmeant [] k = tt
      unmeant (r ∷ ss) k = inr (k.0, unmeant ss k.1)
  IsBehind-before (r ∷ rs) ss (inl found) k = inl found
  IsBehind-before (r ∷ rs) ss (inr (h, hs)) k = inr (h, IsBehind-before rs ss hs k)

  pub IsBehind-found :
      (rs ss : List Route) → All (λ r. meant r ≡ false) rs → IsBehind guard meant (rs ++ guard ∷ ss)
  unfolding IsBehind
  IsBehind-found rs ss h = IsBehind-unmeant rs (guard ∷ ss) h (inl refl)

pub use_each-unmeant :
    (meant : Route → Bool) (group : List Text) (ms : List Middleware)
    → ((m : Middleware) → meant (use_all group m) ≡ false)
    → All (λ r. meant r ≡ false) (use_each group ms)
unfolding use_each
use_each-unmeant meant group [] h = tt
use_each-unmeant meant group (m ∷ ms) h = (h m, use_each-unmeant meant group ms h)

wire_proxy-no_admin :
    {Opts : Type 0} (p : Proxy Opts) → All (λ r. is_admin r ≡ false) (wire_proxy p)
unfolding wire_proxy
wire_proxy-no_admin p =
    All-append _ (use_each [] (Middleware.wire (some p))) _
      (use_each-unmeant is_admin [] (Middleware.wire (some p)) (λ m. refl))
      (elim (Bool-cases (text_eq p.access_token [])) [
        | inl empty ↦ rw empty (refl, tt)
        | inr full ↦ rw full (refl, (refl, tt))
      ])

pub wire_proxies-no_admin :
    {Opts : Type 0} (ps : List (Proxy Opts)) → All (λ r. is_admin r ≡ false) (wire_proxies ps)
unfolding wire_proxies
wire_proxies-no_admin [] = tt
wire_proxies-no_admin (p ∷ ps) =
    All-append _ (wire_proxy p) (wire_proxies ps) (wire_proxy-no_admin p) (wire_proxies-no_admin ps)

-- If the instance has a token, then every endpoint of the administration comes behind the check of the
-- header for that token, whether the administration is on or off, and in whatever order the map of
-- endpoints is gone through.
pub wire_handlers-admin_IsBehind :
    {Opts : Type 0} (order : Text → List (Text × Endpoint) → List (Text × Endpoint))
    (cap : Capabilities Opts)
    → cap.settings.admin_token ≢ []
    → IsBehind
        (use_all admin_group (auth cap.settings.admin_token bearer true))
        is_admin
        (wire_handlers order cap)
unfolding wire_handlers IsBehind wire_admin
wire_handlers-admin_IsBehind {Opts} order cap given = inr (refl, rest)
  where
    guard : Route
    guard = use_all admin_group (auth cap.settings.admin_token bearer true)

    token : text_eq cap.settings.admin_token [] ≡ false
    token = ground (arith, text_eq_iff cap.settings.admin_token [])

    others : List Route
    others = wire_proxies cap.proxies ++ use_all [] fallback ∷ []

    others-no_admin : All (λ r. is_admin r ≡ false) others
    others-no_admin =
        All-append _ (wire_proxies cap.proxies) _ (wire_proxies-no_admin cap.proxies) (refl, tt)

    behind_admin : IsBehind guard is_admin (wire_admin order cap)
    behind_admin = rw token (
        IsBehind-found guard is_admin (use_each admin_group (Middleware.wire {Opts = Opts} none)) _
          (use_each-unmeant is_admin admin_group (Middleware.wire {Opts = Opts} none) (λ m. refl)))

    rest :
        IsBehind guard is_admin
          ((if not cap.settings.admin_disabled then wire_admin order cap else []) ++ others)
    rest = elim (Bool-cases cap.settings.admin_disabled) [
      | inl off ↦ rw off (IsBehind-before guard is_admin [] others tt others-no_admin)
      | inr on ↦ rw on (
          IsBehind-before guard is_admin (wire_admin order cap) others behind_admin others-no_admin)
    ]
