-- ===== src/Helpers/Params.antt =====
-- What `FillParamsMap` (helpers/helpers.go) stores.
use lod.Prelude.{
  List, [], ◌∷◌, not, if◌then◌else◌, All, none, some, map, ◌≡◌, ◌≢◌, refl, arith, Bool-cases, inl,
  inr,
}
use lod.Prelude.Text.{Text, text_eq, text_eq_iff, text_eq_refl}
use lod.Prelude.Dict.{lookup, insert, lookup-insert}
use lod.Config.{Param, Proxy}
use lod.Config.Load.{entries}
use lod.Config.Params.{Distinct}
use lod.Helpers.{Request, fill_from, local_of, fill_params_map}
use mathlib.Core.List.{Memᴰ}

-- A parameter whose name is not among those of the loop stays as it was.
lookup-fill_from-other :
    (query : Text → Text → Text) (params : List Param) (name : Text) (m : List (Text × Text))
    → All (λ other. name ≢ other) (map (λ p. p.name) params)
    → lookup name (fill_from query params m) ≡ lookup name m
unfolding fill_from
lookup-fill_from-other query [] name m h = refl
lookup-fill_from-other query (p ∷ params) name m h =
    let val = query p.name p.default in
    elim (Bool-cases (text_eq val [])) [
      | inl empty ↦ rw empty (lookup-fill_from-other query params name m h.1)
      | inr full ↦
          rw
            (
              full,
              lookup-fill_from-other query params name (insert p.name val m) h.1,
              lookup-insert p.name name val m,
            )
            (ground (arith, text_eq_iff p.name name, h.0))
    ]

lookup-fill_from :
    (query : Text → Text → Text) (params : List Param) (p : Param) (m : List (Text × Text))
    → Distinct (map (λ q. q.name) params)
    → Memᴰ p params
    → lookup p.name m ≡ none
    → lookup p.name (fill_from query params m)
      ≡ (if not (text_eq (query p.name p.default) []) then some (query p.name p.default) else none)
unfolding fill_from
lookup-fill_from query [] p m d h free = elim h [ ]
lookup-fill_from query (q ∷ params) p m d (Memᴰ.head e) free =
    let val = query q.name q.default in
    rw e (elim (Bool-cases (text_eq val [])) [
      | inl empty ↦ rw (empty, lookup-fill_from-other query params q.name m d.0, rw e at free) refl
      | inr full ↦
          rw
            (
              full,
              lookup-fill_from-other query params q.name (insert q.name val m) d.0,
              lookup-insert q.name q.name val m,
              text_eq_refl q.name,
            )
            refl
    ])
lookup-fill_from query (q ∷ params) p m d (Memᴰ.tail h) free =
    let val = query q.name q.default in
    let still : lookup p.name (insert q.name val m) ≡ none =
      rw (lookup-insert q.name p.name val m)
        (ground (arith, text_eq_iff q.name p.name, All-ne params h d.0)) in
    elim (Bool-cases (text_eq val [])) [
      | inl empty ↦ rw empty (lookup-fill_from query params p m d.1 h free)
      | inr full ↦ rw full (lookup-fill_from query params p (insert q.name val m) d.1 h still)
    ]
  where
    All-ne :
        (params : List Param)
        → Memᴰ p params
        → All (λ n. q.name ≢ n) (map (λ r. r.name) params)
        → q.name ≢ p.name
    All-ne [] h hs = elim h [ ]
    All-ne (r ∷ params) (Memᴰ.head e) hs = rw e hs.0
    All-ne (r ∷ params) (Memᴰ.tail h) hs = All-ne params h hs.1

entries-local_of : (m : List (Text × Text)) → entries (local_of m none) ≡ m
entries-local_of [] = refl
entries-local_of (e ∷ m) = refl

-- Of a proxy's parameters, which have distinct names, `FillParamsMap` on a request without a map stores
-- each one with its value in the query, or its default, exactly if that value is not empty.
pub lookup-fill_params_map :
    {Opts E : Type 0} (proxy : Proxy Opts) (ctx : Request E) (p : Param)
    → Distinct (map (λ q. q.name) proxy.params)
    → Memᴰ p proxy.params
    → ctx.local_params ≡ none
    → lookup p.name (entries (fill_params_map proxy ctx).local_params) ≡ (
        if not (text_eq (ctx.query p.name p.default) [])
        then some (ctx.query p.name p.default)
        else none)
unfolding fill_params_map
lookup-fill_params_map proxy ctx p distinct member fresh =
    rw (fresh, entries-local_of (fill_from ctx.query proxy.params []))
      (lookup-fill_from ctx.query proxy.params p [] distinct member (unfold lookup in refl))
