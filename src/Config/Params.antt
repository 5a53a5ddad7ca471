-- ===== src/Config/Params.antt =====
-- `validateParams` (config/config.go): parameter names are present, unreserved and distinct.
use lod.Prelude.{
  ℕ, ◌+◌, List, [], ◌∷◌, ◌++◌, false, any, All, All-append, ok, map, ◌≡◌, ◌≢◌, ◌↔◌, refl, arith,
  Bool-cases, inl, inr,
}
use lod.Prelude.Text.{Text, text_eq, text_eq_iff, ne_of_text_eq}
use lod.Config.{Param, Proxy, reserved_names, validate_params_from, validate_params}
use mathlib.Core.List.{append-nil, append_assoc}

-- No text occurs twice.
abbrev pub Distinct : List Text → Type 0
Distinct [] = Unit {0}
Distinct (s ∷ ss) = All (λ t. s ≢ t) ss × Distinct ss

abbrev names : List Param → List Text
names params = map (λ p. p.name) params

All-ne_of_any :
    (s : Text) (used : List Text) → any (λ n. text_eq n s) used ≡ false → All (λ n. n ≢ s) used
All-ne_of_any s [] h = tt
All-ne_of_any s (n ∷ used) h =
    ((λ e. ground (arith, text_eq_iff n s)), All-ne_of_any s used (ground arith))

any_of_All-ne :
    (s : Text) (used : List Text) → All (λ n. n ≢ s) used → any (λ n. text_eq n s) used ≡ false
any_of_All-ne s [] h = refl
any_of_All-ne s (n ∷ used) h = ground (arith, text_eq_iff n s, any_of_All-ne s used h.1)

-- Of distinct texts, one in the middle differs from those in front.
Distinct-middle :
    (used rest : List Text) (s : Text) → Distinct (used ++ s ∷ rest) → All (λ n. n ≢ s) used
Distinct-middle [] rest s d = tt
Distinct-middle (n ∷ used) rest s d = (All-at used d.0, Distinct-middle used rest s d.1)
  where
    All-at : (used : List Text) → All (λ t. n ≢ t) (used ++ s ∷ rest) → n ≢ s
    All-at [] h = h.0
    All-at (u ∷ us) h = All-at us h.1

Distinct-concat :
    (used : List Text) (s : Text)
    → Distinct used
    → All (λ n. n ≢ s) used
    → Distinct (used ++ s ∷ [])
Distinct-concat [] s d h = (tt, tt)
Distinct-concat (n ∷ used) s d h =
    (All-append (λ t. n ≢ t) used (s ∷ []) d.0 (h.0, tt), Distinct-concat used s d.1 h.1)

-- The loop succeeds exactly if the names that are left are present, and distinct from one another
-- and from the names that are in use.
validate_params_from_sound :
    (proxy_name : Text) (i : ℕ) (used : List Text) (params : List Param)
    → Distinct used
    → validate_params_from proxy_name i used params ≡ ok tt
    → All (λ p. p.name ≢ []) params × Distinct (used ++ names params)
unfolding validate_params_from
validate_params_from_sound proxy_name i used [] d h = (tt, rw (append-nil used) d)
validate_params_from_sound proxy_name i used (p ∷ params) d h =
    elim (Bool-cases (text_eq p.name [])) [
      | inl empty ↦ absurd (ground arith)
      | inr named ↦ elim (Bool-cases (any (λ n. text_eq n p.name) used)) [
        | inl taken ↦ absurd (ground arith)
        | inr free ↦
            let fresh = All-ne_of_any p.name used free in
            let (ps, rest) =
              validate_params_from_sound proxy_name (i + 1) (used ++ p.name ∷ []) params
                (Distinct-concat used p.name d fresh) (rw (named, free) at h) in
            ((λ e. absurd (ground (arith, text_eq_iff p.name [])), ps), rw append_assoc at rest)
      ]
    ]

validate_params_from_complete :
    (proxy_name : Text) (i : ℕ) (used : List Text) (params : List Param)
    → All (λ p. p.name ≢ []) params
    → Distinct (used ++ names params)
    → validate_params_from proxy_name i used params ≡ ok tt
unfolding validate_params_from
validate_params_from_complete proxy_name i used [] h d = refl
validate_params_from_complete proxy_name i used (p ∷ params) h d =
    let named : text_eq p.name [] ≡ false = ground (arith, text_eq_iff p.name [], h.0) in
    let free : any (λ n. text_eq n p.name) used ≡ false =
      any_of_All-ne p.name used (Distinct-middle used (names params) p.name d) in
    rw (named, free)
      (validate_params_from_complete proxy_name (i + 1) (used ++ p.name ∷ []) params h.1
        (rw append_assoc d))

reserved_names-Distinct : Distinct reserved_names
unfolding reserved_names text_eq
reserved_names-Distinct = (
  (ne_of_text_eq _ _ refl, (ne_of_text_eq _ _ refl, (ne_of_text_eq _ _ refl, tt))),
  (
    (ne_of_text_eq _ _ refl, (ne_of_text_eq _ _ refl, tt)),
    ((ne_of_text_eq _ _ refl, tt), (tt, tt)),
  ),
)

-- `validateParams` succeeds exactly if every parameter has a name, and the names are distinct from
-- one another and from the reserved names "e", "z", "x" and "y".
pub validate_params_iff :
    {Opts : Type 0} (proxy : Proxy Opts)
    → (validate_params proxy ≡ ok tt) ↔ (
        All (λ p. p.name ≢ []) proxy.params
        × Distinct (reserved_names ++ map (λ p. p.name) proxy.params))
unfolding validate_params
validate_params_iff proxy = (
  validate_params_from_sound proxy.name 0 reserved_names proxy.params reserved_names-Distinct,
  λ (h, d). validate_params_from_complete proxy.name 0 reserved_names proxy.params h d,
)
