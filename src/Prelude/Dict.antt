-- ===== src/Prelude/Dict.antt =====
-- A Go map with text keys, as the list of its entries in the order of an iteration.
use mathlib.Core.Path.{◌≡◌, refl}
use mathlib.Core.Logic.{◌≢◌, inl, inr}
use mathlib.Core.Option.{Option, none, some}
use mathlib.Core.List.{List, [], ◌∷◌, ◌++◌}
use native.Mathlib.Omega.{arith}
use lod.Prelude.Tests.{if◌then◌else◌, Bool-cases}
use lod.Prelude.Text.{Text, text_eq, text_eq_iff, text_eq_refl, eq_of_text_eq}

module _ {ℓ} {V : Type ℓ} where
  unfoldable pub lookup : Text → List (Text × V) → Option V
  lookup k [] = none
  lookup k ((j, v) ∷ m) = if text_eq j k then some v else lookup k m

  unfoldable pub insert : Text → V → List (Text × V) → List (Text × V)
  insert k v [] = (k, v) ∷ []
  insert k v ((j, w) ∷ m) = if text_eq j k then (k, v) ∷ m else (j, w) ∷ insert k v m

  -- `delete(m, k)`
  unfoldable pub erase : Text → List (Text × V) → List (Text × V)
  erase k [] = []
  erase k ((j, w) ∷ m) = let rest = erase k m in if text_eq j k then rest else (j, w) ∷ rest

  -- A map has each key once.
  abbrev pub IsDict : List (Text × V) → Type ℓ
  IsDict [] = Unit
  IsDict ((k, v) ∷ m) = (lookup k m ≡ none) × IsDict m

  pub lookup-insert :
      (k j : Text) (v : V) (m : List (Text × V))
      → lookup j (insert k v m) ≡ (if text_eq k j then some v else lookup j m)
  unfolding lookup insert
  lookup-insert k j v [] = refl
  lookup-insert k j v ((i, w) ∷ m) =
      ground (arith, text_eq_iff k j, text_eq_iff i k, text_eq_iff i j, lookup-insert k j v m)

  pub lookup-erase :
      (k j : Text) (m : List (Text × V))
      → lookup j (erase k m) ≡ (if text_eq k j then none else lookup j m)
  unfolding lookup erase
  lookup-erase k j [] = ground arith
  lookup-erase k j ((i, w) ∷ m) =
      ground (arith, text_eq_iff k j, text_eq_iff i k, text_eq_iff i j, lookup-erase k j m)

  -- A new key goes behind the others.
  pub insert_new :
      (k : Text) (v : V) (m : List (Text × V)) → lookup k m ≡ none → insert k v m ≡ m ++ (k, v) ∷ []
  unfolding lookup insert
  insert_new k v [] h = refl
  insert_new k v ((j, w) ∷ m) h = ground (arith, insert_new k v m)

  pub lookup-append_none :
      (k : Text) (m n : List (Text × V)) → lookup k m ≡ none → lookup k (m ++ n) ≡ lookup k n
  unfolding lookup
  lookup-append_none k [] n h = refl
  lookup-append_none k ((j, w) ∷ m) n h = ground (arith, lookup-append_none k m n)

  lookup-append_self :
      (m n : List (Text × V)) (k : Text) (v : V) → lookup k (m ++ (k, v) ∷ n) ≢ none
  unfolding lookup
  lookup-append_self [] n k v = ground (arith, text_eq_refl k)
  lookup-append_self ((i, u) ∷ m) n k v = ground (arith, lookup-append_self m n k v)

  -- In a map, the key of an entry is not among the entries before it.
  pub lookup_before :
      (m n : List (Text × V)) (k : Text) (v : V) → IsDict (m ++ (k, v) ∷ n) → lookup k m ≡ none
  unfolding lookup
  lookup_before [] n k v h = refl
  lookup_before ((j, w) ∷ m) n k v h = elim (Bool-cases (text_eq j k)) [
    | inl same ↦ absurd (lookup-append_self m n k v (rw (eq_of_text_eq j k same) at h.0))
    | inr other ↦ rw other (lookup_before m n k v h.1)
  ]
