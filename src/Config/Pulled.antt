-- ===== src/Config/Pulled.antt =====
-- What `DoPullHeaders` (config/config.go) stores.
use lod.Prelude.{
  List, [], ◌∷◌, not, ◌&&◌, any, if◌then◌else◌, Bool-cases, inl, inr, some, ◌≡◌, refl, arith,
}
use lod.Prelude.Text.{Text, text_eq, eq_of_text_eq}
use lod.Prelude.Dict.{lookup, insert, lookup-insert}
use lod.Config.{Proxy}
use lod.Config.Load.{entries}
use lod.Config.Messages.{pull_from, do_pull_headers}

-- The headers after the loop of `DoPullHeaders`.
lookup-pull_from :
    (peek : Text → Text) (pulled : List Text) (header : Text) (hs : List (Text × Text))
    → lookup header (pull_from peek pulled hs) ≡ (
        if any (λ k. text_eq k header) pulled && not (text_eq (peek header) [])
        then some (peek header)
        else lookup header hs)
unfolding pull_from
lookup-pull_from peek [] header hs = refl
lookup-pull_from peek (k ∷ pulled) header hs = elim (Bool-cases (text_eq (peek k) [])) [
  | inl empty ↦
      rw (empty, lookup-pull_from peek pulled header hs)
        (elim (Bool-cases (text_eq k header)) [
          | inl same ↦ rw (same, ← eq_of_text_eq k header same, empty) (ground arith)
          | inr other ↦ rw other refl
        ])
  | inr full ↦
      rw
        (
          full,
          lookup-pull_from peek pulled header (insert k (peek k) hs),
          lookup-insert k header (peek k) hs,
        )
        (elim (Bool-cases (text_eq k header)) [
          | inl same ↦ rw (same, ← eq_of_text_eq k header same, full) (ground arith)
          | inr other ↦ rw other refl
        ])
]

-- `DoPullHeaders` stores exactly the headers that are on the proxy's list and that the response has
-- with a value, and leaves the rest of the map as it was.
pub lookup-do_pull_headers :
    {Opts : Type 0} (p : Proxy Opts) (peek : Text → Text) (header : Text) (hs : List (Text × Text))
    → lookup header (do_pull_headers p peek hs) ≡ (
        if any (λ k. text_eq k header) (entries p.pull_headers) && not (text_eq (peek header) [])
        then some (peek header)
        else lookup header hs)
unfolding do_pull_headers
lookup-do_pull_headers p peek header hs = lookup-pull_from peek (entries p.pull_headers) header hs
