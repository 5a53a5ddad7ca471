-- ===== src/Prelude/Strings/Replace.antt =====
-- `ReplaceAll` on a text in parts.
use lod.Prelude.Strings.{has_prefix, replace_from, replace_all}
use lod.Prelude.Text.{Text}
use lod.Prelude.Lists.{length, All}
use Prim.Native.Nat.{ℕ, suc, ◌-◌}
use mathlib.Core.Path.{◌≡◌, refl, ap}
use mathlib.Core.Bool.{true}
use mathlib.Core.Logic.{◌≢◌}
use mathlib.Core.List.{[], ◌∷◌, ◌++◌}
use native.Mathlib.Omega.{arith}

-- A part without the first byte of `old` stays as it is.
pub replace_all-append_plain :
    (plain s : Text) (o : ℕ) (old new : Text)
    → All (λ c. c ≢ o) plain
    → replace_all (plain ++ s) (o ∷ old) new ≡ plain ++ replace_all s (o ∷ old) new
unfolding replace_all replace_from has_prefix
replace_all-append_plain [] s o old new h = refl
replace_all-append_plain (c ∷ plain) s o old new h =
    ground (arith, replace_all-append_plain plain s o old new)

-- So does a whole text of that kind.
pub replace_all-plain :
    (plain : Text) (o : ℕ) (old new : Text)
    → All (λ c. c ≢ o) plain
    → replace_all plain (o ∷ old) new ≡ plain
unfolding replace_all replace_from has_prefix
replace_all-plain [] o old new h = refl
replace_all-plain (c ∷ plain) o old new h = ground (arith, replace_all-plain plain o old new)

-- An occurrence of `old` at the front is replaced, and the rest is searched from behind it.
replace_from-skip :
    (skipped s old new : Text)
    → replace_from (length skipped) (skipped ++ s) old new ≡ replace_all s old new
unfolding replace_all replace_from
replace_from-skip [] s old new = refl
replace_from-skip (c ∷ skipped) s old new = replace_from-skip skipped s old new

pub has_prefix-append : (prefix s : Text) → has_prefix (prefix ++ s) prefix ≡ true
unfolding has_prefix
has_prefix-append [] [] = refl
has_prefix-append [] (c ∷ s) = refl
has_prefix-append (p ∷ prefix) s = ground (arith, has_prefix-append prefix s)

pub replace_all-append_token :
    (o : ℕ) (old s new : Text)
    → replace_all ((o ∷ old) ++ s) (o ∷ old) new ≡ new ++ replace_all s (o ∷ old) new
unfolding replace_all replace_from
replace_all-append_token o old s new =
    rw (has_prefix-append (o ∷ old) s)
      (ap (λ (t : Text). new ++ t) (skipped (suc (length old) - 1) (omega arith)))
  where
    skipped :
        (n : ℕ)
        → n ≡ length old
        → replace_from n (old ++ s) (o ∷ old) new ≡ replace_all s (o ∷ old) new
    skipped n e = rw e (replace_from-skip old s (o ∷ old) new)
