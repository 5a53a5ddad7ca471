-- ===== src/Prelude/Strings.antt =====
-- What the program uses of Go's packages strings, strconv and fmt, on texts as lists of bytes.
pub mod Replace
pub mod Decimal
pub mod Parse
use Prim.Native.Nat.{ℕ, zero, suc, ◌+◌, ◌-◌, ◌/◌, ◌%◌}
use mathlib.Core.Bool.{Bool, true, false, ◌&&◌, ◌||◌}
use mathlib.Core.List.{List, [], ◌∷◌, ◌++◌}
use lod.Prelude.Tests.{ltb, ◌==◌, if◌then◌else◌}
use lod.Prelude.Lists.{length}
use lod.Prelude.Text.{Text}
use lod.Prelude.Int.{ℤ, pos, negsuc}

-- `strings.HasPrefix(s, prefix)`
unfoldable pub has_prefix : Text → Text → Bool
has_prefix s [] = true
has_prefix [] (p ∷ prefix) = false
has_prefix (c ∷ s) (p ∷ prefix) = c == p && has_prefix s prefix

-- `strings.Contains(s, sub)`
unfoldable pub contains : Text → Text → Bool
contains [] sub = has_prefix [] sub
contains (c ∷ s) sub = has_prefix (c ∷ s) sub || contains s sub

-- `strings.ReplaceAll(s, old, new)` for an `old` that is not empty: the matches are taken from
-- left to right and do not overlap. `skip` bytes of a match are still to be passed over.
unfoldable pub replace_from : ℕ → Text → Text → Text → Text
replace_from skip [] old new = []
replace_from (suc skip) (c ∷ s) old new = replace_from skip s old new
replace_from zero (c ∷ s) old new =
    let hit = has_prefix (c ∷ s) old in
    let rest = replace_from (if hit then length old - 1 else 0) s old new in
    if hit then new ++ rest else c ∷ rest

unfoldable pub replace_all : Text → Text → Text → Text
replace_all s old new = replace_from 0 s old new

-- The decimal digits of a number, behind `acc`; the number itself is fuel enough.
unfoldable pub digits_loop : ℕ → ℕ → Text → Text
digits_loop zero n acc = acc
digits_loop (suc fuel) n acc =
    let acc' = (b'0' + n % 10) ∷ acc in
    let rest = digits_loop fuel (n / 10) acc' in if ltb n 10 then acc' else rest

unfoldable pub decimal : ℕ → Text
decimal n = digits_loop (suc n) n []

-- `strconv.Itoa`, and `%d` of fmt
unfoldable pub itoa : ℤ → Text
itoa (pos n) = decimal n
itoa (negsuc n) = b'-' ∷ decimal (suc n)
