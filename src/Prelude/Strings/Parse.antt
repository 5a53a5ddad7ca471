-- ===== src/Prelude/Strings/Parse.antt =====
-- `strconv.Atoi`: a sign, if there is one, and decimal digits, in the range of an `int`.
use lod.Prelude.Strings.{digits_loop, decimal, itoa}
use lod.Prelude.Strings.Decimal.{IsDigit, read_digits, read_digits-decimal, decimal-IsDigit}
use lod.Prelude.Tests.{ltb, leb, ◌==◌, if◌then◌else◌}
use lod.Prelude.Text.{Text}
use lod.Prelude.Int.{ℤ, pos, negsuc, IsInt}
use lod.Prelude.Lists.{All}
use Prim.Native.Nat.{ℕ, zero, suc, ◌+◌, ◌-◌, ◌*◌, ◌^◌, ◌/◌, ◌%◌}
use mathlib.Core.Path.{◌≡◌, refl, ◌∙◌}
use mathlib.Core.Logic.{◌≢◌}
use mathlib.Core.Bool.{◌&&◌}
use mathlib.Core.Option.{Option, none, some}
use mathlib.Core.List.{[], ◌∷◌}
use native.Mathlib.Omega.{arith}

unfoldable pub parse_digits : ℕ → Text → Option ℕ
parse_digits acc [] = some acc
parse_digits acc (c ∷ s) =
    let rest = parse_digits (acc * 10 + (c - b'0')) s in
    if leb b'0' c && leb c b'9' then rest else none

unfoldable pub parse_unsigned : Text → Option ℕ
parse_unsigned [] = none
parse_unsigned (c ∷ s) = parse_digits 0 (c ∷ s)

abbrev pub positive : ℕ → Option ℤ
positive n = if ltb n (2 ^ 63) then some (pos n) else none

abbrev pub negative : ℕ → Option ℤ
negative zero = some (pos 0)
negative (suc n) = if ltb n (2 ^ 63) then some (negsuc n) else none

abbrev pub within : (ℕ → Option ℤ) → Option ℕ → Option ℤ
within signed none = none
within signed (some n) = signed n

unfoldable pub atoi : Text → Option ℤ
atoi [] = none
atoi (c ∷ s) =
    if c == b'-'
    then within negative (parse_unsigned s)
    else if c == b'+'
    then within positive (parse_unsigned s)
    else within positive (parse_unsigned (c ∷ s))

parse_digits-IsDigit :
    (acc : ℕ) (s : Text) → All IsDigit s → parse_digits acc s ≡ some (read_digits acc s)
unfolding parse_digits read_digits
parse_digits-IsDigit acc [] h = refl
parse_digits-IsDigit acc (c ∷ s) h =
    ground (arith, parse_digits-IsDigit (acc * 10 + (c - b'0')) s h.1, h.0)

parse_unsigned-IsDigit :
    (s : Text) → s ≢ [] → All IsDigit s → parse_unsigned s ≡ some (read_digits 0 s)
unfolding parse_unsigned
parse_unsigned-IsDigit [] some_digit h = absurd (some_digit refl)
parse_unsigned-IsDigit (c ∷ s) some_digit h = parse_digits-IsDigit 0 (c ∷ s) h

digits_loop_some : (fuel n : ℕ) (acc : Text) → acc ≢ [] → digits_loop fuel n acc ≢ []
unfolding digits_loop
digits_loop_some zero n acc h = h
digits_loop_some (suc fuel) n acc h =
    let rest = digits_loop_some fuel (n / 10) ((b'0' + n % 10) ∷ acc) (λ e. cc) in λ e. ground arith

decimal_some : (n : ℕ) → decimal n ≢ []
unfolding decimal digits_loop
decimal_some n e =
    let rest = digits_loop_some n (n / 10) ((b'0' + n % 10) ∷ []) (λ e. cc) in ground arith

parse_unsigned-decimal : (n : ℕ) → parse_unsigned (decimal n) ≡ some n
parse_unsigned-decimal n =
    parse_unsigned-IsDigit (decimal n) (decimal_some n) (decimal-IsDigit n)
    ∙ rw (read_digits-decimal n) refl

-- A text of digits has no sign.
atoi-IsDigit : (s : Text) → All IsDigit s → atoi s ≡ within positive (parse_unsigned s)
unfolding atoi parse_unsigned
atoi-IsDigit [] h = refl
atoi-IsDigit (c ∷ s) h = ground (arith, h.0)

-- `Atoi` reads what `Itoa` prints.
pub atoi-itoa : (z : ℤ) → IsInt z → atoi (itoa z) ≡ some z
unfolding itoa atoi
atoi-itoa (pos n) h =
    atoi-IsDigit (decimal n) (decimal-IsDigit n) ∙ rw (parse_unsigned-decimal n) (ground arith)
atoi-itoa (negsuc n) h = rw (parse_unsigned-decimal (suc n)) (ground arith)
