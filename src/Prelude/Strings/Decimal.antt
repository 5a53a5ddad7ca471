-- ===== src/Prelude/Strings/Decimal.antt =====
-- Decimal texts: they hold digits, and differ for different numbers.
use lod.Prelude.Strings.{digits_loop, decimal, itoa}
use lod.Prelude.Text.{Text}
use lod.Prelude.Int.{ℤ, pos, negsuc}
use lod.Prelude.Lists.{All}
use Prim.Native.Nat.{ℕ, zero, suc, ◌+◌, ◌-◌, ◌*◌, ◌/◌, ◌%◌, ◌≤◌, ◌<◌}
use mathlib.Core.Path.{◌≡◌, refl, ap, sym, ◌∙◌}
use mathlib.Core.Logic.{◌≢◌}
use mathlib.Core.List.{[], ◌∷◌, ◌++◌}
use native.Mathlib.Omega.{arith}

-- The number that a text of digits stands for, behind the digits of `acc`.
unfoldable pub read_digits : ℕ → Text → ℕ
read_digits acc [] = acc
read_digits acc (c ∷ s) = read_digits (acc * 10 + (c - b'0')) s

read_digits-digits_loop :
    (fuel n : ℕ) (acc : Text)
    → n < fuel
    → read_digits 0 (digits_loop fuel n acc) ≡ read_digits n acc
unfolding read_digits digits_loop
read_digits-digits_loop zero n acc h = absurd (omega arith)
read_digits-digits_loop (suc fuel) n acc h =
    ground (arith, read_digits-digits_loop fuel (n / 10) ((b'0' + n % 10) ∷ acc), regroup)
  where
    regroup : n / 10 * 10 + (b'0' + n % 10 - b'0') ≡ n
    regroup = omega arith

pub read_digits-decimal : (n : ℕ) → read_digits 0 (decimal n) ≡ n
unfolding decimal
read_digits-decimal n =
    read_digits-digits_loop (suc n) n [] (omega arith) ∙ (unfold read_digits in refl)

abbrev pub IsDigit : ℕ → Type 0
IsDigit c = (b'0' ≤ c) × (c ≤ b'9')

digits_loop-IsDigit :
    (fuel n : ℕ) (acc : Text) → All IsDigit acc → All IsDigit (digits_loop fuel n acc)
unfolding digits_loop
digits_loop-IsDigit zero n acc h = h
digits_loop-IsDigit (suc fuel) n acc h =
    ground (arith, digits_loop-IsDigit fuel (n / 10) ((b'0' + n % 10) ∷ acc))

pub decimal-IsDigit : (n : ℕ) → All IsDigit (decimal n)
unfolding decimal
decimal-IsDigit n = digits_loop-IsDigit (suc n) n [] tt

pub decimal-injective : (m n : ℕ) → decimal m ≡ decimal n → m ≡ n
decimal-injective m n e = sym (read_digits-decimal m) ∙ ap (read_digits 0) e ∙ read_digits-decimal n

-- The bytes of a number: digits and the sign.
abbrev pub IsNumeral : ℕ → Type 0
IsNumeral c = (b'-' ≤ c) × (c ≤ b'9') × (c ≢ b'/')

All-IsNumeral : (s : Text) → All IsDigit s → All IsNumeral s
All-IsNumeral [] h = tt
All-IsNumeral (c ∷ s) h = ((omega arith, omega arith, omega arith), All-IsNumeral s h.1)

pub itoa-IsNumeral : (z : ℤ) → All IsNumeral (itoa z)
unfolding itoa
itoa-IsNumeral (pos n) = All-IsNumeral (decimal n) (decimal-IsDigit n)
itoa-IsNumeral (negsuc n) = (
  (omega arith, omega arith, omega arith),
  All-IsNumeral (decimal (suc n)) (decimal-IsDigit (suc n)),
)

minus-ne-digits : (s t : Text) → All IsDigit t → b'-' ∷ s ≢ t
minus-ne-digits s [] h e = cc
minus-ne-digits s (c ∷ t) h e = ground arith

pub itoa-injective : (y z : ℤ) → itoa y ≡ itoa z → y ≡ z
unfolding itoa
itoa-injective (pos m) (pos n) e = ap pos (decimal-injective m n e)
itoa-injective (pos m) (negsuc n) e =
    absurd (minus-ne-digits (decimal (suc n)) (decimal m) (decimal-IsDigit m) (sym e))
itoa-injective (negsuc m) (pos n) e =
    absurd (minus-ne-digits (decimal (suc m)) (decimal n) (decimal-IsDigit n) e)
itoa-injective (negsuc m) (negsuc n) e =
    let tails : decimal (suc m) ≡ decimal (suc n) = cc in
    ground (arith, decimal-injective (suc m) (suc n) tails)

-- Two texts that are cut at their first `o` are equal in both parts.
pub cut_at :
    (o : ℕ) (a b s t : Text)
    → All (λ c. c ≢ o) a
    → All (λ c. c ≢ o) b
    → a ++ o ∷ s ≡ b ++ o ∷ t
    → (a ≡ b) × (s ≡ t)
cut_at o [] [] s t ha hb e = (refl, cc)
cut_at o [] (d ∷ b) s t ha hb e = absurd (hb.0 (cc))
cut_at o (c ∷ a) [] s t ha hb e = absurd (ha.0 (cc))
cut_at o (c ∷ a) (d ∷ b) s t ha hb e =
    let (heads, tails) = cut_at o a b s t ha.1 hb.1 (cc) in (cc, tails)
