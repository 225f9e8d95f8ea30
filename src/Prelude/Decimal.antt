-- ===== src/Prelude/Decimal.antt =====
-- A natural number printed in decimal, as by a template literal, and read back.
use Prim.Native.Nat.{ℕ, zero, suc, ◌+◌, ◌-◌, ◌*◌, ◌/◌, ◌%◌, ◌≤◌, ◌<◌}
use mathlib.Core.Path.{◌≡◌, refl, sym, ap, ◌∙◌}
use mathlib.Core.Logic.{inl, inr}
use mathlib.Core.List.{[], ◌∷◌}
use native.Mathlib.Omega.{arith}
use urwhaturead.Prelude.Tests.{Bool-cases, ltb, if◌then◌else◌}
use urwhaturead.Prelude.Lists.{All}
use urwhaturead.Prelude.Strings.{Text}

-- The fuel is one more than the number, and each round divides by ten.
decimal_from : ℕ → ℕ → Text → Text
decimal_from zero n rest = rest
decimal_from (suc f) n rest =
    let more = decimal_from f (n / 10) ((48 + n % 10) ∷ rest) in
    if ltb n 10 then (48 + n) ∷ rest else more

unfoldable pub decimal : ℕ → Text
unfolding decimal_from
decimal n = decimal_from (suc n) n []

-- The value of a run of digits behind a value already read.
unfoldable pub read_decimal : ℕ → Text → ℕ
read_decimal acc [] = acc
read_decimal acc (c ∷ s) = read_decimal (acc * 10 + (c - 48)) s

-- Reading a printed number shifts it in front of what follows.
read-decimal_from :
    (f n : ℕ) (rest : Text) → n < f → read_decimal 0 (decimal_from f n rest) ≡ read_decimal n rest
unfolding decimal_from read_decimal
read-decimal_from zero n rest h = absurd (omega arith)
read-decimal_from (suc f) n rest h = elim (Bool-cases (ltb n 10)) [
  | inl e ↦ rw e (ap (λ k. read_decimal k rest) (omega arith))
  | inr e ↦ rw e (
      read-decimal_from f (n / 10) ((48 + n % 10) ∷ rest) (ground arith)
      ∙ ap (λ k. read_decimal k rest) (omega arith))
]

pub read-decimal : (n : ℕ) → read_decimal 0 (decimal n) ≡ n
unfolding decimal
read-decimal n = read-decimal_from (suc n) n [] (omega arith) ∙ (unfold read_decimal in refl)

pub decimal-injective : (n m : ℕ) → decimal n ≡ decimal m → n ≡ m
decimal-injective n m h = sym (read-decimal n) ∙ ap (read_decimal 0) h ∙ read-decimal m

abbrev pub IsDigit : ℕ → Type 0
IsDigit c = (48 ≤ c) × (c ≤ 57)

decimal_from-digits :
    (f n : ℕ) (rest : Text) → All IsDigit rest → All IsDigit (decimal_from f n rest)
unfolding decimal_from
decimal_from-digits zero n rest h = h
decimal_from-digits (suc f) n rest h = elim (Bool-cases (ltb n 10)) [
  | inl e ↦ rw e ((ground arith, ground arith), h)
  | inr e ↦ rw e (decimal_from-digits f (n / 10) _ ((omega arith, omega arith), h))
]

-- Only digits are printed.
pub decimal-digits : (n : ℕ) → All IsDigit (decimal n)
unfolding decimal
decimal-digits n = decimal_from-digits (suc n) n [] tt
