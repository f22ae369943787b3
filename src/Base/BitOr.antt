-- ===== src/Base/BitOr.antt =====
-- `|` by its sum with `&`, and the setting of a clear digit.
use Prim.Native.Nat.{
  ℕ, zero, suc, ◌+◌, ◌/◌, ◌^◌, ◌≤◌, min, max, bit_and, bit_or, digits, bit_and-bitwise,
  bit_or-bitwise,
}
use mathlib.Core.Path.{◌≡◌, ap₂, ◌∙◌}
use mathlib.Core.Bool.{false}
use native.Mathlib.Omega.{arith}
use antop.Base.Bits.{bit, bit_and-pow}

-- The digits of `|` and of `&`, with fuel.
abbrev or_digits : ℕ → ℕ → ℕ → ℕ
or_digits = digits (λ rest. rest) max

abbrev and_digits : ℕ → ℕ → ℕ → ℕ
and_digits = digits (λ rest. 0) min

digits_sum : (n a b : ℕ) → a ≤ n → or_digits n a b + and_digits n a b ≡ a + b
digits_sum n zero b h = none_left n
  where
    none_left : (n : ℕ) → or_digits n zero b + and_digits n zero b ≡ 0 + b
    none_left zero = omega arith
    none_left (suc n) = omega arith
digits_sum zero (suc a) b h = absurd (omega arith)
digits_sum (suc n) (suc a) b h =
    let rest = digits_sum n (suc a / 2) (b / 2) (omega arith) in ground (arith, rest)

pub bit_or-sum : (a b : ℕ) → bit_or a b + bit_and a b ≡ a + b
bit_or-sum a b =
    ap₂ (◌+◌) (bit_or-bitwise a b) (bit_and-bitwise a b) ∙ digits_sum a a b (omega arith)

pub bit_or-pow : (k n : ℕ) → bit k n ≡ false → bit_or n (2 ^ k) ≡ n + 2 ^ k
bit_or-pow k n h =
    let clear : bit_and n (2 ^ k) ≡ 0 = rw (bit_and-pow k n, h) (omega arith) in
    omega (arith, bit_or-sum n (2 ^ k), clear)

pub bit_or-zero : (n : ℕ) → bit_or 0 n ≡ n
bit_or-zero n = bit_or-bitwise 0 n
