-- ===== src/Base/Bits.antt =====
-- `&` with a power of two, as a test of one binary digit.
use Prim.Native.Nat.{
  ℕ, zero, suc, ◌+◌, ◌-◌, ◌*◌, ◌/◌, ◌%◌, ◌^◌, ◌≤◌, ◌<◌, min, bit_and, digits, bitwise,
  bit_and-bitwise,
}
use mathlib.Core.Path.{◌≡◌, refl, ap, ◌∙◌}
use mathlib.Core.Bool.{Bool, true, false}
use native.Mathlib.Nat.{pow-suc}
use native.Mathlib.Omega.{arith}
use antop.Base.Tests.{◌==◌}

module _ (z : ℕ → ℕ) (f : ℕ → ℕ → ℕ) where
  -- One more unit of fuel changes nothing.
  digits_more : (n a b : ℕ) → a ≤ n → digits z f (suc n) a b ≡ digits z f n a b
  digits_more n zero b le = none_left n
    where
      none_left : (n : ℕ) → digits z f (suc n) zero b ≡ digits z f n zero b
      none_left zero = refl
      none_left (suc n) = refl
  digits_more zero (suc a) b le = absurd (omega arith)
  digits_more (suc n) (suc a) b le = rw (digits_more n (suc a / 2) (b / 2) (omega arith))

  digits_extra : (k n a b : ℕ) → a ≤ n → digits z f (k + n) a b ≡ digits z f n a b
  digits_extra zero n a b le =
      let same : 0 + n ≡ n = omega arith in ap (λ fuel. digits z f fuel a b) same
  digits_extra (suc k) n a b le =
      let one : suc k + n ≡ suc (k + n) = omega arith in
      ap (λ fuel. digits z f fuel a b) one
      ∙ digits_more (k + n) a b (omega arith)
      ∙ digits_extra k n a b le

  lowest :
      (a b : ℕ)
      → bitwise z f (suc a) b ≡ bitwise z f (suc a / 2) (b / 2) * 2 + f (suc a % 2) (b % 2)
  lowest a b =
      let h = suc a / 2 in
      let split : a ≡ a - h + h = omega arith in
      let enough =
        ap (λ fuel. digits z f fuel h (b / 2)) split
        ∙ digits_extra (a - h) h h (b / 2) (omega arith) in
      ap (λ d. d * 2 + f (suc a % 2) (b % 2)) enough

-- The lowest digit of `&`, and the rest.
pub bit_and_step : (a b : ℕ) → bit_and a b ≡ bit_and (a / 2) (b / 2) * 2 + min (a % 2) (b % 2)
bit_and_step zero b = rw (bit_and-bitwise 0 b, bit_and-bitwise (0 / 2) (b / 2)) (omega arith)
bit_and_step (suc a) b =
    rw (bit_and-bitwise (suc a) b, bit_and-bitwise (suc a / 2) (b / 2)) (lowest (λ rest. 0) min a b)

no_digits : (fuel a : ℕ) → digits (λ rest. 0) min fuel a 0 ≡ 0
no_digits fuel zero = empty fuel
  where
    empty : (fuel : ℕ) → digits (λ rest. 0) min fuel zero 0 ≡ 0
    empty zero = refl
    empty (suc fuel) = refl
no_digits zero (suc a) = refl
no_digits (suc fuel) (suc a) = omega (arith, no_digits fuel (suc a / 2))

pub bit_and-zero : (a : ℕ) → bit_and a 0 ≡ 0
bit_and-zero a = bit_and-bitwise a 0 ∙ no_digits a a

-- The binary digit of weight 2 ^ k.
unfoldable pub bit : ℕ → ℕ → Bool
bit zero n = n % 2 == 1
bit (suc k) n = bit k (n / 2)

abbrev pub digit : Bool → ℕ
digit true = 1
digit false = 0

-- Masking with 2 ^ k keeps that digit and no other.
pub bit_and-pow : (k n : ℕ) → bit_and n (2 ^ k) ≡ digit (bit k n) * 2 ^ k
unfolding bit
bit_and-pow zero n = ground (arith, bit_and_step n 1, bit_and-zero (n / 2))
bit_and-pow (suc k) n =
    let half : 2 ^ suc k / 2 ≡ 2 ^ k = omega (arith, pow-suc 2 k) in
    rw (bit_and_step n (2 ^ suc k), half, bit_and-pow k (n / 2))
      (omega (arith, pow-suc 2 k, ap (λ (t : ℕ). digit (bit k (n / 2)) * t) (pow-suc 2 k)))

bit-zero_ext : (n m : ℕ) → (n % 2 == 1) ≡ (m % 2 == 1) → n % 2 ≡ m % 2
bit-zero_ext n m h = ground arith

-- Two k-digit numbers with the same digits are equal.
pub bit_ext : (k n m : ℕ) → n < 2 ^ k → m < 2 ^ k → ((i : ℕ) → i < k → bit i n ≡ bit i m) → n ≡ m
unfolding bit
bit_ext zero n m p q h = omega arith
bit_ext (suc k) n m p q h = omega (
  arith,
  bit-zero_ext n m (h zero (omega arith)),
  bit_ext k (n / 2) (m / 2) (omega (arith, pow-suc 2 k)) (omega (arith, pow-suc 2 k))
      (λ i lt. h (suc i) (omega arith)),
)
