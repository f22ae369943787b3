-- ===== src/Base/BitSet.antt =====
-- Setting a clear digit by `+= 2 ^ k`, and clearing a set one by `-= 2 ^ k`.
use Prim.Native.Nat.{ℕ, zero, suc, ◌+◌, ◌-◌, ◌/◌, ◌%◌, ◌^◌, ◌≤◌, ◌<◌}
use mathlib.Core.Path.{◌≡◌, ◌∙◌}
use mathlib.Core.Bool.{true, false}
use native.Mathlib.Nat.{pow-suc}
use native.Mathlib.Omega.{arith}
use antop.Base.Tests.{◌==◌, if◌then◌else◌}
use antop.Base.Bits.{bit}

pub bit-add_pow :
    (i k n : ℕ) → bit k n ≡ false → bit i (n + 2 ^ k) ≡ (if i == k then true else bit i n)
unfolding bit
bit-add_pow zero zero n h = ground arith
bit-add_pow (suc i) zero n h =
    let half : (n + 2 ^ 0) / 2 ≡ n / 2 = ground arith in rw half (ground arith)
bit-add_pow zero (suc k) n h =
    let even : (n + 2 ^ suc k) % 2 ≡ n % 2 = omega (arith, pow-suc 2 k) in rw even (ground arith)
bit-add_pow (suc i) (suc k) n h =
    let half : (n + 2 ^ suc k) / 2 ≡ n / 2 + 2 ^ k = omega (arith, pow-suc 2 k) in
    rw half (bit-add_pow i k (n / 2) h ∙ ground arith)

pub pow-le_of_bit : (k n : ℕ) → bit k n ≡ true → 2 ^ k ≤ n
unfolding bit
pow-le_of_bit zero n h = ground arith
pow-le_of_bit (suc k) n h = omega (arith, pow-suc 2 k, pow-le_of_bit k (n / 2) h)

pub bit-sub_pow :
    (i k n : ℕ) → bit k n ≡ true → bit i (n - 2 ^ k) ≡ (if i == k then false else bit i n)
unfolding bit
bit-sub_pow zero zero n h = ground arith
bit-sub_pow (suc i) zero n h =
    let half : (n - 2 ^ 0) / 2 ≡ n / 2 = ground arith in rw half (ground arith)
bit-sub_pow zero (suc k) n h =
    let even : (n - 2 ^ suc k) % 2 ≡ n % 2 =
      omega (arith, pow-suc 2 k, pow-le_of_bit (suc k) n h) in
    rw even (ground arith)
bit-sub_pow (suc i) (suc k) n h =
    let half : (n - 2 ^ suc k) / 2 ≡ n / 2 - 2 ^ k = omega (arith, pow-suc 2 k) in
    rw half (bit-sub_pow i k (n / 2) h ∙ ground arith)

pub add_pow-lt : (k m n : ℕ) → bit k n ≡ false → k < m → n < 2 ^ m → n + 2 ^ k < 2 ^ m
unfolding bit
add_pow-lt k zero n h lt p = absurd (omega arith)
add_pow-lt zero (suc m) n h lt p = ground (arith, pow-suc 2 m)
add_pow-lt (suc k) (suc m) n h lt p = omega (
  arith,
  pow-suc 2 k,
  pow-suc 2 m,
  add_pow-lt k m (n / 2) h (omega arith) (omega (arith, pow-suc 2 m)),
)
