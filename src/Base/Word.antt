-- ===== src/Base/Word.antt =====
-- 16-bit words of a little-endian host, and the byte swap `htons`.
use mathlib.Core.Path.{◌≡◌, refl, sym, ap, subst, ◌∙◌}
use mathlib.Core.Logic.{inl, inr}
use mathlib.Core.Bool.{true}
use native.Mathlib.Nat.{one-le-pow}
use native.Mathlib.Omega.{arith}
use Prim.Native.Nat.{ℕ, zero, suc, ◌+◌, ◌-◌, ◌*◌, ◌/◌, ◌%◌, ◌^◌, ◌<◌, bit_and}
use antop.Base.Tests.{Bool-cases, ◌==◌, ==_iff, ltb, if◌then◌else◌, all_below, all_below_sound}
use antop.Base.Bits.{bit, digit, bit_and-pow}

-- A conversion to `uint16_t`.
abbrev pub u16 : ℕ → ℕ
u16 n = n % 65536

-- `htons` and `ntohs` exchange the two bytes of a word.
unfoldable pub htons : ℕ → ℕ
htons w = w % 256 * 256 + w / 256 % 256

pub htons-htons : (w : ℕ) → w < 65536 → htons (htons w) ≡ w
unfolding htons
htons-htons w h = omega arith

pub htons-lt : (w : ℕ) → htons w < 65536
unfolding htons
htons-lt w = omega arith

-- Where `htons` moves the digit of weight 2 ^ j.
pub swap : ℕ → ℕ
swap j = if ltb j 8 then j + 8 else j - 8

htons-pow_table : all_below 16 (λ j. htons (2 ^ j) == 2 ^ swap j) ≡ true
unfolding all_below htons swap
htons-pow_table = refl

pub htons-pow : (j : ℕ) → j < 16 → htons (2 ^ j) ≡ 2 ^ swap j
htons-pow j h = (==_iff (htons (2 ^ j)) (2 ^ swap j)).0 (all_below_sound _ j 16 h htons-pow_table)

bit_high : (i w : ℕ) → bit (suc (suc (suc (suc (suc (suc (suc (suc i)))))))) w ≡ bit i (w / 256)
unfolding bit
bit_high i w = ap (bit i) (omega arith)

bit_low : (i w : ℕ) → i < 8 → bit i (w % 256) ≡ bit i w
unfolding bit
bit_low zero w h = ground arith
bit_low (suc zero) w h = ground arith
bit_low (suc (suc zero)) w h = ground arith
bit_low (suc (suc (suc zero))) w h = ground arith
bit_low (suc (suc (suc (suc zero)))) w h = ground arith
bit_low (suc (suc (suc (suc (suc zero))))) w h = ground arith
bit_low (suc (suc (suc (suc (suc (suc zero)))))) w h = ground arith
bit_low (suc (suc (suc (suc (suc (suc (suc zero))))))) w h = ground arith
bit_low (suc (suc (suc (suc (suc (suc (suc (suc i)))))))) w h = absurd (omega arith)

-- Digit j of the swapped word is digit `swap j` of the word.
bit-htons_low :
    (j w : ℕ) → j < 8 → bit (suc (suc (suc (suc (suc (suc (suc (suc j)))))))) w ≡ bit j (htons w)
unfolding htons
bit-htons_low j w h =
    bit_high j w
    ∙ sym (bit_low j (w / 256) h)
    ∙ ap (bit j) (omega arith)
    ∙ bit_low j (w % 256 * 256 + w / 256 % 256) h

bit-htons_high :
    (i w : ℕ) → i < 8 → bit i w ≡ bit (suc (suc (suc (suc (suc (suc (suc (suc i)))))))) (htons w)
unfolding htons
bit-htons_high i w h =
    sym (bit_low i w h)
    ∙ ap (bit i) (omega arith)
    ∙ sym (bit_high i (w % 256 * 256 + w / 256 % 256))

pub bit-htons : (j w : ℕ) → j < 16 → bit (swap j) w ≡ bit j (htons w)
unfolding swap
bit-htons j w h = elim (Bool-cases (ltb j 8)) [
  | inl low ↦
      rw low
        (subst (λ k. bit k w ≡ bit j (htons w)) (omega arith) (bit-htons_low j w (ground arith)))
  | inr high ↦ rw high (
      subst (λ k. bit (j - 8) w ≡ bit k (htons w)) (ground arith)
        (bit-htons_high (j - 8) w (ground arith)))
]

-- The mask `htons(pow(2, j))` picks digit j of the word in network order.
pub bit_and-htons_pow :
    (j w : ℕ) → j < 16 → bit_and w (htons (2 ^ j)) ≡ digit (bit j (htons w)) * htons (2 ^ j)
bit_and-htons_pow j w h =
    rw (htons-pow j h) (bit_and-pow (swap j) w ∙ ap (λ b. digit b * 2 ^ swap j) (bit-htons j w h))

pub htons_pow_pos : (j : ℕ) → j < 16 → 0 < htons (2 ^ j)
htons_pow_pos j h = rw (htons-pow j h) (one-le-pow (swap j) 2 (omega arith))

pub swap-lt : (j : ℕ) → j < 16 → swap j < 16
unfolding swap
swap-lt j h = ground arith

pub swap-test : (i j : ℕ) → i < 16 → j < 16 → (swap i == swap j) ≡ (i == j)
unfolding swap
swap-test i j p q = ground arith
