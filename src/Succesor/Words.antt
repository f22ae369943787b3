-- ===== src/Succesor/Words.antt =====
-- The two inner loops of `check_succesor`, by the bits of the words.
use antop.Base.{
  ℕ, zero, suc, ◌+◌, ◌-◌, ◌/◌, ◌^◌, ◌≤◌, ◌<◌, ◌≡◌, refl, ap, ◌≢◌, ◌↔◌, bit_and, htons, ◌==◌, true,
  false, none, some, inl, inr, arith, bit, bit_and-pow, bit_and-zero, Bool-cases,
}
use native.Mathlib.Nat.{pow-suc, one-le-pow}
use antop.Succesor.{first_difference, zero_places}

-- A mask of one bit separates two words exactly where that bit differs.
mask_test : (k w v : ℕ) → ((bit_and w (2 ^ k) == bit_and v (2 ^ k)) ≡ true) ↔ (bit k w ≡ bit k v)
mask_test k w v =
    let top = one-le-pow k 2 (omega arith) in
    rw (bit_and-pow k w, bit_and-pow k v) (ground (arith, top), ground arith)

half : (k : ℕ) → 2 ^ suc k / 2 ≡ 2 ^ k
half k = omega (arith, pow-suc 2 k)

-- Enough fuel finds the highest place `b` where the words differ.
pub first_difference_lem :
    (fuel w v n b j : ℕ)
    → b ≤ n
    → n < 16
    → n < fuel + b
    → ((i : ℕ) → b < i → i < 16 → bit i (htons w) ≡ bit i (htons v))
    → bit b (htons w) ≢ bit b (htons v)
    → first_difference fuel w v (2 ^ n) j ≡ some (2 ^ b, j + (n - b))
unfolding first_difference
first_difference_lem zero w v n b j le top lt same other = absurd (omega arith)
first_difference_lem (suc fuel) w v zero b j le top lt same other =
    let e : b ≡ 0 = omega arith in
    ground (
      arith,
      e,
      mask_test 0 (htons w) (htons v),
      other,
      ap (λ i. bit i (htons w)) e,
      ap (λ i. bit i (htons v)) e,
    )
first_difference_lem (suc fuel) w v (suc n) b j le top lt same other =
    elim (Bool-cases (b == suc n)) [
      | inl here ↦
          let e : b ≡ suc n = ground arith in
          rw (← e) (ground (arith, mask_test b (htons w) (htons v), other))
      | inr below ↦
          let further =
            first_difference_lem fuel w v n b (j + 1) (ground arith) (omega arith) (ground arith)
              same other in
          let equal = (mask_test (suc n) (htons w) (htons v)).1 (same (suc n) (ground arith) top) in
          rw (equal, half n, further) (ground arith)
    ]

-- Over places that are all zero the second loop reaches 16.
pub zero_places_lem :
    (left w v b j : ℕ)
    → j + b ≡ 15
    → b < left
    → ((i : ℕ) → i < b → (bit i (htons w) ≡ false) × (bit i (htons v) ≡ false))
    → zero_places left w v (2 ^ b / 2) j ≡ (0, 16)
unfolding zero_places
zero_places_lem zero w v b j e lt clear = absurd (omega arith)
zero_places_lem (suc zero) w v zero j e lt clear =
    ground (arith, bit_and-zero (htons w), bit_and-zero (htons v))
zero_places_lem (suc (suc left)) w v zero j e lt clear =
    ground (arith, bit_and-zero (htons w), bit_and-zero (htons v))
zero_places_lem (suc left) w v (suc b) j e lt clear =
    let c = clear b (omega arith) in
    rw (half b, bit_and-pow b (htons w), bit_and-pow b (htons v), c.0, c.1)
      (ground (
        arith,
        zero_places_lem left w v b (j + 1) (omega arith) (omega arith)
            (λ i h. clear i (omega arith)),
      ))

-- Without enough fuel it has not ended.
first_difference_short :
    (fuel w v n b j : ℕ)
    → fuel + b ≤ n
    → n < 16
    → ((i : ℕ) → b < i → i < 16 → bit i (htons w) ≡ bit i (htons v))
    → first_difference fuel w v (2 ^ n) j ≡ none
unfolding first_difference
first_difference_short zero w v n b j le top same = refl
first_difference_short (suc fuel) w v zero b j le top same = absurd (omega arith)
first_difference_short (suc fuel) w v (suc n) b j le top same =
    let equal = (mask_test (suc n) (htons w) (htons v)).1 (same (suc n) (omega arith) top) in
    rw (equal, half n, first_difference_short fuel w v n b (j + 1) (omega arith) (omega arith) same)
      refl

-- Two words, as the host reads them, that differ in bit `b` alone and have only zeros below it.
pub record OnePlace (b w v : ℕ) : Type 0 where
  pub place_lt : b < 16
  pub above : (i : ℕ) → b < i → i < 16 → bit i (htons w) ≡ bit i (htons v)
  pub other : bit b (htons w) ≢ bit b (htons v)
  pub below : (i : ℕ) → i < b → (bit i (htons w) ≡ false) × (bit i (htons v) ≡ false)

pub OnePlace-differ : (b w v : ℕ) → OnePlace b w v → (w == v) ≡ false
OnePlace-differ b w v one = elim (Bool-cases (w == v)) [
  | inl same ↦ absurd (one.other (ap (λ x. bit b (htons x)) (ground arith)))
  | inr apart ↦ apart
]

-- A word of that kind leaves the mask at 0 and `j` at 16.
pub first_difference-OnePlace :
    (fuel b w v : ℕ)
    → 15 < fuel + b
    → OnePlace b w v
    → first_difference fuel w v (2 ^ 15) 0 ≡ some (2 ^ b, 15 - b)
first_difference-OnePlace fuel b w v h one =
    let found =
      first_difference_lem fuel w v 15 b 0 (omega (arith, one.place_lt)) (omega arith) h one.above
        one.other in
    ground (arith, found)

pub first_difference-OnePlace_short :
    (fuel b w v : ℕ) → fuel + b ≤ 15 → OnePlace b w v → first_difference fuel w v (2 ^ 15) 0 ≡ none
first_difference-OnePlace_short fuel b w v h one =
    first_difference_short fuel w v 15 b 0 h (omega arith) one.above

pub zero_places-OnePlace :
    (b w v : ℕ) → OnePlace b w v → zero_places 17 w v (2 ^ b / 2) (15 - b) ≡ (0, 16)
zero_places-OnePlace b w v one =
    zero_places_lem 17 w v b (15 - b) (omega (arith, one.place_lt)) (omega (arith, one.place_lt))
      one.below
