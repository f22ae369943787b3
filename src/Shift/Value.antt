-- ===== src/Shift/Value.antt =====
-- The shifts are multiplication and division of the 128-bit number.
use antop.Base.{
  ℕ, zero, suc, ◌+◌, ◌*◌, ◌/◌, ◌%◌, ◌^◌, ◌<◌, ◌≡◌, refl, sym, ap, ◌∙◌, List, [], ◌∷◌, bit_and,
  bit_or, bit, bit_and-pow, bit_or-pow, arith, ◌==◌, if◌then◌else◌, u16,
}
use native.Mathlib.Nat.{pow-suc, div-div-eq-div-mul}
use antop.Shift.{left_words, right_words, left_times, right_times}

-- The test of the highest bit, and of the lowest one.
high_bit : (w : ℕ) → w < 65536 → (if bit_and w 32768 == 0 then 0 else 1) ≡ w / 32768
unfolding bit
high_bit w h = ground (arith, bit_and-pow 15 w)

low_bit : (w : ℕ) → (if bit_and w 1 == 0 then 0 else 1) ≡ w % 2
unfolding bit
low_bit w = ground (arith, bit_and-pow 0 w)

set_low :
    (w carry : ℕ)
    → carry < 2
    → (if carry == 1 then bit_or (u16 (w * 2)) 1 else u16 (w * 2)) ≡ (w * 2 + carry) % 65536
unfolding bit
set_low w carry h = ground (arith, bit_or-pow 0 (u16 (w * 2)))

set_high :
    (w carry : ℕ)
    → w < 65536
    → carry < 2
    → (if carry == 1 then bit_or (w / 2) 32768 else w / 2) ≡ w / 2 + carry * 32768
unfolding bit
set_high w carry h lt = ground (arith, bit_or-pow 15 (w / 2))

-- The number that words hold, the first one lowest.
unfoldable pub value_low : List ℕ → ℕ
value_low [] = 0
value_low (w ∷ ws) = w + 65536 * value_low ws

-- The number that words hold after `acc`, the first one highest.
unfoldable pub value_high : ℕ → List ℕ → ℕ
value_high acc [] = acc
value_high acc (w ∷ ws) = value_high (acc * 65536 + w) ws

-- Every word is a `uint16_t`.
unfoldable pub AllWords : List ℕ → Type 0
AllWords [] = Unit {0}
AllWords (w ∷ ws) = (w < 65536) × AllWords ws

-- `65536 ^ length ws`.
unfoldable pub span : List ℕ → ℕ
span [] = 1
span (w ∷ ws) = 65536 * span ws

-- What the left shift pushes out at the top.
top_carry : ℕ → List ℕ → ℕ
top_carry carry [] = carry
top_carry carry (w ∷ ws) = top_carry (w / 32768) ws

left_words-sum :
    (carry : ℕ) (ws : List ℕ)
    → carry < 2
    → AllWords ws
    → value_low (left_words carry ws) + top_carry carry ws * span ws ≡ 2 * value_low ws + carry
unfolding left_words value_low top_carry span AllWords
left_words-sum carry [] h v = omega arith
left_words-sum carry (w ∷ ws) h v =
    let rest = left_words-sum (w / 32768) ws (omega arith) v.1 in
    rw (high_bit w v.0, set_low w carry h)
      (omega (arith, rest, scale (top_carry (w / 32768) ws) (span ws)))
  where
    scale : (c s : ℕ) → c * (65536 * s) ≡ 65536 * (c * s)
    scale c s = omega arith

right_words-value :
    (acc : ℕ) (ws : List ℕ)
    → AllWords ws
    → value_high (acc / 2) (right_words (acc % 2) ws) ≡ value_high acc ws / 2
unfolding right_words value_high AllWords
right_words-value acc [] v = refl
right_words-value acc (w ∷ ws) v =
    let carried : (acc * 65536 + w) % 2 ≡ w % 2 = omega arith in
    let shifted : acc / 2 * 65536 + (w / 2 + acc % 2 * 32768) ≡ (acc * 65536 + w) / 2 =
      omega arith in
    rw (low_bit w, set_high w (acc % 2) v.0 (omega arith), shifted, sym carried)
      (right_words-value (acc * 65536 + w) ws v.1)

value_low-lt : (ws : List ℕ) → AllWords ws → value_low ws < span ws
unfolding value_low AllWords span
value_low-lt [] v = omega arith
value_low-lt (w ∷ ws) v = omega (arith, value_low-lt ws v.1)

pub left_words-AllWords :
    (carry : ℕ) (ws : List ℕ) → carry < 2 → AllWords ws → AllWords (left_words carry ws)
unfolding left_words AllWords
left_words-AllWords carry [] h v = v
left_words-AllWords carry (w ∷ ws) h v =
    rw (high_bit w v.0, set_low w carry h)
      (omega arith, left_words-AllWords (w / 32768) ws (omega arith) v.1)

pub right_words-AllWords :
    (carry : ℕ) (ws : List ℕ) → carry < 2 → AllWords ws → AllWords (right_words carry ws)
unfolding right_words AllWords
right_words-AllWords carry [] h v = v
right_words-AllWords carry (w ∷ ws) h v =
    rw (low_bit w, set_high w carry v.0 h)
      (omega arith, right_words-AllWords (w % 2) ws (omega arith) v.1)

span-left_words : (carry : ℕ) (ws : List ℕ) → span (left_words carry ws) ≡ span ws
unfolding span left_words
span-left_words carry [] = refl
span-left_words carry (w ∷ ws) =
    ap (λ s. 65536 * s) (span-left_words (if bit_and w 32768 == 0 then 0 else 1) ws)

-- 2 ^ 128.
abbrev pub capacity : ℕ
capacity = 340282366920938463463374607431768211456

left_words-value :
    (ws : List ℕ)
    → AllWords ws
    → span ws ≡ capacity
    → value_low (left_words 0 ws) ≡ 2 * value_low ws % capacity
left_words-value ws v s =
    let sum = left_words-sum 0 ws (omega arith) v in
    let bound = value_low-lt (left_words 0 ws) (left_words-AllWords 0 ws (omega arith) v) in
    let same = span-left_words 0 ws in
    let product = ap (λ (n : ℕ). top_carry 0 ws * n) s in
    omega (arith, sum, bound, same, s, product)

pub left_times-value :
    (k : ℕ) (ws : List ℕ)
    → AllWords ws
    → span ws ≡ capacity
    → value_low (left_times k ws) ≡ value_low ws * 2 ^ k % capacity
unfolding left_times
left_times-value zero ws v s = omega (arith, s, value_low-lt ws v)
left_times-value (suc k) ws v s =
    let rest =
      left_times-value k (left_words 0 ws) (left_words-AllWords 0 ws (omega arith) v)
        (span-left_words 0 ws ∙ s) in
    rest ∙ rw (left_words-value ws v s, pow-suc 2 k) (fold (value_low ws) (2 ^ k))
  where
    fold : (x p : ℕ) → 2 * x % capacity * p % capacity ≡ x * (p * 2) % capacity
    fold x p =
        let q = 2 * x / capacity in
        let r = 2 * x % capacity in
        let split : 2 * x ≡ capacity * q + r = omega arith in
        let product = ap (λ (t : ℕ). t * p) split in omega (arith, product)

pub right_times-value :
    (k : ℕ) (ws : List ℕ) → AllWords ws → value_high 0 (right_times k ws) ≡ value_high 0 ws / 2 ^ k
unfolding right_times
right_times-value zero ws v = omega arith
right_times-value (suc k) ws v =
    let rest = right_times-value k (right_words 0 ws) (right_words-AllWords 0 ws (omega arith) v) in
    rest
    ∙ rw (right_words-value 0 ws v, pow-suc 2 k)
        (div-div-eq-div-mul (value_high 0 ws) 2 (2 ^ k)
          ∙ ap (λ (n : ℕ). value_high 0 ws / n) (omega arith))
