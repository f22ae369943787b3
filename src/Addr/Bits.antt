-- ===== src/Addr/Bits.antt =====
-- An address as the 64 bits of its host half, most significant first.
use antop.Base.{
  ℕ, zero, suc, ◌+◌, ◌*◌, ◌^◌, ◌≤◌, ◌<◌, bit_and, ◌≡◌, refl, sym, ap, ◌∙◌, Bool, true, false, List,
  [], ◌∷◌, ◌++◌, arith, length, ◌==◌, if◌then◌else◌, bit, digit, htons, bit_and-htons_pow,
  htons_pow_pos, length-append,
}
use antop.Addr.{Addr, word, count_up, count_words}
use antop.Addr.Hamming.{differ, hamming, hamming-append}

unfoldable pub bits_down : ℕ → ℕ → List Bool
bits_down zero n = []
bits_down (suc k) n = bit k n ∷ bits_down k n

unfoldable pub word_bits : ℕ → List Bool
word_bits w = bits_down 16 (htons w)

unfoldable pub host_bits : Addr → List Bool
host_bits a = word_bits a.w4 ++ (word_bits a.w5 ++ (word_bits a.w6 ++ word_bits a.w7))

pub length-bits_down : (k n : ℕ) → length (bits_down k n) ≡ k
unfolding bits_down
length-bits_down zero n = refl
length-bits_down (suc k) n = ap suc (length-bits_down k n)

pub length-word_bits : (w : ℕ) → length (word_bits w) ≡ 16
unfolding word_bits
length-word_bits w = length-bits_down 16 (htons w)

-- The masks of both distances compare one bit.
masked_test :
    (b c : Bool) (m count : ℕ)
    → 0 < m
    → (if digit b * m == digit c * m then count else count + 1) ≡ count + differ b c
unfolding differ
masked_test true true m count h = ground arith
masked_test true false m count h = ground arith
masked_test false true m count h = ground arith
masked_test false false m count h = ground arith

pub count_bit :
    (j w v count : ℕ)
    → j < 16
    → (if bit_and w (htons (2 ^ j)) == bit_and v (htons (2 ^ j)) then count else count + 1)
      ≡ count + differ (bit j (htons w)) (bit j (htons v))
count_bit j w v count h =
    rw (bit_and-htons_pow j w h, bit_and-htons_pow j v h)
      (masked_test (bit j (htons w)) (bit j (htons v)) (htons (2 ^ j)) count (htons_pow_pos j h))

sum_up : ℕ → ℕ → ℕ → ℕ → ℕ
sum_up zero j w v = 0
sum_up (suc left) j w v = differ (bit j (htons w)) (bit j (htons v)) + sum_up left (j + 1) w v

count_up_sum :
    (left j w v count : ℕ) → left + j ≤ 16 → count_up left j w v count ≡ count + sum_up left j w v
unfolding count_up sum_up
count_up_sum zero j w v count h = omega arith
count_up_sum (suc left) j w v count h = rw (count_bit j w v count (omega arith)) (
    omega (
      arith,
      count_up_sum left (j + 1) w v (count + differ (bit j (htons w)) (bit j (htons v)))
          (omega arith),
    ))

pub count_up-hamming :
    (w v count : ℕ) → count_up 16 0 w v count ≡ count + hamming (word_bits w) (word_bits v)
count_up-hamming w v count = count_up_sum 16 0 w v count (omega arith) ∙ ap (λ t. count + t) sums
  where
    sums : sum_up 16 0 w v ≡ hamming (word_bits w) (word_bits v)
    sums = unfold sum_up hamming word_bits bits_down in omega arith

-- The loop over whole words, with the words in a list.
unfoldable pub bits_from : ℕ → ℕ → Addr → List Bool
bits_from zero i a = []
bits_from (suc left) i a = word_bits (word a i) ++ bits_from left (i + 1) a

pub count_words-hamming :
    (left i : ℕ) (a b : Addr) (count : ℕ)
    → count_words left i a b count ≡ count + hamming (bits_from left i a) (bits_from left i b)
unfolding count_words bits_from
count_words-hamming zero i a b count = unfold hamming in omega arith
count_words-hamming (suc left) i a b count =
    let w = word a i in
    let v = word b i in
    rw
      (
        count_words-hamming left (i + 1) a b (count_up 16 0 w v count),
        count_up-hamming w v count,
        hamming-append (word_bits w) (word_bits v) (bits_from left (i + 1) a)
            (bits_from left (i + 1) b) (length-word_bits w ∙ sym (length-word_bits v)),
      )
      (omega arith)

pub length-bits_from : (left i : ℕ) (a : Addr) → length (bits_from left i a) ≡ left * 16
unfolding bits_from
length-bits_from zero i a = omega arith
length-bits_from (suc left) i a = omega (
  arith,
  length-append (word_bits (word a i)) (bits_from left (i + 1) a),
  length-word_bits (word a i),
  length-bits_from left (i + 1) a,
)
