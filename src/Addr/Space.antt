-- ===== src/Addr/Space.antt =====
-- `check_addr_space` agrees with `dist_w_mask`: both look at the first bits of the host half.
use antop.Base.{
  ℕ, zero, suc, ◌+◌, ◌*◌, ◌/◌, ◌%◌, ◌^◌, ◌≤◌, ◌<◌, bit_and, ◌≡◌, refl, sym, ap, ◌∙◌, subst, inl,
  inr, Bool, not, true, false, arith, take, ◌==◌, if◌then◌else◌, Bool-cases, bit, digit, bit_ext,
  bit_and-pow, htons, htons-htons, htons-lt, htons_pow_pos,
}
use native.Mathlib.Nat.{pow-suc}
use antop.Addr.{Addr, IsAddr, word, set_word, check_addr_space, words_differ, bits_differ}
use antop.Addr.Hamming.{
  hamming, differ, hamming_refl, hamming_comm, hamming-append, hamming-eq_of_zero,
}
use antop.Addr.Bits.{host_bits, bits_down, word_bits, length-word_bits, bits_from}
use antop.Addr.Prefix.{prefix-take, hamming-prefix}

pub word-lt : (a : Addr) (i : ℕ) → IsAddr a → word a i < 65536
word-lt a zero v = v.b0
word-lt a (suc zero) v = v.b1
word-lt a (suc (suc zero)) v = v.b2
word-lt a (suc (suc (suc zero))) v = v.b3
word-lt a (suc (suc (suc (suc zero)))) v = v.b4
word-lt a (suc (suc (suc (suc (suc zero))))) v = v.b5
word-lt a (suc (suc (suc (suc (suc (suc zero)))))) v = v.b6
word-lt a (suc (suc (suc (suc (suc (suc (suc zero))))))) v = v.b7
word-lt a (suc (suc (suc (suc (suc (suc (suc (suc i)))))))) v = omega arith

pub set_word-IsAddr : (a : Addr) (i w : ℕ) → IsAddr a → w < 65536 → IsAddr (set_word a i w)
set_word-IsAddr a zero w v h = omega arith
set_word-IsAddr a (suc zero) w v h = omega arith
set_word-IsAddr a (suc (suc zero)) w v h = omega arith
set_word-IsAddr a (suc (suc (suc zero))) w v h = omega arith
set_word-IsAddr a (suc (suc (suc (suc zero)))) w v h = omega arith
set_word-IsAddr a (suc (suc (suc (suc (suc zero))))) w v h = omega arith
set_word-IsAddr a (suc (suc (suc (suc (suc (suc zero)))))) w v h = omega arith
set_word-IsAddr a (suc (suc (suc (suc (suc (suc (suc zero))))))) w v h = omega arith
set_word-IsAddr a (suc (suc (suc (suc (suc (suc (suc (suc i)))))))) w v h = v

bits_down_ext : (k n m : ℕ) → bits_down k n ≡ bits_down k m → (i : ℕ) → i < k → bit i n ≡ bit i m
unfolding bits_down
bits_down_ext zero n m e i h = absurd (omega arith)
bits_down_ext (suc k) n m e i h = elim (Bool-cases (i == k)) [
  | inl top ↦ let same : i ≡ k = ground arith in rw same (cc)
  | inr low ↦ bits_down_ext k n m (cc) i (ground arith)
]

-- A word is known by its bits.
pub word_bits-injective : (w v : ℕ) → w < 65536 → v < 65536 → word_bits w ≡ word_bits v → w ≡ v
unfolding word_bits
word_bits-injective w v p q e =
    sym (htons-htons w p)
    ∙ ap htons (bit_ext 16 (htons w) (htons v) (htons-lt w) (htons-lt v) (bits_down_ext 16 _ _ e))
    ∙ htons-htons v q

zero_words : (w v : ℕ) → w < 65536 → v < 65536 → hamming (word_bits w) (word_bits v) ≡ 0 → w ≡ v
zero_words w v p q e =
    word_bits-injective w v p q
      (hamming-eq_of_zero _ _ (length-word_bits w ∙ sym (length-word_bits v)) e)

word_test :
    (w v : ℕ) → w < 65536 → v < 65536 → (v == w) ≡ (hamming (word_bits w) (word_bits v) == 0)
word_test w v p q = elim (Bool-cases (v == w)) [
  | inl e ↦ let same : v ≡ w = ground arith in rw same (ground (arith, hamming_refl (word_bits w)))
  | inr e ↦ ground (arith, zero_words w v p q)
]

words_differ-hamming :
    (left i : ℕ) (a b : Addr)
    → IsAddr a
    → IsAddr b
    → words_differ left i a b
      ≡ not (hamming (bits_from left (i + 4) a) (bits_from left (i + 4) b) == 0)
unfolding words_differ bits_from
words_differ-hamming zero i a b va vb = unfold hamming in refl
words_differ-hamming (suc left) i a b va vb =
    let w = word a (i + 4) in
    let v = word b (i + 4) in
    let next : i + 1 + 4 ≡ i + 4 + 1 = omega arith in
    rw (word_test w v (word-lt a (i + 4) va) (word-lt b (i + 4) vb)) (
      ground (
        arith,
        hamming-append (word_bits w) (word_bits v) (bits_from left (i + 4 + 1) a)
            (bits_from left (i + 4 + 1) b) (length-word_bits w ∙ sym (length-word_bits v)),
        subst
            (λ k.
              words_differ left (i + 1) a b
              ≡ not (hamming (bits_from left k a) (bits_from left k b) == 0))
            next (words_differ-hamming left (i + 1) a b va vb),
      ))

digit_test :
    (b c : Bool) (j : ℕ)
    → j < 16
    → (htons (digit b * 2 ^ j) == htons (digit c * 2 ^ j)) ≡ (differ b c == 0)
unfolding differ
digit_test true true j h = ground arith
digit_test true false j h =
    let one : 1 * 2 ^ j ≡ 2 ^ j = omega arith in
    let none_set : 0 * 2 ^ j ≡ 0 = omega arith in
    let nothing : htons 0 ≡ 0 = unfold htons in refl in
    rw (one, none_set, nothing) (ground (arith, htons_pow_pos j h))
digit_test false true j h =
    let one : 1 * 2 ^ j ≡ 2 ^ j = omega arith in
    let none_set : 0 * 2 ^ j ≡ 0 = omega arith in
    let nothing : htons 0 ≡ 0 = unfold htons in refl in
    rw (one, none_set, nothing) (ground (arith, htons_pow_pos j h))
digit_test false false j h = ground arith

bit_test :
    (w v j : ℕ)
    → j < 16
    → (htons (bit_and (htons v) (2 ^ j)) == htons (bit_and (htons w) (2 ^ j)))
      ≡ (differ (bit j (htons v)) (bit j (htons w)) == 0)
bit_test w v j h =
    rw (bit_and-pow j (htons v), bit_and-pow j (htons w))
      (digit_test (bit j (htons v)) (bit j (htons w)) j h)

bits_differ-hamming :
    (left j w v : ℕ)
    → left ≤ j + 1
    → j < 16
    → bits_differ left (2 ^ j) w v
      ≡ not (
          hamming
            (take left (bits_down (suc j) (htons v)))
            (take left (bits_down (suc j) (htons w)))
          == 0)
unfolding bits_differ bits_down hamming
bits_differ-hamming zero j w v h lt = refl
bits_differ-hamming (suc zero) zero w v h lt = rw (bit_test w v 0 lt) (ground arith)
bits_differ-hamming (suc (suc left)) zero w v h lt = absurd (omega arith)
bits_differ-hamming (suc left) (suc j) w v h lt =
    let half : 2 ^ suc j / 2 ≡ 2 ^ j = omega (arith, pow-suc 2 j) in
    rw (bit_test w v (suc j) lt, half)
      (ground (arith, bits_differ-hamming left j w v (omega arith) (omega arith)))

-- An address lies in the space of another exactly when no bit that the mask covers differs.
pub check_addr_space-hamming :
    (a b : Addr) (mask : ℕ)
    → IsAddr a
    → IsAddr b
    → mask ≤ 64
    → check_addr_space a b mask
      ≡ (if hamming (take mask (host_bits a)) (take mask (host_bits b)) == 0 then 0 else 1)
unfolding check_addr_space
check_addr_space-hamming a b mask va vb h =
    let q = mask / 16 in
    let r = mask % 16 in
    let split : q * 16 + r ≡ mask = omega arith in
    let same = λ (c : Addr).
      ap (λ m. take m (host_bits c)) (sym split) ∙ prefix-take q r c (omega arith) (omega arith) in
    rw
      (
        same a,
        same b,
        hamming-prefix q r a b,
        words_differ-hamming q 0 a b va vb,
        bits_differ-hamming r 15 (word a (q + 4)) (word b (q + 4)) (omega arith) (omega arith),
        hamming_comm (take r (bits_down 16 (htons (word b (q + 4)))))
            (take r (bits_down 16 (htons (word a (q + 4))))),
      )
      (unfold word_bits in ground arith)
