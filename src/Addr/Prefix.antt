-- ===== src/Addr/Prefix.antt =====
-- The first m of an address' 64 host bits, word by word.
use antop.Base.{
  ℕ, zero, suc, ◌+◌, ◌-◌, ◌*◌, ◌/◌, ◌%◌, ◌≤◌, ◌<◌, ◌≡◌, sym, ap, ◌∙◌, Bool, List, ◌++◌, arith,
  length, take, take-append, take-append_le, take_all, length-append, htons, bit,
}
use mathlib.Core.List.{append_assoc, append-nil}
use antop.Addr.{Addr, word, count_down, dist_w_mask}
use antop.Addr.Hamming.{hamming, differ, hamming-append}
use antop.Addr.Bits.{
  host_bits, word_bits, bits_from, bits_down, length-word_bits, length-bits_from,
  count_words-hamming, count_bit,
}

-- Whole words, then the top `r` bits of the next one.
unfoldable pub prefix : ℕ → ℕ → Addr → List Bool
prefix q r a = bits_from q 4 a ++ take r (word_bits (word a (q + 4)))

pub length-host_bits : (a : Addr) → length (host_bits a) ≡ 64
unfolding host_bits
length-host_bits a = omega (
  arith,
  length-append (word_bits a.w4) (word_bits a.w5 ++ (word_bits a.w6 ++ word_bits a.w7)),
  length-append (word_bits a.w5) (word_bits a.w6 ++ word_bits a.w7),
  length-append (word_bits a.w6) (word_bits a.w7),
  length-word_bits a.w4,
  length-word_bits a.w5,
  length-word_bits a.w6,
  length-word_bits a.w7,
)

-- Taking k bits past a whole word.
take-word :
    (w k : ℕ) (rest : List Bool) → take (16 + k) (word_bits w ++ rest) ≡ word_bits w ++ take k rest
take-word w k rest = take-append (word_bits w) rest (16 + k) k (omega (arith, length-word_bits w))

take_top :
    (w r : ℕ) (rest : List Bool) → r ≤ 16 → take r (word_bits w ++ rest) ≡ take r (word_bits w)
take_top w r rest h = take-append_le (word_bits w) rest r (omega (arith, length-word_bits w))

pub prefix-take :
    (q r : ℕ) (a : Addr) → q * 16 + r ≤ 64 → r < 16 → take (q * 16 + r) (host_bits a) ≡ prefix q r a
unfolding prefix bits_from host_bits
prefix-take zero r a h lt =
    let e : 0 * 16 + r ≡ r = omega arith in rw e (take_top a.w4 r _ (omega arith))
prefix-take (suc zero) r a h lt =
    let e : 1 * 16 + r ≡ 16 + r = omega arith in
    rw (e, take-word a.w4 r, take_top a.w5 r (word_bits a.w6 ++ word_bits a.w7) (omega arith))
      (simp append-nil)
prefix-take (suc (suc zero)) r a h lt =
    let e : 2 * 16 + r ≡ 16 + (16 + r) = omega arith in
    rw
      (e, take-word a.w4 (16 + r), take-word a.w5 r, take_top a.w6 r (word_bits a.w7) (omega arith))
      (simp (append_assoc, append-nil))
prefix-take (suc (suc (suc zero))) r a h lt =
    let e : 3 * 16 + r ≡ 16 + (16 + (16 + r)) = omega arith in
    rw (e, take-word a.w4 (16 + (16 + r)), take-word a.w5 (16 + r), take-word a.w6 r)
      (simp (append_assoc, append-nil))
prefix-take (suc (suc (suc (suc zero)))) r a h lt =
    let none_left : r ≡ 0 = omega arith in
    rw (none_left, take_all (host_bits a) 64 (omega (arith, length-host_bits a)))
      (simp (append_assoc, append-nil))
prefix-take (suc (suc (suc (suc (suc q))))) r a h lt = absurd (omega arith)

-- The descending loop compares the top bits of one word.
count_down-hamming :
    (left j w v count : ℕ)
    → left ≤ j + 1
    → j < 16
    → count_down left j w v count
      ≡ count
        + hamming
            (take left (bits_down (suc j) (htons w)))
            (take left (bits_down (suc j) (htons v)))
unfolding count_down hamming bits_down
count_down-hamming zero j w v count h lt = omega arith
count_down-hamming (suc zero) zero w v count h lt = rw (count_bit 0 w v count lt) (omega arith)
count_down-hamming (suc (suc left)) zero w v count h lt = absurd (omega arith)
count_down-hamming (suc left) (suc j) w v count h lt =
    let below : suc j - 1 ≡ j = omega arith in
    rw (count_bit (suc j) w v count lt, below)
      (omega (
        arith,
        count_down-hamming left j w v
            (count + differ (bit (suc j) (htons w)) (bit (suc j) (htons v))) (omega arith)
            (omega arith),
      ))

pub hamming-prefix :
    (q r : ℕ) (a b : Addr)
    → hamming (prefix q r a) (prefix q r b)
      ≡ hamming (bits_from q 4 a) (bits_from q 4 b)
        + hamming (take r (word_bits (word a (q + 4)))) (take r (word_bits (word b (q + 4))))
unfolding prefix
hamming-prefix q r a b =
    hamming-append (bits_from q 4 a) (bits_from q 4 b) _ _
      (length-bits_from q 4 a ∙ sym (length-bits_from q 4 b))

-- `dist_w_mask` is the distance of the first `prim_mask` host bits.
pub dist_w_mask-hamming :
    (a b : Addr) (mask : ℕ)
    → mask ≤ 64
    → dist_w_mask a b mask ≡ hamming (take mask (host_bits a)) (take mask (host_bits b))
unfolding dist_w_mask
dist_w_mask-hamming a b mask h =
    let q = mask / 16 in
    let r = mask % 16 in
    let whole : 4 + q - 4 ≡ q = omega arith in
    let rest : 15 - (15 - r) ≡ r = omega arith in
    let index : 4 + q ≡ q + 4 = omega arith in
    let split : q * 16 + r ≡ mask = omega arith in
    let same = λ (c : Addr).
      ap (λ m. take m (host_bits c)) (sym split) ∙ prefix-take q r c (omega arith) (omega arith) in
    rw
      (
        whole,
        rest,
        index,
        same a,
        same b,
        count_words-hamming q 4 a b 0,
        count_down-hamming r 15 (word a (q + 4)) (word b (q + 4))
            (0 + hamming (bits_from q 4 a) (bits_from q 4 b)) (omega arith) (omega arith),
        hamming-prefix q r a b,
      )
      (unfold word_bits in omega arith)
