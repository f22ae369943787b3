-- ===== src/Alloc/Toggle.antt =====
-- The proposed address differs from the parent's in one bit, the first that the mask leaves free.
use antop.Base.{
  ℕ, zero, suc, ◌+◌, ◌-◌, ◌*◌, ◌/◌, ◌%◌, ◌^◌, ◌<◌, ◌≡◌, refl, sym, ap, ap₂, ◌∙◌, Bool, not, true,
  false, List, [], ◌∷◌, ◌++◌, arith, inl, inr, Bool-cases, length, ◌==◌, if◌then◌else◌, ltb,
  all_below, all_below_sound, u16, bit, htons, swap, htons-pow, bit-htons, swap-lt, swap-test,
  bit_and-htons_pow, htons_pow_pos, bit-add_pow, bit-sub_pow, add_pow-lt, pow-le_of_bit,
}
use antop.Addr.{Addr, IsAddr, word, set_word}
use antop.Addr.Hamming.{flip}
use antop.Addr.Bits.{bits_down, word_bits, host_bits, length-word_bits}
use antop.Alloc.{toggle, next_addr}

pow_table : all_below 16 (λ j. ltb (2 ^ j) 65536) ≡ true
unfolding all_below
pow_table = refl

pow-lt : (j : ℕ) → j < 16 → 2 ^ j < 65536
pow-lt j h = ground (arith, all_below_sound (λ j. ltb (2 ^ j) 65536) j 16 h pow_table)

-- A clear bit is set by the addition, a set one cleared by the subtraction; neither carries.
toggle_clear :
    (w j : ℕ) → w < 65536 → j < 16 → bit j (htons w) ≡ false → toggle w j ≡ w + 2 ^ swap j
unfolding toggle
toggle_clear w j p q e =
    let small : u16 (2 ^ j) ≡ 2 ^ j = omega (arith, pow-lt j q) in
    rw (small, bit_and-htons_pow j w q, e, htons-pow j q)
      (ground (arith, add_pow-lt (swap j) 16 w (bit-htons j w q ∙ e) (swap-lt j q) p))

toggle_set : (w j : ℕ) → w < 65536 → j < 16 → bit j (htons w) ≡ true → toggle w j ≡ w - 2 ^ swap j
unfolding toggle
toggle_set w j p q e =
    let small : u16 (2 ^ j) ≡ 2 ^ j = omega (arith, pow-lt j q) in
    rw (small, bit_and-htons_pow j w q, e, htons-pow j q)
      (ground
        (arith, htons_pow_pos j q, htons-pow j q, pow-le_of_bit (swap j) w (bit-htons j w q ∙ e)))

pub bit-toggle :
    (i j w : ℕ)
    → i < 16
    → j < 16
    → w < 65536
    → bit i (htons (toggle w j)) ≡ (if i == j then not (bit i (htons w)) else bit i (htons w))
bit-toggle i j w p q r = elim (Bool-cases (bit j (htons w))) [
  | inl e ↦
      rw
        (
          toggle_set w j r q e,
          sym (bit-htons i (w - 2 ^ swap j) p),
          bit-sub_pow (swap i) (swap j) w (bit-htons j w q ∙ e),
          swap-test i j p q,
          bit-htons i w p,
        )
        (ground (arith, e))
  | inr e ↦
      rw
        (
          toggle_clear w j r q e,
          sym (bit-htons i (w + 2 ^ swap j) p),
          bit-add_pow (swap i) (swap j) w (bit-htons j w q ∙ e),
          swap-test i j p q,
          bit-htons i w p,
        )
        (ground (arith, e))
]

pub toggle-lt : (w j : ℕ) → w < 65536 → j < 16 → toggle w j < 65536
unfolding toggle
toggle-lt w j p q = ground arith

bits_down-same : (k n m : ℕ) → ((i : ℕ) → i < k → bit i m ≡ bit i n) → bits_down k m ≡ bits_down k n
unfolding bits_down
bits_down-same zero n m same = refl
bits_down-same (suc k) n m same =
    ap₂ ◌∷◌ (same k (omega arith)) (bits_down-same k n m (λ i h. same i (omega arith)))

-- As lists: the bit at place `k - 1 - j` from the top is inverted.
bits_down-flip :
    (k j n m : ℕ)
    → j < k
    → ((i : ℕ) → i < k → bit i m ≡ (if i == j then not (bit i n) else bit i n))
    → bits_down k m ≡ flip (k - 1 - j) (bits_down k n)
unfolding bits_down flip
bits_down-flip zero j n m h same = absurd (omega arith)
bits_down-flip (suc k) j n m h same = elim (Bool-cases (j == k)) [
  | inl top ↦
      let first : suc k - 1 - j ≡ 0 = ground arith in
      rw first
        (ap₂ ◌∷◌ (ground (arith, same k)) (bits_down-same k n m (λ i lt. ground (arith, same i))))
  | inr low ↦
      let later : suc k - 1 - j ≡ suc (k - 1 - j) = ground arith in
      rw later (
        ap₂ ◌∷◌ (ground (arith, same k))
          (bits_down-flip k j n m (ground arith) (λ i lt. same i (omega arith))))
]

word_bits-toggle :
    (w j : ℕ) → w < 65536 → j < 16 → word_bits (toggle w j) ≡ flip (15 - j) (word_bits w)
unfolding word_bits
word_bits-toggle w j p q =
    bits_down-flip 16 j (htons w) (htons (toggle w j)) q (λ i h. bit-toggle i j w h q p)

flip-append_left : (xs ys : List Bool) (n : ℕ) → n < length xs → flip n (xs ++ ys) ≡ flip n xs ++ ys
unfolding flip
flip-append_left [] ys n h = absurd (omega arith)
flip-append_left (x ∷ xs) ys zero h = refl
flip-append_left (x ∷ xs) ys (suc n) h = ap (◌∷◌ x) (flip-append_left xs ys n (omega arith))

flip-append_right :
    (xs ys : List Bool) (n k : ℕ) → n ≡ length xs + k → flip n (xs ++ ys) ≡ xs ++ flip k ys
unfolding flip
flip-append_right [] ys n k e = let same : n ≡ k = omega arith in rw same
flip-append_right (x ∷ xs) ys zero k e = absurd (omega arith)
flip-append_right (x ∷ xs) ys (suc n) k e = ap (◌∷◌ x) (flip-append_right xs ys n k (omega arith))

flip-word_left :
    (w n : ℕ) (rest : List Bool)
    → n < 16
    → flip n (word_bits w ++ rest) ≡ flip n (word_bits w) ++ rest
flip-word_left w n rest h =
    flip-append_left (word_bits w) rest n (omega (arith, length-word_bits w))

flip-word_right :
    (w k : ℕ) (rest : List Bool) → flip (16 + k) (word_bits w ++ rest) ≡ word_bits w ++ flip k rest
flip-word_right w k rest =
    flip-append_right (word_bits w) rest (16 + k) k (omega (arith, length-word_bits w))

toggle_top : (w r : ℕ) → w < 65536 → r < 16 → word_bits (toggle w (15 - r)) ≡ flip r (word_bits w)
toggle_top w r p h =
    let place : 15 - (15 - r) ≡ r = omega arith in
    word_bits-toggle w (15 - r) p (omega arith) ∙ ap (λ n. flip n (word_bits w)) place

-- The same address with word `4 + q` toggled.
host_bits-set :
    (q r : ℕ) (a : Addr)
    → IsAddr a
    → q < 4
    → r < 16
    → host_bits (set_word a (4 + q) (toggle (word a (4 + q)) (15 - r)))
      ≡ flip (q * 16 + r) (host_bits a)
unfolding host_bits
host_bits-set zero r a v h lt =
    let place : 0 * 16 + r ≡ r = omega arith in
    rw (
      place,
      flip-word_left a.w4 r (word_bits a.w5 ++ (word_bits a.w6 ++ word_bits a.w7)) lt,
      toggle_top a.w4 r v.b4 lt,
    )
host_bits-set (suc zero) r a v h lt = rw (
  flip-word_right a.w4 r (word_bits a.w5 ++ (word_bits a.w6 ++ word_bits a.w7)),
  flip-word_left a.w5 r (word_bits a.w6 ++ word_bits a.w7) lt,
  toggle_top a.w5 r v.b5 lt,
)
host_bits-set (suc (suc zero)) r a v h lt =
    let place : 2 * 16 + r ≡ 16 + (16 + r) = omega arith in
    rw (
      place,
      flip-word_right a.w4 (16 + r) (word_bits a.w5 ++ (word_bits a.w6 ++ word_bits a.w7)),
      flip-word_right a.w5 r (word_bits a.w6 ++ word_bits a.w7),
      flip-word_left a.w6 r (word_bits a.w7) lt,
      toggle_top a.w6 r v.b6 lt,
    )
host_bits-set (suc (suc (suc zero))) r a v h lt =
    let place : 3 * 16 + r ≡ 16 + (16 + (16 + r)) = omega arith in
    rw (
      place,
      flip-word_right a.w4 (16 + (16 + r)) (word_bits a.w5 ++ (word_bits a.w6 ++ word_bits a.w7)),
      flip-word_right a.w5 (16 + r) (word_bits a.w6 ++ word_bits a.w7),
      flip-word_right a.w6 r (word_bits a.w7),
      toggle_top a.w7 r v.b7 lt,
    )
host_bits-set (suc (suc (suc (suc q)))) r a v h lt = absurd (omega arith)

-- The proposed address is the parent's with host bit `prim_mask` inverted.
pub next_addr-flip :
    (a : Addr) (m : ℕ) → IsAddr a → m < 64 → host_bits (next_addr a m) ≡ flip m (host_bits a)
unfolding next_addr
next_addr-flip a m v h =
    let place : m / 16 * 16 + m % 16 ≡ m = omega arith in
    host_bits-set (m / 16) (m % 16) a v (omega arith) (omega arith)
    ∙ ap (λ n. flip n (host_bits a)) place
