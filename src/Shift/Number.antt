-- ===== src/Shift/Number.antt =====
-- `shift_unos` on the address as one number.
use antop.Base.{
  ℕ, zero, suc, ◌*◌, ◌/◌, ◌%◌, ◌^◌, ◌≡◌, refl, sym, ap, ◌∙◌, List, [], ◌∷◌, length, arith, bit_and,
  if◌then◌else◌, ◌==◌, subst, htons, htons-lt, htons-htons,
}
use antop.Addr.{Addr}
use antop.Shift.{
  map_words, left_words, right_words, left_times, right_times, words_up, words_down, of_words_up,
  of_words_down, shift_host, shift_unos,
}
use antop.Shift.Value.{
  value_low, value_high, AllWords, span, capacity, left_words-AllWords, right_words-AllWords,
  left_times-value, right_times-value,
}

-- The 128 bits of an address in network order, as a number.
unfoldable pub number : Addr → ℕ
unfolding value_high words_up map_words
number a = value_high 0 (words_up (map_words htons a))

words_up-of_words_up : (a : Addr) (ws : List ℕ) → length ws ≡ 8 → words_up (of_words_up a ws) ≡ ws
unfolding words_up of_words_up
words_up-of_words_up a [] h = absurd (omega arith)
words_up-of_words_up a (x0 ∷ []) h = absurd (omega arith)
words_up-of_words_up a (x0 ∷ x1 ∷ []) h = absurd (omega arith)
words_up-of_words_up a (x0 ∷ x1 ∷ x2 ∷ []) h = absurd (omega arith)
words_up-of_words_up a (x0 ∷ x1 ∷ x2 ∷ x3 ∷ []) h = absurd (omega arith)
words_up-of_words_up a (x0 ∷ x1 ∷ x2 ∷ x3 ∷ x4 ∷ []) h = absurd (omega arith)
words_up-of_words_up a (x0 ∷ x1 ∷ x2 ∷ x3 ∷ x4 ∷ x5 ∷ []) h = absurd (omega arith)
words_up-of_words_up a (x0 ∷ x1 ∷ x2 ∷ x3 ∷ x4 ∷ x5 ∷ x6 ∷ []) h = absurd (omega arith)
words_up-of_words_up a (x0 ∷ x1 ∷ x2 ∷ x3 ∷ x4 ∷ x5 ∷ x6 ∷ x7 ∷ []) h = refl
words_up-of_words_up a (x0 ∷ x1 ∷ x2 ∷ x3 ∷ x4 ∷ x5 ∷ x6 ∷ x7 ∷ x8 ∷ xs) h = absurd (omega arith)

words_down-of_words_down :
    (a : Addr) (ws : List ℕ) → length ws ≡ 8 → words_down (of_words_down a ws) ≡ ws
unfolding words_down of_words_down
words_down-of_words_down a [] h = absurd (omega arith)
words_down-of_words_down a (x0 ∷ []) h = absurd (omega arith)
words_down-of_words_down a (x0 ∷ x1 ∷ []) h = absurd (omega arith)
words_down-of_words_down a (x0 ∷ x1 ∷ x2 ∷ []) h = absurd (omega arith)
words_down-of_words_down a (x0 ∷ x1 ∷ x2 ∷ x3 ∷ []) h = absurd (omega arith)
words_down-of_words_down a (x0 ∷ x1 ∷ x2 ∷ x3 ∷ x4 ∷ []) h = absurd (omega arith)
words_down-of_words_down a (x0 ∷ x1 ∷ x2 ∷ x3 ∷ x4 ∷ x5 ∷ []) h = absurd (omega arith)
words_down-of_words_down a (x0 ∷ x1 ∷ x2 ∷ x3 ∷ x4 ∷ x5 ∷ x6 ∷ []) h = absurd (omega arith)
words_down-of_words_down a (x0 ∷ x1 ∷ x2 ∷ x3 ∷ x4 ∷ x5 ∷ x6 ∷ x7 ∷ []) h = refl
words_down-of_words_down a (x0 ∷ x1 ∷ x2 ∷ x3 ∷ x4 ∷ x5 ∷ x6 ∷ x7 ∷ x8 ∷ xs) h =
    absurd (omega arith)

-- Both orders hold the same number.
value_high-words_up : (a : Addr) → value_high 0 (words_up a) ≡ value_low (words_down a)
unfolding value_high words_up value_low words_down
value_high-words_up a = omega arith

length-left_words : (carry : ℕ) (ws : List ℕ) → length (left_words carry ws) ≡ length ws
unfolding left_words
length-left_words carry [] = refl
length-left_words carry (w ∷ ws) =
    ap suc (length-left_words (if bit_and w 32768 == 0 then 0 else 1) ws)

length-right_words : (carry : ℕ) (ws : List ℕ) → length (right_words carry ws) ≡ length ws
unfolding right_words
length-right_words carry [] = refl
length-right_words carry (w ∷ ws) =
    ap suc (length-right_words (if bit_and w 1 == 0 then 0 else 1) ws)

-- The loops keep the number of words and their width.
left_times-AllWords :
    (k : ℕ) (ws : List ℕ)
    → AllWords ws
    → AllWords (left_times k ws) × (length (left_times k ws) ≡ length ws)
unfolding left_times
left_times-AllWords zero ws v = (v, refl)
left_times-AllWords (suc k) ws v =
    let (kept, same) =
      left_times-AllWords k (left_words 0 ws) (left_words-AllWords 0 ws (omega arith) v) in
    (kept, same ∙ length-left_words 0 ws)

right_times-AllWords :
    (k : ℕ) (ws : List ℕ)
    → AllWords ws
    → AllWords (right_times k ws) × (length (right_times k ws) ≡ length ws)
unfolding right_times
right_times-AllWords zero ws v = (v, refl)
right_times-AllWords (suc k) ws v =
    let (kept, same) =
      right_times-AllWords k (right_words 0 ws) (right_words-AllWords 0 ws (omega arith) v) in
    (kept, same ∙ length-right_words 0 ws)

-- The bytes exchanged twice.
swap_back :
    (a : Addr) → AllWords (words_up a) → number (map_words htons a) ≡ value_high 0 (words_up a)
unfolding AllWords words_up map_words number
swap_back a (h0, (h1, (h2, (h3, (h4, (h5, (h6, (h7, h8)))))))) =
    rw
      (
        htons-htons a.w0 h0,
        htons-htons a.w1 h1,
        htons-htons a.w2 h2,
        htons-htons a.w3 h3,
        htons-htons a.w4 h4,
        htons-htons a.w5 h5,
        htons-htons a.w6 h6,
        htons-htons a.w7 h7,
      )
      refl

swapped-AllWords : (a : Addr) → AllWords (words_up (map_words htons a))
unfolding AllWords words_up map_words
swapped-AllWords a = (
  htons-lt a.w0,
  (
    htons-lt a.w1,
    (
      htons-lt a.w2,
      (
        htons-lt a.w3,
        (htons-lt a.w4, (htons-lt a.w5, (htons-lt a.w6, (htons-lt a.w7, record {})))),
      ),
    ),
  ),
)

words_up-AllWords : (a : Addr) → AllWords (words_down a) → AllWords (words_up a)
unfolding AllWords words_up words_down
words_up-AllWords a (h7, (h6, (h5, (h4, (h3, (h2, (h1, (h0, h8)))))))) =
    (h0, (h1, (h2, (h3, (h4, (h5, (h6, (h7, h8))))))))

words_down-AllWords : (a : Addr) → AllWords (words_up a) → AllWords (words_down a)
unfolding AllWords words_up words_down
words_down-AllWords a (h0, (h1, (h2, (h3, (h4, (h5, (h6, (h7, h8)))))))) =
    (h7, (h6, (h5, (h4, (h3, (h2, (h1, (h0, h8))))))))

-- A left shift multiplies by 2 for every place, modulo 2 ^ 128.
shift_unos-left : (k : ℕ) (a : Addr) → number (shift_unos 1 k a) ≡ number a * 2 ^ k % capacity
unfolding shift_unos shift_host number span words_down words_up map_words
shift_unos-left k a =
    let host = map_words htons a in
    let ws = words_down host in
    let wide = words_down-AllWords host (swapped-AllWords a) in
    let (kept, same) = left_times-AllWords k ws wide in
    let moved = of_words_down host (left_times k ws) in
    let back = words_down-of_words_down host (left_times k ws) same in
    let wide' = words_up-AllWords moved (subst AllWords (sym back) kept) in
    swap_back moved wide'
    ∙ value_high-words_up moved
    ∙ ap value_low back
    ∙ left_times-value k ws wide refl
    ∙ ap (λ (n : ℕ). n * 2 ^ k % capacity) (sym (value_high-words_up host))

-- A right shift divides by 2 for every place.
shift_unos-right : (k : ℕ) (a : Addr) → number (shift_unos 0 k a) ≡ number a / 2 ^ k
unfolding shift_unos shift_host number words_up map_words
shift_unos-right k a =
    let host = map_words htons a in
    let ws = words_up host in
    let wide = swapped-AllWords a in
    let (kept, same) = right_times-AllWords k ws wide in
    let moved = of_words_up host (right_times k ws) in
    let back = words_up-of_words_up host (right_times k ws) same in
    let wide' = subst AllWords (sym back) kept in
    swap_back moved wide' ∙ ap (value_high 0) back ∙ right_times-value k ws wide

-- `shift_unos` multiplies the 128-bit number by 2 ^ cantidad, modulo 2 ^ 128, or divides it.
pub shift_unos_lem :
    (cantidad : ℕ) (addr : Addr)
    → (number (shift_unos 1 cantidad addr) ≡ number addr * 2 ^ cantidad % capacity)
      × (number (shift_unos 0 cantidad addr) ≡ number addr / 2 ^ cantidad)
shift_unos_lem cantidad addr = (shift_unos-left cantidad addr, shift_unos-right cantidad addr)
