-- ===== src/Checksum/Sum.antt =====
-- What the sums of bytes are, and the law of the one's complement.
use antop.Base.{ℕ, ◌+◌, ◌*◌, ◌%◌, ◌<◌, ◌≡◌, ◌∙◌, true, List, [], ◌∷◌, htons, arith}
use antop.Checksum.{cksum_loop, cksum_sum, complement16}

-- The bytes in pairs, most significant first, as the Internet checksum sums them.
unfoldable pub big_endian_sum : List ℕ → ℕ
big_endian_sum [] = 0
big_endian_sum (b ∷ []) = 256 * b
big_endian_sum (b ∷ c ∷ bs) = 256 * b + c + big_endian_sum bs

-- An even number of bytes.
abbrev pub EvenBytes : List ℕ → Type 0
EvenBytes [] = Unit {0}
EvenBytes (b ∷ []) = ⊥
EvenBytes (b ∷ c ∷ bs) = (b < 256) × (c < 256) × EvenBytes bs

htons-pair : (b c : ℕ) → b < 256 → c < 256 → htons (b + 256 * c) ≡ 256 * b + c
unfolding htons
htons-pair b c p q = omega arith

loop-even :
    (ret sum : ℕ) (bs : List ℕ)
    → EvenBytes bs
    → sum + big_endian_sum bs < 4294967296
    → cksum_loop true ret sum bs ≡ sum + big_endian_sum bs
unfolding cksum_loop big_endian_sum
loop-even ret sum [] e h = omega arith
loop-even ret sum (b ∷ []) e h = absurd e
loop-even ret sum (b ∷ c ∷ bs) e h =
    let word = htons-pair b c e.0 e.1 in
    let small : (sum + (256 * b + c)) % 4294967296 ≡ sum + (256 * b + c) = omega arith in
    rw (word, small, loop-even (256 * b + c) (sum + (256 * b + c)) bs e.2 (omega arith))
      (omega arith)

-- Of an even number of bytes, `cksum_sum` in network order is the sum of the 16-bit words, as long
-- as that sum fits in 32 bits.
pub cksum_sum_lem :
    (bs : List ℕ)
    → EvenBytes bs
    → big_endian_sum bs < 4294967296
    → cksum_sum true bs ≡ big_endian_sum bs
unfolding cksum_sum
cksum_sum_lem bs e h = loop-even 0 0 bs e (omega (arith, h)) ∙ omega arith

-- Of three bytes it is not: the last byte is counted as the low byte of a word, and the high byte
-- of the word before is counted a second time.
pub cksum_sum_odd :
    (b c d : ℕ)
    → b < 256
    → c < 256
    → d < 256
    → cksum_sum true (b ∷ c ∷ d ∷ []) ≡ (256 * b + c) + (256 * b + d)
unfolding cksum_sum cksum_loop htons
cksum_sum_odd b c d p q r = omega arith

-- The complement fits in 16 bits, and brings any 32-bit sum to a multiple of 65535, which is how a
-- receiver checks it.
pub complement16_lem :
    (sum : ℕ)
    → sum < 4294967296
    → (complement16 sum < 65536) × ((sum + complement16 sum) % 65535 ≡ 0)
unfolding complement16
complement16_lem sum h = (omega arith, omega arith)
