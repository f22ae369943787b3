-- ===== src/Examples/Sums.antt =====
-- Checksums.
use antop.Base.{◌<◌, ◌≡◌, true, [], ◌∷◌, arith}
use antop.Checksum.{cksum_sum}
use antop.Checksum.Sum
use antop.Checksum.Sum.{big_endian_sum, EvenBytes}

four_bytes-EvenBytes : EvenBytes (1 ∷ 2 ∷ 3 ∷ 4 ∷ [])
four_bytes-EvenBytes = (omega arith, omega arith, (omega arith, omega arith, tt))

four_bytes-lt : big_endian_sum (1 ∷ 2 ∷ 3 ∷ 4 ∷ []) < 4294967296
unfolding big_endian_sum
four_bytes-lt = omega arith

cksum_sum_lem_example : cksum_sum true (1 ∷ 2 ∷ 3 ∷ 4 ∷ []) ≡ big_endian_sum (1 ∷ 2 ∷ 3 ∷ 4 ∷ [])
cksum_sum_lem_example = Sum.cksum_sum_lem (1 ∷ 2 ∷ 3 ∷ 4 ∷ []) four_bytes-EvenBytes four_bytes-lt
