-- ===== src/Addr/Metric.antt =====
-- What the two distances and the address-space test promise.
use antop.Base.{
  ℕ, ◌+◌, ◌≤◌, ◌≡◌, sym, ap, ◌∙◌, ◌↔◌, List, Bool, arith, length, take, ◌==◌, if◌then◌else◌,
  length-take_le, take_all,
}
use antop.Addr.{Addr, IsAddr, dist, dist_w_mask, check_addr_space}
use antop.Addr.Hamming.{
  hamming, hamming_refl, hamming_comm, hamming_triangle, hamming-le-length, hamming-eq_of_zero,
  hamming-take-le,
}
use antop.Addr.Bits.{host_bits, bits_from, count_words-hamming}
use antop.Addr.Prefix.{length-host_bits, dist_w_mask-hamming}
use antop.Addr.Space.{check_addr_space-hamming}
use mathlib.Core.List.{append-nil}

bits_from-host_bits : (a : Addr) → bits_from 4 4 a ≡ host_bits a
unfolding bits_from host_bits
bits_from-host_bits a = simp append-nil

-- `dist` of two addresses is the number of places where their 64 host bits, most significant
-- first, differ.
pub dist-hamming : (a b : Addr) → dist a b ≡ hamming (host_bits a) (host_bits b)
unfolding dist
dist-hamming a b =
    rw (count_words-hamming 4 4 a b 0, bits_from-host_bits a, bits_from-host_bits b) (omega arith)

same_length : (a b : Addr) → length (host_bits a) ≡ length (host_bits b)
same_length a b = length-host_bits a ∙ sym (length-host_bits b)

pub dist_metric :
    (a b c : Addr)
    → (dist a a ≡ 0) × (dist a b ≡ dist b a) × (dist a c ≤ dist a b + dist b c) × (dist a b ≤ 64)
dist_metric a b c =
    rw (dist-hamming a a, dist-hamming a b, dist-hamming b a, dist-hamming a c, dist-hamming b c)
      (
        hamming_refl (host_bits a),
        hamming_comm (host_bits a) (host_bits b),
        hamming_triangle (host_bits a) (host_bits b) (host_bits c) (same_length a b)
            (same_length b c),
        omega (arith, hamming-le-length (host_bits a) (host_bits b), length-host_bits a),
      )

-- For a mask of at most 64: `dist_w_mask` is never more than `dist`, and at the full
-- mask 64 it is `dist`.
pub dist_w_mask-le-dist :
    (a b : Addr) (mask : ℕ)
    → mask ≤ 64
    → (dist_w_mask a b mask ≤ dist a b) × (dist_w_mask a b 64 ≡ dist a b)
dist_w_mask-le-dist a b mask h =
    rw (dist_w_mask-hamming a b mask h, dist_w_mask-hamming a b 64 (omega arith), dist-hamming a b)
      (
        hamming-take-le mask (host_bits a) (host_bits b),
        rw (
          take_all (host_bits a) 64 (omega (arith, length-host_bits a)),
          take_all (host_bits b) 64 (omega (arith, length-host_bits b)),
        ),
      )

-- For addresses, and a mask of at most 64: `check_addr_space` answers 0 exactly when `dist_w_mask` is 0, and 1 otherwise: the two routines
-- agree on what lies in an address space.
pub check_addr_space-dist_w_mask :
    (a b : Addr) (mask : ℕ)
    → IsAddr a
    → IsAddr b
    → mask ≤ 64
    → check_addr_space a b mask ≡ (if dist_w_mask a b mask == 0 then 0 else 1)
check_addr_space-dist_w_mask a b mask va vb h =
    rw (dist_w_mask-hamming a b mask h) (check_addr_space-hamming a b mask va vb h)

-- For addresses, and a mask of at most 64: `check_addr_space` answers 0 exactly when the first
-- `mask` host bits of the two addresses are the same.
pub InSpace_iff :
    (a b : Addr) (mask : ℕ)
    → IsAddr a
    → IsAddr b
    → mask ≤ 64
    → (check_addr_space a b mask ≡ 0) ↔ (take mask (host_bits a) ≡ take mask (host_bits b))
InSpace_iff a b mask va vb h = rw (check_addr_space-hamming a b mask va vb h) (there, back)
  where
    xs : List Bool
    xs = take mask (host_bits a)

    ys : List Bool
    ys = take mask (host_bits b)

    same : length xs ≡ length ys
    same =
        length-take_le mask (host_bits a) (omega (arith, length-host_bits a))
        ∙ sym (length-take_le mask (host_bits b) (omega (arith, length-host_bits b)))

    there : ◌≡◌ {A = ℕ} (if hamming xs ys == 0 then 0 else 1) 0 → xs ≡ ys
    there e = hamming-eq_of_zero xs ys same (ground arith)

    back : xs ≡ ys → ◌≡◌ {A = ℕ} (if hamming xs ys == 0 then 0 else 1) 0
    back e = ground (arith, ap (hamming xs) e, hamming_refl xs)
